-- ===== src/Rpc/Presences.antt =====
-- pkg/server_jsonrpc.go: the presence of a peer, from `presence_set` to the end of its connection.
use ion_cluster.Base.{
  ◌≡◌, refl, ap, ◌∙◌, ◌≢◌, String, false, none, some, List, lookup, lookup-delete, get_elem?,
  get_elem?-set_self, arith, ite, text_discrete, is_empty, if◌then◌else◌,
}
use ion_cluster.Session.{
  Sfu, Chan, Session, update_presence_meta_for_peer, broadcast_remove_listener,
}
use ion_cluster.Session.Updates.{lookup-put_meta}
use ion_cluster.Coordinator.{not_in_session, ok, Coordinator, CoordinatorLaws}
use ion_cluster.Rpc.{
  PeerApi, Out, Listener, Conn, Request, done, send, with_params, replying, on_session,
  handle_presence_set, handle, stop,
}
use ion_cluster.Rpc.Subscribing.{on_session-some}

module _ {S : Sfu} {P : PeerApi S} {C : Type 0} (c : Coordinator S C)
    (L : CoordinatorLaws S C c) where
  dispatched :
      (pod : String) (req : Request S P) (k : Conn S P C)
      → req.method ≡ "presence_set"
      → handle c pod req k ≡ (
          if is_empty k.sid
          then done (send (Out.reply_error req.id 500 not_in_session) k)
          else with_params req.params (λ raw. replying req.id (handle_presence_set c pod raw) k))
  unfolding handle text_discrete
  dispatched pod req k is_set = rw is_set

  handle_lem_presence_set :
      (pod : String) (req : Request S P) (k : Conn S P C) (raw : P.Raw)
      → req.method ≡ "presence_set"
      → req.params ≡ some raw
      → k.sid ≢ ""
      → handle c pod req k ≡ done (replying req.id (handle_presence_set c pod raw) k)
  handle_lem_presence_set pod req k raw is_set given joined =
      let not_empty : is_empty k.sid ≡ false = ground arith in
      dispatched pod req k is_set ∙ rw (not_empty, given)

  replying-presence_set :
      (pod id : String) (k : Conn S P C) (raw : P.Raw) (meta : S.Value)
      → P.decode_meta raw ≡ ok meta
      → let ((r, _), w) = c.get_session k.sid k.world in
        replying id (handle_presence_set c pod raw) k ≡ record k {
          world = on_session r (update_presence_meta_for_peer pod (P.id k.peer) (some meta)) w;
        }
  unfolding handle_presence_set
  replying-presence_set pod id k raw meta decoded = ground arith

  -- On a connection that has joined a session of a valid world, a `presence_set` whose parameters
  -- decode stores them under the peer's own id in the session that the coordinator gives for the
  -- connection's session id, keeps every other peer's entry, and writes nothing. It never removes
  -- an entry: a JSON null is stored too.
  pub presence_set-stores :
      (pod : String) (req : Request S P) (k : Conn S P C) (raw : P.Raw) (meta : S.Value)
      → L.IsValid k.world
      → req.method ≡ "presence_set"
      → req.params ≡ some raw
      → P.decode_meta raw ≡ ok meta
      → k.sid ≢ ""
      → let ((r, _), w) = c.get_session k.sid k.world in
        (k' : Conn S P C) × (s : Session S) × (s' : Session S) × (handle c pod req k ≡ done k')
        × (get_elem? w.sessions r ≡ some s)
        × (get_elem? k'.world.sessions r ≡ some s')
        × ((key : String)
            → lookup key s'.presence
              ≡ ite (text_discrete (P.id k.peer) key) (some meta) (lookup key s.presence))
        × (k'.out ≡ k.out)
  unfolding update_presence_meta_for_peer
  presence_set-stores pod req k raw meta v is_set given decoded joined =
      let (found, w) = c.get_session k.sid k.world in
      let (s, there) = L.get_session-finds k.sid k.world v in
      let f : Session S → List (Chan S) → Session S × List (Chan S) =
        update_presence_meta_for_peer pod (P.id k.peer) (some meta) in
      (
        record k { world = on_session found.0 f w },
        s,
        (f s w.chans).0,
        handle_lem_presence_set pod req k raw is_set given joined
            ∙ ap done (replying-presence_set pod req.id k raw meta decoded),
        there,
        rw (on_session-some found.0 s f w there) (get_elem?-set_self w.sessions found.0 s _ there),
        λ key. lookup-put_meta (P.id k.peer) key (some meta) s.presence,
        refl,
      )

-- When the connection has gone, the goroutine takes the peer out of the listeners and out of the
-- presence of its session, and leaves the other peers in both as they were.
pub stop-leaves :
    {S : Sfu} {P : PeerApi S} {C : Type 0} (pod : String) (l : Listener) (k : Conn S P C)
    (s : Session S)
    → get_elem? k.world.sessions l.session ≡ some s
    → (s' : Session S) × (get_elem? (stop pod l k).world.sessions l.session ≡ some s')
      × ((key : String)
          → (lookup key s'.presence
              ≡ ite (text_discrete (P.id k.peer) key) none (lookup key s.presence))
            × (lookup key s'.broadcast_listeners
                ≡ ite (text_discrete (P.id k.peer) key) none (lookup key s.broadcast_listeners)))
unfolding stop update_presence_meta_for_peer broadcast_remove_listener
stop-leaves {S} {P} pod l k s there =
    let leave : Session S → List (Chan S) → Session S × List (Chan S) = λ s chans.
      update_presence_meta_for_peer pod (P.id k.peer) none
        (broadcast_remove_listener (P.id k.peer) s) chans in
    (
      (leave s k.world.chans).0,
      rw (on_session-some l.session s leave k.world there)
          (get_elem?-set_self k.world.sessions l.session s _ there),
      λ key. (
        lookup-put_meta (P.id k.peer) key none s.presence,
        lookup-delete (P.id k.peer) key s.broadcast_listeners,
      ),
    )
