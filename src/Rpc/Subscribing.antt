-- ===== src/Rpc/Subscribing.antt =====
-- pkg/server_jsonrpc.go, `Handle`, case "join": the subscription to the session.
use ion_cluster.Base.{
  ℕ, ◌≡◌, refl, String, some, List, [], ◌∷◌, ◌++◌, lookup, lookup-insert, length, get_elem?,
  get_elem?-set_self, get_elem?-append_end, arith,
}
use ion_cluster.Session.{Sfu, Chan, Session, broadcast_add_listener}
use ion_cluster.Coordinator.{World, Coordinator, CoordinatorLaws, with_session}
use ion_cluster.Rpc.{PeerApi, Conn, on_session, subscribe}

module _ {S : Sfu} {C : Type 0} where
  pub on_session-some :
      (r : ℕ) (s : Session S) (f : Session S → List (Chan S) → Session S × List (Chan S))
      (w : World S C)
      → get_elem? w.sessions r ≡ some s
      → on_session r f w ≡ with_session r (f s w.chans).0 (f s w.chans).1 w
  on_session-some r s f w e = ground arith

module _ {S : Sfu} {P : PeerApi S} {C : Type 0} where
  -- The connection is subscribed to a session: a new goroutine reads a new channel of 32 messages,
  -- which the session knows under the peer's id.
  pub record IsSubscribed (sid : String) (k k' : Conn S P C) : Type 0 where
    pub session : ℕ
    pub listen : ℕ
    pub object : Session S
    pub joined : k'.sid ≡ sid
    pub reads : k'.listeners ≡ k.listeners ++ record { session = session; listen = listen } ∷ []
    pub found : get_elem? k'.world.sessions session ≡ some object
    pub registered : lookup (P.id k'.peer) object.broadcast_listeners ≡ some listen
    pub fresh : get_elem? k'.world.chans listen ≡ some (record { cap = 32; buffer = [] })

  module _ (c : Coordinator S C) (L : CoordinatorLaws S C c) where
    -- The session is the one that the coordinator gives for the id.
    pub subscribe-IsSubscribed :
        (sid : String) (k : Conn S P C)
        → L.IsValid k.world
        → ((sub : IsSubscribed sid k (subscribe c sid k)) × (sub.session
              ≡ (c.get_session sid k.world).0.0))
          × L.IsValid (subscribe c sid k).world
    unfolding subscribe broadcast_add_listener
    subscribe-IsSubscribed sid k v =
        let (found, w) = c.get_session sid k.world in
        let (s, there) = L.get_session-finds sid k.world v in
        let s' : Session S = broadcast_add_listener (P.id k.peer) (length w.chans) s in
        let worked =
          on_session-some found.0 s
            (λ s chans. (broadcast_add_listener (P.id k.peer) (length w.chans) s, chans))
            (record w { chans = w.chans ++ record { cap = 32; buffer = [] } ∷ [] }) there in
        (
          (
            record {
              session = found.0;
              listen = length w.chans;
              object = s';
              joined = refl;
              reads = refl;
              found = rw worked (get_elem?-set_self w.sessions found.0 s s' there);
              registered = ground (
                arith,
                lookup-insert (P.id k.peer) (P.id k.peer) (length w.chans) s.broadcast_listeners,
              );
              fresh = rw worked (get_elem?-append_end w.chans (record { cap = 32; buffer = [] }));
            },
            refl,
          ),
          rw worked (
              L.with_session-IsValid found.0 s s' _ w (L.get_session-IsValid sid k.world v) there
                refl),
        )
