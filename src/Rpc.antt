-- ===== src/Rpc.antt =====
-- pkg/server_jsonrpc.go: the JSON-RPC methods of one websocket connection, and the goroutine that
-- passes a session's broadcasts on to it.
pub mod Replies
pub mod Subscribing
pub mod Joining
pub mod Acts
pub mod Handling
pub mod Presences
mod Tests
use ion_cluster.Base.{
  ℕ, String, Bool, true, false, Option, none, some, List, [], ◌∷◌, ◌++◌, length, get_elem?, set,
  ite, text_discrete, is_empty, if◌then◌else◌,
}
use ion_cluster.Base.Int.{ℤ}
use ion_cluster.Session.{
  Sfu, Broadcast, Params, Chan, Session, update_presence_meta_for_peer, broadcast_add_listener,
  broadcast_remove_listener,
}
use ion_cluster.Coordinator.{
  SessionMeta, Error, not_in_session, Result, ok, err, Action, ◌>>=◌, ◌>>◌, pure, gets, modify,
  World, Coordinator, with_session,
}

-- The request parameters `Join`, `Negotiation` and `Trickle`.
pub record Join (Description : Type 0) : Type 0 where
  pub sid : String
  pub uid : String
  pub offer : Description

pub record Negotiation (Description : Type 0) : Type 0 where
  pub desc : Description

pub record Trickle (Candidate : Type 0) : Type 0 where
  pub target : ℤ
  pub candidate : Candidate

-- What the handler takes from packages: the SFU's peer (`*sfu.PeerLocal`) with its methods, and the
-- decoding of raw parameters by encoding/json with the unmarshalers of the webrtc types. `Join` of
-- the peer may ask the session provider for the session that it enters.
pub record PeerApi (S : Sfu) : Type 1 where
  pub Peer : Type 0
  pub Description : Type 0
  pub Candidate : Type 0
  pub Raw : Type 0
  pub id : Peer → String
  pub asks_provider : String → String → Peer → Bool
  pub join : String → String → Option (ℕ × S.TransportConfig) → Peer → Result (Unit {0}) × Peer
  pub answer : Description → Peer → Result Description × Peer
  pub set_remote_description : Description → Peer → Result (Unit {0}) × Peer
  pub close : Peer → Peer
  pub trickle : Candidate → ℤ → Peer → Result (Unit {0}) × Peer
  pub decode_join : Raw → Result (Join Description)
  pub decode_negotiation : Raw → Result (Negotiation Description)
  pub decode_trickle : Raw → Result (Trickle Candidate)
  -- Into a `map[string]interface{}`; a JSON null gives a nil map, which is a value all the same.
  pub decode_meta : Raw → Result (S.Value)

-- What is written to the connection. A message that reports an error holds the error itself.
pub data Out (S : Sfu) (P : PeerApi S) : Type 0 where
  reply_answer : String → P.Description → Out S P
  reply_pong : String → Out S P
  reply_error : String → ℕ → Error → Out S P
  reply_redirect : String → ℕ → SessionMeta → Out S P
  notify : String → Params S → Out S P
  notify_offer : P.Description → Out S P
  notify_trickle : Trickle (P.Candidate) → Out S P

-- The goroutine that a join starts: its session and its channel.
pub record Listener : Type 0 where
  pub session : ℕ
  pub listen : ℕ

-- A connection: `JSONSignal`, the goroutines it has started, what it has written, and the node.
-- `callbacks` says whether the peer's OnOffer, OnIceCandidate and OnICEConnectionStateChange are set.
pub record Conn (S : Sfu) (P : PeerApi S) (C : Type 0) : Type 0 where
  pub peer : P.Peer
  pub sid : String
  pub callbacks : Bool
  pub listeners : List Listener
  pub closed : Bool
  pub out : List (Out S P)
  pub world : World S C

pub record Request (S : Sfu) (P : PeerApi S) : Type 0 where
  pub method : String
  pub id : String
  pub params : Option (P.Raw)

-- A nil pointer that is dereferenced panics.
pub data Outcome (A : Type 0) : Type 0 where
  done : A → Outcome A
  panics : Outcome A

module _ {S : Sfu} {C : Type 0} where
  -- Work of a method on a session in memory.
  abbrev pub on_session :
      ℕ → (Session S → List (Chan S) → Session S × List (Chan S)) → World S C → World S C
  on_session r f w = elim (get_elem? w.sessions r) [
    | none ↦ w
    | some s ↦ let (s', chans) = f s w.chans in with_session r s' chans w
  ]

module _ {S : Sfu} {P : PeerApi S} {C : Type 0} where
  abbrev pub send : Out S P → Conn S P C → Conn S P C
  send o k = record k { out = k.out ++ o ∷ [] }

  abbrev pub on_world : {A : Type 0} → Action (World S C) A → Action (Conn S P C) A
  on_world m k = let (r, w) = m k.world in (r, record k { world = w })

  abbrev pub on_peer : {A : Type 0} → Action (P.Peer) A → Action (Conn S P C) A
  on_peer m k = let (r, p) = m k.peer in (r, record k { peer = p })

  abbrev pub lift : {A : Type 0} → Result A → Action (Conn S P C) A
  lift r k = (r, k)

  -- `replyError`, where a method ends with an error.
  abbrev pub replying : String → Action (Conn S P C) (Unit {0}) → Conn S P C → Conn S P C
  replying id m k =
      let (r, k') = m k in elim r [ ok _ ↦ k' | err e ↦ send (Out.reply_error id 500 e) k' ]

  -- `*req.Params`
  abbrev pub with_params : Option (P.Raw) → (P.Raw → Conn S P C) → Outcome (Conn S P C)
  with_params none f = panics
  with_params (some raw) f = done (f raw)

  module _ (c : Coordinator S C) where
    -- `p.Join(join.SID, join.UID)`, which may look the session up.
    unfoldable pub peer_join : String → String → Action (Conn S P C) (Unit {0})
    peer_join sid uid k =
        if P.asks_provider sid uid k.peer
        then (let (found, w) = c.get_session sid k.world in
            on_peer (P.join sid uid (some found)) (record k { world = w }))
        else on_peer (P.join sid uid none) k

    -- A channel of 32 messages, registered under the peer's id, with a goroutine that reads it.
    unfoldable pub subscribe : String → Conn S P C → Conn S P C
    subscribe sid k =
        let ((r, _), w) = c.get_session sid k.world in
        let ch : ℕ = length w.chans in
        let opened : World S C = record w {
          chans = w.chans ++ record { cap = 32; buffer = [] } ∷ [];
        } in
        record k {
          sid = sid;
          listeners = k.listeners ++ record { session = r; listen = ch } ∷ [];
          world =
              on_session r (λ s chans. (broadcast_add_listener (P.id k.peer) ch s, chans)) opened;
        }

    -- What follows the answer of the peer: the callbacks, the subscription and the reply.
    abbrev pub finish_join : String → String → P.Description → Action (Conn S P C) (Unit {0})
    finish_join id sid answer = do
      modify (λ k. record k { callbacks = true })
      modify (subscribe sid)
      modify (send (Out.reply_answer id answer))

    unfoldable pub join_here : String → Join (P.Description) → Action (Conn S P C) (Unit {0})
    join_here id join = do
      peer_join join.sid join.uid
      answer ← on_peer (P.answer join.offer)
      finish_join id join.sid answer

    abbrev pub join_or_redirect :
        String → Join (P.Description) → SessionMeta → Action (Conn S P C) (Unit {0})
    join_or_redirect id join meta =
        if meta.redirect then modify (send (Out.reply_redirect id 302 meta)) else join_here id join

    unfoldable pub handle_join : String → P.Raw → Action (Conn S P C) (Unit {0})
    handle_join id raw = do
      join ← lift (P.decode_join raw)
      meta ← on_world (c.get_or_create_session join.sid)
      join_or_redirect id join meta

    unfoldable pub handle_offer : String → P.Raw → Action (Conn S P C) (Unit {0})
    handle_offer id raw = do
      negotiation ← lift (P.decode_negotiation raw)
      answer ← on_peer (P.answer negotiation.desc)
      modify (send (Out.reply_answer id answer))

    unfoldable pub handle_answer : P.Raw → Action (Conn S P C) (Unit {0})
    handle_answer raw = do
      negotiation ← lift (P.decode_negotiation raw)
      on_peer (P.set_remote_description negotiation.desc)

    unfoldable pub handle_trickle : P.Raw → Action (Conn S P C) (Unit {0})
    handle_trickle raw = do
      trickle ← lift (P.decode_trickle raw)
      on_peer (P.trickle trickle.candidate trickle.target)

    -- The session is looked up anew; `pod` is the environment's POD_NAME.
    unfoldable pub handle_presence_set : String → P.Raw → Action (Conn S P C) (Unit {0})
    handle_presence_set pod raw = do
      meta ← lift (P.decode_meta raw)
      sid ← gets (λ k. k.sid)
      found ← on_world (λ w. let (r, w') = c.get_session sid w in (ok r, w'))
      peer_id ← gets (λ k. P.id k.peer)
      modify λ k. record k {
        world = on_session found.0 (update_presence_meta_for_peer pod peer_id (some meta)) k.world;
      }

    -- A method of no other name is ignored.
    unfoldable pub handle : String → Request S P → Conn S P C → Outcome (Conn S P C)
    handle pod req k =
        ite (text_discrete req.method "join")
          (with_params req.params (λ raw. replying req.id (handle_join req.id raw) k))
          (ite (text_discrete req.method "offer")
            (with_params req.params (λ raw. replying req.id (handle_offer req.id raw) k))
            (ite (text_discrete req.method "answer")
              (with_params req.params (λ raw. replying req.id (handle_answer raw) k))
              (ite (text_discrete req.method "trickle")
                (with_params req.params (λ raw. replying req.id (handle_trickle raw) k))
                (ite (text_discrete req.method "presence_set")
                  (if is_empty k.sid
                    then done (send (Out.reply_error req.id 500 not_in_session) k)
                    else with_params req.params
                        (λ raw. replying req.id (handle_presence_set pod raw) k))
                  (ite (text_discrete req.method "ping") (done (send (Out.reply_pong req.id) k))
                    (done k))))))

  -- The callbacks that a join sets on the peer. A state of the ICE connection counts by whether it is
  -- Failed or Closed.
  unfoldable pub on_offer : P.Description → Conn S P C → Conn S P C
  on_offer offer k = send (Out.notify_offer offer) k

  unfoldable pub on_ice_candidate : P.Candidate → ℤ → Conn S P C → Conn S P C
  on_ice_candidate candidate target k =
      send (Out.notify_trickle (record { target = target; candidate = candidate })) k

  unfoldable pub on_ice_connection_state_change : Bool → Conn S P C → Conn S P C
  on_ice_connection_state_change failed_or_closed k =
      if failed_or_closed then record k { peer = P.close k.peer; closed = true } else k

  -- `case msg := <-listen`: the goroutine takes the oldest message and passes it on.
  unfoldable pub deliver : Listener → Conn S P C → Conn S P C
  deliver l k = elim (get_elem? k.world.chans l.listen) [
    | none ↦ k
    | some ch ↦ elim ch.buffer [
      | [] ↦ k
      | msg ∷ rest ↦ record k {
        out = k.out ++ Out.notify msg.method msg.params ∷ [];
        world = record (k.world) {
          chans = set k.world.chans l.listen (record ch { buffer = rest });
        };
      }
    ]
  ]

  -- `case <-stop`: the connection is gone, and the goroutine takes the peer out of its session.
  unfoldable pub stop : String → Listener → Conn S P C → Conn S P C
  stop pod l k =
      let leave : Session S → List (Chan S) → Session S × List (Chan S) = λ s chans.
        update_presence_meta_for_peer pod (P.id k.peer) none
          (broadcast_remove_listener (P.id k.peer) s) chans in
      record k { world = on_session l.session leave k.world }
