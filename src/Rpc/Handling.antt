-- ===== src/Rpc/Handling.antt =====
-- pkg/server_jsonrpc.go: every method of a connection acts on the node by small acts only.
use ion_cluster.Base.{
  ℕ, arith, ◌≡◌, refl, sym, ◌∙◌, String, Bool, true, false, Option, none, some, [], ◌∷◌, ◌++◌,
  length, Bool-cases, inl, inr, is_empty, if◌then◌else◌, ite, text_discrete,
}
use ion_cluster.Session.{Sfu, broadcast_add_listener, update_presence_meta_for_peer}
use ion_cluster.Coordinator.{
  SessionMeta, Result, Result-cases, ok, err, Action, ◌>>=◌, modify, bind_cases, Coordinator,
  CoordinatorLaws, not_in_session,
}
use ion_cluster.Rpc.{
  PeerApi, Join, Out, Conn, Request, Outcome, done, panics, send, replying, with_params, on_world,
  on_peer, lift, on_session, peer_join, subscribe, finish_join, join_here, join_or_redirect,
  handle_join, handle_offer, handle_answer, handle_trickle, handle_presence_set, handle,
}
use ion_cluster.Rpc.Subscribing.{on_session-some}
use ion_cluster.Rpc.Acts.{
  PeerLaws, IsBound, KeepsPeer, Acts-IsValid, Acts, Acts-trans, Behaves, Behaves-bind, Behaves-lift,
  Behaves-send,
}

module _ {S : Sfu} {P : PeerApi S} {C : Type 0} (I : PeerLaws P) (c : Coordinator S C)
    (L : CoordinatorLaws S C c) where
  abbrev Does : {A : Type 0} → Action (Conn S P C) A → Type 0
  Does m = Behaves I c L m

  on_peer-Does :
      {A : Type 0} (m : Action (P.Peer) A)
      → ((p : P.Peer) → (P.id (m p).1 ≡ P.id p) × (I.joined (m p).1 ≡ I.joined p))
      → Does (on_peer m)
  on_peer-Does m same k v b = Acts.keeps _ Acts.here refl refl (inr (same k.peer))

  get_or_create-Does : (sid : String) → Does (on_world (c.get_or_create_session sid))
  get_or_create-Does sid k v b =
      Acts.extends _ Acts.here (L.get_or_create_session-Extends sid k.world)
        (L.get_or_create_session-IsValid sid k.world v)

  looked_up :
      (sid : String) (k : Conn S P C)
      → L.IsValid k.world
      → Acts I c L k (record k { world = (c.get_session sid k.world).1 })
  looked_up sid k v =
      Acts.extends _ Acts.here (L.get_session-Extends sid k.world)
        (L.get_session-IsValid sid k.world v)

  join-KeepsPeer :
      (sid uid : String) (found : Option (ℕ × S.TransportConfig)) (k : Conn S P C)
      → IsBound I k
      → KeepsPeer I k (record k { peer = (P.join sid uid found k.peer).1 })
  join-KeepsPeer sid uid found k (inl none_runs) = inl none_runs
  join-KeepsPeer sid uid found k (inr q) =
      let (id, still) = I.join-again sid uid found k.peer q in inr (id, still ∙ sym q)

  peer_join-Does : (sid uid : String) → Does (peer_join c sid uid)
  unfolding peer_join
  peer_join-Does sid uid k v b = elim (Bool-cases (P.asks_provider sid uid k.peer)) [
    | inl asks ↦ rw asks (
        Acts.keeps _ (looked_up sid k v) refl refl
          (join-KeepsPeer sid uid (some (c.get_session sid k.world).0) k b))
    | inr not ↦ rw not (Acts.keeps _ Acts.here refl refl (join-KeepsPeer sid uid none k b))
  ]

  peer_join-joined :
      (sid uid : String) (k : Conn S P C)
      → (peer_join c sid uid k).0 ≡ ok tt
      → I.joined (peer_join c sid uid k).1.peer ≡ true
  unfolding peer_join
  peer_join-joined sid uid k went = elim (Bool-cases (P.asks_provider sid uid k.peer)) [
    | inl asks ↦
        rw asks (I.join-joined sid uid (some (c.get_session sid k.world).0) k.peer (ground arith))
    | inr not ↦ rw not (I.join-joined sid uid none k.peer (ground arith))
  ]

  -- A goroutine is started on a peer that has joined.
  subscribe-Acts :
      (sid : String) (k : Conn S P C)
      → L.IsValid k.world
      → I.joined k.peer ≡ true
      → Acts I c L k (subscribe c sid k)
  unfolding subscribe broadcast_add_listener
  subscribe-Acts sid k v q =
      let (found, w) = c.get_session sid k.world in
      let (s, there) = L.get_session-finds sid k.world v in
      let worked =
        on_session-some found.0 s
          (λ s chans. (broadcast_add_listener (P.id k.peer) (length w.chans) s, chans))
          (record w { chans = w.chans ++ record { cap = 32; buffer = [] } ∷ [] }) there in
      Acts.keeps (subscribe c sid k) (Acts.subscribes found.0 s (looked_up sid k v) q there) worked
        refl (inr (refl, refl))

  finish_join-Acts :
      (id sid : String) (answer : P.Description) (k : Conn S P C)
      → L.IsValid k.world
      → I.joined k.peer ≡ true
      → Acts I c L k (finish_join c id sid answer k).1
  finish_join-Acts id sid answer k v q =
      let ready : Conn S P C = record k { callbacks = true } in
      Acts.keeps _
        (Acts-trans I c L (Acts.keeps ready Acts.here refl refl (inr (refl, refl)))
          (subscribe-Acts sid ready v q))
        refl refl (inr (refl, refl))

  answering :
      (d : P.Description) (f : P.Description → Action (Conn S P C) (Unit {0}))
      → ((answer : P.Description) → Does (f answer))
      → Does (on_peer (P.answer d) >>= f)
  answering d f h =
      Behaves-bind I c L (on_peer (P.answer d)) f (on_peer-Does (P.answer d) (I.answer-keeps d)) h

  join_here-Does : (id : String) (join : Join (P.Description)) → Does (join_here c id join)
  unfolding join_here
  join_here-Does id join k v b =
      let joins = peer_join-Does join.sid join.uid k v b in
      let k1 : Conn S P C = (peer_join c join.sid join.uid k).1 in
      bind_cases (λ (x : Result (Unit {0}) × Conn S P C). Acts I c L k x.1)
        (peer_join c join.sid join.uid)
        (λ u. on_peer (P.answer join.offer) >>= finish_join c id join.sid) k (λ e failed. joins)
        λ u went.
          let v1 = Acts-IsValid I c L joins v in
          let (same_id, same) = I.answer-keeps join.offer k1.peer in
          let answers : Acts I c L k (on_peer (P.answer join.offer) k1).1 =
            Acts.keeps _ joins refl refl (inr (same_id, same)) in
          bind_cases (λ (x : Result (Unit {0}) × Conn S P C). Acts I c L k x.1)
            (on_peer (P.answer join.offer)) (finish_join c id join.sid) k1 (λ e failed. answers)
            λ answer answered. Acts-trans I c L answers (
              finish_join-Acts id join.sid answer (on_peer (P.answer join.offer) k1).1 v1
                (same ∙ peer_join-joined join.sid join.uid k went))

  join_or_redirect-Does :
      (id : String) (join : Join (P.Description)) (meta : SessionMeta)
      → Does (join_or_redirect c id join meta)
  join_or_redirect-Does id join meta = by_redirect meta.redirect
    where
      by_redirect :
          (b : Bool)
          → Does (if b then modify (send (Out.reply_redirect id 302 meta)) else join_here c id join)
      by_redirect true = Behaves-send I c L (Out.reply_redirect id 302 meta)
      by_redirect false = join_here-Does id join

  handle_join-Does : (id : String) (raw : P.Raw) → Does (handle_join c id raw)
  unfolding handle_join
  handle_join-Does id raw =
      Behaves-bind I c L (lift (P.decode_join raw))
        (λ join. on_world (c.get_or_create_session join.sid) >>= join_or_redirect c id join)
        (Behaves-lift I c L (P.decode_join raw))
        λ join.
          Behaves-bind I c L (on_world (c.get_or_create_session join.sid))
            (join_or_redirect c id join) (get_or_create-Does join.sid)
            (join_or_redirect-Does id join)

  handle_offer-Does : (id : String) (raw : P.Raw) → Does (handle_offer c id raw)
  unfolding handle_offer
  handle_offer-Does id raw =
      let reply : P.Description → Action (Conn S P C) (Unit {0}) =
        λ answer. modify (send (Out.reply_answer id answer)) in
      Behaves-bind I c L (lift (P.decode_negotiation raw))
        (λ negotiation. on_peer (P.answer negotiation.desc) >>= reply)
        (Behaves-lift I c L (P.decode_negotiation raw))
        λ negotiation.
          answering negotiation.desc reply
            (λ answer. Behaves-send I c L (Out.reply_answer id answer))

  handle_answer-Does : (raw : P.Raw) → Does (handle_answer c raw)
  unfolding handle_answer
  handle_answer-Does raw =
      Behaves-bind I c L (lift (P.decode_negotiation raw))
        (λ negotiation. on_peer (P.set_remote_description negotiation.desc))
        (Behaves-lift I c L (P.decode_negotiation raw))
        λ negotiation.
          on_peer-Does (P.set_remote_description negotiation.desc)
            (I.set_remote_description-keeps negotiation.desc)

  handle_trickle-Does : (raw : P.Raw) → Does (handle_trickle c raw)
  unfolding handle_trickle
  handle_trickle-Does raw =
      Behaves-bind I c L (lift (P.decode_trickle raw))
        (λ t. on_peer (P.trickle t.candidate t.target)) (Behaves-lift I c L (P.decode_trickle raw))
        λ t. on_peer-Does (P.trickle t.candidate t.target) (I.trickle-keeps t.candidate t.target)

  stored_presence :
      (pod : String) (meta : S.Value) (k : Conn S P C)
      → L.IsValid k.world
      → let (found, w) = c.get_session k.sid k.world in
        Acts I c L k (record k {
          world =
              on_session found.0 (update_presence_meta_for_peer pod (P.id k.peer) (some meta)) w;
        })
  stored_presence pod meta k v =
      let (found, w) = c.get_session k.sid k.world in
      let (s, there) = L.get_session-finds k.sid k.world v in
      let worked =
        on_session-some found.0 s (update_presence_meta_for_peer pod (P.id k.peer) (some meta)) w
          there in
      Acts.keeps _ (Acts.updates pod meta found.0 s (looked_up k.sid k v) there) worked refl
        (inr (refl, refl))

  handle_presence_set-Does : (pod : String) (raw : P.Raw) → Does (handle_presence_set c pod raw)
  unfolding handle_presence_set
  handle_presence_set-Does pod raw k v b = elim (Result-cases (P.decode_meta raw)) [
    | inl (e, failed) ↦ rw failed Acts.here
    | inr (meta, decoded) ↦ rw decoded (stored_presence pod meta k v)
  ]

  replying-Acts :
      (id : String) (m : Action (Conn S P C) (Unit {0})) (k : Conn S P C)
      → Does m
      → L.IsValid k.world
      → IsBound I k
      → Acts I c L k (replying id m k)
  replying-Acts id m k h v b = go (m k) (h k v b)
    where
      go :
          (x : Result (Unit {0}) × Conn S P C)
          → Acts I c L k x.1
          → Acts I c L k (elim x.0 [ ok _ ↦ x.1 | err e ↦ send (Out.reply_error id 500 e) x.1 ])
      go (ok u, j) a = a
      go (err e, j) a = Acts.keeps _ a refl refl (inr (refl, refl))

  -- Of a request that does not panic.
  pub data Every (Q : Conn S P C → Type 0) : Outcome (Conn S P C) → Type 0 where
    panicked : Every Q panics
    ended : (k' : Conn S P C) → Q k' → Every Q (done k')

  branch :
      {X : Type 0} (Q : Conn S P C → Type 0) (d : Dec X) (x y : Outcome (Conn S P C))
      → Every Q x
      → Every Q y
      → Every Q (ite d x y)
  branch Q (yes _) x y hx hy = hx
  branch Q (no _) x y hx hy = hy

  with_params-Every :
      (Q : Conn S P C → Type 0) (params : Option (P.Raw)) (f : P.Raw → Conn S P C)
      → ((raw : P.Raw) → Q (f raw))
      → Every Q (with_params params f)
  with_params-Every Q none f h = panicked
  with_params-Every Q (some raw) f h = ended (f raw) (h raw)

  -- A request, from a valid world, does to the connection and to the node only such acts.
  pub handle-Acts :
      (pod : String) (req : Request S P) (k : Conn S P C)
      → L.IsValid k.world
      → IsBound I k
      → Every (Acts I c L k) (handle c pod req k)
  unfolding handle
  handle-Acts pod req k v b =
      branch (Acts I c L k) (text_discrete req.method "join") _ _
        (with_params-Every (Acts I c L k) req.params _ λ raw.
          replying-Acts req.id (handle_join c req.id raw) k (handle_join-Does req.id raw) v b)
        (branch (Acts I c L k) (text_discrete req.method "offer") _ _
          (with_params-Every (Acts I c L k) req.params _ λ raw.
            replying-Acts req.id (handle_offer c req.id raw) k (handle_offer-Does req.id raw) v b)
          (branch (Acts I c L k) (text_discrete req.method "answer") _ _
            (with_params-Every (Acts I c L k) req.params _
              λ raw. replying-Acts req.id (handle_answer c raw) k (handle_answer-Does raw) v b)
            (branch (Acts I c L k) (text_discrete req.method "trickle") _ _
              (with_params-Every (Acts I c L k) req.params _
                λ raw. replying-Acts req.id (handle_trickle c raw) k (handle_trickle-Does raw) v b)
              (branch (Acts I c L k) (text_discrete req.method "presence_set") _ _ presence_set (
                branch (Acts I c L k) (text_discrete req.method "ping") _ _
                  (ended _ (Acts.keeps _ Acts.here refl refl (inr (refl, refl))))
                  (ended k Acts.here))))))
    where
      if_presence :
          (b : Bool)
          → Every (Acts I c L k) (
              if b
              then done (send (Out.reply_error req.id 500 not_in_session) k)
              else with_params req.params
                  (λ raw. replying req.id (handle_presence_set c pod raw) k))
      if_presence true = ended _ (Acts.keeps _ Acts.here refl refl (inr (refl, refl)))
      if_presence false = with_params-Every (Acts I c L k) req.params _ λ raw.
          replying-Acts req.id (handle_presence_set c pod raw) k (handle_presence_set-Does pod raw)
            v b

      presence_set : Every (Acts I c L k) (
          if is_empty k.sid
          then done (send (Out.reply_error req.id 500 not_in_session) k)
          else with_params req.params (λ raw. replying req.id (handle_presence_set c pod raw) k))
      presence_set = if_presence (is_empty k.sid)
