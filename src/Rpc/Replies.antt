-- ===== src/Rpc/Replies.antt =====
-- pkg/server_jsonrpc.go, `Handle`: which requests are answered, and which bring the server down.
use ion_cluster.Base.{
  ◌≡◌, refl, sym, ap, ◌∙◌, ◌≢◌, ◌↔◌, ◌⊎◌, inl, inr, String, Bool, true, false, Option, none, some,
  [], ◌∷◌, ◌++◌, arith, if◌then◌else◌, text_discrete,
}
use ion_cluster.Session.{Sfu}
use ion_cluster.Coordinator.{Result, ok, err, Action, ◌>>=◌, modify, SessionMeta, Coordinator}
use ion_cluster.Rpc.{
  PeerApi, Join, Out, Conn, Request, done, panics, send, replying, on_world, on_peer, lift,
  peer_join, subscribe, finish_join, join_here, handle_join, handle_offer, handle_answer,
  handle_trickle, handle_presence_set, with_params, handle,
}

module _ {S : Sfu} {P : PeerApi S} where
  -- The request that a message answers.
  abbrev pub replied_id : Out S P → Option String
  replied_id (Out.reply_answer id _) = some id
  replied_id (Out.reply_pong id) = some id
  replied_id (Out.reply_error id _ _) = some id
  replied_id (Out.reply_redirect id _ _) = some id
  replied_id (Out.notify _ _) = none
  replied_id (Out.notify_offer _) = none
  replied_id (Out.notify_trickle _) = none

module _ {S : Sfu} {P : PeerApi S} {C : Type 0} where
  -- One message is written, and it answers the request.
  abbrev pub SendsOne : String → Conn S P C → Conn S P C → Type 0
  SendsOne id k k' = (o : Out S P) × (k'.out ≡ k.out ++ o ∷ []) × (replied_id o ≡ some id)

  abbrev Quiet : {A : Type 0} → Action (Conn S P C) A → Type 0
  Quiet m = (k : Conn S P C) → (m k).1.out ≡ k.out

  -- A method that ends well has written its one reply; one that ends with an error has not.
  abbrev EndsAt : String → Conn S P C → Result (Unit {0}) × Conn S P C → Type 0
  EndsAt id k (ok _, k') = SendsOne id k k'
  EndsAt id k (err _, k') = k'.out ≡ k.out

  abbrev Ends : String → Action (Conn S P C) (Unit {0}) → Type 0
  Ends id m = (k : Conn S P C) → EndsAt id k (m k)

  SendsOne-from :
      (id : String) (k j : Conn S P C) (x : Result (Unit {0}) × Conn S P C)
      → j.out ≡ k.out
      → EndsAt id j x
      → EndsAt id k x
  SendsOne-from id k j (ok _, k') e (o, sent, of_id) = (o, rw (← e) sent, of_id)
  SendsOne-from id k j (err _, k') e h = h ∙ e

  bind-Ends :
      {A : Type 0} (id : String) (m : Action (Conn S P C) A)
      (f : A → Action (Conn S P C) (Unit {0}))
      → Quiet m
      → ((a : A) → Ends id (f a))
      → Ends id (m >>= f)
  bind-Ends {A} id m f quiet ends k = go (m k) (quiet k)
    where
      go :
          (x : Result A × Conn S P C)
          → x.1.out ≡ k.out
          → EndsAt id k (elim x.0 [ ok a ↦ f a x.1 | err e ↦ (err e, x.1) ])
      go (ok a, k') e = SendsOne-from id k k' (f a k') e (ends a k')
      go (err _, k') e = e

  bind-Quiet :
      {A B : Type 0} (m : Action (Conn S P C) A) (f : A → Action (Conn S P C) B)
      → Quiet m
      → ((a : A) → Quiet (f a))
      → Quiet (m >>= f)
  bind-Quiet {A} {B} m f quiet quiets k = go (m k) (quiet k)
    where
      go :
          (x : Result A × Conn S P C)
          → x.1.out ≡ k.out
          → (let y : Result B × Conn S P C = elim x.0 [ ok a ↦ f a x.1 | err e ↦ (err e, x.1) ] in
              y.1.out ≡ k.out)
      go (ok a, k') e = quiets a k' ∙ e
      go (err _, k') e = e

  replying-SendsOne :
      (id : String) (m : Action (Conn S P C) (Unit {0})) (k : Conn S P C)
      → Ends id m
      → SendsOne id k (replying id m k)
  replying-SendsOne id m k ends = go (m k) (ends k)
    where
      go :
          (x : Result (Unit {0}) × Conn S P C)
          → EndsAt id k x
          → SendsOne id k (elim x.0 [ ok _ ↦ x.1 | err e ↦ send (Out.reply_error id 500 e) x.1 ])
      go (ok _, k') h = h
      go (err e, k') h =
          (Out.reply_error id 500 e, ap (λ l. l ++ Out.reply_error id 500 e ∷ []) h, refl)

  module _ (c : Coordinator S C) where
    peer_join-Quiet : (sid uid : String) → Quiet (peer_join c sid uid)
    unfolding peer_join
    peer_join-Quiet sid uid k = ground arith

    join_here-Ends : (id : String) (join : Join (P.Description)) → Ends id (join_here c id join)
    unfolding join_here subscribe
    join_here-Ends id join =
        bind-Ends id (peer_join c join.sid join.uid) _ (peer_join-Quiet join.sid join.uid) λ _.
          bind-Ends id (on_peer (P.answer join.offer)) (finish_join c id join.sid) (λ k. refl)
            (λ answer k. (Out.reply_answer id answer, refl, refl))

    handle_join-Ends : (id : String) (raw : P.Raw) → Ends id (handle_join c id raw)
    unfolding handle_join
    handle_join-Ends id raw =
        bind-Ends id (lift (P.decode_join raw)) _ (λ k. refl)
          λ join.
            bind-Ends id (on_world (c.get_or_create_session join.sid)) _ (λ k. refl)
              λ meta. redirected join meta meta.redirect
      where
        redirected :
            (join : Join (P.Description)) (meta : SessionMeta) (b : Bool)
            → Ends id
                (if b then modify (send (Out.reply_redirect id 302 meta)) else join_here c id join)
        redirected join meta true k = (Out.reply_redirect id 302 meta, refl, refl)
        redirected join meta false k = join_here-Ends id join k

    handle_offer-Ends : (id : String) (raw : P.Raw) → Ends id (handle_offer c id raw)
    unfolding handle_offer
    handle_offer-Ends id raw =
        bind-Ends id (lift (P.decode_negotiation raw)) _ (λ k. refl)
          λ negotiation.
            bind-Ends id (on_peer (P.answer negotiation.desc))
              (λ answer. modify (send (Out.reply_answer id answer))) (λ k. refl)
              (λ answer k. (Out.reply_answer id answer, refl, refl))

    handle_answer-Quiet : (raw : P.Raw) → Quiet (handle_answer c raw)
    unfolding handle_answer
    handle_answer-Quiet raw =
        bind-Quiet (lift (P.decode_negotiation raw)) _ (λ k. refl) (λ negotiation k. refl)

    handle_trickle-Quiet : (raw : P.Raw) → Quiet (handle_trickle c raw)
    unfolding handle_trickle
    handle_trickle-Quiet raw =
        bind-Quiet (lift (P.decode_trickle raw)) _ (λ k. refl) (λ trickle k. refl)

    handle_presence_set-Quiet : (pod : String) (raw : P.Raw) → Quiet (handle_presence_set c pod raw)
    unfolding handle_presence_set
    handle_presence_set-Quiet pod raw =
        bind-Quiet (lift (P.decode_meta raw)) _ (λ k. refl) (λ meta k. refl)

    handle_lem_join :
        (pod : String) (req : Request S P) (k : Conn S P C)
        → req.method ≡ "join"
        → handle c pod req k
          ≡ with_params req.params (λ raw. replying req.id (handle_join c req.id raw) k)
    unfolding handle text_discrete
    handle_lem_join pod req k e = rw e

    handle_lem_offer :
        (pod : String) (req : Request S P) (k : Conn S P C)
        → req.method ≡ "offer"
        → handle c pod req k
          ≡ with_params req.params (λ raw. replying req.id (handle_offer c req.id raw) k)
    unfolding handle text_discrete
    handle_lem_offer pod req k e = rw e

    handle_lem_ping :
        (pod : String) (req : Request S P) (k : Conn S P C)
        → req.method ≡ "ping"
        → handle c pod req k ≡ done (send (Out.reply_pong req.id) k)
    unfolding handle text_discrete
    handle_lem_ping pod req k e = rw e

    with_params-done :
        (params : Option (P.Raw)) (f : P.Raw → Conn S P C) (k' : Conn S P C)
        → with_params params f ≡ done k'
        → (raw : P.Raw) × (f raw ≡ k')
    with_params-done none f k' e = absurd (cc)
    with_params-done (some raw) f k' e = (raw, cc)

    -- A call of `join`, `offer` or `ping` that does not panic writes exactly one message, and that
    -- answers the request, with a result or with an error.
    pub handle-answers :
        (pod : String) (req : Request S P) (k k' : Conn S P C)
        → (req.method ≡ "join") ⊎ (req.method ≡ "offer") ⊎ (req.method ≡ "ping")
        → handle c pod req k ≡ done k'
        → SendsOne req.id k k'
    handle-answers pod req k k' (inl joins) h =
        let (raw, e) =
          with_params-done req.params _ k' (sym (handle_lem_join pod req k joins) ∙ h) in
        rw (← e)
          (replying-SendsOne req.id (handle_join c req.id raw) k (handle_join-Ends req.id raw))
    handle-answers pod req k k' (inr (inl offers)) h =
        let (raw, e) =
          with_params-done req.params _ k' (sym (handle_lem_offer pod req k offers) ∙ h) in
        rw (← e)
          (replying-SendsOne req.id (handle_offer c req.id raw) k (handle_offer-Ends req.id raw))
    handle-answers pod req k k' (inr (inr pings)) h =
        let e : send (Out.reply_pong req.id) k ≡ k' =
          ground (arith, handle_lem_ping pod req k pings, h) in
        rw (← e) ((Out.reply_pong req.id, refl, refl))

    -- The request's parameters are read.
    abbrev pub ReadsParams : Request S P → Conn S P C → Type 0
    ReadsParams req k =
        (req.method ≡ "join")
        ⊎ (req.method ≡ "offer")
        ⊎ (req.method ≡ "answer")
        ⊎ (req.method ≡ "trickle")
        ⊎ ((req.method ≡ "presence_set") × (k.sid ≢ ""))

    -- A request panics exactly if it has no parameters and its method reads them: join, offer, answer
    -- and trickle always do, presence_set does on a connection that has joined a session.
    pub handle-panics :
        (pod : String) (req : Request S P) (k : Conn S P C)
        → (handle c pod req k ≡ panics) ↔ ((req.params ≡ none) × ReadsParams req k)
    unfolding handle
    handle-panics pod req k = (λ h. ground arith, λ h. ground arith)
