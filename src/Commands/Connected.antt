-- ===== src/Commands/Connected.antt =====
-- pkg/client: what a client does over a websocket keeps the connection that it has.
use ion_cluster.Base.{◌≡◌, refl, String, Option, none, some, List, [], ◌∷◌}
use ion_cluster.Coordinator.{Result, ok, err, Action, ◌>>=◌, modify, bind_cases}
use ion_cluster.Client.{
  PcApi, Producer, Message as ServerMessage, on_publisher, on_subscriber, on_signal, hook, hand_on,
  set_answer, accept_answer, send_offer, ask_join, join, receive_all, receive_candidate,
  signal_on_negotiate, signal_on_trickle, flush, flush_and_answer, send_answer, send_reoffer,
  ask_offer, accept_reanswer, pub_negotiation_needed, add_tracks, renegotiate, publish, and_then,
}
use ion_cluster.Client.Signal.{
  JsonRpcApi, JsonRpcSignalClient, Message, connected, join as signal_join, offer as signal_offer,
  answer as signal_answer, ping, close,
}
use ion_cluster.Rpc.{Outcome, done, panics}
use ion_cluster.Commands.Clients.{ClientOf, ping_signal, close_signal}

-- A call of a join for a session, and one of a new offer, whose response is null.
abbrev pub NullJoin : {P : PcApi} → JsonRpcApi P → String → Type 0
NullJoin {P} R sid =
    (offer : P.Description) × (jc : R.Jc) × ((R.call_description
        (Message.join_request (record { sid = sid; uid = ""; offer = offer })) jc).0
      ≡ ok none)

abbrev pub NullOffer : {P : PcApi} → JsonRpcApi P → Type 0
NullOffer {P} R =
    (offer : P.Description) × (jc : R.Jc) × ((R.call_description
        (Message.offer_request (record { desc = offer })) jc).0
      ≡ ok none)

module _ {P : PcApi} {R : JsonRpcApi P} where
  -- The signal has a connection.
  abbrev pub IsOpen : JsonRpcSignalClient P R → Type 0
  IsOpen s = (jc : R.Jc) × (s.jc ≡ some jc)

  connected-IsOpen :
      {A : Type 0} (m : Action (R.Jc) A) (s : JsonRpcSignalClient P R)
      → IsOpen s
      → IsOpen (connected m s).1
  connected-IsOpen m s (jc, e) = rw e ((m jc).1, refl)

  abbrev pub Keeps : {A : Type 0} → Action (ClientOf P R) A → Type 0
  Keeps m = (c : ClientOf P R) → IsOpen c.signal → IsOpen (m c).1.signal

  Keeps-bind :
      {A B : Type 0} (m : Action (ClientOf P R) A) (f : A → Action (ClientOf P R) B)
      → Keeps m
      → ((a : A) → Keeps (f a))
      → Keeps (m >>= f)
  Keeps-bind m f hm hf c h =
      bind_cases (λ (x : Result _ × ClientOf P R). IsOpen x.1.signal) m f c (λ e failed. hm c h)
        λ a went. hf a (m c).1 (hm c h)

  on_signal-Keeps :
      {A : Type 0} (m : Action (JsonRpcSignalClient P R) A)
      → ((s : JsonRpcSignalClient P R) → IsOpen s → IsOpen (m s).1)
      → Keeps (on_signal m)
  on_signal-Keeps m h c open_ = h c.signal open_

  on_publisher-Keeps : {A : Type 0} (m : Action (P.Pc) A) → Keeps (on_publisher m)
  on_publisher-Keeps m c h = h

  -- The connection is there, and an answer is nil only if the response is null.
  Answers : Type 0 → Result (Option (P.Description)) × ClientOf P R → Type 0
  Answers N (r, k) = IsOpen k.signal × (r ≡ ok none → N)

  ask_join-Answers :
      (sid : String) (c : ClientOf P R)
      → IsOpen c.signal
      → Answers (NullJoin R sid) (ask_join sid c)
  unfolding Answers signal_join
  ask_join-Answers sid c (jc, e) =
      bind_cases (Answers (NullJoin R sid)) (on_publisher P.create_offer) (send_offer sid) (hook c)
        (λ _ failed. ((jc, e), λ h. absurd (cc)))
        λ offer created.
          let k : ClientOf P R = (on_publisher P.create_offer (hook c)).1 in
          bind_cases (Answers (NullJoin R sid)) (on_publisher (P.set_local_description offer))
            (λ _. on_signal (signal_join sid offer)) k (λ _ failed. ((jc, e), λ h. absurd (cc)))
            λ u set. rw e (((_, refl), λ h. (offer, jc, h)))

  ask_offer-Answers : (c : ClientOf P R) → IsOpen c.signal → Answers (NullOffer R) (ask_offer c)
  unfolding Answers signal_offer
  ask_offer-Answers c (jc, e) =
      bind_cases (Answers (NullOffer R)) (on_publisher P.create_offer) send_reoffer c
        (λ _ failed. ((jc, e), λ h. absurd (cc)))
        λ offer created.
          let k : ClientOf P R = (on_publisher P.create_offer c).1 in
          bind_cases (Answers (NullOffer R)) (on_publisher (P.set_local_description offer))
            (λ _. on_signal (signal_offer offer)) k (λ _ failed. ((jc, e), λ h. absurd (cc)))
            λ u set. rw e (((_, refl), λ h. (offer, jc, h)))

  signal_on_negotiate-Keeps :
      (d : P.Description) (c : ClientOf P R)
      → IsOpen c.signal
      → IsOpen (signal_on_negotiate d c).signal
  unfolding signal_on_negotiate signal_answer
  signal_on_negotiate-Keeps d =
      Keeps-bind (on_subscriber (P.set_remote_description d)) flush_and_answer (λ c h. h)
        λ _ c h.
          Keeps-bind (on_subscriber P.create_answer) send_answer (λ c h. h)
            (λ answer.
              Keeps-bind (on_subscriber (P.set_local_description answer))
                (λ _. on_signal (signal_answer answer)) (λ c h. h)
                λ _. on_signal-Keeps (signal_answer answer) (connected-IsOpen _))
            (flush c) h

  receive_all-IsOpen :
      (l : List (ServerMessage P)) (c : ClientOf P R)
      → IsOpen c.signal
      → (c' : ClientOf P R) × (receive_all l c ≡ done c') × IsOpen c'.signal
  unfolding signal_on_trickle
  receive_all-IsOpen [] c h = (c, refl, h)
  receive_all-IsOpen (ServerMessage.negotiate d ∷ l) c h =
      receive_all-IsOpen l (signal_on_negotiate d c) (signal_on_negotiate-Keeps d c h)
  receive_all-IsOpen (ServerMessage.trickle_publisher x ∷ l) c h =
      receive_all-IsOpen l (record c { publisher = receive_candidate x c.publisher }) h
  receive_all-IsOpen (ServerMessage.trickle_subscriber x ∷ l) c h =
      receive_all-IsOpen l (record c { subscriber = receive_candidate x c.subscriber }) h

  -- A step panics only for a cause, and keeps the connection otherwise.
  abbrev pub Goes : Type 0 → Outcome (Result (Unit {0}) × ClientOf P R) → Type 0
  Goes N panics = N
  Goes N (done (_, k)) = IsOpen k.signal

  accept_answer-Goes :
      (N : Type 0) (r : Result (Option (P.Description))) (k : ClientOf P R)
      → (r ≡ ok none → N)
      → IsOpen k.signal
      → Goes N (accept_answer r k)
  accept_answer-Goes N (err e) k null h = h
  accept_answer-Goes N (ok none) k null h = null refl
  accept_answer-Goes N (ok (some d)) k null h =
      Keeps-bind (set_answer d) (λ _. modify hand_on) (λ c h. h) (λ _ c h. h) k h

  pub join-Goes :
      (sid : String) (received : List (ServerMessage P)) (c : ClientOf P R)
      → IsOpen c.signal
      → Goes (NullJoin R sid) (join sid received c)
  unfolding join Answers
  join-Goes sid received c h =
      let (kept, null) = ask_join-Answers sid c h in
      let (k', went, h') = receive_all-IsOpen received (ask_join sid c).1 kept in
      rw went (accept_answer-Goes (NullJoin R sid) (ask_join sid c).0 k' null h')

  reanswered-Goes :
      (N : Type 0) (r : Result (Option (P.Description))) (k : ClientOf P R)
      → (r ≡ ok none → N)
      → IsOpen k.signal
      → Goes N (and_then (accept_reanswer r k) λ k'. done (ok tt, k'))
  reanswered-Goes N (err e) k null h = h
  reanswered-Goes N (ok none) k null h = null refl
  reanswered-Goes N (ok (some d)) k null h = h

  renegotiate-Goes :
      (r : Result (Unit {0})) (k : ClientOf P R)
      → IsOpen k.signal
      → Goes (NullOffer R) (renegotiate r k)
  unfolding pub_negotiation_needed Answers
  renegotiate-Goes (err e) k h = h
  renegotiate-Goes (ok _) k h =
      let (kept, null) = ask_offer-Answers k h in
      reanswered-Goes (NullOffer R) (ask_offer k).0 (ask_offer k).1 null kept

  add_tracks-Keeps : (p : Producer P) → Keeps (add_tracks p)
  add_tracks-Keeps p =
      Keeps-bind (on_publisher (P.add_track p.video_track))
        (λ _. on_publisher (P.add_track p.audio_track)) (λ c h. h) λ _ c h. h

  pub publish-Goes :
      (p : Producer P) (c : ClientOf P R) → IsOpen c.signal → Goes (NullOffer R) (publish p c)
  unfolding publish
  publish-Goes p c h =
      renegotiate-Goes (add_tracks p c).0 (add_tracks p c).1 (add_tracks-Keeps p c h)

  pub ping-Keeps : (c : ClientOf P R) → IsOpen c.signal → IsOpen (ping_signal c).signal
  unfolding ping
  ping-Keeps c h = connected-IsOpen _ c.signal h

  -- The end of an open connection is asked for without a panic.
  pub close-Keeps :
      (c : ClientOf P R)
      → IsOpen c.signal
      → (c' : ClientOf P R) × (close_signal c ≡ done c') × IsOpen c'.signal
  unfolding close
  close-Keeps c (jc, e) = (
    record c { signal = record (c.signal) { jc = some (R.close jc).1 } },
    rw (e, close) refl,
    ((R.close jc).1, refl),
  )
