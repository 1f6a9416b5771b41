-- ===== src/Client/Candidates.antt =====
-- pkg/client/client.go: no candidate of the subscribing connection is lost.
use mathlib.Core.List.{append-nil, append_assoc}
use ion_cluster.Base.{
  ℕ, suc, ◌+◌, ◌≡◌, refl, sym, ap, ◌∙◌, Bool, true, List, [], ◌∷◌, ◌++◌, Bool-cases, inl, inr,
  arith, if◌then◌else◌,
}
use ion_cluster.Coordinator.{Result, ok, bind_cases}
use ion_cluster.Rpc.{done}
use ion_cluster.Client.{
  PcApi, SignalApi, Transport, Client, add_all, receive_candidate, on_subscriber, flush,
  send_answer, on_signal, flush_and_answer, signal_on_negotiate, signal_on_trickle, Message,
  negotiate, trickle_publisher, trickle_subscriber, and_then, receive, receive_all,
}

-- What is documented of a peer connection: it takes candidates, in the order of the calls, once
-- it has a remote description, which a successful SetRemoteDescription gives and nothing takes away;
-- the calls of an offer or an answer add no candidate.
pub record PcLaws (P : PcApi) : Type 1 where
  pub added : P.Pc → List (P.Candidate)
  pub add-added :
      (x : P.Candidate) (pc : P.Pc)
      → P.has_remote_description pc ≡ true
      → (added (P.add_ice_candidate x pc).1 ≡ added pc ++ x ∷ [])
        × (P.has_remote_description (P.add_ice_candidate x pc).1 ≡ true)
  pub set_remote-ok :
      (d : P.Description) (pc : P.Pc)
      → (P.set_remote_description d pc).0 ≡ ok tt
      → P.has_remote_description (P.set_remote_description d pc).1 ≡ true
  pub set_remote-keeps :
      (d : P.Description) (pc : P.Pc)
      → (P.has_remote_description pc ≡ true
          → P.has_remote_description (P.set_remote_description d pc).1 ≡ true)
        × (added (P.set_remote_description d pc).1 ≡ added pc)
  pub create_offer-keeps :
      (pc : P.Pc)
      → (P.has_remote_description (P.create_offer pc).1 ≡ P.has_remote_description pc)
        × (added (P.create_offer pc).1 ≡ added pc)
  pub create_answer-keeps :
      (pc : P.Pc)
      → (P.has_remote_description (P.create_answer pc).1 ≡ P.has_remote_description pc)
        × (added (P.create_answer pc).1 ≡ added pc)
  pub set_local-keeps :
      (d : P.Description) (pc : P.Pc)
      → (P.has_remote_description (P.set_local_description d pc).1 ≡ P.has_remote_description pc)
        × (added (P.set_local_description d pc).1 ≡ added pc)

abbrev pub subscriber_candidates : (P : PcApi) → List (Message P) → List (P.Candidate)
subscriber_candidates P [] = []
subscriber_candidates P (negotiate _ ∷ l) = subscriber_candidates P l
subscriber_candidates P (trickle_publisher _ ∷ l) = subscriber_candidates P l
subscriber_candidates P (trickle_subscriber x ∷ l) = x ∷ subscriber_candidates P l

abbrev pub count : {A : Type 0} → (A → Bool) → List A → ℕ
count f [] = 0
count f (x ∷ l) = if f x then suc (count f l) else count f l

count-append : {A : Type 0} (f : A → Bool) (l m : List A) → count f (l ++ m) ≡ count f l + count f m
count-append f [] m = omega arith
count-append f (x ∷ l) m = ground (arith, count-append f l m)

count_candidates :
    {P : PcApi} (f : P.Candidate → Bool) (m : Message P) (l : List (Message P))
    → count f (subscriber_candidates P (m ∷ l))
      ≡ count f (subscriber_candidates P (m ∷ [])) + count f (subscriber_candidates P l)
count_candidates f (negotiate _) l = omega arith
count_candidates f (trickle_publisher _) l = omega arith
count_candidates {P} f (trickle_subscriber x) l =
    count-append f (x ∷ []) (subscriber_candidates P l)

module _ {P : PcApi} (L : PcLaws P) where
  pub add_all-added :
      (l : List (P.Candidate)) (pc : P.Pc)
      → P.has_remote_description pc ≡ true
      → (L.added (add_all P l pc) ≡ L.added pc ++ l)
        × (P.has_remote_description (add_all P l pc) ≡ true)
  unfolding add_all
  add_all-added [] pc h = (sym (append-nil (L.added pc)), h)
  add_all-added (x ∷ l) pc h =
      let one = L.add-added x pc h in
      let rest = add_all-added l (P.add_ice_candidate x pc).1 one.1 in
      (rest.0 ∙ ap (λ a. a ++ l) one.0 ∙ append_assoc (L.added pc) (x ∷ []) l, rest.1)

  -- How often a candidate that `f` singles out has been handed on or is kept.
  abbrev held : (P.Candidate → Bool) → Transport P → ℕ
  held f t = count f (L.added t.pc) + count f t.candidates

  receive_candidate-held :
      (f : P.Candidate → Bool) (x : P.Candidate) (t : Transport P)
      → held f (receive_candidate x t) ≡ held f t + count f (x ∷ [])
  unfolding receive_candidate
  receive_candidate-held f x t = elim (Bool-cases (P.has_remote_description t.pc)) [
    | inl known ↦ rw known (
        ap (λ n. n + count f t.candidates)
          (ap (count f) (L.add-added x t.pc known).0 ∙ count-append f (L.added t.pc) (x ∷ []))
        ∙ omega arith)
    | inr unknown ↦
        rw unknown (
          ap (λ n. count f (L.added t.pc) + n) (count-append f t.candidates (x ∷ [])) ∙ omega arith)
  ]

  add_all-held :
      (f : P.Candidate → Bool) (l : List (P.Candidate)) (pc : P.Pc)
      → P.has_remote_description pc ≡ true
      → count f (L.added (add_all P l pc)) ≡ count f (L.added pc) + count f l
  add_all-held f l pc known =
      ap (count f) (add_all-added l pc known).0 ∙ count-append f (L.added pc) l

  module _ {G : SignalApi P} where
    -- The subscriber has been handed some candidates, and keeps others.
    abbrev Holds : List (P.Candidate) → List (P.Candidate) → Result (Unit {0}) × Client P G → Type 0
    Holds has keeps (_, c) = (L.added c.subscriber.pc ≡ has) × (c.subscriber.candidates ≡ keeps)

    send_answer-Holds :
        (answer : P.Description) (c : Client P G)
        → Holds (L.added c.subscriber.pc) c.subscriber.candidates (send_answer answer c)
    send_answer-Holds answer c =
        let same = (L.set_local-keeps answer c.subscriber.pc).1 in
        bind_cases (Holds (L.added c.subscriber.pc) c.subscriber.candidates)
          (on_subscriber (P.set_local_description answer)) (λ _. on_signal (G.answer answer)) c
          (λ e _. (same, refl)) λ a _. (same, refl)

    flush_and_answer-Holds :
        (c : Client P G)
        → P.has_remote_description c.subscriber.pc ≡ true
        → Holds (L.added c.subscriber.pc ++ c.subscriber.candidates) [] (flush_and_answer tt c)
    flush_and_answer-Holds c known =
        let flushed = (add_all-added c.subscriber.candidates c.subscriber.pc known).0 in
        let same = (L.create_answer-keeps (flush c).subscriber.pc).1 in
        bind_cases (Holds (L.added c.subscriber.pc ++ c.subscriber.candidates) [])
          (on_subscriber P.create_answer) send_answer (flush c) (λ e _. (same ∙ flushed, refl))
          λ answer _.
            let rest = send_answer-Holds answer (on_subscriber P.create_answer (flush c)).1 in
            (rest.0 ∙ same ∙ flushed, rest.1)

    -- When the remote description of an offer is set, the candidates that were kept for the
    -- subscribing connection are handed on in the order they came, behind those it had, and none is
    -- kept; this holds also when the answer then fails.
    pub signal_on_negotiate-flushes :
        (d : P.Description) (c : Client P G)
        → (P.set_remote_description d c.subscriber.pc).0 ≡ ok tt
        → let c' = signal_on_negotiate d c in
          (L.added c'.subscriber.pc ≡ L.added c.subscriber.pc ++ c.subscriber.candidates)
          × (c'.subscriber.candidates ≡ [])
    unfolding signal_on_negotiate
    signal_on_negotiate-flushes d c set =
        let before = c.subscriber in
        let same = (L.set_remote-keeps d before.pc).1 in
        bind_cases (Holds (L.added before.pc ++ before.candidates) [])
          (on_subscriber (P.set_remote_description d)) flush_and_answer c
          (λ e failed. absurd (ground arith))
          λ a _.
            let rest =
              flush_and_answer-Holds (on_subscriber (P.set_remote_description d) c).1
                (L.set_remote-ok d before.pc set) in
            (rest.0 ∙ ap (λ has. has ++ before.candidates) same, rest.1)

    signal_on_negotiate-held :
        (f : P.Candidate → Bool) (d : P.Description) (c : Client P G)
        → held f (signal_on_negotiate d c).subscriber ≡ held f c.subscriber
    unfolding signal_on_negotiate
    signal_on_negotiate-held f d c =
        let before = c.subscriber in
        let same = (L.set_remote-keeps d before.pc).1 in
        bind_cases (λ (x : Result (Unit {0}) × Client P G). held f x.1.subscriber ≡ held f before)
          (on_subscriber (P.set_remote_description d)) flush_and_answer c
          (λ e _. ap (λ l. count f l + count f before.candidates) same)
          λ a set.
            let rest =
              flush_and_answer-Holds (on_subscriber (P.set_remote_description d) c).1
                (L.set_remote-ok d before.pc set) in
            let all =
              count-append f (L.added (P.set_remote_description d before.pc).1) before.candidates in
            omega (arith, ap (count f) rest.0, ap (count f) rest.1, all, ap (count f) same)

    receive-held :
        (f : P.Candidate → Bool) (m : Message P) (c : Client P G)
        → (c' : Client P G) × (receive m c ≡ done c')
          × (held f c'.subscriber
              ≡ held f c.subscriber + count f (subscriber_candidates P (m ∷ [])))
    unfolding signal_on_trickle
    receive-held f (negotiate d) c =
        (signal_on_negotiate d c, refl, signal_on_negotiate-held f d c ∙ omega arith)
    receive-held f (trickle_publisher x) c = (_, refl, omega arith)
    receive-held f (trickle_subscriber x) c = (_, refl, receive_candidate-held f x c.subscriber)

    -- However the offers and candidates of a server are ordered and however the handling of the offers
    -- ends, no message panics, and each of the candidates that came for the subscribing connection
    -- has been handed on or is kept: those that any test singles out are as many as before and those
    -- that came.
    pub receive_all-held :
        (f : P.Candidate → Bool) (l : List (Message P)) (c : Client P G)
        → (c' : Client P G) × (receive_all l c ≡ done c')
          × (count f (L.added c'.subscriber.pc) + count f c'.subscriber.candidates
              ≡ count f (L.added c.subscriber.pc)
                + count f c.subscriber.candidates
                + count f (subscriber_candidates P l))
    receive_all-held f [] c = (c, refl, omega arith)
    receive_all-held f (m ∷ l) c =
        let (c', first, one) = receive-held f m c in
        let (c'', rest, all) = receive_all-held f l c' in
        let both = count_candidates f m l in
        (c'', ap (λ o. and_then o (receive_all l)) first ∙ rest, omega (arith, one, all, both))
