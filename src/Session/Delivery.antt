-- ===== src/Session/Delivery.antt =====
-- pkg/session.go, `Broadcast`: which channels get a message.
use Prim.Native.Nat.{min}
use mathlib.Core.List.{append_assoc, append-nil}
use ion_cluster.Base.{
  ℕ, zero, suc, ◌-◌, ◌≡◌, refl, ◌≢◌, true, false, some, List, [], ◌∷◌, ◌++◌, Map, length, get_elem?,
  replicate, arith, ltb, ◌==◌, if◌then◌else◌, inl, inr, ap, ◌∙◌, Bool-cases, ltb→lt, ℕ_discrete,
  length-append,
}
use ion_cluster.Session.{Sfu, Broadcast, Chan, Session, try_send, send_at, broadcast_to, broadcast}

-- How many listeners send to the channel at an index.
abbrev pub count_listeners : ℕ → Map ℕ → ℕ
count_listeners i [] = 0
count_listeners i ((_, ch) ∷ ls) =
    if ch == i then suc (count_listeners i ls) else count_listeners i ls

module _ {S : Sfu} where
  -- The channel after `n` attempts: as many copies as there is room for.
  abbrev pub after_sends : ℕ → Broadcast S → Chan S → Chan S
  after_sends n msg ch = record ch {
    buffer = ch.buffer ++ replicate (min n (ch.cap - length ch.buffer)) msg;
  }

  get_elem?-send_at_self :
      (i : ℕ) (msg : Broadcast S) (chans : List (Chan S)) (ch : Chan S)
      → get_elem? chans i ≡ some ch
      → get_elem? (send_at i msg chans) i ≡ some (try_send msg ch)
  get_elem?-send_at_self i msg [] ch e = cc
  get_elem?-send_at_self zero msg (c ∷ cs) ch e = cc
  get_elem?-send_at_self (suc i) msg (c ∷ cs) ch e = get_elem?-send_at_self i msg cs ch e

  get_elem?-send_at_ne :
      (j i : ℕ) (msg : Broadcast S) (chans : List (Chan S))
      → j ≢ i
      → get_elem? (send_at j msg chans) i ≡ get_elem? chans i
  get_elem?-send_at_ne j i msg [] h = refl
  get_elem?-send_at_ne zero zero msg (c ∷ cs) h = absurd (h refl)
  get_elem?-send_at_ne zero (suc i) msg (c ∷ cs) h = refl
  get_elem?-send_at_ne (suc j) zero msg (c ∷ cs) h = refl
  get_elem?-send_at_ne (suc j) (suc i) msg (c ∷ cs) h =
      get_elem?-send_at_ne j i msg cs (λ e. h (omega arith))

  after_sends_zero : (msg : Broadcast S) (ch : Chan S) → after_sends 0 msg ch ≡ ch
  after_sends_zero msg ch =
      let none_sent : min 0 (ch.cap - length ch.buffer) ≡ 0 = omega arith in
      rw none_sent (ap (λ b. record ch { buffer = b }) (append-nil ch.buffer))

  after_sends-try_send :
      (n : ℕ) (msg : Broadcast S) (ch : Chan S)
      → after_sends n msg (try_send msg ch) ≡ after_sends (suc n) msg ch
  after_sends-try_send n msg ch = elim (Bool-cases (ltb (length ch.buffer) ch.cap)) [
    | inl room ↦
        let one_more : min (suc n) (ch.cap - length ch.buffer)
            ≡ suc (min n (ch.cap - length (ch.buffer ++ msg ∷ []))) =
          omega
            (arith, length-append ch.buffer (msg ∷ []), ltb→lt (length ch.buffer) ch.cap room) in
        rw (room, one_more)
          (ap (λ b. record ch { buffer = b }) (append_assoc ch.buffer (msg ∷ []) _))
    | inr full ↦
        let same : min n (ch.cap - length ch.buffer) ≡ min (suc n) (ch.cap - length ch.buffer) =
          ground arith in
        rw (full, same)
  ]

  broadcast_to-delivers :
      (ls : Map ℕ) (msg : Broadcast S) (chans : List (Chan S)) (i : ℕ) (ch : Chan S)
      → get_elem? chans i ≡ some ch
      → get_elem? (broadcast_to ls msg chans) i ≡ some (after_sends (count_listeners i ls) msg ch)
  unfolding broadcast_to
  broadcast_to-delivers [] msg chans i ch e = rw after_sends_zero e
  broadcast_to-delivers ((p, c) ∷ ls) msg chans i ch e = elim (ℕ_discrete c i) [
    | yes same ↦
        let here : get_elem? (send_at c msg chans) i ≡ some (try_send msg ch) =
          rw same (get_elem?-send_at_self i msg chans ch e) in
        let listed : (c == i) ≡ true = ground arith in
        rw listed (
          broadcast_to-delivers ls msg (send_at c msg chans) i (try_send msg ch) here
          ∙ ap some (after_sends-try_send (count_listeners i ls) msg ch))
    | no other ↦
        let unlisted : (c == i) ≡ false = ground arith in
        rw unlisted (
          broadcast_to-delivers ls msg (send_at c msg chans) i ch
            (get_elem?-send_at_ne c i msg chans other ∙ e))
  ]

  -- A broadcast appends to each channel one copy of the message for each listener on it, as many as
  -- the channel has room for, and changes nothing else of the channel: a send never blocks.
  pub broadcast-delivers :
      (s : Session S) (msg : Broadcast S) (chans : List (Chan S)) (i : ℕ) (ch : Chan S)
      → get_elem? chans i ≡ some ch
      → get_elem? (broadcast s msg chans) i
        ≡ some (record ch {
          buffer =
              ch.buffer
              ++ replicate
                  (min (count_listeners i s.broadcast_listeners) (ch.cap - length ch.buffer))
                  msg;
        })
  unfolding broadcast
  broadcast-delivers s msg chans i ch e =
      broadcast_to-delivers s.broadcast_listeners msg chans i ch e
