-- ===== src/Session/History.antt =====
-- pkg/session.go: what a session has come to after a series of presence updates, and in which order
-- its listeners see them.
use Prim.Native.Nat.{min}
use mathlib.Core.List.{append-nil}
use ion_cluster.Base.{
  ℕ, zero, suc, ◌+◌, ◌-◌, ◌%◌, ◌^◌, ◌≤◌, ◌<◌, ◌≡◌, refl, String, Option, some, List, [], ◌∷◌, ◌++◌,
  lookup, length, get_elem?, replicate, arith, ite, text_discrete,
}
use ion_cluster.Session.{
  Sfu, Presence, Params, Broadcast, Chan, Session, update_presence_meta_for_peer,
}
use ion_cluster.Session.Delivery.{count_listeners}
use ion_cluster.Session.Updates.{lookup-put_meta, update-delivers, update_message}

-- What a key holds after a series of updates of a map in which it held `old`.
abbrev pub last_update : {V : Type 0} → String → List (String × Option V) → Option V → Option V
last_update k [] old = old
last_update k ((p, meta) ∷ us) old = last_update k us (ite (text_discrete p k) meta old)

module _ {S : Sfu} (pod : String) where
  pub apply_updates :
      List (String × Option (S.Value)) → Session S × List (Chan S) → Session S × List (Chan S)
  apply_updates [] st = st
  apply_updates ((p, meta) ∷ us) (s, chans) =
      apply_updates us (update_presence_meta_for_peer pod p meta s chans)

  -- After any series of updates each peer has the value of its last update, absent if that was nil,
  -- or what it had before if it made none.
  pub presence-last_update :
      (us : List (String × Option (S.Value))) (st : Session S × List (Chan S)) (k : String)
      → lookup k (apply_updates us st).0.presence ≡ last_update k us (lookup k st.0.presence)
  unfolding apply_updates update_presence_meta_for_peer
  presence-last_update [] st k = refl
  presence-last_update ((p, meta) ∷ us) (s, chans) k =
      rw (← lookup-put_meta p k meta s.presence)
        (presence-last_update us (update_presence_meta_for_peer pod p meta s chans) k)

  -- The revision counts the updates, modulo 2^64.
  pub revision-apply_updates :
      (us : List (String × Option (S.Value))) (st : Session S × List (Chan S))
      → st.0.presence_revision < 2 ^ 64
      → (apply_updates us st).0.presence_revision ≡ (st.0.presence_revision + length us) % 2 ^ 64
  unfolding apply_updates update_presence_meta_for_peer
  revision-apply_updates [] (s, chans) h = omega arith
  revision-apply_updates ((p, meta) ∷ us) (s, chans) h = omega (
    arith,
    revision-apply_updates us (update_presence_meta_for_peer pod p meta s chans) (omega arith),
  )

-- What holds of the messages behind one with these parameters, if the last revision was `lo`.
abbrev After : {S : Sfu} → Params S → ℕ → (ℕ → Type 0) → Type 0
After (Params.presence p) lo rest = (lo < p.revision) × rest p.revision
After (Params.value _) lo rest = rest lo

After-mono :
    {S : Sfu} (q : Params S) (lo : ℕ) (P Q : ℕ → Type 0)
    → ((n : ℕ) → P n → Q n)
    → After q lo P
    → After q lo Q
After-mono (Params.presence p) lo P Q f (above, h) = (above, f p.revision h)
After-mono (Params.value _) lo P Q f h = f lo h

-- The presences of a channel bear strictly rising revisions, all above `lo` and none above `hi`.
abbrev pub Ascends : {S : Sfu} → ℕ → List (Broadcast S) → ℕ → Type 0
Ascends lo [] hi = lo ≤ hi
Ascends lo (b ∷ bs) hi = After b.params lo (λ r. Ascends r bs hi)

module _ {S : Sfu} (hi hi' : ℕ) (le : hi < hi') where
  Ascends-weaken : (lo : ℕ) (bs : List (Broadcast S)) → Ascends lo bs hi → Ascends lo bs hi'
  Ascends-weaken lo [] h = omega arith
  Ascends-weaken lo (b ∷ bs) h = After-mono b.params lo _ _ (λ r. Ascends-weaken r bs) h

  Ascends-snoc :
      (lo : ℕ) (bs : List (Broadcast S)) (method : String) (p : Presence S)
      → p.revision ≡ hi'
      → Ascends lo bs hi
      → Ascends lo (bs ++ record { method = method; params = Params.presence p } ∷ []) hi'
  Ascends-snoc lo [] method p e h = omega arith
  Ascends-snoc lo (b ∷ bs) method p e h =
      After-mono b.params lo _ _ (λ r. Ascends-snoc r bs method p e) h

-- A peer that is registered once sees the revisions of its session strictly rise, whatever is
-- dropped: an update keeps its unread messages in rising order and none above the session's
-- revision, until the revision wraps.
pub update-Ascends :
    {S : Sfu} (pod p : String) (meta : Option (S.Value)) (s : Session S) (chans : List (Chan S))
    (i lo : ℕ) (ch : Chan S)
    → get_elem? chans i ≡ some ch
    → count_listeners i s.broadcast_listeners ≤ 1
    → s.presence_revision + 1 < 2 ^ 64
    → Ascends lo ch.buffer s.presence_revision
    → let (s', chans') = update_presence_meta_for_peer pod p meta s chans in
      (ch' : Chan S) × (get_elem? chans' i ≡ some ch') × Ascends lo ch'.buffer s'.presence_revision
unfolding update_presence_meta_for_peer
update-Ascends {S} pod p meta s chans i lo ch e once fits h =
    let copies : ℕ = min (count_listeners i s.broadcast_listeners) (ch.cap - length ch.buffer) in
    (
      record ch { buffer = ch.buffer ++ replicate copies (update_message pod p meta s) },
      update-delivers pod p meta s chans i ch e,
      appended copies (omega arith),
    )
  where
    next : (s.presence_revision + 1) % 2 ^ 64 ≡ suc s.presence_revision
    next = omega arith

    appended :
        (n : ℕ)
        → n ≤ 1
        → Ascends lo
            (ch.buffer ++ replicate n (update_message pod p meta s))
            ((s.presence_revision + 1) % 2 ^ 64)
    appended zero h1 =
        rw append-nil (Ascends-weaken s.presence_revision _ (omega arith) lo ch.buffer h)
    appended (suc zero) h1 =
        Ascends-snoc s.presence_revision _ (omega arith) lo ch.buffer _ _ refl h
    appended (suc (suc n)) h1 = absurd (omega arith)
