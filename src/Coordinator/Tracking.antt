-- ===== src/Coordinator/Tracking.antt =====
-- The bookkeeping that both coordinators keep of their sessions: the map from ids, the gauge
-- `ion_cluster_sessions`, and the close handlers that the SFU holds.
use ion_cluster.Base.{
  ℕ, zero, suc, ◌<◌, ◌≡◌, refl, sym, ap, ◌∙◌, String, none, some, List, [], ◌∷◌, ◌++◌, Map, lookup,
  insert, delete, HasUniqueKeys, lookup-insert, lookup-delete, insert-HasUniqueKeys,
  delete-HasUniqueKeys, length-insert_new, length-delete_found, length, length-append, length-set,
  get_elem?, set, arith, ◌==◌, if◌then◌else◌,
}
use ion_cluster.Base.Int.{ℤ, pos, inc, dec}
use ion_cluster.Session.{Sfu, Session}
use ion_cluster.Coordinator.{handler_in}

module _ {S : Sfu} where
  -- The SFU runs a close handler once: it is spent.
  abbrev pub spend_handler : ℕ → List (Session S) → List (Session S)
  spend_handler r [] = []
  spend_handler zero (s ∷ ss) = record s { on_close = none } ∷ ss
  spend_handler (suc r) (s ∷ ss) = s ∷ spend_handler r ss

  -- Of a session with a pending handler it is a write at the session's index.
  pub spend_handler-set :
      (r : ℕ) (k : String) (ss : List (Session S))
      → handler_in ss r ≡ some k
      → (s : Session S) × (get_elem? ss r ≡ some s)
        × (spend_handler r ss ≡ set ss r (record s { on_close = none }))
  spend_handler-set r k [] h = absurd (cc)
  spend_handler-set zero k (s ∷ ss) h = (s, refl, refl)
  spend_handler-set (suc r) k (s ∷ ss) h =
      let (x, there, same) = spend_handler-set r k ss h in (x, there, ap (λ l. s ∷ l) same)

  handler_in-append :
      (ss : List (Session S)) (s : Session S) (r : ℕ)
      → handler_in (ss ++ s ∷ []) r ≡ (if r == length ss then s.on_close else handler_in ss r)
  handler_in-append [] s zero = ground arith
  handler_in-append [] s (suc r) = ground arith
  handler_in-append (x ∷ ss) s zero = ground arith
  handler_in-append (x ∷ ss) s (suc r) = ground (arith, handler_in-append ss s r)

  handler_in-spend_handler :
      (r j : ℕ) (ss : List (Session S))
      → handler_in (spend_handler r ss) j ≡ (if r == j then none else handler_in ss j)
  handler_in-spend_handler r j [] = ground arith
  handler_in-spend_handler zero zero (s ∷ ss) = ground arith
  handler_in-spend_handler zero (suc j) (s ∷ ss) = ground arith
  handler_in-spend_handler (suc r) zero (s ∷ ss) = ground arith
  handler_in-spend_handler (suc r) (suc j) (s ∷ ss) =
      ground (arith, handler_in-spend_handler r j ss)

  handler_in-set :
      (r j : ℕ) (s s' : Session S) (ss : List (Session S))
      → get_elem? ss r ≡ some s
      → s'.on_close ≡ s.on_close
      → handler_in (set ss r s') j ≡ handler_in ss j
  handler_in-set r j s s' [] e h = refl
  handler_in-set zero zero s s' (x ∷ ss) e h = ground arith
  handler_in-set zero (suc j) s s' (x ∷ ss) e h = refl
  handler_in-set (suc r) zero s s' (x ∷ ss) e h = refl
  handler_in-set (suc r) (suc j) s s' (x ∷ ss) e h = handler_in-set r j s s' ss e h

  -- The gauge counts the map's sessions, and each session whose handler has yet to run is in the
  -- map under the handler's id.
  pub record Tracks (m : Map ℕ) (ss : List (Session S)) (gauge : ℤ) : Type 0 where
    pub unique : HasUniqueKeys m
    pub counted : gauge ≡ pos (length m)
    pub held : (k : String) (r : ℕ) → handler_in ss r ≡ some k → lookup k m ≡ some r

  pub Tracks-empty : Tracks [] [] (pos 0)
  Tracks-empty = record { unique = tt; counted = refl; held = λ k r h. cc }

  pub Tracks-make :
      (m : Map ℕ) (ss : List (Session S)) (gauge : ℤ) (k : String) (s : Session S)
      → Tracks m ss gauge
      → lookup k m ≡ none
      → s.on_close ≡ some k
      → Tracks (insert k (length ss) m) (ss ++ s ∷ []) (inc gauge)
  Tracks-make m ss gauge k s t absent e = record {
    unique = insert-HasUniqueKeys k (length ss) m t.unique;
    counted = ground (arith, t.counted, length-insert_new k (length ss) m absent);
    held = λ k' r h. ground (
      arith,
      h,
      e,
      absent,
      handler_in-append ss s r,
      lookup-insert k k' (length ss) m,
      t.held k' r,
      t.held k r,
    );
  }

  pub Tracks-close :
      (m : Map ℕ) (ss : List (Session S)) (gauge : ℤ) (k : String) (r : ℕ)
      → Tracks m ss gauge
      → handler_in ss r ≡ some k
      → Tracks (delete k m) (spend_handler r ss) (dec gauge)
  Tracks-close m ss gauge k r t h = record {
    unique = delete-HasUniqueKeys k m t.unique;
    counted = ground (arith, t.counted, length-delete_found k r m t.unique (t.held k r h));
    held = λ k' j h'. ground (
      arith,
      h',
      t.held k r h,
      handler_in-spend_handler r j ss,
      lookup-delete k k' m,
      t.held k' j,
    );
  }

  pub Tracks-spend :
      (m : Map ℕ) (ss : List (Session S)) (gauge : ℤ) (r : ℕ)
      → Tracks m ss gauge
      → Tracks m (spend_handler r ss) gauge
  Tracks-spend m ss gauge r t = record {
    unique = t.unique;
    counted = t.counted;
    held = λ k j h. ground (arith, h, handler_in-spend_handler r j ss, t.held k j);
  }

  pub Tracks-work :
      (m : Map ℕ) (ss : List (Session S)) (gauge : ℤ) (r : ℕ) (s s' : Session S)
      → Tracks m ss gauge
      → get_elem? ss r ≡ some s
      → s'.on_close ≡ s.on_close
      → Tracks m (set ss r s') gauge
  Tracks-work m ss gauge r s s' t e h = record {
    unique = t.unique;
    counted = t.counted;
    held = λ k j h'. t.held k j (sym (handler_in-set r j s s' ss e h) ∙ h');
  }

  handler_in_end : (ss : List (Session S)) → handler_in ss (length ss) ≡ none
  handler_in_end [] = refl
  handler_in_end (s ∷ ss) = handler_in_end ss

  -- Each session in the map is one whose handler has yet to run.
  abbrev pub Registers : Map ℕ → List (Session S) → Type 0
  Registers m ss = (k : String) (r : ℕ) → lookup k m ≡ some r → handler_in ss r ≡ some k

  pub Registers-make :
      (m : Map ℕ) (ss : List (Session S)) (k : String) (s : Session S)
      → Registers m ss
      → s.on_close ≡ some k
      → Registers (insert k (length ss) m) (ss ++ s ∷ [])
  Registers-make m ss k s g e k' r h =
      ground (
        arith,
        handler_in-append ss s r,
        handler_in_end ss,
        lookup-insert k k' (length ss) m,
        g k' r,
      )

  pub Registers-close :
      (m : Map ℕ) (ss : List (Session S)) (k : String) (r : ℕ)
      → Registers m ss
      → handler_in ss r ≡ some k
      → Registers (delete k m) (spend_handler r ss)
  Registers-close m ss k r g h k' j h' =
      ground (arith, handler_in-spend_handler r j ss, lookup-delete k k' m, g k' j)

  pub Registers-work :
      (m : Map ℕ) (ss : List (Session S)) (r : ℕ) (s s' : Session S)
      → Registers m ss
      → get_elem? ss r ≡ some s
      → s'.on_close ≡ s.on_close
      → Registers m (set ss r s')
  Registers-work m ss r s s' g e h k j h' = handler_in-set r j s s' ss e h ∙ g k j h'

  -- Looking up the handler finds the session.
  pub get_elem?_of_handler :
      (ss : List (Session S)) (r : ℕ) (k : String)
      → handler_in ss r ≡ some k
      → (s : Session S) × (get_elem? ss r ≡ some s) × (s.on_close ≡ some k)
  get_elem?_of_handler [] r k h = absurd (cc)
  get_elem?_of_handler (s ∷ ss) zero k h = (s, refl, h)
  get_elem?_of_handler (s ∷ ss) (suc r) k h = get_elem?_of_handler ss r k h

  length-spend_handler : (r : ℕ) (ss : List (Session S)) → length (spend_handler r ss) ≡ length ss
  length-spend_handler r [] = refl
  length-spend_handler zero (s ∷ ss) = refl
  length-spend_handler (suc r) (s ∷ ss) = omega (arith, length-spend_handler r ss)

  -- Each id in the map leads to a session in memory.
  abbrev pub Points : Map ℕ → List (Session S) → Type 0
  Points m ss = (k : String) (r : ℕ) → lookup k m ≡ some r → r < length ss

  pub Points-make :
      (m : Map ℕ) (ss : List (Session S)) (k : String) (s : Session S)
      → Points m ss
      → Points (insert k (length ss) m) (ss ++ s ∷ [])
  Points-make m ss k s p k' r h =
      ground (arith, length-append ss (s ∷ []), lookup-insert k k' (length ss) m, p k' r)

  pub Points-spend :
      (m : Map ℕ) (ss : List (Session S)) (r : ℕ) → Points m ss → Points m (spend_handler r ss)
  Points-spend m ss r p k j h = omega (arith, length-spend_handler r ss, p k j h)

  pub Points-delete :
      (m : Map ℕ) (ss : List (Session S)) (k : String) → Points m ss → Points (delete k m) ss
  Points-delete m ss k p k' j h = ground (arith, lookup-delete k k' m, p k' j)

  pub Points-work :
      (m : Map ℕ) (ss : List (Session S)) (r : ℕ) (s : Session S)
      → Points m ss
      → Points m (set ss r s)
  Points-work m ss r s p k j h = omega (arith, length-set ss r s, p k j h)
