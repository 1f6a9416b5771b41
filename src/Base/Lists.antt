-- ===== src/Base/Lists.antt =====
-- Lists measured and indexed by native numbers, under the library's names.
use Prim.Native.Nat.{ℕ, zero, suc, ◌+◌, ◌<◌}
use mathlib.Core.Path.{◌≡◌, refl, ap, subst}
use mathlib.Core.Logic.{◌≢◌, ◌⊎◌, inl, inr}
use mathlib.Core.List.{List, [], ◌∷◌, ◌++◌}
use mathlib.Core.Option.{Option, none, some, some-injective}
use native.Mathlib.Omega.{arith}

module _ {ℓ} {A : Type ℓ} where
  abbrev pub length : List A → ℕ
  length [] = 0
  length (x ∷ xs) = suc (length xs)

  abbrev pub get_elem? : List A → ℕ → Option A
  get_elem? [] i = none
  get_elem? (x ∷ xs) zero = some x
  get_elem? (x ∷ xs) (suc i) = get_elem? xs i

  -- A write out of bounds changes nothing.
  abbrev pub set : List A → ℕ → A → List A
  set [] i v = []
  set (x ∷ xs) zero v = v ∷ xs
  set (x ∷ xs) (suc i) v = x ∷ set xs i v

  abbrev pub replicate : ℕ → A → List A
  replicate zero a = []
  replicate (suc n) a = a ∷ replicate n a

  pub length-append : (xs ys : List A) → length (xs ++ ys) ≡ length xs + length ys
  length-append [] ys = omega arith
  length-append (x ∷ xs) ys = omega (arith, length-append xs ys)

module _ {ℓ} {A : Type ℓ} where
  pub length-set : (xs : List A) (i : ℕ) (v : A) → length (set xs i v) ≡ length xs
  length-set [] i v = refl
  length-set (x ∷ xs) zero v = refl
  length-set (x ∷ xs) (suc i) v = omega (arith, length-set xs i v)

  pub get_elem?_of_lt : (xs : List A) (i : ℕ) → i < length xs → (x : A) × (get_elem? xs i ≡ some x)
  get_elem?_of_lt [] i h = absurd (omega arith)
  get_elem?_of_lt (x ∷ xs) zero h = (x, refl)
  get_elem?_of_lt (x ∷ xs) (suc i) h = get_elem?_of_lt xs i (omega arith)

  pub get_elem?-set_self :
      (xs : List A) (i : ℕ) (x v : A) → get_elem? xs i ≡ some x → get_elem? (set xs i v) i ≡ some v
  get_elem?-set_self [] i x v h = absurd (cc)
  get_elem?-set_self (y ∷ xs) zero x v h = refl
  get_elem?-set_self (y ∷ xs) (suc i) x v h = get_elem?-set_self xs i x v h

  pub get_elem?-append_end : (xs : List A) (v : A) → get_elem? (xs ++ v ∷ []) (length xs) ≡ some v
  get_elem?-append_end [] v = refl
  get_elem?-append_end (x ∷ xs) v = get_elem?-append_end xs v

  pub length-get_elem? : (xs : List A) (i : ℕ) (x : A) → get_elem? xs i ≡ some x → i < length xs
  length-get_elem? [] i x h = absurd (cc)
  length-get_elem? (y ∷ xs) zero x h = omega arith
  length-get_elem? (y ∷ xs) (suc i) x h = omega (arith, length-get_elem? xs i x h)

  -- A write keeps the other entries.
  pub get_elem?-set :
      (xs : List A) (i j : ℕ) (v y : A)
      → get_elem? (set xs i v) j ≡ some y
      → ((i ≡ j) × (y ≡ v)) ⊎ ((i ≢ j) × (get_elem? xs j ≡ some y))
  get_elem?-set [] i j v y h = absurd (cc)
  get_elem?-set (x ∷ xs) zero zero v y h = inl (refl, ground arith)
  get_elem?-set (x ∷ xs) zero (suc j) v y h = inr (λ e. cc, h)
  get_elem?-set (x ∷ xs) (suc i) zero v y h = inr (λ e. cc, h)
  get_elem?-set (x ∷ xs) (suc i) (suc j) v y h = elim (get_elem?-set xs i j v y h) [
    | inl (e, same) ↦ inl (ap suc e, same)
    | inr (ne, kept) ↦ inr (λ e. ne (omega (arith, e)), kept)
  ]

  pub set-set : (xs : List A) (i : ℕ) (v y : A) → set (set xs i v) i y ≡ set xs i y
  set-set [] i v y = refl
  set-set (x ∷ xs) zero v y = refl
  set-set (x ∷ xs) (suc i) v y = ap (λ l. x ∷ l) (set-set xs i v y)

  -- What is behind an appended list is its own or the last.
  pub get_elem?-snoc :
      (xs : List A) (v : A) (j : ℕ) (y : A)
      → get_elem? (xs ++ v ∷ []) j ≡ some y
      → (y ≡ v) ⊎ (get_elem? xs j ≡ some y)
  get_elem?-snoc [] v zero y h = inl (ground arith)
  get_elem?-snoc [] v (suc j) y h = absurd (cc)
  get_elem?-snoc (x ∷ xs) v zero y h = inr h
  get_elem?-snoc (x ∷ xs) v (suc j) y h = get_elem?-snoc xs v j y h

module _ {ℓ κ} {A : Type ℓ} where
  abbrev pub All : (A → Type κ) → List A → Type κ
  All Q [] = Unit
  All Q (x ∷ xs) = Q x × All Q xs

  pub All-map : (Q R : A → Type κ) (xs : List A) → ((x : A) → Q x → R x) → All Q xs → All R xs
  All-map Q R [] f h = tt
  All-map Q R (x ∷ xs) f (q, h) = (f x q, All-map Q R xs f h)

  pub All-snoc : (Q : A → Type κ) (xs : List A) (x : A) → All Q xs → Q x → All Q (xs ++ x ∷ [])
  All-snoc Q [] x h q = (q, tt)
  All-snoc Q (y ∷ xs) x (p, h) q = (p, All-snoc Q xs x h q)

  pub All-set : (Q : A → Type κ) (xs : List A) (i : ℕ) (x : A) → All Q xs → Q x → All Q (set xs i x)
  All-set Q [] i x h q = tt
  All-set Q (y ∷ xs) zero x (p, h) q = (q, h)
  All-set Q (y ∷ xs) (suc i) x (p, h) q = (p, All-set Q xs i x h q)

  pub All-get_elem? :
      (Q : A → Type κ) (xs : List A) (i : ℕ) (x : A) → get_elem? xs i ≡ some x → All Q xs → Q x
  All-get_elem? Q [] i x e h = absurd (cc)
  All-get_elem? Q (y ∷ xs) zero x e (q, h) = subst Q (some-injective y x e) q
  All-get_elem? Q (y ∷ xs) (suc i) x e (q, h) = All-get_elem? Q xs i x e h

-- Some entry is so.
abbrev pub Any {ℓ} : {A : Type ℓ} → (A → Type 0) → List A → Type 0
Any Q [] = ⊥
Any Q (x ∷ xs) = Q x ⊎ Any Q xs
