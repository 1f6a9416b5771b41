-- ===== src/Base/Maps.antt =====
-- Go's `map[string]T` as an association list in which each key is held once.
use Prim.Native.String.{String}
use Prim.Native.Nat.{suc}
use mathlib.Core.Path.{◌≡◌, refl}
use mathlib.Core.Logic.{ite, ◌≢◌, ◌⊎◌, inl, inr}
use mathlib.Core.List.{List, [], ◌∷◌}
use mathlib.Core.Option.{Option, none, some}
use native.Mathlib.Omega.{arith}
use ion_cluster.Base.Tests.{text_discrete}
use ion_cluster.Base.Lists.{length}

abbrev pub Map {ℓ} : Type ℓ → Type ℓ
Map V = List (String × V)

module _ {ℓ} {V : Type ℓ} where
  -- `v, ok := m[k]`
  abbrev pub lookup : String → Map V → Option V
  lookup k [] = none
  lookup k ((j, v) ∷ m) = ite (text_discrete j k) (some v) (lookup k m)

  -- `m[k] = v`
  abbrev pub insert : String → V → Map V → Map V
  insert k v [] = (k, v) ∷ []
  insert k v ((j, w) ∷ m) = ite (text_discrete j k) ((k, v) ∷ m) ((j, w) ∷ insert k v m)

  -- `delete(m, k)`
  abbrev pub delete : String → Map V → Map V
  delete k [] = []
  delete k ((j, w) ∷ m) = let rest = delete k m in ite (text_discrete j k) rest ((j, w) ∷ rest)

  -- Each key is held once.
  abbrev pub HasUniqueKeys : Map V → Type ℓ
  HasUniqueKeys [] = Unit
  HasUniqueKeys ((k, v) ∷ m) = (lookup k m ≡ none) × HasUniqueKeys m

  pub lookup-insert :
      (k j : String) (v : V) (m : Map V)
      → lookup j (insert k v m) ≡ ite (text_discrete k j) (some v) (lookup j m)
  lookup-insert k j v [] = refl
  lookup-insert k j v ((i, w) ∷ m) = ground (arith, lookup-insert k j v m)

  pub lookup-delete :
      (k j : String) (m : Map V) → lookup j (delete k m) ≡ ite (text_discrete k j) none (lookup j m)
  lookup-delete k j [] = ground arith
  lookup-delete k j ((i, w) ∷ m) = ground (arith, lookup-delete k j m)

  -- What the map holds after a write is the new entry or an old one.
  pub insert_cases :
      (k j : String) (v x : V) (m : Map V)
      → lookup j (insert k v m) ≡ some x
      → ((k ≡ j) × (x ≡ v)) ⊎ ((k ≢ j) × (lookup j m ≡ some x))
  insert_cases k j v x m h = elim (text_discrete k j) [
    | yes same ↦ inl (same, ground (arith, lookup-insert k j v m))
    | no other ↦ inr (other, ground (arith, lookup-insert k j v m))
  ]

  pub delete_cases :
      (k j : String) (x : V) (m : Map V)
      → lookup j (delete k m) ≡ some x
      → (k ≢ j) × (lookup j m ≡ some x)
  delete_cases k j x m h = elim (text_discrete k j) [
    | yes same ↦ absurd (ground (arith, lookup-delete k j m))
    | no other ↦ (other, ground (arith, lookup-delete k j m))
  ]

  pub insert-HasUniqueKeys :
      (k : String) (v : V) (m : Map V) → HasUniqueKeys m → HasUniqueKeys (insert k v m)
  insert-HasUniqueKeys k v [] u = (refl, tt)
  insert-HasUniqueKeys k v ((j, w) ∷ m) u =
      ground (arith, insert-HasUniqueKeys k v m u.1, lookup-insert k j v m)

  pub delete-HasUniqueKeys : (k : String) (m : Map V) → HasUniqueKeys m → HasUniqueKeys (delete k m)
  delete-HasUniqueKeys k [] u = tt
  delete-HasUniqueKeys k ((j, w) ∷ m) u =
      ground (arith, delete-HasUniqueKeys k m u.1, lookup-delete k j m)

  pub length-insert_new :
      (k : String) (v : V) (m : Map V) → lookup k m ≡ none → length (insert k v m) ≡ suc (length m)
  length-insert_new k v [] h = refl
  length-insert_new k v ((j, w) ∷ m) h = ground (arith, length-insert_new k v m)

  pub delete_absent : (k : String) (m : Map V) → lookup k m ≡ none → delete k m ≡ m
  delete_absent k [] h = refl
  delete_absent k ((j, w) ∷ m) h = ground (arith, delete_absent k m)

  pub length-delete_found :
      (k : String) (v : V) (m : Map V)
      → HasUniqueKeys m
      → lookup k m ≡ some v
      → suc (length (delete k m)) ≡ length m
  length-delete_found k v [] u h = cc
  length-delete_found k v ((j, w) ∷ m) u h =
      ground (arith, length-delete_found k v m u.1, delete_absent k m)
