-- ===== src/Base/Families.antt =====
-- Families `ℕ → A`, a value for each goroutine, node or call of the model.
use Prim.Native.Nat.{ℕ}
use mathlib.Core.Logic.{ite}
use native.Mathlib.Decide.{ℕ_discrete}

abbrev pub update {ℓ} : {A : Type ℓ} → (ℕ → A) → ℕ → A → ℕ → A
update f i a j = ite (ℕ_discrete i j) a (f j)
