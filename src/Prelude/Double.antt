-- ===== src/Prelude/Double.antt =====
-- What the code does with a JavaScript number that need not be whole: an interface. No law of rounding
-- is assumed; a theorem that needs one names it.
use Prim.Native.Nat.{ℕ}
use mathlib.Core.Bool.{Bool}

pub record Double {ℓ} (F : Type ℓ) : Type ℓ where
  pub of_ℕ : ℕ → F
  pub lt : F → F → Bool
  pub le : F → F → Bool
  pub is_integer : F → Bool
  pub is_finite : F → Bool
  pub is_truthy : F → Bool
  pub sub : F → F → F
  pub mul : F → F → F
  pub div : F → F → F
