-- ===== src/Money.antt =====
-- lib/trading/money.ts: amounts as whole numbers of 1/10000 of a rupee. A quantity is a whole number
-- here, so the guards `Number.isInteger(qty)` of `moneyMulQty` and `moneyDivQty` pass.
pub mod Decimal
pub mod Division
use cm_desk.Prelude.{◌⊎◌, inl, inr, refl, ◌≡◌, ℕ, ◌+◌, ◌/◌, Bool, true, false, not, if◌then◌else◌}
use cm_desk.Prelude.Int.{ℤ, pos, negsuc, abs, neg, ◌+ℤ◌, ◌-ℤ◌, ◌*ℤ◌, ltb_ℤ, eqb_ℤ}

abbrev pub Money : Type 0
Money = ℤ

abbrev pub money_factor : ℕ
money_factor = 10_000

-- What the ledger's arithmetic throws.
pub data Thrown : Type 0 where
  invalid_money zero_divisor bad_fill_quantity : Thrown

pub data Result {ℓ} (A : Type ℓ) : Type ℓ where
  ok : A → Result A
  throw : Thrown → Result A

infixl 5 ◌>>=◌
abbrev pub ◌>>=◌ {ℓ κ} : {A : Type ℓ} {B : Type κ} → Result A → (A → Result B) → Result B
ok a >>= f = f a
throw e >>= f = throw e

abbrev pub money_zero : Money
money_zero = pos 0

unfoldable pub money_add : Money → Money → Money
money_add a b = a +ℤ b

unfoldable pub money_sub : Money → Money → Money
money_sub a b = a -ℤ b

unfoldable pub money_abs : Money → Money
money_abs value = pos (abs value)

-- `a === b ? 0 : a > b ? 1 : -1`
unfoldable pub money_cmp : Money → Money → ℤ
money_cmp a b = if eqb_ℤ a b then pos 0 else if ltb_ℤ b a then pos 1 else negsuc 0

-- `price * BigInt(qty)`
unfoldable pub money_mul_qty : Money → ℤ → Money
money_mul_qty price qty = price *ℤ qty

abbrev pub is_neg : ℤ → Bool
is_neg a = ltb_ℤ a (pos 0)

-- `negative ? -quot : quot`
abbrev pub with_sign : Bool → ℕ → ℤ
with_sign negative quot = if negative then neg (pos quot) else pos quot

-- `a !== b` on truth values
abbrev pub differ : Bool → Bool → Bool
differ true b = not b
differ false b = b

-- Half-up division of the absolute values; the signs differ when the result is negative.
unfoldable pub money_div_qty : Money → ℤ → Result Money
money_div_qty value qty =
    if eqb_ℤ qty (pos 0)
    then throw zero_divisor
    else ok (with_sign (differ (is_neg value) (is_neg qty)) ((abs value + abs qty / 2) / abs qty))

-- `moneyAbs(a - b) > tolerance`
unfoldable pub money_material_diff : Money → Money → Money → Bool
unfolding money_abs
money_material_diff a b tolerance = ltb_ℤ tolerance (money_abs (a -ℤ b))

abbrev pub default_tolerance : Money
default_tolerance = pos (money_factor / 100)

pub ok_injective {ℓ} : {A : Type ℓ} {a b : A} → ok a ≡ ok b → a ≡ b
ok_injective e = cc

pub result-cases {ℓ} :
    {A : Type ℓ} (x : Result A) → ((e : Thrown) × (x ≡ throw e)) ⊎ ((a : A) × (x ≡ ok a))
result-cases (ok a) = inr (a, refl)
result-cases (throw e) = inl (e, refl)
