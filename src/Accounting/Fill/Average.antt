-- ===== src/Accounting/Fill/Average.antt =====
-- lib/trading/accounting.ts: the average entry price and the range of the prices that were filled.
use cm_desk.Prelude.{ℕ, suc, ◌+◌, ◌*◌, ◌≤◌, ◌<◌, ◌≡◌, ◌⊎◌, inl, inr, refl, ap, false, arith}
use cm_desk.Prelude.Int.{
  ℤ, pos, negsuc, pos_part, neg_part, abs, ◌+ℤ◌, ◌-ℤ◌, ◌*ℤ◌, ◌≤ℤ◌, eqb_ℤ, mul_parts, int_laws,
}
use cm_desk.Prelude.Int.Ring.{sub_mul, add_mul}
use cm_desk.Money.{Money, ok, money_add, money_mul_qty}
use cm_desk.Money.Division.{rounded, rounded_near}
use cm_desk.Accounting.Fill.{
  PositionState, FillApplication, FillApplyResult, whole, apply_fill_to_position,
  increase_numerator, open_position, increase_to, reduce_position, close_position, reverse_position,
}
use cm_desk.Accounting.Fill.Ladder.{signed_of, outcome, outcome_rule, apply_fill-outcome}

mul_nonneg : (x : ℤ) (d : ℕ) → pos 0 ≤ℤ x → pos 0 ≤ℤ x *ℤ pos d
mul_nonneg (pos x) d h = omega (arith, mul_parts (pos x) (pos d))
mul_nonneg (negsuc x) d h = absurd (omega arith)

-- Multiplying by a quantity keeps an order.
pub mul_mono : (x y : Money) (d : ℕ) → x ≤ℤ y → x *ℤ pos d ≤ℤ y *ℤ pos d
mul_mono x y d h =
    let grown : pos 0 ≤ℤ (y -ℤ x) *ℤ pos d = mul_nonneg (y -ℤ x) d (omega int_laws) in
    let spread = ap (λ z. pos_part z) (sub_mul y x (pos d)) in
    let fallen = ap (λ z. neg_part z) (sub_mul y x (pos d)) in
    omega (int_laws, grown, spread, fallen)

-- One more in a factor is one more divisor in the product.
succ_mul :
    (a : Money) (d : ℕ)
    → pos_part ((a +ℤ pos 1) *ℤ pos d) + neg_part (a *ℤ pos d)
      ≡ neg_part ((a +ℤ pos 1) *ℤ pos d) + pos_part (a *ℤ pos d) + d
succ_mul a d =
    let ups = ap (λ z. pos_part z) (add_mul a (pos 1) (pos d)) in
    let downs = ap (λ z. neg_part z) (add_mul a (pos 1) (pos d)) in
    omega (int_laws, ups, downs, mul_parts (pos 1) (pos d))

lt_or_le : (x y : ℤ) → (x ≤ℤ y) ⊎ (y +ℤ pos 1 ≤ℤ x)
lt_or_le x y = omega int_laws

-- A quotient that missed the range would be off by a whole divisor.
below_range :
    (a lo v : Money) (d : ℕ) → 0 < d → lo *ℤ pos d ≤ℤ v → abs (a *ℤ pos d -ℤ v) * 2 ≤ d → lo ≤ℤ a
below_range a lo v d pd h near = elim (lt_or_le lo a) [
  | inl fine ↦ fine
  | inr under ↦ absurd (omega (int_laws, mul_mono (a +ℤ pos 1) lo d under, succ_mul a d))
]

above_range :
    (a hi v : Money) (d : ℕ) → 0 < d → v ≤ℤ hi *ℤ pos d → abs (a *ℤ pos d -ℤ v) * 2 ≤ d → a ≤ℤ hi
above_range a hi v d pd h near = elim (lt_or_le a hi) [
  | inl fine ↦ fine
  | inr over ↦ absurd (omega (int_laws, mul_mono (hi +ℤ pos 1) a d over, succ_mul hi d))
]

pub rounded_between :
    (lo hi v : Money) (d : ℕ)
    → 0 < d
    → lo *ℤ pos d ≤ℤ v
    → v ≤ℤ hi *ℤ pos d
    → (lo ≤ℤ rounded v d) × (rounded v d ≤ℤ hi)
rounded_between lo hi v d pd low high =
    let near = rounded_near v d pd in
    (below_range (rounded v d) lo v d pd low near, above_range (rounded v d) hi v d pd high near)

mul_split :
    (x : Money) (k m : ℕ)
    → pos_part (x *ℤ pos (k + m)) + neg_part (x *ℤ pos k) + neg_part (x *ℤ pos m)
      ≡ neg_part (x *ℤ pos (k + m)) + pos_part (x *ℤ pos k) + pos_part (x *ℤ pos m)
mul_split x k m = omega (arith, mul_parts x (pos (k + m)), mul_parts x (pos k), mul_parts x (pos m))

-- A position is flat, or its average lies between two prices.
abbrev pub InRange : Money → Money → PositionState → Type 0
InRange lo hi s = (s.quantity ≡ pos 0) ⊎ ((lo ≤ℤ s.average_price) × (s.average_price ≤ℤ hi))

module _ (lo hi : Money) (s : PositionState) (f : FillApplication) (n : ℕ) where
  increase_between :
      (signed : ℤ)
      → lo ≤ℤ s.average_price
      → s.average_price ≤ℤ hi
      → lo ≤ℤ f.price
      → f.price ≤ℤ hi
      → let a = rounded (increase_numerator s f (suc n) signed) (abs s.quantity + suc n) in
        (lo ≤ℤ a) × (a ≤ℤ hi)
  unfolding increase_numerator money_add money_mul_qty
  increase_between signed l h pl ph =
      let k = abs s.quantity in
      rounded_between lo hi (increase_numerator s f (suc n) signed) (k + suc n) (omega arith)
        (omega (
          int_laws,
          mul_mono lo s.average_price k l,
          mul_mono lo f.price (suc n) pl,
          mul_split lo k (suc n),
        ))
        (omega (
          int_laws,
          mul_mono s.average_price hi k h,
          mul_mono f.price hi (suc n) ph,
          mul_split hi k (suc n),
        ))

  outcome-InRange :
      InRange lo hi s
      → lo ≤ℤ f.price
      → f.price ≤ℤ hi
      → InRange lo hi (outcome s f (suc n) (signed_of f.side (suc n))).next
  unfolding open_position increase_to reduce_position close_position reverse_position
  outcome-InRange before pl ph =
      outcome_rule (λ r. InRange lo hi r.next) s f (suc n) (signed_of f.side (suc n))
        (λ z. inr (pl, ph))
        (λ z h. inr (increase_between (signed_of f.side (suc n)) (held z).0 (held z).1 pl ph))
        (λ z h lt. inr (held z)) (λ z h e. inl refl) (λ z h lt. inr (pl, ph))
    where
      held : eqb_ℤ s.quantity (pos 0) ≡ false → (lo ≤ℤ s.average_price) × (s.average_price ≤ℤ hi)
      held z = elim before [ inl flat ↦ absurd (ground arith) | inr between ↦ between ]

-- If the average of an open position lies between two prices, and so does the price of the next fill, of a
-- positive whole number of shares, then that fill is accepted, and after it the position is flat or its
-- average still lies between them.
pub apply_fill-InRange :
    (lo hi : Money) (s : PositionState) (f : FillApplication) (n : ℕ)
    → InRange lo hi s
    → lo ≤ℤ f.price
    → f.price ≤ℤ hi
    → f.quantity ≡ whole (pos (suc n))
    → (r : FillApplyResult) × (apply_fill_to_position s f ≡ ok r) × InRange lo hi r.next
apply_fill-InRange lo hi s f n before pl ph e =
    (_, apply_fill-outcome s f n e, outcome-InRange lo hi s f n before pl ph)
