-- ===== src/Accounting/Fill/Ladder.antt =====
-- lib/trading/accounting.ts: what `applyFillToPosition` does to the quantity, the fees and the realized
-- figure of a position, on every branch.
use cm_desk.Prelude.{
  ℕ, zero, suc, ◌+◌, ◌-◌, ◌≤◌, ◌<◌, ◌≡◌, refl, sym, ap, ◌∙◌, inl, inr, Bool-cases, true, false,
  arith, ltb, ◌==◌, if◌then◌else◌,
}
use cm_desk.Prelude.Int.{ℤ, pos, negsuc, abs, ◌+ℤ◌, ◌*ℤ◌, eqb_ℤ, int_laws, add_zero}
use cm_desk.Money.{ok, money_add}
use cm_desk.Money.Division.{rounded, div_qty_pos}
use cm_desk.Types.{Side, buy, sell, side_sign}
use cm_desk.Accounting.Fill.{
  PositionState, FillApplication, FillApplyResult, whole, dispatch_fill, apply_fill_to_position,
  increase_position, increase_to, increase_numerator, open_position, reduce_position,
  close_position, reverse_position, next_fees, sign,
}

-- The signed quantity of a fill.
abbrev pub signed_of : Side → ℕ → ℤ
signed_of buy n = pos n
signed_of sell zero = pos 0
signed_of sell (suc n) = negsuc n

-- Trading the whole of a quantity against its side leaves nothing.
pub sell_all : (n m : ℕ) → n ≡ m → pos n +ℤ signed_of sell m ≡ pos 0
sell_all n zero e = omega int_laws
sell_all n (suc m) e = omega int_laws

pub buy_all : (n m : ℕ) → suc n ≡ m → negsuc n +ℤ signed_of buy m ≡ pos 0
buy_all n m e = omega int_laws

pub side_sign_mul : (side : Side) (n : ℕ) → side_sign side *ℤ pos n ≡ signed_of side n
unfolding side_sign ◌*ℤ◌
side_sign_mul buy n = ground arith
side_sign_mul sell zero = ground arith
side_sign_mul sell (suc n) = ground arith

-- With a positive whole quantity the function is the ladder of its branches.
pub apply_fill-dispatch :
    (s : PositionState) (f : FillApplication) (n : ℕ)
    → f.quantity ≡ whole (pos (suc n))
    → apply_fill_to_position s f ≡ dispatch_fill s f (suc n) (signed_of f.side (suc n))
unfolding apply_fill_to_position
apply_fill-dispatch s f n e =
    simp e (ap (λ q. dispatch_fill s f (suc n) q) (side_sign_mul f.side (suc n)))

-- What every accepted fill of `n` shares satisfies, whichever branch it takes.
pub record Accounts (s : PositionState) (f : FillApplication) (n : ℕ) (r : FillApplyResult)
    : Type 0 where
  pub quantity : r.next.quantity ≡ s.quantity +ℤ signed_of f.side n
  pub fees : r.next.fees ≡ money_add s.fees f.fee
  pub realized : r.next.realized_pnl ≡ money_add s.realized_pnl r.realized_delta
  pub split : r.closed_qty + r.opened_qty ≡ n
  pub closed_le : r.closed_qty ≤ abs s.quantity

-- An increase divides by a positive quantity, so it never throws.
pub increase-ok :
    (s : PositionState) (f : FillApplication) (n : ℕ) (signed : ℤ)
    → increase_position s f (suc n) signed
      ≡ ok (
          increase_to s f
            (suc n)
            signed
            (rounded (increase_numerator s f (suc n) signed) (abs s.quantity + suc n)))
unfolding increase_position
increase-ok s f n signed =
    rw (div_qty_pos (increase_numerator s f (suc n) signed) (abs s.quantity + suc n) (omega arith))

-- The result of the ladder, by branch.
unfoldable pub outcome : PositionState → FillApplication → ℕ → ℤ → FillApplyResult
outcome s f n signed =
    if eqb_ℤ s.quantity (pos 0)
    then open_position s f n signed
    else if eqb_ℤ (sign s.quantity) (sign signed)
    then increase_to s f n signed (rounded (increase_numerator s f n signed) (abs s.quantity + n))
    else if ltb n (abs s.quantity)
    then reduce_position s f n signed
    else if n == abs s.quantity
    then close_position s f n signed
    else reverse_position s f n signed

pub dispatch-outcome :
    (s : PositionState) (f : FillApplication) (n : ℕ) (signed : ℤ)
    → dispatch_fill s f (suc n) signed ≡ ok (outcome s f (suc n) signed)
unfolding dispatch_fill outcome
dispatch-outcome s f n signed = ground (arith, increase-ok s f n signed)

-- To prove something of the outcome, prove it of each branch under the tests that lead there.
module _ {ℓ} (P : FillApplyResult → Type ℓ) (s : PositionState) (f : FillApplication) (n : ℕ)
    (signed : ℤ) where
  pub outcome_rule :
      (eqb_ℤ s.quantity (pos 0) ≡ true → P (open_position s f n signed))
      → (eqb_ℤ s.quantity (pos 0) ≡ false
          → eqb_ℤ (sign s.quantity) (sign signed) ≡ true
          → P (
              increase_to s f n signed
                (rounded (increase_numerator s f n signed) (abs s.quantity + n))))
      → (eqb_ℤ s.quantity (pos 0) ≡ false
          → eqb_ℤ (sign s.quantity) (sign signed) ≡ false
          → n < abs s.quantity
          → P (reduce_position s f n signed))
      → (eqb_ℤ s.quantity (pos 0) ≡ false
          → eqb_ℤ (sign s.quantity) (sign signed) ≡ false
          → n ≡ abs s.quantity
          → P (close_position s f n signed))
      → (eqb_ℤ s.quantity (pos 0) ≡ false
          → eqb_ℤ (sign s.quantity) (sign signed) ≡ false
          → abs s.quantity < n
          → P (reverse_position s f n signed))
      → P (outcome s f n signed)
  unfolding outcome
  outcome_rule on_open on_increase on_reduce on_close on_reverse =
      elim (Bool-cases (eqb_ℤ s.quantity (pos 0))) [
        | inl z ↦ rw z (on_open z)
        | inr z ↦ elim (Bool-cases (eqb_ℤ (sign s.quantity) (sign signed))) [
          | inl h ↦ rw (z, h) (on_increase z h)
          | inr h ↦ elim (Bool-cases (ltb n (abs s.quantity))) [
            | inl lt ↦ rw (z, h, lt) (on_reduce z h (ground arith))
            | inr ge ↦ elim (Bool-cases (n == abs s.quantity)) [
              | inl e ↦ rw (z, h, ge, e) (on_close z h (ground arith))
              | inr ne ↦ rw (z, h, ge, ne) (on_reverse z h (ground arith))
            ]
          ]
        ]
      ]

-- Reversing leaves what the fill has beyond the open quantity, on the fill's side.
pub reverse_quantity :
    (q : ℤ) (side : Side) (n : ℕ)
    → eqb_ℤ (sign q) (sign (signed_of side (suc n))) ≡ false
    → abs q < suc n
    → sign (signed_of side (suc n)) *ℤ pos (suc n - abs q) ≡ q +ℤ signed_of side (suc n)
unfolding ◌+ℤ◌ ◌*ℤ◌
reverse_quantity (pos a) buy n h lt = ground arith
reverse_quantity (pos a) sell n h lt = ground arith
reverse_quantity (negsuc a) buy n h lt = ground arith
reverse_quantity (negsuc a) sell n h lt = ground arith

pub close_quantity :
    (q : ℤ) (side : Side) (n : ℕ)
    → eqb_ℤ (sign q) (sign (signed_of side (suc n))) ≡ false
    → suc n ≡ abs q
    → pos 0 ≡ q +ℤ signed_of side (suc n)
unfolding ◌+ℤ◌
close_quantity (pos a) buy n h e = ground arith
close_quantity (pos a) sell n h e = ground arith
close_quantity (negsuc a) buy n h e = ground arith
close_quantity (negsuc a) sell n h e = ground arith

open_quantity : (q z : ℤ) → eqb_ℤ q (pos 0) ≡ true → z ≡ q +ℤ z
unfolding ◌+ℤ◌
open_quantity q z h = ground arith

pub outcome-Accounts :
    (s : PositionState) (f : FillApplication) (n : ℕ)
    → Accounts s f (suc n) (outcome s f (suc n) (signed_of f.side (suc n)))
unfolding open_position increase_to reduce_position close_position reverse_position money_add
    next_fees
outcome-Accounts s f n =
    outcome_rule (Accounts s f (suc n)) s f (suc n) (signed_of f.side (suc n))
      (λ z. record {
        quantity = open_quantity s.quantity (signed_of f.side (suc n)) z;
        fees = refl;
        realized = sym (add_zero s.realized_pnl);
        split = omega arith;
        closed_le = omega arith;
      })
      (λ z h. record {
        quantity = refl;
        fees = refl;
        realized = sym (add_zero s.realized_pnl);
        split = omega arith;
        closed_le = omega arith;
      })
      (λ z h lt. record {
        quantity = refl;
        fees = refl;
        realized = refl;
        split = omega arith;
        closed_le = omega arith;
      })
      (λ z h e. record {
        quantity = close_quantity s.quantity f.side n h e;
        fees = refl;
        realized = refl;
        split = omega arith;
        closed_le = omega arith;
      })
      (λ z h lt. record {
        quantity = reverse_quantity s.quantity f.side n h lt;
        fees = refl;
        realized = refl;
        split = omega arith;
        closed_le = omega arith;
      })

-- An accepted fill returns the outcome.
pub apply_fill-outcome :
    (s : PositionState) (f : FillApplication) (n : ℕ)
    → f.quantity ≡ whole (pos (suc n))
    → apply_fill_to_position s f ≡ ok (outcome s f (suc n) (signed_of f.side (suc n)))
apply_fill-outcome s f n e =
    apply_fill-dispatch s f n e ∙ dispatch-outcome s f n (signed_of f.side (suc n))
