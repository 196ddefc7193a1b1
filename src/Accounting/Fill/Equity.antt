-- ===== src/Accounting/Fill/Equity.antt =====
-- lib/trading/accounting.ts: the worth of a position at a mark, its realized figure and its unrealized
-- one (`unrealizedPnl`), before and after a fill.
use cm_desk.Prelude.{ℕ, suc, ◌+◌, ◌-◌, ◌*◌, ◌≤◌, ◌≡◌, subst, true, false, arith}
use cm_desk.Prelude.Int.{ℤ, pos, negsuc, abs, ◌+ℤ◌, ◌-ℤ◌, ◌*ℤ◌, eqb_ℤ, int_laws, eq_of_eqb_ℤ}
use cm_desk.Prelude.Int.Ring.{mul_zero}
use cm_desk.Money.{Money, ok, money_add, money_mul_qty}
use cm_desk.Money.Division.{rounded, rounded_near}
use cm_desk.Types.{Side, buy, sell, increased}
use cm_desk.Accounting.Mark.{unrealized_pnl}
use cm_desk.Accounting.Fill.{
  PositionState, FillApplication, FillApplyResult, sign, whole, apply_fill_to_position,
  open_position, increase_to, increase_numerator, reduce_position, close_position, reverse_position,
}
use cm_desk.Accounting.Fill.Ladder.{
  signed_of, outcome, outcome_rule, close_quantity, reverse_quantity, apply_fill-outcome,
}
use cm_desk.Accounting.Fill.Products.{
  unrealized-product, realized-close, realized-close_all, reduce_identity, reverse_identity,
  increase_identity, increase_cost,
}

-- The worth of a position at a mark.
abbrev pub worth : Money → PositionState → Money
worth mark s = s.realized_pnl +ℤ unrealized_pnl s.quantity s.average_price mark

-- What the fill itself gains at the mark.
abbrev pub fill_gain : Money → FillApplication → ℕ → Money
fill_gain mark f n = (mark -ℤ f.price) *ℤ signed_of f.side n

module _ (s : PositionState) (f : FillApplication) (n : ℕ) (mark : Money) where
  abbrev signed : ℤ
  signed = signed_of f.side (suc n)

  abbrev Keeps : FillApplyResult → Type 0
  Keeps r = worth mark r.next ≡ worth mark s +ℤ fill_gain mark f (suc n)

  open-Keeps : s.quantity ≡ pos 0 → Keeps (open_position s f (suc n) signed)
  unfolding open_position
  open-Keeps z =
      rw
        (
          unrealized-product signed f.price mark,
          unrealized-product s.quantity s.average_price mark,
          z,
          mul_zero (mark -ℤ s.average_price),
        )
        (omega int_laws)

  reduce-Keeps :
      eqb_ℤ s.quantity (pos 0) ≡ false
      → eqb_ℤ (sign s.quantity) (sign signed) ≡ false
      → Keeps (reduce_position s f (suc n) signed)
  unfolding reduce_position money_add
  reduce-Keeps z h =
      rw
        (
          realized-close s.quantity f.side n s.average_price f.price z h,
          unrealized-product (s.quantity +ℤ signed) s.average_price mark,
          unrealized-product s.quantity s.average_price mark,
        )
        (reduce_identity s.realized_pnl s.average_price f.price mark s.quantity signed)

  close-Keeps :
      eqb_ℤ s.quantity (pos 0) ≡ false
      → eqb_ℤ (sign s.quantity) (sign signed) ≡ false
      → pos 0 ≡ s.quantity +ℤ signed
      → Keeps (close_position s f (suc n) signed)
  unfolding close_position money_add
  close-Keeps z h e =
      rw
        (
          realized-close s.quantity f.side n s.average_price f.price z h,
          unrealized-product s.quantity s.average_price mark,
          unrealized-product (pos 0) (pos 0) mark,
          mul_zero (mark -ℤ pos 0),
          ← mul_zero (mark -ℤ s.average_price),
          e,
        )
        (reduce_identity s.realized_pnl s.average_price f.price mark s.quantity signed)

  reverse-Keeps :
      sign signed *ℤ pos (suc n - abs s.quantity) ≡ s.quantity +ℤ signed
      → Keeps (reverse_position s f (suc n) signed)
  unfolding reverse_position money_add
  reverse-Keeps e =
      rw
        (
          e,
          realized-close_all s.quantity s.average_price f.price,
          unrealized-product (s.quantity +ℤ signed) f.price mark,
          unrealized-product s.quantity s.average_price mark,
        )
        (reverse_identity s.realized_pnl s.average_price f.price mark s.quantity signed)

  -- The rounding of an increase moves the worth by at most half a unit for each share held after it.
  increase-near :
      eqb_ℤ s.quantity (pos 0) ≡ false
      → eqb_ℤ (sign s.quantity) (sign signed) ≡ true
      → abs (
            worth mark
              (increase_to s f
                (suc n)
                signed
                (rounded (increase_numerator s f (suc n) signed) (abs s.quantity + suc n))).next
            -ℤ (worth mark s +ℤ fill_gain mark f (suc n)))
          * 2
        ≤ abs s.quantity + suc n
  unfolding increase_to increase_numerator money_add money_mul_qty
  increase-near z h =
      let A = rounded (increase_numerator s f (suc n) signed) (abs s.quantity + suc n) in
      rw
        (
          unrealized-product (s.quantity +ℤ signed) A mark,
          unrealized-product s.quantity s.average_price mark,
          increase_identity s.realized_pnl s.average_price f.price mark s.quantity signed A,
          increase_cost s.average_price f.price A n s.quantity f.side z h,
        )
        (rounded_near (increase_numerator s f (suc n) signed) (abs s.quantity + suc n)
          (omega arith))

-- The most that rounding may move: half a unit a share, where the average was computed anew.
abbrev pub rounding_of : FillApplyResult → ℕ
rounding_of r = elim r.event_kind [ increased ↦ abs r.next.quantity | _ ↦ 0 ]

abbrev pub IsConserved : Money → PositionState → FillApplication → ℕ → FillApplyResult → Type 0
IsConserved mark s f n r =
    abs (worth mark r.next -ℤ (worth mark s +ℤ fill_gain mark f n)) * 2 ≤ rounding_of r

Keeps-IsConserved : (x y : Money) → x ≡ y → abs (x -ℤ y) * 2 ≤ 0
unfolding ◌-ℤ◌
Keeps-IsConserved x y e = ground arith

abs-same_side :
    (q : ℤ) (side : Side) (n : ℕ)
    → eqb_ℤ (sign q) (sign (signed_of side (suc n))) ≡ true
    → abs q + suc n ≡ abs (q +ℤ signed_of side (suc n))
unfolding ◌+ℤ◌
abs-same_side (pos q) buy n h = ground arith
abs-same_side (pos q) sell n h = ground arith
abs-same_side (negsuc q) buy n h = ground arith
abs-same_side (negsuc q) sell n h = ground arith

outcome-IsConserved :
    (s : PositionState) (f : FillApplication) (n : ℕ) (mark : Money)
    → IsConserved mark s f (suc n) (outcome s f (suc n) (signed_of f.side (suc n)))
unfolding open_position increase_to reduce_position close_position reverse_position
outcome-IsConserved s f n mark =
    outcome_rule (IsConserved mark s f (suc n)) s f (suc n) (signed_of f.side (suc n))
      (λ z. Keeps-IsConserved _ _ (open-Keeps s f n mark (eq_of_eqb_ℤ _ _ z)))
      (λ z h.
        subst
          (λ k.
            abs (
                worth mark
                  (increase_to s f (suc n) (signed_of f.side (suc n)) (
                    rounded (increase_numerator s f (suc n) (signed_of f.side (suc n)))
                      (abs s.quantity + suc n))).next
                -ℤ (worth mark s +ℤ fill_gain mark f (suc n)))
              * 2
            ≤ k)
          (abs-same_side s.quantity f.side n h) (increase-near s f n mark z h))
      (λ z h lt. Keeps-IsConserved _ _ (reduce-Keeps s f n mark z h))
      (λ z h e.
        Keeps-IsConserved _ _ (close-Keeps s f n mark z h (close_quantity s.quantity f.side n h e)))
      (λ z h lt.
        Keeps-IsConserved _ _
          (reverse-Keeps s f n mark (reverse_quantity s.quantity f.side n h lt)))

-- A fill of a positive whole number of shares is accepted, and whatever the mark, it changes the worth of
-- the position (realized plus unrealized) by the signed quantity times the distance of the mark from the
-- price, exactly; only a fill that adds to an open side may miss it, through the rounded average, by half a
-- unit for each share then held.
pub apply_fill-IsConserved :
    (s : PositionState) (f : FillApplication) (n : ℕ) (mark : Money)
    → f.quantity ≡ whole (pos (suc n))
    → (r : FillApplyResult) × (apply_fill_to_position s f ≡ ok r) × IsConserved mark s f (suc n) r
apply_fill-IsConserved s f n mark e =
    (_, apply_fill-outcome s f n e, outcome-IsConserved s f n mark)
