-- ===== src/Accounting/Fill/Kind.antt =====
-- lib/trading/accounting.ts: the event kind and the reversal flag that a fill reports.
use cm_desk.Prelude.{
  ℕ, zero, suc, ◌≡◌, ◌≢◌, ◌↔◌, refl, Bool, true, false, arith, ltb, ◌==◌, ◌∙◌, if◌then◌else◌,
}
use cm_desk.Prelude.Int.{ℤ, pos, negsuc, abs, ◌+ℤ◌, eqb_ℤ}
use cm_desk.Money.{ok, throw, bad_fill_quantity}
use cm_desk.Types.{Side, buy, sell, PositionEventKind, opened, increased, reduced, closed, reversed}
use cm_desk.Accounting.Fill.{
  PositionState, FillApplication, FillApplyResult, sign, Quantity, whole, not_whole,
  apply_fill_to_position, open_position, increase_to, reduce_position, close_position,
  reverse_position,
}
use cm_desk.Accounting.Fill.Ladder.{
  signed_of, outcome, Accounts, outcome-Accounts, apply_fill-dispatch, dispatch-outcome,
}

-- The kind of a move, read off the quantities before and after it.
abbrev pub kind_of : ℤ → ℤ → PositionEventKind
kind_of (pos zero) new = opened
kind_of (pos (suc a)) (pos zero) = closed
kind_of (negsuc a) (pos zero) = closed
kind_of (pos (suc a)) (negsuc b) = reversed
kind_of (negsuc a) (pos (suc b)) = reversed
kind_of (pos (suc a)) (pos (suc b)) = if ltb a b then increased else reduced
kind_of (negsuc a) (negsuc b) = if ltb a b then increased else reduced

abbrev pub is_reversal : PositionEventKind → Bool
is_reversal reversed = true
is_reversal _ = false

-- The kind by the tests of the code, for an open quantity `q`.
ladder_kind : ℤ → ℕ → ℤ → PositionEventKind
ladder_kind q n signed =
    if eqb_ℤ q (pos 0)
    then opened
    else if eqb_ℤ (sign q) (sign signed)
    then increased
    else if ltb n (abs q)
    then reduced
    else if n == abs q
    then closed
    else reversed

ladder_kind-kind_of :
    (q : ℤ) (side : Side) (n : ℕ)
    → ladder_kind q (suc n) (signed_of side (suc n)) ≡ kind_of q (q +ℤ signed_of side (suc n))
unfolding ladder_kind ◌+ℤ◌
ladder_kind-kind_of (pos zero) side n = ground arith
ladder_kind-kind_of (pos (suc a)) buy n = ground arith
ladder_kind-kind_of (pos (suc a)) sell n = ground arith
ladder_kind-kind_of (negsuc a) buy n = ground arith
ladder_kind-kind_of (negsuc a) sell n = ground arith

module _ (s : PositionState) (f : FillApplication) (n : ℕ) where
  outcome-ladder_kind :
      (signed : ℤ) → (outcome s f n signed).event_kind ≡ ladder_kind s.quantity n signed
  unfolding outcome open_position increase_to reduce_position close_position reverse_position
      ladder_kind
  outcome-ladder_kind signed = ground arith

  reversed_by :
      let r = outcome s f (suc n) (signed_of f.side (suc n)) in
      r.is_reversed ≡ is_reversal r.event_kind
  unfolding outcome open_position increase_to reduce_position close_position reverse_position
  reversed_by = ground arith

-- A fill of a positive whole quantity is always accepted; its quantity moves the position by the
-- signed fill, is split into a closing and an opening part, the closing part no larger than what was open;
-- the fee and the realized difference are added; and the event kind and the reversal flag are those that the
-- quantities before and after show.
pub apply_fill-Accounts :
    (s : PositionState) (f : FillApplication) (n : ℕ)
    → f.quantity ≡ whole (pos (suc n))
    → (r : FillApplyResult) × (apply_fill_to_position s f ≡ ok r)
      × Accounts s f (suc n) r
      × (r.event_kind ≡ kind_of s.quantity r.next.quantity)
      × (r.is_reversed ≡ is_reversal r.event_kind)
apply_fill-Accounts s f n e =
    let signed = signed_of f.side (suc n) in
    let acc = outcome-Accounts s f n in
    (
      outcome s f (suc n) signed,
      rw (apply_fill-dispatch s f n e) (dispatch-outcome s f n signed),
      acc,
      rw acc.quantity
          (outcome-ladder_kind s f (suc n) signed ∙ ladder_kind-kind_of s.quantity f.side n),
      reversed_by s f n,
    )

pub refused_by :
    (s : PositionState) (f : FillApplication) (q : Quantity)
    → f.quantity ≡ q
    → ((n : ℕ) → q ≢ whole (pos (suc n)))
    → apply_fill_to_position s f ≡ throw bad_fill_quantity
unfolding apply_fill_to_position
refused_by s f (whole (pos zero)) e h = simp e
refused_by s f (whole (pos (suc n))) e h = absurd (h n refl)
refused_by s f (whole (negsuc n)) e h = simp e
refused_by s f not_whole e h = simp e

-- A fill is refused exactly when its quantity is not a positive whole number.
pub apply_fill-throws_iff :
    (s : PositionState) (f : FillApplication)
    → (apply_fill_to_position s f ≡ throw bad_fill_quantity)
      ↔ ((n : ℕ) → f.quantity ≢ whole (pos (suc n)))
apply_fill-throws_iff s f = (
  λ thrown n e. let (r, accepted, _, _, _) = apply_fill-Accounts s f n e in cc,
  refused_by s f f.quantity refl,
)
