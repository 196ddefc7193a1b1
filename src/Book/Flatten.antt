-- ===== src/Book/Flatten.antt =====
-- lib/trading/bookSplit.ts with lib/trading/accounting.ts: flatten plans and the fills they lead to.
use cm_desk.Prelude.{
  ℕ, zero, suc, ◌≡◌, ◌⊎◌, inl, inr, refl, sym, ap, ap₂, ◌∙◌, Bool, true, false, not, ◌&&◌, ◌||◌,
  ◌==◌, Bool-cases, is_some, arith, if◌then◌else◌,
}
use cm_desk.Prelude.Int.{ℤ, pos, negsuc, pos_part, neg_part, ◌+ℤ◌, int_laws}
use cm_desk.Money.{ok}
use cm_desk.Types.{Side, buy, sell, closed}
use cm_desk.Accounting.Fill.{
  PositionState, FillApplication, FillApplyResult, whole, apply_fill_to_position,
}
use cm_desk.Accounting.Fill.Ladder.{signed_of}
use cm_desk.Accounting.Fill.Kind.{apply_fill-Accounts, kind_of, is_reversal}
use cm_desk.Risk.Settings.{ExecutionMode}
use cm_desk.Book.{
  BookSources, FlattenRowPlan, flatten, flatten_row_plan, flatten_signed, is_open, mode_eq,
  execution_mode_switch_blocked, phantom_clear_blocked,
}

-- The quantity that a flatten trades: the paper ledger's on a paper book, Kite's where Kite answered, else
-- the ledger's.
abbrev pub source_qty : ℤ → Bool → Bool → ℤ → ℤ
source_qty ledger_qty paper_book kite_queried kite_qty =
    if paper_book then ledger_qty else if kite_queried then kite_qty else ledger_qty

abbrev pub is_flatten : FlattenRowPlan → Bool
is_flatten (flatten qty side) = true
is_flatten _ = false

-- What a plan does to a signed quantity: nothing when that is zero, else a trade that brings it there.
abbrev pub Flattens : ℤ → FlattenRowPlan → Type 0
Flattens q plan =
    ((q ≡ pos 0) × (is_flatten plan ≡ false))
    ⊎ ((n : ℕ) × (side : Side) × (plan ≡ flatten (suc n) side)
        × (q +ℤ signed_of side (suc n) ≡ pos 0))

flatten_signed-Flattens : (q : ℤ) → Flattens q (flatten_signed q)
flatten_signed-Flattens (pos zero) = inl (refl, refl)
flatten_signed-Flattens (pos (suc n)) = inr (n, sell, ground arith, omega int_laws)
flatten_signed-Flattens (negsuc n) = inr (n, buy, ground arith, omega int_laws)

-- what a plan orders
abbrev plan_qty : FlattenRowPlan → ℕ
plan_qty (flatten qty side) = qty
plan_qty _ = 0

abbrev plan_side : FlattenRowPlan → Side
plan_side (flatten qty side) = side
plan_side _ = buy

-- A flatten trades a positive size on the side that brings the quantity of its source to zero, and there
-- is one exactly when that quantity is not zero already.
flatten_row-Flattens :
    (ledger_qty : ℤ) (paper_book kite_queried : Bool) (kite_qty : ℤ)
    → Flattens
        (source_qty ledger_qty paper_book kite_queried kite_qty)
        (flatten_row_plan ledger_qty paper_book kite_queried kite_qty)
unfolding flatten_row_plan
flatten_row-Flattens ledger_qty true kite_queried kite_qty = flatten_signed-Flattens ledger_qty
flatten_row-Flattens ledger_qty false false kite_qty = flatten_signed-Flattens ledger_qty
flatten_row-Flattens ledger_qty false true kite_qty = elim (Bool-cases (is_open kite_qty)) [
  | inl h ↦ rw (h, flatten_row_plan) (flatten_signed-Flattens kite_qty)
  | inr h ↦ rw (h, flatten_row_plan) (inl (ground arith, refl))
]

kind_closed :
    (q : ℤ) (side : Side) (n : ℕ) → q +ℤ signed_of side (suc n) ≡ pos 0 → kind_of q (pos 0) ≡ closed
kind_closed (pos zero) buy n e = absurd (omega (int_laws, ap pos_part e))
kind_closed (pos zero) sell n e = absurd (omega (int_laws, ap pos_part e, ap neg_part e))
kind_closed (pos (suc q)) side n e = refl
kind_closed (negsuc q) side n e = refl

module _ (s : PositionState) (f : FillApplication) where
  opposite_fill-closes :
      (n : ℕ)
      → f.quantity ≡ whole (pos (suc n))
      → s.quantity +ℤ signed_of f.side (suc n) ≡ pos 0
      → (r : FillApplyResult) × (apply_fill_to_position s f ≡ ok r)
        × (r.next.quantity ≡ pos 0)
        × (r.event_kind ≡ closed)
        × (r.is_reversed ≡ false)
  opposite_fill-closes n size sum =
      let (r, accepted, acc, kind, turned) = apply_fill-Accounts s f n size in
      let flat : r.next.quantity ≡ pos 0 = acc.quantity ∙ sum in
      let shut : r.event_kind ≡ closed = kind ∙ rw flat (kind_closed s.quantity f.side n sum) in
      (r, accepted, flat, shut, turned ∙ ap is_reversal shut)

  -- If a flatten is planned from the book that a position is held in, a fill of it, at any price, closes the
  -- position and reverses nothing.
  pub flatten-closes :
      (paper_book kite_queried : Bool) (kite_qty : ℤ) (qty : ℕ)
      → source_qty s.quantity paper_book kite_queried kite_qty ≡ s.quantity
      → flatten_row_plan s.quantity paper_book kite_queried kite_qty ≡ flatten qty f.side
      → f.quantity ≡ whole (pos qty)
      → (r : FillApplyResult) × (apply_fill_to_position s f ≡ ok r)
        × (r.next.quantity ≡ pos 0)
        × (r.event_kind ≡ closed)
        × (r.is_reversed ≡ false)
  flatten-closes paper_book kite_queried kite_qty qty source plan size =
      elim (flatten_row-Flattens s.quantity paper_book kite_queried kite_qty) [
        | inl (flat, idle) ↦ absurd (cc (rw plan at idle))
        | inr (n, side, plan', sum) ↦
            let same = sym plan ∙ plan' in
            opposite_fill-closes n (size ∙ ap (λ k. whole (pos k)) (ap plan_qty same))
              (ap₂ (λ q d. q +ℤ signed_of d (suc n)) (sym source) (ap plan_side same) ∙ sum)
      ]

-- A mode switch is refused exactly when it changes the mode, the process is no mock, and the live book is
-- open in the ledger or at Kite; a paper book that is left over never refuses it.
pub mode_switch-blocked :
    (process_mock : Bool) (from_mode to_mode : ExecutionMode) (books : BookSources)
    → is_some (execution_mode_switch_blocked process_mock from_mode to_mode books) ≡ (
        not process_mock
        && not (mode_eq from_mode to_mode)
        && (is_open books.live_ledger_qty || is_open books.kite_qty))
unfolding execution_mode_switch_blocked
mode_switch-blocked process_mock from_mode to_mode books = ground arith

-- A leftover row is cleared only when no order of it is working, and then on a paper book, in a mock
-- process, or when Kite was read and holds nothing.
pub phantom_clear-allowed :
    (paper_book process_mock : Bool) (working_orders : ℕ) (kite_available : Bool) (kite_qty : ℤ)
    → is_some (phantom_clear_blocked paper_book process_mock working_orders kite_available kite_qty)
      ≡ not (
          working_orders == 0
          && (paper_book || process_mock || (kite_available && not (is_open kite_qty))))
unfolding phantom_clear_blocked
phantom_clear-allowed paper_book process_mock working_orders kite_available kite_qty = ground arith
