-- ===== src/Intake/Status/Kept.antt =====
-- lib/trading/ledger.ts: the operations on the status of an order keep the ledger.
use cm_desk.Prelude.{ℕ, ◌==◌, ◌≡◌, refl, Option, none, some, inl, inr, Bool-cases, arith}
use cm_desk.Prelude.Text.{Text}
use cm_desk.Order.{status_eq, cancelled, includes, open_order_statuses}
use cm_desk.Intake.{StoredOrder, Desk, order_by_id, is_open_order}
use cm_desk.Intake.Status.{
  SubmitReport, AmendInput, is_legal, submitted_status, submit_found, submit_by_id,
  mark_order_submitted, unknown_found, mark_order_unknown, close_found,
  close_open_order_as_cancelled, amended_row, amend_found, amend_working_stop_prices,
}
use cm_desk.Intake.Status.Refines.{StatusCall, submits, loses, closes, amends, kept_or, run_call}

submit_found-ledger :
    (o : Option StoredOrder) (input : SubmitReport) (now : ℕ) (s : Desk)
    → (submit_found o input now s).ledger ≡ s.ledger
unfolding submit_found
submit_found-ledger none input now s = refl
submit_found-ledger (some row) input now s =
    elim (Bool-cases (is_legal row.status (submitted_status input))) [
      | inr illegal ↦ rw illegal refl
      | inl legal ↦ elim (Bool-cases (status_eq row.status (submitted_status input))) [
        | inl same ↦ rw (legal, same) refl
        | inr moved ↦ rw (legal, moved) refl
      ]
    ]

submit_by_id-ledger :
    (id : Option ℕ) (input : SubmitReport) (now : ℕ) (s : Desk)
    → (submit_by_id id input now s).ledger ≡ s.ledger
submit_by_id-ledger none input now s = refl
submit_by_id-ledger (some id) input now s = submit_found-ledger (order_by_id id s) input now s

pub mark_submitted-ledger :
    (input : SubmitReport) (now : ℕ) (s : Desk)
    → (mark_order_submitted input now s).ledger ≡ s.ledger
unfolding mark_order_submitted
mark_submitted-ledger input now s = submit_by_id-ledger input.order_id input now s

unknown_found-ledger :
    (o : Option StoredOrder) (message : Option Text) (now : ℕ) (s : Desk)
    → (unknown_found o message now s).ledger ≡ s.ledger
unfolding unknown_found
unknown_found-ledger none message now s = refl
unknown_found-ledger (some row) message now s = ground arith

-- what a closing leaves, whatever it returns
pub close-ledger :
    (o : Option StoredOrder) (reason : Text) (occurred : Option ℕ) (now : ℕ) (s : Desk)
    → (kept_or s (close_found o reason occurred now s)).ledger ≡ s.ledger
unfolding close_found
close-ledger none reason occurred now s = refl
close-ledger (some row) reason occurred now s = elim (Bool-cases (is_open_order row)) [
  | inr ended ↦ rw ended refl
  | inl open_row ↦ elim (Bool-cases (row.filled_qty == 0)) [
    | inr some_filled ↦ rw (open_row, some_filled) refl
    | inl unfilled ↦ elim (Bool-cases (is_legal row.status cancelled)) [
      | inl legal ↦ rw (open_row, unfilled, legal) refl
      | inr illegal ↦ rw (open_row, unfilled, illegal) refl
    ]
  ]
]

amend_found-ledger :
    (o : Option StoredOrder) (input : AmendInput) (now : ℕ) (s : Desk)
    → (amend_found o input now s).0.ledger ≡ s.ledger
unfolding amend_found
amend_found-ledger none input now s = refl
amend_found-ledger (some row) input now s =
    elim (Bool-cases (includes open_order_statuses row.status)) [
      | inl open_row ↦ rw open_row refl
      | inr ended ↦ rw ended refl
    ]

pub run_call-ledger : (c : StatusCall) (s : Desk) → (run_call c s).ledger ≡ s.ledger
unfolding mark_order_unknown close_open_order_as_cancelled amend_working_stop_prices
run_call-ledger (submits input now) s = mark_submitted-ledger input now s
run_call-ledger (loses id message now) s = unknown_found-ledger (order_by_id id s) message now s
run_call-ledger (closes id reason occurred now) s =
    close-ledger (order_by_id id s) reason occurred now s
run_call-ledger (amends input now) s = amend_found-ledger (amended_row input s) input now s
