-- ===== src/Intake/Status/Refines.antt =====
-- lib/trading/ledger.ts and lib/trading/stateMachine.ts: any sequence of the operations by which the desk
-- moves its orders, against the step relation of the order lifecycle.
use cm_desk.Prelude.{
  ℕ, ◌==◌, ◌≡◌, refl, Bool, true, ◌||◌, Option, none, some, List, [], ◌∷◌, inl, inr, Bool-cases,
  arith,
}
use cm_desk.Prelude.Text.{Text}
use cm_desk.Order.{
  OrderStatus, filled, cancelled, rejected, unknown, status_eq, open_order_statuses, includes,
}
use cm_desk.Order.Lifecycle.{Reach, here, next, move}
use cm_desk.Intake.{StoredOrder, Desk, order_by_id, update_order, is_open_order}
use cm_desk.Intake.Frame.{Advances, same-Advances, kept-Advances, update-Advances}
use cm_desk.Intake.Status.{
  SubmitReport, AmendInput, submitted_status, submitted_order, is_legal, submit_found, submit_by_id,
  mark_order_submitted, unknown_order, unknown_found, mark_order_unknown, closed_order, close_found,
  close_open_order_as_cancelled, amended_row, amended_order, amend_found, amend_working_stop_prices,
}

-- A call of the desk on its orders; a call that throws leaves the rows.
pub data StatusCall : Type 0 where
  submits : SubmitReport → ℕ → StatusCall
  loses : ℕ → Option Text → ℕ → StatusCall
  closes : ℕ → Text → Option ℕ → ℕ → StatusCall
  amends : AmendInput → ℕ → StatusCall

abbrev pub kept_or : Desk → Option (Desk × Bool) → Desk
kept_or s none = s
kept_or s (some r) = r.0

abbrev pub run_call : StatusCall → Desk → Desk
run_call (submits input now) s = mark_order_submitted input now s
run_call (loses id message now) s = mark_order_unknown id message now s
run_call (closes id reason occurred now) s =
    kept_or s (close_open_order_as_cancelled id reason occurred now s)
run_call (amends input now) s = (amend_working_stop_prices input now s).0

pub run_calls : List StatusCall → Desk → Desk
run_calls [] s = s
run_calls (c ∷ cs) s = run_calls cs (run_call c s)

legal-Reach : (from to : OrderStatus) → is_legal from to ≡ true → Reach from to
legal-Reach from to h = next here (move from to (ground arith))

submitted-Advances :
    (input : SubmitReport) (now id : ℕ) (o : Option StoredOrder) (s : Desk)
    → order_by_id id s ≡ o
    → Advances s (submit_found o input now s)
unfolding submit_found
submitted-Advances input now id none s read = same-Advances s
submitted-Advances input now id (some row) s read =
    elim (Bool-cases (is_legal row.status (submitted_status input))) [
      | inl legal ↦
          let moved : Advances s (update_order row.id (submitted_order input now) s) =
            update-Advances id (submitted_order input now) s row read (λ o. refl)
              (legal-Reach row.status (submitted_status input) legal) in
          elim (Bool-cases (status_eq row.status (submitted_status input))) [
            | inl same ↦ rw (legal, same) moved
            | inr other ↦ rw (legal, other) moved
          ]
      | inr illegal ↦ rw illegal (same-Advances s)
    ]

submit-Advances :
    (id : Option ℕ) (input : SubmitReport) (now : ℕ) (s : Desk)
    → Advances s (submit_by_id id input now s)
submit-Advances none input now s = same-Advances s
submit-Advances (some id) input now s = submitted-Advances input now id _ s refl

unknown-Advances :
    (message : Option Text) (now id : ℕ) (o : Option StoredOrder) (s : Desk)
    → order_by_id id s ≡ o
    → Advances s (unknown_found o message now s)
unfolding unknown_found
unknown-Advances message now id none s read = same-Advances s
unknown-Advances message now id (some row) s read =
    elim (Bool-cases (
      status_eq row.status filled
      || status_eq row.status rejected
      || status_eq row.status cancelled)) [
        | inl ended ↦ rw ended (same-Advances s)
        | inr working ↦ elim (Bool-cases (is_legal row.status unknown)) [
          | inl legal ↦
              rw (working, legal)
                (update-Advances id (unknown_order message now) s row read (λ o. refl)
                  (legal-Reach row.status unknown legal))
          | inr illegal ↦ rw (working, illegal) (same-Advances s)
        ]
      ]

close-Advances :
    (reason : Text) (occurred : Option ℕ) (now id : ℕ) (o : Option StoredOrder) (s : Desk)
    → order_by_id id s ≡ o
    → Advances s (kept_or s (close_found o reason occurred now s))
unfolding close_found
close-Advances reason occurred now id none s read = same-Advances s
close-Advances reason occurred now id (some row) s read = elim (Bool-cases (is_open_order row)) [
  | inr ended ↦ rw ended (same-Advances s)
  | inl open_row ↦ elim (Bool-cases (row.filled_qty == 0)) [
    | inr some_filled ↦ rw (open_row, some_filled) (same-Advances s)
    | inl unfilled ↦ elim (Bool-cases (is_legal row.status cancelled)) [
      | inr illegal ↦ rw (open_row, unfilled, illegal) (same-Advances s)
      | inl legal ↦
          rw (open_row, unfilled, legal)
            (update-Advances id (closed_order reason occurred now) s row read (λ o. refl)
              (legal-Reach row.status cancelled legal))
    ]
  ]
]

amend-Advances :
    (input : AmendInput) (now : ℕ) (o : Option StoredOrder) (s : Desk)
    → Advances s (amend_found o input now s).0
unfolding amend_found
amend-Advances input now none s = same-Advances s
amend-Advances input now (some row) s =
    elim (Bool-cases (includes open_order_statuses row.status)) [
      | inr ended ↦ rw ended (same-Advances s)
      | inl open_row ↦
          rw open_row
            (kept-Advances row.id (amended_order input now) s (λ o. refl) (λ o found hit. here))
    ]

run_call-Advances : (c : StatusCall) (s : Desk) → Advances s (run_call c s)
unfolding mark_order_submitted mark_order_unknown close_open_order_as_cancelled
    amend_working_stop_prices
run_call-Advances (submits input now) s = submit-Advances input.order_id input now s
run_call-Advances (loses id message now) s = unknown-Advances message now id _ s refl
run_call-Advances (closes id reason occurred now) s = close-Advances reason occurred now id _ s refl
run_call-Advances (amends input now) s = amend-Advances input now (amended_row input s) s

join : {a b c : OrderStatus} → Reach a b → Reach b c → Reach a c
join r here = r
join r (next q st) = next (join r q) st

-- Whatever calls of `markOrderSubmitted`, `markOrderUnknown`, `closeOpenOrderAsCancelled` and
-- `amendWorkingStopPrices` run, in whatever order, no order is lost, and every order has moved from its
-- status to its later one by a history that the state machine accepts.
pub run_calls-refines :
    (cs : List StatusCall) (s : Desk) (id : ℕ) (o : StoredOrder)
    → order_by_id id s ≡ some o
    → (o' : StoredOrder) × (order_by_id id (run_calls cs s) ≡ some o') × Reach o.status o'.status
unfolding run_calls
run_calls-refines [] s id o found = (o, found, here)
run_calls-refines (c ∷ cs) s id o found =
    let (o', found', moved) = run_call-Advances c s id o found in
    let (o'', found'', later) = run_calls-refines cs (run_call c s) id o' found' in
    (o'', found'', join moved later)
