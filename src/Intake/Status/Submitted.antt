-- ===== src/Intake/Status/Submitted.antt =====
-- lib/trading/ledger.ts: an order that `markOrderSubmitted` moves, found by its key.
use cm_desk.Prelude.{ℕ, ◌==◌, ◌≡◌, refl, true, some, Bool-cases, inl, inr, arith}
use cm_desk.Prelude.Text.{Text, opt_text_eq}
use cm_desk.Order.{status_eq}
use cm_desk.Ledger.Rows.After.{find-updated_by}
use cm_desk.Intake.{StoredOrder, Desk, order_by_id, order_by_key}
use cm_desk.Intake.Status.{
  SubmitReport, submitted_order, submitted_status, is_legal, mark_order_submitted, submit_found,
}

pub submitted-found :
    (report : SubmitReport) (now id : ℕ) (key : Text) (s : Desk) (row : StoredOrder)
    → report.order_id ≡ some id
    → order_by_id id s ≡ some row
    → order_by_key key s ≡ some row
    → is_legal row.status (submitted_status report) ≡ true
    → order_by_key key (mark_order_submitted report now s) ≡ some (submitted_order report now row)
unfolding mark_order_submitted submit_found
submitted-found report now id key s row e read found legal =
    let patched =
      find-updated_by (λ o. opt_text_eq (some o.idempotency_key) (some key)) (λ o. o.id == row.id)
        (submitted_order report now) s.orders row (λ o. refl) (ground arith) found in
    elim (Bool-cases (status_eq row.status (submitted_status report))) [
      | inl same ↦ rw (e, read, legal, same) patched
      | inr moved ↦ rw (e, read, legal, moved) patched
    ]
