-- ===== src/Intake/Status/Close.antt =====
-- lib/trading/ledger.ts: what `closeOpenOrderAsCancelled` closes.
use cm_desk.Prelude.{
  ℕ, ◌==◌, ◌≡◌, refl, ap, ◌∙◌, Bool, true, false, ◌&&◌, Option, none, some, inl, inr, Bool-cases,
  arith, if◌then◌else◌,
}
use cm_desk.Prelude.Text.{Text, codes}
use cm_desk.Order.{
  OrderStatus, cancelled, open_order_statuses, includes, assert_order_transition,
  can_transition_order,
}
use cm_desk.Ledger.Rows.After.{find-after_update}
use cm_desk.Intake.{StoredOrder, Desk, order_by_id, is_open_order}
use cm_desk.Intake.Status.{is_legal, closed_order, close_found, close_open_order_as_cancelled}

-- a row that is open and has no fill
abbrev pub is_closable : Option StoredOrder → Bool
is_closable none = false
is_closable (some row) = is_open_order row && row.filled_qty == 0

-- Every open status may be cancelled.
open-cancelled :
    (s : OrderStatus) → includes open_order_statuses s ≡ true → is_legal s cancelled ≡ true
unfolding assert_order_transition can_transition_order
open-cancelled s h = ground arith

module _ (id : ℕ) (reason : Text) (occurred : Option ℕ) (now : ℕ) (s : Desk) where
  -- The order `after` is `row`, cancelled for the reason: put back, the five columns give `row`.
  pub record IsClosed (row after : StoredOrder) : Type 0 where
    pub status : after.status ≡ cancelled
    pub broker_status : after.broker_status ≡ some (codes "CANCELLED")
    pub cancel_reason : after.cancel_reason ≡ some reason
    pub updated_at : after.updated_at ≡ now
    pub kept :
        record after {
          status = row.status;
          broker_status = row.broker_status;
          cancel_reason = row.cancel_reason;
          cancelled_at = row.cancelled_at;
          updated_at = row.updated_at;
        }
        ≡ row

  closed_order-IsClosed : (row : StoredOrder) → IsClosed row (closed_order reason occurred now row)
  closed_order-IsClosed row = record {
    status = refl;
    broker_status = refl;
    cancel_reason = refl;
    updated_at = refl;
    kept = refl;
  }

  -- what the call returns for the row that it read
  Closes : Option StoredOrder → Option (Desk × Bool) → Type 0
  Closes o result =
      (r : Desk × Bool) × (result ≡ some r)
      × (r.1 ≡ is_closable o)
      × ((r.1 ≡ false) → r.0 ≡ s)
      × ((row : StoredOrder)
          → o ≡ some row
          → r.1 ≡ true
          → (after : StoredOrder) × (order_by_id id r.0 ≡ some after) × IsClosed row after)

  closed_self :
      (row : StoredOrder)
      → (if row.id == row.id then closed_order reason occurred now row else row)
        ≡ closed_order reason occurred now row
  closed_self row = ground arith

  close_found-Closes :
      (o : Option StoredOrder)
      → order_by_id id s ≡ o
      → Closes o (close_found o reason occurred now s)
  unfolding close_found Closes
  close_found-Closes none read = ((s, false), refl, refl, λ e. refl, λ row e t. cc)
  close_found-Closes (some row) read = elim (Bool-cases (is_open_order row)) [
    | inr ended ↦ rw ended ((s, false), refl, refl, λ e. refl, λ row' e t. cc)
    | inl open_row ↦ elim (Bool-cases (row.filled_qty == 0)) [
      | inr some_filled ↦
          rw (open_row, some_filled) ((s, false), refl, refl, λ e. refl, λ row' e t. cc)
      | inl unfilled ↦
          rw (open_row, unfilled, open-cancelled row.status open_row)
            (
              _,
              refl,
              refl,
              λ e. cc,
              λ row' e t.
                  let one : row ≡ row' = cc in
                  (
                    closed_order reason occurred now row',
                    find-after_update (λ x. x.id) row.id id (closed_order reason occurred now)
                          s.orders row (λ o. refl) read
                        ∙ ap some (closed_self row)
                        ∙ ap (λ x. some (closed_order reason occurred now x)) one,
                    closed_order-IsClosed row',
                  ),
            )
    ]
  ]

  -- The call never throws. It returns true exactly for an order that is there, open and without a fill,
  -- which is then found with the status CANCELLED and the reason, and with its quantities, its prices and all
  -- its other columns but those of the cancellation as they were; when it returns false, nothing has changed.
  pub close_open-closes :
      (r : Desk × Bool) × (close_open_order_as_cancelled id reason occurred now s ≡ some r)
      × (r.1 ≡ is_closable (order_by_id id s))
      × ((r.1 ≡ false) → r.0 ≡ s)
      × ((row : StoredOrder)
          → order_by_id id s ≡ some row
          → r.1 ≡ true
          → (after : StoredOrder) × (order_by_id id r.0 ≡ some after) × IsClosed row after)
  unfolding close_open_order_as_cancelled Closes
  close_open-closes = close_found-Closes _ refl
