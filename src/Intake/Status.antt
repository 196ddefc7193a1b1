-- ===== src/Intake/Status.antt =====
-- lib/trading/ledger.ts: the operations that move an order by its own status: `markOrderSubmitted`,
-- `markOrderUnknown`, `closeOpenOrderAsCancelled`, and `amendWorkingStopPrices`, which keeps it.
pub mod Refines
pub mod Close
pub mod Submitted
pub mod Kept
use cm_desk.Prelude.{
  ℕ, ◌==◌, Bool, true, false, not, ◌&&◌, ◌||◌, Option, none, some, or_else, is_some, List, [],
  if◌then◌else◌,
}
use cm_desk.Prelude.Text.{Text, codes, truthy, text_eq, opt_text_eq, to_upper}
use cm_desk.Order.{
  OrderStatus, submitted, filled, cancelled, rejected, failed, unknown, status_eq,
  open_order_statuses, includes, assert_order_transition,
}
use cm_desk.Ledger.{find}
use cm_desk.Intake.{
  StoredOrder, OrderEvent, amend, moved, Desk, order_by_id, order_by_broker_id, or_text,
  append_order_event, update_order, is_open_order, get_open_orders,
}
use cm_desk.Intake.Intent.{side_text}

-- `a ?? b`
abbrev pub or_option {ℓ} : {A : Type ℓ} → Option A → Option A → Option A
or_option none b = b
or_option (some a) b = some a

-- `assertOrderTransition` does not throw.
abbrev pub is_legal : OrderStatus → OrderStatus → Bool
is_legal from to = is_some (assert_order_transition from to)

abbrev pub plain_event : StoredOrder → OrderStatus → OrderStatus → Option Text → ℕ → OrderEvent
plain_event row to kind message now = record {
  order_id = row.id;
  from_status = some row.status;
  to_status = to;
  event_type = moved kind;
  broker_status = none;
  filled_qty = none;
  remaining_qty = none;
  message = message;
  occurred_at = now;
}

pub record SubmitReport : Type 0 where
  pub order_id : Option ℕ
  pub broker_order_id : Option Text
  pub exchange_order_id : Option Text
  pub error_info : Option Text
  pub status : Option OrderStatus
  pub provenance : Option Text

abbrev pub submitted_status : SubmitReport → OrderStatus
submitted_status input =
    or_else input.status (if truthy input.broker_order_id then submitted else failed)

abbrev pub submitted_order : SubmitReport → ℕ → StoredOrder → StoredOrder
submitted_order input now row = record row {
  status = submitted_status input;
  broker_order_id = or_text input.broker_order_id row.broker_order_id;
  exchange_order_id = or_text input.exchange_order_id row.exchange_order_id;
  error_info = or_option input.error_info row.error_info;
  provenance = or_option input.provenance row.provenance;
  submitted_at = some (or_else row.submitted_at now);
  updated_at = now;
}

-- the writes for the row, once its move is accepted
abbrev pub write_submitted : SubmitReport → ℕ → StoredOrder → Desk → Desk
write_submitted input now row s =
    let to = submitted_status input in
    let updated = update_order row.id (submitted_order input now) s in
    if status_eq row.status to
    then updated
    else append_order_event
        (plain_event row to (if status_eq to failed then failed else submitted) input.error_info
          now)
        updated

pub submit_found : Option StoredOrder → SubmitReport → ℕ → Desk → Desk
submit_found none input now s = s
submit_found (some row) input now s =
    if is_legal row.status (submitted_status input) then write_submitted input now row s else s

abbrev pub submit_by_id : Option ℕ → SubmitReport → ℕ → Desk → Desk
submit_by_id none input now s = s
submit_by_id (some id) input now s = submit_found (order_by_id id s) input now s

unfoldable pub mark_order_submitted : SubmitReport → ℕ → Desk → Desk
unfolding submit_found
mark_order_submitted input now s = submit_by_id input.order_id input now s

abbrev pub unknown_order : Option Text → ℕ → StoredOrder → StoredOrder
unknown_order message now row = record row {
  status = unknown;
  error_info = or_option message row.error_info;
  updated_at = now;
}

pub unknown_found : Option StoredOrder → Option Text → ℕ → Desk → Desk
unknown_found none message now s = s
unknown_found (some row) message now s =
    if status_eq row.status filled
      || status_eq row.status rejected
      || status_eq row.status cancelled
    then s
    else if is_legal row.status unknown
    then append_order_event (plain_event row unknown unknown message now)
        (update_order row.id (unknown_order message now) s)
    else s

unfoldable pub mark_order_unknown : ℕ → Option Text → ℕ → Desk → Desk
unfolding unknown_found
mark_order_unknown id message now s = unknown_found (order_by_id id s) message now s

abbrev pub closed_order : Text → Option ℕ → ℕ → StoredOrder → StoredOrder
closed_order reason occurred now row = record row {
  status = cancelled;
  broker_status = some (codes "CANCELLED");
  cancel_reason = some reason;
  cancelled_at = some (or_else occurred row.updated_at);
  updated_at = now;
}

-- `none` is the error of `assertOrderTransition`; the guarded update meets the row that was just read.
pub close_found : Option StoredOrder → Text → Option ℕ → ℕ → Desk → Option (Desk × Bool)
close_found none reason occurred now s = some (s, false)
close_found (some row) reason occurred now s =
    if not (is_open_order row)
    then some (s, false)
    else if not (row.filled_qty == 0)
    then some (s, false)
    else if not (is_legal row.status cancelled)
    then none
    else some (
      append_order_event
          (record {
            order_id = row.id;
            from_status = some row.status;
            to_status = cancelled;
            event_type = moved cancelled;
            broker_status = some (codes "CANCELLED");
            filled_qty = some row.filled_qty;
            remaining_qty = some row.remaining_qty;
            message = some reason;
            occurred_at = or_else occurred now;
          })
          (update_order row.id (closed_order reason occurred now) s),
      true,
    )

unfoldable pub close_open_order_as_cancelled : ℕ → Text → Option ℕ → ℕ → Desk → Option (Desk × Bool)
unfolding close_found
close_open_order_as_cancelled id reason occurred now s =
    close_found (order_by_id id s) reason occurred now s

pub record AmendInput : Type 0 where
  pub order_id : Option ℕ
  pub broker_order_id : Option Text
  pub tradingsymbol : Option Text
  pub side : Option Text
  pub purpose : Option Text
  pub stop_price : Text
  pub limit_price : Text

abbrev pub is_stop_type : Option Text → Bool
is_stop_type order_type =
    let type = to_upper (or_else order_type []) in
    text_eq type (codes "SL") || text_eq type (codes "SL-M") || text_eq type (codes "SL-L")

abbrev pub is_amended_stop : AmendInput → StoredOrder → Bool
is_amended_stop input o =
    opt_text_eq (some o.tradingsymbol) input.tradingsymbol
    && opt_text_eq (some (side_text o.side)) input.side
    && (not (truthy input.purpose) || opt_text_eq (some o.purpose) input.purpose)
    && is_stop_type o.order_type

-- by its identifier, by the broker's, or the first open stop of the symbol and side
abbrev pub amended_row : AmendInput → Desk → Option StoredOrder
amended_row input s =
    or_option
      (or_option (elim input.order_id [ none ↦ none | some id ↦ order_by_id id s ])
        (if truthy input.broker_order_id
          then order_by_broker_id (or_else input.broker_order_id []) s
          else none))
      (if truthy input.tradingsymbol && truthy input.side
        then find (is_amended_stop input) (get_open_orders s)
        else none)

abbrev pub amended_order : AmendInput → ℕ → StoredOrder → StoredOrder
amended_order input now row = record row {
  stop_price = some input.stop_price;
  limit_price = some input.limit_price;
  updated_at = now;
}

pub amend_found : Option StoredOrder → AmendInput → ℕ → Desk → Desk × Bool
amend_found none input now s = (s, false)
amend_found (some row) input now s =
    if not (includes open_order_statuses row.status) then (s, false) else (
      append_order_event
          (record {
            order_id = row.id;
            from_status = some row.status;
            to_status = row.status;
            event_type = amend;
            broker_status = none;
            filled_qty = none;
            remaining_qty = none;
            message = none;
            occurred_at = now;
          })
          (update_order row.id (amended_order input now) s),
      true,
    )

-- The message of the event, a text of the two prices, is left out.
unfoldable pub amend_working_stop_prices : AmendInput → ℕ → Desk → Desk × Bool
unfolding amend_found
amend_working_stop_prices input now s = amend_found (amended_row input s) input now s
