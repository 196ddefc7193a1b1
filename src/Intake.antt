-- ===== src/Intake.antt =====
-- lib/trading/ledger.ts: the orders of the ledger and their events. Columns of prices hold their texts;
-- times are milliseconds; the raw reports and the free-form metadata are left out.
pub mod Intent
pub mod Status
pub mod Snapshot
pub mod Frame
pub mod Attributed
use mathlib.Core.List.{reverse}
use cm_desk.Prelude.{
  ℕ, suc, ◌==◌, Bool, true, false, Option, none, some, List, [], ◌∷◌, ◌++◌, filter, if◌then◌else◌,
}
use cm_desk.Prelude.Text.{Text, truthy, opt_text_eq}
use cm_desk.Types.{Side}
use cm_desk.Order.{OrderStatus, open_order_statuses, includes}
use cm_desk.Ledger.{Store, find, update_where}

pub record StoredOrder : Type 0 where
  pub id : ℕ
  pub job_id : Option Text
  pub decision_id : Option Text
  pub strategy : Option Text
  pub order_tag : Option Text
  pub purpose : Text
  pub side : Side
  pub order_type : Option Text
  pub product : Option Text
  pub exchange : Text
  pub tradingsymbol : Text
  pub instrument_token : Option ℕ
  pub validity : Text
  pub time_in_force : Option Text
  pub requested_qty : ℕ
  pub filled_qty : ℕ
  pub remaining_qty : ℕ
  pub limit_price : Option Text
  pub stop_price : Option Text
  pub average_fill_price : Option Text
  pub status : OrderStatus
  pub broker_order_id : Option Text
  pub exchange_order_id : Option Text
  pub parent_broker_order_id : Option Text
  pub idempotency_key : Text
  pub reject_reason : Option Text
  pub cancel_reason : Option Text
  pub error_info : Option Text
  pub broker_status : Option Text
  pub provenance : Option Text
  pub submitted_at : Option ℕ
  pub accepted_at : Option ℕ
  pub filled_at : Option ℕ
  pub cancelled_at : Option ℕ
  pub created_at : ℕ
  pub updated_at : ℕ

pub data OrderEventType : Type 0 where
  created amend : OrderEventType
  moved : OrderStatus → OrderEventType

pub record OrderEvent : Type 0 where
  pub order_id : ℕ
  pub from_status : Option OrderStatus
  pub to_status : OrderStatus
  pub event_type : OrderEventType
  pub broker_status : Option Text
  pub filled_qty : Option ℕ
  pub remaining_qty : Option ℕ
  pub message : Option Text
  pub occurred_at : ℕ

-- The orders beside the rows that fills touch; the identifiers of new orders are counted.
pub record Desk : Type 0 where
  pub ledger : Store
  pub orders : List StoredOrder
  pub order_events : List OrderEvent
  pub next_order : ℕ

-- `WHERE id = …`
abbrev pub order_by_id : ℕ → Desk → Option StoredOrder
order_by_id id s = find (λ o. o.id == id) s.orders

-- `WHERE idempotency_key = …`
abbrev pub order_by_key : Text → Desk → Option StoredOrder
order_by_key key s = find (λ o. opt_text_eq (some o.idempotency_key) (some key)) s.orders

-- `WHERE broker_order_id = …`, of an identifier that is not empty
abbrev pub order_by_broker_id : Text → Desk → Option StoredOrder
order_by_broker_id id s = find (λ o. opt_text_eq o.broker_order_id (some id)) s.orders

-- `a || b` on texts that may be missing
abbrev pub or_text : Option Text → Option Text → Option Text
or_text a b = if truthy a then a else b

abbrev pub append_order_event : OrderEvent → Desk → Desk
append_order_event event s = record s { order_events = s.order_events ++ (event ∷ []) }

-- `UPDATE orders … WHERE id = …`
abbrev pub update_order : ℕ → (StoredOrder → StoredOrder) → Desk → Desk
update_order id patch s = record s { orders = update_where (λ o. o.id == id) patch s.orders }

abbrev pub is_open_order : StoredOrder → Bool
is_open_order o = includes open_order_statuses o.status

-- The latest order first: rows are added in the order of their creation.
unfoldable pub get_open_orders : Desk → List StoredOrder
get_open_orders s = reverse (filter is_open_order s.orders)
