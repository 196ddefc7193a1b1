-- ===== src/Reconcile/Backfill.antt =====
-- lib/trading/migrateHistory.ts: `backfillFromTransactions`, the copy of the rows of `transactions` that the
-- ledger does not have. Its two statements are loops over the rows that they select.
pub mod Sound
pub mod Twice
use cm_desk.Prelude.{
  ℕ, suc, Bool, true, false, not, ◌&&◌, ◌||◌, Option, none, some, or_else, is_some, List, [], ◌∷◌,
  ◌++◌, ltb, if◌then◌else◌,
}
use cm_desk.Prelude.Int.{pos}
use cm_desk.Prelude.Text.{Text, codes, text_eq, opt_text_eq, truthy}
use cm_desk.Money.{Money, Result, ok, throw, money_zero}
use cm_desk.Accounting.Rows.{money_from_unknown}
use cm_desk.Types.{buy, sell}
use cm_desk.Order.{filled}
use cm_desk.Ledger.{StoredFill, Store}
use cm_desk.Ledger.Pending.{apply_unapplied_fills}
use cm_desk.Intake.{StoredOrder, Desk, order_by_key, order_by_broker_id}
use cm_desk.Intake.Intent.{JobRef}
use cm_desk.Intake.Snapshot.{insert_fill}

pub record Transaction : Type 0 where
  pub order_id : Option Text
  pub tag : Option Text
  pub transaction_type : Option Text
  pub order_type : Option Text
  pub product : Option Text
  pub exchange : Option Text
  pub tradingsymbol : Option Text
  pub instrument_token : Option ℕ
  pub quantity : Option ℕ
  pub average_price : Option Text
  pub order_timestamp : Option ℕ
  pub created_at : Option ℕ

-- the `WHERE` of the first statement
abbrev pub is_copied : Transaction → Bool
is_copied t =
    is_some t.order_id
    && truthy t.tradingsymbol
    && ltb 0 (or_else t.quantity 0)
    && (opt_text_eq t.transaction_type (some (codes "BUY"))
        || opt_text_eq t.transaction_type (some (codes "SELL")))

abbrev pub migrated_key : Transaction → Text
migrated_key t = codes "migrated:" ++ or_else t.order_id []

-- the columns of the job with the tag
abbrev pub tagged_job : (Text → Option JobRef) → Option Text → Option JobRef
tagged_job job_by_tag none = none
tagged_job job_by_tag (some tag) = job_by_tag tag

abbrev pub tagged_id : Option JobRef → Option Text
tagged_id none = none
tagged_id (some job) = some job.id

abbrev pub tagged_strategy : Option JobRef → Option Text
tagged_strategy none = none
tagged_strategy (some job) = job.strategy

-- A numeric column as an amount, and none as 0.
abbrev pub numeric_of : Result Money → Money
numeric_of (ok m) = m
numeric_of (throw e) = money_zero

-- `job_by_tag` is the newest job of a tag.
module _ (job_by_tag : Text → Option JobRef) (now : ℕ) where
  unfoldable pub migrated_order : ℕ → Transaction → StoredOrder
  migrated_order id t =
      let at = or_else t.order_timestamp (or_else t.created_at now) in
      record {
        id = id;
        job_id = tagged_id (tagged_job job_by_tag t.tag);
        decision_id = none;
        strategy = tagged_strategy (tagged_job job_by_tag t.tag);
        order_tag = t.tag;
        purpose = codes "OTHER";
        side = if opt_text_eq t.transaction_type (some (codes "SELL")) then sell else buy;
        order_type = t.order_type;
        product = t.product;
        exchange = or_else t.exchange (codes "NFO");
        tradingsymbol = or_else t.tradingsymbol [];
        instrument_token = t.instrument_token;
        validity = codes "DAY";
        time_in_force = none;
        requested_qty = or_else t.quantity 0;
        filled_qty = or_else t.quantity 0;
        remaining_qty = 0;
        limit_price = none;
        stop_price = none;
        average_fill_price = t.average_price;
        status = filled;
        broker_order_id = t.order_id;
        exchange_order_id = none;
        parent_broker_order_id = none;
        idempotency_key = migrated_key t;
        reject_reason = none;
        cancel_reason = none;
        error_info = none;
        broker_status = some (codes "COMPLETE");
        provenance = some (codes "MIGRATED");
        submitted_at = some at;
        accepted_at = some at;
        filled_at = some at;
        cancelled_at = none;
        created_at = now;
        updated_at = now;
      }

  -- One row of the first statement. A row of the same key is passed over; an order that has the broker's
  -- identifier under another key violates the unique index, which ends the statement (`none`).
  unfoldable pub insert_migrated : Transaction → Desk → Option Desk
  insert_migrated t s =
      if not (is_copied t) || is_some (order_by_key (migrated_key t) s)
      then some s
      else if is_some (order_by_broker_id (or_else t.order_id []) s)
      then none
      else some (record s {
        orders = s.orders ++ (migrated_order s.next_order t ∷ []);
        next_order = suc s.next_order;
      })

  unfoldable pub insert_all : List Transaction → Option Desk → Option Desk
  unfolding insert_migrated
  insert_all ts none = none
  insert_all [] (some s) = some s
  insert_all (t ∷ ts) (some s) = insert_all ts (insert_migrated t s)

unfoldable pub migrated_fill : StoredOrder → ℕ → StoredFill
migrated_fill o id = record {
  id = id;
  is_applied = false;
  account_id = codes "default";
  job_id = o.job_id;
  decision_id = none;
  strategy = o.strategy;
  exchange = o.exchange;
  tradingsymbol = o.tradingsymbol;
  instrument_token = o.instrument_token;
  product = o.product;
  side = o.side;
  quantity = pos o.filled_qty;
  price = numeric_of (money_from_unknown o.average_fill_price);
  fee_amount = money_zero;
  occurred_at = or_else o.filled_at o.created_at;
  provenance = some (codes "MIGRATED");
  order_id = o.id;
  fingerprint = codes "migrated-txn:" ++ or_else o.broker_order_id [];
  broker_trade_id = none;
}

-- the `WHERE` of the second statement
abbrev pub is_migrated : StoredOrder → Bool
is_migrated o = opt_text_eq o.provenance (some (codes "MIGRATED")) && is_some o.broker_order_id

-- The second statement; a fill of the same fingerprint is passed over.
unfoldable pub insert_fills : List StoredOrder → Store → Store
insert_fills [] s = s
insert_fills (o ∷ os) s =
    let next = if is_migrated o then (insert_fill true (migrated_fill o) s).0 else s in
    insert_fills os next

-- The rows of `transactions`, and whether the database carries out each of the two statements.
pub record Imports : Type 0 where
  pub transactions : List Transaction
  pub orders_work : Bool
  pub fills_work : Bool

abbrev pub apply_all : Desk → Desk
apply_all s = record s { ledger = (apply_unapplied_fills s.ledger).0 }

-- after the first statement; an error of it skips the second one, and is only logged
abbrev pub fill_orders : Bool → Option Desk → Desk → Desk
fill_orders fills_work none s = s
fill_orders fills_work (some s') s =
    if fills_work then record s' { ledger = insert_fills s'.orders s'.ledger } else s'

unfoldable pub backfill_from_transactions : (Text → Option JobRef) → ℕ → Imports → Desk → Desk
unfolding insert_all insert_fills
backfill_from_transactions job_by_tag now imports s = apply_all (
    fill_orders imports.fills_work
      (if imports.orders_work
        then insert_all job_by_tag now imports.transactions (some s)
        else none)
      s)
