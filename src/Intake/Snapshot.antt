-- ===== src/Intake/Snapshot.antt =====
-- lib/trading/ledger.ts: `applyBrokerOrderSnapshot`, the report of the broker on one order, with
-- `insertFill`. Prices are the texts of their numbers, times what `new Date` reads of the report.
pub mod Redelivery
pub mod Sound
pub mod Others
use cm_desk.Prelude.{
  ℕ, suc, ◌-◌, Bool, true, false, not, ◌&&◌, ◌||◌, Option, none, some, or_else, is_some, List, [],
  ◌∷◌, ◌++◌, any, ltb, leb, if◌then◌else◌,
}
use cm_desk.Prelude.Int.{pos}
use cm_desk.Prelude.Text.{Text, codes, truthy, text_eq, opt_text_eq}
use cm_desk.Money.{Result, ok, throw, ◌>>=◌}
use cm_desk.Money.Decimal.{to_digits, money_to_string}
use cm_desk.Types.{Side, buy, sell, ledger_provenance, provenance_text}
use cm_desk.Accounting.Mark.{IncrementalFill, incremental_fill_from_averages}
use cm_desk.Accounting.Rows.{money_from_unknown}
use cm_desk.Order.{
  OrderStatus, submitted, accepted, partially_filled, filled, cancelled, rejected, status_eq,
}
use cm_desk.Order.Kite.{FillProgress, map_kite_order_status, commit_broker_fill_progress}
use cm_desk.Ledger.{StoredFill, Store, find}
use cm_desk.Ledger.Apply.{apply_fill_by_id}
use cm_desk.Intake.{
  StoredOrder, OrderEvent, moved, Desk, order_by_id, order_by_broker_id, or_text,
  append_order_event, update_order,
}
use cm_desk.Intake.Intent.{JobRef, OrderIntent, RecordedIntent, record_order_intent}
use cm_desk.Intake.Status.{or_option}

pub record KiteReport : Type 0 where
  pub order_id : Option Text
  pub exchange_order_id : Option Text
  pub parent_order_id : Option Text
  pub status : Option Text
  pub status_message : Option Text
  pub tradingsymbol : Option Text
  pub exchange : Option Text
  pub instrument_token : Option ℕ
  pub transaction_type : Option Text
  pub order_type : Option Text
  pub product : Option Text
  pub validity : Option Text
  pub quantity : Option ℕ
  pub pending_quantity : Option ℕ
  pub filled_quantity : Option ℕ
  pub price : Option Text
  pub trigger_price : Option Text
  pub average_price : Option Text
  pub tag : Option Text
  pub order_timestamp : Option ℕ
  pub exchange_timestamp : Option ℕ

pub record ReportContext : Type 0 where
  pub job_id : Option Text
  pub decision_id : Option Text
  pub purpose : Option Text
  pub provenance : Option Text
  pub exit_reason : Option Text
  pub internal_order_id : Option ℕ

pub record SnapshotResult : Type 0 where
  pub order_id : Option ℕ
  pub fill_ids : List ℕ

-- `kiteOrder.order_id || null`
abbrev pub broker_id : KiteReport → Option Text
broker_id report = if truthy report.order_id then report.order_id else none

abbrev pub requested_of : KiteReport → ℕ
requested_of report = or_else report.quantity 0

abbrev pub filled_of : KiteReport → ℕ
filled_of report = or_else report.filled_quantity 0

abbrev pub remaining_of : KiteReport → ℕ
remaining_of report = or_else report.pending_quantity (requested_of report - filled_of report)

abbrev pub side_of : KiteReport → Side
side_of report = if opt_text_eq report.transaction_type (some (codes "SELL")) then sell else buy

abbrev pub next_status : KiteReport → OrderStatus
next_status report = map_kite_order_status report.status (filled_of report) (requested_of report)

abbrev pub occurred_of : KiteReport → ℕ → ℕ
occurred_of report now = or_else report.exchange_timestamp (or_else report.order_timestamp now)

-- `fillFingerprint` of a cumulative report
abbrev pub fill_fingerprint : Option Text → ℕ → Text → Text
fill_fingerprint broker_order_id quantity price =
    codes "kite-order:"
    ++ (or_else broker_order_id (codes "unknown")
        ++ (codes ":agg:" ++ (to_digits quantity ++ (codes ":" ++ price))))

abbrev pub exit_reason_for_order_purpose : Text → Option Text
exit_reason_for_order_purpose purpose =
    if text_eq purpose (codes "SL") then some (codes "STOP_LOSS") else none

-- the unique index on the broker's identifier of a trade, where there is one
abbrev pub same_trade : Option Text → StoredFill → Bool
same_trade none f = false
same_trade (some trade) f = opt_text_eq f.broker_trade_id (some trade)

abbrev pub trade_taken : StoredFill → Store → Bool
trade_taken fill s = any (same_trade fill.broker_trade_id) s.fills

-- The row of the fingerprint is kept; `taken` tells that another one has the trade.
abbrev pub insert_new : Option StoredFill → Bool → StoredFill → Store → Store × Option ℕ
insert_new (some known) taken fill s = (s, some known.id)
insert_new none true fill s = (s, none)
insert_new none false fill s =
    (record s { fills = s.fills ++ (fill ∷ []); next_fill = suc s.next_fill }, some fill.id)

abbrev pub fill_by_fingerprint : Text → Store → Option StoredFill
fill_by_fingerprint fingerprint s = find (λ f. text_eq f.fingerprint fingerprint) s.fills

-- `works` tells whether the statement succeeds.
unfoldable pub insert_fill : Bool → (ℕ → StoredFill) → Store → Store × Option ℕ
insert_fill works make s =
    let fill = make s.next_fill in
    if works
    then insert_new (fill_by_fingerprint fill.fingerprint s) (trade_taken fill s) fill s
    else (s, none)

module _ (report : KiteReport) (context : ReportContext) (now : ℕ) where
  abbrev pub books_fill : StoredOrder → Bool
  books_fill row =
      let next = next_status report in
      ltb row.filled_qty (filled_of report)
      && (status_eq next partially_filled
          || status_eq next filled
          || status_eq next cancelled
          || status_eq next rejected)

  abbrev pub new_part : StoredOrder → Result (Option IncrementalFill)
  new_part row = do
    previous ← money_from_unknown row.average_fill_price
    average ← money_from_unknown report.average_price
    incremental_fill_from_averages (pos row.filled_qty) previous (pos (filled_of report)) average

  unfoldable pub fill_of_report : StoredOrder → IncrementalFill → ℕ → StoredFill
  fill_of_report row part id = record {
    id = id;
    is_applied = false;
    account_id = codes "default";
    job_id = row.job_id;
    decision_id = row.decision_id;
    strategy = row.strategy;
    exchange = row.exchange;
    tradingsymbol = row.tradingsymbol;
    instrument_token = row.instrument_token;
    product = row.product;
    side = row.side;
    quantity = part.quantity;
    price = part.price;
    fee_amount = pos 0;
    occurred_at = occurred_of report now;
    provenance =
        some (provenance_text (ledger_provenance (or_option context.provenance row.provenance)));
    order_id = row.id;
    fingerprint =
        fill_fingerprint (broker_id report) (filled_of report)
          (or_else report.average_price (money_to_string part.price));
    broker_trade_id = none;
  }

  abbrev pub committed : Bool → StoredOrder → FillProgress
  committed saved row = commit_broker_fill_progress (record {
    previous_filled_qty = pos row.filled_qty;
    kite_filled_qty = pos (filled_of report);
    fill_row_saved = saved;
    from_status = row.status;
    next_status = next_status report;
  })

  -- the status in the update, where there is one
  abbrev pub patch_status : Bool → StoredOrder → Option OrderStatus
  patch_status saved row =
      let status = (committed saved row).status in
      if not (status_eq row.status status) || status_eq status partially_filled
      then some status
      else none

  -- the first time that is known of a stage
  abbrev pub stamp : Bool → Option ℕ → Option ℕ
  stamp reached known = if reached then some (or_else known (occurred_of report now)) else known

  unfoldable pub patched_order : Bool → StoredOrder → StoredOrder → StoredOrder
  patched_order saved row current =
      let next = next_status report in
      let done = committed saved row in
      let is_accepted =
        status_eq next accepted || status_eq next partially_filled || status_eq next filled in
      record current {
        broker_order_id = or_text (broker_id report) row.broker_order_id;
        exchange_order_id = or_text report.exchange_order_id row.exchange_order_id;
        parent_broker_order_id = or_text report.parent_order_id row.parent_broker_order_id;
        broker_status = or_text report.status row.broker_status;
        filled_qty = done.filled_qty;
        remaining_qty = remaining_of report;
        average_fill_price = or_option report.average_price row.average_fill_price;
        reject_reason =
            if status_eq next rejected
            then or_text report.status_message row.reject_reason
            else row.reject_reason;
        cancel_reason =
            if status_eq next cancelled
            then or_text report.status_message row.cancel_reason
            else row.cancel_reason;
        status = or_else (patch_status saved row) current.status;
        submitted_at = stamp (status_eq next submitted || is_accepted) row.submitted_at;
        accepted_at = stamp is_accepted row.accepted_at;
        filled_at = stamp (status_eq done.status filled) row.filled_at;
        cancelled_at = stamp (status_eq done.status cancelled) row.cancelled_at;
        updated_at = now;
      }

  abbrev pub snapshot_event : Bool → StoredOrder → OrderEvent
  snapshot_event saved row =
      let to = or_else (patch_status saved row) (next_status report) in
      record {
        order_id = row.id;
        from_status = some row.status;
        to_status = to;
        event_type = moved to;
        broker_status = report.status;
        filled_qty = some (committed saved row).filled_qty;
        remaining_qty = some (remaining_of report);
        message = report.status_message;
        occurred_at = occurred_of report now;
      }

  -- `shouldRecordOrderStatusEvent`
  abbrev pub should_record_order_status_event : OrderStatus → Option OrderStatus → Bool
  should_record_order_status_event from patch = not (status_eq from (or_else patch from))

  -- the update of the order and its event
  unfoldable pub finish : Bool → List ℕ → StoredOrder → Desk → Desk × Result SnapshotResult
  finish saved fill_ids row s =
      let updated = update_order row.id (patched_order saved row) s in
      let result : SnapshotResult = record { order_id = some row.id; fill_ids = fill_ids } in
      if should_record_order_status_event row.status (patch_status saved row)
      then (append_order_event (snapshot_event saved row) updated, ok result)
      else (updated, ok result)

  -- after `insertFill`: the fill is applied, if there is one
  unfoldable pub book_part : Store × Option ℕ → StoredOrder → Desk → Desk × Result SnapshotResult
  book_part (ledger, none) row s = finish false [] row (record s { ledger = ledger })
  book_part (ledger, some id) row s =
      let reason = or_option context.exit_reason (exit_reason_for_order_purpose row.purpose) in
      finish true (id ∷ []) row (record s { ledger = (apply_fill_by_id id reason ledger).0 })

  unfoldable pub save_part :
      Bool → Result (Option IncrementalFill) → StoredOrder → Desk → Desk × Result SnapshotResult
  save_part works (throw e) row s = (s, throw e)
  save_part works (ok none) row s = finish true [] row s
  save_part works (ok (some part)) row s =
      book_part (insert_fill works (fill_of_report row part) s.ledger) row s

  -- The move is tested by `assertOrderTransition`, whose error is only logged.
  unfoldable pub snapshot_row : Bool → StoredOrder → Desk → Desk × Result SnapshotResult
  unfolding finish book_part save_part
  snapshot_row works row s =
      if books_fill row
      then save_part works (new_part row) row s
      else finish (leb (filled_of report) row.filled_qty) [] row s

  unfoldable pub intent_of_report : OrderIntent
  intent_of_report = record {
    job_id = context.job_id;
    decision_id = context.decision_id;
    strategy = none;
    order_tag = report.tag;
    purpose = context.purpose;
    side = side_of report;
    order_type = report.order_type;
    product = report.product;
    exchange = report.exchange;
    tradingsymbol = or_else report.tradingsymbol [];
    instrument_token = report.instrument_token;
    validity = report.validity;
    requested_qty = requested_of report;
    limit_price = report.price;
    stop_price = report.trigger_price;
    idempotency_key =
        if is_some (broker_id report)
        then some (codes "broker:" ++ or_else (broker_id report) [])
        else none;
    provenance = some (
        or_else context.provenance
          (if is_some (broker_id report) then codes "RECONCILED" else codes "PAPER"));
    slice = none;
  }

  -- the order by the internal identifier, else by the broker's
  abbrev pub reported_row : Desk → Option StoredOrder
  reported_row s =
      or_option (elim context.internal_order_id [ none ↦ none | some id ↦ order_by_id id s ])
        (elim (broker_id report) [ none ↦ none | some id ↦ order_by_broker_id id s ])

  abbrev pub no_order : Desk → Desk × Result SnapshotResult
  no_order s = (s, ok (record { order_id = none; fill_ids = [] }))

  unfoldable pub snapshot_found : Bool → Option StoredOrder → Desk → Desk × Result SnapshotResult
  snapshot_found works none s = no_order s
  snapshot_found works (some row) s = snapshot_row works row s

  -- the row of an order that was recorded just now
  unfoldable pub snapshot_created :
      Bool → Option (Desk × RecordedIntent) → Desk → Desk × Result SnapshotResult
  snapshot_created works none s = no_order s
  snapshot_created works (some (s', recorded)) s =
      snapshot_found works (order_by_id recorded.id s') s'

  -- `job_by_tag` is the query of the jobs, `uuids` the names that `recordOrderIntent` may need.
  module _ (job_by_tag : Text → Option JobRef) (uuids : List Text) where
    unfoldable pub snapshot_of : Bool → Option StoredOrder → Desk → Desk × Result SnapshotResult
    snapshot_of works (some row) s = snapshot_row works row s
    snapshot_of works none s =
        if truthy report.tradingsymbol && ltb 0 (requested_of report)
        then snapshot_created works (record_order_intent job_by_tag now uuids intent_of_report s) s
        else no_order s

    unfoldable pub apply_broker_order_snapshot : Bool → Desk → Desk × Result SnapshotResult
    unfolding snapshot_of snapshot_created snapshot_found
    apply_broker_order_snapshot works s = snapshot_of works (reported_row s) s
