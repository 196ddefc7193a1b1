-- ===== src/Paper/Execution.antt =====
-- lib/trading/paperExecution.ts: the desk's own matching of paper orders. Prices are JavaScript numbers;
-- how a number is read from the text of a column, and written as one, are parameters.
pub mod Frame
pub mod Sound
use cm_desk.Prelude.{
  ℕ, suc, ◌-◌, ◌==◌, Bool, true, false, not, ◌&&◌, ◌||◌, Option, none, some, or_else, List, [], ◌∷◌,
  ◌++◌, if◌then◌else◌,
}
use cm_desk.Prelude.Text.{Text, codes, truthy, text_eq, opt_text_eq, to_upper}
use cm_desk.Prelude.Double.{Double}
use cm_desk.Money.{Result, ok, throw}
use cm_desk.Money.Decimal.{to_digits}
use cm_desk.Types.{is_synthetic, ledger_provenance, provenance_text}
use cm_desk.Intake.{StoredOrder, Desk, get_open_orders}
use cm_desk.Intake.Intent.{JobRef, side_text}
use cm_desk.Intake.Status.{is_stop_type}
use cm_desk.Intake.Snapshot.{KiteReport, ReportContext, SnapshotResult, apply_broker_order_snapshot}

-- `isSyntheticProvenance(ledgerProvenance(row.provenance))`
abbrev pub is_paper_order : StoredOrder → Bool
is_paper_order row = is_synthetic (ledger_provenance row.provenance)

-- `row.brokerOrderId || "paper:" + row.id`
abbrev pub paper_order_id : StoredOrder → Text
paper_order_id row =
    if truthy row.broker_order_id
    then or_else row.broker_order_id []
    else codes "paper:" ++ to_digits row.id

abbrev pub paper_context : StoredOrder → Option Text → ReportContext
paper_context row exit_reason = record {
  job_id = none;
  decision_id = none;
  purpose = some row.purpose;
  provenance = some (provenance_text (ledger_provenance row.provenance));
  exit_reason = exit_reason;
  internal_order_id = some row.id;
}

-- the report that both loops write, but for its status and quantities
abbrev pub paper_report : StoredOrder → Text → ℕ → ℕ → Option Text → KiteReport
paper_report row status filled_quantity pending_quantity average_price = record {
  order_id = some (paper_order_id row);
  exchange_order_id = none;
  parent_order_id = none;
  status = some status;
  status_message = none;
  tradingsymbol = some row.tradingsymbol;
  exchange = some row.exchange;
  instrument_token = none;
  transaction_type = some (side_text row.side);
  order_type = row.order_type;
  product = row.product;
  validity = none;
  quantity = some row.requested_qty;
  pending_quantity = some pending_quantity;
  filled_quantity = some filled_quantity;
  price = none;
  trigger_price = none;
  average_price = average_price;
  tag = row.order_tag;
  order_timestamp = none;
  exchange_timestamp = none;
}

-- `row.remainingQty || row.requestedQty - row.filledQty`
abbrev pub remaining_qty : StoredOrder → ℕ
remaining_qty row =
    if row.remaining_qty == 0 then row.requested_qty - row.filled_qty else row.remaining_qty

abbrev pub paper_exit_reason : StoredOrder → Option Text
paper_exit_reason row =
    if text_eq row.purpose (codes "SL") || text_eq row.purpose (codes "FLATTEN")
    then some (codes "STOP_LOSS")
    else none

module _ {ℓ} {F : Type ℓ} ⦃d : Double F⦄ where
  -- `Number.isFinite(x) && x >= trigger`, and the other way round
  abbrev pub reaches : F → F → Bool
  reaches trigger x = d.is_finite x && d.le trigger x

  abbrev pub falls_to : F → F → Bool
  falls_to trigger x = d.is_finite x && d.le x trigger

  -- `trigger` is none where `Number(input.triggerPrice)` is that of null, zero.
  unfoldable pub paper_stop_triggered : Text → Option F → F → Option F → Option F → Bool
  paper_stop_triggered side trigger_price last high low =
      let trigger = or_else trigger_price (d.of_ℕ 0) in
      if not (d.is_finite trigger) || d.le trigger (d.of_ℕ 0)
      then false
      else if text_eq (to_upper side) (codes "BUY")
      then reaches trigger (or_else high last) || reaches trigger last
      else falls_to trigger (or_else low last) || falls_to trigger last

  unfoldable pub should_fill_paper_order_now :
      Option Text → Text → Option F → F → Option F → Option F → Bool
  should_fill_paper_order_now order_type side trigger_price last high low =
      if not (is_stop_type order_type)
      then true
      else paper_stop_triggered side trigger_price last high low

module _ (job_by_tag : Text → Option JobRef) (uuids : List Text) (now : ℕ) where
  -- one report of a loop, which ends it if it throws
  abbrev pub report_row : Bool → KiteReport → ReportContext → Desk → Desk × Result SnapshotResult
  report_row works report context s =
      apply_broker_order_snapshot report context now job_by_tag uuids works s

  -- A loop over the open orders: those that are chosen are reported, and counted.
  pub report_loop :
      Bool
      → (StoredOrder → Bool)
      → (StoredOrder → KiteReport)
      → (StoredOrder → ReportContext)
      → List StoredOrder
      → ℕ
      → Desk
      → Desk × Result ℕ
  report_loop works chosen report context [] count s = (s, ok count)
  report_loop works chosen report context (row ∷ rows) count s =
      let r = report_row works (report row) (context row) s in
      elim (chosen row) [
        | false ↦ report_loop works chosen report context rows count s
        | true ↦ elim r.1 [
          | throw e ↦ (r.0, throw e)
          | ok result ↦ report_loop works chosen report context rows (suc count) r.0
        ]
      ]

  abbrev pub is_cancel_match : Text → Option Text → Option Text → StoredOrder → Bool
  is_cancel_match tradingsymbol side tag row =
      text_eq row.tradingsymbol tradingsymbol
      && (not (truthy side) || opt_text_eq (some (side_text row.side)) side)
      && (not (truthy tag) || opt_text_eq row.order_tag tag)
      && is_paper_order row

  abbrev pub cancel_report : StoredOrder → KiteReport
  cancel_report row = paper_report row (codes "CANCELLED") row.filled_qty row.remaining_qty none

  unfoldable pub cancel_paper_working_orders :
      Bool → Text → Option Text → Option Text → Desk → Desk × Result ℕ
  unfolding report_loop
  cancel_paper_working_orders works tradingsymbol side tag s =
      if not (truthy side) && not (truthy tag)
      then (s, ok 0)
      else report_loop works (is_cancel_match tradingsymbol side tag) cancel_report
          (λ row. paper_context row none) (get_open_orders s) 0 s

  module _ {ℓ} {F : Type ℓ} ⦃d : Double F⦄ (number_of : Text → F) (text_of : F → Text) where
    abbrev pub number_or_null : Option Text → Option F
    number_or_null none = none
    number_or_null (some t) = some (number_of t)

    abbrev pub is_stop_match : Text → F → Option F → Option F → StoredOrder → Bool
    is_stop_match tradingsymbol last high low row =
        text_eq row.tradingsymbol tradingsymbol
        && is_paper_order row
        && is_stop_type row.order_type
        && not (remaining_qty row == 0)
        && paper_stop_triggered (side_text row.side) (number_or_null row.stop_price) last high low

    -- `Number(null)` is zero.
    abbrev pub fill_price : F → StoredOrder → F
    fill_price last row =
        if d.is_finite last && d.lt (d.of_ℕ 0) last
        then last
        else or_else (number_or_null row.stop_price) (d.of_ℕ 0)

    abbrev pub stop_report : F → StoredOrder → KiteReport
    stop_report last row =
        record (paper_report row (codes "COMPLETE") row.requested_qty 0
          (some (text_of (fill_price last row)))) {
            trigger_price = row.stop_price;
            price = row.limit_price;
          }

    unfoldable pub match_paper_working_stops :
        Bool → Text → F → Option F → Option F → Desk → Desk × Result ℕ
    unfolding report_loop
    match_paper_working_stops works tradingsymbol last high low s =
        report_loop works (is_stop_match tradingsymbol last high low) (stop_report last)
          (λ row. paper_context row (paper_exit_reason row)) (get_open_orders s) 0 s
