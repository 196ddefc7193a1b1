-- ===== src/Examples/Reports.antt =====
-- A report of the broker on the live order, a part of it filled, and the prices of the market.
use cm_desk.Prelude.{◌≡◌, refl, true, false, none, some, [], ◌∷◌}
use cm_desk.Prelude.Int.{pos, ◌-ℤ◌}
use cm_desk.Prelude.Text.{codes, text_eq, trim, to_upper, starts_with}
use cm_desk.Money.{ok}
use cm_desk.Money.Decimal.{money_from_string}
use cm_desk.Accounting.Rows.{money_from_unknown}
use cm_desk.Accounting.Mark.{incremental_fill_from_averages}
use cm_desk.Order.Kite.{
  map_kite_order_status, base_status, lookup, by_quantity, commit_broker_fill_progress,
}
use cm_desk.Types.{ledger_provenance, is_synthetic}
use cm_desk.Ledger.{find}
use cm_desk.Ledger.Rows.{Distinct, total}
use cm_desk.Intake.{Desk, order_by_id}
use cm_desk.Intake.Snapshot.{
  KiteReport, ReportContext, apply_broker_order_snapshot, snapshot_of, snapshot_row, save_part,
  book_part, finish, insert_fill, fill_of_report,
}
use cm_desk.Intake.Snapshot.Sound.{IsSound, snapshot-IsSound}
use cm_desk.Intake.Snapshot.Redelivery.{snapshot-redelivered}
use cm_desk.Paper.Execution.{is_paper_order, match_paper_working_stops, cancel_paper_working_orders}
use cm_desk.Paper.Execution.Frame.{paper-live_kept}
use cm_desk.Examples.Desk.{units_double}
use cm_desk.Examples.Orders.{live_order, desk}

abbrev pub partly_filled : KiteReport
partly_filled = record {
  order_id = some (codes "B1");
  exchange_order_id = some (codes "X1");
  parent_order_id = none;
  status = some (codes "OPEN");
  status_message = none;
  tradingsymbol = some (codes "NIFTY26JANFUT");
  exchange = some (codes "NFO");
  instrument_token = some 256265;
  transaction_type = some (codes "BUY");
  order_type = some (codes "LIMIT");
  product = some (codes "NRML");
  validity = some (codes "DAY");
  quantity = some 75;
  pending_quantity = some 50;
  filled_quantity = some 25;
  price = some (codes "100");
  trigger_price = none;
  average_price = some (codes "99.5");
  tag = some (codes "chase");
  order_timestamp = none;
  exchange_timestamp = some 1_767_588_300_000;
}

abbrev pub plain : ReportContext
plain = record {
  job_id = none;
  decision_id = none;
  purpose = none;
  provenance = some (codes "LIVE");
  exit_reason = none;
  internal_order_id = none;
}

pub desk-IsSound : IsSound desk.ledger
unfolding Distinct total
desk-IsSound = record {
  balanced = record { fill_ids = tt; position_ids = tt; new_id = tt; balance = refl };
  new_fill = tt;
}

snapshot-IsSound_example :
    IsSound (apply_broker_order_snapshot partly_filled plain 9 (λ t. none) [] true desk).0.ledger
snapshot-IsSound_example =
    snapshot-IsSound partly_filled plain 9 (λ t. none) [] true desk desk-IsSound

-- the same report on an order that the desk has not seen: it is recorded, and its fill booked
taken :
    (apply_broker_order_snapshot partly_filled plain 9 (λ t. none) [] true desk).1
    ≡ ok (record { order_id = some 0; fill_ids = 0 ∷ [] })
unfolding apply_broker_order_snapshot snapshot_of snapshot_row save_part book_part finish
    insert_fill find text_eq money_from_unknown money_from_string incremental_fill_from_averages
    map_kite_order_status base_status lookup by_quantity trim to_upper commit_broker_fill_progress
    fill_of_report starts_with ◌-ℤ◌
taken = refl

abbrev stops_at_90 : Desk
stops_at_90 =
    (match_paper_working_stops (λ t. none) [] 9 (λ t. pos 95) (λ x. codes "90") true
      (codes "NIFTY26JANFUT") (pos 90) none none desk).0

desk-Distinct : Distinct (λ x. x.id) desk.orders
unfolding Distinct
desk-Distinct = ((refl, tt), (tt, tt))

live_read : order_by_id 0 desk ≡ some live_order
unfolding find
live_read = refl

is_live : is_paper_order live_order ≡ false
unfolding ledger_provenance text_eq is_synthetic
is_live = refl

paper-live_kept_example :
    (order_by_id 0 stops_at_90 ≡ some live_order)
    × (order_by_id 0
          (cancel_paper_working_orders
            (λ t. none)
            []
            9
            true
            (codes "NIFTY26JANFUT")
            (some (codes "SELL"))
            none
            desk).0
        ≡ some live_order)
paper-live_kept_example =
    paper-live_kept (λ t. none) [] 9 true (λ t. pos 95) (λ x. codes "90") (codes "NIFTY26JANFUT")
      (pos 90) none none (some (codes "SELL")) none desk 0 live_order desk-Distinct live_read
      is_live

snapshot-redelivered_example :
    let s' = (apply_broker_order_snapshot partly_filled plain 9 (λ t. none) [] true desk).0 in
    (apply_broker_order_snapshot partly_filled plain 12 (λ t. none) [] false s').0.ledger
    ≡ s'.ledger
snapshot-redelivered_example =
    snapshot-redelivered partly_filled plain (codes "B1") refl refl 9 12 (λ t. none) (λ t. none) []
      [] false desk (record { order_id = some 0; fill_ids = 0 ∷ [] }) 0 taken refl
