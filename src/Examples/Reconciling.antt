-- ===== src/Examples/Reconciling.antt =====
-- A reconciliation against a broker that holds 75 of a contract of which the ledger has 50.
use cm_desk.Prelude.{◌+◌, ◌≡◌, refl, true, false, not, none, some, List, [], ◌∷◌, length}
use cm_desk.Prelude.Int.{pos, eqb_ℤ, ◌+ℤ◌}
use cm_desk.Prelude.Text.{codes, text_eq, trim}
use cm_desk.Paper.Match.{strategy_key, match_position_for_fill}
use cm_desk.Accounting.Fill.{empty_position, apply_fill_to_position, dispatch_fill}
use cm_desk.Types.{is_synthetic_provenance}
use cm_desk.Ledger.{StoredPosition}
use cm_desk.Ledger.Rows.{total}
use cm_desk.Ledger.Pending.{apply_unapplied_fills}
use cm_desk.Types.{buy}
use cm_desk.Ledger.{find}
use cm_desk.Ledger.Apply.{apply_fill_by_id}
use cm_desk.Intake.Intent.{record_order_intent, record_with_key, insert_order}
use cm_desk.Intake.Snapshot.{insert_fill}
use cm_desk.Intake.Attributed.{
  AttributedFill, attributed_intent, attributed_fill, apply_saved, attributed_after,
  record_attributed_fill,
}
use cm_desk.Intake.Attributed.Once.{record_attributed-once}
use cm_desk.Intake.{get_open_orders}
use cm_desk.Intake.Status.Refines.{loses}
use cm_desk.Intake.Snapshot.Sound.{IsSound}
use cm_desk.Reconcile.Backfill.{Transaction, Imports, migrated_order, backfill_from_transactions}
use cm_desk.Reconcile.Backfill.Twice.{Twice}
use cm_desk.Intake.{Desk}
use cm_desk.Reconcile.Positions.{
  BrokerPosition, broker_key, aggregate, held_get, held_set, compare_position,
}
use cm_desk.Reconcile.Positions.Totals.{reports_qty, live_qty, positions-compared}
use cm_desk.Reconcile.Sync.{
  Recon, BrokerSnapshot, each, reconcile_orders, reconcile_positions, reconcile_stages,
  reconcile_with_broker,
}
use cm_desk.Reconcile.Sync.Counts.{reconcile-counted}
use cm_desk.Session.{places, reports, reconciles, moves, matches, run_session, run_session-IsSound}
use cm_desk.Examples.Desk.{units_double}
use cm_desk.Examples.Booking.{held_position}
use cm_desk.Examples.Orders.{empty_ledger, desk}
use cm_desk.Examples.Placing.{number_text, chase_entry, lost, new_desk}
use cm_desk.Examples.Reports.{partly_filled, plain, desk-IsSound}

abbrev rows : List StoredPosition
rows = held_position ∷ record held_position { id = 1; provenance = some (codes "PAPER") } ∷ []

abbrev at_broker : BrokerPosition
at_broker = record {
  exchange = codes "NFO";
  tradingsymbol = codes "NIFTY26JANFUT";
  product = codes "NRML";
  quantity = pos 75;
  average_price = none;
}

positions-compared_example :
    reports_qty (compare_position (aggregate rows []) at_broker)
    ≡ not (eqb_ℤ (total (live_qty (broker_key at_broker)) rows) (pos 75))
positions-compared_example = positions-compared rows at_broker

-- the desk with the held position, none of its orders at the broker
abbrev unmatched : Recon
unmatched = record {
  desk = record new_desk { ledger = record empty_ledger { positions = rows } };
  events = [];
}

abbrev broker : BrokerSnapshot
broker = record { orders = some []; positions = some (at_broker ∷ []) }

-- an old trade that the ledger does not have
abbrev old_trade : Transaction
old_trade = record {
  order_id = some (codes "B77");
  tag = some (codes "old");
  transaction_type = some (codes "BUY");
  order_type = some (codes "MARKET");
  product = some (codes "NRML");
  exchange = none;
  tradingsymbol = some (codes "BANKNIFTY26JANFUT");
  instrument_token = none;
  quantity = some 15;
  average_price = some (codes "100");
  order_timestamp = some 3;
  created_at = some 3;
}

abbrev imports : Imports
imports = record { transactions = old_trade ∷ []; orders_work = true; fills_work = true }

abbrev nothing_old : Imports
nothing_old = record imports { transactions = [] }

one_mismatch :
    (reconcile_with_broker
      (λ t. none)
      (λ report. [])
      false
      9
      5
      nothing_old
      false
      (some broker)
      unmatched).1
    ≡ some 1
unfolding reconcile_with_broker reconcile_stages reconcile_orders reconcile_positions each aggregate
    held_get held_set compare_position get_open_orders apply_unapplied_fills is_synthetic_provenance
    text_eq ◌+ℤ◌ backfill_from_transactions
one_mismatch = refl

reconcile-counted_example :
    length
      (reconcile_with_broker
        (λ t. none)
        (λ report. [])
        false
        9
        5
        nothing_old
        false
        (some broker)
        unmatched).0.events
    ≡ length unmatched.events + 1
reconcile-counted_example =
    reconcile-counted (λ t. none) (λ report. []) false 9 5 nothing_old false (some broker) unmatched
      1 one_mismatch

abbrev at_open : Recon
at_open = record { desk = desk; events = [] }

run_session-IsSound_example :
    IsSound
      (run_session
        (λ t. pos 95)
        number_text
        (λ t. none)
        (places chase_entry lost
          ∷ reports partly_filled plain 9 [] true
          ∷ matches (codes "NIFTY26JANFUT") (pos 90) none none 10 true
          ∷ reconciles imports false (some broker) (λ report. []) false 11 5
          ∷ moves (loses 0 none 12)
          ∷ [])
        at_open).desk.ledger
run_session-IsSound_example =
    run_session-IsSound (λ t. pos 95) number_text (λ t. none)
      (places chase_entry lost
        ∷ reports partly_filled plain 9 [] true
        ∷ matches (codes "NIFTY26JANFUT") (pos 90) none none 10 true
        ∷ reconciles imports false (some broker) (λ report. []) false 11 5
        ∷ moves (loses 0 none 12)
        ∷ [])
      at_open desk-IsSound

abbrev accepted_trade : AttributedFill
accepted_trade = record {
  strategy = codes "CHASE";
  exchange = codes "NFO";
  tradingsymbol = codes "NIFTY26JANFUT";
  product = codes "NRML";
  side = buy;
  quantity = 25;
  price_text = codes "100";
  price = pos 1_000_000;
  occurred_at = 8;
  fingerprint = codes "T1";
  broker_trade_id = some (codes "9001");
}

trade_booked : (record_attributed_fill (λ t. none) 9 [] true accepted_trade new_desk).1 ≡ true
unfolding record_attributed_fill attributed_after apply_saved attributed_fill attributed_intent
    record_order_intent record_with_key insert_order insert_fill apply_fill_by_id find
    match_position_for_fill strategy_key trim apply_fill_to_position dispatch_fill empty_position
trade_booked = refl

record_attributed-once_example :
    let s' = (record_attributed_fill (λ t. none) 9 [] true accepted_trade new_desk).0 in
    ((record_attributed_fill (λ t. none) 12 [] true accepted_trade s').1 ≡ false)
    × ((record_attributed_fill (λ t. none) 12 [] true accepted_trade s').0.ledger ≡ s'.ledger)
record_attributed-once_example =
    record_attributed-once (λ t. none) (λ t. none) 9 12 [] [] true true accepted_trade new_desk
      trade_booked

abbrev copied_desk : Desk
copied_desk = record unmatched.desk {
  orders = migrated_order (λ t. none) 9 unmatched.desk.next_order old_trade ∷ [];
  next_order = 1;
}
