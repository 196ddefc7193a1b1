-- ===== src/Examples/Orders.antt =====
-- A desk with a live order of 75 at the broker and a paper stop, and the orders it is asked for.
use cm_desk.Prelude.{◌≡◌, refl, Bool, true, false, none, some, [], ◌∷◌, arith}
use cm_desk.Prelude.Text.{codes, text_eq}
use cm_desk.Types.{buy, sell}
use cm_desk.Order.{submitted, accepted}
use cm_desk.Order.Lifecycle.{Reach}
use cm_desk.Ledger.{Store, find}
use cm_desk.Intake.{StoredOrder, Desk, order_by_id, order_by_key}
use cm_desk.Intake.Intent.{OrderIntent, RecordedIntent, key_of, record_order_intent}
use cm_desk.Intake.Intent.Ends.{record_order_intent-ends}
use cm_desk.Intake.Intent.Once.{is_spent, record_order_intent-once}
use cm_desk.Intake.Status.{SubmitReport, close_open_order_as_cancelled}
use cm_desk.Intake.Status.Refines.{submits, loses, closes, run_calls, run_calls-refines}
use cm_desk.Intake.Status.Close.{is_closable, IsClosed, close_open-closes}

abbrev pub live_order : StoredOrder
live_order = record {
  id = 0;
  job_id = none;
  decision_id = none;
  strategy = some (codes "CHASE");
  order_tag = some (codes "chase");
  purpose = codes "ENTRY";
  side = buy;
  order_type = some (codes "LIMIT");
  product = some (codes "NRML");
  exchange = codes "NFO";
  tradingsymbol = codes "NIFTY26JANFUT";
  instrument_token = some 256265;
  validity = codes "DAY";
  time_in_force = some (codes "DAY");
  requested_qty = 75;
  filled_qty = 0;
  remaining_qty = 75;
  limit_price = some (codes "100");
  stop_price = none;
  average_fill_price = none;
  status = submitted;
  broker_order_id = some (codes "B1");
  exchange_order_id = none;
  parent_broker_order_id = none;
  idempotency_key = codes "broker:B1";
  reject_reason = none;
  cancel_reason = none;
  error_info = none;
  broker_status = none;
  provenance = some (codes "LIVE");
  submitted_at = some 1_767_588_000_000;
  accepted_at = none;
  filled_at = none;
  cancelled_at = none;
  created_at = 1_767_588_000_000;
  updated_at = 1_767_588_000_000;
}

abbrev pub paper_stop : StoredOrder
paper_stop = record live_order {
  id = 1;
  purpose = codes "SL";
  side = sell;
  order_type = some (codes "SL-M");
  stop_price = some (codes "95");
  broker_order_id = none;
  idempotency_key = codes "paper:1";
  provenance = some (codes "PAPER");
}

abbrev pub empty_ledger : Store
empty_ledger = record {
  fills = [];
  positions = [];
  trades = [];
  events = [];
  next_fill = 0;
  next_position = 0;
  next_trade = 0;
}

abbrev pub desk : Desk
desk = record {
  ledger = empty_ledger;
  orders = live_order ∷ paper_stop ∷ [];
  order_events = [];
  next_order = 2;
}

abbrev asked : OrderIntent
asked = record {
  job_id = none;
  decision_id = none;
  strategy = none;
  order_tag = some (codes "chase");
  purpose = some (codes "ENTRY");
  side = buy;
  order_type = some (codes "LIMIT");
  product = some (codes "NRML");
  exchange = none;
  tradingsymbol = codes "NIFTY26JANFUT";
  instrument_token = none;
  validity = none;
  requested_qty = 75;
  limit_price = some (codes "101");
  stop_price = none;
  idempotency_key = some (codes "slice:1");
  provenance = some (codes "LIVE");
  slice = none;
}

record_order_intent-ends_example :
    (r : Desk × RecordedIntent) × (record_order_intent
        (λ t. none)
        5
        (codes "a" ∷ codes "b" ∷ [])
        asked
        desk
      ≡ some r)
record_order_intent-ends_example =
    record_order_intent-ends (λ t. none) 5 asked desk (codes "a" ∷ codes "b" ∷ []) (omega arith)

asked_fresh : is_spent (order_by_key (key_of asked) desk) ≡ false
unfolding find text_eq
asked_fresh = refl

record_order_intent-once_example :
    (r : Desk × RecordedIntent) × (record_order_intent (λ t. none) 5 [] asked desk ≡ some r)
    × (record_order_intent (λ t. none) 9 [] asked r.0 ≡ some (r.0, record r.1 { is_new = false }))
record_order_intent-once_example =
    record_order_intent-once (λ t. none) 5 asked [] [] desk 9 asked_fresh

live_found : order_by_id 0 desk ≡ some live_order
unfolding find
live_found = refl

abbrev at_exchange : SubmitReport
at_exchange = record {
  order_id = some 0;
  broker_order_id = some (codes "B1");
  exchange_order_id = some (codes "X1");
  error_info = none;
  status = some accepted;
  provenance = none;
}

run_calls-refines_example :
    (o' : StoredOrder) × (order_by_id 0 (
        run_calls
          (submits at_exchange 7 ∷ loses 0 none 8 ∷ closes 0 (codes "gone") none 9 ∷ [])
          desk)
      ≡ some o')
    × Reach submitted o'.status
run_calls-refines_example =
    run_calls-refines (submits at_exchange 7 ∷ loses 0 none 8 ∷ closes 0 (codes "gone") none 9 ∷ [])
      desk 0 live_order live_found

close_open-closes_example :
    (r : Desk × Bool) × (close_open_order_as_cancelled 0 (codes "gone") none 9 desk ≡ some r)
    × (r.1 ≡ is_closable (order_by_id 0 desk))
    × ((r.1 ≡ false) → r.0 ≡ desk)
    × ((row : StoredOrder)
        → order_by_id 0 desk ≡ some row
        → r.1 ≡ true
        → (after : StoredOrder) × (order_by_id 0 r.0 ≡ some after)
          × IsClosed 0 (codes "gone") none 9 desk row after)
close_open-closes_example = close_open-closes 0 (codes "gone") none 9 desk
