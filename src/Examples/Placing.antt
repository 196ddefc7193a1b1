-- ===== src/Examples/Placing.antt =====
-- A live entry of Chase on a desk without orders, sent to a broker whose acknowledgement is lost.
use cm_desk.Prelude.{◌≡◌, inr, refl, true, false, ◌||◌, none, some, is_some, [], arith}
use cm_desk.Prelude.Int.{ℤ, pos}
use cm_desk.Prelude.Text.{Text, codes, text_eq, to_upper}
use cm_desk.Risk.Settings.{is_paper_strategy, strategy_key, limits_for}
use cm_desk.Risk.Role.{is_entry, infer_order_role, lots_for_risk_check}
use cm_desk.Risk.Evaluate.{evaluate_order, bad_price, stale_price, size_checks}
use cm_desk.Risk.Gate.{allowed, assert_order_allowed}
use cm_desk.Ledger.{find}
use cm_desk.Intake.{Desk, order_by_key}
use cm_desk.Intake.Intent.{key_of, insert_order, record_with_key, record_order_intent}
use cm_desk.Placement.{is_ambiguous_broker_error, raised, decide_broker_place}
use cm_desk.Placement.Send.{
  RiskAwareOrder, Answers, answers, fails, is_paper_execution, place_role, gate_order, place_intent,
  safe_record_order, place_decision,
}
use cm_desk.Placement.Place.{act, place_recorded, after_gate, place_order}
use cm_desk.Placement.Place.Doubt.{is_doubtful}
use cm_desk.Placement.Place.Guards.{place_order-guarded}
use cm_desk.Placement.Place.Repeat.{place_order-once}
use cm_desk.Examples.Desk.{units_double, live_desk}
use cm_desk.Examples.Gating.{gate_rows}
use cm_desk.Examples.Orders.{empty_ledger}

abbrev pub number_text : ℤ → Text
number_text x = codes "25000"

abbrev pub chase_entry : RiskAwareOrder ℤ
chase_entry = record {
  tradingsymbol = some (codes "NIFTY26JANFUT");
  exchange = some (codes "NFO");
  transaction_type = some (codes "BUY");
  order_type = some (codes "MARKET");
  product = some (codes "NRML");
  quantity = some 75;
  price = none;
  trigger_price = none;
  tag = some (codes "chase");
  validity = none;
  purpose = some (codes "ENTRY");
  strategy = some (codes "CHASE");
  ltp = some (pos 25_000);
  lots = some (pos 1);
  intent_slice = none;
}

abbrev pub lost : Answers ℤ
lost = record {
  settings = live_desk;
  rows = gate_rows;
  kite_ltp = none;
  book = none;
  answer = fails (raised (some (codes "NetworkException")) none (some (codes "timeout")));
  job_by_tag = λ t. none;
  uuids = [];
  works = true;
  now = 1_700_000_005_000;
}

abbrev pub new_desk : Desk
new_desk = record { ledger = empty_ledger; orders = []; order_events = []; next_order = 0 }

entry_sent : (place_order number_text chase_entry lost new_desk).is_sent ≡ true
unfolding place_order after_gate place_recorded act safe_record_order place_decision
    decide_broker_place record_order_intent record_with_key insert_order find assert_order_allowed
    infer_order_role limits_for is_paper_strategy evaluate_order bad_price stale_price size_checks
    lots_for_risk_check text_eq strategy_key to_upper
entry_sent = refl

key_new : order_by_key (key_of (place_intent number_text chase_entry lost)) new_desk ≡ none
unfolding find
key_new = refl

-- thirty seconds later, the broker's book at hand and without the order
abbrev retried : Answers ℤ
retried = record lost {
  book = some [];
  answer = answers (some (codes "B2"));
  now = 1_700_000_035_000;
}

loss_doubtful : is_doubtful lost.answer ≡ true
unfolding is_ambiguous_broker_error text_eq
loss_doubtful = refl

place_order-once_example :
    (place_order number_text chase_entry retried
      (place_order number_text chase_entry lost new_desk).desk).is_sent
    ≡ false
place_order-once_example =
    place_order-once number_text chase_entry lost retried new_desk tt key_new entry_sent
      (inr (loss_doubtful, omega arith))

place_order-guarded_example :
    (assert_order_allowed (gate_order number_text chase_entry lost) gate_rows ≡ allowed)
    × (is_some (safe_record_order number_text chase_entry lost new_desk) ≡ true)
    × (is_paper_execution number_text chase_entry lost ≡ false)
    × (is_entry (place_role number_text chase_entry) || gate_rows.market_open ≡ true)
place_order-guarded_example = place_order-guarded number_text chase_entry lost new_desk entry_sent
