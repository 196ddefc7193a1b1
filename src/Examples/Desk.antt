-- ===== src/Examples/Desk.antt =====
-- Orders, limits and books at concrete figures. A JavaScript number is a whole number here.
use cm_desk.Prelude.{
  ◌+◌, ◌*◌, ◌/◌, ◌≡◌, ◌↔◌, refl, true, false, not, ◌&&◌, ◌||◌, none, some, if◌then◌else◌,
}
use cm_desk.Prelude.Int.{ℤ, pos, negsuc, pos_part, neg_part, abs, sub_ℕ, ltb_ℤ, eqb_ℤ}
use cm_desk.Prelude.Text.{codes}
use cm_desk.Prelude.Double.{Double}
use cm_desk.Types.{buy}
use cm_desk.Risk.Settings.{RiskSettings, default_risk_settings, default_strategy_limits, live_mode}
use cm_desk.Risk.Role.{entry, sl}
use cm_desk.Risk.Evaluate.{
  RiskIntent, RiskContext, accepted as passed, evaluate_order, bad_qty, strategy_off, refuse_if,
  invalid_qty, strategy_disabled, max_qty,
}
use cm_desk.Risk.Evaluate.Entries.{IsAdmissible, evaluate-entry_iff}
use cm_desk.Risk.Evaluate.Exits.{evaluate-exit}

-- the whole part of a quotient, and 0 over 0
abbrev whole_quotient : ℤ → ℤ → ℤ
whole_quotient a b =
    if eqb_ℤ b (pos 0)
    then pos 0
    else if ltb_ℤ a (pos 0) && ltb_ℤ (pos 0) b || ltb_ℤ (pos 0) a && ltb_ℤ b (pos 0)
    then sub_ℕ 0 (abs a / abs b)
    else pos (abs a / abs b)

instance abbrev pub units_double : Double ℤ
units_double = record {
  of_ℕ = pos;
  lt = ltb_ℤ;
  le = λ a b. not (ltb_ℤ b a);
  is_integer = λ a. true;
  is_finite = λ a. true;
  is_truthy = λ a. not (eqb_ℤ a (pos 0));
  sub = λ a b. sub_ℕ (pos_part a + neg_part b) (neg_part a + pos_part b);
  mul = λ a b. elim a [
    | pos n ↦ elim b [ pos m ↦ pos (n * m) | negsuc m ↦ sub_ℕ 0 (n * (m + 1)) ]
    | negsuc n ↦ elim b [ pos m ↦ sub_ℕ 0 ((n + 1) * m) | negsuc m ↦ pos ((n + 1) * (m + 1)) ]
  ];
  div = whole_quotient;
}

-- the desk's defaults with live orders allowed and Chase switched to live
abbrev pub live_desk : RiskSettings ℤ
live_desk = record default_risk_settings {
  allow_live_orders = true;
  strategies = λ key. record default_strategy_limits { execution_mode = live_mode };
}

abbrev entry_intent : RiskIntent ℤ
entry_intent = record {
  role = entry;
  tradingsymbol = codes "NIFTY26JANFUT";
  quantity = pos 75;
  side = buy;
  tag = some (codes "chase");
  price = none;
  trigger_price = none;
  ltp = some (pos 25_000);
  ltp_at = some (pos 1_700_000_000_000);
  strategy = some (codes "CHASE");
  lots = some (pos 1);
  lot_size = some (pos 75);
}

abbrev quiet_desk : RiskContext ℤ
quiet_desk = record {
  settings = live_desk;
  now = pos 1_700_000_005_000;
  is_mock = false;
  is_paper = false;
  market_open = true;
  job_aborted = false;
  open_position_count = pos 0;
  open_order_count = pos 1;
  recent_order_count = pos 2;
  pending_duplicate = false;
}

evaluate-entry_iff_example :
    (evaluate_order entry_intent quiet_desk ≡ passed) ↔ IsAdmissible entry_intent quiet_desk
evaluate-entry_iff_example = evaluate-entry_iff entry_intent quiet_desk refl

-- a desk that is halted, and closed, with a stop to place
abbrev stop_intent : RiskIntent ℤ
stop_intent = record entry_intent { role = sl }

abbrev halted_desk : RiskContext ℤ
halted_desk = record quiet_desk {
  settings = record live_desk { desk_halted = true; trading_enabled = false };
  market_open = false;
}

evaluate-exit_example :
    evaluate_order stop_intent halted_desk
    ≡ refuse_if (bad_qty stop_intent halted_desk) invalid_qty (
        refuse_if
          (strategy_off stop_intent halted_desk)
          strategy_disabled
          (refuse_if (ltb_ℤ (pos 1800) (pos 75)) max_qty passed))
evaluate-exit_example = evaluate-exit stop_intent halted_desk refl
