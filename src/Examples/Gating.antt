-- ===== src/Examples/Gating.antt =====
-- The gate at concrete orders and rows.
use cm_desk.Prelude.{◌≡◌, ◌⊎◌, refl, true, false, none, some, [], ◌∷◌, filter, take}
use cm_desk.Prelude.Int.{ℤ, pos}
use cm_desk.Prelude.Text.{codes, truthy, text_eq, to_upper}
use cm_desk.Types.{is_synthetic_provenance}
use cm_desk.Risk.Settings.{is_paper_strategy, strategy_key, limits_for, execution_provenance}
use cm_desk.Risk.Role.{infer_order_role, lots_for_risk_check}
use cm_desk.Risk.Evaluate.{evaluate_order, bad_price, stale_price, size_checks}
use cm_desk.Risk.Gate.{GateOrder, GateRows, allowed, gate_strategy, same_book, assert_order_allowed}
use cm_desk.Risk.Gate.Live.{order_allowed-live_entry}
use cm_desk.Examples.Desk.{units_double, live_desk}

abbrev gate_order : GateOrder ℤ
gate_order = record {
  tradingsymbol = some (codes "NIFTY26JANFUT");
  transaction_type = some (codes "BUY");
  order_type = some (codes "MARKET");
  quantity = some (pos 75);
  price = none;
  trigger_price = none;
  tag = some (codes "chase");
  purpose = some (codes "ENTRY");
  role = none;
  strategy = none;
  lots = some (pos 1);
  ltp = none;
  ltp_at = none;
}

abbrev pub gate_rows : GateRows ℤ
gate_rows = record {
  settings = some live_desk;
  now = pos 1_700_000_005_000;
  is_mock = false;
  market_open = true;
  open_orders = [];
  recent = [];
  duplicates = [];
  job = none;
  lot_size_for_instrument = λ name. pos 75;
  count_open_positions = λ strategy paper. some (pos 0);
}

-- with a like order of the paper book at work
abbrev paper_beside : GateRows ℤ
paper_beside = record gate_rows { duplicates = some (codes "PAPER") ∷ [] }

gate_passes : assert_order_allowed gate_order paper_beside ≡ allowed
unfolding assert_order_allowed infer_order_role limits_for is_paper_strategy evaluate_order
    bad_price stale_price size_checks lots_for_risk_check text_eq strategy_key to_upper
    is_synthetic_provenance
gate_passes = refl

order_allowed-live_entry_example :
    (live_desk.allow_live_orders ≡ true)
    × (live_desk.desk_halted ≡ false)
    × (live_desk.trading_enabled ≡ true)
    × ((limits_for live_desk (gate_strategy gate_order paper_beside)).halted ≡ false)
    × ((live_desk.require_market_hours ≡ false) ⊎ (paper_beside.market_open ≡ true))
    × ((truthy gate_order.tag ≡ true)
        → filter (same_book false) (take 5 paper_beside.duplicates) ≡ [])
unfolding infer_order_role execution_provenance is_paper_strategy limits_for text_eq strategy_key
    to_upper
order_allowed-live_entry_example =
    order_allowed-live_entry gate_order paper_beside live_desk refl refl refl gate_passes
