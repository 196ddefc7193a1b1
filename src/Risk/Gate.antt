-- ===== src/Risk/Gate.antt =====
-- lib/trading/riskGate.ts: `assertOrderAllowed` and `assertLiveBrokerMutation`. What the database, the
-- clock and the process answer is a record of rows; the throw of a rejection is a value.
pub mod Books
pub mod Live
use cm_desk.Prelude.{
  ℕ, ◌+◌, Bool, true, false, not, ◌&&◌, ◌||◌, Option, none, some, or_else, List, [], ◌∷◌, length,
  filter, take, ltb, if◌then◌else◌,
}
use cm_desk.Prelude.Text.{Text, codes, text_eq, opt_text_eq, truthy}
use cm_desk.Prelude.Double.{Double}
use cm_desk.Types.{Side, buy, sell, is_synthetic_provenance}
use cm_desk.Risk.Settings.{RiskSettings, is_paper_strategy}
use cm_desk.Risk.Role.{OrderRole, is_entry, infer_order_role, lots_for_risk_check}
use cm_desk.Risk.Exit.{live_flatten_session_block}
use cm_desk.Risk.Evaluate.{
  RiskCode, RiskDecision, accepted, refused, RiskIntent, RiskContext, evaluate_order,
}

pub data GateCode : Type 0 where
  invalid_intent risk_unavailable paper_book_refused session_closed : GateCode
  by_engine : RiskCode → GateCode

pub data Verdict : Type 0 where
  allowed : Verdict
  rejected : GateCode → Verdict

pub record GateOrder {ℓ} (F : Type ℓ) : Type ℓ where
  pub tradingsymbol : Option Text
  pub transaction_type : Option Text
  pub order_type : Option Text
  pub quantity : Option F
  pub price : Option F
  pub trigger_price : Option F
  pub tag : Option Text
  pub purpose : Option Text
  pub role : Option OrderRole
  pub strategy : Option Text
  pub lots : Option F
  pub ltp : Option F
  pub ltp_at : Option F

pub record GateJob {ℓ} (F : Type ℓ) : Type ℓ where
  pub user_override : Option Text
  pub lots : Option F
  pub strategy : Option Text
  pub instrument : Option Text

-- a group of recent orders: its provenance and how many there are
pub record RecentOrders : Type 0 where
  pub provenance : Option Text
  pub n : ℕ

-- What the queries return for the order. `settings` and a count are `none` where the code catches a
-- failure; the rows of open orders and of duplicates are their provenances. `duplicates` has every like order
-- that is pending, in the order of the answer, of which the query takes five.
pub record GateRows {ℓ} (F : Type ℓ) : Type ℓ where
  pub settings : Option (RiskSettings F)
  pub now : F
  pub is_mock : Bool
  pub market_open : Bool
  pub open_orders : List (Option Text)
  pub recent : List RecentOrders
  pub duplicates : List (Option Text)
  pub job : Option (GateJob F)
  pub lot_size_for_instrument : Text → F
  pub count_open_positions : Text → Bool → Option F

-- `sameBook`
abbrev pub same_book : Bool → Option Text → Bool
same_book paper provenance =
    if paper then is_synthetic_provenance provenance else not (is_synthetic_provenance provenance)

-- the sum of the counts of a book
abbrev pub recent_count : Bool → List RecentOrders → ℕ
recent_count paper [] = 0
recent_count paper (r ∷ rows) =
    if same_book paper r.provenance then r.n + recent_count paper rows else recent_count paper rows

abbrev pub verdict : RiskDecision → Verdict
verdict accepted = allowed
verdict (refused code) = rejected (by_engine code)

module _ {ℓ} {F : Type ℓ} ⦃d : Double F⦄ where
  -- `!value` on a number that may be missing
  abbrev pub number_truthy : Option F → Bool
  number_truthy none = false
  number_truthy (some q) = d.is_truthy q

  abbrev pub is_complete : GateOrder F → Bool
  is_complete input =
      truthy input.tradingsymbol && number_truthy input.quantity && truthy input.transaction_type

  abbrev pub gate_role : GateOrder F → OrderRole
  gate_role input = or_else input.role (infer_order_role input.purpose input.order_type)

  -- The row of the job is looked up by the tag of the order.
  abbrev pub gate_job : GateOrder F → GateRows F → Option (GateJob F)
  gate_job input rows = if truthy input.tag then rows.job else none

  abbrev pub job_lots : Option (GateJob F) → Option F
  job_lots none = none
  job_lots (some job) = job.lots

  -- The lot size of the job's instrument, where it is positive.
  abbrev pub job_lot_size : Option (GateJob F) → (Text → F) → Option F
  job_lot_size none size = none
  job_lot_size (some job) size =
      if not (truthy job.instrument)
      then none
      else let lot_size = size (or_else job.instrument []) in
        if d.lt (d.of_ℕ 0) lot_size then some lot_size else none

  abbrev pub job_strategy : Option (GateJob F) → Option Text
  job_strategy none = none
  job_strategy (some job) = job.strategy

  -- the caller's strategy, else the job's, else Chase by the tag
  abbrev pub gate_strategy : GateOrder F → GateRows F → Option Text
  gate_strategy input rows =
      let by_job = job_strategy (gate_job input rows) in
      let named = if not (truthy input.strategy) && truthy by_job then by_job else input.strategy in
      if not (truthy named) && opt_text_eq input.tag (some (codes "chase"))
      then some (codes "CHASE")
      else named

  abbrev pub gate_intent : GateOrder F → GateRows F → F → RiskIntent F
  gate_intent input rows quantity = record {
    role = gate_role input;
    tradingsymbol = or_else input.tradingsymbol [];
    quantity = quantity;
    side = if opt_text_eq input.transaction_type (some (codes "SELL")) then sell else buy;
    tag = input.tag;
    price = input.price;
    trigger_price = input.trigger_price;
    ltp = input.ltp;
    ltp_at = input.ltp_at;
    strategy = gate_strategy input rows;
    lots = lots_for_risk_check input.lots (job_lots (gate_job input rows));
    lot_size = job_lot_size (gate_job input rows) rows.lot_size_for_instrument;
  }

  abbrev pub is_aborted : Option (GateJob F) → Bool
  is_aborted none = false
  is_aborted (some job) = opt_text_eq job.user_override (some (codes "ABORT"))

  -- A count that fails is 0.
  abbrev pub position_count : Option Text → Bool → GateRows F → F
  position_count strategy paper rows =
      if truthy strategy
      then or_else (rows.count_open_positions (or_else strategy []) paper) (d.of_ℕ 0)
      else d.of_ℕ 0

  abbrev pub gate_context : GateOrder F → GateRows F → RiskSettings F → RiskContext F
  gate_context input rows settings =
      let strategy = gate_strategy input rows in
      let paper = is_paper_strategy settings strategy in
      let job = gate_job input rows in
      let duplicates =
        if truthy input.tag then filter (same_book paper) (take 5 rows.duplicates) else [] in
      record {
        settings = settings;
        now = rows.now;
        is_mock = rows.is_mock;
        is_paper = paper;
        market_open = rows.market_open;
        job_aborted = is_aborted job;
        open_position_count = position_count strategy paper rows;
        open_order_count = d.of_ℕ (length (filter (same_book paper) rows.open_orders));
        recent_order_count = d.of_ℕ (recent_count paper rows.recent);
        pending_duplicate = ltb 0 (length duplicates) && is_entry (gate_role input);
      }

  decide_with : GateOrder F → GateRows F → Option F → Option (RiskSettings F) → Verdict
  decide_with input rows (some quantity) (some settings) =
      verdict (evaluate_order (gate_intent input rows quantity) (gate_context input rows settings))
  decide_with input rows none settings = rejected invalid_intent
  decide_with input rows (some quantity) none = rejected risk_unavailable

  unfoldable pub assert_order_allowed : GateOrder F → GateRows F → Verdict
  unfolding decide_with
  assert_order_allowed input rows =
      if not (is_complete input)
      then rejected invalid_intent
      else decide_with input rows input.quantity rows.settings

  -- A live modify or cancel of a broker order. `order` carries the role, and the purpose of that name.
  unfoldable pub assert_live_broker_mutation : Bool → GateOrder F → GateRows F → Verdict
  unfolding live_flatten_session_block
  assert_live_broker_mutation paper_book order rows =
      if paper_book
      then rejected paper_book_refused
      else if live_flatten_session_block false rows.market_open
      then rejected session_closed
      else assert_order_allowed order rows
