-- ===== src/Risk/Exit.antt =====
-- lib/trading/exitSafety.ts and lib/flattenNotice.ts: which book a square-off runs on, and what it may
-- touch at the broker.
use cm_desk.Prelude.{
  ◌≡◌, Bool, true, false, not, ◌&&◌, ◌||◌, Option, none, some, [], arith, or_else, is_some,
  if◌then◌else◌, ◌==◌,
}
use cm_desk.Prelude.Int.{ℤ, abs}
use cm_desk.Prelude.Text.{Text, codes, text_eq, opt_text_eq, truthy, is_empty, trim, to_lower}
use cm_desk.Prelude.Double.{Double}
use cm_desk.Types.{live}
use cm_desk.Risk.Settings.{RiskSettings, is_paper_strategy, execution_provenance}

pub data SquareOffBook : Type 0 where
  on_paper on_live : SquareOffBook
  refuse_book : SquareOffBook

-- `liveFlattenSessionBlock`: true where the code returns the notice that the market is closed.
unfoldable pub live_flatten_session_block : Bool → Bool → Bool
live_flatten_session_block paper_book market_open = not (paper_book || market_open)

module _ {ℓ} {F : Type ℓ} ⦃d : Double F⦄ where
  unfoldable pub resolve_square_off_book : Bool → Option Text → RiskSettings F → SquareOffBook
  resolve_square_off_book process_mock strategy_text settings =
      let strategy = trim (or_else strategy_text []) in
      if process_mock
      then on_paper
      else if is_empty strategy
      then refuse_book
      else if is_paper_strategy settings (some strategy)
      then on_paper
      else on_live

  -- A square-off with a named strategy runs on the book that the strategy's orders are written to, live
  -- for live and paper for paper or mock; without a name it is refused, unless the process is a mock.
  pub square_off-book :
      (process_mock : Bool) (strategy : Option Text) (settings : RiskSettings F)
      → let name = trim (or_else strategy []) in
        resolve_square_off_book process_mock strategy settings ≡ (
          if not process_mock && is_empty name
          then refuse_book
          else elim (execution_provenance process_mock settings (some name)) [
            | live ↦ on_live
            | _ ↦ on_paper
          ])
  unfolding resolve_square_off_book execution_provenance
  square_off-book process_mock strategy settings = ground arith

pub record TaggedOrder : Type 0 where
  pub tag : Option Text
  pub product : Option Text
  pub exchange : Option Text
  pub tradingsymbol : Option Text
  pub quantity : ℤ

unfoldable pub protective_order_matches_job : TaggedOrder → TaggedOrder → Bool
protective_order_matches_job job_order open_order =
    if not (truthy job_order.tag) || not (opt_text_eq open_order.tag job_order.tag)
    then false
    else opt_text_eq open_order.product job_order.product
      && opt_text_eq open_order.exchange job_order.exchange
      && opt_text_eq open_order.tradingsymbol job_order.tradingsymbol
      && abs open_order.quantity == abs job_order.quantity

unfoldable pub chase_may_touch_broker_stop : Option Text → Bool
chase_may_touch_broker_stop tag =
    let value = to_lower (trim (or_else tag [])) in
    text_eq value [] || text_eq value (codes "chase")

pub data Flattening : Type 0 where
  flatten_paper flatten_live skip_flatten : Flattening

-- `reason` is what the skip says: that Chase is disabled, or that the market is closed.
pub data RolloverReason : Type 0 where
  chase_disabled live_market_closed : RolloverReason

pub record ChaseRolloverGate : Type 0 where
  pub flattening : Flattening
  pub touch_kite : Bool
  pub reason : Option RolloverReason

unfoldable pub plan_chase_rollover : Bool → Bool → Bool → ChaseRolloverGate
plan_chase_rollover paper_book market_open strategy_enabled =
    if not strategy_enabled
    then record { flattening = skip_flatten; touch_kite = false; reason = some chase_disabled }
    else if paper_book
    then record { flattening = flatten_paper; touch_kite = false; reason = none }
    else if not market_open
    then record { flattening = skip_flatten; touch_kite = false; reason = some live_market_closed }
    else record { flattening = flatten_live; touch_kite = true; reason = none }

abbrev pub is_live_flatten : Flattening → Bool
is_live_flatten flatten_live = true
is_live_flatten _ = false

abbrev pub is_skip : Flattening → Bool
is_skip skip_flatten = true
is_skip _ = false

-- A rollover touches Kite only to flatten a live book of an enabled strategy in an open session, and it
-- gives a reason exactly when it skips.
pub rollover-safe :
    (paper_book market_open strategy_enabled : Bool)
    → let gate = plan_chase_rollover paper_book market_open strategy_enabled in
      (gate.touch_kite ≡ (strategy_enabled && not paper_book && market_open))
      × (gate.touch_kite ≡ is_live_flatten gate.flattening)
      × (is_some gate.reason ≡ is_skip gate.flattening)
unfolding plan_chase_rollover
rollover-safe paper_book market_open strategy_enabled = ground arith
