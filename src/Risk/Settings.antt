-- ===== src/Risk/Settings.antt =====
-- lib/trading/riskEngine.ts: the desk's settings, the limits of one strategy, and the book that an order
-- of it is written to. `F` is the type of JavaScript numbers.
use cm_desk.Prelude.{Bool, true, false, not, Option, none, some, if◌then◌else◌}
use cm_desk.Prelude.Text.{Text, codes, text_eq}
use cm_desk.Prelude.Double.{Double}
use cm_desk.Types.{Provenance, live, mock, paper}

pub data RiskStrategyKey : Type 0 where
  atm_straddle atm_strangle chase momentum daily_trend : RiskStrategyKey

pub data ExecutionMode : Type 0 where
  paper_mode live_mode : ExecutionMode

pub record StrategyRiskLimits {ℓ} (F : Type ℓ) : Type ℓ where
  pub enabled : Bool
  pub halted : Bool
  pub halt_reason : Option Text
  pub execution_mode : ExecutionMode
  pub max_lots : F
  pub max_open_positions : F

pub record RiskSettings {ℓ} (F : Type ℓ) : Type ℓ where
  pub trading_enabled : Bool
  pub desk_halted : Bool
  pub halt_reason : Option Text
  pub allow_live_orders : Bool
  pub max_qty_per_order : F
  pub max_notional_inr : F
  pub max_open_orders : F
  pub max_orders_per_minute : F
  pub stale_price_max_age_sec : F
  pub require_market_hours : Bool
  pub min_ltp : F
  pub strategies : RiskStrategyKey → StrategyRiskLimits F

-- The key that a strategy's name is in the record of strategies.
unfoldable pub strategy_key : Text → Option RiskStrategyKey
strategy_key name =
    if text_eq name (codes "ATM_STRADDLE")
    then some atm_straddle
    else if text_eq name (codes "ATM_STRANGLE")
    then some atm_strangle
    else if text_eq name (codes "CHASE")
    then some chase
    else if text_eq name (codes "MOMENTUM")
    then some momentum
    else if text_eq name (codes "DAILY_TREND")
    then some daily_trend
    else none

abbrev pub is_live_mode : ExecutionMode → Bool
is_live_mode live_mode = true
is_live_mode paper_mode = false

module _ {ℓ} {F : Type ℓ} ⦃d : Double F⦄ where
  abbrev pub default_strategy_limits : StrategyRiskLimits F
  default_strategy_limits = record {
    enabled = true;
    halted = false;
    halt_reason = none;
    execution_mode = paper_mode;
    max_lots = d.of_ℕ 20;
    max_open_positions = d.of_ℕ 12;
  }

  -- `defaultStrategyLimits()`
  abbrev pub default_limits_of : RiskStrategyKey → StrategyRiskLimits F
  default_limits_of momentum = record default_strategy_limits {
    enabled = false;
    max_lots = d.of_ℕ 40;
    max_open_positions = d.of_ℕ 40;
  }
  default_limits_of daily_trend = record default_strategy_limits {
    enabled = false;
    max_lots = d.of_ℕ 40;
    max_open_positions = d.of_ℕ 30;
  }
  default_limits_of _ = default_strategy_limits

  -- `minLtp` is 0.05.
  abbrev pub default_risk_settings : RiskSettings F
  default_risk_settings = record {
    trading_enabled = true;
    desk_halted = false;
    halt_reason = none;
    allow_live_orders = false;
    max_qty_per_order = d.of_ℕ 1800;
    max_notional_inr = d.of_ℕ 2_000_000;
    max_open_orders = d.of_ℕ 40;
    max_orders_per_minute = d.of_ℕ 20;
    stale_price_max_age_sec = d.of_ℕ 30;
    require_market_hours = true;
    min_ltp = d.div (d.of_ℕ 5) (d.of_ℕ 100);
    strategies = default_limits_of;
  }

  limits_by_key : RiskSettings F → Option RiskStrategyKey → StrategyRiskLimits F
  limits_by_key settings none = default_strategy_limits
  limits_by_key settings (some key) = settings.strategies key

  -- A missing or empty name takes the defaults, and so does one that is no key.
  unfoldable pub limits_for : RiskSettings F → Option Text → StrategyRiskLimits F
  unfolding limits_by_key
  limits_for settings none = default_strategy_limits
  limits_for settings (some name) = limits_by_key settings (strategy_key name)

  unfoldable pub is_paper_strategy : RiskSettings F → Option Text → Bool
  is_paper_strategy settings strategy =
      not (is_live_mode (limits_for settings strategy).execution_mode)

  unfoldable pub execution_provenance : Bool → RiskSettings F → Option Text → Provenance
  execution_provenance process_mock settings strategy =
      if process_mock then mock else if is_paper_strategy settings strategy then paper else live
