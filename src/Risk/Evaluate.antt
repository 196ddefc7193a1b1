-- ===== src/Risk/Evaluate.antt =====
-- lib/trading/riskEngine.ts: `evaluateOrder`, check by check in the order of the code. The texts of the
-- refusals are left out; their codes are kept.
pub mod Exits
pub mod Entries
use cm_desk.Prelude.{
  ℕ, ◌≡◌, Bool, true, false, not, ◌&&◌, ◌||◌, Option, none, some, is_some, if◌then◌else◌,
}
use cm_desk.Prelude.Text.{Text, truthy}
use cm_desk.Prelude.Double.{Double}
use cm_desk.Types.{Side}
use cm_desk.Risk.Settings.{RiskSettings, StrategyRiskLimits, limits_for}
use cm_desk.Risk.Role.{OrderRole, is_entry}

pub data RiskCode : Type 0 where
  invalid_qty live_blocked desk_halted trading_disabled strategy_disabled : RiskCode
  strategy_halted job_aborted market_closed invalid_price stale_data : RiskCode
  max_qty max_lots job_lots max_notional max_positions : RiskCode
  max_open_orders order_rate duplicate : RiskCode

pub data RiskDecision : Type 0 where
  accepted : RiskDecision
  refused : RiskCode → RiskDecision

pub record RiskIntent {ℓ} (F : Type ℓ) : Type ℓ where
  pub role : OrderRole
  pub tradingsymbol : Text
  pub quantity : F
  pub side : Side
  pub tag : Option Text
  pub price : Option F
  pub trigger_price : Option F
  pub ltp : Option F
  pub ltp_at : Option F
  pub strategy : Option Text
  pub lots : Option F
  pub lot_size : Option F

-- Times are the numbers that `getTime()` returns.
pub record RiskContext {ℓ} (F : Type ℓ) : Type ℓ where
  pub settings : RiskSettings F
  pub now : F
  pub is_mock : Bool
  pub is_paper : Bool
  pub market_open : Bool
  pub job_aborted : Bool
  pub open_position_count : F
  pub open_order_count : F
  pub recent_order_count : F
  pub pending_duplicate : Bool

-- `if (test) return fail(code)`, before the checks that follow
abbrev pub refuse_if : Bool → RiskCode → RiskDecision → RiskDecision
refuse_if true code rest = refused code
refuse_if false code rest = rest

module _ {ℓ} {F : Type ℓ} ⦃d : Double F⦄ where
  -- `a || b` on numbers that may be missing
  abbrev pub or_number : Option F → Option F → Option F
  or_number none b = b
  or_number (some x) b = if d.is_truthy x then some x else b

  abbrev pub exceeds : Option F → F → Bool
  exceeds none cap = false
  exceeds (some x) cap = d.lt cap x

  module _ (intent : RiskIntent F) (ctx : RiskContext F) where
    abbrev pub strat : StrategyRiskLimits F
    strat = limits_for ctx.settings intent.strategy

    abbrev pub bad_qty : Bool
    bad_qty = not (d.is_integer intent.quantity) || d.le intent.quantity (d.of_ℕ 0)

    abbrev pub live_off : Bool
    live_off = not ctx.is_mock && not ctx.is_paper && not ctx.settings.allow_live_orders

    abbrev pub strategy_off : Bool
    strategy_off = truthy intent.strategy && not strat.enabled

    abbrev pub outside_hours : Bool
    outside_hours =
        ctx.settings.require_market_hours
        && not ctx.is_mock
        && not ctx.is_paper
        && not ctx.market_open

    unfoldable pub bad_price : Option F → Bool
    bad_price none = false
    bad_price (some ltp) = not (d.is_finite ltp) || d.lt ltp ctx.settings.min_ltp

    unfoldable pub stale_price : Option F → Option F → Bool
    stale_price none at = false
    stale_price (some ltp) none = false
    stale_price (some ltp) (some at) =
        d.lt (d.of_ℕ 0) ctx.settings.stale_price_max_age_sec
        && d.lt ctx.settings.stale_price_max_age_sec (d.div (d.sub ctx.now at) (d.of_ℕ 1000))

    abbrev pub too_many_for_job : Option F → Option F → Bool
    too_many_for_job (some lots) (some lot_size) =
        d.lt (d.of_ℕ 0) lot_size && d.lt (d.mul lots lot_size) intent.quantity
    too_many_for_job _ _ = false

    -- `px && px > 0` and the notional that follows
    abbrev pub notional_over : Option F → Bool
    notional_over none = false
    notional_over (some px) =
        d.is_truthy px
        && d.lt (d.of_ℕ 0) px
        && d.lt ctx.settings.max_notional_inr (d.mul intent.quantity px)

    abbrev pub order_price : Option F
    order_price = or_number (or_number intent.price intent.trigger_price) intent.ltp

    -- the checks from the size of the order on
    unfoldable pub size_checks : Bool → RiskDecision
    size_checks is_new = refuse_if (d.lt ctx.settings.max_qty_per_order intent.quantity) max_qty (
        refuse_if (is_new && exceeds intent.lots strat.max_lots) max_lots (
          refuse_if (is_new && too_many_for_job intent.lots intent.lot_size) job_lots (
            refuse_if (is_new && notional_over order_price) max_notional (
              refuse_if (is_new && d.le strat.max_open_positions ctx.open_position_count)
                max_positions
                (refuse_if (is_new && d.le ctx.settings.max_open_orders ctx.open_order_count)
                  max_open_orders
                  (refuse_if
                    (is_new && d.le ctx.settings.max_orders_per_minute ctx.recent_order_count)
                    order_rate
                    (refuse_if (is_new && ctx.pending_duplicate) duplicate accepted)))))))

    unfoldable pub evaluate_order : RiskDecision
    evaluate_order =
        let is_new = is_entry intent.role in
        refuse_if bad_qty invalid_qty (
          refuse_if (is_new && live_off) live_blocked (
            refuse_if (is_new && ctx.settings.desk_halted) desk_halted (
              refuse_if (is_new && not ctx.settings.trading_enabled) trading_disabled (
                refuse_if strategy_off strategy_disabled (
                  refuse_if (is_new && strat.halted) strategy_halted (
                    refuse_if (is_new && ctx.job_aborted) job_aborted (
                      refuse_if (is_new && outside_hours) market_closed (
                        refuse_if (is_new && bad_price intent.ltp) invalid_price (
                          refuse_if (is_new && stale_price intent.ltp intent.ltp_at) stale_data
                            (size_checks is_new))))))))))
