-- ===== src/Risk/Evaluate/Entries.antt =====
-- lib/trading/riskEngine.ts: the limits of the desk on an entry.
use cm_desk.Prelude.{◌≡◌, ◌↔◌, ◌⊎◌, refl, Bool, true, false, not, arith}
use cm_desk.Prelude.Text.{truthy}
use cm_desk.Prelude.Double.{Double}
use cm_desk.Risk.Role.{is_entry}
use cm_desk.Risk.Evaluate.{
  RiskCode, RiskDecision, accepted, RiskIntent, RiskContext, refuse_if, strat, bad_price,
  stale_price, exceeds, too_many_for_job, notional_over, order_price, bad_qty, live_off,
  strategy_off, outside_hours, evaluate_order, size_checks,
}

-- What the limits ask of an entry.
pub record IsAdmissible {ℓ} {F : Type ℓ} ⦃d : Double F⦄ (intent : RiskIntent F)
    (ctx : RiskContext F) : Type 0 where
  pub whole_qty : d.is_integer intent.quantity ≡ true
  pub positive_qty : d.le intent.quantity (d.of_ℕ 0) ≡ false
  pub live_allowed :
      (ctx.is_mock ≡ true) ⊎ ((ctx.is_paper ≡ true) ⊎ (ctx.settings.allow_live_orders ≡ true))
  pub desk_running : ctx.settings.desk_halted ≡ false
  pub trading_on : ctx.settings.trading_enabled ≡ true
  pub strategy_on : (truthy intent.strategy ≡ false) ⊎ ((strat intent ctx).enabled ≡ true)
  pub strategy_running : (strat intent ctx).halted ≡ false
  pub job_running : ctx.job_aborted ≡ false
  pub in_hours :
      (ctx.settings.require_market_hours ≡ false)
      ⊎ ((ctx.is_mock ≡ true) ⊎ ((ctx.is_paper ≡ true) ⊎ (ctx.market_open ≡ true)))
  pub sound_price : bad_price intent ctx intent.ltp ≡ false
  pub fresh_price : stale_price intent ctx intent.ltp intent.ltp_at ≡ false
  pub qty_le : d.lt ctx.settings.max_qty_per_order intent.quantity ≡ false
  pub lots_le : exceeds intent.lots (strat intent ctx).max_lots ≡ false
  pub job_lots_le : too_many_for_job intent ctx intent.lots intent.lot_size ≡ false
  pub notional_le : notional_over intent ctx (order_price intent ctx) ≡ false
  pub positions_lt : d.le (strat intent ctx).max_open_positions ctx.open_position_count ≡ false
  pub open_orders_lt : d.le ctx.settings.max_open_orders ctx.open_order_count ≡ false
  pub rate_lt : d.le ctx.settings.max_orders_per_minute ctx.recent_order_count ≡ false
  pub no_duplicate : ctx.pending_duplicate ≡ false

refuse_if-accepted :
    (test : Bool) (code : RiskCode) (rest : RiskDecision)
    → refuse_if test code rest ≡ accepted
    → (test ≡ false) × (rest ≡ accepted)
refuse_if-accepted true code rest h = cc
refuse_if-accepted false code rest h = (refl, h)

module _ {ℓ} {F : Type ℓ} ⦃d : Double F⦄ (intent : RiskIntent F) (ctx : RiskContext F) where
  IsAdmissible-accepted :
      is_entry intent.role ≡ true → IsAdmissible intent ctx → evaluate_order intent ctx ≡ accepted
  unfolding evaluate_order size_checks
  IsAdmissible-accepted r a = ground arith

  -- the checks from the size of the order on, all passed
  size_checks-clear :
      size_checks intent ctx true ≡ accepted
      → (d.lt ctx.settings.max_qty_per_order intent.quantity ≡ false)
        × (exceeds intent.lots (strat intent ctx).max_lots ≡ false)
        × (too_many_for_job intent ctx intent.lots intent.lot_size ≡ false)
        × (notional_over intent ctx (order_price intent ctx) ≡ false)
        × (d.le (strat intent ctx).max_open_positions ctx.open_position_count ≡ false)
        × (d.le ctx.settings.max_open_orders ctx.open_order_count ≡ false)
        × (d.le ctx.settings.max_orders_per_minute ctx.recent_order_count ≡ false)
        × (ctx.pending_duplicate ≡ false)
  unfolding size_checks
  size_checks-clear h0 =
      let (t1, h1) = refuse_if-accepted _ _ _ h0 in
      let (t2, h2) = refuse_if-accepted _ _ _ h1 in
      let (t3, h3) = refuse_if-accepted _ _ _ h2 in
      let (t4, h4) = refuse_if-accepted _ _ _ h3 in
      let (t5, h5) = refuse_if-accepted _ _ _ h4 in
      let (t6, h6) = refuse_if-accepted _ _ _ h5 in
      let (t7, h7) = refuse_if-accepted _ _ _ h6 in
      let (t8, _) = refuse_if-accepted _ _ _ h7 in (t1, t2, t3, t4, t5, t6, t7, t8)

  -- the checks before them, all passed
  checks-clear :
      is_entry intent.role ≡ true
      → evaluate_order intent ctx ≡ accepted
      → (bad_qty intent ctx ≡ false)
        × (live_off intent ctx ≡ false)
        × (ctx.settings.desk_halted ≡ false)
        × (not ctx.settings.trading_enabled ≡ false)
        × (strategy_off intent ctx ≡ false)
        × ((strat intent ctx).halted ≡ false)
        × (ctx.job_aborted ≡ false)
        × (outside_hours intent ctx ≡ false)
        × (bad_price intent ctx intent.ltp ≡ false)
        × (stale_price intent ctx intent.ltp intent.ltp_at ≡ false)
        × (size_checks intent ctx true ≡ accepted)
  unfolding evaluate_order
  checks-clear r h =
      let (t1, h1) = refuse_if-accepted _ _ _ (rw r at h) in
      let (t2, h2) = refuse_if-accepted _ _ _ h1 in
      let (t3, h3) = refuse_if-accepted _ _ _ h2 in
      let (t4, h4) = refuse_if-accepted _ _ _ h3 in
      let (t5, h5) = refuse_if-accepted _ _ _ h4 in
      let (t6, h6) = refuse_if-accepted _ _ _ h5 in
      let (t7, h7) = refuse_if-accepted _ _ _ h6 in
      let (t8, h8) = refuse_if-accepted _ _ _ h7 in
      let (t9, h9) = refuse_if-accepted _ _ _ h8 in
      let (t10, h10) = refuse_if-accepted _ _ _ h9 in (t1, t2, t3, t4, t5, t6, t7, t8, t9, t10, h10)

  accepted-IsAdmissible :
      is_entry intent.role ≡ true → evaluate_order intent ctx ≡ accepted → IsAdmissible intent ctx
  accepted-IsAdmissible r h =
      let (t1, t2, t3, t4, t5, t6, t7, t8, t9, t10, rest) = checks-clear r h in
      let (s1, s2, s3, s4, s5, s6, s7, s8) = size_checks-clear rest in ground arith

  -- An entry is accepted exactly when all the limits hold.
  pub evaluate-entry_iff :
      is_entry intent.role ≡ true → (evaluate_order intent ctx ≡ accepted) ↔ IsAdmissible intent ctx
  evaluate-entry_iff r = (accepted-IsAdmissible r, IsAdmissible-accepted r)
