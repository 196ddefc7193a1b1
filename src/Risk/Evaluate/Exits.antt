-- ===== src/Risk/Evaluate/Exits.antt =====
-- lib/trading/riskEngine.ts: what can stop an order that is no entry.
use cm_desk.Prelude.{◌≡◌, false}
use cm_desk.Prelude.Double.{Double}
use cm_desk.Risk.Role.{is_entry}
use cm_desk.Risk.Evaluate.{
  accepted, RiskIntent, RiskContext, invalid_qty, strategy_disabled, max_qty, refuse_if, bad_qty,
  strategy_off, evaluate_order, size_checks,
}

module _ {ℓ} {F : Type ℓ} ⦃d : Double F⦄ (intent : RiskIntent F) (ctx : RiskContext F) where
  -- An exit, a stop or a flatten is decided by three checks alone: its quantity is a positive whole
  -- number, its named strategy is enabled, and the quantity is within the limit of one order. No halt,
  -- trading switch, live switch, session, price, lots, notional, count or duplicate check refuses it.
  pub evaluate-exit :
      is_entry intent.role ≡ false
      → evaluate_order intent ctx
        ≡ refuse_if (bad_qty intent ctx) invalid_qty (
            refuse_if
              (strategy_off intent ctx)
              strategy_disabled
              (refuse_if (d.lt ctx.settings.max_qty_per_order intent.quantity) max_qty accepted))
  unfolding evaluate_order size_checks
  evaluate-exit h = rw h
