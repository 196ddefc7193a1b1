-- ===== src/Ledger/Totals.antt =====
-- lib/trading/ledger.ts: what a closing fill makes of a trade row, and the tests of `syncTrade`.
use cm_desk.Prelude.{
  ℕ, ◌+◌, ◌-◌, ◌/◌, ◌==◌, Bool, true, false, Option, none, some, or_else, [], ltb, if◌then◌else◌,
}
use cm_desk.Prelude.Int.{ℤ, pos, abs, ◌+ℤ◌, ◌*ℤ◌, eqb_ℤ}
use cm_desk.Prelude.Text.{Text, codes, truthy, opt_text_eq}
use cm_desk.Money.{Money, is_neg, with_sign, differ, money_mul_qty, money_zero}
use cm_desk.Types.{PositionDirection, flat, opened, increased, closed, PositionEventKind}
use cm_desk.Accounting.Fill.{FillApplyResult}
use cm_desk.Accounting.Mark.{net_realized}
use cm_desk.Ledger.{StoredFill, StoredTrade, is_open, is_closed}

-- the division of bigints, toward zero
abbrev pub quotient : ℤ → ℤ → ℤ
quotient a b = with_sign (differ (is_neg a) (is_neg b)) (abs a / abs b)

abbrev pub trade_open : StoredTrade → Bool
trade_open t = elim t.status [ is_open ↦ true | _ ↦ false ]

abbrev pub is_opened : PositionEventKind → Bool
is_opened opened = true
is_opened _ = false

abbrev pub is_increased : PositionEventKind → Bool
is_increased increased = true
is_increased _ = false

abbrev pub is_closed_kind : PositionEventKind → Bool
is_closed_kind closed = true
is_closed_kind _ = false

abbrev pub is_flat_direction : PositionDirection → Bool
is_flat_direction flat = true
is_flat_direction _ = false

-- `fill.provenance || "LIVE"`
abbrev pub or_live : Option Text → Text
or_live p = if truthy p then or_else p [] else codes "LIVE"

pub record ExitTotals : Type 0 where
  pub exit_qty : ℕ
  pub new_gross : Money
  pub new_fees : Money
  pub new_net : Money
  pub avg_exit : Option Money

unfoldable pub trade_exit_totals : StoredTrade → FillApplyResult → StoredFill → ExitTotals
unfolding money_mul_qty net_realized
trade_exit_totals open_trade result fill =
    let exit_qty = open_trade.exit_qty + result.closed_qty in
    let new_gross = open_trade.gross_pnl +ℤ result.realized_delta in
    let new_fees = open_trade.fees +ℤ fill.fee_amount in
    let prev_exit_value =
      money_mul_qty (or_else open_trade.average_exit money_zero) (pos open_trade.exit_qty) in
    let this_exit_value = money_mul_qty fill.price (pos result.closed_qty) in
    record {
      exit_qty = exit_qty;
      new_gross = new_gross;
      new_fees = new_fees;
      new_net = net_realized new_gross new_fees;
      avg_exit =
          if ltb 0 exit_qty
          then some (quotient (prev_exit_value +ℤ this_exit_value) (pos exit_qty))
          else none;
    }

-- `COALESCE(a, b)`
abbrev pub coalesce {ℓ} : {A : Type ℓ} → Option A → Option A → Option A
coalesce none b = b
coalesce (some a) b = some a

-- The reason that is written: the caller's, else that of the provenance.
abbrev pub close_reason : Option Text → StoredFill → Text
close_reason exit_reason fill = or_else exit_reason (
    if opt_text_eq fill.provenance (some (codes "MIGRATED"))
    then codes "MIGRATED"
    else codes "UNKNOWN")

-- What `closeTradeRow` sets; the return is in 1/10000.
unfoldable pub close_trade_row :
    Option Text → FillApplyResult → StoredFill → StoredTrade → StoredTrade
unfolding trade_exit_totals money_mul_qty
close_trade_row exit_reason result fill open_trade =
    let totals = trade_exit_totals open_trade result fill in
    let entry_qty = if open_trade.entry_qty == 0 then totals.exit_qty else open_trade.entry_qty in
    let notional = money_mul_qty open_trade.average_entry (pos entry_qty) in
    record open_trade {
      status = is_closed;
      exit_qty = totals.exit_qty;
      average_exit = coalesce totals.avg_exit open_trade.average_exit;
      gross_pnl = totals.new_gross;
      fees = totals.new_fees;
      net_pnl = totals.new_net;
      return_pct =
          if eqb_ℤ notional (pos 0)
          then none
          else some (quotient (totals.new_net *ℤ pos 10_000) notional);
      holding_period_ms = some (fill.occurred_at - open_trade.entry_at);
      exit_at = some fill.occurred_at;
      exit_reason = some (close_reason exit_reason fill);
    }

-- What `closeOrReduceTrade` sets when the position is not closed.
unfoldable pub reduce_trade_row : FillApplyResult → StoredFill → StoredTrade → StoredTrade
unfolding trade_exit_totals
reduce_trade_row result fill open_trade =
    let totals = trade_exit_totals open_trade result fill in
    record open_trade {
      exit_qty = totals.exit_qty;
      average_exit = totals.avg_exit;
      gross_pnl = totals.new_gross;
      fees = totals.new_fees;
      net_pnl = totals.new_net;
    }
