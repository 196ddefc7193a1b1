-- ===== src/Ledger/Trades.antt =====
-- lib/trading/ledger.ts: `syncTrade`, the trade rows of a position after a fill.
pub mod Others
use cm_desk.Prelude.{
  ℕ, suc, ◌+◌, ◌-◌, ◌/◌, ◌==◌, Bool, true, false, not, ◌&&◌, ◌||◌, Option, none, some, or_else,
  is_some, List, [], ◌∷◌, ◌++◌, ltb, if◌then◌else◌,
}
use cm_desk.Prelude.Int.{ℤ, pos, abs, ◌+ℤ◌, ◌*ℤ◌, eqb_ℤ}
use cm_desk.Prelude.Text.{Text, codes, truthy, opt_text_eq}
use cm_desk.Money.{Money, is_neg, with_sign, differ, money_mul_qty, money_zero}
use cm_desk.Types.{
  PositionDirection, long, short, flat, opened, increased, reduced, closed, reversed,
  PositionEventKind, direction_from_qty,
}
use cm_desk.Accounting.Fill.{PositionState, FillApplyResult}
use cm_desk.Accounting.Mark.{net_realized}
use cm_desk.Ledger.{
  StoredFill, StoredPosition, StoredTrade, Store, RowStatus, is_open, is_flat, is_closed, find,
  update_where,
}
use cm_desk.Ledger.Totals.{
  quotient, trade_open, is_opened, is_increased, is_closed_kind, is_flat_direction, or_live,
  trade_exit_totals, coalesce, close_reason, close_trade_row, reduce_trade_row, ExitTotals,
}

-- the arguments of `syncTrade`; `before` is the position as it was read
module _ (position_id : ℕ) (before : PositionState) (result : FillApplyResult) (fill : StoredFill)
    (exit_reason : Option Text) where
  -- the columns that every new trade row has
  abbrev pub new_trade : ℕ → PositionDirection → ℕ → Money → StoredTrade
  new_trade id direction entry_qty average_entry = record {
    id = id;
    account_id = fill.account_id;
    job_id = fill.job_id;
    decision_id = fill.decision_id;
    position_id = position_id;
    strategy = fill.strategy;
    exchange = fill.exchange;
    tradingsymbol = fill.tradingsymbol;
    product = or_else fill.product [];
    direction = direction;
    status = is_open;
    entry_qty = entry_qty;
    exit_qty = 0;
    average_entry = average_entry;
    average_exit = none;
    gross_pnl = money_zero;
    fees = money_zero;
    net_pnl = money_zero;
    return_pct = none;
    holding_period_ms = none;
    entry_at = fill.occurred_at;
    exit_at = none;
    exit_reason = none;
    provenance = or_live fill.provenance;
  }

  abbrev pub insert_trade : StoredTrade → Store → Store
  insert_trade t s = record s { trades = s.trades ++ (t ∷ []); next_trade = suc s.next_trade }

  abbrev pub update_trade : ℕ → (StoredTrade → StoredTrade) → Store → Store
  update_trade id f s = record s { trades = update_where (λ t. t.id == id) f s.trades }

  -- the row of a closing fill that finds no open trade (`orphanCloseTradeFields`)
  abbrev pub orphan_trade : ℕ → PositionDirection → StoredTrade
  orphan_trade id direction =
      record (new_trade id direction result.closed_qty before.average_price) {
        status = is_closed;
        exit_qty = result.closed_qty;
        average_exit = some fill.price;
        gross_pnl = result.realized_delta;
        fees = fill.fee_amount;
        net_pnl = net_realized result.realized_delta fill.fee_amount;
        entry_at = or_else before.opened_at fill.occurred_at;
        exit_at = some fill.occurred_at;
        exit_reason = some (or_else exit_reason (codes "UNKNOWN"));
      }

  -- the last part of `syncTrade`, with the open trade that was found or made
  abbrev pub update_open_trade : StoredTrade → Store → Store
  update_open_trade open_trade s =
      if is_increased result.event_kind
      then update_trade open_trade.id
          (λ t. record t {
            entry_qty = open_trade.entry_qty + result.opened_qty;
            average_entry = result.next.average_price;
          })
          s
      else if is_closed_kind result.event_kind || result.is_reversed
      then update_trade open_trade.id (λ t. close_trade_row exit_reason result fill open_trade) s
      else update_trade open_trade.id (λ t. reduce_trade_row result fill open_trade) s

  abbrev pub entry_of_missing : ℕ
  entry_of_missing =
      if result.opened_qty == 0
      then abs (result.next.quantity +ℤ pos result.closed_qty)
      else result.opened_qty

  abbrev pub average_of_missing : Money
  average_of_missing =
      if eqb_ℤ result.next.average_price (pos 0) then fill.price else result.next.average_price

  -- a fill of an open position that has no open trade
  abbrev pub sync_missing_trade : Store → Store
  sync_missing_trade s =
      let direction = direction_from_qty before.quantity in
      if eqb_ℤ result.next.quantity (pos 0)
        && ltb 0 result.closed_qty
        && not (is_flat_direction direction)
      then insert_trade (orphan_trade s.next_trade direction) s
      else let made =
          new_trade s.next_trade (if is_flat_direction direction then long else direction)
            entry_of_missing average_of_missing in
        update_open_trade made (insert_trade made s)

  -- A reversal closes the open trade of the other side.
  abbrev pub close_reversed : Option StoredTrade → Store → Store
  close_reversed none s = s
  close_reversed (some t) s =
      if result.is_reversed
      then update_trade t.id (λ x. close_trade_row exit_reason result fill t) s
      else s

  abbrev pub open_side : Store → Store
  open_side s =
      let direction = direction_from_qty result.next.quantity in
      if is_flat_direction direction
      then s
      else insert_trade
          (new_trade s.next_trade direction result.opened_qty result.next.average_price) s

  abbrev pub opens_side : Bool
  opens_side = is_opened result.event_kind || (result.is_reversed && ltb 0 result.opened_qty)

  sync_found_trade : Option StoredTrade → Store → Store
  sync_found_trade none s = if result.is_reversed then s else sync_missing_trade s
  sync_found_trade (some t) s = update_open_trade t s

  unfoldable pub sync_trade : Store → Store
  unfolding sync_found_trade
  sync_trade s =
      let open_trade = find (λ t. t.position_id == position_id && trade_open t) s.trades in
      if opens_side then open_side (close_reversed open_trade s) else sync_found_trade open_trade s
