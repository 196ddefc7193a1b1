-- ===== src/Accounting/Rows.antt =====
-- lib/trading/accounting.ts with lib/trading/money.ts: the rows that show a position or a closed trade.
-- Amounts are texts in them.
pub mod Texts
use cm_desk.Prelude.{
  ℕ, Bool, true, false, not, ◌||◌, Option, none, some, or_else, [], ◌∷◌, if◌then◌else◌,
}
use cm_desk.Prelude.Int.{ℤ, pos, negsuc, eqb_ℤ}
use cm_desk.Prelude.Text.{Text, codes, text_eq, truthy, to_upper}
use cm_desk.Money.{Money, Result, ok, ◌>>=◌, money_zero}
use cm_desk.Money.Decimal.{money_from_string, money_to_string}
use cm_desk.Accounting.Mark.{position_mark_snapshot, net_realized}

-- `moneyFromUnknown` on a column of text
unfoldable pub money_from_unknown : Option Text → Result Money
money_from_unknown none = ok money_zero
money_from_unknown (some []) = ok money_zero
money_from_unknown (some (c ∷ s)) = money_from_string (c ∷ s)

pub record PositionRow : Type 0 where
  pub quantity : ℤ
  pub status : Option Text
  pub mark_price : Option Text
  pub average_entry_price : Option Text
  pub unrealized_pnl : Option Text
  pub market_value : Option Text

pub record PresentedRow : Type 0 where
  pub status : Text
  pub unrealized_pnl : Text
  pub market_value : Text

-- `status || "OPEN"`
abbrev pub status_or_open : Option Text → Text
status_or_open status = if truthy status then or_else status [] else codes "OPEN"

unfoldable pub present_ledger_position : PositionRow → Result PresentedRow
present_ledger_position row =
    if eqb_ℤ row.quantity (pos 0)
    then ok (record { status = codes "FLAT"; unrealized_pnl = codes "0"; market_value = codes "0" })
    else if not (truthy row.mark_price)
    then ok (record {
      status = status_or_open row.status;
      unrealized_pnl = or_else row.unrealized_pnl (codes "0");
      market_value = or_else row.market_value (codes "0");
    })
    else do
      average ← money_from_unknown row.average_entry_price
      mark ← money_from_unknown row.mark_price
      let live = position_mark_snapshot row.quantity average (some mark)
      ok (record {
        status = status_or_open row.status;
        unrealized_pnl = money_to_string live.unrealized;
        market_value = money_to_string live.value;
      })

-- A closing fill with no open trade; times are milliseconds.
pub record OrphanClose : Type 0 where
  pub closed_qty : ℤ
  pub average_before : Money
  pub exit_price : Money
  pub realized_delta : Money
  pub fee : Money
  pub closed_at : ℕ
  pub opened_at : Option ℕ

pub record TradeFields : Type 0 where
  pub entry_qty : ℕ
  pub exit_qty : ℕ
  pub average_entry : Text
  pub average_exit : Text
  pub gross : Text
  pub fees : Text
  pub net : Text
  pub entry_at : ℕ
  pub exit_at : ℕ

-- `Math.max(0, q)`
abbrev pub shown_qty : ℤ → ℕ
shown_qty (pos n) = n
shown_qty (negsuc n) = 0

unfoldable pub orphan_close_trade_fields : OrphanClose → TradeFields
unfolding net_realized
orphan_close_trade_fields input = record {
  entry_qty = shown_qty input.closed_qty;
  exit_qty = shown_qty input.closed_qty;
  average_entry = money_to_string input.average_before;
  average_exit = money_to_string input.exit_price;
  gross = money_to_string input.realized_delta;
  fees = money_to_string input.fee;
  net = money_to_string (net_realized input.realized_delta input.fee);
  entry_at = or_else input.opened_at input.closed_at;
  exit_at = input.closed_at;
}

pub data OrderPurpose : Type 0 where
  entry exit hedge sl square_off other : OrderPurpose

unfoldable pub infer_purpose : Option Text → Bool → OrderPurpose
infer_purpose order_type is_hedge =
    if is_hedge
    then hedge
    else let type = to_upper (or_else order_type []) in
      if text_eq type (codes "SL") || text_eq type (codes "SL-M") || text_eq type (codes "SL-L")
      then sl
      else entry
