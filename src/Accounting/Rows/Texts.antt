-- ===== src/Accounting/Rows/Texts.antt =====
-- lib/trading/accounting.ts: the amounts that the shown rows hold, read back.
use cm_desk.Prelude.{◌≡◌, refl, true, false}
use cm_desk.Prelude.Int.{pos, ◌-ℤ◌, eqb_ℤ}
use cm_desk.Prelude.Text.{truthy}
use cm_desk.Money.{Money, money_sub, ok}
use cm_desk.Money.Decimal.{money_from_string, money_to_string}
use cm_desk.Money.Decimal.RoundTrip.{money_from_string-money_to_string}
use cm_desk.Accounting.Mark.{unrealized_pnl, market_value, position_mark_snapshot, net_realized}
use cm_desk.Accounting.Rows.{
  PositionRow, PresentedRow, money_from_unknown, present_ledger_position, OrphanClose,
  orphan_close_trade_fields, status_or_open,
}

-- An open position with a mark and an average that can be read is shown with an unrealized profit and a
-- market value that read back as those of `unrealizedPnl` and `marketValue`.
pub present_position-reads_back :
    (row : PositionRow) (average mark : Money)
    → eqb_ℤ row.quantity (pos 0) ≡ false
    → truthy row.mark_price ≡ true
    → money_from_unknown row.average_entry_price ≡ ok average
    → money_from_unknown row.mark_price ≡ ok mark
    → (shown : PresentedRow) × (present_ledger_position row ≡ ok shown)
      × (money_from_string shown.unrealized_pnl ≡ ok (unrealized_pnl row.quantity average mark))
      × (money_from_string shown.market_value ≡ ok (market_value row.quantity mark))
unfolding present_ledger_position position_mark_snapshot
present_position-reads_back row average mark held marked a m =
    let shown : PresentedRow = record {
      status = status_or_open row.status;
      unrealized_pnl = money_to_string (unrealized_pnl row.quantity average mark);
      market_value = money_to_string (market_value row.quantity mark);
    } in
    (
      shown,
      rw (held, marked, a, m) refl,
      money_from_string-money_to_string _,
      money_from_string-money_to_string _,
    )

-- The trade of an orphan close has the same quantity on both sides; its gross and fees read back as the
-- realized difference and the fee, and its net as the first less the second.
pub orphan_close-reads_back :
    (input : OrphanClose)
    → let fields = orphan_close_trade_fields input in
      (fields.entry_qty ≡ fields.exit_qty)
      × (money_from_string fields.gross ≡ ok input.realized_delta)
      × (money_from_string fields.fees ≡ ok input.fee)
      × (money_from_string fields.net ≡ ok (input.realized_delta -ℤ input.fee))
unfolding orphan_close_trade_fields net_realized money_sub
orphan_close-reads_back input = (
  refl,
  money_from_string-money_to_string _,
  money_from_string-money_to_string _,
  money_from_string-money_to_string _,
)
