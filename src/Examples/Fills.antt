-- ===== src/Examples/Fills.antt =====
-- Positions, fills, orders and rows at concrete figures.
use cm_desk.Prelude.{◌*◌, ◌≤◌, ◌≡◌, inr, refl, some, arith}
use cm_desk.Prelude.Int.{pos, negsuc, abs, ◌-ℤ◌, ◌*ℤ◌}
use cm_desk.Prelude.Text.{codes}
use cm_desk.Prelude.{none}
use cm_desk.Prelude.Text.{trim, starts_with}
use cm_desk.Money.Decimal.{money_from_string, money_to_string}
use cm_desk.Money.Decimal.RoundTrip.{money_from_string-money_to_string}
use cm_desk.Accounting.Rows.{PositionRow, money_from_unknown, OrphanClose}
use cm_desk.Money.{ok}
use cm_desk.Types.{buy, sell, FillBook}
use cm_desk.Accounting.Fill.{
  PositionState, FillApplication, FillApplyResult, whole, apply_fill_to_position,
}
use cm_desk.Accounting.Fill.Ladder.{Accounts}
use cm_desk.Accounting.Fill.Equity.{IsConserved, apply_fill-IsConserved}
use cm_desk.Accounting.Fill.Average.{InRange, apply_fill-InRange}
use cm_desk.Accounting.Fill.Kind.{kind_of, is_reversal, apply_fill-Accounts}
use cm_desk.Accounting.Mark.{IncrementalFill, incremental_fill_from_averages}
use cm_desk.Accounting.Mark.Reports.{traded, incremental-value}

-- long 75 at 101.25, bought for a fee of 20
abbrev holding : PositionState
holding = record {
  quantity = pos 75;
  average_price = pos 1_012_500;
  realized_pnl = pos 40_000;
  fees = pos 200_000;
  opened_at = some 1_700_000_000_000;
}

-- a sale of 100 at 104.50, which turns the book round
abbrev sale : FillApplication
sale = record {
  side = sell;
  quantity = whole (pos 100);
  price = pos 1_045_000;
  fee = pos 200_000;
  at = 1_700_000_100_000;
}

-- a purchase of 50 more at 100.01, whose average must be rounded
abbrev purchase : FillApplication
purchase = record sale { side = buy; quantity = whole (pos 50); price = pos 1_000_100 }

apply_fill-IsConserved_example :
    (r : FillApplyResult) × (apply_fill_to_position holding purchase ≡ ok r)
    × IsConserved (pos 1_050_000) holding purchase 50 r
apply_fill-IsConserved_example = apply_fill-IsConserved holding purchase 49 (pos 1_050_000) refl

apply_fill-Accounts_example :
    (r : FillApplyResult) × (apply_fill_to_position holding sale ≡ ok r)
    × Accounts holding sale 100 r
    × (r.event_kind ≡ kind_of (pos 75) r.next.quantity)
    × (r.is_reversed ≡ is_reversal r.event_kind)
apply_fill-Accounts_example = apply_fill-Accounts holding sale 99 refl

apply_fill-InRange_example :
    (r : FillApplyResult) × (apply_fill_to_position holding purchase ≡ ok r)
    × InRange (pos 1_000_000) (pos 1_050_000) r.next
apply_fill-InRange_example =
    apply_fill-InRange (pos 1_000_000) (pos 1_050_000) holding purchase 49
      (inr (omega arith, omega arith)) (omega arith) (omega arith) refl

incremental-value_example :
    (fill : IncrementalFill) × (incremental_fill_from_averages
        (pos 25)
        (pos 1_000_000)
        (pos 75)
        (pos 1_010_001)
      ≡ ok (some fill))
    × (fill.quantity ≡ pos 75 -ℤ pos 25)
    × (abs (fill.price *ℤ fill.quantity -ℤ (traded 75 (pos 1_010_001) -ℤ traded 25 (pos 1_000_000)))
          * 2
        ≤ abs fill.quantity)
incremental-value_example = incremental-value 25 75 (pos 1_000_000) (pos 1_010_001) (omega arith)

-- a flat paper row that a live fill reaches
abbrev first_live_fill : FillBook
first_live_fill = record {
  position_provenance = some (codes "PAPER");
  position_qty = pos 0;
  fill_provenance = some (codes "LIVE");
}

-- -1012.0500
money_from_string-money_to_string_example :
    money_from_string (money_to_string (negsuc 10_120_499)) ≡ ok (negsuc 10_120_499)
money_from_string-money_to_string_example = money_from_string-money_to_string (negsuc 10_120_499)

abbrev shown_row : PositionRow
shown_row = record {
  quantity = negsuc 74;
  status = none;
  mark_price = some (codes "99.5");
  average_entry_price = some (codes "101.25");
  unrealized_pnl = none;
  market_value = none;
}

reads_average : money_from_unknown (some (codes "101.25")) ≡ ok (pos 1_012_500)
unfolding money_from_unknown money_from_string trim starts_with
reads_average = refl

reads_mark : money_from_unknown (some (codes "99.5")) ≡ ok (pos 995_000)
unfolding money_from_unknown money_from_string trim starts_with
reads_mark = refl

abbrev orphan : OrphanClose
orphan = record {
  closed_qty = pos 75;
  average_before = pos 1_012_500;
  exit_price = pos 1_045_000;
  realized_delta = pos 2_437_500;
  fee = pos 200_000;
  closed_at = 9;
  opened_at = none;
}
