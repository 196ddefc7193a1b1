-- ===== src/Examples/Gaps.antt =====
-- A gap of 50 between the broker and the desk, and two trades of the broker.
use cm_desk.Prelude.{◌+◌, ◌≡◌, ◌≢◌, refl, some, List, [], ◌∷◌}
use cm_desk.Prelude.Int.{ℤ, pos, abs, ◌+ℤ◌, ◌-ℤ◌}
use cm_desk.Prelude.Text.{codes}
use cm_desk.Accounting.Fill.{whole, sign}
use cm_desk.Reconcile.{
  TradeSlice, strategy_quantity_difference, accepted_quantity, allocate_broker_trades, min_qty,
}
use cm_desk.Reconcile.Accepted.{accepted-closes}
use cm_desk.Reconcile.Allocate.{total_available, total_taken, InOrder, allocate-covers}
use cm_desk.Examples.Desk.{units_double}

gap_accepted :
    accepted_quantity
      (whole (strategy_quantity_difference (pos 75) (pos 25) (pos 0)))
      (whole (pos 50))
    ≡ some (pos 50)
unfolding accepted_quantity strategy_quantity_difference ◌-ℤ◌ sign
gap_accepted = refl

accepted-closes_example :
    (pos 50 ≡ pos 50)
    × (pos 50 ≢ pos 0)
    × (abs (strategy_quantity_difference (pos 75) (pos 25 +ℤ pos 50) (pos 0)) + 50
        ≡ abs (strategy_quantity_difference (pos 75) (pos 25) (pos 0)))
accepted-closes_example = accepted-closes (pos 75) (pos 25) (pos 0) (pos 50) (pos 50) gap_accepted

abbrev later_trade : TradeSlice ℤ
later_trade = record {
  trade_id = codes "T2";
  quantity = 25;
  price = pos 101;
  occurred_at = 9;
  already_used = 0;
}

abbrev broker_trades : List (TradeSlice ℤ)
broker_trades =
    later_trade
    ∷ record later_trade { trade_id = codes "T1"; occurred_at = 8; already_used = 10 }
    ∷ []

allocate-covers_example :
    let r = allocate_broker_trades (pos 50) broker_trades in
    (total_taken r.slices ≡ min_qty (total_available broker_trades) 50)
    × (total_taken r.slices + r.shortfall ≡ 50)
    × InOrder r.slices
allocate-covers_example = allocate-covers (pos 50) broker_trades
