-- ===== src/Accounting/Mark.antt =====
-- lib/trading/accounting.ts: the figures derived from a position and a mark, and the part of a
-- cumulative broker report that is new. `signedQty` has read the quantities.
pub mod Reports
use cm_desk.Prelude.{not, Option, none, some, if◌then◌else◌}
use cm_desk.Prelude.Int.{ℤ, pos, abs, ◌-ℤ◌, ltb_ℤ, eqb_ℤ}
use cm_desk.Money.{Money, Result, ok, ◌>>=◌, money_zero, money_sub, money_mul_qty, money_div_qty}

unfoldable pub unrealized_pnl : ℤ → Money → Money → Money
unfolding money_sub money_mul_qty
unrealized_pnl quantity average_price mark_price =
    if eqb_ℤ quantity (pos 0)
    then money_zero
    else if ltb_ℤ (pos 0) quantity
    then money_mul_qty (money_sub mark_price average_price) quantity
    else money_mul_qty (money_sub average_price mark_price) (pos (abs quantity))

unfoldable pub cost_basis : ℤ → Money → Money
cost_basis quantity average_price = money_mul_qty average_price (pos (abs quantity))

unfoldable pub market_value : ℤ → Money → Money
market_value quantity mark_price = money_mul_qty mark_price quantity

unfoldable pub net_realized : Money → Money → Money
net_realized gross fees = money_sub gross fees

pub record MarkSnapshot : Type 0 where
  pub unrealized : Money
  pub value : Money

unfoldable pub position_mark_snapshot : ℤ → Money → Option Money → MarkSnapshot
position_mark_snapshot quantity average_price none = record {
  unrealized = money_zero;
  value = money_zero;
}
position_mark_snapshot quantity average_price (some mark) =
    if eqb_ℤ quantity (pos 0)
    then record { unrealized = money_zero; value = money_zero }
    else record {
      unrealized = unrealized_pnl quantity average_price mark;
      value = market_value quantity mark;
    }

-- What `moneyFromUnknown` has read: the average price, the mark if there is one, the stored figure.
unfoldable pub unrealized_for_position : ℤ → Money → Option Money → Money → Money
unrealized_for_position quantity average_entry mark stored =
    if eqb_ℤ quantity (pos 0)
    then money_zero
    else elim mark [ none ↦ stored | some m ↦ unrealized_pnl quantity average_entry m ]

pub record IncrementalFill : Type 0 where
  pub quantity : ℤ
  pub price : Money

-- The newly filled part of an order whose broker reports cumulative figures; `ok none` is `null`.
unfoldable pub incremental_fill_from_averages :
    ℤ → Money → ℤ → Money → Result (Option IncrementalFill)
unfolding money_sub money_mul_qty money_div_qty
incremental_fill_from_averages previous_qty previous_average new_qty new_average =
    let delta = new_qty -ℤ previous_qty in
    if not (ltb_ℤ (pos 0) delta)
    then ok none
    else if eqb_ℤ previous_qty (pos 0)
    then ok (some (record { quantity = new_qty; price = new_average }))
    else do
      price ←
          money_div_qty
            (money_sub (money_mul_qty new_average new_qty)
              (money_mul_qty previous_average previous_qty))
            delta
      ok (some (record { quantity = delta; price = price }))
