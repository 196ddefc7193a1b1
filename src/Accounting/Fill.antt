-- ===== src/Accounting/Fill.antt =====
-- lib/trading/accounting.ts: the position that a fill leaves. Times are milliseconds. A function of the
-- code that may throw returns a `Result`.
pub mod Ladder
pub mod Products
pub mod Equity
pub mod Average
pub mod Kind
use cm_desk.Prelude.{
  ℕ, suc, ◌+◌, ◌-◌, Bool, true, false, Option, none, some, or_else, ltb, ◌==◌, if◌then◌else◌,
}
use cm_desk.Prelude.Int.{ℤ, pos, negsuc, abs, ◌+ℤ◌, ◌*ℤ◌, ltb_ℤ, eqb_ℤ}
use cm_desk.Money.{
  Money, Result, ok, throw, bad_fill_quantity, ◌>>=◌, money_zero, money_add, money_sub,
  money_mul_qty, money_div_qty,
}
use cm_desk.Types.{Side, PositionEventKind, opened, increased, reduced, closed, reversed, side_sign}

pub record PositionState : Type 0 where
  pub quantity : ℤ
  pub average_price : Money
  pub realized_pnl : Money
  pub fees : Money
  pub opened_at : Option ℕ

-- A JavaScript number where the code asks `Number.isInteger`.
pub data Quantity : Type 0 where
  whole : ℤ → Quantity
  not_whole : Quantity

pub record FillApplication : Type 0 where
  pub side : Side
  pub quantity : Quantity
  pub price : Money
  pub fee : Money
  pub at : ℕ

pub record FillApplyResult : Type 0 where
  pub next : PositionState
  pub event_kind : PositionEventKind
  pub realized_delta : Money
  pub closed_qty : ℕ
  pub opened_qty : ℕ
  pub is_reversed : Bool

unfoldable pub empty_position : PositionState
empty_position = record {
  quantity = pos 0;
  average_price = money_zero;
  realized_pnl = money_zero;
  fees = money_zero;
  opened_at = none;
}

-- A positive whole quantity, or the error.
abbrev pub checked_qty : Quantity → Result ℕ
checked_qty (whole (pos (suc n))) = ok (suc n)
checked_qty _ = throw bad_fill_quantity

unfoldable pub signed_fill_qty : Side → Quantity → Result ℤ
signed_fill_qty side quantity = checked_qty quantity >>= λ n. ok (side_sign side *ℤ pos n)

-- `Math.sign(q)`
abbrev pub sign : ℤ → ℤ
sign q = if ltb_ℤ (pos 0) q then pos 1 else if ltb_ℤ q (pos 0) then negsuc 0 else pos 0

unfoldable pub realized_on_close : ℤ → Money → ℕ → Money → Money
unfolding money_mul_qty money_sub
realized_on_close open_qty average close_qty exit_price =
    if ltb_ℤ (pos 0) open_qty
    then money_mul_qty (money_sub exit_price average) (pos close_qty)
    else money_mul_qty (money_sub average exit_price) (pos close_qty)

module _ (current : PositionState) (fill : FillApplication) (n : ℕ) (signed : ℤ) where
  -- the branches of `applyFillToPosition`, for a fill of `n` shares and the signed quantity `signed`
  pub next_fees : Money
  next_fees = money_add current.fees fill.fee

  pub open_position : FillApplyResult
  open_position = record {
    next = record {
      quantity = signed;
      average_price = fill.price;
      realized_pnl = current.realized_pnl;
      fees = next_fees;
      opened_at = some fill.at;
    };
    event_kind = opened;
    realized_delta = money_zero;
    closed_qty = 0;
    opened_qty = n;
    is_reversed = false;
  }

  pub increase_numerator : Money
  unfolding money_add money_mul_qty
  increase_numerator =
      money_add (money_mul_qty current.average_price (pos (abs current.quantity)))
        (money_mul_qty fill.price (pos n))

  pub increase_to : Money → FillApplyResult
  increase_to average = record {
    next = record {
      quantity = current.quantity +ℤ signed;
      average_price = average;
      realized_pnl = current.realized_pnl;
      fees = next_fees;
      opened_at = some (or_else current.opened_at fill.at);
    };
    event_kind = increased;
    realized_delta = money_zero;
    closed_qty = 0;
    opened_qty = n;
    is_reversed = false;
  }

  pub increase_position : Result FillApplyResult
  increase_position = do
    average ← money_div_qty increase_numerator (pos (abs current.quantity + n))
    ok (increase_to average)

  pub reduce_position : FillApplyResult
  reduce_position =
      let delta = realized_on_close current.quantity current.average_price n fill.price in
      record {
        next = record {
          quantity = current.quantity +ℤ signed;
          average_price = current.average_price;
          realized_pnl = money_add current.realized_pnl delta;
          fees = next_fees;
          opened_at = current.opened_at;
        };
        event_kind = reduced;
        realized_delta = delta;
        closed_qty = n;
        opened_qty = 0;
        is_reversed = false;
      }

  pub close_position : FillApplyResult
  close_position =
      let delta = realized_on_close current.quantity current.average_price n fill.price in
      record {
        next = record {
          quantity = pos 0;
          average_price = money_zero;
          realized_pnl = money_add current.realized_pnl delta;
          fees = next_fees;
          opened_at = current.opened_at;
        };
        event_kind = closed;
        realized_delta = delta;
        closed_qty = n;
        opened_qty = 0;
        is_reversed = false;
      }

  pub reverse_position : FillApplyResult
  reverse_position =
      let close_qty = abs current.quantity in
      let leftover = n - abs current.quantity in
      let delta = realized_on_close current.quantity current.average_price close_qty fill.price in
      record {
        next = record {
          quantity = sign signed *ℤ pos leftover;
          average_price = fill.price;
          realized_pnl = money_add current.realized_pnl delta;
          fees = next_fees;
          opened_at = some fill.at;
        };
        event_kind = reversed;
        realized_delta = delta;
        closed_qty = close_qty;
        opened_qty = leftover;
        is_reversed = true;
      }

  -- the ladder of `applyFillToPosition`
  unfoldable pub dispatch_fill : Result FillApplyResult
  dispatch_fill =
      if eqb_ℤ current.quantity (pos 0)
      then ok open_position
      else if eqb_ℤ (sign current.quantity) (sign signed)
      then increase_position
      else if ltb n (abs current.quantity)
      then ok reduce_position
      else if n == abs current.quantity
      then ok close_position
      else ok reverse_position

unfoldable pub apply_fill_to_position : PositionState → FillApplication → Result FillApplyResult
unfolding signed_fill_qty
apply_fill_to_position current fill = do
  signed ← signed_fill_qty fill.side fill.quantity
  n ← checked_qty fill.quantity
  dispatch_fill current fill n signed
