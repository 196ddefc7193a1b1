-- ===== src/Reconcile.antt =====
-- lib/trading/strategyReconcile.ts: the difference between the broker's and the desk's quantity of a
-- strategy, and the trades of the broker that it is booked from. Quantities are whole where they pass
-- `Number.isInteger`; a trade's price is a JavaScript number.
pub mod Accepted
pub mod Allocate
pub mod Positions
pub mod Backfill
pub mod Sync
use cm_desk.Prelude.{
  ℕ, ◌+◌, ◌-◌, ◌==◌, Bool, true, false, not, ◌&&◌, ◌||◌, Option, none, some, List, [], ◌∷◌, ltb,
  leb, if◌then◌else◌,
}
use cm_desk.Prelude.Int.{ℤ, pos, abs, ◌-ℤ◌, eqb_ℤ}
use cm_desk.Prelude.Text.{Text}
use cm_desk.Prelude.Double.{Double}
use cm_desk.Accounting.Fill.{Quantity, whole, not_whole, sign}

unfoldable pub strategy_quantity_difference : ℤ → ℤ → ℤ → ℤ
strategy_quantity_difference broker_qty strategy_qty other_qty =
    broker_qty -ℤ other_qty -ℤ strategy_qty

unfoldable pub reconcile_target_tied : ℤ → ℕ → Bool
reconcile_target_tied strategy_qty prior_touches =
    not (eqb_ℤ strategy_qty (pos 0)) || ltb 0 prior_touches

unfoldable pub accepted_quantity : Quantity → Quantity → Option ℤ
accepted_quantity not_whole requested = none
accepted_quantity (whole difference) not_whole = none
accepted_quantity (whole difference) (whole requested) =
    if eqb_ℤ difference (pos 0) || eqb_ℤ requested (pos 0)
    then none
    else if not (eqb_ℤ (sign requested) (sign difference))
    then none
    else if ltb (abs difference) (abs requested)
    then none
    else some requested

pub record TradeSlice {ℓ} (F : Type ℓ) : Type ℓ where
  pub trade_id : Text
  pub quantity : ℕ
  pub price : F
  pub occurred_at : ℕ
  pub already_used : ℕ

pub record AllocatedSlice {ℓ} (F : Type ℓ) : Type ℓ where
  pub trade_id : Text
  pub quantity : ℕ
  pub price : F
  pub occurred_at : ℕ
  pub consumes_trade : Bool

pub record Allocation {ℓ} (F : Type ℓ) : Type ℓ where
  pub slices : List (AllocatedSlice F)
  pub shortfall : ℕ

module _ {ℓ} {F : Type ℓ} where
  -- `sort` by time, which keeps the order of equal times
  pub insert_by_time : TradeSlice F → List (TradeSlice F) → List (TradeSlice F)
  insert_by_time t [] = t ∷ []
  insert_by_time t (x ∷ xs) =
      let later = insert_by_time t xs in
      if leb t.occurred_at x.occurred_at then t ∷ x ∷ xs else x ∷ later

  pub sort_by_time : List (TradeSlice F) → List (TradeSlice F)
  sort_by_time [] = []
  sort_by_time (t ∷ ts) = insert_by_time t (sort_by_time ts)

abbrev pub min_qty : ℕ → ℕ → ℕ
min_qty a b = if ltb b a then b else a

module _ {ℓ} {F : Type ℓ} ⦃d : Double F⦄ where
  -- `available > 0 && price > 0`, where `available` is the difference of two counts
  abbrev pub is_usable : TradeSlice F → Bool
  is_usable t = ltb t.already_used t.quantity && d.lt (d.of_ℕ 0) t.price

  abbrev pub available : TradeSlice F → ℕ
  available t = if is_usable t then t.quantity - t.already_used else 0

  abbrev pub slice_of : TradeSlice F → ℕ → AllocatedSlice F
  slice_of t take = record {
    trade_id = t.trade_id;
    quantity = take;
    price = t.price;
    occurred_at = t.occurred_at;
    consumes_trade = t.already_used == 0 && take == t.quantity;
  }

  -- one trade, before what is taken of the later ones
  abbrev pub take_trade : ℕ → TradeSlice F → Allocation F → Allocation F
  take_trade remaining t rest =
      if remaining == 0
      then record { slices = []; shortfall = 0 }
      else if is_usable t
      then record {
        slices = slice_of t (min_qty (available t) remaining) ∷ rest.slices;
        shortfall = rest.shortfall;
      }
      else rest

  -- the loop over the trades; a trade that is passed over takes nothing
  pub allocate_from : ℕ → List (TradeSlice F) → Allocation F
  allocate_from remaining [] = record { slices = []; shortfall = remaining }
  allocate_from remaining (t ∷ ts) =
      take_trade remaining t (allocate_from (remaining - min_qty (available t) remaining) ts)

  unfoldable pub allocate_broker_trades : ℤ → List (TradeSlice F) → Allocation F
  unfolding insert_by_time sort_by_time allocate_from
  allocate_broker_trades accepted trades = allocate_from (abs accepted) (sort_by_time trades)
