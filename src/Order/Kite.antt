-- ===== src/Order/Kite.antt =====
-- lib/trading/kiteMap.ts: the status of a broker's report, and how far a report advances an order.
-- A quantity is the whole number that `Math.trunc(Number(…)) || 0` reads.
use cm_desk.Prelude.{
  ℕ, ◌≤◌, ◌≡◌, ◌≢◌, ◌⊎◌, Bool, true, not, ◌&&◌, ◌||◌, Option, none, some, List, [], ◌∷◌, arith, ltb,
  leb, ◌==◌, if◌then◌else◌, or_else,
}
use cm_desk.Prelude.Int.{ℤ, pos, negsuc}
use cm_desk.Prelude.Text.{Text, codes, text_eq, to_upper, trim}
use cm_desk.Order.{
  OrderStatus, submitted, accepted, partially_filled, filled, cancel_requested, cancelled, rejected,
  expired, unknown, status_eq,
}

-- the table `KITE_TO_STATUS`
abbrev pub kite_to_status : List (Text × OrderStatus)
kite_to_status =
    (codes "PUT ORDER REQ RECEIVED", submitted)
    ∷ (codes "VALIDATION PENDING", submitted)
    ∷ (codes "OPEN PENDING", submitted)
    ∷ (codes "MODIFY PENDING", accepted)
    ∷ (codes "MODIFY VALIDATION PENDING", accepted)
    ∷ (codes "AMO REQ RECEIVED", submitted)
    ∷ (codes "OPEN", accepted)
    ∷ (codes "TRIGGER PENDING", accepted)
    ∷ (codes "COMPLETE", filled)
    ∷ (codes "REJECTED", rejected)
    ∷ (codes "CANCELLED", cancelled)
    ∷ (codes "CANCEL PENDING", cancel_requested)
    ∷ (codes "EXPIRED", expired)
    ∷ []

unfoldable pub lookup : Text → List (Text × OrderStatus) → Option OrderStatus
lookup k [] = none
lookup k ((j, v) ∷ m) = if text_eq j k then some v else lookup k m

-- The status before the filled quantity is looked at.
unfoldable pub base_status : Option Text → OrderStatus
unfolding lookup
base_status kite_status =
    or_else (lookup (trim (to_upper (or_else kite_status []))) kite_to_status) unknown

-- `filledQty ?? 0` and `requestedQty ?? 0` have been read; the broker's quantities are not negative.
unfoldable pub by_quantity : OrderStatus → ℕ → ℕ → OrderStatus
by_quantity status filled_qty requested =
    let status' =
      if status_eq status accepted
        && ltb 0 filled_qty
        && (requested == 0 || ltb filled_qty requested)
      then partially_filled
      else status in
    if status_eq status' accepted && ltb 0 requested && leb requested filled_qty
    then filled
    else status'

unfoldable pub map_kite_order_status : Option Text → ℕ → ℕ → OrderStatus
unfolding by_quantity
map_kite_order_status kite_status filled_qty requested =
    by_quantity (base_status kite_status) filled_qty requested

pub record FillReport : Type 0 where
  pub previous_filled_qty : ℤ
  pub kite_filled_qty : ℤ
  pub fill_row_saved : Bool
  pub from_status : OrderStatus
  pub next_status : OrderStatus

pub record FillProgress : Type 0 where
  pub filled_qty : ℕ
  pub status : OrderStatus

-- `Math.max(0, q)`
abbrev pub at_least_zero : ℤ → ℕ
at_least_zero (pos n) = n
at_least_zero (negsuc n) = 0

abbrev pub max_qty : ℕ → ℕ → ℕ
max_qty a b = if ltb a b then b else a

unfoldable pub commit_broker_fill_progress : FillReport → FillProgress
commit_broker_fill_progress input =
    let prev = at_least_zero input.previous_filled_qty in
    let kite = at_least_zero input.kite_filled_qty in
    if ltb prev kite && not input.fill_row_saved
    then record {
      filled_qty = prev;
      status =
          if status_eq input.next_status filled || status_eq input.next_status partially_filled
          then input.from_status
          else input.next_status;
    }
    else record {
      filled_qty = max_qty prev kite;
      status = if status_eq input.from_status filled then filled else input.next_status;
    }

-- The filled quantity of an order never falls; it moves only behind a saved fill row, and then to the
-- broker's figure. It stays behind the broker's figure only with its old status, or with a new one that
-- claims no fill.
pub commit-progress :
    (input : FillReport)
    → let r = commit_broker_fill_progress input in
      let prev = at_least_zero input.previous_filled_qty in
      let kite = at_least_zero input.kite_filled_qty in
      (prev ≤ r.filled_qty)
      × ((r.filled_qty ≡ prev) ⊎ ((input.fill_row_saved ≡ true) × (r.filled_qty ≡ kite)))
      × ((kite ≤ r.filled_qty)
          ⊎ ((r.status ≡ input.from_status)
              ⊎ ((r.status ≢ filled) × (r.status ≢ partially_filled))))
unfolding commit_broker_fill_progress
commit-progress input = ground arith

by_quantity_lem :
    (status : OrderStatus) (filled_qty requested : ℕ)
    → by_quantity status filled_qty requested ≡ (
        if status_eq status accepted
        then (if ltb 0 requested && leb requested filled_qty
            then filled
            else (if ltb 0 filled_qty then partially_filled else accepted))
        else status)
unfolding by_quantity
by_quantity_lem accepted filled_qty requested = ground arith
by_quantity_lem _ filled_qty requested = ground arith

-- A working report counts as filled when the broker has filled all of a known quantity, else as partially
-- filled when it has filled anything; any other report keeps the status of its text.
pub map_kite-by_quantity :
    (kite_status : Option Text) (filled_qty requested : ℕ)
    → map_kite_order_status kite_status filled_qty requested ≡ (
        if status_eq (base_status kite_status) accepted
        then (if ltb 0 requested && leb requested filled_qty
            then filled
            else (if ltb 0 filled_qty then partially_filled else accepted))
        else base_status kite_status)
unfolding map_kite_order_status
map_kite-by_quantity kite_status filled_qty requested =
    by_quantity_lem (base_status kite_status) filled_qty requested
