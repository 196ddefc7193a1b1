-- ===== src/Chase/Cover.antt =====
-- lib/chaseFill.ts: the size of a cover, and what a stop breach does. Quantities are whole numbers of
-- shares; `Number(q) || 0` has read them.
pub mod Safety
use cm_desk.Prelude.{
  ℕ, zero, suc, ◌+◌, ◌-◌, ◌*◌, ◌/◌, ◌%◌, Bool, true, false, not, ◌&&◌, ◌||◌, Option, none, some,
  or_else, ltb, leb, ◌==◌, if◌then◌else◌,
}
use cm_desk.Prelude.Int.{ℤ, pos, negsuc, abs, ltb_ℤ, eqb_ℤ}
use cm_desk.Types.{Side, buy, sell}
use cm_desk.Accounting.Fill.{sign}

pub data ChaseSide : Type 0 where
  long short : ChaseSide

-- `Math.min` and `Math.max(0, a - b)`
abbrev pub min_qty : ℕ → ℕ → ℕ
min_qty a b = if ltb b a then b else a

unfoldable pub chase_side_from_net_qty : ℤ → Option ChaseSide
chase_side_from_net_qty net_qty =
    if ltb_ℤ (pos 0) net_qty then some long else if ltb_ℤ net_qty (pos 0) then some short else none

unfoldable pub chase_flatten_qty : ℤ → ℕ
chase_flatten_qty net_qty = abs net_qty

pub record RolloverQty : Type 0 where
  pub close_qty : ℕ
  pub open_qty : ℕ

-- `Math.trunc(Number(size) || 0)` has read the lot sizes.
unfoldable pub chase_rollover_order_qty : ℤ → ℤ → ℤ → RolloverQty
unfolding chase_flatten_qty
chase_rollover_order_qty net_qty current_lot next_lot_size =
    let close_qty = chase_flatten_qty net_qty in
    let next_lot = if eqb_ℤ next_lot_size (pos 0) then current_lot else next_lot_size in
    if close_qty == 0
      || not (ltb_ℤ (pos 0) current_lot)
      || not (ltb_ℤ (pos 0) next_lot)
      || not (close_qty % abs current_lot == 0)
    then record { close_qty = close_qty; open_qty = close_qty }
    else record { close_qty = close_qty; open_qty = close_qty / abs current_lot * abs next_lot }

-- The figures that the live cover is computed from; a missing one is `none`.
pub record CoverInput : Type 0 where
  pub kite_qty : ℤ
  pub ledger_qty : Option ℤ
  pub opened_qty : Option ℤ
  pub episode_filled : ℕ

-- `q != null && q !== 0 && Math.sign(q) === Math.sign(kite)`
abbrev pub known_side : Option ℤ → ℤ → Option ℕ
known_side none kite = none
known_side (some q) kite =
    if not (eqb_ℤ q (pos 0)) && eqb_ℤ (sign q) (sign kite) then some (abs q) else none

-- The rest of `chaseCoverOrderQty`, where the size at opening is not known.
abbrev pub cover_by_ledger : ℕ → Option ℕ → ℕ → ℕ
cover_by_ledger kite_abs none filled = kite_abs
cover_by_ledger kite_abs (some ledger_abs) filled =
    let gap = kite_abs - ledger_abs in if ltb 0 gap then kite_abs - min_qty filled gap else kite_abs

abbrev pub cover_by_opening : ℕ → Option ℕ → Option ℕ → ℕ → ℕ
cover_by_opening kite_abs none ledger filled = cover_by_ledger kite_abs ledger filled
cover_by_opening kite_abs (some opened_abs) ledger filled =
    let reflected = opened_abs - kite_abs in
    let unreflected = filled - reflected in kite_abs - unreflected

unfoldable pub chase_cover_order_qty : CoverInput → ℕ
chase_cover_order_qty input =
    let kite_abs = abs input.kite_qty in
    if kite_abs == 0
    then 0
    else if leb kite_abs input.episode_filled
    then 0
    else cover_by_opening kite_abs (known_side input.opened_qty input.kite_qty)
        (known_side input.ledger_qty input.kite_qty) input.episode_filled

pub data ChaseSlBreachPlan : Type 0 where
  place_flatten convert_working_stop already_covered phantom_empty : ChaseSlBreachPlan

pub record BreachInput : Type 0 where
  pub net_qty : ℤ
  pub working_stops_filled_this_tick : ℕ
  pub has_working_protective_stop : Bool
  pub filled_cover_qty : ℕ
  pub opened_qty : Option ℤ
  pub ledger_qty : Option ℤ
  pub cover_qty : Option ℕ

-- the cover that a breach would send
abbrev pub breach_cover : BreachInput → ℕ
breach_cover input = elim input.cover_qty [
  | some q ↦ q
  | none ↦ chase_cover_order_qty (record {
    kite_qty = input.net_qty;
    ledger_qty = input.ledger_qty;
    opened_qty = input.opened_qty;
    episode_filled = input.filled_cover_qty;
  })
]

unfoldable pub plan_chase_sl_breach_flatten : BreachInput → ChaseSlBreachPlan
unfolding chase_flatten_qty
plan_chase_sl_breach_flatten input =
    let open_qty = chase_flatten_qty input.net_qty in
    if ltb 0 input.working_stops_filled_this_tick
    then already_covered
    else if open_qty == 0
    then (if ltb 0 input.filled_cover_qty then already_covered else phantom_empty)
    else if breach_cover input == 0
    then already_covered
    else if input.has_working_protective_stop
    then convert_working_stop
    else place_flatten

pub data MorningStatus : Type 0 where
  long_status short_status awaiting_signal : MorningStatus

pub record MorningExit : Type 0 where
  pub status : MorningStatus
  pub order : Option (Side × ℕ)

abbrev pub status_of : ChaseSide → MorningStatus
status_of long = long_status
status_of short = short_status

unfoldable pub chase_side_has_position : ChaseSide → ℤ → Bool
chase_side_has_position long net_qty = ltb_ℤ (pos 0) net_qty
chase_side_has_position short net_qty = ltb_ℤ net_qty (pos 0)

abbrev pub cover_side : ChaseSide → Side
cover_side long = sell
cover_side short = buy

-- The order is a flatten.
unfoldable pub plan_chase_morning_exit : ChaseSide → ℤ → MorningExit
unfolding chase_flatten_qty chase_side_has_position
plan_chase_morning_exit side net_qty =
    let quantity = chase_flatten_qty net_qty in
    if not (chase_side_has_position side net_qty) || quantity == 0
    then record { status = awaiting_signal; order = none }
    else record { status = status_of side; order = some (cover_side side, quantity) }

unfoldable pub chase_cover_matches_open_book : Side → ℤ → Bool
chase_cover_matches_open_book buy signed_qty = ltb_ℤ signed_qty (pos 0)
chase_cover_matches_open_book sell signed_qty = ltb_ℤ (pos 0) signed_qty
