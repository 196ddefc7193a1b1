-- ===== src/Chase/Fill.antt =====
-- lib/chaseFill.ts: the configured lots, the Chase book, the status of a book and its entry.
use cm_desk.Prelude.{
  ℕ, ◌≡◌, Bool, true, false, not, ◌&&◌, ◌||◌, Option, none, some, or_else, List, filter, arith,
  ◌==◌, if◌then◌else◌,
}
use cm_desk.Prelude.Int.{ℤ, pos, negsuc, ltb_ℤ}
use cm_desk.Prelude.Text.{Text, codes, text_eq, truthy, opt_text_eq}
use cm_desk.Book.{
  LedgerRow, BookQtySplit, split_ledger_qty, BookSources, ActiveBookBreakdown,
  active_book_from_sources, SwitchBlock, execution_mode_switch_blocked,
}
use cm_desk.Risk.Settings.{ExecutionMode}
use cm_desk.Chase.Cover.{ChaseSide, long, short, chase_side_has_position, chase_flatten_qty}

-- `Math.trunc` of a finite figure of at least 1, else 0; `none` is a figure that is not finite.
unfoldable pub chase_lots_from_config : Option ℤ → ℕ
chase_lots_from_config none = 0
chase_lots_from_config (some (pos n)) = n
chase_lots_from_config (some (negsuc n)) = 0

-- The rows that count for Chase: its own, and those with no strategy.
abbrev pub is_chase_row : LedgerRow → Bool
is_chase_row row = not (truthy row.strategy) || opt_text_eq row.strategy (some (codes "CHASE"))

unfoldable pub split_chase_ledger_qty : List LedgerRow → Option Text → BookQtySplit
split_chase_ledger_qty positions tradingsymbol =
    split_ledger_qty tradingsymbol none (filter is_chase_row positions)

unfoldable pub chase_book_from_sources : BookSources → ActiveBookBreakdown
chase_book_from_sources input = active_book_from_sources input

unfoldable pub chase_book_net_qty : Bool → ℤ → Option ℤ → Option ℤ → ℤ
unfolding chase_book_from_sources
chase_book_net_qty paper_book kite_qty paper_qty live_qty =
    (chase_book_from_sources (record {
      paper_book = paper_book;
      kite_qty = kite_qty;
      paper_ledger_qty = or_else paper_qty (pos 0);
      live_ledger_qty = or_else live_qty (pos 0);
    })).net_qty

unfoldable pub chase_execution_mode_switch_blocked :
    Bool → ExecutionMode → ExecutionMode → BookSources → Option SwitchBlock
chase_execution_mode_switch_blocked process_mock from_mode to_mode books =
    execution_mode_switch_blocked process_mock from_mode to_mode books

-- The constants of `CHASE_STATUS`.
pub data ChaseStatus : Type 0 where
  short_held long_held awaiting_short awaiting_long awaiting_signal : ChaseStatus

abbrev pub held : ChaseSide → ChaseStatus
held long = long_held
held short = short_held

unfoldable pub chase_status_has_position : Option ChaseStatus → ℤ → Bool
chase_status_has_position (some long_held) net_qty = ltb_ℤ (pos 0) net_qty
chase_status_has_position (some short_held) net_qty = ltb_ℤ net_qty (pos 0)
chase_status_has_position _ net_qty = false

pub data ChaseFillDecision : Type 0 where
  already_filled wait_open_order place_entry signal_only : ChaseFillDecision
  other_book_open leftover_open : ChaseFillDecision

pub data ChaseEntryFillResult : Type 0 where
  filled placed wait failed only_signal : ChaseEntryFillResult

-- `none` is "place_entry".
unfoldable pub chase_fill_from_decision : ChaseFillDecision → Option ChaseEntryFillResult
chase_fill_from_decision already_filled = some filled
chase_fill_from_decision wait_open_order = some wait
chase_fill_from_decision signal_only = some only_signal
chase_fill_from_decision other_book_open = some failed
chase_fill_from_decision leftover_open = some failed
chase_fill_from_decision place_entry = none

unfoldable pub chase_fill_allows_status_flip : ChaseEntryFillResult → Bool
chase_fill_allows_status_flip filled = true
chase_fill_allows_status_flip _ = false

pub data PositionSync : Type 0 where
  hold wait_entry reset_empty : PositionSync

unfoldable pub decide_chase_in_position_sync : ℤ → ChaseSide → Bool → PositionSync
decide_chase_in_position_sync net_qty side has_open_entry_order =
    if chase_side_has_position side net_qty
    then hold
    else if has_open_entry_order
    then wait_entry
    else reset_empty

abbrev pub is_reset : PositionSync → Bool
is_reset reset_empty = true
is_reset _ = false

unfoldable pub may_reset_empty_chase_status : PositionSync → Bool → Bool → Bool
may_reset_empty_chase_status sync paper_book kite_qty_known =
    if not (is_reset sync)
    then false
    else if not paper_book && not kite_qty_known
    then false
    else true

unfoldable pub chase_pending_status_for : ChaseSide → ChaseStatus
chase_pending_status_for long = awaiting_long
chase_pending_status_for short = awaiting_short

unfoldable pub chase_empty_in_position_must_not_punch_lots : PositionSync → Bool
chase_empty_in_position_must_not_punch_lots reset_empty = true
chase_empty_in_position_must_not_punch_lots wait_entry = true
chase_empty_in_position_must_not_punch_lots hold = false

-- the plans that `chaseSlBreachMayClearStatus` knows
abbrev pub is_known_plan : Text → Bool
is_known_plan plan =
    text_eq plan (codes "phantom_empty")
    || text_eq plan (codes "already_covered")
    || text_eq plan (codes "place_flatten")
    || text_eq plan (codes "convert_working_stop")

unfoldable pub chase_sl_breach_may_clear_status : Text → ℤ → Bool
chase_sl_breach_may_clear_status plan signed_qty =
    if not (is_known_plan plan) then false else chase_flatten_qty signed_qty == 0

-- A held status may be cleared only when the quantity that was read shows no position of that side, no entry
-- order is at work, and the quantity is known: from the paper ledger, or from Kite.
pub status_reset-safe :
    (net_qty : ℤ) (side : ChaseSide) (has_open_entry_order paper_book kite_qty_known : Bool)
    → may_reset_empty_chase_status
        (decide_chase_in_position_sync net_qty side has_open_entry_order)
        paper_book
        kite_qty_known
      ≡ (not (chase_status_has_position (some (held side)) net_qty)
          && not has_open_entry_order
          && (paper_book || kite_qty_known))
unfolding may_reset_empty_chase_status decide_chase_in_position_sync chase_status_has_position
    chase_side_has_position
status_reset-safe net_qty long has_open_entry_order paper_book kite_qty_known = ground arith
status_reset-safe net_qty short has_open_entry_order paper_book kite_qty_known = ground arith
