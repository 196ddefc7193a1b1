-- ===== src/Book.antt =====
-- lib/trading/bookSplit.ts: the paper book and the live one are counted apart, and a flatten is sized from
-- the open book alone. Quantities are whole numbers of shares; `Number(q) || 0` has read them.
pub mod Split
pub mod Flatten
use cm_desk.Prelude.{
  ℕ, suc, ◌+◌, Bool, true, false, not, ◌&&◌, ◌||◌, Option, none, some, or_else, List, [], ◌∷◌,
  filter, ltb, if◌then◌else◌,
}
use cm_desk.Prelude.Int.{ℤ, pos, negsuc, abs, ◌+ℤ◌, ltb_ℤ, eqb_ℤ}
use cm_desk.Prelude.Text.{Text, codes, opt_text_eq, truthy, starts_with, to_upper}
use cm_desk.Types.{Side, buy, sell, Provenance, is_synthetic, ledger_provenance, provenance_in_book}
use cm_desk.Risk.Settings.{ExecutionMode, paper_mode, live_mode, is_live_mode}

pub record LedgerRow : Type 0 where
  pub tradingsymbol : Option Text
  pub quantity : Option ℤ
  pub provenance : Option Text
  pub strategy : Option Text

pub record BookQtySplit : Type 0 where
  pub paper_ledger_qty : ℤ
  pub live_ledger_qty : ℤ

-- `row.quantity || 0`
abbrev pub row_qty : LedgerRow → ℤ
row_qty row = or_else row.quantity (pos 0)

-- An option that is given must equal the row's field.
abbrev pub passes_option : Option Text → Option Text → Bool
passes_option opt field = not (truthy opt) || opt_text_eq field opt

abbrev pub is_paper_row : LedgerRow → Bool
is_paper_row row = is_synthetic (ledger_provenance row.provenance)

module _ (tradingsymbol strategy : Option Text) where
  -- whether the loop of `splitLedgerQty` counts the row
  abbrev pub counts_row : LedgerRow → Bool
  counts_row row =
      passes_option tradingsymbol row.tradingsymbol && passes_option strategy row.strategy

  abbrev pub add_row : BookQtySplit → LedgerRow → BookQtySplit
  add_row acc row =
      if not (counts_row row) || eqb_ℤ (row_qty row) (pos 0)
      then acc
      else if is_paper_row row
      then record acc { paper_ledger_qty = acc.paper_ledger_qty +ℤ row_qty row }
      else record acc { live_ledger_qty = acc.live_ledger_qty +ℤ row_qty row }

  pub split_from : BookQtySplit → List LedgerRow → BookQtySplit
  split_from acc [] = acc
  split_from acc (row ∷ rows) = split_from (add_row acc row) rows

  unfoldable pub split_ledger_qty : List LedgerRow → BookQtySplit
  unfolding split_from
  split_ledger_qty rows =
      split_from (record { paper_ledger_qty = pos 0; live_ledger_qty = pos 0 }) rows

pub record BookSources : Type 0 where
  pub paper_book : Bool
  pub kite_qty : ℤ
  pub paper_ledger_qty : ℤ
  pub live_ledger_qty : ℤ

pub record ActiveBookBreakdown : Type 0 where
  pub sources : BookSources
  pub net_qty : ℤ
  pub other_book_open : Bool

abbrev pub is_open : ℤ → Bool
is_open q = not (eqb_ℤ q (pos 0))

unfoldable pub active_book_from_sources : BookSources → ActiveBookBreakdown
active_book_from_sources input = record {
  sources = input;
  net_qty =
      if input.paper_book
      then input.paper_ledger_qty
      else if is_open input.kite_qty
      then input.kite_qty
      else input.live_ledger_qty;
  other_book_open =
      if input.paper_book then is_open input.live_ledger_qty || is_open input.kite_qty else false;
}

-- `a === b` on modes
abbrev pub mode_eq : ExecutionMode → ExecutionMode → Bool
mode_eq paper_mode paper_mode = true
mode_eq live_mode live_mode = true
mode_eq _ _ = false

-- Why a switch is refused: `already_live` going live, `still_live` going to paper.
pub data SwitchBlock : Type 0 where
  already_live still_live : SwitchBlock

-- `none` is `{ ok: true }`.
unfoldable pub execution_mode_switch_blocked :
    Bool → ExecutionMode → ExecutionMode → BookSources → Option SwitchBlock
execution_mode_switch_blocked process_mock from_mode to_mode books =
    let live_open = is_open books.live_ledger_qty || is_open books.kite_qty in
    if process_mock || mode_eq from_mode to_mode
    then none
    else if is_live_mode to_mode
    then (if live_open then some already_live else none)
    else if live_open
    then some still_live
    else none

-- whether the filter of `ledgerRowsForActiveBook` keeps the row
abbrev pub keeps_row : Bool → Option Text → LedgerRow → Bool
keeps_row paper_book strategy row =
    if eqb_ℤ (row_qty row) (pos 0)
    then false
    else if truthy strategy && truthy row.strategy && not (opt_text_eq row.strategy strategy)
    then false
    else provenance_in_book row.provenance paper_book

unfoldable pub ledger_rows_for_active_book : Bool → Option Text → List LedgerRow → List LedgerRow
ledger_rows_for_active_book paper_book strategy rows = filter (keeps_row paper_book strategy) rows

pub data QtySource : Type 0 where
  paper_ledger kite live_ledger empty : QtySource

unfoldable pub square_off_qty_source : Bool → Bool → ℕ → QtySource
square_off_qty_source paper_book kite_queried kite_net_length =
    if paper_book
    then paper_ledger
    else if kite_queried && ltb 0 kite_net_length
    then kite
    else if kite_queried
    then empty
    else live_ledger

pub data FlattenRowPlan : Type 0 where
  flatten : ℕ → Side → FlattenRowPlan
  broker_already_flat already_flat : FlattenRowPlan

abbrev pub flatten_signed : ℤ → FlattenRowPlan
flatten_signed signed =
    if eqb_ℤ signed (pos 0)
    then already_flat
    else flatten (abs signed) (if ltb_ℤ (pos 0) signed then sell else buy)

unfoldable pub flatten_row_plan : ℤ → Bool → Bool → ℤ → FlattenRowPlan
unfolding square_off_qty_source
flatten_row_plan ledger_qty paper_book kite_queried kite_qty =
    elim (square_off_qty_source paper_book kite_queried (if is_open kite_qty then 1 else 0)) [
      | empty ↦ broker_already_flat
      | kite ↦ flatten_signed kite_qty
      | _ ↦ flatten_signed ledger_qty
    ]

pub data ChaseIndex : Type 0 where
  banknifty finnifty midcpnifty nifty : ChaseIndex

unfoldable pub chase_instrument_from_tradingsymbol : Option Text → Option ChaseIndex
chase_instrument_from_tradingsymbol symbol =
    let s = to_upper (or_else symbol []) in
    if starts_with s (codes "BANKNIFTY")
    then some banknifty
    else if starts_with s (codes "FINNIFTY")
    then some finnifty
    else if starts_with s (codes "MIDCPNIFTY")
    then some midcpnifty
    else if starts_with s (codes "NIFTY")
    then some nifty
    else none

pub data PhantomBlock : Type 0 where
  working_order kite_unavailable kite_has_size : PhantomBlock

-- `none` is `{ ok: true }`.
unfoldable pub phantom_clear_blocked : Bool → Bool → ℕ → Bool → ℤ → Option PhantomBlock
phantom_clear_blocked paper_book process_mock working_orders kite_available kite_qty =
    if ltb 0 working_orders
    then some working_order
    else if paper_book || process_mock
    then none
    else if not kite_available
    then some kite_unavailable
    else if is_open kite_qty
    then some kite_has_size
    else none
