-- ===== src/Ledger/Apply.antt =====
-- lib/trading/ledger.ts: `applyFillById`, one transaction. A rollback returns the store that was read. The
-- audit event that follows the commit is left out.
pub mod Once
pub mod Balance
pub mod Invariant
pub mod Commit
pub mod Fills
use cm_desk.Prelude.{
  ℕ, suc, ◌==◌, Bool, true, false, not, ◌&&◌, ◌||◌, Option, none, some, or_else, is_some, List, [],
  ◌∷◌, ◌++◌, filter, if◌then◌else◌,
}
use cm_desk.Prelude.Int.{ℤ, pos, eqb_ℤ}
use cm_desk.Prelude.Text.{Text, codes, text_eq, truthy}
use cm_desk.Money.{Money, Result, ok, throw, ◌>>=◌, money_zero}
use cm_desk.Types.{provenance_text, FillBook, provenance_after_fill, resets_book_on_fill}
use cm_desk.Accounting.Fill.{
  PositionState, FillApplication, FillApplyResult, whole, empty_position, apply_fill_to_position,
}
use cm_desk.Accounting.Mark.{MarkSnapshot, cost_basis, position_mark_snapshot}
use cm_desk.Paper.Match.{PositionFillMatch, use_row, insert, refuse, match_position_for_fill}
use cm_desk.Ledger.{
  StoredFill, StoredPosition, PositionEvent, Store, RowStatus, is_open, is_flat, find, update_where,
}
use cm_desk.Ledger.Totals.{or_live, coalesce}
use cm_desk.Ledger.Trades.{sync_trade}

-- the `WHERE` of the positions that a fill may update
abbrev pub same_contract : StoredFill → StoredPosition → Bool
same_contract fill p =
    text_eq p.account_id fill.account_id
    && text_eq p.exchange fill.exchange
    && text_eq p.tradingsymbol fill.tradingsymbol
    && text_eq p.product (or_else fill.product [])
    && text_eq (or_else p.job_id []) (or_else fill.job_id [])

abbrev pub new_position : ℕ → StoredFill → StoredPosition
new_position id fill = record {
  id = id;
  account_id = fill.account_id;
  job_id = fill.job_id;
  strategy = fill.strategy;
  exchange = fill.exchange;
  tradingsymbol = fill.tradingsymbol;
  instrument_token = fill.instrument_token;
  product = or_else fill.product [];
  quantity = pos 0;
  average_entry_price = money_zero;
  cost_basis = money_zero;
  realized_pnl = money_zero;
  fees = money_zero;
  opened_at = none;
  closed_at = none;
  last_fill_at = none;
  status = is_flat;
  provenance = some (or_live fill.provenance);
  mark_price = none;
  unrealized_pnl = none;
  market_value = none;
}

-- `before`
abbrev pub state_of : StoredPosition → PositionState
state_of p = record {
  quantity = p.quantity;
  average_price = p.average_entry_price;
  realized_pnl = p.realized_pnl;
  fees = p.fees;
  opened_at = p.opened_at;
}

abbrev pub fill_book : StoredPosition → StoredFill → FillBook
fill_book p fill = record {
  position_provenance = p.provenance;
  position_qty = p.quantity;
  fill_provenance = fill.provenance;
}

abbrev pub is_fresh_book : StoredPosition → StoredFill → Bool
is_fresh_book p fill =
    eqb_ℤ p.quantity (pos 0)
    && (not (is_some p.opened_at) || resets_book_on_fill (fill_book p fill))

abbrev pub start_of : StoredPosition → StoredFill → PositionState
start_of p fill = if is_fresh_book p fill then empty_position else state_of p

abbrev pub application_of : StoredFill → FillApplication
application_of fill = record {
  side = fill.side;
  quantity = whole fill.quantity;
  price = fill.price;
  fee = fill.fee_amount;
  at = fill.occurred_at;
}

-- what `UPDATE positions` sets
abbrev pub updated_position :
    StoredPosition → StoredFill → FillApplyResult → StoredPosition → StoredPosition
updated_position p fill result row =
    let next = result.next in
    let is_flat_now = eqb_ℤ next.quantity (pos 0) in
    let marks = position_mark_snapshot next.quantity next.average_price p.mark_price in
    record row {
      quantity = next.quantity;
      average_entry_price = next.average_price;
      cost_basis = cost_basis next.quantity next.average_price;
      realized_pnl = next.realized_pnl;
      fees = next.fees;
      opened_at = next.opened_at;
      closed_at = if is_flat_now then some fill.occurred_at else none;
      last_fill_at = some fill.occurred_at;
      status = if is_flat_now then is_flat else is_open;
      strategy = coalesce row.strategy fill.strategy;
      provenance = some (provenance_text (provenance_after_fill (fill_book p fill)));
      unrealized_pnl = some marks.unrealized;
      market_value = some marks.value;
    }

abbrev pub event_of : StoredPosition → StoredFill → FillApplyResult → Option Text → PositionEvent
event_of p fill result exit_reason = record {
  position_id = p.id;
  fill_id = fill.id;
  event_kind = result.event_kind;
  quantity_before = p.quantity;
  quantity_after = result.next.quantity;
  average_before = p.average_entry_price;
  average_after = result.next.average_price;
  realized_delta = result.realized_delta;
  fee_delta = fill.fee_amount;
  reason = exit_reason;
  occurred_at = fill.occurred_at;
}

abbrev pub mark_applied : StoredFill → StoredFill
mark_applied fill = record fill { is_applied = true }

-- the update of the position and its event
abbrev pub booked : StoredPosition → StoredFill → Option Text → FillApplyResult → Store → Store
booked p fill exit_reason result s = record s {
  positions = update_where (λ x. x.id == p.id) (updated_position p fill result) s.positions;
  events = s.events ++ (event_of p fill result exit_reason ∷ []);
}

-- The writes of the transaction, once the position row is known.
unfoldable pub write_fill :
    StoredPosition → StoredFill → Option Text → FillApplyResult → Store → Store
write_fill p fill exit_reason result s =
    let traded =
      sync_trade p.id (state_of p) result fill exit_reason (booked p fill exit_reason result s) in
    record traded { fills = update_where (λ x. x.id == fill.id) mark_applied traded.fills }

pub book_fill : StoredPosition → StoredFill → Option Text → Store → Result Store
book_fill p fill exit_reason s = do
  result ← apply_fill_to_position (start_of p fill) (application_of fill)
  ok (write_fill p fill exit_reason result s)

-- the store with the inserted position
abbrev pub with_position : StoredPosition → Store → Store
with_position p s = record s {
  positions = s.positions ++ (p ∷ []);
  next_position = suc s.next_position;
}

pub book_match :
    PositionFillMatch StoredPosition → StoredFill → Option Text → Store → Option (Result Store)
book_match (use_row p) fill exit_reason s = some (book_fill p fill exit_reason s)
book_match insert fill exit_reason s =
    let p = new_position s.next_position fill in
    some (book_fill p fill exit_reason (with_position p s))
book_match refuse fill exit_reason s = none

-- commit, or roll back
pub commit : Store → Option (Result Store) → Store × Bool
commit s none = (s, false)
commit s (some (throw e)) = (s, false)
commit s (some (ok after)) = (after, true)

abbrev pub row_strategy : StoredPosition → Option Text
row_strategy p = p.strategy

-- a fill that is not applied
pub apply_new : StoredFill → Option Text → Store → Store × Bool
apply_new fill exit_reason s = commit s (
    book_match
      (match_position_for_fill row_strategy fill.strategy (filter (same_contract fill) s.positions))
      fill exit_reason s)

pub apply_found : Option StoredFill → Option Text → Store → Store × Bool
unfolding book_match commit book_fill apply_new
apply_found none exit_reason s = (s, false)
apply_found (some fill) exit_reason s =
    if fill.is_applied then (s, false) else apply_new fill exit_reason s

unfoldable pub apply_fill_by_id : ℕ → Option Text → Store → Store × Bool
unfolding apply_found
apply_fill_by_id fill_id exit_reason s =
    apply_found (find (λ f. f.id == fill_id) s.fills) exit_reason s
