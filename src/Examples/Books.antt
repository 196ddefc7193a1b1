-- ===== src/Examples/Books.antt =====
-- Orders, ledger rows and flattens at concrete figures.
use cm_desk.Prelude.{
  ◌≤◌, ◌≡◌, ◌≢◌, ◌⊎◌, refl, true, false, not, ◌&&◌, ◌==◌, ltb, none, some, List, [], ◌∷◌, filter,
  if◌then◌else◌,
}
use cm_desk.Prelude.Int.{ℤ, pos, negsuc, ◌+ℤ◌}
use cm_desk.Prelude.Text.{Text, codes}
use cm_desk.Money.{ok}
use cm_desk.Types.{buy, closed}
use cm_desk.Accounting.Fill.{
  PositionState, FillApplication, FillApplyResult, whole, apply_fill_to_position,
}
use cm_desk.Order.{
  filled, partially_filled, rejected, can_transition_order, assert_order_transition,
}
use cm_desk.Order.Lifecycle.{here, next, move, Reach-terminal}
use cm_desk.Order.Kite.{FillReport, commit_broker_fill_progress, commit-progress}
use cm_desk.Paper.Match.{strategy_key, is_exact, is_untagged, is_tagged, match_position_for_fill}
use cm_desk.Paper.Match.Strategies.{
  is_refuse, is_insert, match_position-outcome, match_position-strategies,
}
use cm_desk.Prelude.{Option, length, if◌then◌else◌}
use cm_desk.Prelude.Text.{text_eq, trim, is_empty}
use cm_desk.Book.{LedgerRow, BookSources, split_ledger_qty, counts_row, flatten_row_plan}
use cm_desk.Book.Split.{total_qty, on_paper, on_live, split_ledger-totals}
use cm_desk.Book.Flatten.{flatten-closes}

rejected_again : assert_order_transition rejected rejected ≡ some tt
unfolding assert_order_transition can_transition_order
rejected_again = refl

-- a call that asks for the status that is there
Reach-terminal_example : rejected ≡ rejected
Reach-terminal_example =
    Reach-terminal rejected refl refl (next here (move rejected rejected rejected_again))

-- a report of 75 whose fill row was not saved
abbrev unsaved_report : FillReport
unsaved_report = record {
  previous_filled_qty = pos 25;
  kite_filled_qty = pos 75;
  fill_row_saved = false;
  from_status = partially_filled;
  next_status = filled;
}

commit-progress_example :
    let r = commit_broker_fill_progress unsaved_report in
    (25 ≤ r.filled_qty)
    × ((r.filled_qty ≡ 25) ⊎ ((false ≡ true) × (r.filled_qty ≡ 75)))
    × ((75 ≤ r.filled_qty)
        ⊎ ((r.status ≡ partially_filled) ⊎ ((r.status ≢ filled) × (r.status ≢ partially_filled))))
commit-progress_example = commit-progress unsaved_report

abbrev row : ℤ → Text → LedgerRow
row quantity provenance = record {
  tradingsymbol = some (codes "NIFTY26JANFUT");
  quantity = some quantity;
  provenance = some provenance;
  strategy = some (codes "CHASE");
}

abbrev rows : List LedgerRow
rows =
    row (pos 75) (codes "LIVE") ∷ row (negsuc 49) (codes "PAPER") ∷ row (pos 25) (codes "LIVE") ∷ []

split_ledger-totals_example :
    let r = split_ledger_qty (some (codes "NIFTY26JANFUT")) none rows in
    (r.paper_ledger_qty ≡ total_qty (filter (on_paper (some (codes "NIFTY26JANFUT")) none) rows))
    × (r.live_ledger_qty ≡ total_qty (filter (on_live (some (codes "NIFTY26JANFUT")) none) rows))
    × (r.paper_ledger_qty +ℤ r.live_ledger_qty
        ≡ total_qty (filter (counts_row (some (codes "NIFTY26JANFUT")) none) rows))
split_ledger-totals_example = split_ledger-totals (some (codes "NIFTY26JANFUT")) none rows

-- a short book of 50, where Kite still shows 75 on the other side
abbrev short_book : PositionState
short_book = record {
  quantity = negsuc 49;
  average_price = pos 1_000_000;
  realized_pnl = pos 0;
  fees = pos 0;
  opened_at = some 5;
}

abbrev cover : FillApplication
cover = record { side = buy; quantity = whole (pos 50); price = pos 990_000; fee = pos 0; at = 9 }

flatten-closes_example :
    (r : FillApplyResult) × (apply_fill_to_position short_book cover ≡ ok r)
    × (r.next.quantity ≡ pos 0)
    × (r.event_kind ≡ closed)
    × (r.is_reversed ≡ false)
unfolding flatten_row_plan
flatten-closes_example = flatten-closes short_book cover true true (pos 75) 50 refl refl refl

abbrev live_leftover : BookSources
live_leftover = record {
  paper_book = false;
  kite_qty = pos 0;
  paper_ledger_qty = pos 25;
  live_ledger_qty = negsuc 24;
}

-- a fill of Chase beside a row of Momentum and one with no strategy
abbrev tagged : Option Text → LedgerRow
tagged strategy = record (row (pos 25) (codes "LIVE")) { strategy = strategy }

abbrev contract_rows : List LedgerRow
contract_rows = tagged (some (codes "MOMENTUM")) ∷ tagged none ∷ []

abbrev row_strategy : LedgerRow → Option Text
row_strategy r = r.strategy

match_position-outcome_example :
    let exact = length (filter (is_exact row_strategy (some (codes "CHASE"))) contract_rows) in
    let untagged =
      length (filter (is_untagged row_strategy (some (codes "CHASE"))) contract_rows) in
    let tags = length (filter (is_tagged row_strategy (some (codes "CHASE"))) contract_rows) in
    let result = match_position_for_fill row_strategy (some (codes "CHASE")) contract_rows in
    let unnamed = is_empty (strategy_key (some (codes "CHASE"))) in
    (is_refuse result ≡ (unnamed && exact == 0 && ltb 1 tags))
    × (is_insert result ≡ (exact == 0 && (if unnamed then tags == 0 else not (untagged == 1))))
match_position-outcome_example =
    match_position-outcome row_strategy (some (codes "CHASE")) contract_rows

match_position-strategies_example :
    ((tagged none).quantity ≡ some (pos 25))
    × ((strategy_key none ≡ strategy_key (some (codes "CHASE")))
        ⊎ ((is_empty (strategy_key none) ≡ true)
            ⊎ (is_empty (strategy_key (some (codes "CHASE"))) ≡ true)))
unfolding match_position_for_fill strategy_key trim text_eq
match_position-strategies_example =
    match_position-strategies row_strategy (some (codes "CHASE")) contract_rows
      (λ r. r.quantity ≡ some (pos 25)) (tagged none) (refl, (refl, tt)) refl
