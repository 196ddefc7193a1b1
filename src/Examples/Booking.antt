-- ===== src/Examples/Booking.antt =====
-- A ledger with one position of 50, and a fill of 75 to apply.
use cm_desk.Prelude.{◌==◌, ◌≡◌, ◌⊎◌, refl, true, false, none, some, [], ◌∷◌, arith}
use cm_desk.Prelude.Int.{pos, ◌+ℤ◌, ◌*ℤ◌}
use cm_desk.Prelude.Text.{codes}
use cm_desk.Types.{buy, sell, side_sign, long}
use cm_desk.Ledger.{StoredFill, StoredPosition, StoredTrade, Store, is_open}
use cm_desk.Prelude.{filter}
use cm_desk.Prelude.Text.{trim, text_eq}
use cm_desk.Paper.Match.{strategy_key, match_position_for_fill}
use cm_desk.Paper.Match.Strategies.{is_refuse}
use cm_desk.Ledger.{find}
use cm_desk.Ledger.Apply.{same_contract, row_strategy}
use cm_desk.Ledger.Apply.Commit.{apply_fill-commits}
use cm_desk.Ledger.Rows.{total, Distinct}
use cm_desk.Ledger.Apply.{apply_fill_by_id}
use cm_desk.Ledger.Apply.Once.{apply_fill-once}
use cm_desk.Ledger.Apply.Balance.{position_qty, IsBalanced}
use cm_desk.Ledger.Apply.Invariant.{apply_fill-IsBalanced}

abbrev booked_fill : StoredFill
booked_fill = record {
  id = 1;
  is_applied = true;
  account_id = codes "default";
  job_id = none;
  decision_id = none;
  strategy = some (codes "CHASE");
  exchange = codes "NFO";
  tradingsymbol = codes "NIFTY26JANFUT";
  instrument_token = some 256265;
  product = some (codes "NRML");
  side = buy;
  quantity = pos 50;
  price = pos 1_000_000;
  fee_amount = pos 200_000;
  occurred_at = 1_767_588_000_000;
  provenance = some (codes "LIVE");
  order_id = 0;
  fingerprint = codes "kite-order:B1:agg:50:100";
  broker_trade_id = none;
}

abbrev new_fill : StoredFill
new_fill = record booked_fill {
  id = 2;
  is_applied = false;
  side = sell;
  quantity = pos 75;
  occurred_at = 1_767_588_300_000;
}

abbrev pub held_position : StoredPosition
held_position = record {
  id = 0;
  account_id = codes "default";
  job_id = none;
  strategy = some (codes "CHASE");
  exchange = codes "NFO";
  tradingsymbol = codes "NIFTY26JANFUT";
  instrument_token = some 256265;
  product = codes "NRML";
  quantity = pos 50;
  average_entry_price = pos 1_000_000;
  cost_basis = pos 50_000_000;
  realized_pnl = pos 0;
  fees = pos 200_000;
  opened_at = some 1_767_588_000_000;
  closed_at = none;
  last_fill_at = some 1_767_588_000_000;
  status = is_open;
  provenance = some (codes "LIVE");
  mark_price = none;
  unrealized_pnl = some (pos 0);
  market_value = some (pos 0);
}

abbrev open_trade : StoredTrade
open_trade = record {
  id = 0;
  account_id = codes "default";
  job_id = none;
  decision_id = none;
  position_id = 0;
  strategy = some (codes "CHASE");
  exchange = codes "NFO";
  tradingsymbol = codes "NIFTY26JANFUT";
  product = codes "NRML";
  direction = long;
  status = is_open;
  entry_qty = 50;
  exit_qty = 0;
  average_entry = pos 1_000_000;
  average_exit = none;
  gross_pnl = pos 0;
  fees = pos 0;
  net_pnl = pos 0;
  return_pct = none;
  holding_period_ms = none;
  entry_at = 1_767_588_000_000;
  exit_at = none;
  exit_reason = none;
  provenance = codes "LIVE";
}

abbrev ledger : Store
ledger = record {
  fills = booked_fill ∷ new_fill ∷ [];
  positions = held_position ∷ [];
  trades = open_trade ∷ [];
  events = [];
  next_fill = 3;
  next_position = 1;
  next_trade = 1;
}

ledger-IsBalanced : IsBalanced ledger
unfolding Distinct total ◌+ℤ◌ ◌*ℤ◌ side_sign
ledger-IsBalanced = record {
  fill_ids = ((refl, tt), (tt, tt));
  position_ids = (tt, tt);
  new_id = (omega arith, tt);
  balance = refl;
}

apply_fill-IsBalanced_example : IsBalanced (apply_fill_by_id 2 none ledger).0
apply_fill-IsBalanced_example = apply_fill-IsBalanced 2 none ledger ledger-IsBalanced

apply_fill-once_example :
    let r = apply_fill_by_id 2 none ledger in
    (r ≡ (ledger, false)) ⊎ ((r.1 ≡ true) × (apply_fill_by_id 2 none r.0 ≡ (r.0, false)))
apply_fill-once_example = apply_fill-once 2 none none ledger

new_fill-kept :
    is_refuse (
      match_position_for_fill row_strategy new_fill.strategy
        (filter (same_contract new_fill) ledger.positions))
    ≡ false
unfolding match_position_for_fill strategy_key trim text_eq
new_fill-kept = refl

new_fill-found : find (λ f. f.id == 2) ledger.fills ≡ some new_fill
unfolding find
new_fill-found = refl

apply_fill-commits_example :
    let r = apply_fill_by_id 2 none ledger in
    (r.1 ≡ true)
    × (find (λ f. f.id == 2) r.0.fills ≡ some (record new_fill { is_applied = true }))
    × (total position_qty r.0.positions
        ≡ total position_qty ledger.positions +ℤ side_sign sell *ℤ pos 75)
apply_fill-commits_example =
    apply_fill-commits 2 none ledger new_fill 74 ledger-IsBalanced new_fill-found refl refl
      new_fill-kept
