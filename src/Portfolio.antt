-- ===== src/Portfolio.antt =====
-- lib/trading/portfolio.ts: `computePortfolio`. Its figures are amounts here, of which the view shows the
-- texts (`moneyToString`); the date of the session and `drawdownPct`, a floating-point number, are left out.
pub mod Sums
pub mod Consistent
pub mod Snapshots
use cm_desk.Prelude.{
  ℕ, suc, Bool, true, false, not, Option, none, some, or_else, List, [], ◌∷◌, ◌++◌, if◌then◌else◌,
}
use cm_desk.Prelude.Int.{ℤ, pos, abs, ◌+ℤ◌, ◌-ℤ◌, ltb_ℤ, eqb_ℤ}
use cm_desk.Prelude.Text.{Text, codes, text_eq, truthy}
use cm_desk.Money.{Money, Result, ok, ◌>>=◌, money_zero, money_add}
use cm_desk.Accounting.Mark.{market_value, unrealized_for_position}
use cm_desk.Accounting.Rows.{money_from_unknown}
use cm_desk.Types.{TradeBookFilter, all_books, paper_book, live_book, provenance_in_book}
use cm_desk.Ledger.{StoredPosition}

pub record StrategyPnl : Type 0 where
  pub strategy : Text
  pub realized : Money
  pub unrealized : Money

-- The variables of the loop. The buckets are in the order in which their keys were set first.
pub record Totals : Type 0 where
  pub realized : Money
  pub unrealized : Money
  pub fees : Money
  pub gross_exposure : Money
  pub net_exposure : Money
  pub open_count : ℕ
  pub by_strategy : List StrategyPnl

abbrev pub no_totals : Totals
no_totals = record {
  realized = money_zero;
  unrealized = money_zero;
  fees = money_zero;
  gross_exposure = money_zero;
  net_exposure = money_zero;
  open_count = 0;
  by_strategy = [];
}

-- whether the loop passes over a row or takes it
unfoldable pub in_view : TradeBookFilter → StoredPosition → Bool
in_view all_books p = true
in_view paper_book p = provenance_in_book p.provenance true
in_view live_book p = provenance_in_book p.provenance false

-- The mark given for the contract, or else the one of the row. A mark of an empty text is none, as
-- `unrealizedForPosition` and `moneyFromUnknown` read it.
abbrev pub given_mark : Option Text → Option Money → Result (Option Money)
given_mark none row_mark = ok row_mark
given_mark (some []) row_mark = ok none
given_mark (some (c ∷ s)) row_mark = money_from_unknown (some (c ∷ s)) >>= λ m. ok (some m)

unfoldable pub explicit_mark : (Text → Option Text) → StoredPosition → Result (Option Money)
explicit_mark marks p =
    given_mark (marks (p.exchange ++ (codes ":" ++ p.tradingsymbol))) p.mark_price

-- `pos.strategy || "UNATTRIBUTED"`
abbrev pub strategy_of : StoredPosition → Text
strategy_of p = if truthy p.strategy then or_else p.strategy [] else codes "UNATTRIBUTED"

-- the bucket of a key, with two amounts added
unfoldable pub add_to_bucket : Text → Money → Money → List StrategyPnl → List StrategyPnl
add_to_bucket key realized unrealized [] =
    record {
      strategy = key;
      realized = money_add money_zero realized;
      unrealized = money_add money_zero unrealized;
    }
    ∷ []
add_to_bucket key realized unrealized (b ∷ bs) =
    if text_eq b.strategy key
    then record b {
      realized = money_add b.realized realized;
      unrealized = money_add b.unrealized unrealized;
    }
      ∷ bs
    else b ∷ add_to_bucket key realized unrealized bs

abbrev pub row_unrealized : StoredPosition → Option Money → Money
row_unrealized p mark =
    unrealized_for_position p.quantity p.average_entry_price mark
      (or_else p.unrealized_pnl money_zero)

-- the body of the loop, for the mark that was read
unfoldable pub add_row : StoredPosition → Option Money → Totals → Totals
add_row p mark t =
    let u = row_unrealized p mark in
    let exposure_mark = or_else mark money_zero in
    record {
      realized = money_add t.realized p.realized_pnl;
      unrealized = money_add t.unrealized u;
      fees = money_add t.fees p.fees;
      gross_exposure =
          money_add t.gross_exposure (market_value (pos (abs p.quantity)) exposure_mark);
      net_exposure = money_add t.net_exposure (market_value p.quantity exposure_mark);
      open_count = if eqb_ℤ p.quantity (pos 0) then t.open_count else suc t.open_count;
      by_strategy = add_to_bucket (strategy_of p) p.realized_pnl u t.by_strategy;
    }

abbrev pub next_totals :
    (Text → Option Text) → TradeBookFilter → StoredPosition → Totals → Result Totals
next_totals marks book p t =
    if in_view book p then explicit_mark marks p >>= (λ m. ok (add_row p m t)) else ok t

unfoldable pub totals_from :
    (Text → Option Text) → TradeBookFilter → List StoredPosition → Totals → Result Totals
totals_from marks book [] t = ok t
totals_from marks book (p ∷ ps) t =
    next_totals marks book p t >>= λ next. totals_from marks book ps next

-- the columns of the latest snapshot that are read
pub record LatestSnapshot : Type 0 where
  pub available_cash : Option Money
  pub used_margin : Option Money
  pub peak_equity : Option Money

pub record PortfolioFigures : Type 0 where
  pub available_cash : Option Money
  pub used_margin : Option Money
  pub buying_power : Option Money
  pub realized_pnl : Money
  pub unrealized_pnl : Money
  pub net_pnl : Money
  pub fees : Money
  pub gross_exposure : Money
  pub net_exposure : Money
  pub portfolio_value : Money
  pub peak_equity : Money
  pub drawdown : Money
  pub open_position_count : ℕ
  pub strategy_pnl : List StrategyPnl

abbrev pub higher_peak : Money → Money → Money
higher_peak previous value = if ltb_ℤ value previous then previous else value

unfoldable pub figures_of : LatestSnapshot → Totals → PortfolioFigures
figures_of latest t =
    let portfolio_value = money_add (or_else latest.available_cash money_zero) t.unrealized in
    let peak = higher_peak (or_else latest.peak_equity money_zero) portfolio_value in
    record {
      available_cash = latest.available_cash;
      used_margin = latest.used_margin;
      buying_power = latest.available_cash;
      realized_pnl = t.realized;
      unrealized_pnl = t.unrealized;
      net_pnl = money_add t.realized t.unrealized -ℤ t.fees;
      fees = t.fees;
      gross_exposure = t.gross_exposure;
      net_exposure = t.net_exposure;
      portfolio_value = portfolio_value;
      peak_equity = peak;
      drawdown = peak -ℤ portfolio_value;
      open_position_count = t.open_count;
      strategy_pnl = t.by_strategy;
    }

abbrev pub no_snapshot : LatestSnapshot
no_snapshot = record { available_cash = none; used_margin = none; peak_equity = none }

-- `latest` is the newest snapshot of the account, if there is one.
unfoldable pub compute_portfolio :
    (Text → Option Text)
    → TradeBookFilter
    → Option LatestSnapshot
    → List StoredPosition
    → Result PortfolioFigures
compute_portfolio marks book latest rows =
    totals_from marks book rows no_totals >>= λ t. ok (figures_of (or_else latest no_snapshot) t)
