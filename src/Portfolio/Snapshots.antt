-- ===== src/Portfolio/Snapshots.antt =====
-- lib/trading/portfolio.ts: `snapshotPortfolio`, on the rows of `portfolio_snapshots`, newest first. The
-- columns `sessionDate`, `source`, `span`, `rawMargins` and `drawdownPct`, and the daily session that it
-- updates, are left out.
pub mod Peaks
use cm_desk.Prelude.{ℕ, Option, none, some, List, [], ◌∷◌}
use cm_desk.Prelude.Text.{Text}
use cm_desk.Money.{Money, Result, ok, ◌>>=◌}
use cm_desk.Types.{all_books}
use cm_desk.Ledger.{StoredPosition}
use cm_desk.Portfolio.{LatestSnapshot, PortfolioFigures, compute_portfolio}

pub record StoredSnapshot : Type 0 where
  pub available_cash : Option Money
  pub used_margin : Option Money
  pub exposure : Money
  pub gross_exposure : Money
  pub net_exposure : Money
  pub realized_pnl : Money
  pub unrealized_pnl : Money
  pub fees : Money
  pub portfolio_value : Money
  pub peak_equity : Option Money
  pub drawdown : Money
  pub open_position_count : ℕ

abbrev pub latest_of : List StoredSnapshot → Option LatestSnapshot
latest_of [] = none
latest_of (s ∷ ss) = some (record {
  available_cash = s.available_cash;
  used_margin = s.used_margin;
  peak_equity = s.peak_equity;
})

-- `given ?? kept`
abbrev pub given_or : Option Money → Option Money → Option Money
given_or none kept = kept
given_or (some m) kept = some m

abbrev pub stored_view : Option Money → Option Money → PortfolioFigures → StoredSnapshot
stored_view cash margin view = record {
  available_cash = given_or cash view.available_cash;
  used_margin = given_or margin view.used_margin;
  exposure = view.net_exposure;
  gross_exposure = view.gross_exposure;
  net_exposure = view.net_exposure;
  realized_pnl = view.realized_pnl;
  unrealized_pnl = view.unrealized_pnl;
  fees = view.fees;
  portfolio_value = view.portfolio_value;
  peak_equity = some view.peak_equity;
  drawdown = view.drawdown;
  open_position_count = view.open_position_count;
}

unfoldable pub snapshot_portfolio :
    (Text → Option Text)
    → Option Money
    → Option Money
    → List StoredPosition
    → List StoredSnapshot
    → Result (List StoredSnapshot)
snapshot_portfolio marks cash margin rows snapshots =
    compute_portfolio marks all_books (latest_of snapshots) rows >>= λ view.
    ok (stored_view cash margin view ∷ snapshots)
