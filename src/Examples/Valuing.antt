-- ===== src/Examples/Valuing.antt =====
-- The portfolio of a held position with a mark and of a paper position with none.
use cm_desk.Prelude.{◌≡◌, refl, Bool, Option, none, some, List, [], ◌∷◌, All, if◌then◌else◌, arith}
use cm_desk.Prelude.Int.{pos, int_laws}
use cm_desk.Prelude.Text.{Text, codes, text_eq, starts_with, trim}
use cm_desk.Money.{ok}
use cm_desk.Money.Decimal.{money_from_string}
use cm_desk.Accounting.Rows.{money_from_unknown}
use cm_desk.Types.{live_book}
use cm_desk.Prelude.{filter}
use cm_desk.Ledger.{StoredPosition}
use cm_desk.Portfolio.{in_view, explicit_mark, no_snapshot, PortfolioFigures, compute_portfolio}
use cm_desk.Portfolio.Sums.{Readable}
use cm_desk.Portfolio.Consistent.{Agrees, portfolio-Agrees}
use cm_desk.Portfolio.Snapshots.{StoredSnapshot, snapshot_portfolio}
use cm_desk.Portfolio.Snapshots.Peaks.{PeaksRise, snapshot-PeaksRise}
use cm_desk.Examples.Booking.{held_position}

abbrev marks : Text → Option Text
marks key = if text_eq key (codes "NFO:NIFTY26JANFUT") then some (codes "101.5") else none

abbrev rows : List StoredPosition
rows =
    held_position
    ∷ record held_position {
      id = 1;
      tradingsymbol = codes "BANKNIFTY26JANFUT";
      provenance = some (codes "PAPER");
      strategy = none;
    }
    ∷ []

marked : explicit_mark marks held_position ≡ ok (some (pos 1_015_000))
unfolding explicit_mark text_eq money_from_unknown money_from_string starts_with trim
marked = refl

rows-Readable : All (Readable marks) rows
unfolding explicit_mark text_eq
rows-Readable = ((some 1_015_000, marked), ((none, refl), tt))

portfolio-Agrees_example :
    (v : PortfolioFigures) × (compute_portfolio marks live_book none rows ≡ ok v)
    × ((q : Text → Bool) → Agrees marks no_snapshot q (filter (in_view live_book) rows) v)
portfolio-Agrees_example = portfolio-Agrees marks live_book none rows rows-Readable

abbrev stored : StoredSnapshot
stored = record {
  available_cash = some (pos 500_000_000);
  used_margin = none;
  exposure = pos 0;
  gross_exposure = pos 0;
  net_exposure = pos 0;
  realized_pnl = pos 0;
  unrealized_pnl = pos 0;
  fees = pos 0;
  portfolio_value = pos 500_000_000;
  peak_equity = some (pos 520_000_000);
  drawdown = pos 20_000_000;
  open_position_count = 0;
}

stored-PeaksRise : PeaksRise (stored ∷ [])
unfolding PeaksRise
stored-PeaksRise = (
  record {
    peak = pos 520_000_000;
    stored = refl;
    drawdown = omega int_laws;
    above_value = omega arith;
    above_peak = omega arith;
    no_gain = omega arith;
  },
  tt,
)

snapshot-PeaksRise_example :
    (taken : List StoredSnapshot) × (snapshot_portfolio marks
        (some (pos 450_000_000))
        none
        rows
        (stored ∷ [])
      ≡ ok taken)
    × PeaksRise taken
snapshot-PeaksRise_example =
    snapshot-PeaksRise marks (some (pos 450_000_000)) none rows (stored ∷ []) rows-Readable
      stored-PeaksRise
