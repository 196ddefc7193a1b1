-- ===== src/Portfolio/Consistent.antt =====
-- lib/trading/portfolio.ts: how the figures of `computePortfolio` agree with the rows and with each other.
use cm_desk.Prelude.{
  ◌≡◌, refl, sym, ◌∙◌, Bool, Option, or_else, List, [], ◌∷◌, All, filter, arith, length,
}
use cm_desk.Prelude.Int.{pos, ◌+ℤ◌, ◌-ℤ◌, ◌≤ℤ◌, int_laws}
use cm_desk.Prelude.Text.{Text}
use cm_desk.Money.{Money, ok, money_add}
use cm_desk.Types.{TradeBookFilter}
use cm_desk.Ledger.{StoredPosition}
use cm_desk.Ledger.Rows.{total}
use cm_desk.Portfolio.{
  Totals, no_totals, in_view, strategy_of, LatestSnapshot, PortfolioFigures, figures_of,
  no_snapshot, compute_portfolio,
}
use cm_desk.Portfolio.Sums.{zero_add, Readable, is_held, chosen, unrealized_of, Sums, loop-Sums}

-- How the figures agree, where `q` chooses strategies.
pub record Agrees (marks : Text → Option Text) (latest : LatestSnapshot) (q : Text → Bool)
    (rows : List StoredPosition) (v : PortfolioFigures) : Type 0 where
  pub realized : v.realized_pnl ≡ total (λ p. p.realized_pnl) rows
  pub unrealized : v.unrealized_pnl ≡ total (unrealized_of marks) rows
  pub fees : v.fees ≡ total (λ p. p.fees) rows
  pub net : v.net_pnl ≡ total (λ p. p.realized_pnl +ℤ unrealized_of marks p -ℤ p.fees) rows
  pub held : v.open_position_count ≡ length (filter is_held rows)
  pub high : v.net_exposure ≤ℤ v.gross_exposure
  pub low : pos 0 -ℤ v.gross_exposure ≤ℤ v.net_exposure
  pub strategy_realized :
      total (λ b. chosen q b.strategy b.realized) v.strategy_pnl
      ≡ total (λ p. chosen q (strategy_of p) p.realized_pnl) rows
  pub strategy_unrealized :
      total (λ b. chosen q b.strategy b.unrealized) v.strategy_pnl
      ≡ total (λ p. chosen q (strategy_of p) (unrealized_of marks p)) rows

total-net :
    (f g h : StoredPosition → Money) (ps : List StoredPosition)
    → total f ps +ℤ total g ps -ℤ total h ps ≡ total (λ p. f p +ℤ g p -ℤ h p) ps
unfolding total
total-net f g h [] = omega int_laws
total-net f g h (p ∷ ps) = rw (sym (total-net f g h ps)) (omega int_laws)

figures-Agree :
    (marks : Text → Option Text) (latest : LatestSnapshot) (q : Text → Bool)
    (rows : List StoredPosition) (t : Totals)
    → Sums marks q rows no_totals t
    → Agrees marks latest q rows (figures_of latest t)
unfolding figures_of money_add total
figures-Agree marks latest q rows t sums = record {
  realized = sums.realized ∙ zero_add _;
  unrealized = sums.unrealized ∙ zero_add _;
  fees = sums.fees ∙ zero_add _;
  net =
      rw
        (
          sums.realized,
          sums.unrealized,
          sums.fees,
          zero_add (total (λ p. p.realized_pnl) rows),
          zero_add (total (unrealized_of marks) rows),
          zero_add (total (λ p. p.fees) rows),
        )
        (total-net (λ p. p.realized_pnl) (unrealized_of marks) (λ p. p.fees) rows);
  held = omega (arith, sums.held);
  high = omega (int_laws, sums.high);
  low = omega (int_laws, sums.low);
  strategy_realized = sums.strategy_realized ∙ zero_add _;
  strategy_unrealized = sums.strategy_unrealized ∙ zero_add _;
}

-- The portfolio is computed if every row that has a mark has one that reads as an amount of zero or more.
-- Then realized and unrealized P&L, fees and net P&L are the sums over the rows of the book, the open
-- positions are the rows of a quantity other than zero, the net exposure is between the gross exposure and
-- its negative, and for every choice of strategies the figures of these strategies are the sums over their
-- rows, where a row of no strategy belongs to UNATTRIBUTED.
pub portfolio-Agrees :
    (marks : Text → Option Text) (book : TradeBookFilter) (latest : Option LatestSnapshot)
    (rows : List StoredPosition)
    → All (Readable marks) rows
    → (v : PortfolioFigures) × (compute_portfolio marks book latest rows ≡ ok v)
      × ((q : Text → Bool)
          → Agrees marks (or_else latest no_snapshot) q (filter (in_view book) rows) v)
unfolding compute_portfolio
portfolio-Agrees marks book latest rows readable =
    let (t, done, sums) = loop-Sums marks book rows no_totals readable in
    (
      figures_of (or_else latest no_snapshot) t,
      rw done refl,
      λ q.
          figures-Agree marks (or_else latest no_snapshot) q (filter (in_view book) rows) t
            (sums q),
    )
