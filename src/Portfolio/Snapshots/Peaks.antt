-- ===== src/Portfolio/Snapshots/Peaks.antt =====
-- lib/trading/portfolio.ts: the peaks and drawdowns of successive snapshots.
use cm_desk.Prelude.{
  ◌≡◌, refl, Bool-cases, inl, inr, Option, some, or_else, List, [], ◌∷◌, All, arith,
}
use cm_desk.Prelude.Int.{pos, ◌-ℤ◌, ◌≤ℤ◌, ltb_ℤ, int_laws}
use cm_desk.Prelude.Text.{Text}
use cm_desk.Money.{Money, ok, money_zero, money_add}
use cm_desk.Types.{all_books}
use cm_desk.Ledger.{StoredPosition}
use cm_desk.Portfolio.{
  LatestSnapshot, Totals, no_totals, higher_peak, no_snapshot, figures_of, compute_portfolio,
}
use cm_desk.Portfolio.Sums.{Readable, loop-Sums}
use cm_desk.Portfolio.Snapshots.{StoredSnapshot, latest_of, stored_view, snapshot_portfolio}

-- the peak that a snapshot starts from
abbrev pub peak_before : List StoredSnapshot → Money
peak_before [] = money_zero
peak_before (s ∷ ss) = or_else s.peak_equity money_zero

-- The drawdown is what the value lacks of a peak that is no less than it and than the peak before.
pub record Peaks (before : Money) (s : StoredSnapshot) : Type 0 where
  pub peak : Money
  pub stored : s.peak_equity ≡ some peak
  pub drawdown : s.drawdown ≡ peak -ℤ s.portfolio_value
  pub above_value : s.portfolio_value ≤ℤ peak
  pub above_peak : before ≤ℤ peak
  pub no_gain : pos 0 ≤ℤ s.drawdown

unfoldable pub PeaksRise : List StoredSnapshot → Type 0
PeaksRise [] = Unit
PeaksRise (s ∷ ss) = Peaks (peak_before ss) s × PeaksRise ss

higher-bounds :
    (previous value : Money)
    → (value ≤ℤ higher_peak previous value) × (previous ≤ℤ higher_peak previous value)
higher-bounds previous value = elim (Bool-cases (ltb_ℤ value previous)) [
  | inl h ↦ rw h (ground arith, omega int_laws)
  | inr h ↦ rw h (omega int_laws, ground arith)
]

module _ (cash margin : Option Money) (t : Totals) where
  taken-Peaks :
      (latest : LatestSnapshot)
      → Peaks
          (or_else latest.peak_equity money_zero)
          (stored_view cash margin (figures_of latest t))
  unfolding figures_of
  taken-Peaks latest =
      let value = money_add (or_else latest.available_cash money_zero) t.unrealized in
      let (above_value, above_peak) = higher-bounds (or_else latest.peak_equity money_zero) value in
      record {
        peak = higher_peak (or_else latest.peak_equity money_zero) value;
        stored = refl;
        drawdown = refl;
        above_value = above_value;
        above_peak = above_peak;
        no_gain = omega (int_laws, above_value);
      }

  snapshot-Peaks :
      (snapshots : List StoredSnapshot)
      → Peaks
          (peak_before snapshots)
          (stored_view cash margin (figures_of (or_else (latest_of snapshots) no_snapshot) t))
  snapshot-Peaks [] = taken-Peaks no_snapshot
  snapshot-Peaks (s ∷ ss) = taken-Peaks _

-- A snapshot that is taken keeps the peaks: if every stored snapshot has a peak that is no less than its value
-- and than the peak of the one before, and the difference of the two for its drawdown, so has every one after
-- another is taken, whatever cash and margin it is given, and one is taken if the marks of all rows read as
-- amounts of zero or more.
pub snapshot-PeaksRise :
    (marks : Text → Option Text) (cash margin : Option Money) (rows : List StoredPosition)
    (snapshots : List StoredSnapshot)
    → All (Readable marks) rows
    → PeaksRise snapshots
    → (taken : List StoredSnapshot) × (snapshot_portfolio marks cash margin rows snapshots
        ≡ ok taken)
      × PeaksRise taken
unfolding snapshot_portfolio compute_portfolio PeaksRise
snapshot-PeaksRise marks cash margin rows snapshots readable rise =
    let (t, done, sums) = loop-Sums marks all_books rows no_totals readable in
    let view = figures_of (or_else (latest_of snapshots) no_snapshot) t in
    (
      stored_view cash margin view ∷ snapshots,
      rw done refl,
      (snapshot-Peaks cash margin t snapshots, rise),
    )
