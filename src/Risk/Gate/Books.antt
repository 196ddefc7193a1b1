-- ===== src/Risk/Gate/Books.antt =====
-- lib/trading/riskGate.ts: the counts of the paper book and of the live book.
use cm_desk.Prelude.{◌≡◌, false, Option, ◌∷◌}
use cm_desk.Prelude.Text.{Text}
use cm_desk.Prelude.Double.{Double}
use cm_desk.Risk.Settings.{RiskSettings, is_paper_strategy}
use cm_desk.Risk.Gate.{GateOrder, GateRows, RecentOrders, same_book, gate_strategy}

module _ {ℓ} {F : Type ℓ} ⦃d : Double F⦄ (input : GateOrder F) (rows : GateRows F) where
  -- the rows with one more open order, one more group of recent orders and one more duplicate
  abbrev pub with_rows : Option Text → RecentOrders → Option Text → GateRows F
  with_rows opened recently twin = record rows {
    open_orders = opened ∷ rows.open_orders;
    recent = recently ∷ rows.recent;
    duplicates = twin ∷ rows.duplicates;
  }

  -- a row of the book that the order is not written to
  abbrev pub IsOtherBook : RiskSettings F → Option Text → Type 0
  IsOtherBook settings provenance =
      same_book (is_paper_strategy settings (gate_strategy input rows)) provenance ≡ false
