-- ===== src/Book/Split.antt =====
-- lib/trading/bookSplit.ts: `splitLedgerQty` and the sums of the two books.
use cm_desk.Prelude.{
  ◌≡◌, refl, Bool, true, false, not, ◌&&◌, Option, List, [], ◌∷◌, filter, arith, Bool-cases, inl,
  inr, if◌then◌else◌,
}
use cm_desk.Prelude.Int.{ℤ, pos, ◌+ℤ◌, int_laws, eq_of_eqb_ℤ, add_zero}
use cm_desk.Prelude.Text.{Text}
use cm_desk.Book.{
  LedgerRow, BookQtySplit, row_qty, counts_row, is_paper_row, add_row, split_from, split_ledger_qty,
}

-- The sum of the quantities of some rows.
pub total_qty : List LedgerRow → ℤ
total_qty [] = pos 0
total_qty (row ∷ rows) = row_qty row +ℤ total_qty rows

abbrev qty_if : Bool → LedgerRow → ℤ
qty_if b row = if b then row_qty row else pos 0

total_qty-filter :
    (p : LedgerRow → Bool) (row : LedgerRow) (rows : List LedgerRow)
    → total_qty (filter p (row ∷ rows)) ≡ qty_if (p row) row +ℤ total_qty (filter p rows)
total_qty-filter p row rows = elim (Bool-cases (p row)) [
  | inl h ↦ rw h (unfold total_qty in refl)
  | inr h ↦ rw h (omega int_laws)
]

module _ (tradingsymbol strategy : Option Text) where
  abbrev pub on_paper : LedgerRow → Bool
  on_paper row = counts_row tradingsymbol strategy row && is_paper_row row

  abbrev pub on_live : LedgerRow → Bool
  on_live row = counts_row tradingsymbol strategy row && not (is_paper_row row)

  add_row-totals :
      (acc : BookQtySplit) (row : LedgerRow)
      → ((add_row tradingsymbol strategy acc row).paper_ledger_qty
          ≡ acc.paper_ledger_qty +ℤ qty_if (on_paper row) row)
        × ((add_row tradingsymbol strategy acc row).live_ledger_qty
            ≡ acc.live_ledger_qty +ℤ qty_if (on_live row) row)
  add_row-totals acc row = ground (
    arith,
    eq_of_eqb_ℤ (row_qty row) (pos 0),
    add_zero acc.paper_ledger_qty,
    add_zero acc.live_ledger_qty,
  )

  -- The loop adds, from any start, the rows of each book.
  split_from-totals :
      (acc : BookQtySplit) (rows : List LedgerRow)
      → ((split_from tradingsymbol strategy acc rows).paper_ledger_qty
          ≡ acc.paper_ledger_qty +ℤ total_qty (filter on_paper rows))
        × ((split_from tradingsymbol strategy acc rows).live_ledger_qty
            ≡ acc.live_ledger_qty +ℤ total_qty (filter on_live rows))
  unfolding split_from
  split_from-totals acc [] = unfold total_qty in (omega int_laws, omega int_laws)
  split_from-totals acc (row ∷ rows) =
      let (paper, live) = split_from-totals (add_row tradingsymbol strategy acc row) rows in
      let (p, l) = add_row-totals acc row in
      (
        rw (paper, p, total_qty-filter on_paper row rows) (omega int_laws),
        rw (live, l, total_qty-filter on_live row rows) (omega int_laws),
      )

  row_split :
      (row : LedgerRow)
      → qty_if (on_paper row) row +ℤ qty_if (on_live row) row
        ≡ qty_if (counts_row tradingsymbol strategy row) row
  row_split row = two_ways (counts_row tradingsymbol strategy row) (is_paper_row row)
    where
      two_ways : (c p : Bool) → qty_if (c && p) row +ℤ qty_if (c && not p) row ≡ qty_if c row
      two_ways true true = omega int_laws
      two_ways true false = omega int_laws
      two_ways false p = omega int_laws

  split_totals :
      (rows : List LedgerRow)
      → total_qty (filter on_paper rows) +ℤ total_qty (filter on_live rows)
        ≡ total_qty (filter (counts_row tradingsymbol strategy) rows)
  split_totals [] = unfold total_qty in omega int_laws
  split_totals (row ∷ rows) =
      let rest = split_totals rows in
      let parts = row_split row in
      rw
        (
          total_qty-filter on_paper row rows,
          total_qty-filter on_live row rows,
          total_qty-filter (counts_row tradingsymbol strategy) row rows,
          ← rest,
          ← parts,
        )
        (omega int_laws)

  -- The paper figure is the sum over the counted rows of paper and mock provenance, the live figure the
  -- sum over the other counted rows, and together they are the sum over all counted rows.
  pub split_ledger-totals :
      (rows : List LedgerRow)
      → let r = split_ledger_qty tradingsymbol strategy rows in
        (r.paper_ledger_qty ≡ total_qty (filter on_paper rows))
        × (r.live_ledger_qty ≡ total_qty (filter on_live rows))
        × (r.paper_ledger_qty +ℤ r.live_ledger_qty
            ≡ total_qty (filter (counts_row tradingsymbol strategy) rows))
  unfolding split_ledger_qty
  split_ledger-totals rows =
      let start : BookQtySplit = record { paper_ledger_qty = pos 0; live_ledger_qty = pos 0 } in
      let (paper, live) = split_from-totals start rows in
      (
        rw paper (omega int_laws),
        rw live (omega int_laws),
        rw (paper, live) (rw (← split_totals rows) (omega int_laws)),
      )
