-- ===== src/Intake/Snapshot/Others.antt =====
-- lib/trading/ledger.ts: the orders that a report with an internal identifier is not about.
use cm_desk.Prelude.{
  ℕ, ◌==◌, ◌≡◌, ◌⊎◌, refl, sym, ap, subst, ◌∙◌, Bool, true, false, Option, none, some, List, [],
  ◌∷◌, leb, inl, inr, Bool-cases,
}
use cm_desk.Prelude.Text.{Text}
use cm_desk.Money.{Result, ok, throw}
use cm_desk.Accounting.Mark.{IncrementalFill}
use cm_desk.Ledger.{Store, find}
use cm_desk.Ledger.Rows.{find-key}
use cm_desk.Ledger.Rows.After.{find-update_other, find-after_update}
use cm_desk.Intake.{StoredOrder, Desk, order_by_id, update_order}
use cm_desk.Intake.Intent.{JobRef}
use cm_desk.Intake.Snapshot.{
  KiteReport, ReportContext, filled_of, insert_fill, fill_of_report, books_fill, new_part,
  patched_order, book_part, save_part, snapshot_row, reported_row, snapshot_of,
  apply_broker_order_snapshot,
}
use cm_desk.Intake.Snapshot.Redelivery.Row.{finish-kept}

module _ (report : KiteReport) (context : ReportContext) (now : ℕ) where
  -- The orders are those of before, or one of them is patched.
  Patches : StoredOrder → Desk → Desk → Type 0
  Patches row s t =
      (t.orders ≡ s.orders)
      ⊎ ((saved : Bool) × (t.orders
            ≡ (update_order row.id (patched_order report context now saved row) s).orders))

  book_part-Patches :
      (p : Store × Option ℕ) (row : StoredOrder) (s : Desk)
      → Patches row s (book_part report context now p row s).0
  unfolding book_part Patches
  book_part-Patches (ledger, none) row s =
      inr (false, (finish-kept report context now false [] row _).0)
  book_part-Patches (ledger, some id) row s =
      inr (true, (finish-kept report context now true (id ∷ []) row _).0)

  save_part-Patches :
      (works : Bool) (part : Result (Option IncrementalFill)) (row : StoredOrder) (s : Desk)
      → Patches row s (save_part report context now works part row s).0
  unfolding save_part
  save_part-Patches works (throw e) row s = unfold Patches in inl refl
  save_part-Patches works (ok none) row s =
      unfold Patches in inr (true, (finish-kept report context now true [] row s).0)
  save_part-Patches works (ok (some part)) row s =
      book_part-Patches (insert_fill works (fill_of_report report context now row part) s.ledger)
        row s

  snapshot_row-Patches :
      (works : Bool) (row : StoredOrder) (s : Desk)
      → Patches row s (snapshot_row report context now works row s).0
  unfolding snapshot_row
  snapshot_row-Patches works row s = elim (Bool-cases (books_fill report context now row)) [
    | inl books ↦ rw books (save_part-Patches works (new_part report context now row) row s)
    | inr done ↦
        let behind = leb (filled_of report) row.filled_qty in
        rw done (unfold Patches in inr (behind, (finish-kept report context now behind [] row s).0))
  ]

  patched_order-id :
      (saved : Bool) (row o : StoredOrder)
      → (patched_order report context now saved row o).id ≡ o.id
  unfolding patched_order
  patched_order-id saved row o = refl

  module _ (row : StoredOrder) (s t : Desk) (patches : Patches row s t) where
    others-same : (id : ℕ) → (id == row.id) ≡ false → order_by_id id t ≡ order_by_id id s
    unfolding Patches
    others-same id apart = elim patches [
      | inl same ↦ ap (find (λ o. o.id == id)) same
      | inr (saved, e) ↦
          ap (find (λ o. o.id == id)) e
          ∙ find-update_other (λ o. o.id) row.id id (patched_order report context now saved row)
              s.orders (patched_order-id saved row) apart
    ]

    all-kept :
        (id : ℕ) (o : StoredOrder)
        → order_by_id id s ≡ some o
        → (o' : StoredOrder) × (order_by_id id t ≡ some o')
    unfolding Patches
    all-kept id o found = elim patches [
      | inl same ↦ (o, ap (find (λ o. o.id == id)) same ∙ found)
      | inr (saved, e) ↦ (
        _,
        ap (find (λ o. o.id == id)) e
            ∙ find-after_update (λ o. o.id) row.id id (patched_order report context now saved row)
                s.orders o (patched_order-id saved row) found,
      )
    ]

  -- A report with the identifier of an order that is there.
  module _ (job_by_tag : Text → Option JobRef) (uuids : List Text) (works : Bool) (k : ℕ)
      (inside : context.internal_order_id ≡ some k) (s : Desk) (row : StoredOrder)
      (read : order_by_id k s ≡ some row) where
    internal-Patches :
        Patches row s (apply_broker_order_snapshot report context now job_by_tag uuids works s).0
    unfolding apply_broker_order_snapshot snapshot_of
    internal-Patches =
        let at_hand : reported_row report context now s ≡ some row = rw (inside, read) refl in
        subst (λ o. Patches row s (snapshot_of report context now job_by_tag uuids works o s).0)
          (sym at_hand) (snapshot_row-Patches works row s)

    -- Every other order stays as it was, and no order is lost.
    pub internal-others :
        (id : ℕ)
        → (id == k) ≡ false
        → order_by_id id (apply_broker_order_snapshot report context now job_by_tag uuids works s).0
          ≡ order_by_id id s
    internal-others id apart =
        others-same row s _ internal-Patches id
          (subst (λ n. (id == n) ≡ false) (sym (find-key (λ o. o.id) k s.orders row read)) apart)

    pub internal-kept :
        (id : ℕ) (o : StoredOrder)
        → order_by_id id s ≡ some o
        → (o' : StoredOrder) × (order_by_id id
              (apply_broker_order_snapshot report context now job_by_tag uuids works s).0
            ≡ some o')
    internal-kept id o found = all-kept row s _ internal-Patches id o found
