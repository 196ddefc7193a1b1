-- ===== src/Intake/Snapshot/Redelivery/Row.antt =====
-- lib/trading/ledger.ts: an order that has taken a report has no part of it left to book.
use cm_desk.Prelude.{
  ℕ, ◌≡◌, refl, Bool, true, false, not, ◌&&◌, Option, none, some, List, [], ◌∷◌, any, inl, inr, ltb,
  leb, Bool-cases, arith,
}
use cm_desk.Prelude.Int.{pos}
use cm_desk.Prelude.Text.{Text}
use cm_desk.Money.{Result, ok, throw}
use cm_desk.Accounting.Mark.{IncrementalFill}
use cm_desk.Order.{OrderStatus}
use cm_desk.Order.Kite.{commit_broker_fill_progress}
use cm_desk.Ledger.{StoredFill, Store}
use cm_desk.Intake.{StoredOrder, Desk, update_order}
use cm_desk.Intake.Snapshot.{
  KiteReport, ReportContext, SnapshotResult, filled_of, next_status, same_trade, insert_new,
  insert_fill, should_record_order_status_event, patch_status, books_fill, new_part, fill_of_report,
  patched_order, finish, book_part, save_part, snapshot_row,
}

insert_new-some :
    (o : Option StoredFill) (taken : Bool) (fill : StoredFill) (s : Store)
    → taken ≡ false
    → (id : ℕ) × ((insert_new o taken fill s).1 ≡ some id)
insert_new-some (some known) taken fill s free = (known.id, refl)
insert_new-some none false fill s free = (fill.id, refl)
insert_new-some none true fill s free = absurd (cc)

-- A fill that names no trade is in no other's way.
pub no_trade :
    (trade : Option Text) (fills : List StoredFill)
    → trade ≡ none
    → any (same_trade trade) fills ≡ false
no_trade none [] e = refl
no_trade none (f ∷ fills) e = no_trade none fills refl
no_trade (some trade) fills e = absurd (cc)

-- An insertion that works gives a fill, if it names no trade.
insert_fill-some :
    (make : ℕ → StoredFill) (s : Store)
    → (make s.next_fill).broker_trade_id ≡ none
    → (id : ℕ) × ((insert_fill true make s).1 ≡ some id)
unfolding insert_fill
insert_fill-some make s free = insert_new-some _ _ (make s.next_fill) s (no_trade _ s.fills free)

-- A report that is committed has no part left, unless nothing was saved of it.
commit-settles :
    (prev kite : ℕ) (saved : Bool) (from next : OrderStatus) (books : Bool)
    → (not saved && (ltb prev kite && books)) ≡ false
    → (ltb
          (commit_broker_fill_progress (record {
            previous_filled_qty = pos prev;
            kite_filled_qty = pos kite;
            fill_row_saved = saved;
            from_status = from;
            next_status = next;
          })).filled_qty
          kite
        && books)
      ≡ false
unfolding commit_broker_fill_progress
commit-settles prev kite true from next books h = ground arith
commit-settles prev kite false from next books h = ground arith

module _ (report : KiteReport) (context : ReportContext) (now : ℕ) where
  -- What an accepted report leaves: the order updated, and no part of the report to book.
  pub record Settles (row : StoredOrder) (s : Desk) (r : Desk × Result SnapshotResult)
      : Type 0 where
    pub saved : Bool
    pub orders :
        r.0.orders ≡ (update_order row.id (patched_order report context now saved row) s).orders
    pub settled :
        (o : StoredOrder)
        → books_fill report context now (patched_order report context now saved row o) ≡ false

  pub finish-kept :
      (saved : Bool) (ids : List ℕ) (row : StoredOrder) (s : Desk)
      → ((finish report context now saved ids row s).0.orders
          ≡ (update_order row.id (patched_order report context now saved row) s).orders)
        × ((finish report context now saved ids row s).0.ledger ≡ s.ledger)
  unfolding finish
  finish-kept saved ids row s =
      elim (Bool-cases (
        should_record_order_status_event report context now row.status
          (patch_status report context now saved row))) [
            | inl recorded ↦ rw recorded (refl, refl)
            | inr quiet ↦ rw quiet (refl, refl)
          ]

  finish-Settles :
      (saved : Bool) (ids : List ℕ) (row : StoredOrder) (s : Desk)
      → (not saved && books_fill report context now row) ≡ false
      → Settles row s (finish report context now saved ids row s)
  unfolding patched_order
  finish-Settles saved ids row s h = record {
    saved = saved;
    orders = (finish-kept saved ids row s).0;
    settled = λ o.
        commit-settles row.filled_qty (filled_of report) saved row.status (next_status report) _ h;
  }

  moved_desk :
      (row : StoredOrder) (s : Desk) (ledger : Store) (r : Desk × Result SnapshotResult)
      → Settles row (record s { ledger = ledger }) r
      → Settles row s r
  moved_desk row s ledger r h = record { saved = h.saved; orders = h.orders; settled = h.settled }

  book_part-Settles :
      (p : Store × Option ℕ) (id : ℕ) (row : StoredOrder) (s : Desk)
      → p.1 ≡ some id
      → Settles row s (book_part report context now p row s)
  unfolding book_part
  book_part-Settles (ledger, none) id row s h = absurd (cc)
  book_part-Settles (ledger, some k) id row s h =
      moved_desk row s _ _ (finish-Settles true (k ∷ []) row _ refl)

  save_part-Settles :
      (part : Result (Option IncrementalFill)) (row : StoredOrder) (s : Desk)
      (result : SnapshotResult)
      → (save_part report context now true part row s).1 ≡ ok result
      → Settles row s (save_part report context now true part row s)
  unfolding save_part
  save_part-Settles (throw e) row s result h = absurd (cc)
  save_part-Settles (ok none) row s result h = finish-Settles true [] row s refl
  save_part-Settles (ok (some part)) row s result h =
      let (id, saved) =
        insert_fill-some (fill_of_report report context now row part) s.ledger
          (unfold fill_of_report in refl) in
      book_part-Settles (insert_fill true (fill_of_report report context now row part) s.ledger) id
        row s saved

  not_behind :
      (saved kite : ℕ) (books : Bool)
      → (ltb saved kite && books) ≡ false
      → (not (leb kite saved) && (ltb saved kite && books)) ≡ false
  not_behind saved kite books h = ground arith

  -- A report that ends well, its fill saved where it has one, settles its order.
  pub snapshot_row-Settles :
      (row : StoredOrder) (s : Desk) (result : SnapshotResult)
      → (snapshot_row report context now true row s).1 ≡ ok result
      → Settles row s (snapshot_row report context now true row s)
  unfolding snapshot_row
  snapshot_row-Settles row s result h = elim (Bool-cases (books_fill report context now row)) [
    | inl books ↦
        rw books (save_part-Settles (new_part report context now row) row s result (rw books at h))
    | inr done ↦ rw done (
        finish-Settles (leb (filled_of report) row.filled_qty) [] row s
          (not_behind row.filled_qty (filled_of report) _ done))
  ]

  -- A settled order takes the report again with no effect on the ledger of fills and positions.
  pub snapshot_row-settled :
      (works : Bool) (row : StoredOrder) (s : Desk)
      → books_fill report context now row ≡ false
      → (snapshot_row report context now works row s).0.ledger ≡ s.ledger
  unfolding snapshot_row
  snapshot_row-settled works row s h =
      rw h (finish-kept (leb (filled_of report) row.filled_qty) [] row s).1
