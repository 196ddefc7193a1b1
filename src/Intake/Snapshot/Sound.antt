-- ===== src/Intake/Snapshot/Sound.antt =====
-- lib/trading/ledger.ts: the balance of the ledger through the broker's reports.
use cm_desk.Prelude.{
  ℕ, ◌<◌, ◌&&◌, ◌≡◌, refl, sym, ap, subst, ◌∙◌, Bool, true, false, Option, none, some, List, [],
  ◌∷◌, All, ltb, leb, inl, inr, Bool-cases, arith, if◌then◌else◌,
}
use cm_desk.Prelude.Int.{ℤ, pos, ◌+ℤ◌, ◌*ℤ◌, int_laws}
use cm_desk.Types.{side_sign}
use cm_desk.Prelude.Text.{Text, truthy}
use cm_desk.Money.{Result, ok, throw}
use cm_desk.Accounting.Mark.{IncrementalFill}
use cm_desk.Ledger.{StoredFill, Store}
use cm_desk.Ledger.Rows.{All-append, All-map, total, total-append, Distinct-added}
use cm_desk.Ledger.Apply.{apply_fill_by_id}
use cm_desk.Ledger.Apply.Fills.{apply_fill-Marks, Marks-All}
use cm_desk.Ledger.Apply.Balance.{IsBalanced, applied_qty}
use cm_desk.Ledger.Apply.Invariant.{apply_fill-IsBalanced}
use cm_desk.Intake.{StoredOrder, Desk, order_by_id}
use cm_desk.Intake.Intent.{JobRef, RecordedIntent}
use cm_desk.Intake.Intent.Absent.{record_order_intent-ledger}
use cm_desk.Intake.Snapshot.{
  KiteReport, ReportContext, filled_of, requested_of, insert_new, insert_fill, fill_of_report,
  books_fill, new_part, finish, book_part, save_part, snapshot_row, reported_row, intent_of_report,
  snapshot_found, snapshot_created, snapshot_of, apply_broker_order_snapshot,
}
use cm_desk.Intake.Snapshot.Redelivery.Row.{finish-kept}

-- The positions hold what the applied fills moved, and the identifiers of fills to come are new.
pub record IsSound (s : Store) : Type 0 where
  pub balanced : IsBalanced s
  pub new_fill : All (λ f. f.id < s.next_fill) s.fills

pub apply-IsSound :
    (id : ℕ) (reason : Option Text) (s : Store)
    → IsSound s
    → IsSound (apply_fill_by_id id reason s).0
apply-IsSound id reason s sound =
    let marks = apply_fill-Marks id reason s in
    record {
      balanced = apply_fill-IsBalanced id reason s sound.balanced;
      new_fill =
          subst (λ n. All (λ f. f.id < n) (apply_fill_by_id id reason s).0.fills)
            (sym marks.next_fill)
            (Marks-All s _ marks (λ f. f.id < s.next_fill) (λ f h. h) sound.new_fill);
    }

add_zero : (x : ℤ) → x +ℤ pos 0 ≡ x
add_zero x = omega int_laws

unapplied : (fill : StoredFill) → fill.is_applied ≡ false → applied_qty fill ≡ pos 0
unapplied fill new = ap (λ b. if b then side_sign fill.side *ℤ fill.quantity else pos 0) new

insert_new-IsSound :
    (o : Option StoredFill) (taken : Bool) (fill : StoredFill) (s : Store)
    → fill.id ≡ s.next_fill
    → fill.is_applied ≡ false
    → IsSound s
    → IsSound (insert_new o taken fill s).0
insert_new-IsSound (some known) taken fill s own new sound = sound
insert_new-IsSound none true fill s own new sound = sound
insert_new-IsSound none false fill s own new sound = record {
  balanced = record {
    fill_ids =
        Distinct-added (λ f. f.id) s.fills fill sound.balanced.fill_ids
          (All-map (λ f. f.id < s.next_fill) _ s.fills (λ f h. ground arith) sound.new_fill);
    position_ids = sound.balanced.position_ids;
    new_id = sound.balanced.new_id;
    balance =
        sound.balanced.balance
        ∙ sym (
            total-append applied_qty s.fills fill
            ∙ ap (λ x. total applied_qty s.fills +ℤ x) (unapplied fill new)
            ∙ add_zero (total applied_qty s.fills));
  };
  new_fill =
      All-append _ s.fills (fill ∷ []) (All-map _ _ s.fills (λ f h. omega arith) sound.new_fill)
        (omega arith, tt);
}

pub insert_fill-IsSound :
    (works : Bool) (make : ℕ → StoredFill) (s : Store)
    → ((n : ℕ) → (make n).id ≡ n)
    → ((n : ℕ) → (make n).is_applied ≡ false)
    → IsSound s
    → IsSound (insert_fill works make s).0
unfolding insert_fill
insert_fill-IsSound true make s own new sound =
    insert_new-IsSound _ _ (make s.next_fill) s (own s.next_fill) (new s.next_fill) sound
insert_fill-IsSound false make s own new sound = sound

module _ (report : KiteReport) (context : ReportContext) (now : ℕ) where
  finish-IsSound :
      (saved : Bool) (ids : List ℕ) (row : StoredOrder) (s : Desk)
      → IsSound s.ledger
      → IsSound (finish report context now saved ids row s).0.ledger
  finish-IsSound saved ids row s sound =
      subst IsSound (sym (finish-kept report context now saved ids row s).1) sound

  book_part-IsSound :
      (p : Store × Option ℕ) (row : StoredOrder) (s : Desk)
      → IsSound p.0
      → IsSound (book_part report context now p row s).0.ledger
  unfolding book_part
  book_part-IsSound (ledger, none) row s sound = finish-IsSound false [] row _ sound
  book_part-IsSound (ledger, some id) row s sound =
      finish-IsSound true (id ∷ []) row _ (apply-IsSound id _ ledger sound)

  save_part-IsSound :
      (works : Bool) (part : Result (Option IncrementalFill)) (row : StoredOrder) (s : Desk)
      → IsSound s.ledger
      → IsSound (save_part report context now works part row s).0.ledger
  unfolding save_part fill_of_report
  save_part-IsSound works (throw e) row s sound = sound
  save_part-IsSound works (ok none) row s sound = finish-IsSound true [] row s sound
  save_part-IsSound works (ok (some part)) row s sound =
      book_part-IsSound (insert_fill works (fill_of_report report context now row part) s.ledger)
        row s
        (insert_fill-IsSound works (fill_of_report report context now row part) s.ledger (λ n. refl)
          (λ n. refl) sound)

  snapshot_row-IsSound :
      (works : Bool) (row : StoredOrder) (s : Desk)
      → IsSound s.ledger
      → IsSound (snapshot_row report context now works row s).0.ledger
  unfolding snapshot_row
  snapshot_row-IsSound works row s sound = elim (Bool-cases (books_fill report context now row)) [
    | inl books ↦ rw books (save_part-IsSound works (new_part report context now row) row s sound)
    | inr done ↦ rw done (finish-IsSound (leb (filled_of report) row.filled_qty) [] row s sound)
  ]

  found-IsSound :
      (works : Bool) (o : Option StoredOrder) (s : Desk)
      → IsSound s.ledger
      → IsSound (snapshot_found report context now works o s).0.ledger
  unfolding snapshot_found
  found-IsSound works none s sound = sound
  found-IsSound works (some row) s sound = snapshot_row-IsSound works row s sound

  created-IsSound :
      (works : Bool) (o : Option (Desk × RecordedIntent)) (s : Desk)
      → ((r : Desk × RecordedIntent) → o ≡ some r → r.0.ledger ≡ s.ledger)
      → IsSound s.ledger
      → IsSound (snapshot_created report context now works o s).0.ledger
  unfolding snapshot_created
  created-IsSound works none s kept sound = sound
  created-IsSound works (some (s', recorded)) s kept sound =
      found-IsSound works (order_by_id recorded.id s') s'
        (subst IsSound (sym (kept (s', recorded) refl)) sound)

  module _ (job_by_tag : Text → Option JobRef) (uuids : List Text) where
    of-IsSound :
        (works : Bool) (o : Option StoredOrder) (s : Desk)
        → IsSound s.ledger
        → IsSound (snapshot_of report context now job_by_tag uuids works o s).0.ledger
    unfolding snapshot_of
    of-IsSound works (some row) s sound = snapshot_row-IsSound works row s sound
    of-IsSound works none s sound =
        elim (Bool-cases (truthy report.tradingsymbol && ltb 0 (requested_of report))) [
          | inl known ↦ rw known (
              created-IsSound works _ s
                (λ r done.
                  record_order_intent-ledger job_by_tag now (intent_of_report report context now) s
                    uuids r done)
                sound)
          | inr bare ↦ rw bare sound
        ]

    -- Whatever the broker reports, whether the order is known, is recorded for the report or is not, and
    -- whether the insertion of its fill works or fails: the positions of the ledger go on holding, in sum,
    -- what the applied fills have moved, and the identifiers stay distinct.
    pub snapshot-IsSound :
        (works : Bool) (s : Desk)
        → IsSound s.ledger
        → IsSound (apply_broker_order_snapshot report context now job_by_tag uuids works s).0.ledger
    unfolding apply_broker_order_snapshot
    snapshot-IsSound works s sound = of-IsSound works (reported_row report context now s) s sound
