-- ===== src/Intake/Attributed/Once.antt =====
-- lib/trading/ledger.ts: `recordAttributedFill` twice with one fingerprint.
use cm_desk.Prelude.{
  ℕ, ◌==◌, ◌≡◌, refl, sym, ap, subst, ◌∙◌, Bool, true, false, Option, none, some, List, inl, inr,
  Bool-cases, if◌then◌else◌,
}
use cm_desk.Prelude.Text.{Text, text_eq, text_eq_refl}
use cm_desk.Ledger.{StoredFill, Store, find}
use cm_desk.Ledger.Rows.After.{find-under_update}
use cm_desk.Ledger.Apply.{apply_fill_by_id, mark_applied}
use cm_desk.Ledger.Apply.Once.{apply_fill-once}
use cm_desk.Ledger.Apply.Fills.{apply_fill-Marks}
use cm_desk.Intake.{Desk}
use cm_desk.Intake.Intent.{JobRef, RecordedIntent, record_order_intent}
use cm_desk.Intake.Intent.Absent.{record_order_intent-ledger}
use cm_desk.Intake.Intent.Once.{find-added_last}
use cm_desk.Intake.Snapshot.{fill_by_fingerprint, trade_taken, insert_new, insert_fill}
use cm_desk.Intake.Attributed.{
  AttributedFill, attributed_intent, attributed_fill, apply_saved, book_attributed,
  attributed_after, record_attributed_fill,
}

-- The ledger has a fill of the fingerprint and number.
HasFill : Text → ℕ → Store → Type 0
HasFill fingerprint id s =
    (f : StoredFill) × (fill_by_fingerprint fingerprint s ≡ some f) × (f.id ≡ id)

inserted-HasFill :
    (o : Option StoredFill) (taken : Bool) (fill : StoredFill) (s : Store) (id : ℕ)
    → fill_by_fingerprint fill.fingerprint s ≡ o
    → (insert_new o taken fill s).1 ≡ some id
    → HasFill fill.fingerprint id (insert_new o taken fill s).0
unfolding HasFill
inserted-HasFill (some known) taken fill s id found h = (known, found, cc)
inserted-HasFill none true fill s id fresh h = absurd (cc)
inserted-HasFill none false fill s id fresh h = (
  fill,
  find-added_last (λ f. text_eq f.fingerprint fill.fingerprint) s.fills fill fresh
      (text_eq_refl fill.fingerprint),
  cc,
)

applied-HasFill :
    (fingerprint : Text) (id k : ℕ) (reason : Option Text) (s : Store)
    → HasFill fingerprint id s
    → HasFill fingerprint id (apply_fill_by_id k reason s).0
unfolding HasFill
applied-HasFill fingerprint id k reason s (f, found, same) =
    elim (apply_fill-Marks k reason s).fills [
      | inl kept ↦ (f, ap (find (λ x. text_eq x.fingerprint fingerprint)) kept ∙ found, same)
      | inr (j, marked) ↦ (
        if f.id == j then mark_applied f else f,
        ap (find (λ x. text_eq x.fingerprint fingerprint)) marked
            ∙ find-under_update (λ x. text_eq x.fingerprint fingerprint) (λ x. x.id == j)
                mark_applied s.fills f (λ x. refl) found,
        elim (Bool-cases (f.id == j)) [ inl hit ↦ rw hit same | inr miss ↦ rw miss same ],
      )
    ]

-- A fill of the fingerprint is there and booked.
Booked : Text → Store → Type 0
Booked fingerprint s =
    (id : ℕ) × HasFill fingerprint id s × (apply_fill_by_id id none s ≡ (s, false))

saved-Booked :
    (fingerprint : Text) (p : Store × Option ℕ) (s : Desk)
    → ((id : ℕ) → p.1 ≡ some id → HasFill fingerprint id p.0)
    → (apply_saved p s).1 ≡ true
    → Booked fingerprint (apply_saved p s).0.ledger
unfolding apply_saved Booked
saved-Booked fingerprint (ledger, none) s there h = absurd (cc)
saved-Booked fingerprint (ledger, some id) s there h = elim (apply_fill-once id none none ledger) [
  | inl same ↦
      let refused : (apply_fill_by_id id none ledger).1 ≡ false =
        ap (λ (r : Store × Bool). r.1) same in
      absurd (cc)
  | inr (done, again) ↦ (id, applied-HasFill fingerprint id id none ledger (there id refl), again)
]

module _ (input : AttributedFill) (now : ℕ) where
  book-Booked :
      (works : Bool) (order_id : ℕ) (s : Desk)
      → (book_attributed input now works order_id s).1 ≡ true
      → Booked input.fingerprint (book_attributed input now works order_id s).0.ledger
  unfolding insert_fill attributed_fill apply_saved
  book-Booked false order_id s h = absurd (cc)
  book-Booked true order_id s h =
      let fill = attributed_fill input order_id s.ledger.next_fill in
      saved-Booked input.fingerprint
        (insert_new (fill_by_fingerprint input.fingerprint s.ledger) (trade_taken fill s.ledger)
          fill s.ledger)
        _
        (λ id e.
          inserted-HasFill (fill_by_fingerprint input.fingerprint s.ledger)
            (trade_taken fill s.ledger) fill s.ledger id refl e)
        h

  -- a second booking
  Repeats : Desk → Desk × Bool → Type 0
  Repeats s r = (r.1 ≡ false) × (r.0.ledger ≡ s.ledger)

  book-Repeats :
      (works : Bool) (order_id : ℕ) (s : Desk)
      → Booked input.fingerprint s.ledger
      → Repeats s (book_attributed input now works order_id s)
  unfolding insert_fill attributed_fill apply_saved Booked HasFill Repeats
  book-Repeats false order_id s booked = (refl, refl)
  book-Repeats true order_id s (id, (f, found, same), again) =
      let applied = ap (λ n. apply_fill_by_id n none s.ledger) same ∙ again in
      rw found (rw applied (refl, refl))

  after-Booked :
      (works : Bool) (o : Option (Desk × RecordedIntent)) (s : Desk)
      → (attributed_after input now works o s).1 ≡ true
      → Booked input.fingerprint (attributed_after input now works o s).0.ledger
  unfolding attributed_after
  after-Booked works none s h = absurd (cc)
  after-Booked works (some (s', recorded)) s h = book-Booked works recorded.id s' h

  after-Repeats :
      (works : Bool) (o : Option (Desk × RecordedIntent)) (s : Desk)
      → ((r : Desk × RecordedIntent) → o ≡ some r → r.0.ledger ≡ s.ledger)
      → Booked input.fingerprint s.ledger
      → Repeats s (attributed_after input now works o s)
  unfolding attributed_after Repeats
  after-Repeats works none s kept booked = (refl, refl)
  after-Repeats works (some (s', recorded)) s kept booked =
      let same = kept (s', recorded) refl in
      let (refused, rest) =
        book-Repeats works recorded.id s' (subst (Booked input.fingerprint) (sym same) booked) in
      (refused, rest ∙ same)

-- A trade of the broker is booked once: after a call of `recordAttributedFill` that returns true, every
-- call with the same trade returns false and leaves the fills, positions, trades and events as they are,
-- at any time and whether or not the insertion of its fill works.
pub record_attributed-once :
    (job_by_tag later_jobs : Text → Option JobRef) (now later : ℕ) (uuids later_uuids : List Text)
    (works again : Bool) (input : AttributedFill) (s : Desk)
    → (record_attributed_fill job_by_tag now uuids works input s).1 ≡ true
    → let s' = (record_attributed_fill job_by_tag now uuids works input s).0 in
      ((record_attributed_fill later_jobs later later_uuids again input s').1 ≡ false)
      × ((record_attributed_fill later_jobs later later_uuids again input s').0.ledger ≡ s'.ledger)
unfolding record_attributed_fill Repeats
record_attributed-once job_by_tag later_jobs now later uuids later_uuids works again input s h =
    let s' = (record_attributed_fill job_by_tag now uuids works input s).0 in
    after-Repeats input later again
      (record_order_intent later_jobs later later_uuids (attributed_intent input) s') s'
      (λ r done.
        record_order_intent-ledger later_jobs later (attributed_intent input) s' later_uuids r done)
      (after-Booked input now works
        (record_order_intent job_by_tag now uuids (attributed_intent input) s) s h)
