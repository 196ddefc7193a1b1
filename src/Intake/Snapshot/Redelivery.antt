-- ===== src/Intake/Snapshot/Redelivery.antt =====
-- lib/trading/ledger.ts: a report of the broker that is delivered again.
pub mod Row
pub mod Lookup
use cm_desk.Prelude.{
  ℕ, ◌≡◌, refl, ap, ◌∙◌, sym, subst, Bool, true, false, ◌&&◌, Option, none, some, List, [], ltb,
  inl, inr, Bool-cases, Option-cases, if◌then◌else◌,
}
use cm_desk.Prelude.Text.{Text, truthy}
use cm_desk.Money.{Result, ok}
use cm_desk.Intake.{StoredOrder, Desk, order_by_id, order_by_broker_id}
use cm_desk.Intake.Frame.{own-read}
use cm_desk.Intake.Intent.{JobRef, RecordedIntent, record_order_intent}
use cm_desk.Intake.Intent.Absent.{record_order_intent-absent}
use cm_desk.Intake.Snapshot.{
  KiteReport, ReportContext, SnapshotResult, broker_id, requested_of, books_fill, reported_row,
  no_order, intent_of_report, snapshot_found, snapshot_created, snapshot_of,
  apply_broker_order_snapshot, snapshot_row,
}
use cm_desk.Intake.Snapshot.Redelivery.Row.{Settles, snapshot_row-Settles, snapshot_row-settled}
use cm_desk.Intake.Snapshot.Redelivery.Lookup.{settled-found, settled-named}

-- Without an internal identifier the broker's names the order.
reported-named :
    (report : KiteReport) (context : ReportContext) (now : ℕ) (b : Text) (s : Desk)
    → broker_id report ≡ some b
    → context.internal_order_id ≡ none
    → reported_row report context now s ≡ order_by_broker_id b s
reported-named report context now b s named outside = simp (named, outside)

module _ (report : KiteReport) (context : ReportContext) (b : Text)
    (named : broker_id report ≡ some b) (outside : context.internal_order_id ≡ none) where
  -- the order that the identifier names has no part of the report left to book
  Settled : ℕ → Desk → Type 0
  Settled now s =
      (o : StoredOrder) × (order_by_broker_id b s ≡ some o)
      × (books_fill report context now o ≡ false)

  module _ (now : ℕ) (job_by_tag : Text → Option JobRef) (uuids : List Text) where
    again-kept :
        (works : Bool) (s : Desk)
        → Settled now s
        → (apply_broker_order_snapshot report context now job_by_tag uuids works s).0.ledger
          ≡ s.ledger
    unfolding apply_broker_order_snapshot snapshot_of Settled
    again-kept works s (o, found, done) =
        ap (λ z. (snapshot_of report context now job_by_tag uuids works z s).0.ledger)
          (reported-named report context now b s named outside ∙ found)
        ∙ snapshot_row-settled report context now works o s done

    created-Settled :
        (o : Option StoredOrder) (s : Desk) (result : SnapshotResult) (id k : ℕ)
        → order_by_broker_id b s ≡ none
        → order_by_id k s ≡ o
        → (snapshot_found report context now true o s).1 ≡ ok result
        → result.order_id ≡ some id
        → Settled now (snapshot_found report context now true o s).0
    unfolding snapshot_found Settled
    created-Settled none s result id k absent read h e = absurd (cc)
    created-Settled (some row) s result id k absent read h e =
        settled-named report context now b named row s _
          (snapshot_row-Settles report context now row s result h) absent (own-read k s row read)

    recorded-Settled :
        (o : Option (Desk × RecordedIntent)) (s : Desk) (result : SnapshotResult) (id : ℕ)
        → ((r : Desk × RecordedIntent) → o ≡ some r → order_by_broker_id b r.0 ≡ none)
        → (snapshot_created report context now true o s).1 ≡ ok result
        → result.order_id ≡ some id
        → Settled now (snapshot_created report context now true o s).0
    unfolding snapshot_created
    recorded-Settled none s result id absent h e = absurd (cc)
    recorded-Settled (some (s', recorded)) s result id absent h e =
        created-Settled (order_by_id recorded.id s') s' result id recorded.id
          (absent (s', recorded) refl) refl h e

    snapshot-Settled :
        (o : Option StoredOrder) (s : Desk) (result : SnapshotResult) (id : ℕ)
        → order_by_broker_id b s ≡ o
        → (snapshot_of report context now job_by_tag uuids true o s).1 ≡ ok result
        → result.order_id ≡ some id
        → Settled now (snapshot_of report context now job_by_tag uuids true o s).0
    unfolding snapshot_of
    snapshot-Settled (some row) s result id found h e =
        unfold Settled in
        settled-found report context now b named row s _
          (snapshot_row-Settles report context now row s result h) found
    snapshot-Settled none s result id absent h e =
        elim (Bool-cases (truthy report.tradingsymbol && ltb 0 (requested_of report))) [
          | inl known ↦ rw known (
              recorded-Settled _ s result id
                (λ r done.
                  record_order_intent-absent job_by_tag now (intent_of_report report context now) b
                    s absent uuids r done)
                (rw known at h) e)
          | inr bare ↦
              let none_there : (no_order report context now s).1 ≡ ok result = rw bare at h in
              absurd (cc)
        ]

  -- A report of the broker with its identifier, taken without error by an order that was there or is
  -- recorded for it, its fill saved if it has one, books nothing when it is delivered again, at any time
  -- and however often the insertion of fills fails: the fills, positions, trades and events stay.
  pub snapshot-redelivered :
      (now later : ℕ) (job_by_tag later_jobs : Text → Option JobRef) (uuids later_uuids : List Text)
      (works : Bool) (s : Desk) (result : SnapshotResult) (id : ℕ)
      → (apply_broker_order_snapshot report context now job_by_tag uuids true s).1 ≡ ok result
      → result.order_id ≡ some id
      → let s' = (apply_broker_order_snapshot report context now job_by_tag uuids true s).0 in
        (apply_broker_order_snapshot report context later later_jobs later_uuids works s').0.ledger
        ≡ s'.ledger
  unfolding apply_broker_order_snapshot Settled
  snapshot-redelivered now later job_by_tag later_jobs uuids later_uuids works s result id h e =
      again-kept later later_jobs later_uuids works _ (
        subst
          (λ o.
            (snapshot_of report context now job_by_tag uuids true o s).1 ≡ ok result
            → Settled now (snapshot_of report context now job_by_tag uuids true o s).0)
          (sym (reported-named report context now b s named outside))
          (λ h'. snapshot-Settled now job_by_tag uuids _ s result id refl h' e) h)
