-- ===== src/Session.antt =====
-- The calls of lib/kiteUtils.ts, lib/trading/ledger.ts, lib/trading/paperExecution.ts and
-- lib/trading/reconcile.ts on one desk, one after another.
use cm_desk.Prelude.{ℕ, ◌≡◌, refl, sym, subst, Bool, Option, none, some, List, [], ◌∷◌}
use cm_desk.Prelude.Text.{Text}
use cm_desk.Prelude.Double.{Double}
use cm_desk.Intake.{Desk}
use cm_desk.Intake.Intent.{JobRef, OrderIntent, RecordedIntent, record_order_intent}
use cm_desk.Intake.Intent.Absent.{record_order_intent-ledger}
use cm_desk.Intake.Status.Refines.{StatusCall, run_call}
use cm_desk.Intake.Status.Kept.{run_call-ledger}
use cm_desk.Intake.Attributed.{AttributedFill, record_attributed_fill}
use cm_desk.Intake.Attributed.Sound.{record_attributed-IsSound}
use cm_desk.Ledger.Pending.{apply_unapplied_fills}
use cm_desk.Intake.Snapshot.{KiteReport, ReportContext, apply_broker_order_snapshot}
use cm_desk.Intake.Snapshot.Sound.{IsSound, snapshot-IsSound}
use cm_desk.Paper.Execution.{cancel_paper_working_orders, match_paper_working_stops}
use cm_desk.Paper.Execution.Sound.{cancel-IsSound, match_stops-IsSound}
use cm_desk.Placement.Send.{RiskAwareOrder, Answers}
use cm_desk.Placement.Place.{place_order}
use cm_desk.Placement.Place.Sound.{place_order-IsSound}
use cm_desk.Reconcile.Sync.{Recon, BrokerSnapshot, reconcile_with_broker}
use cm_desk.Reconcile.Backfill.{Imports}
use cm_desk.Reconcile.Backfill.Sound.{apply_unapplied-IsSound}
use cm_desk.Reconcile.Sync.Sound.{reconcile-IsSound}

-- A call, with what it is answered from outside.
pub data DeskCall {ℓ} (F : Type ℓ) : Type ℓ where
  places : RiskAwareOrder F → Answers F → DeskCall F
  records : OrderIntent → ℕ → List Text → DeskCall F
  moves : StatusCall → DeskCall F
  reports : KiteReport → ReportContext → ℕ → List Text → Bool → DeskCall F
  matches : Text → F → Option F → Option F → ℕ → Bool → DeskCall F
  attributes : AttributedFill → ℕ → List Text → Bool → DeskCall F
  applies_pending : DeskCall F
  cancels : Text → Option Text → Option Text → ℕ → Bool → DeskCall F
  reconciles :
      Imports → Bool → Option BrokerSnapshot → (KiteReport → List Text) → Bool → ℕ → ℕ → DeskCall F

abbrev pub recorded_or : Desk → Option (Desk × RecordedIntent) → Desk
recorded_or s none = s
recorded_or s (some r) = r.0

module _ {ℓ} {F : Type ℓ} ⦃d : Double F⦄ (number_of : Text → F) (text_of : F → Text)
    (job_by_tag : Text → Option JobRef) where
  abbrev pub run_desk_call : DeskCall F → Recon → Recon
  run_desk_call (places order w) r = record r { desk = (place_order text_of order w r.desk).desk }
  run_desk_call (records input now uuids) r = record r {
    desk = recorded_or r.desk (record_order_intent job_by_tag now uuids input r.desk);
  }
  run_desk_call (moves c) r = record r { desk = run_call c r.desk }
  run_desk_call (reports report context now uuids works) r = record r {
    desk = (apply_broker_order_snapshot report context now job_by_tag uuids works r.desk).0;
  }
  run_desk_call (matches tradingsymbol last high low now works) r = record r {
    desk =
        (match_paper_working_stops job_by_tag [] now number_of text_of works tradingsymbol last high
          low r.desk).0;
  }
  run_desk_call (cancels tradingsymbol side tag now works) r = record r {
    desk = (cancel_paper_working_orders job_by_tag [] now works tradingsymbol side tag r.desk).0;
  }
  run_desk_call (attributes input now uuids works) r = record r {
    desk = (record_attributed_fill job_by_tag now uuids works input r.desk).0;
  }
  run_desk_call applies_pending r = record r {
    desk = record r.desk { ledger = (apply_unapplied_fills r.desk.ledger).0 };
  }
  run_desk_call (reconciles imports is_mock broker names works now start) r =
      (reconcile_with_broker job_by_tag names works now start imports is_mock broker r).0

  pub run_session : List (DeskCall F) → Recon → Recon
  run_session [] r = r
  run_session (c ∷ cs) r = run_session cs (run_desk_call c r)

  recorded-IsSound :
      (s : Desk) (o : Option (Desk × RecordedIntent))
      → ((r : Desk × RecordedIntent) → o ≡ some r → r.0.ledger ≡ s.ledger)
      → IsSound s.ledger
      → IsSound (recorded_or s o).ledger
  recorded-IsSound s none kept sound = sound
  recorded-IsSound s (some r) kept sound = subst IsSound (sym (kept r refl)) sound

  run_desk_call-IsSound :
      (c : DeskCall F) (r : Recon) → IsSound r.desk.ledger → IsSound (run_desk_call c r).desk.ledger
  run_desk_call-IsSound (places order w) r sound = place_order-IsSound text_of order w r.desk sound
  run_desk_call-IsSound (records input now uuids) r sound =
      recorded-IsSound r.desk (record_order_intent job_by_tag now uuids input r.desk)
        (λ q done. record_order_intent-ledger job_by_tag now input r.desk uuids q done) sound
  run_desk_call-IsSound (moves c) r sound = subst IsSound (sym (run_call-ledger c r.desk)) sound
  run_desk_call-IsSound (reports report context now uuids works) r sound =
      snapshot-IsSound report context now job_by_tag uuids works r.desk sound
  run_desk_call-IsSound (matches tradingsymbol last high low now works) r sound =
      match_stops-IsSound job_by_tag [] now works number_of text_of tradingsymbol last high low
        r.desk sound
  run_desk_call-IsSound (cancels tradingsymbol side tag now works) r sound =
      cancel-IsSound job_by_tag [] now works tradingsymbol side tag r.desk sound
  run_desk_call-IsSound (attributes input now uuids works) r sound =
      record_attributed-IsSound input now works job_by_tag uuids r.desk sound
  run_desk_call-IsSound applies_pending r sound = apply_unapplied-IsSound r.desk.ledger sound
  run_desk_call-IsSound (reconciles imports is_mock broker names works now start) r sound =
      reconcile-IsSound job_by_tag names works now start imports is_mock broker r sound

  -- The desk's books stay balanced: whatever orders are placed, recorded, moved, reported by the broker,
  -- matched on paper or cancelled, whatever trades of the
  -- broker are accepted and whatever reconciliations run, in whatever order and with whatever
  -- answers, failures of the insertion of fills included, a ledger whose positions hold in sum what its
  -- applied fills have moved goes on doing so, and its identifiers stay distinct.
  pub run_session-IsSound :
      (cs : List (DeskCall F)) (r : Recon)
      → IsSound r.desk.ledger
      → IsSound (run_session cs r).desk.ledger
  unfolding run_session
  run_session-IsSound [] r sound = sound
  run_session-IsSound (c ∷ cs) r sound =
      run_session-IsSound cs (run_desk_call c r) (run_desk_call-IsSound c r sound)
