-- ===== src/Intake/Attributed/Sound.antt =====
-- lib/trading/ledger.ts: the balance of the ledger through `recordAttributedFill`.
use cm_desk.Prelude.{ℕ, ◌≡◌, refl, sym, subst, Bool, Option, none, some, List}
use cm_desk.Prelude.Text.{Text}
use cm_desk.Ledger.{Store}
use cm_desk.Intake.{Desk}
use cm_desk.Intake.Intent.{JobRef, RecordedIntent, record_order_intent}
use cm_desk.Intake.Intent.Absent.{record_order_intent-ledger}
use cm_desk.Intake.Snapshot.{insert_fill}
use cm_desk.Intake.Snapshot.Sound.{IsSound, apply-IsSound, insert_fill-IsSound}
use cm_desk.Intake.Attributed.{
  AttributedFill, attributed_intent, attributed_fill, apply_saved, attributed_after,
  record_attributed_fill,
}

saved-IsSound : (p : Store × Option ℕ) (s : Desk) → IsSound p.0 → IsSound (apply_saved p s).0.ledger
unfolding apply_saved
saved-IsSound (ledger, none) s sound = sound
saved-IsSound (ledger, some id) s sound = apply-IsSound id none ledger sound

module _ (input : AttributedFill) (now : ℕ) (works : Bool) where
  after-IsSound :
      (o : Option (Desk × RecordedIntent)) (s : Desk)
      → ((r : Desk × RecordedIntent) → o ≡ some r → r.0.ledger ≡ s.ledger)
      → IsSound s.ledger
      → IsSound (attributed_after input now works o s).0.ledger
  unfolding attributed_after attributed_fill
  after-IsSound none s kept sound = sound
  after-IsSound (some (s', recorded)) s kept sound =
      saved-IsSound (insert_fill works (attributed_fill input recorded.id) s'.ledger) _ (
        insert_fill-IsSound works (attributed_fill input recorded.id) s'.ledger (λ n. refl)
          (λ n. refl) (subst IsSound (sym (kept (s', recorded) refl)) sound))

  pub record_attributed-IsSound :
      (job_by_tag : Text → Option JobRef) (uuids : List Text) (s : Desk)
      → IsSound s.ledger
      → IsSound (record_attributed_fill job_by_tag now uuids works input s).0.ledger
  unfolding record_attributed_fill
  record_attributed-IsSound job_by_tag uuids s sound =
      after-IsSound (record_order_intent job_by_tag now uuids (attributed_intent input) s) s
        (λ r done.
          record_order_intent-ledger job_by_tag now (attributed_intent input) s uuids r done)
        sound
