-- ===== src/Placement/Place/Sound.antt =====
-- lib/kiteUtils.ts: the balance of the ledger through `placeOrder`.
use cm_desk.Prelude.{ℕ, ◌≡◌, refl, sym, subst, not, ◌&&◌, Option, none, some, inl, inr, Bool-cases}
use cm_desk.Prelude.Text.{Text, truthy, opt_text_eq}
use cm_desk.Prelude.Double.{Double}
use cm_desk.Money.{Result, ok, throw}
use cm_desk.Risk.Gate.{Verdict, allowed, rejected, assert_order_allowed}
use cm_desk.Intake.{Desk}
use cm_desk.Intake.Intent.{RecordedIntent}
use cm_desk.Intake.Intent.Absent.{record_order_intent-ledger}
use cm_desk.Intake.Status.{SubmitReport, mark_order_submitted}
use cm_desk.Intake.Status.Kept.{mark_submitted-ledger}
use cm_desk.Intake.Snapshot.{SnapshotResult}
use cm_desk.Intake.Snapshot.Sound.{IsSound, snapshot-IsSound}
use cm_desk.Placement.{PlaceDecision, place, lookup, wait, reuse, in_doubt, says, raised}
use cm_desk.Placement.Send.{
  RiskAwareOrder, BrokerAnswer, answers, fails, Answers, is_paper_execution, gate_order,
  has_quantity, place_intent, safe_record_order,
}
use cm_desk.Placement.Place.{
  own_report, own_context, paper_result, send_paper, send_live, send, reuse_order, act,
  place_recorded, is_session_blocked, after_gate, place_order,
}

mark-IsSound :
    (report : SubmitReport) (now : ℕ) (s : Desk)
    → IsSound s.ledger
    → IsSound (mark_order_submitted report now s).ledger
mark-IsSound report now s sound = subst IsSound (sym (mark_submitted-ledger report now s)) sound

module _ {ℓ} {F : Type ℓ} ⦃d : Double F⦄ (text_of : F → Text) (order : RiskAwareOrder F)
    (w : Answers F) where
  paper_result-IsSound :
      (id : ℕ) (r : Desk × Result SnapshotResult)
      → IsSound r.0.ledger
      → IsSound (paper_result text_of order w id r).desk.ledger
  unfolding paper_result
  paper_result-IsSound id (s, ok result) sound = sound
  paper_result-IsSound id (s, throw e) sound = mark-IsSound _ w.now s sound

  send_paper-IsSound :
      (id : ℕ) (s : Desk) → IsSound s.ledger → IsSound (send_paper text_of order w id s).desk.ledger
  send_paper-IsSound id s sound = paper_result-IsSound id _ (
      snapshot-IsSound (own_report text_of order w id) (own_context text_of order w id) w.now
        w.job_by_tag w.uuids w.works _ (mark-IsSound _ w.now s sound))

  send_live-IsSound :
      (id : ℕ) (a : BrokerAnswer) (s : Desk)
      → IsSound s.ledger
      → IsSound (send_live text_of order w id a s).desk.ledger
  send_live-IsSound id (answers order_id) s sound = mark-IsSound _ w.now s sound
  send_live-IsSound id (fails in_doubt) s sound = sound
  send_live-IsSound id (fails (says message)) s sound = mark-IsSound _ w.now s sound
  send_live-IsSound id (fails (raised type code message)) s sound = mark-IsSound _ w.now s sound

  send-IsSound :
      (id : ℕ) (s : Desk) → IsSound s.ledger → IsSound (send text_of order w id s).desk.ledger
  send-IsSound id s sound = elim (Bool-cases (is_paper_execution text_of order w)) [
    | inl paper ↦ rw paper (send_paper-IsSound id s sound)
    | inr live ↦ rw live (send_live-IsSound id w.answer s sound)
  ]

  reuse-IsSound :
      (recorded : RecordedIntent) (id : Text) (s : Desk)
      → IsSound s.ledger
      → IsSound (reuse_order text_of order w recorded id s).desk.ledger
  reuse-IsSound recorded id s sound =
      elim (Bool-cases (truthy (some id) && not (opt_text_eq (some id) recorded.broker_order_id))) [
        | inl new ↦ rw new (mark-IsSound _ w.now s sound)
        | inr known ↦ rw known sound
      ]

  act-IsSound :
      (recorded : RecordedIntent) (o : Option PlaceDecision) (s : Desk)
      → IsSound s.ledger
      → IsSound (act text_of order w recorded o s).desk.ledger
  unfolding act
  act-IsSound recorded none s sound = sound
  act-IsSound recorded (some wait) s sound = sound
  act-IsSound recorded (some (reuse id)) s sound = reuse-IsSound recorded id s sound
  act-IsSound recorded (some place) s sound = send-IsSound recorded.id s sound
  act-IsSound recorded (some lookup) s sound = send-IsSound recorded.id s sound

  recorded-IsSound :
      (s : Desk) (o : Option (Desk × RecordedIntent))
      → ((r : Desk × RecordedIntent) → o ≡ some r → r.0.ledger ≡ s.ledger)
      → IsSound s.ledger
      → IsSound (place_recorded text_of order w o s).desk.ledger
  unfolding place_recorded
  recorded-IsSound s none kept sound = sound
  recorded-IsSound s (some (t, recorded)) kept sound =
      act-IsSound recorded _ t (subst IsSound (sym (kept (t, recorded) refl)) sound)

  safe_record-ledger :
      (s : Desk) (r : Desk × RecordedIntent)
      → safe_record_order text_of order w s ≡ some r
      → r.0.ledger ≡ s.ledger
  unfolding safe_record_order
  safe_record-ledger s r h =
      elim (Bool-cases (
        truthy order.tradingsymbol
        && has_quantity text_of order.quantity
        && truthy order.transaction_type)) [
          | inl whole ↦
              record_order_intent-ledger w.job_by_tag w.now (place_intent text_of order w) s w.uuids
                r (rw whole at h)
          | inr bare ↦ let gone : none ≡ some r = rw bare at h in absurd (cc)
        ]

  after_gate-IsSound :
      (v : Verdict) (s : Desk)
      → IsSound s.ledger
      → IsSound (after_gate text_of order w v s).desk.ledger
  unfolding after_gate
  after_gate-IsSound (rejected code) s sound = sound
  after_gate-IsSound allowed s sound = elim (Bool-cases (is_session_blocked text_of order w)) [
    | inl blocked ↦ rw blocked sound
    | inr free ↦ rw free (recorded-IsSound s _ (safe_record-ledger s) sound)
  ]

  pub place_order-IsSound :
      (s : Desk) → IsSound s.ledger → IsSound (place_order text_of order w s).desk.ledger
  unfolding place_order
  place_order-IsSound s sound =
      after_gate-IsSound (assert_order_allowed (gate_order text_of order w) w.rows) s sound
