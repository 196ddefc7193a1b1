-- ===== src/Placement/Place/Guards.antt =====
-- lib/kiteUtils.ts: what holds of an order that `placeOrder` sends to the broker.
use cm_desk.Prelude.{
  ◌≡◌, refl, true, false, ◌||◌, Option, none, some, is_some, inl, inr, Bool-cases, arith,
}
use cm_desk.Prelude.Text.{Text}
use cm_desk.Prelude.Double.{Double}
use cm_desk.Risk.Gate.{session_closed, Verdict, allowed, rejected, assert_order_allowed}
use cm_desk.Risk.Exit.{live_flatten_session_block}
use cm_desk.Risk.Role.{is_entry}
use cm_desk.Intake.{Desk}
use cm_desk.Intake.Intent.{RecordedIntent}
use cm_desk.Placement.{PlaceDecision, place, lookup, wait, reuse}
use cm_desk.Placement.Send.{
  RiskAwareOrder, Answers, unsent, risk_rejected, is_paper_execution, place_role, gate_order,
  safe_record_order,
}
use cm_desk.Placement.Place.{
  send_paper, send, act, place_recorded, is_session_blocked, after_gate, place_order,
}
use cm_desk.Placement.Place.Doubt.{paper_result-unsent}

module _ {ℓ} {F : Type ℓ} ⦃d : Double F⦄ (text_of : F → Text) (order : RiskAwareOrder F)
    (w : Answers F) (s : Desk) where
  send-live :
      (recorded : RecordedIntent) (t : Desk)
      → (send text_of order w recorded.id t).is_sent ≡ true
      → is_paper_execution text_of order w ≡ false
  send-live recorded t sent = elim (Bool-cases (is_paper_execution text_of order w)) [
    | inr live ↦ live
    | inl paper ↦
        let sent' : (send_paper text_of order w recorded.id t).is_sent ≡ true = rw paper at sent in
        let silent : (send_paper text_of order w recorded.id t).is_sent ≡ false =
          paper_result-unsent text_of order w recorded.id _ in
        absurd (cc)
  ]

  sent-live :
      (recorded : RecordedIntent) (o : Option PlaceDecision) (t : Desk)
      → (act text_of order w recorded o t).is_sent ≡ true
      → is_paper_execution text_of order w ≡ false
  unfolding act
  sent-live recorded none t sent = absurd (cc)
  sent-live recorded (some wait) t sent = absurd (cc)
  sent-live recorded (some (reuse id)) t sent = absurd (cc)
  sent-live recorded (some place) t sent = send-live recorded t sent
  sent-live recorded (some lookup) t sent = send-live recorded t sent

  recorded-live :
      (r : Option (Desk × RecordedIntent))
      → (place_recorded text_of order w r s).is_sent ≡ true
      → (is_some r ≡ true) × (is_paper_execution text_of order w ≡ false)
  unfolding place_recorded
  recorded-live none sent = absurd (cc)
  recorded-live (some (t, recorded)) sent = (refl, sent-live recorded _ t sent)

  after_gate-Guarded :
      (v : Verdict)
      → (after_gate text_of order w v s).is_sent ≡ true
      → (v ≡ allowed)
        × (is_some (safe_record_order text_of order w s) ≡ true)
        × (is_paper_execution text_of order w ≡ false)
        × (is_entry (place_role text_of order) || w.rows.market_open ≡ true)
  unfolding after_gate live_flatten_session_block
  after_gate-Guarded (rejected code) sent = absurd (cc)
  after_gate-Guarded allowed sent = elim (Bool-cases (is_session_blocked text_of order w)) [
    | inl blocked ↦
        let sent' : (unsent s (risk_rejected session_closed)).is_sent ≡ true = rw blocked at sent in
        absurd (cc)
    | inr free ↦
        let sent' : (place_recorded text_of order w (safe_record_order text_of order w s) s).is_sent
            ≡ true =
          rw free at sent in
        let (saved, live) = recorded-live _ sent' in (refl, saved, live, ground arith)
  ]

  -- Nothing goes to the broker past the desk's guards: an order that `placeOrder` sends was allowed by the
  -- risk gate and saved in the ledger before, its strategy and the process are live, and if it is no entry
  -- the market is open.
  pub place_order-guarded :
      (place_order text_of order w s).is_sent ≡ true
      → (assert_order_allowed (gate_order text_of order w) w.rows ≡ allowed)
        × (is_some (safe_record_order text_of order w s) ≡ true)
        × (is_paper_execution text_of order w ≡ false)
        × (is_entry (place_role text_of order) || w.rows.market_open ≡ true)
  unfolding place_order
  place_order-guarded sent =
      after_gate-Guarded (assert_order_allowed (gate_order text_of order w) w.rows) sent
