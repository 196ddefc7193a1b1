-- ===== src/Placement/Place/Repeat.antt =====
-- lib/kiteUtils.ts: `placeOrder` of a new order, and the same call once more.
use cm_desk.Prelude.{
  ℕ, ◌-◌, ◌<◌, ◌==◌, ◌≡◌, ◌⊎◌, refl, sym, ap, subst, true, false, ◌&&◌, none, some, All, inl, inr,
  Bool-cases, arith,
}
use cm_desk.Prelude.Text.{Text, truthy}
use cm_desk.Prelude.Double.{Double}
use cm_desk.Order.{pending, submitted, unknown, assert_order_transition, can_transition_order}
use cm_desk.Risk.Gate.{Verdict, allowed, rejected, assert_order_allowed}
use cm_desk.Ledger.Rows.After.{find-new_key}
use cm_desk.Intake.{StoredOrder, Desk, order_by_id, order_by_key}
use cm_desk.Intake.Intent.{
  order_intent_key, key_of, is_retired, insert_order, new_order, record_order_intent,
}
use cm_desk.Intake.Intent.Once.{find-added_last, with_key-new, inserted-found}
use cm_desk.Intake.Status.{
  SubmitReport, submitted_order, submitted_status, is_legal, mark_order_submitted,
}
use cm_desk.Intake.Status.Submitted.{submitted-found}
use cm_desk.Placement.{
  PlaceInput, decide_broker_place, BrokerError, is_ambiguous_broker_error, broker_ack_unknown_ms,
  place, in_doubt, says, raised,
}
use cm_desk.Placement.Send.{
  RiskAwareOrder, BrokerAnswer, answers, fails, Answers, Placed, is_paper_execution, gate_order,
  has_quantity, place_intent, safe_record_order, after_first, place_decision, submit_report,
}
use cm_desk.Placement.Place.{
  after_error, send_live, send_paper, send, act, place_recorded, is_session_blocked, after_gate,
  place_order,
}
use cm_desk.Placement.Place.Doubt.{is_acknowledged, is_doubtful, paper_result-unsent, known-unsent}

decide-new : (input : PlaceInput) → input.is_new ≡ true → decide_broker_place input ≡ place
unfolding decide_broker_place
decide-new input is_new = ground arith

module _ {ℓ} {F : Type ℓ} ⦃d : Double F⦄ (text_of : F → Text) (order : RiskAwareOrder F)
    (w : Answers F) where
  recorded_desk : Desk → Desk
  recorded_desk s =
      (insert_order w.job_by_tag w.now (key_of (place_intent text_of order w))
        (place_intent text_of order w) s).0

  -- what is sent is the order that was recorded
  SendsNew : Desk → Placed → Type 0
  SendsNew s r =
      r.is_sent ≡ true
      → r.desk ≡ (send_live text_of order w s.next_order w.answer (recorded_desk s)).desk

  send-live :
      (id : ℕ) (s : Desk)
      → (send text_of order w id s).is_sent ≡ true
      → (send text_of order w id s).desk ≡ (send_live text_of order w id w.answer s).desk
  send-live id s sent = elim (Bool-cases (is_paper_execution text_of order w)) [
    | inr live ↦ rw live refl
    | inl paper ↦
        let sent' : (send_paper text_of order w id s).is_sent ≡ true = rw paper at sent in
        let silent : (send_paper text_of order w id s).is_sent ≡ false =
          paper_result-unsent text_of order w id _ in
        absurd (cc)
  ]

  place_decision-new :
      (s : Desk)
      → place_decision text_of order w
          (insert_order w.job_by_tag w.now
            (key_of (place_intent text_of order w))
            (place_intent text_of order w)
            s).1
        ≡ some place
  unfolding place_decision insert_order
  place_decision-new s =
      let recorded =
        (insert_order w.job_by_tag w.now (key_of (place_intent text_of order w))
          (place_intent text_of order w) s).1 in
      ap (after_first text_of order w recorded) (decide-new _ refl)

  recorded-SendsNew :
      (s : Desk)
      → order_by_key (key_of (place_intent text_of order w)) s ≡ none
      → SendsNew s (place_recorded text_of order w (safe_record_order text_of order w s) s)
  unfolding safe_record_order record_order_intent place_recorded place_decision act SendsNew
      recorded_desk insert_order
  recorded-SendsNew s fresh =
      elim (Bool-cases (
        truthy order.tradingsymbol
        && has_quantity text_of order.quantity
        && truthy order.transaction_type)) [
          | inr bare ↦ rw bare (λ sent. absurd (cc))
          | inl whole ↦
              let new =
                with_key-new w.job_by_tag w.now (place_intent text_of order w) w.uuids
                  (key_of (place_intent text_of order w)) s fresh in
              let (s1, recorded) =
                insert_order w.job_by_tag w.now (key_of (place_intent text_of order w))
                  (place_intent text_of order w) s in
              rw whole (
                subst (λ z. SendsNew s (place_recorded text_of order w z s)) (sym new)
                  (subst (λ z. SendsNew s (act text_of order w recorded z s1))
                    (sym (place_decision-new s)) (send-live s.next_order s1)))
        ]

  after_gate-SendsNew :
      (s : Desk)
      → order_by_key (key_of (place_intent text_of order w)) s ≡ none
      → (v : Verdict) → SendsNew s (after_gate text_of order w v s)
  unfolding after_gate SendsNew
  after_gate-SendsNew s fresh (rejected code) = λ sent. absurd (cc)
  after_gate-SendsNew s fresh allowed = elim (Bool-cases (is_session_blocked text_of order w)) [
    | inl blocked ↦ rw blocked (λ sent. absurd (cc))
    | inr free ↦ rw free (recorded-SendsNew s fresh)
  ]

  -- The order as the call leaves it.
  IsLeft : Desk → Type 0
  IsLeft t =
      (row : StoredOrder) × (order_by_key (key_of (place_intent text_of order w)) t ≡ some row)
      × (is_retired row.status ≡ false)
      × (row.created_at ≡ w.now)
      × ((is_acknowledged w.answer ≡ true) → truthy row.broker_order_id ≡ true)

  module _ (s : Desk) (below : All (λ o. o.id < s.next_order) s.orders)
      (fresh : order_by_key (key_of (place_intent text_of order w)) s ≡ none) where
    new_row : StoredOrder
    new_row =
        new_order w.job_by_tag w.now s.next_order (key_of (place_intent text_of order w))
          (place_intent text_of order w)

    found_by_id : order_by_id s.next_order (recorded_desk s) ≡ some new_row
    unfolding recorded_desk insert_order new_row new_order
    found_by_id =
        find-added_last (λ o. o.id == s.next_order) s.orders new_row
          (find-new_key (λ o. o.id) s.next_order s.orders below) (ground arith)

    found_by_key :
        order_by_key (key_of (place_intent text_of order w)) (recorded_desk s) ≡ some new_row
    unfolding recorded_desk new_row
    found_by_key = inserted-found w.job_by_tag w.now (place_intent text_of order w) _ s fresh

    marked-IsLeft :
        (report : SubmitReport)
        → report.order_id ≡ some s.next_order
        → is_legal pending (submitted_status report) ≡ true
        → is_retired (submitted_status report) ≡ false
        → ((is_acknowledged w.answer ≡ true) → truthy report.broker_order_id ≡ true)
        → IsLeft (mark_order_submitted report w.now (recorded_desk s))
    unfolding IsLeft new_row new_order
    marked-IsLeft report e legal kept acked = (
      submitted_order report w.now new_row,
      submitted-found report w.now s.next_order _ (recorded_desk s) new_row e found_by_id
          found_by_key legal,
      kept,
      refl,
      λ h. rw (acked h) (acked h),
    )

    unknown-IsLeft :
        (report : SubmitReport)
        → report.order_id ≡ some s.next_order
        → report.status ≡ some unknown
        → is_acknowledged w.answer ≡ false
        → IsLeft (mark_order_submitted report w.now (recorded_desk s))
    unfolding assert_order_transition can_transition_order
    unknown-IsLeft report e status unacked =
        marked-IsLeft report e (rw status refl) (rw status refl) (λ h. absurd (cc))

    recorded-IsLeft : is_acknowledged w.answer ≡ false → IsLeft (recorded_desk s)
    unfolding IsLeft new_row new_order
    recorded-IsLeft unacked = (new_row, found_by_key, refl, refl, λ h. absurd (cc))

    error-IsLeft :
        (error : BrokerError)
        → is_ambiguous_broker_error error ≡ true
        → is_acknowledged w.answer ≡ false
        → IsLeft (after_error text_of order w s.next_order error (recorded_desk s))
    error-IsLeft error doubt unacked = rw doubt (unknown-IsLeft _ refl refl unacked)

    leaves_known :
        (a : BrokerAnswer)
        → a ≡ w.answer
        → (is_acknowledged a ≡ true) ⊎ (is_doubtful a ≡ true)
        → IsLeft (send_live text_of order w s.next_order a (recorded_desk s)).desk
    unfolding assert_order_transition can_transition_order
    leaves_known (answers order_id) e (inl acked) = rw acked (
        marked-IsLeft (submit_report s.next_order order_id submitted none none) refl refl refl
          (λ h. acked))
    leaves_known (answers order_id) e (inr doubt) = absurd (cc)
    leaves_known (fails error) e (inl acked) = absurd (cc)
    leaves_known (fails in_doubt) e (inr doubt) = recorded-IsLeft (ap is_acknowledged (sym e))
    leaves_known (fails (says message)) e (inr doubt) =
        error-IsLeft (says message) doubt (ap is_acknowledged (sym e))
    leaves_known (fails (raised type code message)) e (inr doubt) =
        error-IsLeft (raised type code message) doubt (ap is_acknowledged (sym e))

-- The key of an order does not depend on what the call is answered.
key-same {ℓ} :
    {F : Type ℓ} ⦃d : Double F⦄ (text_of : F → Text) (order : RiskAwareOrder F)
    (w later : Answers F)
    → key_of (place_intent text_of order w) ≡ key_of (place_intent text_of order later)
unfolding order_intent_key
key-same text_of order w later = refl

-- An order goes to the broker once. Where its key is new on the desk, and the identifiers of the desk's
-- orders are below the next one: if a call of `placeOrder` sends it and the broker gives an identifier, the
-- same call never sends it again; and if the broker's error leaves in doubt whether it was taken, not
-- within a minute. This holds whatever the settings, the gate, the prices, the book of the broker and the
-- random names are at the second call.
pub place_order-once {ℓ} :
    {F : Type ℓ} ⦃d : Double F⦄ (text_of : F → Text) (order : RiskAwareOrder F)
    (w later : Answers F) (s : Desk)
    → All (λ o. o.id < s.next_order) s.orders
    → order_by_key (key_of (place_intent text_of order w)) s ≡ none
    → (place_order text_of order w s).is_sent ≡ true
    → (is_acknowledged w.answer ≡ true)
      ⊎ ((is_doubtful w.answer ≡ true) × (later.now - w.now < broker_ack_unknown_ms))
    → (place_order text_of order later (place_order text_of order w s).desk).is_sent ≡ false
unfolding place_order SendsNew IsLeft
place_order-once text_of order w later s below fresh sent held =
    let sends =
      after_gate-SendsNew text_of order w s fresh
        (assert_order_allowed (gate_order text_of order w) w.rows) sent in
    let left =
      (send_live text_of order w s.next_order w.answer (recorded_desk text_of order w s)).desk in
    let known : (is_acknowledged w.answer ≡ true) ⊎ (is_doubtful w.answer ≡ true) = elim held [
      | inl acked ↦ inl acked
      | inr (doubt, young) ↦ inr doubt
    ] in
    let (row, found, kept, created, acked) =
      leaves_known text_of order w s below fresh w.answer refl known in
    subst (λ t. (place_order text_of order later t).is_sent ≡ false) (sym sends)
      (known-unsent text_of order later left row
        (subst (λ k. order_by_key k left ≡ some row) (key-same text_of order w later) found) kept
        (elim held [
          | inl a ↦ inl (acked a)
          | inr (doubt, young) ↦
              inr (subst (λ n. later.now - n < broker_ack_unknown_ms) (sym created) young)
        ]))
