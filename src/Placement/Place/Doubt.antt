-- ===== src/Placement/Place/Doubt.antt =====
-- lib/kiteUtils.ts: `placeOrder` called again with the same order.
use cm_desk.Prelude.{
  ℕ, ◌-◌, ◌<◌, ◌≡◌, ◌⊎◌, refl, sym, subst, Bool, true, false, ◌&&◌, ◌||◌, Option, none, some,
  or_else, [], inl, inr, Bool-cases, Option-cases, arith, ltb,
}
use cm_desk.Prelude.Text.{Text, truthy}
use cm_desk.Prelude.Double.{Double}
use cm_desk.Money.{Result, ok, throw}
use cm_desk.Risk.Gate.{Verdict, allowed, rejected, assert_order_allowed}
use cm_desk.Intake.{StoredOrder, Desk, order_by_key}
use cm_desk.Intake.Intent.{RecordedIntent, key_of, is_retired, known_intent, record_order_intent}
use cm_desk.Intake.Intent.Once.{with_key-known}
use cm_desk.Intake.Snapshot.{SnapshotResult}
use cm_desk.Placement.{
  PlaceInput, is_retry_terminal, decide_by_book, PlaceDecision, place, lookup, wait, reuse,
  decide_broker_place, is_ambiguous_broker_error, broker_ack_unknown_ms,
}
use cm_desk.Placement.Send.{
  RiskAwareOrder, BrokerAnswer, answers, fails, Answers, is_paper_execution, gate_order,
  has_quantity, place_intent, safe_record_order, decide_after_lookup, after_first, place_decision,
}
use cm_desk.Placement.Place.{
  paper_result, act, place_recorded, is_session_blocked, after_gate, place_order,
}

-- The broker has the order, or may have it.
abbrev pub is_acknowledged : BrokerAnswer → Bool
is_acknowledged (answers order_id) = truthy order_id
is_acknowledged (fails error) = false

abbrev pub is_doubtful : BrokerAnswer → Bool
is_doubtful (answers order_id) = false
is_doubtful (fails error) = is_ambiguous_broker_error error

abbrev is_placing : Option PlaceDecision → Bool
is_placing (some place) = true
is_placing (some lookup) = true
is_placing _ = false

decide-acked :
    (input : PlaceInput)
    → input.is_new || is_retry_terminal input.status ≡ false
    → truthy input.broker_order_id ≡ true
    → decide_broker_place input ≡ reuse (or_else input.broker_order_id [])
unfolding decide_broker_place
decide-acked input kept acked = ground arith

decide-unacked :
    (input : PlaceInput)
    → input.is_new || is_retry_terminal input.status ≡ false
    → truthy input.broker_order_id ≡ false
    → decide_broker_place input ≡ decide_by_book input.from_book input.age_ms
unfolding decide_broker_place
decide-unacked input kept unacked = ground arith

by_book-young :
    (found : Option Text) (age : ℕ)
    → age < broker_ack_unknown_ms
    → is_placing (some (decide_by_book (some found) age)) ≡ false
by_book-young found age young = elim (Bool-cases (truthy found)) [
  | inl there ↦ rw there refl
  | inr absent ↦
      let waits : ltb age broker_ack_unknown_ms ≡ true = ground arith in rw (absent, waits) refl
]

module _ {ℓ} {F : Type ℓ} ⦃d : Double F⦄ (text_of : F → Text) (order : RiskAwareOrder F)
    (w : Answers F) where
  pub paper_result-unsent :
      (id : ℕ) (r : Desk × Result SnapshotResult)
      → (paper_result text_of order w id r).is_sent ≡ false
  unfolding paper_result
  paper_result-unsent id (s, ok result) = refl
  paper_result-unsent id (s, throw e) = refl

  act-unsent :
      (recorded : RecordedIntent) (o : Option PlaceDecision) (s : Desk)
      → is_placing o ≡ false
      → (act text_of order w recorded o s).is_sent ≡ false
  unfolding act
  act-unsent recorded none s h = refl
  act-unsent recorded (some wait) s h = refl
  act-unsent recorded (some (reuse id)) s h = refl
  act-unsent recorded (some place) s h = absurd (cc)
  act-unsent recorded (some lookup) s h = absurd (cc)

  -- The order was acknowledged, or it is young.
  abbrev pub IsHeld : RecordedIntent → Type 0
  IsHeld r = (truthy r.broker_order_id ≡ true) ⊎ (w.now - r.created_at < broker_ack_unknown_ms)

  after_lookup-not_placing :
      (r : RecordedIntent)
      → r.is_new || is_retired r.status ≡ false
      → truthy r.broker_order_id ≡ false
      → w.now - r.created_at < broker_ack_unknown_ms
      → is_placing (decide_after_lookup text_of order w r) ≡ false
  after_lookup-not_placing r kept unacked young = elim (Option-cases w.book) [
    | inl closed ↦ rw closed refl
    | inr (book, read) ↦ rw read (
        subst (λ z. is_placing (some z) ≡ false) (sym (decide-unacked _ kept unacked))
          (by_book-young _ _ young))
  ]

  held-not_placing :
      (r : RecordedIntent)
      → r.is_new || is_retired r.status ≡ false
      → IsHeld r
      → is_placing (place_decision text_of order w r) ≡ false
  unfolding place_decision
  held-not_placing r kept held = elim (Bool-cases (truthy r.broker_order_id)) [
    | inl acked ↦
        subst (λ z. is_placing (after_first text_of order w r z) ≡ false)
          (sym (decide-acked _ kept acked)) refl
    | inr unacked ↦
        let young : w.now - r.created_at < broker_ack_unknown_ms = elim held [
          | inl acked ↦ absurd (cc)
          | inr young ↦ young
        ] in
        subst (λ z. is_placing (after_first text_of order w r z) ≡ false)
          (sym (decide-unacked _ kept unacked))
          (elim (Bool-cases (is_paper_execution text_of order w)) [
            | inl paper ↦
                let waits : ltb (w.now - r.created_at) broker_ack_unknown_ms ≡ true =
                  ground arith in
                rw (paper, waits) refl
            | inr live ↦ rw live (after_lookup-not_placing r kept unacked young)
          ])
  ]

  recorded-unsent :
      (s : Desk) (row : StoredOrder)
      → order_by_key (key_of (place_intent text_of order w)) s ≡ some row
      → is_retired row.status ≡ false
      → IsHeld (known_intent w.job_by_tag w.now row)
      → (place_recorded text_of order w (safe_record_order text_of order w s) s).is_sent ≡ false
  unfolding safe_record_order record_order_intent place_recorded
  recorded-unsent s row found kept held =
      elim (Bool-cases (
        truthy order.tradingsymbol
        && has_quantity text_of order.quantity
        && truthy order.transaction_type)) [
          | inr bare ↦ rw bare refl
          | inl whole ↦
              let known =
                with_key-known w.job_by_tag w.now (place_intent text_of order w) w.uuids
                  (key_of (place_intent text_of order w)) s row found kept in
              rw whole (
                subst (λ z. (place_recorded text_of order w z s).is_sent ≡ false) (sym known)
                  (act-unsent (known_intent w.job_by_tag w.now row) _ s
                    (held-not_placing (known_intent w.job_by_tag w.now row) kept held)))
        ]

  after_gate-unsent :
      (s : Desk) (row : StoredOrder)
      → order_by_key (key_of (place_intent text_of order w)) s ≡ some row
      → is_retired row.status ≡ false
      → IsHeld (known_intent w.job_by_tag w.now row)
      → (v : Verdict) → (after_gate text_of order w v s).is_sent ≡ false
  unfolding after_gate
  after_gate-unsent s row found kept held (rejected code) = refl
  after_gate-unsent s row found kept held allowed =
      elim (Bool-cases (is_session_blocked text_of order w)) [
        | inl blocked ↦ rw blocked refl
        | inr free ↦ rw free (recorded-unsent s row found kept held)
      ]

  -- a call whose order is known and held
  pub known-unsent :
      (s : Desk) (row : StoredOrder)
      → order_by_key (key_of (place_intent text_of order w)) s ≡ some row
      → is_retired row.status ≡ false
      → IsHeld (known_intent w.job_by_tag w.now row)
      → (place_order text_of order w s).is_sent ≡ false
  unfolding place_order
  known-unsent s row found kept held =
      after_gate-unsent s row found kept held
        (assert_order_allowed (gate_order text_of order w) w.rows)
