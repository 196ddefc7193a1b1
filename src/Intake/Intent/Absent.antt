-- ===== src/Intake/Intent/Absent.antt =====
-- lib/trading/ledger.ts: what `recordOrderIntent` leaves: the ledger of fills and positions, and the
-- identifiers of the broker.
use cm_desk.Prelude.{
  ℕ, ◌≡◌, refl, subst, Bool, false, Option, none, some, List, [], ◌∷◌, ◌++◌, inl, inr, Bool-cases,
}
use cm_desk.Prelude.Text.{Text, opt_text_eq}
use cm_desk.Ledger.{find}
use cm_desk.Intake.{StoredOrder, Desk, order_by_key, order_by_broker_id}
use cm_desk.Intake.Intent.{
  JobRef, OrderIntent, RecordedIntent, new_order, insert_order, known_intent, is_retired, retry_key,
  key_of, by_row, record_with_key, record_order_intent,
}

find-added_other {ℓ} :
    {A : Type ℓ} (p : A → Bool) (xs : List A) (y : A)
    → find p xs ≡ none
    → p y ≡ false
    → find p (xs ++ (y ∷ [])) ≡ none
unfolding find
find-added_other p [] y h e = rw e
find-added_other p (x ∷ xs) y h e = elim (Bool-cases (p x)) [
  | inl here ↦ let found : some x ≡ none = rw here at h in absurd (cc)
  | inr other ↦ rw other (find-added_other p xs y (rw other at h) e)
]

-- An order that was just recorded has no identifier of the broker.
module _ (job_by_tag : Text → Option JobRef) (now : ℕ) (input : OrderIntent) (b : Text) (s : Desk)
    (absent : order_by_broker_id b s ≡ none) where
  by_row-absent :
      (o : Option StoredOrder) (key : Text) (again : Option (Desk × RecordedIntent))
      (r : Desk × RecordedIntent)
      → (again ≡ some r → order_by_broker_id b r.0 ≡ none)
      → by_row job_by_tag now o key input s again ≡ some r
      → order_by_broker_id b r.0 ≡ none
  unfolding insert_order new_order
  by_row-absent none key again r deeper h =
      let one : insert_order job_by_tag now key input s ≡ r = cc in
      subst (λ z. order_by_broker_id b z.0 ≡ none) one
        (find-added_other (λ o. opt_text_eq o.broker_order_id (some b)) s.orders
          (new_order job_by_tag now s.next_order key input) absent refl)
  by_row-absent (some row) key again r deeper h = elim (Bool-cases (is_retired row.status)) [
    | inl retired ↦ deeper (rw retired at h)
    | inr kept ↦
        let found : some (s, known_intent job_by_tag now row) ≡ some r = rw kept at h in
        let one : (s, known_intent job_by_tag now row) ≡ r = cc in
        subst (λ (z : Desk × RecordedIntent). order_by_broker_id b z.0 ≡ none) one absent
  ]

  with_key-absent :
      (uuids : List Text) (key : Text) (r : Desk × RecordedIntent)
      → record_with_key job_by_tag now uuids key input s ≡ some r
      → order_by_broker_id b r.0 ≡ none
  unfolding record_with_key
  with_key-absent [] key r h = by_row-absent (order_by_key key s) key none r (λ e. cc) h
  with_key-absent (uuid ∷ uuids) key r h =
      by_row-absent (order_by_key key s) key _ r (with_key-absent uuids (retry_key key uuid) r) h

  pub record_order_intent-absent :
      (uuids : List Text) (r : Desk × RecordedIntent)
      → record_order_intent job_by_tag now uuids input s ≡ some r
      → order_by_broker_id b r.0 ≡ none
  unfolding record_order_intent
  record_order_intent-absent uuids r h = with_key-absent uuids (key_of input) r h

-- The fills, positions, trades and events are left as they were.
module _ (job_by_tag : Text → Option JobRef) (now : ℕ) (input : OrderIntent) (s : Desk) where
  by_row-ledger :
      (o : Option StoredOrder) (key : Text) (again : Option (Desk × RecordedIntent))
      (r : Desk × RecordedIntent)
      → (again ≡ some r → r.0.ledger ≡ s.ledger)
      → by_row job_by_tag now o key input s again ≡ some r
      → r.0.ledger ≡ s.ledger
  unfolding insert_order
  by_row-ledger none key again r deeper h =
      let one : insert_order job_by_tag now key input s ≡ r = cc in
      subst (λ z. z.0.ledger ≡ s.ledger) one refl
  by_row-ledger (some row) key again r deeper h = elim (Bool-cases (is_retired row.status)) [
    | inl retired ↦ deeper (rw retired at h)
    | inr kept ↦
        let found : some (s, known_intent job_by_tag now row) ≡ some r = rw kept at h in
        let one : (s, known_intent job_by_tag now row) ≡ r = cc in
        subst (λ (z : Desk × RecordedIntent). z.0.ledger ≡ s.ledger) one refl
  ]

  with_key-ledger :
      (uuids : List Text) (key : Text) (r : Desk × RecordedIntent)
      → record_with_key job_by_tag now uuids key input s ≡ some r
      → r.0.ledger ≡ s.ledger
  unfolding record_with_key
  with_key-ledger [] key r h = by_row-ledger (order_by_key key s) key none r (λ e. cc) h
  with_key-ledger (uuid ∷ uuids) key r h =
      by_row-ledger (order_by_key key s) key _ r (with_key-ledger uuids (retry_key key uuid) r) h

  pub record_order_intent-ledger :
      (uuids : List Text) (r : Desk × RecordedIntent)
      → record_order_intent job_by_tag now uuids input s ≡ some r
      → r.0.ledger ≡ s.ledger
  unfolding record_order_intent
  record_order_intent-ledger uuids r h = with_key-ledger uuids (key_of input) r h
