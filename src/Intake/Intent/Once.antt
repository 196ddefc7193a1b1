-- ===== src/Intake/Intent/Once.antt =====
-- lib/trading/ledger.ts: `recordOrderIntent` twice with one key.
use cm_desk.Prelude.{
  ℕ, ◌≡◌, refl, ap, sym, ◌∙◌, Bool, true, false, Option, none, some, List, [], ◌∷◌, ◌++◌, inl, inr,
  Bool-cases, Option-cases,
}
use cm_desk.Prelude.Text.{Text, opt_text_eq, text_eq_refl}
use cm_desk.Ledger.{find}
use cm_desk.Intake.{StoredOrder, Desk, order_by_key}
use cm_desk.Intake.Intent.{
  JobRef, OrderIntent, RecordedIntent, insert_order, new_order, known_intent, is_retired, key_of,
  record_with_key, record_order_intent,
}

pub find-added_last {ℓ} :
    {A : Type ℓ} (p : A → Bool) (xs : List A) (y : A)
    → find p xs ≡ none
    → p y ≡ true
    → find p (xs ++ (y ∷ [])) ≡ some y
unfolding find
find-added_last p [] y h e = rw e
find-added_last p (x ∷ xs) y h e = elim (Bool-cases (p x)) [
  | inl here ↦ let found : some x ≡ none = rw here at h in absurd (cc)
  | inr other ↦ rw other (find-added_last p xs y (rw other at h) e)
]

-- The order that a key names is rejected, failed or cancelled, which is when the code retries under a new key.
abbrev pub is_spent : Option StoredOrder → Bool
is_spent none = false
is_spent (some row) = is_retired row.status

module _ (job_by_tag : Text → Option JobRef) (now : ℕ) (input : OrderIntent) where
  pub with_key-known :
      (uuids : List Text) (key : Text) (s : Desk) (row : StoredOrder)
      → order_by_key key s ≡ some row
      → is_retired row.status ≡ false
      → record_with_key job_by_tag now uuids key input s ≡ some (s, known_intent job_by_tag now row)
  unfolding record_with_key
  with_key-known [] key s row found kept = rw (found, kept) refl
  with_key-known (uuid ∷ uuids) key s row found kept = rw (found, kept) refl

  pub with_key-new :
      (uuids : List Text) (key : Text) (s : Desk)
      → order_by_key key s ≡ none
      → record_with_key job_by_tag now uuids key input s
        ≡ some (insert_order job_by_tag now key input s)
  unfolding record_with_key
  with_key-new [] key s fresh = rw fresh refl
  with_key-new (uuid ∷ uuids) key s fresh = rw fresh refl

module _ (job_by_tag : Text → Option JobRef) (now : ℕ) (input : OrderIntent) where
  pub inserted-found :
      (key : Text) (s : Desk)
      → order_by_key key s ≡ none
      → order_by_key key (insert_order job_by_tag now key input s).0
        ≡ some (new_order job_by_tag now s.next_order key input)
  unfolding insert_order new_order
  inserted-found key s fresh =
      find-added_last (λ o. opt_text_eq (some o.idempotency_key) (some key)) s.orders
        (new_order job_by_tag now s.next_order key input) fresh (text_eq_refl key)

  inserted-known :
      (key : Text) (s : Desk) (later : ℕ)
      → known_intent job_by_tag later (new_order job_by_tag now s.next_order key input)
        ≡ record (insert_order job_by_tag now key input s).1 { is_new = false }
  unfolding insert_order new_order
  inserted-known key s later = refl

  -- If the key has no order yet, or one whose status is not REJECTED, FAILED or CANCELLED, the call returns an
  -- order, and a second call on the desk that it leaves, at any time, returns the same one, as one that it did
  -- not create, and changes nothing: the order is recorded once.
  pub record_order_intent-once :
      (uuids later_uuids : List Text) (s : Desk) (later : ℕ)
      → is_spent (order_by_key (key_of input) s) ≡ false
      → (r : Desk × RecordedIntent) × (record_order_intent job_by_tag now uuids input s ≡ some r)
        × (record_order_intent job_by_tag later later_uuids input r.0
            ≡ some (r.0, record r.1 { is_new = false }))
  unfolding record_order_intent new_order
  record_order_intent-once uuids later_uuids s later kept =
      elim (Option-cases (order_by_key (key_of input) s)) [
        | inl fresh ↦
            let r = insert_order job_by_tag now (key_of input) input s in
            (
              r,
              with_key-new job_by_tag now input uuids (key_of input) s fresh,
              with_key-known job_by_tag later input later_uuids (key_of input) r.0 _
                    (inserted-found (key_of input) s fresh) refl
                  ∙ ap (λ (k : RecordedIntent). some (r.0, k))
                      (inserted-known (key_of input) s later),
            )
        | inr (row, found) ↦
            let open_row : is_retired row.status ≡ false = ap is_spent (sym found) ∙ kept in
            (
              (s, known_intent job_by_tag now row),
              with_key-known job_by_tag now input uuids (key_of input) s row found open_row,
              with_key-known job_by_tag later input later_uuids (key_of input) s row found open_row,
            )
      ]
