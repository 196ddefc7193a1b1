-- ===== src/Intake/Intent/Ends.antt =====
-- lib/trading/ledger.ts: `recordOrderIntent` calls itself with longer and longer keys.
use cm_desk.Prelude.{
  ℕ, suc, ◌+◌, ◌≤◌, ◌<◌, ◌≡◌, refl, ap, Option, some, List, [], ◌∷◌, ◌++◌, length, length-append,
  leb, inl, inr, Bool-cases, Option-cases, arith, if◌then◌else◌,
}
use cm_desk.Prelude.Text.{Text, codes, opt_text_eq, eq_of_text_eq}
use cm_desk.Ledger.{find}
use cm_desk.Intake.{StoredOrder, Desk, order_by_key}
use cm_desk.Intake.Intent.{
  JobRef, OrderIntent, RecordedIntent, insert_order, known_intent, is_retired, retry_key, key_of,
  record_with_key, record_order_intent,
}

-- the rows whose keys have at least `n` characters
long_keys : ℕ → List StoredOrder → ℕ
long_keys n [] = 0
long_keys n (o ∷ os) = (if leb n (length o.idempotency_key) then 1 else 0) + long_keys n os

long_keys-le : (m n : ℕ) (os : List StoredOrder) → m ≤ n → long_keys n os ≤ long_keys m os
unfolding long_keys
long_keys-le m n [] h = omega arith
long_keys-le m n (o ∷ os) h = ground (arith, long_keys-le m n os)

long_keys-le-length : (n : ℕ) (os : List StoredOrder) → long_keys n os ≤ length os
unfolding long_keys
long_keys-le-length n [] = omega arith
long_keys-le-length n (o ∷ os) = ground (arith, long_keys-le-length n os)

-- The row of a key is not among those of longer keys.
long_keys-found :
    (key : Text) (n : ℕ) (os : List StoredOrder) (row : StoredOrder)
    → length key < n
    → find (λ o. opt_text_eq (some o.idempotency_key) (some key)) os ≡ some row
    → suc (long_keys n os) ≤ long_keys (length key) os
unfolding find long_keys
long_keys-found key n [] row lt h = cc
long_keys-found key n (o ∷ os) row lt h =
    elim (Bool-cases (opt_text_eq (some o.idempotency_key) (some key))) [
      | inl same ↦
          let e : length o.idempotency_key ≡ length key =
            ap length (eq_of_text_eq o.idempotency_key key same) in
          ground (arith, long_keys-le (length key) n os)
      | inr other ↦ ground (arith, long_keys-found key n os row lt (rw other at h))
    ]

retry_key-longer : (key uuid : Text) → length key < length (retry_key key uuid)
retry_key-longer key uuid = omega (arith, length-append key (codes ":r:" ++ uuid))

module _ (job_by_tag : Text → Option JobRef) (now : ℕ) (input : OrderIntent) (s : Desk) where
  Ends : List Text → Text → Type 0
  Ends uuids key =
      (r : Desk × RecordedIntent) × (record_with_key job_by_tag now uuids key input s ≡ some r)

  with_key-Ends :
      (uuids : List Text) (key : Text)
      → long_keys (length key) s.orders ≤ length uuids
      → Ends uuids key
  unfolding record_with_key Ends
  with_key-Ends [] key h = elim (Option-cases (order_by_key key s)) [
    | inl fresh ↦ (insert_order job_by_tag now key input s, rw fresh refl)
    | inr (row, found) ↦
        absurd
          (omega (arith, long_keys-found key (suc (length key)) s.orders row (omega arith) found))
  ]
  with_key-Ends (uuid ∷ uuids) key h = elim (Option-cases (order_by_key key s)) [
    | inl fresh ↦ (insert_order job_by_tag now key input s, rw fresh refl)
    | inr (row, found) ↦ elim (Bool-cases (is_retired row.status)) [
      | inl retired ↦
          let longer = retry_key-longer key uuid in
          let fewer = long_keys-found key (length (retry_key key uuid)) s.orders row longer found in
          let (r, e) = with_key-Ends uuids (retry_key key uuid) (omega arith) in
          (r, rw (found, retired) e)
      | inr kept ↦ ((s, known_intent job_by_tag now row), rw (found, kept) refl)
    ]
  ]

  -- With as many names as there are orders, whatever they are, `recordOrderIntent` ends: it has called
  -- itself at most once for each order of the ledger.
  pub record_order_intent-ends :
      (uuids : List Text)
      → length s.orders ≤ length uuids
      → (r : Desk × RecordedIntent) × (record_order_intent job_by_tag now uuids input s ≡ some r)
  unfolding record_order_intent Ends
  record_order_intent-ends uuids h =
      with_key-Ends uuids (key_of input)
        (omega (arith, long_keys-le-length (length (key_of input)) s.orders))
