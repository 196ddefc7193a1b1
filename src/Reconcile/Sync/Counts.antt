-- ===== src/Reconcile/Sync/Counts.antt =====
-- lib/trading/reconcile.ts: the count of mismatches that a run returns.
use cm_desk.Prelude.{
  ℕ, suc, ◌+◌, ◌≡◌, refl, ap, subst, Bool, true, false, Option, none, some, List, [], ◌∷◌, ◌++◌,
  map, length, inl, inr, Bool-cases, Option-cases, arith, if◌then◌else◌,
}
use cm_desk.Prelude.Text.{Text}
use cm_desk.Money.{Result, ok, throw}
use cm_desk.Ledger.Pending.{apply_unapplied_fills}
use cm_desk.Intake.{StoredOrder, Desk}
use cm_desk.Intake.Intent.{JobRef}
use cm_desk.Intake.Status.{close_open_order_as_cancelled}
use cm_desk.Intake.Snapshot.{KiteReport, SnapshotResult, apply_broker_order_snapshot}
use cm_desk.Reconcile.Backfill.{Imports, backfill_from_transactions}
use cm_desk.Reconcile.Positions.{Mismatch, BrokerPosition, aggregate, compare_position}
use cm_desk.Reconcile.Sync.{
  broker_ids, live_open_orders, Recon, BrokerSnapshot, record_mismatch, resolve_missing,
  missing_day_order_should_expire, missing_reason, note_unexpected, after_close, is_gone, is_stale,
  missing_row, is_unexpected, reconciled, each, ingest_row, count_or_stop, note_position,
  position_row, then_stage, reconcile_orders, reconcile_positions, reconcile_stages,
  reconcile_with_broker,
}

-- The rows of events grow by just the mismatches that are counted.
abbrev pub Counts : ℕ → Recon → Recon × Option ℕ → Type 0
Counts n r (r', none) = Unit
Counts n r (r', some m) = length r'.events + n ≡ length r.events + m

length-added :
    (events : List Mismatch) (e : Mismatch) → length (events ++ (e ∷ [])) ≡ suc (length events)
length-added [] e = refl
length-added (x ∷ events) e = omega (arith, length-added events e)

length-resolved :
    (id : ℕ) (events : List Mismatch) → length (resolve_missing id events) ≡ length events
length-resolved id [] = refl
length-resolved id (e ∷ events) = ap suc (length-resolved id events)

Counts-same : (n : ℕ) (r : Recon) → Counts n r (r, some n)
Counts-same n r = refl

-- one more event, one more mismatch
Counts-added : (e : Mismatch) (n : ℕ) (r : Recon) → Counts n r (record_mismatch e r, some (suc n))
Counts-added e n r = omega (arith, length-added r.events e)

Counts-then :
    (n m : ℕ) (r r' : Recon) (q : Recon × Option ℕ)
    → Counts n r (r', some m)
    → Counts m r' q
    → Counts n r q
Counts-then n m r r' (r'', none) first second = tt
Counts-then n m r r' (r'', some k) first second = omega arith

ingested :
    (known : List Text) (report : KiteReport) (n : ℕ) (r : Recon)
    (taken : Desk × Result SnapshotResult)
    → Counts n r (
      record (if is_unexpected known report then note_unexpected report r else r) {
        desk = taken.0;
      },
      count_or_stop taken.1 (if is_unexpected known report then suc n else n),
    )
ingested known report n r (s, throw e) = tt
ingested known report n r (s, ok result) = elim (Bool-cases (is_unexpected known report)) [
  | inl new ↦ rw new (Counts-added _ n r)
  | inr old ↦ rw old refl
]

each-Counts {ℓ} :
    {A : Type ℓ} (step : A → ℕ → Recon → Recon × Option ℕ) (xs : List A) (n : ℕ) (r : Recon)
    → ((x : A) (m : ℕ) (t : Recon) → Counts m t (step x m t))
    → Counts n r (each step xs n r)
unfolding each
each-Counts step [] n r counts = refl
each-Counts step (x ∷ xs) n r counts = elim (Option-cases (step x n r).1) [
  | inl ended ↦ rw (ended, each) tt
  | inr (m, going) ↦
      let first : Counts n r ((step x n r).0, some m) =
        subst (λ (o : Option ℕ). Counts n r ((step x n r).0, o)) going (counts x n r) in
      rw (going, each)
        (Counts-then n m r (step x n r).0 (each step xs m (step x n r).0) first
          (each-Counts step xs m (step x n r).0 counts))
]

then-Counts :
    (n : ℕ) (r : Recon) (q : Recon × Option ℕ) (stage : ℕ → Recon → Recon × Option ℕ)
    → Counts n r q
    → ((m : ℕ) (t : Recon) → Counts m t (stage m t))
    → Counts n r (then_stage q stage)
then-Counts n r (t, none) stage first later = tt
then-Counts n r (t, some m) stage first later = Counts-then n m r t (stage m t) first (later m t)

after_close-Counts :
    (order : StoredOrder) (n : ℕ) (r : Recon) (o : Option (Desk × Bool))
    → Counts n r (after_close order n r o)
after_close-Counts order n r none = tt
after_close-Counts order n r (some (s, true)) = omega (arith, length-resolved order.id r.events)
after_close-Counts order n r (some (s, false)) = omega (arith, length-added r.events _)

module _ (job_by_tag : Text → Option JobRef) (names : KiteReport → List Text) (works : Bool)
    (now start : ℕ) where
  ingest_row-Counts :
      (known : List Text) (report : KiteReport) (n : ℕ) (r : Recon)
      → Counts n r (ingest_row job_by_tag names works now start known report n r)
  ingest_row-Counts known report n r =
      let taken =
        apply_broker_order_snapshot report reconciled now job_by_tag (names report) works r.desk in
      ingested known report n r taken

  missing_row-Counts :
      (ids : List Text) (order : StoredOrder) (n : ℕ) (r : Recon)
      → Counts n r (missing_row job_by_tag names works now start ids order n r)
  missing_row-Counts ids order n r = elim (Bool-cases (is_gone ids order)) [
    | inl gone ↦ elim (Bool-cases (missing_day_order_should_expire order start)) [
      | inl expires ↦
          rw (gone, expires)
            (after_close-Counts order n r (
              close_open_order_as_cancelled order.id missing_reason (some order.updated_at) now
                r.desk))
      | inr stays ↦ rw (gone, stays) (Counts-added _ n r)
    ]
    | inr there ↦ elim (Bool-cases (is_stale job_by_tag names works now start order)) [
      | inl stale ↦ rw (there, stale) (Counts-added _ n r)
      | inr fresh ↦ rw (there, fresh) refl
    ]
  ]

  position-Counts :
      (found : Result (Option Mismatch)) (n : ℕ) (r : Recon) → Counts n r (note_position found n r)
  position-Counts (throw e) n r = tt
  position-Counts (ok none) n r = refl
  position-Counts (ok (some event)) n r = Counts-added event n r

  orders-Counts :
      (reports : Option (List KiteReport)) (n : ℕ) (r : Recon)
      → Counts n r (reconcile_orders job_by_tag names works now start reports n r)
  unfolding reconcile_orders
  orders-Counts none n r = refl
  orders-Counts (some reports) n r =
      let ids = broker_ids (map (λ (report : KiteReport). report.order_id) reports) in
      let known = broker_ids (map (λ (o : StoredOrder). o.broker_order_id) r.desk.orders) in
      let taking = ingest_row job_by_tag names works now start known in
      let missing = missing_row job_by_tag names works now start ids in
      let open_rows = live_open_orders job_by_tag names works now start in
      then-Counts n r (each taking reports n r) (λ m t. each missing (open_rows t.desk) m t)
        (each-Counts taking reports n r (ingest_row-Counts known))
        (λ m t. each-Counts missing (open_rows t.desk) m t (missing_row-Counts ids))

  positions-Counts :
      (bps : Option (List BrokerPosition)) (n : ℕ) (r : Recon)
      → Counts n r (reconcile_positions job_by_tag names works now start bps n r)
  unfolding reconcile_positions
  positions-Counts none n r = refl
  positions-Counts (some bps) n r =
      let agg = aggregate r.desk.ledger.positions [] in
      each-Counts (position_row job_by_tag names works now start agg) bps n r
        (λ bp m t. position-Counts (compare_position agg bp) m t)

  stages-Counts :
      (broker : Option BrokerSnapshot) (r : Recon)
      → Counts 0 r (reconcile_stages job_by_tag names works now start broker r)
  unfolding reconcile_stages
  stages-Counts none r = refl
  stages-Counts (some broker) r =
      then-Counts 0 r (reconcile_orders job_by_tag names works now start broker.orders 0 r)
        (λ m t. reconcile_positions job_by_tag names works now start broker.positions m t)
        (orders-Counts broker.orders 0 r) (λ m t. positions-Counts broker.positions m t)

  counted :
      (r : Recon) (q : Recon × Option ℕ) (m : ℕ)
      → Counts 0 r q
      → q.1 ≡ some m
      → length q.0.events ≡ length r.events + m
  counted r (t, none) m counts h = absurd (cc)
  counted r (t, some k) m counts h = let same : k ≡ m = cc in omega (arith, same)

  -- A run of `reconcileWithBroker` that ends returns the number of the mismatches that it has recorded:
  -- one row of events each, beside the rows that were there.
  pub reconcile-counted :
      (imports : Imports) (is_mock : Bool) (broker : Option BrokerSnapshot) (r : Recon) (m : ℕ)
      → (reconcile_with_broker job_by_tag names works now start imports is_mock broker r).1 ≡ some m
      → length
          (reconcile_with_broker job_by_tag names works now start imports is_mock broker r).0.events
        ≡ length r.events + m
  unfolding reconcile_with_broker
  reconcile-counted imports is_mock broker r m h =
      let desk = backfill_from_transactions job_by_tag now imports r.desk in
      let ledger = (apply_unapplied_fills desk.ledger).0 in
      let start_of = record r { desk = record desk { ledger = ledger } } in
      let seen = if is_mock then none else broker in
      counted start_of (reconcile_stages job_by_tag names works now start seen start_of) m
        (stages-Counts seen start_of) h
