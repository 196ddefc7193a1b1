-- ===== src/Reconcile/Sync/Sound.antt =====
-- lib/trading/reconcile.ts: the balance of the ledger through `reconcileWithBroker`.
use cm_desk.Prelude.{
  ℕ, sym, subst, Bool, true, false, Option, none, some, List, [], ◌∷◌, map, inl, inr, Bool-cases,
  Option-cases, if◌then◌else◌,
}
use cm_desk.Prelude.Text.{Text}
use cm_desk.Money.{Result, ok, throw}
use cm_desk.Ledger.Pending.{apply_unapplied_fills}
use cm_desk.Intake.{StoredOrder, Desk}
use cm_desk.Intake.Intent.{JobRef}
use cm_desk.Intake.Status.{close_open_order_as_cancelled}
use cm_desk.Intake.Status.Refines.{closes, kept_or}
use cm_desk.Intake.Status.Kept.{run_call-ledger}
use cm_desk.Intake.Snapshot.{KiteReport}
use cm_desk.Intake.Snapshot.Sound.{IsSound, snapshot-IsSound}
use cm_desk.Reconcile.Backfill.{Imports, backfill_from_transactions}
use cm_desk.Reconcile.Backfill.Sound.{apply_unapplied-IsSound, backfill-IsSound}
use cm_desk.Reconcile.Positions.{Mismatch, BrokerPosition, aggregate, compare_position}
use cm_desk.Reconcile.Sync.{
  broker_ids, live_open_orders, Recon, BrokerSnapshot, missing_day_order_should_expire,
  missing_reason, after_close, is_gone, is_stale, missing_row, reconciled, each, ingest_row,
  note_position, position_row, then_stage, reconcile_orders, reconcile_positions, reconcile_stages,
  reconcile_with_broker,
}

each-IsSound {ℓ} :
    {A : Type ℓ} (step : A → ℕ → Recon → Recon × Option ℕ) (xs : List A) (n : ℕ) (r : Recon)
    → ((x : A) (m : ℕ) (t : Recon) → IsSound t.desk.ledger → IsSound (step x m t).0.desk.ledger)
    → IsSound r.desk.ledger
    → IsSound (each step xs n r).0.desk.ledger
unfolding each
each-IsSound step [] n r keeps sound = sound
each-IsSound step (x ∷ xs) n r keeps sound = elim (Option-cases (step x n r).1) [
  | inl ended ↦ rw (ended, each) (keeps x n r sound)
  | inr (m, going) ↦
      rw (going, each) (each-IsSound step xs m (step x n r).0 keeps (keeps x n r sound))
]

then-IsSound :
    (q : Recon × Option ℕ) (stage : ℕ → Recon → Recon × Option ℕ)
    → ((m : ℕ) (t : Recon) → IsSound t.desk.ledger → IsSound (stage m t).0.desk.ledger)
    → IsSound q.0.desk.ledger
    → IsSound (then_stage q stage).0.desk.ledger
then-IsSound (t, none) stage keeps sound = sound
then-IsSound (t, some m) stage keeps sound = keeps m t sound

after_close-IsSound :
    (order : StoredOrder) (n : ℕ) (r : Recon) (o : Option (Desk × Bool))
    → IsSound r.desk.ledger
    → IsSound (kept_or r.desk o).ledger
    → IsSound (after_close order n r o).0.desk.ledger
after_close-IsSound order n r none sound kept = sound
after_close-IsSound order n r (some (s, true)) sound kept = kept
after_close-IsSound order n r (some (s, false)) sound kept = kept

note_position-IsSound :
    (found : Result (Option Mismatch)) (n : ℕ) (r : Recon)
    → IsSound r.desk.ledger
    → IsSound (note_position found n r).0.desk.ledger
note_position-IsSound (throw e) n r sound = sound
note_position-IsSound (ok none) n r sound = sound
note_position-IsSound (ok (some event)) n r sound = sound

module _ (job_by_tag : Text → Option JobRef) (names : KiteReport → List Text) (works : Bool)
    (now start : ℕ) where
  missing_row-IsSound :
      (ids : List Text) (order : StoredOrder) (n : ℕ) (r : Recon)
      → IsSound r.desk.ledger
      → IsSound (missing_row job_by_tag names works now start ids order n r).0.desk.ledger
  missing_row-IsSound ids order n r sound = elim (Bool-cases (is_gone ids order)) [
    | inl gone ↦ elim (Bool-cases (missing_day_order_should_expire order start)) [
      | inl expires ↦
          let closing = closes order.id missing_reason (some order.updated_at) now in
          rw (gone, expires)
            (after_close-IsSound order n r
              (close_open_order_as_cancelled order.id missing_reason (some order.updated_at) now
                r.desk)
              sound (subst IsSound (sym (run_call-ledger closing r.desk)) sound))
      | inr stays ↦ rw (gone, stays) sound
    ]
    | inr there ↦ elim (Bool-cases (is_stale job_by_tag names works now start order)) [
      | inl stale ↦ rw (there, stale) sound
      | inr fresh ↦ rw (there, fresh) sound
    ]
  ]

  ingest_row-IsSound :
      (known : List Text) (report : KiteReport) (n : ℕ) (r : Recon)
      → IsSound r.desk.ledger
      → IsSound (ingest_row job_by_tag names works now start known report n r).0.desk.ledger
  ingest_row-IsSound known report n r sound =
      snapshot-IsSound report reconciled now job_by_tag (names report) works r.desk sound

  orders-IsSound :
      (reports : Option (List KiteReport)) (n : ℕ) (r : Recon)
      → IsSound r.desk.ledger
      → IsSound (reconcile_orders job_by_tag names works now start reports n r).0.desk.ledger
  unfolding reconcile_orders
  orders-IsSound none n r sound = sound
  orders-IsSound (some reports) n r sound =
      let ids = broker_ids (map (λ (report : KiteReport). report.order_id) reports) in
      let known = broker_ids (map (λ (o : StoredOrder). o.broker_order_id) r.desk.orders) in
      let taking = ingest_row job_by_tag names works now start known in
      let missing = missing_row job_by_tag names works now start ids in
      let open_rows = live_open_orders job_by_tag names works now start in
      then-IsSound (each taking reports n r) (λ m t. each missing (open_rows t.desk) m t)
        (λ m t h. each-IsSound missing (open_rows t.desk) m t (missing_row-IsSound ids) h)
        (each-IsSound taking reports n r (ingest_row-IsSound known) sound)

  positions-IsSound :
      (bps : Option (List BrokerPosition)) (n : ℕ) (r : Recon)
      → IsSound r.desk.ledger
      → IsSound (reconcile_positions job_by_tag names works now start bps n r).0.desk.ledger
  unfolding reconcile_positions
  positions-IsSound none n r sound = sound
  positions-IsSound (some bps) n r sound =
      let agg = aggregate r.desk.ledger.positions [] in
      each-IsSound (position_row job_by_tag names works now start agg) bps n r
        (λ bp m t h. note_position-IsSound (compare_position agg bp) m t h) sound

  stages-IsSound :
      (broker : Option BrokerSnapshot) (r : Recon)
      → IsSound r.desk.ledger
      → IsSound (reconcile_stages job_by_tag names works now start broker r).0.desk.ledger
  unfolding reconcile_stages
  stages-IsSound none r sound = sound
  stages-IsSound (some broker) r sound =
      then-IsSound (reconcile_orders job_by_tag names works now start broker.orders 0 r)
        (λ m t. reconcile_positions job_by_tag names works now start broker.positions m t)
        (λ m t h. positions-IsSound broker.positions m t h) (orders-IsSound broker.orders 0 r sound)

  pub reconcile-IsSound :
      (imports : Imports) (is_mock : Bool) (broker : Option BrokerSnapshot) (r : Recon)
      → IsSound r.desk.ledger
      → IsSound
          (reconcile_with_broker job_by_tag names works now start imports is_mock broker
            r).0.desk.ledger
  unfolding reconcile_with_broker
  reconcile-IsSound imports is_mock broker r sound =
      let desk = backfill_from_transactions job_by_tag now imports r.desk in
      let ledger = (apply_unapplied_fills desk.ledger).0 in
      stages-IsSound (if is_mock then none else broker)
        (record r { desk = record desk { ledger = ledger } })
        (apply_unapplied-IsSound desk.ledger (backfill-IsSound job_by_tag now imports r.desk sound))
