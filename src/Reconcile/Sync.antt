-- ===== src/Reconcile/Sync.antt =====
-- lib/trading/reconcile.ts: `reconcileWithBroker`: the orders and positions of the broker are taken in, and
-- what does not agree is recorded. What it writes for the figures of a portfolio is left out. `none` stands
-- for an error that ends the run.
pub mod Counts
pub mod Sound
use cm_desk.Prelude.{
  ℕ, suc, ◌-◌, ◌*◌, ◌==◌, Bool, true, false, not, ◌&&◌, ◌||◌, Option, none, some, or_else, List, [],
  ◌∷◌, ◌++◌, map, filter, ltb, if◌then◌else◌,
}
use cm_desk.Prelude.Text.{Text, codes, truthy, text_eq, is_empty, trim, to_upper}
use cm_desk.Money.{Result, ok, throw}
use cm_desk.Types.{is_synthetic_provenance}
use cm_desk.Order.{OrderStatus, pending, unknown, status_eq}
use cm_desk.Ledger.Pending.{apply_unapplied_fills}
use cm_desk.Intake.{StoredOrder, Desk, is_open_order, get_open_orders}
use cm_desk.Intake.Intent.{JobRef}
use cm_desk.Intake.Status.{close_open_order_as_cancelled}
use cm_desk.Intake.Snapshot.{KiteReport, ReportContext, SnapshotResult, apply_broker_order_snapshot}
use cm_desk.Reconcile.Backfill.{Imports, backfill_from_transactions}
use cm_desk.Reconcile.Positions.{
  ReconKind, unexpected_order, missing_order, stale_pending, Mismatch, BrokerPosition, Held,
  aggregate, compare_position,
}

-- the desk and the rows of `reconciliationEvents`
pub record Recon : Type 0 where
  pub desk : Desk
  pub events : List Mismatch

pub record BrokerSnapshot : Type 0 where
  pub orders : Option (List KiteReport)
  pub positions : Option (List BrokerPosition)

abbrev pub record_mismatch : Mismatch → Recon → Recon
record_mismatch event r = record r { events = r.events ++ (event ∷ []) }

abbrev pub order_event : ReconKind → Option Text → Option ℕ → Option Text → Mismatch
order_event kind tradingsymbol internal_order_id broker_order_id = record {
  kind = kind;
  tradingsymbol = tradingsymbol;
  exchange = none;
  product = none;
  internal_qty = none;
  broker_qty = none;
  internal_avg = none;
  broker_avg = none;
  internal_order_id = internal_order_id;
  broker_order_id = broker_order_id;
  resolved = false;
}

-- a set of identifiers, read
abbrev pub has_id : Text → List Text → Bool
has_id id [] = false
has_id id (k ∷ ks) = text_eq id k || has_id id ks

-- the identifiers of a list that are not empty
abbrev pub broker_ids : List (Option Text) → List Text
broker_ids [] = []
broker_ids (id ∷ ids) = if truthy id then or_else id [] ∷ broker_ids ids else broker_ids ids

abbrev pub reconciled : ReportContext
reconciled = record {
  job_id = none;
  decision_id = none;
  purpose = none;
  provenance = some (codes "RECONCILED");
  exit_reason = none;
  internal_order_id = none;
}

abbrev pub is_stale_status : OrderStatus → Bool
is_stale_status status = status_eq status pending || status_eq status unknown

-- `missingDayOrderShouldExpire`; `start` is the start of today's session day
unfoldable pub missing_day_order_should_expire : StoredOrder → ℕ → Bool
missing_day_order_should_expire order start =
    let validity = to_upper (trim order.validity) in
    (text_eq validity (codes "DAY") || text_eq validity (codes "IOC"))
    && order.filled_qty == 0
    && is_open_order order
    && ltb order.updated_at start

abbrev pub is_missing_row : ℕ → Mismatch → Bool
is_missing_row id e =
    not e.resolved
    && (elim e.kind [ missing_order ↦ true | _ ↦ false ])
    && (elim e.internal_order_id [ none ↦ false | some k ↦ k == id ])

abbrev pub resolve_missing : ℕ → List Mismatch → List Mismatch
resolve_missing id events =
    map (λ (e : Mismatch). if is_missing_row id e then record e { resolved = true } else e) events

abbrev pub missing_reason : Text
missing_reason = codes "DAY order not in the Kite book after that session"

abbrev pub note_unexpected : KiteReport → Recon → Recon
note_unexpected report r =
    record_mismatch
      (order_event unexpected_order (some (or_else report.tradingsymbol [])) none report.order_id) r

abbrev pub is_unexpected : List Text → KiteReport → Bool
is_unexpected known report =
    truthy report.order_id && not (has_id (or_else report.order_id []) known)

abbrev pub is_gone : List Text → StoredOrder → Bool
is_gone ids order =
    truthy order.broker_order_id && not (has_id (or_else order.broker_order_id []) ids)

abbrev pub note_missing : StoredOrder → ℕ → Recon → Recon × Option ℕ
note_missing order n r = (
  record_mismatch
      (record (order_event missing_order (some order.tradingsymbol) (some order.id)
        order.broker_order_id) { exchange = some order.exchange; product = order.product })
      r,
  some (suc n),
)

-- after `closeOpenOrderAsCancelled`
abbrev pub after_close : StoredOrder → ℕ → Recon → Option (Desk × Bool) → Recon × Option ℕ
after_close order n r none = (r, none)
after_close order n r (some (s, true)) =
    (record { desk = s; events = resolve_missing order.id r.events }, some n)
after_close order n r (some (s, false)) = note_missing order n (record r { desk = s })

-- the next stage, unless an error has ended the run
abbrev pub then_stage : Recon × Option ℕ → (ℕ → Recon → Recon × Option ℕ) → Recon × Option ℕ
then_stage (r, none) stage = (r, none)
then_stage (r, some n) stage = stage n r

-- A loop, with the count of mismatches; an error ends it.
unfoldable pub each {ℓ} :
    {A : Type ℓ} → (A → ℕ → Recon → Recon × Option ℕ) → List A → ℕ → Recon → Recon × Option ℕ
each step [] n r = (r, some n)
each step (x ∷ xs) n r =
    let done = step x n r in elim done.1 [ none ↦ (done.0, none) | some m ↦ each step xs m done.0 ]

abbrev pub count_or_stop : Result SnapshotResult → ℕ → Option ℕ
count_or_stop (throw e) n = none
count_or_stop (ok result) n = some n

abbrev pub note_position : Result (Option Mismatch) → ℕ → Recon → Recon × Option ℕ
note_position (throw e) n r = (r, none)
note_position (ok none) n r = (r, some n)
note_position (ok (some event)) n r = (record_mismatch event r, some (suc n))

-- `names` are the random names that the recording of an order for a report may need.
module _ (job_by_tag : Text → Option JobRef) (names : KiteReport → List Text) (works : Bool)
    (now start : ℕ) where
  -- An order of the broker; `known` are the identifiers from before the loop.
  abbrev pub ingest_row : List Text → KiteReport → ℕ → Recon → Recon × Option ℕ
  ingest_row known report n r =
      let new = is_unexpected known report in
      let noted = if new then note_unexpected report r else r in
      let taken =
        apply_broker_order_snapshot report reconciled now job_by_tag (names report) works r.desk in
      (record noted { desk = taken.0 }, count_or_stop taken.1 (if new then suc n else n))

  abbrev pub is_stale : StoredOrder → Bool
  is_stale order =
      not (truthy order.broker_order_id)
      && is_stale_status order.status
      && ltb (5 * 60 * 1000) (now - order.created_at)

  -- An open order of the live book; `ids` are those of the broker's orders.
  abbrev pub missing_row : List Text → StoredOrder → ℕ → Recon → Recon × Option ℕ
  missing_row ids order n r =
      if is_gone ids order
      then (if missing_day_order_should_expire order start
          then after_close order n r (
              close_open_order_as_cancelled order.id missing_reason (some order.updated_at) now
                r.desk)
          else note_missing order n r)
      else if is_stale order
      then (
        record_mismatch (order_event stale_pending (some order.tradingsymbol) (some order.id) none)
            r,
        some (suc n),
      )
      else (r, some n)

  -- A position of the broker.
  abbrev pub position_row : List (Text × Held) → BrokerPosition → ℕ → Recon → Recon × Option ℕ
  position_row agg bp n r = note_position (compare_position agg bp) n r

  abbrev pub live_open_orders : Desk → List StoredOrder
  live_open_orders s = filter (λ o. not (is_synthetic_provenance o.provenance)) (get_open_orders s)

  unfoldable pub reconcile_orders : Option (List KiteReport) → ℕ → Recon → Recon × Option ℕ
  unfolding each
  reconcile_orders none n r = (r, some n)
  reconcile_orders (some reports) n r =
      let known = broker_ids (map (λ o. o.broker_order_id) r.desk.orders) in
      let ids = broker_ids (map (λ (report : KiteReport). report.order_id) reports) in
      then_stage (each (ingest_row known) reports n r)
        (λ m r'. each (missing_row ids) (live_open_orders r'.desk) m r')

  unfoldable pub reconcile_positions : Option (List BrokerPosition) → ℕ → Recon → Recon × Option ℕ
  unfolding each
  reconcile_positions none n r = (r, some n)
  reconcile_positions (some bps) n r =
      each (position_row (aggregate r.desk.ledger.positions [])) bps n r

  unfoldable pub reconcile_stages : Option BrokerSnapshot → Recon → Recon × Option ℕ
  unfolding reconcile_orders reconcile_positions
  reconcile_stages none r = (r, some 0)
  reconcile_stages (some broker) r =
      then_stage (reconcile_orders broker.orders 0 r) (reconcile_positions broker.positions)

  -- With the number of mismatches. A mock process has no broker.
  unfoldable pub reconcile_with_broker :
      Imports → Bool → Option BrokerSnapshot → Recon → Recon × Option ℕ
  unfolding reconcile_stages
  reconcile_with_broker imports is_mock broker r =
      let desk = backfill_from_transactions job_by_tag now imports r.desk in
      let ledger = (apply_unapplied_fills desk.ledger).0 in
      reconcile_stages (if is_mock then none else broker)
        (record r { desk = record desk { ledger = ledger } })
