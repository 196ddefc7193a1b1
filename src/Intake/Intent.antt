-- ===== src/Intake/Intent.antt =====
-- lib/trading/ledger.ts: `recordOrderIntent`, the row of an order before it is sent. `randomUUID` is a
-- list of names, one for each time that the key of a closed order is met.
pub mod Ends
pub mod Once
pub mod Absent
use cm_desk.Prelude.{
  ℕ, suc, ◌==◌, Bool, true, false, ◌||◌, Option, none, some, or_else, List, [], ◌∷◌, ◌++◌,
  if◌then◌else◌,
}
use cm_desk.Prelude.Text.{Text, codes, truthy, text_eq, to_upper, is_empty}
use cm_desk.Types.{Side, buy, sell, ledger_provenance, provenance_text}
use cm_desk.Money.Decimal.{to_digits}
use cm_desk.Accounting.Rows.{OrderPurpose, entry, exit, hedge, sl, square_off, other, infer_purpose}
use cm_desk.Paper.Match.{strategy_for_order}
use cm_desk.Order.{OrderStatus, pending, rejected, failed, cancelled, status_eq}
use cm_desk.Intake.{StoredOrder, OrderEvent, created, Desk, order_by_key, append_order_event}

pub record JobRef : Type 0 where
  pub id : Text
  pub strategy : Option Text

pub record OrderIntent : Type 0 where
  pub job_id : Option Text
  pub decision_id : Option Text
  pub strategy : Option Text
  pub order_tag : Option Text
  pub purpose : Option Text
  pub side : Side
  pub order_type : Option Text
  pub product : Option Text
  pub exchange : Option Text
  pub tradingsymbol : Text
  pub instrument_token : Option ℕ
  pub validity : Option Text
  pub requested_qty : ℕ
  pub limit_price : Option Text
  pub stop_price : Option Text
  pub idempotency_key : Option Text
  pub provenance : Option Text
  pub slice : Option Text

pub record RecordedIntent : Type 0 where
  pub id : ℕ
  pub is_new : Bool
  pub status : OrderStatus
  pub broker_order_id : Option Text
  pub created_at : ℕ

abbrev pub purpose_text : OrderPurpose → Text
purpose_text entry = codes "ENTRY"
purpose_text exit = codes "EXIT"
purpose_text hedge = codes "HEDGE"
purpose_text sl = codes "SL"
purpose_text square_off = codes "SQUARE_OFF"
purpose_text other = codes "OTHER"

unfoldable pub stored_order_purpose : Option Text → Option Text
stored_order_purpose purpose =
    if truthy purpose
    then (if text_eq (to_upper (or_else purpose [])) (codes "FLATTEN")
        then some (codes "EXIT")
        else purpose)
    else none

-- `storedOrderPurpose(input.purpose ?? inferPurpose({ orderType })) ?? "OTHER"`
abbrev pub purpose_of : OrderIntent → Text
purpose_of input =
    or_else
      (stored_order_purpose
        (some (or_else input.purpose (purpose_text (infer_purpose input.order_type false)))))
      (codes "OTHER")

abbrev pub side_text : Side → Text
side_text buy = codes "BUY"
side_text sell = codes "SELL"

abbrev pub join_colon : List Text → Text
join_colon [] = []
join_colon (t ∷ []) = t
join_colon (t ∷ ts) = t ++ (codes ":" ++ join_colon ts)

unfoldable pub order_intent_key : OrderIntent → Text → Option Text → Text
order_intent_key input purpose retry_suffix =
    let base = join_colon (
      or_else input.order_tag []
      ∷ input.tradingsymbol
      ∷ side_text input.side
      ∷ to_digits input.requested_qty
      ∷ purpose
      ∷ or_else input.order_type []
      ∷ or_else input.stop_price []
      ∷ or_else input.limit_price []
      ∷ []) in
    let with_slice =
      if truthy input.slice then base ++ (codes ":slice:" ++ or_else input.slice []) else base in
    if truthy retry_suffix
    then with_slice ++ (codes ":" ++ or_else retry_suffix [])
    else codes "intent:" ++ with_slice

abbrev pub key_of : OrderIntent → Text
key_of input = or_else input.idempotency_key (order_intent_key input (purpose_of input) none)

-- An order that ended without a fill: its key may be used for a new one.
abbrev pub is_retired : OrderStatus → Bool
is_retired status =
    status_eq status rejected || status_eq status failed || status_eq status cancelled

-- `${key}:r:${randomUUID()}`
abbrev pub retry_key : Text → Text → Text
retry_key key uuid = key ++ (codes ":r:" ++ uuid)

module _ (job_by_tag : Text → Option JobRef) (now : ℕ) where
  -- `input.jobId ? { id: input.jobId, strategy: hinted } : await lookupJobByTag(input.orderTag)`
  abbrev pub job_of : OrderIntent → Option JobRef
  job_of input =
      if truthy input.job_id
      then some (record {
        id = or_else input.job_id [];
        strategy = strategy_for_order input.strategy input.order_tag;
      })
      else if truthy input.order_tag
      then job_by_tag (or_else input.order_tag [])
      else none

  abbrev job_strategy : Option JobRef → Option Text
  job_strategy none = none
  job_strategy (some job) = job.strategy

  -- `job?.id ?? input.jobId ?? null`
  abbrev job_id_of : Option JobRef → Option Text → Option Text
  job_id_of none job_id = job_id
  job_id_of (some job) job_id = some job.id

  unfoldable pub new_order : ℕ → Text → OrderIntent → StoredOrder
  new_order id key input = record {
    id = id;
    job_id = job_id_of (job_of input) input.job_id;
    decision_id = input.decision_id;
    strategy = elim (job_strategy (job_of input)) [
      | none ↦ strategy_for_order input.strategy input.order_tag
      | some name ↦ some name
    ];
    order_tag = input.order_tag;
    purpose = purpose_of input;
    side = input.side;
    order_type = input.order_type;
    product = input.product;
    exchange = if truthy input.exchange then or_else input.exchange [] else codes "NFO";
    tradingsymbol = input.tradingsymbol;
    instrument_token = input.instrument_token;
    validity = or_else input.validity (codes "DAY");
    time_in_force = some (or_else input.validity (codes "DAY"));
    requested_qty = input.requested_qty;
    filled_qty = 0;
    remaining_qty = input.requested_qty;
    limit_price = input.limit_price;
    stop_price = input.stop_price;
    average_fill_price = none;
    status = pending;
    broker_order_id = none;
    exchange_order_id = none;
    parent_broker_order_id = none;
    idempotency_key = key;
    reject_reason = none;
    cancel_reason = none;
    error_info = none;
    broker_status = none;
    provenance = some (provenance_text (ledger_provenance input.provenance));
    submitted_at = none;
    accepted_at = none;
    filled_at = none;
    cancelled_at = none;
    created_at = now;
    updated_at = now;
  }

  -- the insertion with its event; a key that was just looked up meets no conflict
  unfoldable pub insert_order : Text → OrderIntent → Desk → Desk × RecordedIntent
  insert_order key input s =
      let row = new_order s.next_order key input in
      (
        append_order_event
            (record {
              order_id = s.next_order;
              from_status = none;
              to_status = pending;
              event_type = created;
              broker_status = none;
              filled_qty = none;
              remaining_qty = none;
              message = some (codes "order intent");
              occurred_at = now;
            })
            (record s { orders = s.orders ++ (row ∷ []); next_order = suc s.next_order }),
        record {
          id = s.next_order;
          is_new = true;
          status = pending;
          broker_order_id = none;
          created_at = now;
        },
      )

  abbrev pub known_intent : StoredOrder → RecordedIntent
  known_intent row = record {
    id = row.id;
    is_new = false;
    status = row.status;
    broker_order_id = row.broker_order_id;
    created_at = row.created_at;
  }

  -- what is done with the row of the key; `again` is the call of itself
  abbrev pub by_row :
      Option StoredOrder
      → Text
      → OrderIntent
      → Desk
      → Option (Desk × RecordedIntent)
      → Option (Desk × RecordedIntent)
  by_row none key input s again = some (insert_order key input s)
  by_row (some row) key input s again =
      if is_retired row.status then again else some (s, known_intent row)

  -- The call with a key; `none` if the names run out.
  unfoldable pub record_with_key :
      List Text → Text → OrderIntent → Desk → Option (Desk × RecordedIntent)
  unfolding insert_order
  record_with_key [] key input s = by_row (order_by_key key s) key input s none
  record_with_key (uuid ∷ uuids) key input s =
      by_row (order_by_key key s) key input s (record_with_key uuids (retry_key key uuid) input s)

  unfoldable pub record_order_intent :
      List Text → OrderIntent → Desk → Option (Desk × RecordedIntent)
  record_order_intent uuids input s = record_with_key uuids (key_of input) input s
