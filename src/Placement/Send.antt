-- ===== src/Placement/Send.antt =====
-- lib/kiteUtils.ts: `placeOrder`, with `safeRecordOrderFromKiteProps` of lib/trading/ledger.ts. One call
-- happens at one time, and what it is answered from outside is a record; the alert of a failure and the
-- market protection of the order are left out.
use cm_desk.Prelude.{
  ℕ, ◌-◌, ◌==◌, Bool, false, not, ◌&&◌, ◌||◌, Option, none, some, or_else, is_some, List, [], ◌++◌,
  if◌then◌else◌,
}
use cm_desk.Prelude.Text.{Text, codes, truthy, opt_text_eq, trim, is_empty}
use cm_desk.Prelude.Double.{Double}
use cm_desk.Money.Decimal.{to_digits}
use cm_desk.Types.{buy, sell, Provenance, provenance_text}
use cm_desk.Order.{OrderStatus}
use cm_desk.Risk.Settings.{RiskSettings, is_paper_strategy, execution_provenance}
use cm_desk.Risk.Role.{OrderRole, is_entry, infer_order_role}
use cm_desk.Risk.Gate.{GateOrder, GateRows, GateCode}
use cm_desk.Intake.{Desk}
use cm_desk.Intake.Intent.{JobRef, OrderIntent, RecordedIntent, record_order_intent}
use cm_desk.Intake.Status.{SubmitReport}
use cm_desk.Placement.{
  PlaceDecision, lookup, decide_broker_place, BrokerError, in_doubt, says, raised, has_text,
  BrokerOrderMatch, matching_broker_order_id,
}

pub record RiskAwareOrder {ℓ} (F : Type ℓ) : Type ℓ where
  pub tradingsymbol : Option Text
  pub exchange : Option Text
  pub transaction_type : Option Text
  pub order_type : Option Text
  pub product : Option Text
  pub quantity : Option ℕ
  pub price : Option F
  pub trigger_price : Option F
  pub tag : Option Text
  pub validity : Option Text
  pub purpose : Option Text
  pub strategy : Option Text
  pub ltp : Option F
  pub lots : Option F
  pub intent_slice : Option Text

-- what `kite.placeOrder` does: it answers, with an identifier or without one, or it throws
pub data BrokerAnswer : Type 0 where
  answers : Option Text → BrokerAnswer
  fails : BrokerError → BrokerAnswer

-- What a call is answered: the settings of risk, the rows of the gate, the last price that Kite gives, the
-- book of the broker (`none` where the request fails), what the placement does, the jobs by their tags,
-- the random names, and whether the insertion of a fill works.
pub record Answers {ℓ} (F : Type ℓ) : Type ℓ where
  pub settings : RiskSettings F
  pub rows : GateRows F
  pub kite_ltp : Option F
  pub book : Option (List BrokerOrderMatch)
  pub answer : BrokerAnswer
  pub job_by_tag : Text → Option JobRef
  pub uuids : List Text
  pub works : Bool
  pub now : ℕ

pub data PlaceOutcome : Type 0 where
  returned : Option Text → PlaceOutcome
  risk_rejected : GateCode → PlaceOutcome
  not_saved ack_unknown : PlaceOutcome
  broker_failed : BrokerError → PlaceOutcome

-- The desk, what the caller gets, and whether `kite.placeOrder` was called.
pub record Placed : Type 0 where
  pub desk : Desk
  pub outcome : PlaceOutcome
  pub is_sent : Bool

abbrev pub unsent : Desk → PlaceOutcome → Placed
unsent s outcome = record { desk = s; outcome = outcome; is_sent = false }

abbrev pub submit_report :
    ℕ → Option Text → OrderStatus → Option Text → Option Provenance → SubmitReport
submit_report id broker_order_id status error_info provenance = record {
  order_id = some id;
  broker_order_id = broker_order_id;
  exchange_order_id = none;
  error_info = error_info;
  status = some status;
  provenance = elim provenance [ none ↦ none | some p ↦ some (provenance_text p) ];
}

abbrev pub or_unknown : Text → Text
or_unknown text = if is_empty text then codes "Unknown error" else text

-- `formatThrownMessage` of lib/kiteError.ts; an Error is an object without an `error_type`
unfoldable pub format_thrown_message : BrokerError → Text
format_thrown_message in_doubt =
    codes "Broker acknowledgement is unknown for an existing order. Not placing another."
format_thrown_message (says text) = or_unknown (trim text)
format_thrown_message (raised error_type code message) =
    let type = trim (or_else error_type []) in
    let text = trim (or_else message []) in
    if not (is_empty type) && not (is_empty text) && not (has_text type text)
    then type ++ (codes ": " ++ text)
    else if not (is_empty text)
    then text
    else or_unknown type

abbrev pub paper_id : ℕ → Text
paper_id id = codes "paper:" ++ to_digits id

-- an error of the ledger's arithmetic, whose text has no phrase of a failing connection
abbrev pub ledger_error : BrokerError
ledger_error = raised none none (some (codes "invalid money"))

module _ {ℓ} {F : Type ℓ} ⦃d : Double F⦄ (text_of : F → Text) where
  abbrev pub text_or_none : Option F → Option Text
  text_or_none none = none
  text_or_none (some x) = some (text_of x)

  -- `Number.isFinite(x) && x > 0`
  abbrev pub is_price : F → Bool
  is_price x = d.is_finite x && d.lt (d.of_ℕ 0) x

  abbrev pub price_or_none : Option F → Option F
  price_or_none none = none
  price_or_none (some x) = if is_price x then some x else none

  abbrev pub resolve_quote_ltp : RiskAwareOrder F → Answers F → Option F
  resolve_quote_ltp order w = elim (price_or_none order.ltp) [
    | some x ↦ some x
    | none ↦
        if truthy order.exchange && truthy order.tradingsymbol
        then price_or_none w.kite_ltp
        else none
  ]

  abbrev pub place_role : RiskAwareOrder F → OrderRole
  place_role order = infer_order_role order.purpose order.order_type

  abbrev pub is_paper_execution : RiskAwareOrder F → Answers F → Bool
  is_paper_execution order w = w.rows.is_mock || is_paper_strategy w.settings order.strategy

  abbrev pub place_provenance : RiskAwareOrder F → Answers F → Provenance
  place_provenance order w = execution_provenance w.rows.is_mock w.settings order.strategy

  abbrev pub qty_number : Option ℕ → Option F
  qty_number none = none
  qty_number (some q) = some (d.of_ℕ q)

  abbrev pub gate_order : RiskAwareOrder F → Answers F → GateOrder F
  gate_order order w =
      let quote = resolve_quote_ltp order w in
      let quoted = is_entry (place_role order) && is_some quote in
      record {
        tradingsymbol = order.tradingsymbol;
        transaction_type = order.transaction_type;
        order_type = order.order_type;
        quantity = qty_number order.quantity;
        price = order.price;
        trigger_price = order.trigger_price;
        tag = order.tag;
        purpose = order.purpose;
        role = some (place_role order);
        strategy = order.strategy;
        lots = order.lots;
        ltp = if quoted then quote else none;
        ltp_at = if quoted then some w.rows.now else none;
      }

  abbrev pub has_quantity : Option ℕ → Bool
  has_quantity none = false
  has_quantity (some q) = not (q == 0)

  abbrev pub place_intent : RiskAwareOrder F → Answers F → OrderIntent
  place_intent order w = record {
    job_id = none;
    decision_id = none;
    strategy = order.strategy;
    order_tag = order.tag;
    purpose = order.purpose;
    side = if opt_text_eq order.transaction_type (some (codes "SELL")) then sell else buy;
    order_type = order.order_type;
    product = order.product;
    exchange = order.exchange;
    tradingsymbol = or_else order.tradingsymbol [];
    instrument_token = none;
    validity = order.validity;
    requested_qty = or_else order.quantity 0;
    limit_price = text_or_none order.price;
    stop_price = text_or_none order.trigger_price;
    idempotency_key = none;
    provenance = some (provenance_text (place_provenance order w));
    slice = order.intent_slice;
  }

  unfoldable pub safe_record_order :
      RiskAwareOrder F → Answers F → Desk → Option (Desk × RecordedIntent)
  safe_record_order order w s =
      if truthy order.tradingsymbol && has_quantity order.quantity && truthy order.transaction_type
      then record_order_intent w.job_by_tag w.now w.uuids (place_intent order w) s
      else none

  abbrev pub wanted : RiskAwareOrder F → BrokerOrderMatch
  wanted order = record {
    order_id = none;
    tag = order.tag;
    tradingsymbol = order.tradingsymbol;
    quantity = order.quantity;
    product = order.product;
    transaction_type = order.transaction_type;
    exchange = order.exchange;
    order_type = order.order_type;
  }

  abbrev pub decide_with_book : RecordedIntent → ℕ → Option (Option Text) → PlaceDecision
  decide_with_book recorded now from_book = decide_broker_place (record {
    is_new = recorded.is_new;
    status = some recorded.status;
    broker_order_id = recorded.broker_order_id;
    age_ms = now - recorded.created_at;
    from_book = from_book;
  })

  -- The decision that is left once the book of the broker is read; `none` where it cannot be.
  abbrev pub decide_after_lookup :
      RiskAwareOrder F → Answers F → RecordedIntent → Option PlaceDecision
  decide_after_lookup order w recorded = elim w.book [
    | none ↦ none
    | some book ↦
        some (decide_with_book recorded w.now (some (matching_broker_order_id book (wanted order))))
  ]

  -- A lookup is followed by a second decision.
  abbrev pub after_first :
      RiskAwareOrder F → Answers F → RecordedIntent → PlaceDecision → Option PlaceDecision
  after_first order w recorded lookup = decide_after_lookup order w recorded
  after_first order w recorded decision = some decision

  unfoldable pub place_decision :
      RiskAwareOrder F → Answers F → RecordedIntent → Option PlaceDecision
  place_decision order w recorded =
      after_first order w recorded
        (decide_with_book recorded w.now (if is_paper_execution order w then some none else none))
