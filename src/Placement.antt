-- ===== src/Placement.antt =====
-- lib/trading/brokerPlace.ts: whether an order that is saved is sent to the broker. The case of letters
-- in the tests of an error's text is that of ASCII; quantities are whole.
pub mod Send
pub mod Place
use cm_desk.Prelude.{
  ℕ, ◌==◌, Bool, true, false, not, ◌&&◌, ◌||◌, Option, none, some, or_else, List, [], ◌∷◌, ◌++◌,
  length, filter, ltb, if◌then◌else◌,
}
use cm_desk.Prelude.Text.{Text, codes, truthy, text_eq, opt_text_eq, to_lower, starts_with}
use cm_desk.Order.{
  OrderStatus, pending, submitted, accepted, partially_filled, cancel_requested, unknown, includes,
}
use cm_desk.Ledger.{find}
use cm_desk.Intake.Intent.{is_retired}

abbrev pub broker_ack_unknown_ms : ℕ
broker_ack_unknown_ms = 60_000

pub data PlaceDecision : Type 0 where
  place lookup wait : PlaceDecision
  reuse : Text → PlaceDecision

pub record PlaceInput : Type 0 where
  pub is_new : Bool
  pub status : Option OrderStatus
  pub broker_order_id : Option Text
  pub age_ms : ℕ
  -- `none` until the book has been read; then the identifier that it has, if any
  pub from_book : Option (Option Text)

abbrev pub is_retry_terminal : Option OrderStatus → Bool
is_retry_terminal none = false
is_retry_terminal (some status) = is_retired status

abbrev pub decide_by_book : Option (Option Text) → ℕ → PlaceDecision
decide_by_book none age_ms = lookup
decide_by_book (some found) age_ms =
    if truthy found
    then reuse (or_else found [])
    else if ltb age_ms broker_ack_unknown_ms
    then wait
    else place

unfoldable pub decide_broker_place : PlaceInput → PlaceDecision
decide_broker_place input =
    if input.is_new || is_retry_terminal input.status
    then place
    else if truthy input.broker_order_id
    then reuse (or_else input.broker_order_id [])
    else decide_by_book input.from_book input.age_ms

-- What was thrown: the doubt about an acknowledgement, a text, or an object with these fields.
pub data BrokerError : Type 0 where
  in_doubt : BrokerError
  says : Text → BrokerError
  raised : Option Text → Option Text → Option Text → BrokerError

-- a text is in another one
unfoldable pub has_text : Text → Text → Bool
has_text part [] = starts_with [] part
has_text part (c ∷ s) = starts_with (c ∷ s) part || has_text part s

-- one of the texts is in the other, whatever the case of its letters
abbrev pub has_any : List Text → Text → Bool
has_any [] s = false
has_any (part ∷ parts) s = has_text (to_lower part) (to_lower s) || has_any parts s

abbrev pub is_one_of : List Text → Text → Bool
is_one_of [] s = false
is_one_of (t ∷ ts) s = text_eq s t || is_one_of ts s

unfoldable pub is_ambiguous_broker_error : BrokerError → Bool
is_ambiguous_broker_error in_doubt = true
is_ambiguous_broker_error (says message) =
    has_any
      (codes "timeout"
        ∷ codes "network"
        ∷ codes "socket hang up"
        ∷ codes "ECONNRESET"
        ∷ codes "ETIMEDOUT"
        ∷ codes "EAI_AGAIN"
        ∷ [])
      message
is_ambiguous_broker_error (raised error_type code message) =
    let type = or_else error_type [] in
    if text_eq type (codes "NetworkException")
    then true
    else if is_one_of
        (codes "InputException"
          ∷ codes "PermissionException"
          ∷ codes "TokenException"
          ∷ codes "OrderException"
          ∷ [])
        type
    then false
    else if is_one_of
        (codes "ECONNRESET"
          ∷ codes "ETIMEDOUT"
          ∷ codes "ENOTFOUND"
          ∷ codes "EAI_AGAIN"
          ∷ codes "ECONNREFUSED"
          ∷ [])
        (or_else code [])
    then true
    else has_any (codes "timeout" ∷ codes "socket hang up" ∷ codes "network" ∷ [])
        (or_else message [])

pub record BrokerOrderMatch : Type 0 where
  pub order_id : Option Text
  pub tag : Option Text
  pub tradingsymbol : Option Text
  pub quantity : Option ℕ
  pub product : Option Text
  pub transaction_type : Option Text
  pub exchange : Option Text
  pub order_type : Option Text

-- `want && order !== want` does not hold
abbrev pub agrees : Option Text → Option Text → Bool
agrees want order = not (truthy want) || opt_text_eq order want

abbrev pub agrees_qty : Option ℕ → Option ℕ → Bool
agrees_qty none order = true
agrees_qty (some q) none = false
agrees_qty (some q) (some n) = n == q

abbrev pub is_same_instruction : BrokerOrderMatch → BrokerOrderMatch → Bool
is_same_instruction want order =
    truthy order.order_id
    && agrees want.tag order.tag
    && opt_text_eq order.tradingsymbol want.tradingsymbol
    && agrees_qty want.quantity order.quantity
    && agrees want.product order.product
    && agrees want.transaction_type order.transaction_type
    && agrees want.exchange order.exchange
    && agrees want.order_type order.order_type

abbrev pub id_of_match : Option BrokerOrderMatch → Option Text
id_of_match none = none
id_of_match (some order) = order.order_id

unfoldable pub matching_broker_order_id : List BrokerOrderMatch → BrokerOrderMatch → Option Text
matching_broker_order_id orders want =
    if truthy want.tradingsymbol then id_of_match (find (is_same_instruction want) orders) else none

pub record EntryOrder : Type 0 where
  pub tradingsymbol : Option Text
  pub strategy : Option Text
  pub purpose : Option Text
  pub status : Option OrderStatus

abbrev pub is_working : Option OrderStatus → Bool
is_working none = false
is_working (some status) =
    includes (pending ∷ submitted ∷ accepted ∷ partially_filled ∷ unknown ∷ cancel_requested ∷ [])
      status

unfoldable pub working_entry_count : List EntryOrder → Text → Text → ℕ
working_entry_count orders symbol strategy = length (
    filter
      (λ o.
        opt_text_eq o.tradingsymbol (some symbol)
        && opt_text_eq o.strategy (some strategy)
        && (not (truthy o.purpose) || opt_text_eq o.purpose (some (codes "ENTRY")))
        && is_working o.status)
      orders)
