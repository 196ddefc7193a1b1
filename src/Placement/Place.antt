-- ===== src/Placement/Place.antt =====
-- lib/kiteUtils.ts: `placeOrder` from its guards to the broker: what is recorded, whether it is sent, and
-- what its order becomes.
pub mod Doubt
pub mod Repeat
pub mod Guards
pub mod Sound
use cm_desk.Prelude.{
  ℕ, ◌==◌, Bool, true, false, not, ◌&&◌, ◌||◌, Option, none, some, or_else, List, [], ◌∷◌,
  if◌then◌else◌,
}
use cm_desk.Prelude.Text.{Text, codes, truthy, text_eq, opt_text_eq}
use cm_desk.Prelude.Double.{Double}
use cm_desk.Money.{Result, ok, throw}
use cm_desk.Types.{Provenance, provenance_text}
use cm_desk.Order.{OrderStatus, submitted, failed, unknown}
use cm_desk.Risk.Role.{is_entry}
use cm_desk.Risk.Exit.{live_flatten_session_block}
use cm_desk.Risk.Gate.{session_closed, Verdict, allowed, rejected, assert_order_allowed}
use cm_desk.Intake.{Desk}
use cm_desk.Intake.Intent.{RecordedIntent}
use cm_desk.Intake.Status.{mark_order_submitted}
use cm_desk.Intake.Snapshot.{KiteReport, ReportContext, SnapshotResult, apply_broker_order_snapshot}
use cm_desk.Paper.Execution.{should_fill_paper_order_now}
use cm_desk.Placement.{
  PlaceDecision, place, lookup, wait, reuse, BrokerError, in_doubt, is_ambiguous_broker_error,
}
use cm_desk.Placement.Send.{
  RiskAwareOrder, BrokerAnswer, answers, fails, Answers, PlaceOutcome, returned, risk_rejected,
  not_saved, ack_unknown, broker_failed, Placed, unsent, submit_report, format_thrown_message,
  paper_id, ledger_error, text_or_none, resolve_quote_ltp, place_role, is_paper_execution,
  place_provenance, gate_order, safe_record_order, place_decision,
}

module _ {ℓ} {F : Type ℓ} ⦃d : Double F⦄ (text_of : F → Text) where
  -- `a || b` on numbers
  abbrev pub number_or : Option F → F → F
  number_or none b = b
  number_or (some a) b = if d.is_truthy a then a else b

  abbrev pub fill_price_of : RiskAwareOrder F → Answers F → F
  fill_price_of order w =
      number_or (resolve_quote_ltp text_of order w)
        (number_or order.ltp (number_or order.price (number_or order.trigger_price (d.of_ℕ 0))))

  abbrev pub fills_now : RiskAwareOrder F → Answers F → Bool
  fills_now order w =
      should_fill_paper_order_now order.order_type (or_else order.transaction_type [])
        order.trigger_price (fill_price_of order w) none none

  -- the report that a paper order makes of itself
  abbrev pub own_report : RiskAwareOrder F → Answers F → ℕ → KiteReport
  own_report order w id =
      let quantity = or_else order.quantity 0 in
      record {
        order_id = some (paper_id id);
        exchange_order_id = none;
        parent_order_id = none;
        status = some (if fills_now order w then codes "COMPLETE" else codes "TRIGGER PENDING");
        status_message = none;
        tradingsymbol = order.tradingsymbol;
        exchange = order.exchange;
        instrument_token = none;
        transaction_type = order.transaction_type;
        order_type = order.order_type;
        product = order.product;
        validity = none;
        quantity = order.quantity;
        pending_quantity = some (if fills_now order w then 0 else quantity);
        filled_quantity = some (if fills_now order w then quantity else 0);
        price = text_or_none text_of order.price;
        trigger_price = text_or_none text_of order.trigger_price;
        average_price =
            some (text_of (if fills_now order w then fill_price_of order w else d.of_ℕ 0));
        tag = order.tag;
        order_timestamp = none;
        exchange_timestamp = none;
      }

  abbrev pub own_context : RiskAwareOrder F → Answers F → ℕ → ReportContext
  own_context order w id = record {
    job_id = none;
    decision_id = none;
    purpose = order.purpose;
    provenance = some (provenance_text (place_provenance text_of order w));
    exit_reason = none;
    internal_order_id = some id;
  }

  -- the catch: the order is unknown after an error that proves nothing, else it has failed
  abbrev pub after_error : RiskAwareOrder F → Answers F → ℕ → BrokerError → Desk → Desk
  after_error order w id error s =
      mark_order_submitted
        (submit_report id none (if is_ambiguous_broker_error error then unknown else failed)
          (some (format_thrown_message error)) (some (place_provenance text_of order w)))
        w.now s

  pub paper_result : RiskAwareOrder F → Answers F → ℕ → Desk × Result SnapshotResult → Placed
  paper_result order w id (s, ok result) = unsent s (returned (some (paper_id id)))
  paper_result order w id (s, throw e) =
      unsent (after_error order w id ledger_error s) (broker_failed ledger_error)

  abbrev pub send_paper : RiskAwareOrder F → Answers F → ℕ → Desk → Placed
  send_paper order w id s =
      let provenance = some (place_provenance text_of order w) in
      let s' =
        mark_order_submitted (submit_report id (some (paper_id id)) submitted none provenance) w.now
          s in
      paper_result order w id (
        apply_broker_order_snapshot (own_report order w id) (own_context order w id) w.now
          w.job_by_tag w.uuids w.works s')

  abbrev pub send_live : RiskAwareOrder F → Answers F → ℕ → BrokerAnswer → Desk → Placed
  send_live order w id (answers order_id) s = record {
    desk =
        mark_order_submitted
          (submit_report id order_id (if truthy order_id then submitted else failed) none none)
          w.now s;
    outcome = returned order_id;
    is_sent = true;
  }
  send_live order w id (fails in_doubt) s = record {
    desk = s;
    outcome = ack_unknown;
    is_sent = true;
  }
  send_live order w id (fails error) s = record {
    desk = after_error order w id error s;
    outcome = broker_failed error;
    is_sent = true;
  }

  abbrev pub send : RiskAwareOrder F → Answers F → ℕ → Desk → Placed
  send order w id s =
      if is_paper_execution text_of order w
      then send_paper order w id s
      else send_live order w id w.answer s

  -- an order that the broker has already
  abbrev pub reuse_order : RiskAwareOrder F → Answers F → RecordedIntent → Text → Desk → Placed
  reuse_order order w recorded id s =
      let provenance = some (place_provenance text_of order w) in
      unsent
        (if truthy (some id) && not (opt_text_eq (some id) recorded.broker_order_id)
          then mark_order_submitted (submit_report recorded.id (some id) submitted none provenance)
              w.now s
          else s)
        (returned (some id))

  unfoldable pub act :
      RiskAwareOrder F → Answers F → RecordedIntent → Option PlaceDecision → Desk → Placed
  unfolding paper_result
  act order w recorded none s = unsent s ack_unknown
  act order w recorded (some wait) s = unsent s ack_unknown
  act order w recorded (some (reuse id)) s = reuse_order order w recorded id s
  act order w recorded (some place) s = send order w recorded.id s
  act order w recorded (some lookup) s = send order w recorded.id s

  unfoldable pub place_recorded :
      RiskAwareOrder F → Answers F → Option (Desk × RecordedIntent) → Desk → Placed
  place_recorded order w none s = unsent s not_saved
  place_recorded order w (some (s', recorded)) s =
      act order w recorded (place_decision text_of order w recorded) s'

  -- A live exit is refused outside the session.
  abbrev pub is_session_blocked : RiskAwareOrder F → Answers F → Bool
  is_session_blocked order w =
      not (is_paper_execution text_of order w)
      && not (is_entry (place_role text_of order))
      && live_flatten_session_block false w.rows.market_open

  unfoldable pub after_gate : RiskAwareOrder F → Answers F → Verdict → Desk → Placed
  unfolding act place_recorded
  after_gate order w (rejected code) s = unsent s (risk_rejected code)
  after_gate order w allowed s =
      if is_session_blocked order w
      then unsent s (risk_rejected session_closed)
      else place_recorded order w (safe_record_order text_of order w s) s

  unfoldable pub place_order : RiskAwareOrder F → Answers F → Desk → Placed
  unfolding after_gate
  place_order order w s =
      after_gate order w (assert_order_allowed (gate_order text_of order w) w.rows) s
