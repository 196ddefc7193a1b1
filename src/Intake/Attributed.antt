-- ===== src/Intake/Attributed.antt =====
-- lib/trading/ledger.ts: `recordAttributedFill`, a trade of the broker that the operator accepts for one
-- strategy. `price_text` is the text of its price, and `price` what a numeric column holds of it.
pub mod Once
pub mod Sound
use cm_desk.Prelude.{
  ℕ, ◌==◌, Bool, true, false, Option, none, some, List, [], ◌∷◌, ◌++◌, if◌then◌else◌,
}
use cm_desk.Prelude.Int.{pos}
use cm_desk.Prelude.Text.{Text, codes}
use cm_desk.Money.{Money}
use cm_desk.Types.{Side, buy, sell}
use cm_desk.Order.{filled}
use cm_desk.Ledger.{StoredFill, Store}
use cm_desk.Ledger.Apply.{apply_fill_by_id}
use cm_desk.Intake.{StoredOrder, Desk, update_order}
use cm_desk.Intake.Intent.{JobRef, OrderIntent, RecordedIntent, record_order_intent}
use cm_desk.Intake.Snapshot.{insert_fill}

pub record AttributedFill : Type 0 where
  pub strategy : Text
  pub exchange : Text
  pub tradingsymbol : Text
  pub product : Text
  pub side : Side
  pub quantity : ℕ
  pub price_text : Text
  pub price : Money
  pub occurred_at : ℕ
  pub fingerprint : Text
  pub broker_trade_id : Option Text

unfoldable pub attributed_intent : AttributedFill → OrderIntent
attributed_intent input = record {
  job_id = none;
  decision_id = none;
  strategy = some input.strategy;
  order_tag = some (codes "reconcile");
  purpose = some (elim input.side [ buy ↦ codes "ENTRY" | sell ↦ codes "EXIT" ]);
  side = input.side;
  order_type = some (codes "LIMIT");
  product = some input.product;
  exchange = some input.exchange;
  tradingsymbol = input.tradingsymbol;
  instrument_token = none;
  validity = none;
  requested_qty = input.quantity;
  limit_price = some input.price_text;
  stop_price = none;
  idempotency_key = some (codes "recon-order:" ++ input.fingerprint);
  provenance = some (codes "RECONCILED");
  slice = none;
}

abbrev pub attributed_order : AttributedFill → ℕ → StoredOrder → StoredOrder
attributed_order input now o = record o {
  status = filled;
  filled_qty = input.quantity;
  remaining_qty = 0;
  average_fill_price = some input.price_text;
  filled_at = some input.occurred_at;
  updated_at = now;
}

unfoldable pub attributed_fill : AttributedFill → ℕ → ℕ → StoredFill
attributed_fill input order_id id = record {
  id = id;
  is_applied = false;
  account_id = codes "default";
  job_id = none;
  decision_id = none;
  strategy = some input.strategy;
  exchange = input.exchange;
  tradingsymbol = input.tradingsymbol;
  instrument_token = none;
  product = some input.product;
  side = input.side;
  quantity = pos input.quantity;
  price = input.price;
  fee_amount = pos 0;
  occurred_at = input.occurred_at;
  provenance = some (codes "RECONCILED");
  order_id = order_id;
  fingerprint = input.fingerprint;
  broker_trade_id = input.broker_trade_id;
}

-- after `insertFill`
unfoldable pub apply_saved : Store × Option ℕ → Desk → Desk × Bool
apply_saved (ledger, none) s = (record s { ledger = ledger }, false)
apply_saved (ledger, some id) s =
    let r = apply_fill_by_id id none ledger in (record s { ledger = r.0 }, r.1)

abbrev pub book_attributed : AttributedFill → ℕ → Bool → ℕ → Desk → Desk × Bool
book_attributed input now works order_id s =
    let s' = update_order order_id (attributed_order input now) s in
    apply_saved (insert_fill works (attributed_fill input order_id) s'.ledger) s'

unfoldable pub attributed_after :
    AttributedFill → ℕ → Bool → Option (Desk × RecordedIntent) → Desk → Desk × Bool
unfolding apply_saved
attributed_after input now works none s = (s, false)
attributed_after input now works (some (s', recorded)) s =
    book_attributed input now works recorded.id s'

unfoldable pub record_attributed_fill :
    (Text → Option JobRef) → ℕ → List Text → Bool → AttributedFill → Desk → Desk × Bool
unfolding attributed_after
record_attributed_fill job_by_tag now uuids works input s =
    attributed_after input now works
      (record_order_intent job_by_tag now uuids (attributed_intent input) s) s
