-- ===== src/Ledger.antt =====
-- lib/trading/ledger.ts: the rows that a fill touches, as a store. A numeric column holds the amount that
-- its text reads as; times are milliseconds; `updated_at` is left out.
pub mod Totals
pub mod Trades
pub mod Apply
pub mod Pending
pub mod Rows
use cm_desk.Prelude.{
  ℕ, suc, ◌==◌, Bool, true, false, not, ◌&&◌, Option, none, some, or_else, List, [], ◌∷◌, map,
  if◌then◌else◌,
}
use cm_desk.Prelude.Int.{ℤ}
use cm_desk.Prelude.Text.{Text}
use cm_desk.Money.{Money}
use cm_desk.Types.{Side, PositionDirection, PositionEventKind}

pub record StoredFill : Type 0 where
  pub id : ℕ
  pub is_applied : Bool
  pub account_id : Text
  pub job_id : Option Text
  pub decision_id : Option Text
  pub strategy : Option Text
  pub exchange : Text
  pub tradingsymbol : Text
  pub instrument_token : Option ℕ
  pub product : Option Text
  pub side : Side
  pub quantity : ℤ
  pub price : Money
  pub fee_amount : Money
  pub occurred_at : ℕ
  pub provenance : Option Text
  pub order_id : ℕ
  pub fingerprint : Text
  pub broker_trade_id : Option Text

pub data RowStatus : Type 0 where
  is_open is_flat is_closed : RowStatus

pub record StoredPosition : Type 0 where
  pub id : ℕ
  pub account_id : Text
  pub job_id : Option Text
  pub strategy : Option Text
  pub exchange : Text
  pub tradingsymbol : Text
  pub instrument_token : Option ℕ
  pub product : Text
  pub quantity : ℤ
  pub average_entry_price : Money
  pub cost_basis : Money
  pub realized_pnl : Money
  pub fees : Money
  pub opened_at : Option ℕ
  pub closed_at : Option ℕ
  pub last_fill_at : Option ℕ
  pub status : RowStatus
  pub provenance : Option Text
  pub mark_price : Option Money
  pub unrealized_pnl : Option Money
  pub market_value : Option Money

pub record StoredTrade : Type 0 where
  pub id : ℕ
  pub account_id : Text
  pub job_id : Option Text
  pub decision_id : Option Text
  pub position_id : ℕ
  pub strategy : Option Text
  pub exchange : Text
  pub tradingsymbol : Text
  pub product : Text
  pub direction : PositionDirection
  pub status : RowStatus
  pub entry_qty : ℕ
  pub exit_qty : ℕ
  pub average_entry : Money
  pub average_exit : Option Money
  pub gross_pnl : Money
  pub fees : Money
  pub net_pnl : Money
  pub return_pct : Option ℤ
  pub holding_period_ms : Option ℕ
  pub entry_at : ℕ
  pub exit_at : Option ℕ
  pub exit_reason : Option Text
  pub provenance : Text

pub record PositionEvent : Type 0 where
  pub position_id : ℕ
  pub fill_id : ℕ
  pub event_kind : PositionEventKind
  pub quantity_before : ℤ
  pub quantity_after : ℤ
  pub average_before : Money
  pub average_after : Money
  pub realized_delta : Money
  pub fee_delta : Money
  pub reason : Option Text
  pub occurred_at : ℕ

-- The identifiers of new rows are counted.
pub record Store : Type 0 where
  pub fills : List StoredFill
  pub positions : List StoredPosition
  pub trades : List StoredTrade
  pub events : List PositionEvent
  pub next_fill : ℕ
  pub next_position : ℕ
  pub next_trade : ℕ

-- `rows[0]` of a query
unfoldable pub find {ℓ} : {A : Type ℓ} → (A → Bool) → List A → Option A
find p [] = none
find p (x ∷ xs) = if p x then some x else find p xs

-- `UPDATE … WHERE`
pub update_where {ℓ} : {A : Type ℓ} → (A → Bool) → (A → A) → List A → List A
update_where p f [] = []
update_where p f (x ∷ xs) = (if p x then f x else x) ∷ update_where p f xs
