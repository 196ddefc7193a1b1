-- ===== src/Reconcile/Positions.antt =====
-- lib/trading/reconcile.ts: the positions of the broker against those of the ledger.
pub mod Totals
use cm_desk.Prelude.{
  ℕ, ◌+◌, Bool, true, false, not, ◌&&◌, Option, none, some, is_some, List, [], ◌∷◌, ◌++◌, ltb,
  if◌then◌else◌,
}
use cm_desk.Prelude.Int.{ℤ, pos, abs, ◌+ℤ◌, eqb_ℤ}
use cm_desk.Prelude.Text.{Text, codes, text_eq}
use cm_desk.Money.{
  Money, Result, ok, throw, ◌>>=◌, money_mul_qty, money_material_diff, default_tolerance,
}
use cm_desk.Money.Decimal.{money_to_string}
use cm_desk.Accounting.Rows.{money_from_unknown}
use cm_desk.Types.{is_synthetic_provenance}
use cm_desk.Ledger.{StoredPosition}
use cm_desk.Ledger.Totals.{quotient}

pub data ReconKind : Type 0 where
  unexpected_order missing_order stale_pending position_mismatch avg_price : ReconKind

-- a row of `reconciliationEvents`, without its texts for the reader and its severity
pub record Mismatch : Type 0 where
  pub kind : ReconKind
  pub tradingsymbol : Option Text
  pub exchange : Option Text
  pub product : Option Text
  pub internal_qty : Option ℤ
  pub broker_qty : Option ℤ
  pub internal_avg : Option Text
  pub broker_avg : Option Text
  pub internal_order_id : Option ℕ
  pub broker_order_id : Option Text
  pub resolved : Bool

pub record BrokerPosition : Type 0 where
  pub exchange : Text
  pub tradingsymbol : Text
  pub product : Text
  pub quantity : ℤ
  pub average_price : Option Text

-- the figures of the ledger's rows of one contract
pub record Held : Type 0 where
  pub qty : ℤ
  pub cost : Money
  pub abs_qty : ℕ

abbrev pub contract_key : Text → Text → Text → Text
contract_key exchange tradingsymbol product =
    exchange ++ (codes "|" ++ (tradingsymbol ++ (codes "|" ++ product)))

abbrev pub nothing_held : Held
nothing_held = record { qty = pos 0; cost = pos 0; abs_qty = 0 }

-- `agg.get(key) ?? { qty: 0, cost: 0n, absQty: 0 }`
unfoldable pub held_get : Text → List (Text × Held) → Held
held_get k [] = nothing_held
held_get k ((j, held) ∷ m) = if text_eq j k then held else held_get k m

-- `agg.set(key, held)`
unfoldable pub held_set : Text → Held → List (Text × Held) → List (Text × Held)
held_set k held [] = (k, held) ∷ []
held_set k held ((j, old) ∷ m) = if text_eq j k then (j, held) ∷ m else (j, old) ∷ held_set k held m

abbrev pub position_key : StoredPosition → Text
position_key p = contract_key p.exchange p.tradingsymbol p.product

abbrev pub add_held : StoredPosition → Held → Held
add_held p cur = record {
  qty = cur.qty +ℤ p.quantity;
  cost = cur.cost +ℤ money_mul_qty p.average_entry_price (pos (abs p.quantity));
  abs_qty = cur.abs_qty + abs p.quantity;
}

abbrev pub add_position : StoredPosition → List (Text × Held) → List (Text × Held)
add_position p m =
    if is_synthetic_provenance p.provenance
    then m
    else held_set (position_key p) (add_held p (held_get (position_key p) m)) m

-- the loop over the rows of the ledger
unfoldable pub aggregate : List StoredPosition → List (Text × Held) → List (Text × Held)
aggregate [] m = m
aggregate (p ∷ ps) m = aggregate ps (add_position p m)

abbrev pub broker_key : BrokerPosition → Text
broker_key bp = contract_key bp.exchange bp.tradingsymbol bp.product

abbrev pub position_event : ReconKind → BrokerPosition → Mismatch
position_event kind bp = record {
  kind = kind;
  tradingsymbol = some bp.tradingsymbol;
  exchange = some bp.exchange;
  product = some bp.product;
  internal_qty = none;
  broker_qty = none;
  internal_avg = none;
  broker_avg = none;
  internal_order_id = none;
  broker_order_id = none;
  resolved = false;
}

abbrev pub average_event : Held → BrokerPosition → Text → Money → Option Mismatch
average_event held bp average broker_average =
    let local_average = quotient held.cost (pos held.abs_qty) in
    if money_material_diff local_average broker_average default_tolerance
    then some (record (position_event avg_price bp) {
      internal_avg = some (money_to_string local_average);
      broker_avg = some average;
    })
    else none

-- Equal quantities: the averages are compared, where the broker gives one and something is held.
abbrev pub compare_average : Held → BrokerPosition → Option Text → Result (Option Mismatch)
compare_average held bp none = ok none
compare_average held bp (some average) =
    if ltb 0 held.abs_qty
    then money_from_unknown (some average) >>= (λ b. ok (average_event held bp average b))
    else ok none

unfoldable pub compare_position : List (Text × Held) → BrokerPosition → Result (Option Mismatch)
unfolding held_get
compare_position agg bp =
    let held = held_get (broker_key bp) agg in
    if eqb_ℤ held.qty bp.quantity
    then compare_average held bp bp.average_price
    else ok (
        some (record (position_event position_mismatch bp) {
          internal_qty = some held.qty;
          broker_qty = some bp.quantity;
        }))
