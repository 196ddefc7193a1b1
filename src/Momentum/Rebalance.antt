-- ===== src/Momentum/Rebalance.antt =====
-- lib/momentum/rebalanceDiff.ts: the difference of two previews of a rebalance.
pub mod Patch
use cm_desk.Prelude.{
  ℕ, zero, suc, Bool, true, false, not, Option, none, some, or_else, is_some, List, [], ◌∷◌, ◌++◌,
  if◌then◌else◌,
}
use cm_desk.Prelude.Int.{ℤ, eqb_ℤ}
use cm_desk.Prelude.Text.{Text, codes, text_eq}

pub record RebalanceOrderLine : Type 0 where
  pub symbol : Text
  pub side : Text
  pub quantity : ℤ

pub record ChangedLine : Type 0 where
  pub symbol : Text
  pub side : Text
  pub from_qty : ℤ
  pub to_qty : ℤ

-- The summary, a text for the reader, is left out.
pub record RebalancePreviewDiff : Type 0 where
  pub added : List RebalanceOrderLine
  pub removed : List RebalanceOrderLine
  pub changed : List ChangedLine
  pub unchanged : ℕ

abbrev pub key_of : Text → Text → Text
key_of side symbol = side ++ codes ":" ++ symbol

abbrev pub order_key : RebalanceOrderLine → Text
order_key row = key_of row.side row.symbol

abbrev pub later_or : Option ℤ → Option ℤ → Option ℤ
later_or (some q) own = some q
later_or none own = own

-- `new Map(rows.map(...))` read at a key: of several rows with that key the last one counts.
unfoldable pub map_get {ℓ} : {A : Type ℓ} → (A → Text) → (A → ℤ) → List A → Text → Option ℤ
map_get key quantity [] k = none
map_get key quantity (row ∷ rows) k =
    later_or (map_get key quantity rows k)
      (if text_eq (key row) k then some (quantity row) else none)

abbrev pub line_map : List RebalanceOrderLine → Text → Option ℤ
line_map = map_get order_key (λ row. row.quantity)

-- one row of the loop over `next`, before the rows after it
abbrev pub sort_row : Option ℤ → RebalanceOrderLine → RebalancePreviewDiff → RebalancePreviewDiff
sort_row none row rest = record rest { added = row ∷ rest.added }
sort_row (some from) row rest =
    if eqb_ℤ from row.quantity
    then record rest { unchanged = suc rest.unchanged }
    else record rest {
      changed =
          record { symbol = row.symbol; side = row.side; from_qty = from; to_qty = row.quantity }
          ∷ rest.changed;
    }

-- the loop over `next`
unfoldable pub sort_rows : List RebalanceOrderLine → List RebalanceOrderLine → RebalancePreviewDiff
sort_rows previous [] = record { added = []; removed = []; changed = []; unchanged = 0 }
sort_rows previous (row ∷ rows) =
    sort_row (line_map previous (order_key row)) row (sort_rows previous rows)

-- the loop over `previous`
unfoldable pub removed_rows :
    List RebalanceOrderLine → List RebalanceOrderLine → List RebalanceOrderLine
removed_rows next [] = []
removed_rows next (row ∷ rows) =
    let rest = removed_rows next rows in
    if is_some (line_map next (order_key row)) then rest else row ∷ rest

unfoldable pub diff_rebalance_preview :
    Option (List RebalanceOrderLine) → List RebalanceOrderLine → RebalancePreviewDiff
diff_rebalance_preview previous next = record (sort_rows (or_else previous []) next) {
  removed = removed_rows next (or_else previous []);
}
