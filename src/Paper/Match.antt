-- ===== src/Paper/Match.antt =====
-- lib/trading/positionMatch.ts: which position row a fill may update.
pub mod Strategies
use cm_desk.Prelude.{
  Bool, true, false, not, Option, none, some, or_else, List, [], ◌∷◌, filter, if◌then◌else◌,
}
use cm_desk.Prelude.Text.{Text, codes, text_eq, opt_text_eq, truthy, is_empty, trim, to_lower}

pub data PositionFillMatch {ℓ} (A : Type ℓ) : Type ℓ where
  use_row : A → PositionFillMatch A
  insert refuse : PositionFillMatch A

-- `(strategy ?? "").trim()`
unfoldable pub strategy_key : Option Text → Text
strategy_key strategy = trim (or_else strategy [])

-- the order of the tests on the rows that are left: the first exact one, a single untagged one, a single
-- tagged one
abbrev pub use_first {ℓ} : {A : Type ℓ} → List A → PositionFillMatch A → PositionFillMatch A
use_first [] rest = rest
use_first (row ∷ rows) rest = use_row row

abbrev pub use_only {ℓ} : {A : Type ℓ} → List A → PositionFillMatch A
use_only (row ∷ []) = use_row row
use_only _ = insert

abbrev pub use_only_tagged {ℓ} : {A : Type ℓ} → List A → PositionFillMatch A
use_only_tagged [] = insert
use_only_tagged (row ∷ []) = use_row row
use_only_tagged _ = refuse

-- `strategy_of` reads the field `strategy` of a row.
module _ {ℓ} {A : Type ℓ} (strategy_of : A → Option Text) (fill_strategy : Option Text) where
  abbrev pub row_key : A → Text
  row_key row = strategy_key (strategy_of row)

  abbrev pub is_exact : A → Bool
  is_exact row = text_eq (row_key row) (strategy_key fill_strategy)

  abbrev pub is_untagged : A → Bool
  is_untagged row = is_empty (row_key row)

  abbrev pub is_tagged : A → Bool
  is_tagged row = not (is_empty (row_key row))

  unfoldable pub match_position_for_fill : List A → PositionFillMatch A
  match_position_for_fill rows = use_first (filter is_exact rows) (
      if not (is_empty (strategy_key fill_strategy))
      then use_only (filter is_untagged rows)
      else use_only_tagged (filter is_tagged rows))

-- The strategy of an order: its own, or Chase by the tag.
unfoldable pub strategy_for_order : Option Text → Option Text → Option Text
strategy_for_order strategy order_tag =
    if truthy strategy
    then strategy
    else if text_eq (to_lower (or_else order_tag [])) (codes "chase")
    then some (codes "CHASE")
    else none
