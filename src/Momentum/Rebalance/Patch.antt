-- ===== src/Momentum/Rebalance/Patch.antt =====
-- lib/momentum/rebalanceDiff.ts: the earlier preview and its difference give the later one.
use cm_desk.Prelude.{
  ◌≡◌, refl, subst, ap, ◌∙◌, Bool, true, false, not, ◌&&◌, Option, none, some, or_else, is_some,
  List, [], ◌∷◌, Bool-cases, inl, inr, if◌then◌else◌,
}
use cm_desk.Prelude.Int.{ℤ, eqb_ℤ, eq_of_eqb_ℤ}
use cm_desk.Prelude.Text.{Text, text_eq, text_eq_refl, eq_of_text_eq}
use cm_desk.Momentum.Rebalance.{
  RebalanceOrderLine, ChangedLine, RebalancePreviewDiff, key_of, order_key, later_or, map_get,
  line_map, sort_row, sort_rows, removed_rows, diff_rebalance_preview,
}

abbrev changed_key : ChangedLine → Text
changed_key row = key_of row.side row.symbol

abbrev pub changed_map : List ChangedLine → Text → Option ℤ
changed_map = map_get changed_key (λ row. row.to_qty)

-- No two rows have the same side and symbol.
unfoldable pub DistinctKeys : List RebalanceOrderLine → Type 0
DistinctKeys [] = Unit
DistinctKeys (row ∷ rows) = (line_map rows (order_key row) ≡ none) × DistinctKeys rows

-- an added quantity, else a changed one, else nothing for a removed row, else what was there
abbrev pub settle : Option ℤ → Option ℤ → Bool → Option ℤ → Option ℤ
settle (some q) changed gone before = some q
settle none (some q) gone before = some q
settle none none gone before = if gone then none else before

-- the quantity at a key after a difference is applied to what was there
abbrev pub patched : RebalancePreviewDiff → Option ℤ → Text → Option ℤ
patched d before k =
    settle (line_map d.added k) (changed_map d.changed k) (is_some (line_map d.removed k)) before

later_or-none : (g : Option ℤ) → later_or g none ≡ g
later_or-none none = refl
later_or-none (some q) = refl

later_or-absent : (g own : Option ℤ) → later_or g own ≡ none → (own ≡ none) × (g ≡ none)
later_or-absent none own h = (h, refl)
later_or-absent (some q) own h = absurd (cc)

module _ {ℓ} {A : Type ℓ} (key : A → Text) (quantity : A → ℤ) where
  map_get-other :
      (row : A) (rows : List A) (k : Text)
      → text_eq (key row) k ≡ false
      → map_get key quantity (row ∷ rows) k ≡ map_get key quantity rows k
  unfolding map_get
  map_get-other row rows k h = rw h (later_or-none (map_get key quantity rows k))

  map_get-own :
      (row : A) (rows : List A)
      → map_get key quantity rows (key row) ≡ none
      → map_get key quantity (row ∷ rows) (key row) ≡ some (quantity row)
  unfolding map_get
  map_get-own row rows h = rw (h, text_eq_refl (key row)) refl

  map_get-absent :
      (row : A) (rows : List A) (k : Text)
      → map_get key quantity (row ∷ rows) k ≡ none
      → (text_eq (key row) k ≡ false) × (map_get key quantity rows k ≡ none)
  unfolding map_get
  map_get-absent row rows k h =
      let split = later_or-absent (map_get key quantity rows k) _ h in
      elim (Bool-cases (text_eq (key row) k)) [
        | inl own ↦ let some_none : some (quantity row) ≡ none = rw own at split.0 in absurd (cc)
        | inr other ↦ (other, split.1)
      ]

sort_row-other :
    (g : Option ℤ) (row : RebalanceOrderLine) (rest : RebalancePreviewDiff) (k : Text)
    → text_eq (order_key row) k ≡ false
    → (line_map (sort_row g row rest).added k ≡ line_map rest.added k)
      × (changed_map (sort_row g row rest).changed k ≡ changed_map rest.changed k)
sort_row-other none row rest k h = (map_get-other _ _ row rest.added k h, refl)
sort_row-other (some q) row rest k h = elim (Bool-cases (eqb_ℤ q row.quantity)) [
  | inl e ↦ rw e (refl, refl)
  | inr e ↦ rw e (refl, map_get-other _ _ _ rest.changed k h)
]

-- Rows of other keys add and change nothing at a key.
sort_rows-absent :
    (p rows : List RebalanceOrderLine) (k : Text)
    → line_map rows k ≡ none
    → (line_map (sort_rows p rows).added k ≡ none)
      × (changed_map (sort_rows p rows).changed k ≡ none)
unfolding sort_rows map_get
sort_rows-absent p [] k h = (refl, refl)
sort_rows-absent p (row ∷ rows) k h =
    let split = map_get-absent _ _ row rows k h in
    let deeper = sort_rows-absent p rows k split.1 in
    let same = sort_row-other (line_map p (order_key row)) row (sort_rows p rows) k split.0 in
    (same.0 ∙ deeper.0, same.1 ∙ deeper.1)

settle-nil :
    (p : List RebalanceOrderLine) (k : Text)
    → settle
        (line_map (sort_rows p []).added k)
        (changed_map (sort_rows p []).changed k)
        (not (is_some (line_map [] k)))
        (line_map p k)
      ≡ line_map [] k
unfolding sort_rows map_get
settle-nil p k = refl

-- At its own key a row settles its quantity.
sort_row-own :
    (g : Option ℤ) (row : RebalanceOrderLine) (rest : RebalancePreviewDiff)
    → line_map rest.added (order_key row) ≡ none
    → changed_map rest.changed (order_key row) ≡ none
    → settle
        (line_map (sort_row g row rest).added (order_key row))
        (changed_map (sort_row g row rest).changed (order_key row))
        false
        g
      ≡ some row.quantity
sort_row-own none row rest a c = rw (map_get-own _ _ row rest.added a) refl
sort_row-own (some q) row rest a c = elim (Bool-cases (eqb_ℤ q row.quantity)) [
  | inl e ↦ rw (e, a, c) (ap some (eq_of_eqb_ℤ q row.quantity e))
  | inr e ↦
      let one : ChangedLine = record {
        symbol = row.symbol;
        side = row.side;
        from_qty = q;
        to_qty = row.quantity;
      } in
      rw (e, a, map_get-own changed_key (λ z. z.to_qty) one rest.changed c) refl
]

settle-other :
    (p rows : List RebalanceOrderLine) (row : RebalanceOrderLine) (k : Text)
    → text_eq (order_key row) k ≡ false
    → settle
        (line_map (sort_rows p rows).added k)
        (changed_map (sort_rows p rows).changed k)
        (not (is_some (line_map rows k)))
        (line_map p k)
      ≡ line_map rows k
    → settle
        (line_map (sort_rows p (row ∷ rows)).added k)
        (changed_map (sort_rows p (row ∷ rows)).changed k)
        (not (is_some (line_map (row ∷ rows) k)))
        (line_map p k)
      ≡ line_map (row ∷ rows) k
unfolding sort_rows
settle-other p rows row k h before =
    let same = sort_row-other (line_map p (order_key row)) row (sort_rows p rows) k h in
    rw (same.0, same.1, map_get-other _ _ row rows k h) before

settle-own :
    (p rows : List RebalanceOrderLine) (row : RebalanceOrderLine)
    → line_map rows (order_key row) ≡ none
    → settle
        (line_map (sort_rows p (row ∷ rows)).added (order_key row))
        (changed_map (sort_rows p (row ∷ rows)).changed (order_key row))
        (not (is_some (line_map (row ∷ rows) (order_key row))))
        (line_map p (order_key row))
      ≡ line_map (row ∷ rows) (order_key row)
unfolding sort_rows
settle-own p rows row fresh =
    let absent = sort_rows-absent p rows (order_key row) fresh in
    rw (map_get-own _ _ row rows fresh)
      (sort_row-own (line_map p (order_key row)) row (sort_rows p rows) absent.0 absent.1)

sort_rows-settle :
    (p rows : List RebalanceOrderLine) (k : Text)
    → DistinctKeys rows
    → settle
        (line_map (sort_rows p rows).added k)
        (changed_map (sort_rows p rows).changed k)
        (not (is_some (line_map rows k)))
        (line_map p k)
      ≡ line_map rows k
unfolding DistinctKeys
sort_rows-settle p [] k d = settle-nil p k
sort_rows-settle p (row ∷ rows) k (fresh, d) = elim (Bool-cases (text_eq (order_key row) k)) [
  | inl own ↦
      subst
        (λ z.
          settle (line_map (sort_rows p (row ∷ rows)).added z)
            (changed_map (sort_rows p (row ∷ rows)).changed z)
            (not (is_some (line_map (row ∷ rows) z))) (line_map p z)
          ≡ line_map (row ∷ rows) z)
        (eq_of_text_eq (order_key row) k own) (settle-own p rows row fresh)
  | inr h ↦ settle-other p rows row k h (sort_rows-settle p rows k d)
]

and_false : (b : Bool) → (b && false) ≡ false
and_false true = refl
and_false false = refl

later_or-own : (g : Option ℤ) (q : ℤ) → is_some (later_or g (some q)) ≡ true
later_or-own none q = refl
later_or-own (some r) q = refl

removed-own :
    (next rows : List RebalanceOrderLine) (row : RebalanceOrderLine)
    → is_some (line_map (removed_rows next rows) (order_key row))
      ≡ (is_some (line_map rows (order_key row)) && not (is_some (line_map next (order_key row))))
    → is_some (line_map (removed_rows next (row ∷ rows)) (order_key row)) ≡ (
        is_some (line_map (row ∷ rows) (order_key row))
        && not (is_some (line_map next (order_key row))))
unfolding removed_rows map_get
removed-own next rows row before = elim (Bool-cases (is_some (line_map next (order_key row)))) [
  | inl kept ↦
      rw
        (
          kept,
          text_eq_refl (order_key row),
          later_or-own (line_map rows (order_key row)) row.quantity,
        )
        (before ∙ rw kept (and_false (is_some (line_map rows (order_key row)))))
  | inr gone ↦
      rw
        (
          gone,
          text_eq_refl (order_key row),
          later_or-own (line_map rows (order_key row)) row.quantity,
          later_or-own (line_map (removed_rows next rows) (order_key row)) row.quantity,
        )
        refl
]

-- A row of the earlier preview is removed exactly when the later one has no row of its key.
removed_rows-get :
    (next rows : List RebalanceOrderLine) (k : Text)
    → is_some (line_map (removed_rows next rows) k)
      ≡ (is_some (line_map rows k) && not (is_some (line_map next k)))
unfolding removed_rows map_get
removed_rows-get next [] k = refl
removed_rows-get next (row ∷ rows) k = elim (Bool-cases (text_eq (order_key row) k)) [
  | inl own ↦
      let same : order_key row ≡ k = eq_of_text_eq (order_key row) k own in
      subst
        (λ z.
          is_some (line_map (removed_rows next (row ∷ rows)) z)
          ≡ (is_some (line_map (row ∷ rows) z) && not (is_some (line_map next z))))
        same (removed-own next rows row (removed_rows-get next rows (order_key row)))
  | inr h ↦ elim (Bool-cases (is_some (line_map next (order_key row)))) [
    | inl kept ↦ rw (kept, h, later_or-none (line_map rows k)) (removed_rows-get next rows k)
    | inr gone ↦
        rw
          (
            gone,
            h,
            later_or-none (line_map rows k),
            later_or-none (line_map (removed_rows next rows) k),
          )
          (removed_rows-get next rows k)
  ]
]

settle-gone :
    (a c : Option ℤ) (before : Option ℤ) (kept : Bool)
    → settle a c (is_some before && not kept) before ≡ settle a c (not kept) before
settle-gone (some q) c before kept = refl
settle-gone none (some q) before kept = refl
settle-gone none none none true = refl
settle-gone none none none false = refl
settle-gone none none (some q) kept = refl

-- The earlier preview and the difference give the later one, in which no two rows have the same side and
-- symbol: at every key the added quantity, else the changed one, else nothing for a removed row, else the
-- earlier quantity, is the quantity of the later preview.
pub diff-patched :
    (previous : Option (List RebalanceOrderLine)) (next : List RebalanceOrderLine) (k : Text)
    → DistinctKeys next
    → patched (diff_rebalance_preview previous next) (line_map (or_else previous []) k) k
      ≡ line_map next k
unfolding diff_rebalance_preview
diff-patched previous next k d =
    rw
      (
        removed_rows-get next (or_else previous []) k,
        settle-gone _ _ (line_map (or_else previous []) k) (is_some (line_map next k)),
      )
      (sort_rows-settle (or_else previous []) next k d)
