-- ===== src/Paper/Match/Strategies.antt =====
-- lib/trading/positionMatch.ts: the strategies of a fill and of the row that it updates.
use cm_desk.Prelude.{
  ◌≡◌, ◌⊎◌, inl, inr, refl, subst, Bool, true, false, not, ◌&&◌, ◌==◌, ltb, Option, List, [], ◌∷◌,
  All, filter, length, Bool-cases, arith, if◌then◌else◌,
}
use cm_desk.Prelude.Text.{Text, eq_of_text_eq, is_empty}
use cm_desk.Paper.Match.{
  PositionFillMatch, use_row, insert, refuse, strategy_key, use_first, use_only, use_only_tagged,
  row_key, is_exact, is_untagged, is_tagged, match_position_for_fill,
}

-- What a list that is filtered begins with passes the test, and is one of the list.
filter-first {ℓ κ} :
    {A : Type ℓ} (P : A → Type κ) (p : A → Bool) (xs : List A) (y : A) (ys : List A)
    → filter p xs ≡ y ∷ ys
    → All P xs
    → (p y ≡ true) × P y
filter-first P p [] y ys e all = cc
filter-first P p (x ∷ xs) y ys e (px, all) = elim (Bool-cases (p x)) [
  | inl h ↦
      let found : x ∷ filter p xs ≡ y ∷ ys = rw h at e in
      let same : x ≡ y = cc in subst (λ z. (p z ≡ true) × P z) same (h, px)
  | inr h ↦ filter-first P p xs y ys (rw h at e) all
]

abbrev pub is_refuse {ℓ} : {A : Type ℓ} → PositionFillMatch A → Bool
is_refuse refuse = true
is_refuse _ = false

abbrev pub is_insert {ℓ} : {A : Type ℓ} → PositionFillMatch A → Bool
is_insert insert = true
is_insert _ = false

module _ {ℓ} {A : Type ℓ} where
  -- the three lists that the code filters, and what it makes of them
  abbrev chosen : Bool → List A → List A → List A → PositionFillMatch A
  chosen unnamed exact untagged tagged =
      use_first exact (if not unnamed then use_only untagged else use_only_tagged tagged)

  chosen-refuse :
      (unnamed : Bool) (exact untagged tagged : List A)
      → is_refuse (chosen unnamed exact untagged tagged)
        ≡ (unnamed && length exact == 0 && ltb 1 (length tagged))
  chosen-refuse unnamed (x ∷ exact) untagged tagged = ground arith
  chosen-refuse false [] [] tagged = refl
  chosen-refuse false [] (x ∷ []) tagged = refl
  chosen-refuse false [] (x ∷ y ∷ untagged) tagged = refl
  chosen-refuse true [] untagged [] = ground arith
  chosen-refuse true [] untagged (x ∷ []) = ground arith
  chosen-refuse true [] untagged (x ∷ y ∷ tagged) = ground arith

  chosen-insert :
      (unnamed : Bool) (exact untagged tagged : List A)
      → is_insert (chosen unnamed exact untagged tagged) ≡ (
          length exact == 0 && (if unnamed then length tagged == 0 else not (length untagged == 1)))
  chosen-insert unnamed (x ∷ exact) untagged tagged = ground arith
  chosen-insert false [] [] tagged = ground arith
  chosen-insert false [] (x ∷ []) tagged = ground arith
  chosen-insert false [] (x ∷ y ∷ untagged) tagged = ground arith
  chosen-insert true [] untagged [] = ground arith
  chosen-insert true [] untagged (x ∷ []) = ground arith
  chosen-insert true [] untagged (x ∷ y ∷ tagged) = ground arith

  only-first : (l : List A) (row : A) → use_only l ≡ use_row row → l ≡ row ∷ []
  only-first [] row h = cc
  only-first (x ∷ []) row h = cc
  only-first (x ∷ y ∷ l) row h = cc

  only_tagged-first : (l : List A) (row : A) → use_only_tagged l ≡ use_row row → l ≡ row ∷ []
  only_tagged-first [] row h = cc
  only_tagged-first (x ∷ []) row h = cc
  only_tagged-first (x ∷ y ∷ l) row h = cc

  -- The list that a chosen row stands first in.
  chosen-first :
      (unnamed : Bool) (exact untagged tagged : List A) (row : A)
      → chosen unnamed exact untagged tagged ≡ use_row row
      → ((rest : List A) × (exact ≡ row ∷ rest))
        ⊎ (((unnamed ≡ false) × (untagged ≡ row ∷ [])) ⊎ ((unnamed ≡ true) × (tagged ≡ row ∷ [])))
  chosen-first unnamed (x ∷ exact) untagged tagged row h = inl (exact, cc)
  chosen-first false [] untagged tagged row h = inr (inl (refl, only-first untagged row h))
  chosen-first true [] untagged tagged row h = inr (inr (refl, only_tagged-first tagged row h))

module _ {ℓ} {A : Type ℓ} (strategy_of : A → Option Text) (fill : Option Text) (rows : List A) where
  -- A fill is refused exactly when it names no strategy, no row is without one, and several rows have one; a row is inserted exactly when none is the fill's own, and there is not a single one to claim: an untagged one for a fill with a strategy, any for a fill without.
  pub match_position-outcome :
      let exact = length (filter (is_exact strategy_of fill) rows) in
      let untagged = length (filter (is_untagged strategy_of fill) rows) in
      let tagged = length (filter (is_tagged strategy_of fill) rows) in
      let result = match_position_for_fill strategy_of fill rows in
      let unnamed = is_empty (strategy_key fill) in
      (is_refuse result ≡ (unnamed && exact == 0 && ltb 1 tagged))
      × (is_insert result ≡ (exact == 0 && (if unnamed then tagged == 0 else not (untagged == 1))))
  unfolding match_position_for_fill
  match_position-outcome = (chosen-refuse _ _ _ _, chosen-insert _ _ _ _)

  -- The row that a fill updates is one of the rows, so it has every property that all of them have; and its strategy is the fill's, or one of the two has none: a fill of one named strategy never updates a row of another.
  pub match_position-strategies {κ} :
      (P : A → Type κ) (row : A)
      → All P rows
      → match_position_for_fill strategy_of fill rows ≡ use_row row
      → P row
        × ((row_key strategy_of fill row ≡ strategy_key fill)
            ⊎ ((is_untagged strategy_of fill row ≡ true) ⊎ (is_empty (strategy_key fill) ≡ true)))
  unfolding match_position_for_fill
  match_position-strategies P row all h = elim (chosen-first _ _ _ _ row h) [
    | inl (rest, e) ↦
        let (same, holds) = filter-first P (is_exact strategy_of fill) rows row rest e all in
        (holds, inl (eq_of_text_eq _ _ same))
    | inr (inl (named, e)) ↦
        let (bare, holds) = filter-first P (is_untagged strategy_of fill) rows row [] e all in
        (holds, inr (inl bare))
    | inr (inr (unnamed, e)) ↦
        let (_, holds) = filter-first P (is_tagged strategy_of fill) rows row [] e all in
        (holds, inr (inr unnamed))
  ]
