-- ===== src/Ledger/Apply/Invariant.antt =====
-- lib/trading/ledger.ts: every call of `applyFillById` and the quantities of the ledger.
use cm_desk.Prelude.{
  ℕ, ◌==◌, ◌<◌, ◌≡◌, inl, inr, refl, sym, subst, ◌∙◌, false, Option, none, some, [], ◌∷◌, ◌++◌, All,
  filter, Bool-cases, arith,
}
use cm_desk.Prelude.Int.{add_zero}
use cm_desk.Prelude.Text.{Text}
use cm_desk.Money.{ok}
use cm_desk.Paper.Match.{PositionFillMatch, use_row, insert, refuse, match_position_for_fill}
use cm_desk.Paper.Match.Strategies.{match_position-strategies}
use cm_desk.Ledger.{StoredFill, StoredPosition, Store, find}
use cm_desk.Ledger.Rows.{
  total-append, Differs, All-filter, All-append, All-map, find-added, find-key, Distinct-added,
  Distinct-find,
}
use cm_desk.Ledger.Apply.{
  same_contract, new_position, book_fill, with_position, book_match, row_strategy, apply_new,
  apply_found, apply_fill_by_id,
}
use cm_desk.Ledger.Apply.Once.{
  book_fill-written, apply_found-applied, apply_found-new, apply_new-outcome, some_ok,
}
use cm_desk.Ledger.Apply.Balance.{IsBalanced, position_qty, write_fill-IsBalanced}

book_fill-IsBalanced :
    (p : StoredPosition) (fill : StoredFill) (exit_reason : Option Text) (s after : Store)
    → IsBalanced s
    → find (λ x. x.id == p.id) s.positions ≡ some p
    → find (λ x. x.id == fill.id) s.fills ≡ some fill
    → fill.is_applied ≡ false
    → book_fill p fill exit_reason s ≡ ok after
    → IsBalanced after
book_fill-IsBalanced p fill exit_reason s after balanced position_found fill_found new h =
    let (result, accepted, e) = book_fill-written p fill exit_reason s after h in
    subst IsBalanced e (
      write_fill-IsBalanced p fill exit_reason result s balanced position_found fill_found new
        accepted)

below-Differs : (n : ℕ) (p : StoredPosition) → p.id < n → Differs (λ x. x.id) n p
below-Differs n p h = ground arith

module _ (s : Store) (fill : StoredFill) where
  abbrev added : StoredPosition
  added = new_position s.next_position fill

  no_such_id : IsBalanced s → All (Differs (λ x. x.id) s.next_position) s.positions
  no_such_id balanced = All-map _ _ s.positions (below-Differs s.next_position) balanced.new_id

  with_position-IsBalanced : IsBalanced s → IsBalanced (with_position added s)
  with_position-IsBalanced balanced = record {
    fill_ids = balanced.fill_ids;
    position_ids =
        Distinct-added (λ x. x.id) s.positions added balanced.position_ids (no_such_id balanced);
    new_id =
        All-append _ s.positions (added ∷ [])
          (All-map _ _ s.positions (λ p h. omega arith) balanced.new_id) (omega arith, tt);
    balance = total-append position_qty s.positions added ∙ add_zero _ ∙ balanced.balance;
  }

  added-found :
      IsBalanced s → find (λ x. x.id == s.next_position) (s.positions ++ (added ∷ [])) ≡ some added
  added-found balanced =
      find-added (λ x. x.id) s.next_position s.positions added (no_such_id balanced) refl

-- The row that a match uses is found by its identifier.
used-found :
    (s : Store) (fill : StoredFill) (p : StoredPosition)
    → IsBalanced s
    → match_position_for_fill row_strategy fill.strategy (filter (same_contract fill) s.positions)
      ≡ use_row p
    → find (λ x. x.id == p.id) s.positions ≡ some p
used-found s fill p balanced h =
    (match_position-strategies row_strategy fill.strategy (filter (same_contract fill) s.positions)
      (λ row. find (λ x. x.id == row.id) s.positions ≡ some row) p
      (All-filter _ (same_contract fill) s.positions
        (Distinct-find (λ x. x.id) s.positions balanced.position_ids))
      h).0

book_match-IsBalanced :
    (m : PositionFillMatch StoredPosition) (fill : StoredFill) (exit_reason : Option Text)
    (s after : Store)
    → IsBalanced s
    → ((p : StoredPosition) → m ≡ use_row p → find (λ x. x.id == p.id) s.positions ≡ some p)
    → find (λ x. x.id == fill.id) s.fills ≡ some fill
    → fill.is_applied ≡ false
    → book_match m fill exit_reason s ≡ some (ok after)
    → IsBalanced after
unfolding book_match
book_match-IsBalanced (use_row p) fill exit_reason s after balanced used fill_found new h =
    book_fill-IsBalanced p fill exit_reason s after balanced (used p refl) fill_found new
      (some_ok h)
book_match-IsBalanced insert fill exit_reason s after balanced used fill_found new h =
    book_fill-IsBalanced (added s fill) fill exit_reason (with_position (added s fill) s) after
      (with_position-IsBalanced s fill balanced) (added-found s fill balanced) fill_found new
      (some_ok h)
book_match-IsBalanced refuse fill exit_reason s after balanced used fill_found new h = cc

apply_new-IsBalanced :
    (fill : StoredFill) (exit_reason : Option Text) (s : Store)
    → IsBalanced s
    → find (λ x. x.id == fill.id) s.fills ≡ some fill
    → fill.is_applied ≡ false
    → IsBalanced (apply_new fill exit_reason s).0
apply_new-IsBalanced fill exit_reason s balanced fill_found new =
    elim (apply_new-outcome fill exit_reason s) [
      | inl kept ↦ subst (λ r. IsBalanced r.0) (sym kept) balanced
      | inr (after, matched, done) ↦
          subst (λ r. IsBalanced r.0) (sym done)
            (book_match-IsBalanced _ fill exit_reason s after balanced
              (λ p e. used-found s fill p balanced e) fill_found new matched)
    ]

apply_found-IsBalanced :
    (fill_id : ℕ) (exit_reason : Option Text) (s : Store) (o : Option StoredFill)
    → IsBalanced s
    → find (λ f. f.id == fill_id) s.fills ≡ o
    → IsBalanced (apply_found o exit_reason s).0
apply_found-IsBalanced fill_id exit_reason s none balanced found = unfold apply_found in balanced
apply_found-IsBalanced fill_id exit_reason s (some fill) balanced found =
    elim (Bool-cases fill.is_applied) [
      | inl h ↦
          subst (λ r. IsBalanced r.0) (sym (apply_found-applied fill exit_reason s h)) balanced
      | inr h ↦
          let key = find-key (λ f. f.id) fill_id s.fills fill found in
          let own = subst (λ k. find (λ f. f.id == k) s.fills ≡ some fill) (sym key) found in
          subst (λ r. IsBalanced r.0) (sym (apply_found-new fill exit_reason s h))
            (apply_new-IsBalanced fill exit_reason s balanced own h)
    ]

-- In a ledger with distinct identifiers whose positions hold, in sum, what its applied fills have moved, both stay so through every call of `applyFillById`, whatever it does: book into a row, insert one, refuse or roll back.
pub apply_fill-IsBalanced :
    (fill_id : ℕ) (exit_reason : Option Text) (s : Store)
    → IsBalanced s
    → IsBalanced (apply_fill_by_id fill_id exit_reason s).0
unfolding apply_fill_by_id
apply_fill-IsBalanced fill_id exit_reason s balanced =
    apply_found-IsBalanced fill_id exit_reason s _ balanced refl
