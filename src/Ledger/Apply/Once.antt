-- ===== src/Ledger/Apply/Once.antt =====
-- lib/trading/ledger.ts: calls of `applyFillById` for one fill.
use cm_desk.Prelude.{
  ℕ, ◌==◌, ◌≡◌, ◌⊎◌, inl, inr, refl, sym, ap, subst, ◌∙◌, Bool, true, false, Option, none, some,
  filter, Bool-cases, if◌then◌else◌,
}
use cm_desk.Prelude.Text.{Text}
use cm_desk.Money.{Result, ok, throw, ok_injective}
use cm_desk.Accounting.Fill.{FillApplyResult, apply_fill_to_position}
use cm_desk.Paper.Match.{PositionFillMatch, use_row, insert, refuse, match_position_for_fill}
use cm_desk.Ledger.{StoredFill, StoredPosition, Store, find, update_where}
use cm_desk.Ledger.Trades.Others.{sync_trade-Keeps}
use cm_desk.Ledger.Rows.{find-update_where, find-key}
use cm_desk.Ledger.Apply.{
  same_contract, new_position, start_of, application_of, mark_applied, write_fill, book_fill,
  book_match, state_of, booked, commit, apply_new, row_strategy, apply_found, apply_fill_by_id,
}

pub commit-outcome :
    (s : Store) (o : Option (Result Store))
    → (commit s o ≡ (s, false))
      ⊎ ((after : Store) × (o ≡ some (ok after)) × (commit s o ≡ (after, true)))
unfolding commit
commit-outcome s none = inl refl
commit-outcome s (some (throw e)) = inl refl
commit-outcome s (some (ok after)) = inr (after, refl, refl)

book_result :
    (p : StoredPosition) (fill : StoredFill) (exit_reason : Option Text) (s : Store)
    (r : Result FillApplyResult) (after : Store)
    → apply_fill_to_position (start_of p fill) (application_of fill) ≡ r
    → book_fill p fill exit_reason s ≡ ok after
    → (result : FillApplyResult) × (apply_fill_to_position (start_of p fill) (application_of fill)
        ≡ ok result)
      × (write_fill p fill exit_reason result s ≡ after)
unfolding book_fill
book_result p fill exit_reason s (ok result) after e h = (result, e, ok_injective (rw e at h))
book_result p fill exit_reason s (throw x) after e h = let h' = rw e at h in cc

-- What a committed booking has written.
pub book_fill-written :
    (p : StoredPosition) (fill : StoredFill) (exit_reason : Option Text) (s after : Store)
    → book_fill p fill exit_reason s ≡ ok after
    → (result : FillApplyResult) × (apply_fill_to_position (start_of p fill) (application_of fill)
        ≡ ok result)
      × (write_fill p fill exit_reason result s ≡ after)
book_fill-written p fill exit_reason s after h = book_result p fill exit_reason s _ after refl h

-- The fills of the store after a booking: the fill is marked as applied.
pub write_fill-fills :
    (p : StoredPosition) (fill : StoredFill) (exit_reason : Option Text) (result : FillApplyResult)
    (s : Store)
    → (write_fill p fill exit_reason result s).fills
      ≡ update_where (λ x. x.id == fill.id) mark_applied s.fills
unfolding write_fill
write_fill-fills p fill exit_reason result s =
    ap (update_where (λ x. x.id == fill.id) mark_applied)
      (sync_trade-Keeps p.id (state_of p) result fill exit_reason
        (booked p fill exit_reason result s)).fills

book_fill-fills :
    (p : StoredPosition) (fill : StoredFill) (exit_reason : Option Text) (s after : Store)
    → book_fill p fill exit_reason s ≡ ok after
    → after.fills ≡ update_where (λ x. x.id == fill.id) mark_applied s.fills
book_fill-fills p fill exit_reason s after h =
    let (result, _, e) = book_fill-written p fill exit_reason s after h in
    ap (λ x. x.fills) (sym e) ∙ write_fill-fills p fill exit_reason result s

pub some_ok : {a b : Result Store} → some a ≡ some b → a ≡ b
some_ok e = cc

pub book_match-fills :
    (m : PositionFillMatch StoredPosition) (fill : StoredFill) (exit_reason : Option Text)
    (s after : Store)
    → book_match m fill exit_reason s ≡ some (ok after)
    → after.fills ≡ update_where (λ x. x.id == fill.id) mark_applied s.fills
unfolding book_match
book_match-fills (use_row p) fill exit_reason s after h =
    book_fill-fills p fill exit_reason s after (some_ok h)
book_match-fills insert fill exit_reason s after h =
    book_fill-fills (new_position s.next_position fill) fill exit_reason _ after (some_ok h)
book_match-fills refuse fill exit_reason s after h = cc

-- A fill that is found applied is not booked.
apply_again :
    (fill_id : ℕ) (exit_reason : Option Text) (s : Store) (fill : StoredFill)
    → find (λ f. f.id == fill_id) s.fills ≡ some fill
    → fill.is_applied ≡ true
    → apply_fill_by_id fill_id exit_reason s ≡ (s, false)
unfolding apply_fill_by_id apply_found
apply_again fill_id exit_reason s fill found h = rw (found, h)

pub apply_found-applied :
    (fill : StoredFill) (exit_reason : Option Text) (s : Store)
    → fill.is_applied ≡ true
    → apply_found (some fill) exit_reason s ≡ (s, false)
unfolding apply_found
apply_found-applied fill exit_reason s h =
    ap (λ b. if b then (s, false) else apply_new fill exit_reason s) h

pub apply_found-new :
    (fill : StoredFill) (exit_reason : Option Text) (s : Store)
    → fill.is_applied ≡ false
    → apply_found (some fill) exit_reason s ≡ apply_new fill exit_reason s
unfolding apply_found
apply_found-new fill exit_reason s h =
    ap (λ b. if b then (s, false) else apply_new fill exit_reason s) h

-- A new fill leaves the store, or books what its match says.
pub apply_new-outcome :
    (fill : StoredFill) (exit_reason : Option Text) (s : Store)
    → (apply_new fill exit_reason s ≡ (s, false))
      ⊎ ((after : Store) × (book_match
              (match_position_for_fill row_strategy fill.strategy
                (filter (same_contract fill) s.positions))
              fill
              exit_reason
              s
            ≡ some (ok after))
          × (apply_new fill exit_reason s ≡ (after, true)))
unfolding apply_new
apply_new-outcome fill exit_reason s = commit-outcome s _

-- what the second call finds
OnceAfter : ℕ → Option Text → Store → Store × Bool → Type 0
OnceAfter fill_id later_reason s r =
    (r ≡ (s, false)) ⊎ ((r.1 ≡ true) × (apply_fill_by_id fill_id later_reason r.0 ≡ (r.0, false)))

apply_new-once :
    (fill_id : ℕ) (exit_reason later_reason : Option Text) (s : Store) (fill : StoredFill)
    → find (λ f. f.id == fill_id) s.fills ≡ some fill
    → OnceAfter fill_id later_reason s (apply_new fill exit_reason s)
unfolding OnceAfter
apply_new-once fill_id exit_reason later_reason s fill found =
    elim (apply_new-outcome fill exit_reason s) [
      | inl kept ↦ inl kept
      | inr (after, matched, done) ↦
          let fills =
            book_match-fills _ fill exit_reason s after matched
            ∙ ap (λ k. update_where (λ x. x.id == k) mark_applied s.fills)
                (find-key (λ f. f.id) fill_id s.fills fill found) in
          let marked =
            ap (find (λ f. f.id == fill_id)) fills
            ∙ find-update_where (λ f. f.id) fill_id mark_applied s.fills fill (λ f. refl) found in
          inr (
            ap (λ r. r.1) done,
            subst (λ r. apply_fill_by_id fill_id later_reason r.0 ≡ (r.0, false)) (sym done)
                (apply_again fill_id later_reason after (mark_applied fill) marked refl),
          )
    ]

apply_found-once :
    (fill_id : ℕ) (exit_reason later_reason : Option Text) (s : Store) (o : Option StoredFill)
    → find (λ f. f.id == fill_id) s.fills ≡ o
    → OnceAfter fill_id later_reason s (apply_found o exit_reason s)
apply_found-once fill_id exit_reason later_reason s none found =
    unfold OnceAfter apply_found in inl refl
apply_found-once fill_id exit_reason later_reason s (some fill) found =
    elim (Bool-cases fill.is_applied) [
      | inl h ↦ unfold OnceAfter in inl (apply_found-applied fill exit_reason s h)
      | inr h ↦
          subst (OnceAfter fill_id later_reason s) (sym (apply_found-new fill exit_reason s h))
            (apply_new-once fill_id exit_reason later_reason s fill found)
    ]

-- A call of `applyFillById` that returns false leaves the store as it was. After one that returns true, every further call for that fill returns false and leaves the store as it is: a fill is booked once.
pub apply_fill-once :
    (fill_id : ℕ) (exit_reason later_reason : Option Text) (s : Store)
    → let r = apply_fill_by_id fill_id exit_reason s in
      (r ≡ (s, false)) ⊎ ((r.1 ≡ true) × (apply_fill_by_id fill_id later_reason r.0 ≡ (r.0, false)))
unfolding apply_fill_by_id OnceAfter
apply_fill-once fill_id exit_reason later_reason s =
    apply_found-once fill_id exit_reason later_reason s _ refl
