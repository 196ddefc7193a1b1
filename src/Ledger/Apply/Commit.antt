-- ===== src/Ledger/Apply/Commit.antt =====
-- lib/trading/ledger.ts: the fills that `applyFillById` books.
use cm_desk.Prelude.{
  ℕ, suc, ◌==◌, ◌≡◌, refl, ap, ap₂, sym, ◌∙◌, true, false, Option, some, filter, inl, inr,
  if◌then◌else◌,
}
use cm_desk.Prelude.Int.{ℤ, pos, pos_part, neg_part, ◌+ℤ◌, ◌*ℤ◌, int_laws}
use cm_desk.Prelude.Text.{Text}
use cm_desk.Money.{ok}
use cm_desk.Accounting.Fill.Kind.{apply_fill-Accounts}
use cm_desk.Accounting.Fill.{whole}
use cm_desk.Paper.Match.{PositionFillMatch, use_row, insert, refuse, match_position_for_fill}
use cm_desk.Paper.Match.Strategies.{is_refuse}
use cm_desk.Ledger.{StoredFill, StoredPosition, Store, find, update_where}
use cm_desk.Ledger.Apply.{
  same_contract, new_position, start_of, mark_applied, application_of, book_fill, book_match,
  write_fill, commit, row_strategy, apply_new, apply_found, apply_fill_by_id,
}
use cm_desk.Ledger.Apply.Once.{apply_found-new, apply_new-outcome, book_match-fills}
use cm_desk.Ledger.Rows.{total, Distinct, total-update_where, find-key, find-update_where}
use cm_desk.Ledger.Apply.Balance.{IsBalanced, applied_qty, position_qty}
use cm_desk.Ledger.Apply.Invariant.{apply_fill-IsBalanced}
use cm_desk.Types.{side_sign}

book_fill-ok :
    (p : StoredPosition) (fill : StoredFill) (exit_reason : Option Text) (s : Store) (n : ℕ)
    → fill.quantity ≡ pos (suc n)
    → (after : Store) × (book_fill p fill exit_reason s ≡ ok after)
unfolding book_fill
book_fill-ok p fill exit_reason s n e =
    let (result, accepted, _, _, _) =
      apply_fill-Accounts (start_of p fill) (application_of fill) n (ap whole e) in
    (write_fill p fill exit_reason result s, rw accepted refl)

book_match-ok :
    (m : PositionFillMatch StoredPosition) (fill : StoredFill) (exit_reason : Option Text)
    (s : Store) (n : ℕ)
    → fill.quantity ≡ pos (suc n)
    → is_refuse m ≡ false
    → (after : Store) × (book_match m fill exit_reason s ≡ some (ok after))
unfolding book_match
book_match-ok (use_row p) fill exit_reason s n e kept =
    let (after, h) = book_fill-ok p fill exit_reason s n e in (after, ap some h)
book_match-ok insert fill exit_reason s n e kept =
    let (after, h) = book_fill-ok (new_position s.next_position fill) fill exit_reason _ n e in
    (after, ap some h)
book_match-ok refuse fill exit_reason s n e kept = cc

apply_new-ok :
    (fill : StoredFill) (exit_reason : Option Text) (s : Store) (n : ℕ)
    → fill.quantity ≡ pos (suc n)
    → is_refuse (
        match_position_for_fill row_strategy fill.strategy
          (filter (same_contract fill) s.positions))
      ≡ false
    → (apply_new fill exit_reason s).1 ≡ true
unfolding apply_new commit
apply_new-ok fill exit_reason s n e kept =
    let (after, h) = book_match-ok _ fill exit_reason s n e kept in ap (λ o. (commit s o).1) h

apply_fill-new :
    (fill_id : ℕ) (exit_reason : Option Text) (s : Store) (fill : StoredFill)
    → find (λ f. f.id == fill_id) s.fills ≡ some fill
    → fill.is_applied ≡ false
    → apply_fill_by_id fill_id exit_reason s ≡ apply_new fill exit_reason s
unfolding apply_fill_by_id
apply_fill-new fill_id exit_reason s fill found new =
    ap (λ o. apply_found o exit_reason s) found ∙ apply_found-new fill exit_reason s new

-- The fills after a booking that returns true.
committed-fills :
    (fill : StoredFill) (exit_reason : Option Text) (s : Store)
    → (apply_new fill exit_reason s).1 ≡ true
    → (apply_new fill exit_reason s).0.fills
      ≡ update_where (λ x. x.id == fill.id) mark_applied s.fills
committed-fills fill exit_reason s h = elim (apply_new-outcome fill exit_reason s) [
  | inl kept ↦
      let refused : (apply_new fill exit_reason s).1 ≡ false = ap (λ r. r.1) kept in absurd (cc)
  | inr (after, matched, done) ↦
      ap (λ r. r.0.fills) done ∙ book_match-fills _ fill exit_reason s after matched
]

-- the quantity that a marked fill brings
marked_sum : (all all' q moved : ℤ) → q ≡ pos 0 → all' +ℤ q ≡ all +ℤ moved → all' ≡ all +ℤ moved
marked_sum all all' q moved e h = omega (
  int_laws,
  ap (λ z. pos_part z) e,
  ap (λ z. neg_part z) e,
  ap (λ z. pos_part z) h,
  ap (λ z. neg_part z) h,
)

applied-total :
    (s : Store) (fill : StoredFill) (k : ℕ)
    → Distinct (λ f. f.id) s.fills
    → find (λ f. f.id == k) s.fills ≡ some fill
    → fill.is_applied ≡ false
    → total applied_qty (update_where (λ x. x.id == k) mark_applied s.fills)
      ≡ total applied_qty s.fills +ℤ side_sign fill.side *ℤ fill.quantity
applied-total s fill k distinct found new =
    marked_sum _ _ (applied_qty fill) _
      (ap (λ b. if b then side_sign fill.side *ℤ fill.quantity else pos 0) new)
      (total-update_where (λ f. f.id) applied_qty k mark_applied s.fills fill distinct found)

-- A fill of a balanced ledger that is not yet applied, of a positive quantity, is booked, unless the match of
-- its strategy with the rows of its contract refuses it: the call returns true, the fill is then found
-- applied, and the positions hold in sum what they held and the signed quantity of the fill.
pub apply_fill-commits :
    (fill_id : ℕ) (exit_reason : Option Text) (s : Store) (fill : StoredFill) (n : ℕ)
    → IsBalanced s
    → find (λ f. f.id == fill_id) s.fills ≡ some fill
    → fill.is_applied ≡ false
    → fill.quantity ≡ pos (suc n)
    → is_refuse (
        match_position_for_fill row_strategy fill.strategy
          (filter (same_contract fill) s.positions))
      ≡ false
    → let r = apply_fill_by_id fill_id exit_reason s in
      (r.1 ≡ true)
      × (find (λ f. f.id == fill_id) r.0.fills ≡ some (record fill { is_applied = true }))
      × (total position_qty r.0.positions
          ≡ total position_qty s.positions +ℤ side_sign fill.side *ℤ pos (suc n))
apply_fill-commits fill_id exit_reason s fill n balanced found new e kept =
    let same = apply_fill-new fill_id exit_reason s fill found new in
    let done = apply_new-ok fill exit_reason s n e kept in
    let fills =
      ap (λ r. r.0.fills) same
      ∙ committed-fills fill exit_reason s done
      ∙ ap (λ k. update_where (λ x. x.id == k) mark_applied s.fills)
          (find-key (λ f. f.id) fill_id s.fills fill found) in
    (
      ap (λ r. r.1) same ∙ done,
      ap (find (λ f. f.id == fill_id)) fills
          ∙ find-update_where (λ f. f.id) fill_id mark_applied s.fills fill (λ f. refl) found,
      (apply_fill-IsBalanced fill_id exit_reason s balanced).balance
          ∙ ap (total applied_qty) fills
          ∙ applied-total s fill fill_id balanced.fill_ids found new
          ∙ ap₂ (λ a q. a +ℤ side_sign fill.side *ℤ q) (sym balanced.balance) e,
    )
