-- ===== src/Ledger/Apply/Fills.antt =====
-- lib/trading/ledger.ts: the rows of fills under `applyFillById`.
use cm_desk.Prelude.{
  ℕ, ◌==◌, ◌≡◌, ◌⊎◌, inl, inr, refl, sym, subst, Option, none, some, All, Bool-cases,
}
use cm_desk.Prelude.Text.{Text}
use cm_desk.Money.{ok}
use cm_desk.Accounting.Fill.{FillApplyResult}
use cm_desk.Paper.Match.{PositionFillMatch, use_row, insert, refuse}
use cm_desk.Ledger.{StoredFill, StoredPosition, Store, update_where}
use cm_desk.Ledger.Rows.{All-update_where}
use cm_desk.Ledger.Trades.Others.{sync_trade-Keeps}
use cm_desk.Ledger.Apply.{
  new_position, state_of, booked, mark_applied, write_fill, book_fill, book_match, with_position,
  apply_found, apply_fill_by_id, apply_new,
}
use cm_desk.Ledger.Apply.Once.{
  some_ok, book_fill-written, write_fill-fills, apply_found-applied, apply_found-new,
  apply_new-outcome,
}

-- The fills of one store are those of the other, but for one that may be marked as applied.
pub record Marks (s t : Store) : Type 0 where
  pub next_fill : t.next_fill ≡ s.next_fill
  pub fills :
      (t.fills ≡ s.fills)
      ⊎ ((k : ℕ) × (t.fills ≡ update_where (λ x. x.id == k) mark_applied s.fills))

same-Marks : (s : Store) → Marks s s
same-Marks s = record { next_fill = refl; fills = inl refl }

write_fill-Marks :
    (p : StoredPosition) (fill : StoredFill) (exit_reason : Option Text) (result : FillApplyResult)
    (s : Store)
    → Marks s (write_fill p fill exit_reason result s)
unfolding write_fill
write_fill-Marks p fill exit_reason result s = record {
  next_fill =
      (sync_trade-Keeps p.id (state_of p) result fill exit_reason
        (booked p fill exit_reason result s)).next_fill;
  fills = inr (fill.id, write_fill-fills p fill exit_reason result s);
}

book_fill-Marks :
    (p : StoredPosition) (fill : StoredFill) (exit_reason : Option Text) (s after : Store)
    → book_fill p fill exit_reason s ≡ ok after
    → Marks s after
book_fill-Marks p fill exit_reason s after h =
    let (result, _, e) = book_fill-written p fill exit_reason s after h in
    subst (Marks s) e (write_fill-Marks p fill exit_reason result s)

with_position-Marks : (p : StoredPosition) (s t : Store) → Marks (with_position p s) t → Marks s t
with_position-Marks p s t m = record { next_fill = m.next_fill; fills = m.fills }

book_match-Marks :
    (m : PositionFillMatch StoredPosition) (fill : StoredFill) (exit_reason : Option Text)
    (s after : Store)
    → book_match m fill exit_reason s ≡ some (ok after)
    → Marks s after
unfolding book_match
book_match-Marks (use_row p) fill exit_reason s after h =
    book_fill-Marks p fill exit_reason s after (some_ok h)
book_match-Marks insert fill exit_reason s after h =
    let p = new_position s.next_position fill in
    with_position-Marks p s after (book_fill-Marks p fill exit_reason _ after (some_ok h))
book_match-Marks refuse fill exit_reason s after h = absurd (cc)

apply_new-Marks :
    (fill : StoredFill) (exit_reason : Option Text) (s : Store)
    → Marks s (apply_new fill exit_reason s).0
apply_new-Marks fill exit_reason s = elim (apply_new-outcome fill exit_reason s) [
  | inl kept ↦ subst (λ r. Marks s r.0) (sym kept) (same-Marks s)
  | inr (after, matched, done) ↦
      subst (λ r. Marks s r.0) (sym done) (book_match-Marks _ fill exit_reason s after matched)
]

apply_found-Marks :
    (o : Option StoredFill) (exit_reason : Option Text) (s : Store)
    → Marks s (apply_found o exit_reason s).0
apply_found-Marks none exit_reason s = unfold apply_found in same-Marks s
apply_found-Marks (some fill) exit_reason s = elim (Bool-cases fill.is_applied) [
  | inl h ↦ subst (λ r. Marks s r.0) (sym (apply_found-applied fill exit_reason s h)) (same-Marks s)
  | inr h ↦
      subst (λ r. Marks s r.0) (sym (apply_found-new fill exit_reason s h))
        (apply_new-Marks fill exit_reason s)
]

pub apply_fill-Marks :
    (fill_id : ℕ) (exit_reason : Option Text) (s : Store)
    → Marks s (apply_fill_by_id fill_id exit_reason s).0
unfolding apply_fill_by_id
apply_fill-Marks fill_id exit_reason s = apply_found-Marks _ exit_reason s

module _ (s t : Store) (m : Marks s t) where
  pub Marks-All :
      (P : StoredFill → Type 0)
      → ((f : StoredFill) → P f → P (mark_applied f))
      → All P s.fills
      → All P t.fills
  Marks-All P keeps all = elim m.fills [
    | inl same ↦ rw same all
    | inr (k, e) ↦
        rw e (All-update_where (λ f. f.id) P (λ x. x.id == k) mark_applied s.fills keeps all)
  ]
