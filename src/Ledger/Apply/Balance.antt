-- ===== src/Ledger/Apply/Balance.antt =====
-- lib/trading/ledger.ts: the quantities of the positions and of the fills that were applied.
use cm_desk.Prelude.{
  zero, suc, ◌==◌, ◌<◌, ◌≡◌, refl, sym, ap, subst, ◌∙◌, false, Option, some, All, arith,
  if◌then◌else◌,
}
use cm_desk.Prelude.Int.{ℤ, pos, negsuc, pos_part, neg_part, ◌+ℤ◌, ◌*ℤ◌, int_laws, eq_of_eqb_ℤ}
use cm_desk.Prelude.Text.{Text}
use cm_desk.Money.{ok, ok_injective}
use cm_desk.Types.{side_sign}
use cm_desk.Accounting.Fill.{
  PositionState, FillApplication, FillApplyResult, whole, empty_position, apply_fill_to_position,
}
use cm_desk.Accounting.Fill.Ladder.{side_sign_mul}
use cm_desk.Accounting.Fill.Kind.{apply_fill-Accounts, refused_by}
use cm_desk.Ledger.{StoredFill, StoredPosition, Store, find, update_where}
use cm_desk.Ledger.Trades.{sync_trade}
use cm_desk.Ledger.Trades.Others.{Keeps, sync_trade-Keeps}
use cm_desk.Ledger.Rows.{
  total, Distinct, All-update_where, Distinct-update_where, total-update_where,
}
use cm_desk.Ledger.Apply.{
  state_of, start_of, application_of, updated_position, mark_applied, booked, write_fill,
}
use cm_desk.Ledger.Apply.Once.{write_fill-fills}

-- What a fill has moved: its signed quantity once it is applied.
abbrev pub applied_qty : StoredFill → ℤ
applied_qty fill = if fill.is_applied then side_sign fill.side *ℤ fill.quantity else pos 0

abbrev pub position_qty : StoredPosition → ℤ
position_qty p = p.quantity

-- The identifiers are distinct, the next one of a position is new, and the positions hold what the applied fills have moved.
pub record IsBalanced (s : Store) : Type 0 where
  pub fill_ids : Distinct (λ f. f.id) s.fills
  pub position_ids : Distinct (λ p. p.id) s.positions
  pub new_id : All (λ p. p.id < s.next_position) s.positions
  pub balance : total position_qty s.positions ≡ total applied_qty s.fills

-- An accepted quantity is positive, and moves the position.
accepted-moves :
    (s : PositionState) (f : FillApplication) (q : ℤ) (r : FillApplyResult)
    → f.quantity ≡ whole q
    → apply_fill_to_position s f ≡ ok r
    → r.next.quantity ≡ s.quantity +ℤ side_sign f.side *ℤ q
accepted-moves s f (pos (suc n)) r e h =
    let (r', accepted, acc, _, _) = apply_fill-Accounts s f n e in
    let same : r' ≡ r = ok_injective (sym accepted ∙ h) in
    ap (λ x. x.next.quantity) (sym same)
    ∙ acc.quantity
    ∙ ap (λ x. s.quantity +ℤ x) (sym (side_sign_mul f.side (suc n)))
accepted-moves s f (pos zero) r e h =
    let refused = refused_by s f (whole (pos zero)) e (λ n e'. ground arith) in cc
accepted-moves s f (negsuc k) r e h =
    let refused = refused_by s f (whole (negsuc k)) e (λ n e'. cc) in cc

-- A fresh book starts at zero, which is what its row holds.
start-quantity : (p : StoredPosition) (fill : StoredFill) → (start_of p fill).quantity ≡ p.quantity
unfolding empty_position
start-quantity p fill = ground (arith, eq_of_eqb_ℤ p.quantity (pos 0))

-- the sums before and after
add_up :
    (sum sum' q next moved all all' : ℤ)
    → sum' +ℤ q ≡ sum +ℤ next
    → next ≡ q +ℤ moved
    → all' +ℤ pos 0 ≡ all +ℤ moved
    → sum ≡ all
    → sum' ≡ all'
add_up sum sum' q next moved all all' a b c d = omega (
  int_laws,
  ap (λ z. pos_part z) a,
  ap (λ z. neg_part z) a,
  ap (λ z. pos_part z) b,
  ap (λ z. neg_part z) b,
  ap (λ z. pos_part z) c,
  ap (λ z. neg_part z) c,
  ap (λ z. pos_part z) d,
  ap (λ z. neg_part z) d,
)

module _ (p : StoredPosition) (fill : StoredFill) (exit_reason : Option Text)
    (result : FillApplyResult) (s : Store) where
  write_fill-Keeps :
      Keeps
        (booked p fill exit_reason result s)
        (sync_trade p.id (state_of p) result fill exit_reason (booked p fill exit_reason result s))
  write_fill-Keeps = sync_trade-Keeps p.id (state_of p) result fill exit_reason _

  write_fill-positions :
      (write_fill p fill exit_reason result s).positions
      ≡ update_where (λ x. x.id == p.id) (updated_position p fill result) s.positions
  unfolding write_fill
  write_fill-positions = write_fill-Keeps.positions

  write_fill-next : (write_fill p fill exit_reason result s).next_position ≡ s.next_position
  unfolding write_fill
  write_fill-next = write_fill-Keeps.next_position

  pub write_fill-IsBalanced :
      IsBalanced s
      → find (λ x. x.id == p.id) s.positions ≡ some p
      → find (λ x. x.id == fill.id) s.fills ≡ some fill
      → fill.is_applied ≡ false
      → apply_fill_to_position (start_of p fill) (application_of fill) ≡ ok result
      → IsBalanced (write_fill p fill exit_reason result s)
  write_fill-IsBalanced balanced position_found fill_found new accepted = record {
    fill_ids =
        subst (Distinct (λ f. f.id)) (sym (write_fill-fills p fill exit_reason result s))
          (Distinct-update_where (λ f. f.id) _ mark_applied s.fills (λ f. refl) balanced.fill_ids);
    position_ids = subst (Distinct (λ x. x.id)) (sym write_fill-positions) (
        Distinct-update_where (λ x. x.id) _ (updated_position p fill result) s.positions (λ x. refl)
          balanced.position_ids);
    new_id =
        subst (λ k. All (λ x. x.id < k) (write_fill p fill exit_reason result s).positions)
          (sym write_fill-next)
          (subst (All (λ x. x.id < s.next_position)) (sym write_fill-positions) (
            All-update_where (λ x. x.id) (λ x. x.id < s.next_position) _
              (updated_position p fill result) s.positions (λ x below. below) balanced.new_id));
    balance =
        ap (total position_qty) write_fill-positions
        ∙ sums
        ∙ sym (ap (total applied_qty) (write_fill-fills p fill exit_reason result s));
  }
    where
      moved : ℤ
      moved = side_sign fill.side *ℤ fill.quantity

      sums :
          total position_qty
            (update_where (λ x. x.id == p.id) (updated_position p fill result) s.positions)
          ≡ total applied_qty (update_where (λ x. x.id == fill.id) mark_applied s.fills)
      sums =
          add_up (total position_qty s.positions) _ p.quantity result.next.quantity moved
            (total applied_qty s.fills) _
            (total-update_where (λ x. x.id) position_qty p.id (updated_position p fill result)
              s.positions p balanced.position_ids position_found)
            (accepted-moves (start_of p fill) (application_of fill) fill.quantity result refl
                accepted
              ∙ ap (λ q. q +ℤ moved) (start-quantity p fill))
            (ap
                (λ b.
                  total applied_qty (update_where (λ x. x.id == fill.id) mark_applied s.fills)
                  +ℤ (if b then moved else pos 0))
                (sym new)
              ∙ total-update_where (λ x. x.id) applied_qty fill.id mark_applied s.fills fill
                  balanced.fill_ids fill_found)
            balanced.balance
