-- ===== src/Reconcile/Accepted.antt =====
-- lib/trading/strategyReconcile.ts: the quantity that the operator may accept of a difference.
use cm_desk.Prelude.{◌+◌, ◌≡◌, ◌≢◌, ap, ◌∙◌, some, arith}
use cm_desk.Prelude.Int.{ℤ, pos, negsuc, abs, ◌-ℤ◌, ◌+ℤ◌, int_laws}
use cm_desk.Accounting.Fill.{whole}
use cm_desk.Reconcile.{strategy_quantity_difference, accepted_quantity}

part_of :
    (difference requested q : ℤ)
    → accepted_quantity (whole difference) (whole requested) ≡ some q
    → (q ≡ requested) × (q ≢ pos 0) × (abs (difference -ℤ q) + abs q ≡ abs difference)
unfolding accepted_quantity ◌-ℤ◌
part_of (pos d) (pos r) q h = ground arith
part_of (pos d) (negsuc r) q h = ground arith
part_of (negsuc d) (pos r) q h = ground arith
part_of (negsuc d) (negsuc r) q h = ground arith

difference-add :
    (b s o q : ℤ)
    → strategy_quantity_difference b (s +ℤ q) o ≡ strategy_quantity_difference b s o -ℤ q
unfolding strategy_quantity_difference
difference-add b s o q = omega int_laws

-- A quantity that is accepted is the one asked for, no zero, and closes part of the gap between the
-- broker and the desk: with it booked to the strategy, the difference is smaller by just its size, so
-- that it has not turned round.
pub accepted-closes :
    (broker_qty strategy_qty other_qty requested q : ℤ)
    → let gap = strategy_quantity_difference broker_qty strategy_qty other_qty in
      accepted_quantity (whole gap) (whole requested) ≡ some q
      → (q ≡ requested)
        × (q ≢ pos 0)
        × (abs (strategy_quantity_difference broker_qty (strategy_qty +ℤ q) other_qty) + abs q
            ≡ abs (strategy_quantity_difference broker_qty strategy_qty other_qty))
accepted-closes b s o r q h =
    let (same, not_zero, closes) = part_of (strategy_quantity_difference b s o) r q h in
    (same, not_zero, ap (λ x. abs x + abs q) (difference-add b s o q) ∙ closes)
