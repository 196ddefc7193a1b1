-- ===== src/Chase/Cover/Safety.antt =====
-- lib/chaseFill.ts: what a cover can and cannot do to the book.
use cm_desk.Prelude.{
  ℕ, zero, suc, ◌+◌, ◌≤◌, ◌<◌, ◌≡◌, ◌⊎◌, inl, inr, Bool, true, false, not, ◌&&◌, Option, none, some,
  arith, ltb, ◌==◌,
}
use cm_desk.Prelude.Int.{ℤ, pos, negsuc, abs, ◌+ℤ◌, eqb_ℤ}
use cm_desk.Accounting.Fill.{sign}
use cm_desk.Accounting.Fill.Ladder.{signed_of, sell_all, buy_all}
use cm_desk.Chase.Cover.{
  ChaseSide, long, short, CoverInput, chase_cover_order_qty, BreachInput, breach_cover,
  ChaseSlBreachPlan, place_flatten, convert_working_stop, phantom_empty,
  plan_chase_sl_breach_flatten, plan_chase_morning_exit, awaiting_signal, status_of, cover_side,
  chase_side_has_position,
}

-- A cover never exceeds the quantity that Kite shows.
pub cover-le : (input : CoverInput) → chase_cover_order_qty input ≤ abs input.kite_qty
unfolding chase_cover_order_qty
cover-le input = ground arith

module _ (opened kite : ℤ) (ledger : Option ℤ) (filled : ℕ) where
  -- what `chaseCoverOrderQty` is asked about an episode whose opening size is known
  abbrev pub episode : CoverInput
  episode = record {
    kite_qty = kite;
    ledger_qty = ledger;
    opened_qty = some opened;
    episode_filled = filled;
  }

  -- If Kite shows no more than an episode's opening size and no less than what is truly left of it,
  -- however late its feed, then the cover and the fills so far never exceed the opening size: a cover
  -- cannot turn the book round.
  pub cover-no_reversal :
      eqb_ℤ opened (pos 0) ≡ false
      → eqb_ℤ (sign opened) (sign kite) ≡ true
      → filled ≤ abs opened
      → abs opened ≤ abs kite + filled
      → abs kite ≤ abs opened
      → chase_cover_order_qty episode + filled ≤ abs opened
  unfolding chase_cover_order_qty
  cover-no_reversal z h f late k = ground arith

  -- If Kite shows no more than an episode's opening size and no less than what is truly left of it, and the
  -- fills so far are less than what Kite shows, then the cover is exactly what is truly left.
  pub cover-exact :
      eqb_ℤ opened (pos 0) ≡ false
      → eqb_ℤ (sign opened) (sign kite) ≡ true
      → abs opened ≤ abs kite + filled
      → abs kite ≤ abs opened
      → filled < abs kite
      → chase_cover_order_qty episode + filled ≡ abs opened
  unfolding chase_cover_order_qty
  cover-exact z h late k f = ground arith

abbrev pub acts : ChaseSlBreachPlan → Bool
acts place_flatten = true
acts convert_working_stop = true
acts _ = false

abbrev pub is_empty_plan : ChaseSlBreachPlan → Bool
is_empty_plan phantom_empty = true
is_empty_plan _ = false

-- A breach sends or converts an order exactly for an open book with a cover still to send and no stop
-- filled in the tick; it finds the book empty exactly when it is flat, with no cover and no stop filled.
pub breach-acts :
    (input : BreachInput)
    → (acts (plan_chase_sl_breach_flatten input) ≡ (
        input.working_stops_filled_this_tick == 0
        && not (eqb_ℤ input.net_qty (pos 0))
        && ltb 0 (breach_cover input)))
      × (is_empty_plan (plan_chase_sl_breach_flatten input) ≡ (
          input.working_stops_filled_this_tick == 0
          && eqb_ℤ input.net_qty (pos 0)
          && input.filled_cover_qty == 0))
unfolding plan_chase_sl_breach_flatten
breach-acts input = ground arith

-- The morning exit keeps the status while the book of that side is open, and then orders exactly the
-- trade that brings it to zero; with no such book it waits for a signal and orders nothing.
pub morning_exit-flattens :
    (side : ChaseSide) (net_qty : ℤ)
    → let r = plan_chase_morning_exit side net_qty in
      ((r.order ≡ none)
        × (r.status ≡ awaiting_signal)
        × (chase_side_has_position side net_qty ≡ false))
      ⊎ ((r.order ≡ some (cover_side side, abs net_qty))
          × (r.status ≡ status_of side)
          × (net_qty +ℤ signed_of (cover_side side) (abs net_qty) ≡ pos 0))
unfolding plan_chase_morning_exit
morning_exit-flattens long (pos zero) = inl (ground arith, ground arith, ground arith)
morning_exit-flattens long (pos (suc n)) =
    inr (ground arith, ground arith, sell_all (suc n) (abs (pos (suc n))) (omega arith))
morning_exit-flattens long (negsuc n) = inl (ground arith, ground arith, ground arith)
morning_exit-flattens short (pos n) = inl (ground arith, ground arith, ground arith)
morning_exit-flattens short (negsuc n) =
    inr (ground arith, ground arith, buy_all n (abs (negsuc n)) (omega arith))
