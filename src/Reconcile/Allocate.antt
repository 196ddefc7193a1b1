-- ===== src/Reconcile/Allocate.antt =====
-- lib/trading/strategyReconcile.ts: how much the trades of the broker cover.
use cm_desk.Prelude.{
  ℕ, ◌+◌, ◌-◌, ◌==◌, ◌≡◌, ◌≤◌, refl, ◌∙◌, ap, List, [], ◌∷◌, leb, All, arith, Bool-cases, inl, inr,
}
use cm_desk.Prelude.Int.{ℤ, abs}
use cm_desk.Prelude.Double.{Double}
use cm_desk.Reconcile.{
  TradeSlice, AllocatedSlice, Allocation, insert_by_time, sort_by_time, is_usable, available,
  min_qty, slice_of, take_trade, allocate_from, allocate_broker_trades,
}

module _ {ℓ} {F : Type ℓ} ⦃d : Double F⦄ where
  abbrev pub total_available : List (TradeSlice F) → ℕ
  total_available [] = 0
  total_available (t ∷ ts) = available t + total_available ts

  abbrev pub total_taken : List (AllocatedSlice F) → ℕ
  total_taken [] = 0
  total_taken (x ∷ xs) = x.quantity + total_taken xs

  insert-available :
      (t : TradeSlice F) (ts : List (TradeSlice F))
      → total_available (insert_by_time t ts) ≡ available t + total_available ts
  unfolding insert_by_time
  insert-available t [] = refl
  insert-available t (x ∷ xs) = ground (arith, insert-available t xs)

  sort-available :
      (ts : List (TradeSlice F)) → total_available (sort_by_time ts) ≡ total_available ts
  unfolding sort_by_time
  sort-available [] = refl
  sort-available (t ∷ ts) =
      insert-available t (sort_by_time ts) ∙ ap (λ n. available t + n) (sort-available ts)

  allocate_from-takes :
      (remaining : ℕ) (ts : List (TradeSlice F))
      → (total_taken (allocate_from remaining ts).slices ≡ min_qty (total_available ts) remaining)
        × (total_taken (allocate_from remaining ts).slices + (allocate_from remaining ts).shortfall
            ≡ remaining)
  unfolding allocate_from
  allocate_from-takes remaining [] = (ground arith, omega arith)
  allocate_from-takes remaining (t ∷ ts) =
      ground (arith, allocate_from-takes (remaining - min_qty (available t) remaining) ts)

  -- none is earlier than a time
  abbrev pub NotBefore : ℕ → TradeSlice F → Type 0
  NotBefore at t = at ≤ t.occurred_at

  IsSorted : List (TradeSlice F) → Type 0
  IsSorted [] = Unit
  IsSorted (t ∷ ts) = All (NotBefore t.occurred_at) ts × IsSorted ts

  NotBefore-trans :
      (a b : ℕ) (ts : List (TradeSlice F)) → a ≤ b → All (NotBefore b) ts → All (NotBefore a) ts
  NotBefore-trans a b [] h all = tt
  NotBefore-trans a b (t ∷ ts) h (first, all) = (omega arith, NotBefore-trans a b ts h all)

  insert-NotBefore :
      (at : ℕ) (t : TradeSlice F) (ts : List (TradeSlice F))
      → at ≤ t.occurred_at
      → All (NotBefore at) ts
      → All (NotBefore at) (insert_by_time t ts)
  unfolding insert_by_time
  insert-NotBefore at t [] h all = (h, tt)
  insert-NotBefore at t (x ∷ xs) h (first, all) =
      elim (Bool-cases (leb t.occurred_at x.occurred_at)) [
        | inl here ↦ rw here (h, (first, all))
        | inr later ↦ rw later (first, insert-NotBefore at t xs h all)
      ]

  insert-IsSorted :
      (t : TradeSlice F) (ts : List (TradeSlice F)) → IsSorted ts → IsSorted (insert_by_time t ts)
  unfolding insert_by_time IsSorted
  insert-IsSorted t [] sorted = (tt, tt)
  insert-IsSorted t (x ∷ xs) (first, sorted) = elim (Bool-cases (leb t.occurred_at x.occurred_at)) [
    | inl here ↦
        let le : t.occurred_at ≤ x.occurred_at = ground arith in
        rw here ((le, NotBefore-trans t.occurred_at x.occurred_at xs le first), (first, sorted))
    | inr later ↦
        let le : x.occurred_at ≤ t.occurred_at = ground arith in
        rw later (insert-NotBefore x.occurred_at t xs le first, insert-IsSorted t xs sorted)
  ]

  sort-IsSorted : (ts : List (TradeSlice F)) → IsSorted (sort_by_time ts)
  unfolding sort_by_time
  sort-IsSorted [] = unfold IsSorted in tt
  sort-IsSorted (t ∷ ts) = insert-IsSorted t (sort_by_time ts) (sort-IsSorted ts)

  -- the slices, none earlier than a time
  abbrev SliceNotBefore : ℕ → AllocatedSlice F → Type 0
  SliceNotBefore at x = at ≤ x.occurred_at

  -- Each slice is no later than those after it.
  unfoldable pub InOrder : List (AllocatedSlice F) → Type 0
  InOrder [] = Unit
  InOrder (x ∷ xs) = All (SliceNotBefore x.occurred_at) xs × InOrder xs

  take_trade-rule :
      (P : List (AllocatedSlice F) → Type 0) (remaining : ℕ) (t : TradeSlice F)
      (rest : Allocation F)
      → P []
      → P (slice_of t (min_qty (available t) remaining) ∷ rest.slices)
      → P rest.slices
      → P (take_trade remaining t rest).slices
  take_trade-rule P remaining t rest done used passed = elim (Bool-cases (remaining == 0)) [
    | inl none_left ↦ rw none_left done
    | inr more ↦ elim (Bool-cases (is_usable t)) [
      | inl fits ↦ rw (more, fits) (rw fits at used)
      | inr skips ↦ rw (more, skips) passed
    ]
  ]

  slices-NotBefore :
      (at remaining : ℕ) (ts : List (TradeSlice F))
      → All (NotBefore at) ts
      → All (SliceNotBefore at) (allocate_from remaining ts).slices
  unfolding allocate_from
  slices-NotBefore at remaining [] all = tt
  slices-NotBefore at remaining (t ∷ ts) (first, all) =
      let rest = slices-NotBefore at (remaining - min_qty (available t) remaining) ts all in
      take_trade-rule (λ xs. All (SliceNotBefore at) xs) remaining t
        (allocate_from (remaining - min_qty (available t) remaining) ts) tt (first, rest) rest

  slices-InOrder :
      (remaining : ℕ) (ts : List (TradeSlice F))
      → IsSorted ts
      → InOrder (allocate_from remaining ts).slices
  unfolding allocate_from IsSorted InOrder
  slices-InOrder remaining [] sorted = tt
  slices-InOrder remaining (t ∷ ts) (first, sorted) =
      let left = remaining - min_qty (available t) remaining in
      let rest = slices-InOrder left ts sorted in
      take_trade-rule InOrder remaining t (allocate_from left ts) tt
        (slices-NotBefore t.occurred_at left ts first, rest) rest

  -- The trades of the broker cover as much of the accepted quantity as they have to give, the slices and
  -- the shortfall add up to it, and the slices are in the order of time, the oldest first.
  pub allocate-covers :
      (accepted : ℤ) (trades : List (TradeSlice F))
      → let r = allocate_broker_trades accepted trades in
        (total_taken r.slices ≡ min_qty (total_available trades) (abs accepted))
        × (total_taken r.slices + r.shortfall ≡ abs accepted)
        × InOrder r.slices
  unfolding allocate_broker_trades
  allocate-covers accepted trades =
      let (taken, whole) = allocate_from-takes (abs accepted) (sort_by_time trades) in
      (
        taken ∙ ap (λ n. min_qty n (abs accepted)) (sort-available trades),
        whole,
        slices-InOrder (abs accepted) (sort_by_time trades) (sort-IsSorted trades),
      )
