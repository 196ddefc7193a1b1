-- ===== src/Chase/Orders/Covers.antt =====
-- lib/chaseFill.ts: how the fills of an episode are counted.
use cm_desk.Prelude.{ℕ, ◌≤◌, Option, none, List, [], ◌∷◌, arith}
use cm_desk.Prelude.Text.{Text}
use cm_desk.Prelude.Double.{Double}
use cm_desk.Types.{Side}
use cm_desk.Chase.Orders.{
  KiteOrder, stop_fill_from, chase_protective_stop_fill_qty, cover_fill_from,
  chase_episode_cover_fill_qty,
}

module _ {ℓ} {F : Type ℓ} ⦃d : Double F⦄ (date_ms : Text → Option ℕ) (tradingsymbol : Text)
    (side : Side) where
  covers_le :
      (os : List (KiteOrder F)) (opened : Option ℕ) (a b : ℕ)
      → a ≤ b
      → cover_fill_from date_ms a tradingsymbol side opened os
        ≤ cover_fill_from date_ms b tradingsymbol side none os
  unfolding cover_fill_from
  covers_le [] opened a b h = h
  covers_le (o ∷ os) opened a b h = covers_le os opened _ _ (ground arith)

  stops_le :
      (os : List (KiteOrder F)) (a b : ℕ)
      → a ≤ b
      → stop_fill_from a tradingsymbol side os
        ≤ cover_fill_from date_ms b tradingsymbol side none os
  unfolding cover_fill_from stop_fill_from
  stops_le [] a b h = h
  stops_le (o ∷ os) a b h = stops_le os _ _ (ground arith)

  -- The filled stops are among the covers, and knowing when the book was opened can only take covers away.
  pub episode_fill-bounds :
      (opened : Option ℕ) (os : List (KiteOrder F))
      → (chase_protective_stop_fill_qty tradingsymbol side os
          ≤ chase_episode_cover_fill_qty date_ms tradingsymbol side none os)
        × (chase_episode_cover_fill_qty date_ms tradingsymbol side opened os
            ≤ chase_episode_cover_fill_qty date_ms tradingsymbol side none os)
  unfolding chase_protective_stop_fill_qty chase_episode_cover_fill_qty
  episode_fill-bounds opened os =
      (stops_le os 0 0 (omega arith), covers_le os opened 0 0 (omega arith))
