-- ===== src/Chase/Window.antt =====
-- lib/chaseFill.ts: whether the candles of a window touch a stop.
use cm_desk.Prelude.{Bool, false, not, ◌||◌, List, any, if◌then◌else◌}
use cm_desk.Prelude.Double.{Double}
use cm_desk.Chase.Cover.{ChaseSide, long, short}

pub record Candle {ℓ} (F : Type ℓ) : Type ℓ where
  pub high : F
  pub low : F

module _ {ℓ} {F : Type ℓ} ⦃d : Double F⦄ where
  abbrev pub touches : ChaseSide → F → Candle F → Bool
  touches side stop candle =
      if not (d.is_finite candle.high) || not (d.is_finite candle.low)
      then false
      else elim side [ long ↦ d.le candle.low stop | short ↦ d.le stop candle.high ]

  unfoldable pub chase_stop_touched_in_window : ChaseSide → F → List (Candle F) → Bool
  chase_stop_touched_in_window side stop candles =
      if not (d.is_finite stop) then false else any (touches side stop) candles
