-- ===== src/Examples/Chasing.antt =====
-- A Chase episode at concrete figures: 100 bought, part of it covered already.
use cm_desk.Prelude.{◌+◌, ◌≤◌, refl, none, arith}
use cm_desk.Prelude.Int.{pos, abs}
use cm_desk.Chase.Cover.{chase_cover_order_qty}
use cm_desk.Chase.Cover.Safety.{episode, cover-no_reversal}
use cm_desk.Examples.Desk.{units_double}

-- 30 covered, of which Kite has dropped 10
cover-no_reversal_example :
    chase_cover_order_qty (episode (pos 100) (pos 90) none 30) + 30 ≤ abs (pos 100)
cover-no_reversal_example =
    cover-no_reversal (pos 100) (pos 90) none 30 refl refl (omega arith) (omega arith) (omega arith)
