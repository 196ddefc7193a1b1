-- ===== src/Money/Division.antt =====
-- lib/trading/money.ts: the rounding of `moneyDivQty`.
use cm_desk.Prelude.{ℕ, zero, suc, ◌+◌, ◌*◌, ◌/◌, ◌≤◌, ◌<◌, ◌≡◌, arith}
use cm_desk.Prelude.Int.{ℤ, pos, negsuc, abs, ◌-ℤ◌, ◌*ℤ◌}
use cm_desk.Money.{Money, ok, is_neg, with_sign, money_div_qty}

-- The quotient that `moneyDivQty` returns at a positive divisor.
abbrev pub rounded : Money → ℕ → Money
rounded value d = with_sign (is_neg value) ((abs value + d / 2) / d)

pub div_qty_pos :
    (value : Money) (d : ℕ) → 0 < d → money_div_qty value (pos d) ≡ ok (rounded value d)
unfolding money_div_qty
div_qty_pos value zero h = elim h [ ]
div_qty_pos value (suc d) h = ground arith

half_up :
    (a d : ℕ)
    → ((a + suc d / 2) / suc d * suc d ≤ a + suc d / 2)
      × (a + suc d / 2 < (a + suc d / 2) / suc d * suc d + suc d)
half_up a d = grind arith

signed_near :
    (v : ℤ) (k d : ℕ)
    → k * suc d ≤ abs v + suc d / 2
    → abs v + suc d / 2 < k * suc d + suc d
    → abs (with_sign (is_neg v) k *ℤ pos (suc d) -ℤ v) * 2 ≤ suc d
unfolding ◌*ℤ◌ ◌-ℤ◌
signed_near (pos v) k d lo hi = ground arith
signed_near (negsuc v) zero d lo hi = ground arith
signed_near (negsuc v) (suc k) d lo hi = ground arith

-- Twice the distance from the exact quotient, times the divisor, is at most the divisor.
pub rounded_near : (value : Money) (d : ℕ) → 0 < d → abs (rounded value d *ℤ pos d -ℤ value) * 2 ≤ d
rounded_near value zero h = elim h [ ]
rounded_near value (suc d) h =
    let near = half_up (abs value) d in signed_near value _ d near.0 near.1
