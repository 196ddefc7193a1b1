-- ===== src/Accounting/Fill/Products.antt =====
-- lib/trading/accounting.ts: the amounts of a fill as products of a price distance and a quantity.
use cm_desk.Prelude.{ℕ, zero, suc, ◌+◌, ◌≡◌, sym, ap, ◌∙◌, true, false, arith}
use cm_desk.Prelude.Int.{ℤ, pos, negsuc, abs, ◌+ℤ◌, ◌-ℤ◌, ◌*ℤ◌, eqb_ℤ, int_laws}
use cm_desk.Prelude.Int.Ring.{distribute, mul_negsuc, mul_zero}
use cm_desk.Money.{Money}
use cm_desk.Types.{Side, buy, sell}
use cm_desk.Accounting.Mark.{unrealized_pnl}
use cm_desk.Accounting.Fill.{sign, realized_on_close}
use cm_desk.Accounting.Fill.Ladder.{signed_of}

-- The sign moves from a quantity to the difference of prices.
turn : (x y : Money) (n : ℕ) → (x -ℤ y) *ℤ pos (suc n) ≡ (y -ℤ x) *ℤ negsuc n
turn x y n = rw (mul_negsuc (y -ℤ x) n) (simp distribute (omega int_laws))

pub unrealized-product :
    (q : ℤ) (average mark : Money) → unrealized_pnl q average mark ≡ (mark -ℤ average) *ℤ q
unfolding unrealized_pnl
unrealized-product (pos zero) average mark = sym (mul_zero _)
unrealized-product (pos (suc n)) average mark = ground arith
unrealized-product (negsuc n) average mark = ground (arith, turn average mark n)

-- A closing fill realizes its own distance from the average, with the sign of the fill.
pub realized-close :
    (q : ℤ) (side : Side) (n : ℕ) (average price : Money)
    → eqb_ℤ q (pos 0) ≡ false
    → eqb_ℤ (sign q) (sign (signed_of side (suc n))) ≡ false
    → realized_on_close q average (suc n) price ≡ (average -ℤ price) *ℤ signed_of side (suc n)
unfolding realized_on_close
realized-close (pos q) buy n average price z h = ground arith
realized-close (pos q) sell n average price z h = ground (arith, turn price average n)
realized-close (negsuc q) buy n average price z h = ground arith
realized-close (negsuc q) sell n average price z h = ground arith

-- Closing all of an open quantity realizes the distance of the price from the average.
pub realized-close_all :
    (q : ℤ) (average price : Money)
    → realized_on_close q average (abs q) price ≡ (price -ℤ average) *ℤ q
unfolding realized_on_close
realized-close_all (pos zero) average price =
    rw (mul_zero (average -ℤ price), mul_zero (price -ℤ average))
realized-close_all (pos (suc n)) average price = ground arith
realized-close_all (negsuc n) average price = ground (arith, turn average price n)

module _ (r a p m q s : ℤ) where
  pub reduce_identity :
      r +ℤ (a -ℤ p) *ℤ s +ℤ (m -ℤ a) *ℤ (q +ℤ s) ≡ r +ℤ (m -ℤ a) *ℤ q +ℤ (m -ℤ p) *ℤ s
  reduce_identity = simp distribute (omega int_laws)

  pub reverse_identity :
      r +ℤ (p -ℤ a) *ℤ q +ℤ (m -ℤ p) *ℤ (q +ℤ s) ≡ r +ℤ (m -ℤ a) *ℤ q +ℤ (m -ℤ p) *ℤ s
  reverse_identity = simp distribute (omega int_laws)

  pub increase_identity :
      (A : ℤ)
      → r +ℤ (m -ℤ A) *ℤ (q +ℤ s) -ℤ (r +ℤ (m -ℤ a) *ℤ q +ℤ (m -ℤ p) *ℤ s)
        ≡ a *ℤ q +ℤ p *ℤ s -ℤ A *ℤ (q +ℤ s)
  increase_identity A = simp distribute (omega int_laws)

add_pos : (x y : ℕ) → pos x +ℤ pos y ≡ pos (x + y)
add_pos x y = omega int_laws

add_negsuc : (x y : ℕ) → negsuc x +ℤ negsuc y ≡ negsuc (suc (x + y))
add_negsuc x y = omega int_laws

abs_sub_comm : (x y : ℤ) → abs (x -ℤ y) ≡ abs (y -ℤ x)
unfolding ◌-ℤ◌
abs_sub_comm x y = ground arith

module _ (a p A : Money) (n : ℕ) where
  -- what an increase from `k` shares leaves to the rounding of the average
  abbrev residue : ℕ → ℕ
  residue k = abs (A *ℤ pos (k + suc n) -ℤ (a *ℤ pos k +ℤ p *ℤ pos (suc n)))

  increase_long :
      (k : ℕ) → abs (a *ℤ pos k +ℤ p *ℤ pos (suc n) -ℤ A *ℤ (pos k +ℤ pos (suc n))) ≡ residue k
  increase_long k = rw (add_pos k (suc n)) (abs_sub_comm _ _)

  increase_short :
      (k : ℕ)
      → abs (a *ℤ negsuc k +ℤ p *ℤ negsuc n -ℤ A *ℤ (negsuc k +ℤ negsuc n)) ≡ residue (suc k)
  increase_short k =
      let sum : suc k + suc n ≡ suc (suc (k + n)) = omega arith in
      rw (add_negsuc k n, mul_negsuc a k, mul_negsuc p n, mul_negsuc A (suc (k + n)), sum)
        (ap abs
          {x = pos 0
            -ℤ a *ℤ pos (suc k)
            +ℤ (pos 0 -ℤ p *ℤ pos (suc n))
            -ℤ (pos 0 -ℤ A *ℤ pos (suc (suc (k + n))))}
          {y = A *ℤ pos (suc (suc (k + n))) -ℤ (a *ℤ pos (suc k) +ℤ p *ℤ pos (suc n))}
          (omega int_laws))

  -- The cost of an increase, whichever side is open, misses its rounded average by the residue.
  pub increase_cost :
      (q : ℤ) (side : Side)
      → eqb_ℤ q (pos 0) ≡ false
      → eqb_ℤ (sign q) (sign (signed_of side (suc n))) ≡ true
      → abs (a *ℤ q +ℤ p *ℤ signed_of side (suc n) -ℤ A *ℤ (q +ℤ signed_of side (suc n)))
        ≡ residue (abs q)
  increase_cost (pos q) buy z h = increase_long q ∙ ap residue (omega arith)
  increase_cost (pos q) sell z h = absurd (ground arith)
  increase_cost (negsuc q) buy z h = absurd (ground arith)
  increase_cost (negsuc q) sell z h = increase_short q ∙ ap residue (omega arith)
