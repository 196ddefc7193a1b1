-- ===== src/Accounting/Mark/Reports.antt =====
-- lib/trading/accounting.ts: the mark and the cumulative reports of the broker.
use cm_desk.Prelude.{ℕ, zero, suc, ◌+◌, ◌-◌, ◌*◌, ◌≤◌, ◌<◌, ◌≡◌, sym, subst, some, arith}
use cm_desk.Prelude.Int.{ℤ, pos, negsuc, abs, ◌-ℤ◌, ◌*ℤ◌, int_laws}
use cm_desk.Prelude.Int.{mul_parts}
use cm_desk.Prelude.Int.Ring.{mul_zero, sub_mul, mul_negsuc}
use cm_desk.Money.{Money, ok, money_sub, money_mul_qty}
use cm_desk.Money.Division.{rounded, rounded_near}
use cm_desk.Accounting.Mark.{
  unrealized_pnl, market_value, IncrementalFill, incremental_fill_from_averages,
}

short_side : (a m : Money) (n : ℕ) → (a -ℤ m) *ℤ pos (suc n) ≡ m *ℤ negsuc n -ℤ a *ℤ negsuc n
short_side a m n = rw (sub_mul a m (pos (suc n)), mul_negsuc m n, mul_negsuc a n) (omega int_laws)

-- The unrealised profit, of a long and of a short alike, is what the position is worth at the mark less what it is worth at its average price.
pub unrealized-market_value :
    (quantity : ℤ) (average mark : Money)
    → unrealized_pnl quantity average mark
      ≡ market_value quantity mark -ℤ market_value quantity average
unfolding unrealized_pnl market_value money_mul_qty money_sub
unrealized-market_value (pos zero) average mark =
    omega (int_laws, mul_parts average (pos 0), mul_parts mark (pos 0))
unrealized-market_value (pos (suc n)) average mark =
    ground (arith, sub_mul mark average (pos (suc n)))
unrealized-market_value (negsuc n) average mark = ground (arith, short_side average mark n)

-- What a report of (quantity, average) has traded in all.
abbrev pub traded : ℕ → Money → Money
traded quantity average = average *ℤ pos quantity

gap : (n k : ℕ) → pos (n + k) -ℤ pos n ≡ pos k
gap n k = omega int_laws

back : (x : ℤ) → x -ℤ (x -ℤ pos 0) ≡ pos 0
back x = omega int_laws

whole_fill : (n : ℕ) (b x : Money) → abs (b *ℤ pos n -ℤ (b *ℤ pos n -ℤ x *ℤ pos 0)) * 2 ≤ n
whole_fill n b x = rw (mul_zero x, back (b *ℤ pos n)) (omega arith)

later_fill :
    (n k : ℕ) (a b : Money)
    → incremental_fill_from_averages (pos (suc n)) a (pos (suc n + suc k)) b
      ≡ ok (
          some (record {
            quantity = pos (suc k);
            price = rounded (traded (suc n + suc k) b -ℤ traded (suc n) a) (suc k);
          }))
unfolding incremental_fill_from_averages
later_fill n k a b = rw (gap (suc n) (suc k)) (ground arith)

first_fill :
    (n : ℕ) (a b : Money)
    → incremental_fill_from_averages (pos 0) a (pos (suc n)) b
      ≡ ok (some (record { quantity = pos (suc n); price = b }))
unfolding incremental_fill_from_averages ◌-ℤ◌
first_fill n a b = ground arith

later : (n after : ℕ) → suc n < after → (k : ℕ) × (suc n + suc k ≡ after)
later n after h = (after - suc (suc n), omega arith)

-- A report that adds to the filled quantity yields a fill of just the added quantity, and the value of that fill differs from what the two reports say was traded between them by at most half a unit of money per lot.
pub incremental-value :
    (before after : ℕ) (a b : Money)
    → before < after
    → (fill : IncrementalFill) × (incremental_fill_from_averages (pos before) a (pos after) b
        ≡ ok (some fill))
      × (fill.quantity ≡ pos after -ℤ pos before)
      × (abs (fill.price *ℤ fill.quantity -ℤ (traded after b -ℤ traded before a)) * 2
          ≤ abs fill.quantity)
incremental-value zero zero a b h = elim h [ ]
incremental-value zero (suc after) a b h =
    (_, first_fill after a b, omega int_laws, omega (arith, whole_fill (suc after) b a))
incremental-value (suc n) after a b h =
    let (k, e) = later n after h in
    let v = traded (suc n + suc k) b -ℤ traded (suc n) a in
    subst
      (λ m.
        (fill : IncrementalFill) × (incremental_fill_from_averages (pos (suc n)) a (pos m) b
          ≡ ok (some fill))
        × (fill.quantity ≡ pos m -ℤ pos (suc n))
        × (abs (fill.price *ℤ fill.quantity -ℤ (traded m b -ℤ traded (suc n) a)) * 2
            ≤ abs fill.quantity))
      e
      (
        _,
        later_fill n k a b,
        sym (gap (suc n) (suc k)),
        omega (arith, rounded_near v (suc k) (omega arith)),
      )
