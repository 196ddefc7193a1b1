-- ===== src/Prelude/Int/Ring.antt =====
-- The distributive laws of the integers. With them a goal over products becomes linear, and is left
-- to `omega int_laws`.
use Prim.Native.Nat.{ℕ, suc, ◌+◌, ◌*◌}
use mathlib.Core.Path.{◌≡◌, ap}
use native.Mathlib.Omega.{arith}
use cm_desk.Prelude.Int.{
  ℤ, pos, negsuc, pos_part, neg_part, ◌+ℤ◌, ◌-ℤ◌, ◌*ℤ◌, add_parts, sub_parts, mul_parts,
  eq_of_parts, int_laws,
}

pub mul_comm : (a b : ℤ) → a *ℤ b ≡ b *ℤ a
mul_comm a b = omega (arith, mul_parts a b, mul_parts b a, eq_of_parts)

-- A difference of parts multiplied out by a number.
pub mul_add : (a b c : ℤ) → a *ℤ (b +ℤ c) ≡ a *ℤ b +ℤ a *ℤ c
mul_add a b c =
    let up = ap (λ (t : ℕ). pos_part a * t) (add_parts b c) in
    let down = ap (λ (t : ℕ). neg_part a * t) (add_parts b c) in
    eq_of_parts _ _ (
      omega (
        arith,
        up,
        down,
        mul_parts a (b +ℤ c),
        mul_parts a b,
        mul_parts a c,
        add_parts (a *ℤ b) (a *ℤ c),
      ))

pub mul_sub : (a b c : ℤ) → a *ℤ (b -ℤ c) ≡ a *ℤ b -ℤ a *ℤ c
mul_sub a b c =
    let up = ap (λ (t : ℕ). pos_part a * t) (sub_parts b c) in
    let down = ap (λ (t : ℕ). neg_part a * t) (sub_parts b c) in
    eq_of_parts _ _ (
      omega (
        arith,
        up,
        down,
        mul_parts a (b -ℤ c),
        mul_parts a b,
        mul_parts a c,
        sub_parts (a *ℤ b) (a *ℤ c),
      ))

pub add_mul : (a b c : ℤ) → (a +ℤ b) *ℤ c ≡ a *ℤ c +ℤ b *ℤ c
add_mul a b c = rw (mul_comm (a +ℤ b) c, mul_add c a b, mul_comm c a, mul_comm c b)

pub sub_mul : (a b c : ℤ) → (a -ℤ b) *ℤ c ≡ a *ℤ c -ℤ b *ℤ c
sub_mul a b c = rw (mul_comm (a -ℤ b) c, mul_sub c a b, mul_comm c a, mul_comm c b)

pub mul_zero : (a : ℤ) → a *ℤ pos 0 ≡ pos 0
mul_zero a = omega (arith, mul_parts a (pos 0), eq_of_parts)

-- A whole multiple, and a negative one.
pub mul_pos :
    (a : ℤ) (n : ℕ)
    → pos_part (a *ℤ pos n) + neg_part a * n ≡ neg_part (a *ℤ pos n) + pos_part a * n
mul_pos a n = omega (arith, mul_parts a (pos n))

pub mul_negsuc : (a : ℤ) (n : ℕ) → a *ℤ negsuc n ≡ pos 0 -ℤ a *ℤ pos (suc n)
mul_negsuc a n = omega (int_laws, mul_parts a (negsuc n), mul_parts a (pos (suc n)))

pub ruleset distribute = (mul_add, mul_sub, add_mul, sub_mul, mul_zero)
