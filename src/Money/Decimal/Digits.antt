-- ===== src/Money/Decimal/Digits.antt =====
-- lib/trading/money.ts: lemmas on the digits that are printed and read.
use cm_desk.Prelude.{
  ℕ, zero, suc, ◌*◌, ◌/◌, ◌%◌, ◌≤◌, ◌<◌, ◌≡◌, refl, ap, ◌∙◌, true, false, some, [], ◌∷◌, ◌++◌,
  length, length-append, ltb, Bool-cases, inl, inr, arith,
}
use cm_desk.Prelude.Text.{Text, is_empty, no_spaces}
use cm_desk.Money.Decimal.{
  digit_char, digits_from, to_digits, zeros, parse_from, all_decimal, split_dot, first_chars,
  after_chars,
}

-- The last digit of a number, and those before it.
digits-small : (fuel n : ℕ) → ltb n 10 ≡ true → digits_from (suc fuel) n ≡ digit_char n ∷ []
unfolding digits_from
digits-small fuel n h = rw (digits_from, h)

digits-large :
    (fuel n : ℕ)
    → ltb n 10 ≡ false
    → digits_from (suc fuel) n ≡ digits_from fuel (n / 10) ++ digit_char (n % 10) ∷ []
unfolding digits_from
digits-large fuel n h = rw (digits_from, h)

parse_from-append :
    (s t : Text) (acc : ℕ) → parse_from acc (s ++ t) ≡ parse_from (parse_from acc s) t
unfolding parse_from
parse_from-append [] t acc = refl
parse_from-append (c ∷ s) t acc = parse_from-append s t _

pub all_decimal-append :
    (s t : Text) → all_decimal s ≡ true → all_decimal t ≡ true → all_decimal (s ++ t) ≡ true
unfolding all_decimal
all_decimal-append [] t hs ht = ht
all_decimal-append (c ∷ s) t hs ht = ground (arith, all_decimal-append s t)

-- Reading the digits of a number gives the number.
pub parse-digits : (fuel n : ℕ) → n < fuel → parse_from 0 (digits_from fuel n) ≡ n
parse-digits zero n h = absurd (omega arith)
parse-digits (suc fuel) n h = elim (Bool-cases (ltb n 10)) [
  | inl small ↦ rw (digits-small fuel n small) (unfold parse_from in ground arith)
  | inr large ↦
      rw
        (
          digits-large fuel n large,
          parse_from-append (digits_from fuel (n / 10)) (digit_char (n % 10) ∷ []) 0,
          parse-digits fuel (n / 10) (ground arith),
        )
        (unfold parse_from in ground arith)
]

pub digits-all_decimal : (fuel n : ℕ) → all_decimal (digits_from fuel n) ≡ true
digits-all_decimal zero n = unfold digits_from all_decimal in refl
digits-all_decimal (suc fuel) n = elim (Bool-cases (ltb n 10)) [
  | inl small ↦ rw (digits-small fuel n small) (unfold all_decimal in ground arith)
  | inr large ↦ rw (digits-large fuel n large) (
      all_decimal-append _ _ (digits-all_decimal fuel (n / 10))
        (unfold all_decimal in ground arith))
]

pub append-not_empty : (s t : Text) (c : ℕ) → is_empty (s ++ c ∷ t) ≡ false
append-not_empty [] t c = refl
append-not_empty (x ∷ s) t c = refl

pub digits-not_empty : (n : ℕ) → is_empty (to_digits n) ≡ false
digits-not_empty n = elim (Bool-cases (ltb n 10)) [
  | inl small ↦ ap is_empty (digits-small n n small)
  | inr large ↦ ap is_empty (digits-large n n large) ∙ append-not_empty _ [] _
]

-- ten to the power of one more
power : ℕ → ℕ
power zero = 10
power (suc k) = 10 * power k

length-digits : (fuel n k : ℕ) → n < power k → length (digits_from fuel n) ≤ suc k
unfolding power
length-digits zero n k h = unfold digits_from in omega arith
length-digits (suc fuel) n zero h = rw (digits-small fuel n (ground arith)) (omega arith)
length-digits (suc fuel) n (suc k) h = elim (Bool-cases (ltb n 10)) [
  | inl small ↦ rw (digits-small fuel n small) (omega arith)
  | inr large ↦
      let front = digits_from fuel (n / 10) in
      rw (digits-large fuel n large) (
        omega (
          arith,
          length-append front (digit_char (n % 10) ∷ []),
          length-digits fuel (n / 10) k (omega arith),
        ))
]

pub digits-four : (n : ℕ) → n < 10_000 → length (to_digits n) ≤ 4
unfolding power
digits-four n h = length-digits (suc n) n 3 h

pub all_decimal-no_spaces : (s : Text) → all_decimal s ≡ true → no_spaces s ≡ true
unfolding all_decimal no_spaces
all_decimal-no_spaces [] h = refl
all_decimal-no_spaces (c ∷ s) h = ground (arith, all_decimal-no_spaces s)

pub length-zeros : (n : ℕ) → length (zeros n) ≡ n
unfolding zeros
length-zeros zero = refl
length-zeros (suc n) = ap (λ k. suc k) (length-zeros n)

pub parse-zeros : (n : ℕ) (s : Text) → parse_from 0 (zeros n ++ s) ≡ parse_from 0 s
unfolding zeros parse_from
parse-zeros zero s = refl
parse-zeros (suc n) s = parse-zeros n s

pub zeros-all_decimal : (n : ℕ) → all_decimal (zeros n) ≡ true
unfolding zeros all_decimal
zeros-all_decimal zero = refl
zeros-all_decimal (suc n) = ground (arith, zeros-all_decimal n)

-- A point after digits is the first one.
pub split_dot-digits :
    (whole frac : Text)
    → all_decimal whole ≡ true
    → split_dot (whole ++ b'.' ∷ frac) ≡ (whole, some frac)
unfolding split_dot all_decimal
split_dot-digits [] frac h = refl
split_dot-digits (c ∷ whole) frac h = ground (arith, split_dot-digits whole frac)

pub first_chars-four : (s t : Text) → length s ≡ 4 → first_chars 4 (s ++ t) ≡ s
unfolding first_chars
first_chars-four (a ∷ b ∷ c ∷ d ∷ []) t h = refl
first_chars-four [] t h = absurd (omega arith)
first_chars-four (a ∷ []) t h = absurd (omega arith)
first_chars-four (a ∷ b ∷ []) t h = absurd (omega arith)
first_chars-four (a ∷ b ∷ c ∷ []) t h = absurd (omega arith)
first_chars-four (a ∷ b ∷ c ∷ d ∷ e ∷ s) t h = absurd (omega arith)

pub after_chars-four : (s : Text) → length s ≡ 4 → after_chars 4 s ≡ []
unfolding after_chars
after_chars-four (a ∷ b ∷ c ∷ d ∷ []) h = refl
after_chars-four [] h = absurd (omega arith)
after_chars-four (a ∷ []) h = absurd (omega arith)
after_chars-four (a ∷ b ∷ []) h = absurd (omega arith)
after_chars-four (a ∷ b ∷ c ∷ []) h = absurd (omega arith)
after_chars-four (a ∷ b ∷ c ∷ d ∷ e ∷ s) h = absurd (omega arith)
