-- ===== src/Money/Decimal/RoundTrip.antt =====
-- lib/trading/money.ts: reading back a printed amount.
use cm_desk.Prelude.{
  ℕ, suc, ◌-◌, ◌/◌, ◌%◌, ◌<◌, ◌≡◌, refl, ap, ◌∙◌, Bool, true, false, ◌&&◌, some, [], ◌∷◌, ◌++◌,
  length, length-append, arith,
}
use cm_desk.Prelude.Int.{pos, negsuc, abs}
use cm_desk.Prelude.Text.{Text, is_empty, starts_with, trim-no_spaces, no_spaces-append, no_spaces}
use cm_desk.Money.{Money, ok, is_neg, with_sign}
use cm_desk.Money.Decimal.{
  to_digits, zeros, pad_start, sign_text, money_to_string, all_decimal, is_digits, split_dot,
  unsigned_of, is_signed, is_money, units_of, money_from_string,
}
use cm_desk.Money.Decimal.Digits.{
  all_decimal-append, parse-digits, digits-all_decimal, digits-not_empty, digits-four,
  all_decimal-no_spaces, length-zeros, parse-zeros, zeros-all_decimal, split_dot-digits,
  first_chars-four, after_chars-four,
}

-- The four printed digits of a fraction.
abbrev frac_text : ℕ → Text
frac_text frac = pad_start 4 (to_digits frac)

frac-length : (frac : ℕ) → frac < 10_000 → length (frac_text frac) ≡ 4
frac-length frac h =
    let digits = to_digits frac in
    omega (
      arith,
      length-append (zeros (4 - length digits)) digits,
      length-zeros (4 - length digits),
      digits-four frac h,
    )

frac-all_decimal : (frac : ℕ) → all_decimal (frac_text frac) ≡ true
frac-all_decimal frac =
    all_decimal-append _ _ (zeros-all_decimal _) (digits-all_decimal (suc frac) frac)

length_pos-not_empty : (s : Text) → length s ≡ 4 → is_empty s ≡ false
length_pos-not_empty [] h = absurd (omega arith)
length_pos-not_empty (c ∷ s) h = refl

-- what is printed after the sign
abbrev body : ℕ → Text
body n = to_digits (n / 10_000) ++ b'.' ∷ frac_text (n % 10_000)

body-split : (n : ℕ) → split_dot (body n) ≡ (to_digits (n / 10_000), some (frac_text (n % 10_000)))
body-split n = split_dot-digits _ _ (digits-all_decimal _ _)

body-units : (n : ℕ) → units_of (to_digits (n / 10_000)) (frac_text (n % 10_000)) ≡ n
body-units n =
    let four = frac-length (n % 10_000) (omega arith) in
    rw
      (
        first_chars-four (frac_text (n % 10_000)) (zeros 4) four,
        after_chars-four (frac_text (n % 10_000)) four,
        parse-digits (suc (n / 10_000)) (n / 10_000) (omega arith),
        parse-zeros (4 - length (to_digits (n % 10_000))) (to_digits (n % 10_000)),
        parse-digits (suc (n % 10_000)) (n % 10_000) (omega arith),
      )
      (omega arith)

body-digits :
    (n : ℕ) → (is_digits (to_digits (n / 10_000)) && is_digits (frac_text (n % 10_000))) ≡ true
body-digits n =
    rw
      (
        digits-not_empty (n / 10_000),
        digits-all_decimal (suc (n / 10_000)) (n / 10_000),
        length_pos-not_empty (frac_text (n % 10_000)) (frac-length (n % 10_000) (omega arith)),
        frac-all_decimal (n % 10_000),
      )
      refl

digits-unsigned :
    (s t : Text) → is_empty s ≡ false → all_decimal s ≡ true → is_signed (s ++ t) ≡ false
unfolding starts_with all_decimal
digits-unsigned [] t e h = ground arith
digits-unsigned (c ∷ s) t e h = ground arith

body-unsigned : (n : ℕ) → is_signed (body n) ≡ false
body-unsigned n = digits-unsigned _ _ (digits-not_empty _) (digits-all_decimal _ _)

body-no_spaces : (n : ℕ) → no_spaces (body n) ≡ true
body-no_spaces n =
    no_spaces-append (to_digits (n / 10_000)) (b'.' ∷ frac_text (n % 10_000))
      (all_decimal-no_spaces _ (digits-all_decimal _ _))
      (unfold no_spaces in
        ground (arith, all_decimal-no_spaces (frac_text (n % 10_000)) (frac-all_decimal _)))

-- an amount without its sign
abbrev printed : Bool → ℕ → Text
printed negative n = sign_text negative ++ body n

printed-no_spaces : (negative : Bool) (n : ℕ) → no_spaces (printed negative n) ≡ true
printed-no_spaces true n = unfold no_spaces in body-no_spaces n
printed-no_spaces false n = body-no_spaces n

printed-signed : (negative : Bool) (n : ℕ) → is_signed (printed negative n) ≡ negative
printed-signed true n = unfold starts_with in refl
printed-signed false n = body-unsigned n

printed-unsigned : (negative : Bool) (n : ℕ) → unsigned_of (printed negative n) ≡ body n
printed-unsigned true n = unfold starts_with in refl
printed-unsigned false n = rw (body-unsigned n)

printed-money : (negative : Bool) (n : ℕ) → is_money (printed negative n) ≡ true
printed-money negative n = rw (printed-unsigned negative n, body-split n) (body-digits n)

read-printed :
    (negative : Bool) (n : ℕ) → money_from_string (printed negative n) ≡ ok (with_sign negative n)
unfolding money_from_string
read-printed negative n =
    rw
      (
        trim-no_spaces (printed negative n) (printed-no_spaces negative n),
        printed-unsigned negative n,
        body-split n,
        body-digits n,
        printed-signed negative n,
        body-units n,
      )
      refl

signed_back : (m : Money) → with_sign (is_neg m) (abs m) ≡ m
signed_back (pos n) = ground arith
signed_back (negsuc n) = ground arith

-- Every amount is read back from the text that it is printed as.
pub money_from_string-money_to_string : (m : Money) → money_from_string (money_to_string m) ≡ ok m
unfolding money_to_string
money_from_string-money_to_string m = read-printed (is_neg m) (abs m) ∙ ap ok (signed_back m)
