-- ===== src/Money/Decimal.antt =====
-- lib/trading/money.ts: `moneyToString` and `moneyFromString`. `toString` of a bigint is its decimal
-- digits, computed on fuel one above the number.
pub mod Digits
pub mod RoundTrip
use cm_desk.Prelude.{
  ℕ, zero, suc, ◌+◌, ◌-◌, ◌*◌, ◌/◌, ◌%◌, Bool, true, false, not, ◌&&◌, ◌||◌, Option, none, some,
  or_else, List, [], ◌∷◌, ◌++◌, length, any, ◌==◌, ltb, leb, if◌then◌else◌,
}
use cm_desk.Prelude.Int.{ℤ, pos, abs}
use cm_desk.Prelude.Text.{Text, codes, starts_with, trim, is_empty}
use cm_desk.Money.{Money, money_factor, Result, ok, throw, invalid_money, is_neg, with_sign}

abbrev pub digit_char : ℕ → ℕ
digit_char d = b'0' + d

-- the digits of a number, by its quotients by ten
pub digits_from : ℕ → ℕ → Text
digits_from zero n = []
digits_from (suc fuel) n = elim (ltb n 10) [
  | true ↦ digit_char n ∷ []
  | false ↦ digits_from fuel (n / 10) ++ digit_char (n % 10) ∷ []
]

abbrev pub to_digits : ℕ → Text
to_digits n = digits_from (suc n) n

pub zeros : ℕ → Text
zeros zero = []
zeros (suc n) = b'0' ∷ zeros n

-- `s.padStart(n, "0")`
abbrev pub pad_start : ℕ → Text → Text
pad_start n s = zeros (n - length s) ++ s

abbrev pub sign_text : Bool → Text
sign_text negative = if negative then b'-' ∷ [] else []

unfoldable pub money_to_string : Money → Text
unfolding digits_from zeros
money_to_string value =
    let whole = abs value / money_factor in
    let frac = abs value % money_factor in
    sign_text (is_neg value) ++ (to_digits whole ++ b'.' ∷ pad_start 4 (to_digits frac))

-- `BigInt(s)` on decimal digits
pub parse_from : ℕ → Text → ℕ
parse_from acc [] = acc
parse_from acc (c ∷ s) = parse_from (acc * 10 + (c - b'0')) s

abbrev pub is_decimal : ℕ → Bool
is_decimal c = leb b'0' c && leb c b'9'

-- `/^\d+$/`
pub all_decimal : Text → Bool
all_decimal [] = true
all_decimal (c ∷ s) = is_decimal c && all_decimal s

abbrev pub is_digits : Text → Bool
is_digits s = not (is_empty s) && all_decimal s

-- `s.split(".")`, the part before the first point and the part after it
pub split_dot : Text → Text × Option Text
split_dot [] = ([], none)
split_dot (c ∷ s) =
    let rest = split_dot s in if c == b'.' then ([], some s) else (c ∷ rest.0, rest.1)

abbrev pub is_optional_digits : Option Text → Bool
is_optional_digits none = true
is_optional_digits (some s) = is_digits s

-- `s.slice(1)`
abbrev pub rest_of : Text → Text
rest_of [] = []
rest_of (c ∷ s) = s

abbrev pub is_signed : Text → Bool
is_signed s = starts_with s (b'-' ∷ [])

abbrev pub unsigned_of : Text → Text
unsigned_of s = if is_signed s then rest_of s else s

-- the test of `MONEY_RE`
abbrev pub is_money : Text → Bool
is_money s =
    let parts = split_dot (unsigned_of s) in is_digits parts.0 && is_optional_digits parts.1

-- `s.slice(0, n)` and `s.slice(n)`
pub first_chars : ℕ → Text → Text
first_chars zero s = []
first_chars (suc n) [] = []
first_chars (suc n) (c ∷ s) = c ∷ first_chars n s

pub after_chars : ℕ → Text → Text
after_chars zero s = s
after_chars (suc n) [] = []
after_chars (suc n) (c ∷ s) = after_chars n s

-- One unit more where a digit beyond the scale is not zero and the first of them is at least 5.
abbrev pub round_up : Text → ℕ
round_up [] = 0
round_up (c ∷ extra) = if any (λ x. ltb b'0' x) (c ∷ extra) && leb b'5' c then 1 else 0

abbrev pub units_of : Text → Text → ℕ
units_of whole frac =
    parse_from 0 whole * money_factor
    + parse_from 0 (first_chars 4 (frac ++ zeros 4))
    + round_up (after_chars 4 frac)

unfoldable pub money_from_string : Text → Result Money
unfolding parse_from all_decimal split_dot first_chars after_chars zeros
money_from_string value =
    let trimmed = trim value in
    if not (is_money trimmed)
    then throw invalid_money
    else let parts = split_dot (unsigned_of trimmed) in
      ok (with_sign (is_signed trimmed) (units_of parts.0 (or_else parts.1 [])))
