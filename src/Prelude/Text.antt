-- ===== src/Prelude/Text.antt =====
-- JavaScript strings as lists of character codes. The case functions are those of ASCII text, which
-- all tags, symbols, statuses and strategy names of the desk are.
use Prim.Native.Nat.{ℕ, ◌-◌, ◌+◌}
use Prim.Native.Char.{code}
use Prim.Native.String.{String}
use mathlib.Core.Path.{◌≡◌, refl}
use mathlib.Core.Bool.{Bool, true, false, not, ◌&&◌, ◌||◌}
use mathlib.Core.Option.{Option, none, some}
use mathlib.Core.List.{List, [], ◌∷◌, ◌++◌, reverse, reverse-cons, reverse-reverse, map}
use native.Mathlib.Omega.{arith}
use cm_desk.Prelude.Tests.{leb, ◌==◌, if◌then◌else◌}

abbrev pub Text : Type 0
Text = List ℕ

abbrev pub codes : String → Text
codes String.[] = []
codes (String.◌∷◌ c s) = code c ∷ codes s

-- `a === b`
unfoldable pub text_eq : Text → Text → Bool
text_eq [] [] = true
text_eq (a ∷ s) (b ∷ t) = a == b && text_eq s t
text_eq s t = false

pub text_eq_refl : (s : Text) → text_eq s s ≡ true
unfolding text_eq
text_eq_refl [] = refl
text_eq_refl (a ∷ s) = ground (arith, text_eq_refl s)

pub eq_of_text_eq : (s t : Text) → text_eq s t ≡ true → s ≡ t
unfolding text_eq
eq_of_text_eq [] [] h = refl
eq_of_text_eq (a ∷ s) [] h = ground arith
eq_of_text_eq [] (b ∷ t) h = ground arith
eq_of_text_eq (a ∷ s) (b ∷ t) h = ground (arith, eq_of_text_eq s t)

-- `c === "LITERAL"` for a value that may be null or undefined
abbrev pub opt_text_eq : Option Text → Option Text → Bool
opt_text_eq none none = true
opt_text_eq (some s) (some t) = text_eq s t
opt_text_eq _ _ = false

-- the truth value of a string, and of one that may be missing
abbrev pub is_empty : Text → Bool
is_empty [] = true
is_empty _ = false

abbrev pub truthy : Option Text → Bool
truthy none = false
truthy (some []) = false
truthy (some (c ∷ s)) = true

abbrev upper_char : ℕ → ℕ
upper_char c = if leb b'a' c && leb c b'z' then c - 32 else c

abbrev lower_char : ℕ → ℕ
lower_char c = if leb b'A' c && leb c b'Z' then c + 32 else c

-- `s.toUpperCase()`
unfoldable pub to_upper : Text → Text
to_upper s = map upper_char s

-- `s.toLowerCase()`
unfoldable pub to_lower : Text → Text
to_lower s = map lower_char s

-- the spaces of Unicode beyond U+00A0, and the two ends of a line
abbrev is_wide_space : ℕ → Bool
is_wide_space c =
    c == 5760
    || (leb 8192 c && leb c 8202)
    || c == 8232
    || c == 8233
    || c == 8239
    || c == 8287
    || c == 12288
    || c == 65279

abbrev is_space : ℕ → Bool
is_space c = c == 32 || (leb 9 c && leb c 13) || c == 160 || is_wide_space c

drop_spaces : Text → Text
drop_spaces [] = []
drop_spaces (c ∷ s) = if is_space c then drop_spaces s else c ∷ s

-- `s.trim()`
unfoldable pub trim : Text → Text
unfolding drop_spaces
trim s = reverse (drop_spaces (reverse (drop_spaces s)))

-- A text with no space in it is trimmed already.
unfoldable pub no_spaces : Text → Bool
no_spaces [] = true
no_spaces (c ∷ s) = not (is_space c) && no_spaces s

drop_spaces-no_spaces : (s : Text) → no_spaces s ≡ true → drop_spaces s ≡ s
unfolding drop_spaces no_spaces
drop_spaces-no_spaces [] h = refl
drop_spaces-no_spaces (c ∷ s) h = ground arith

pub no_spaces-append :
    (s t : Text) → no_spaces s ≡ true → no_spaces t ≡ true → no_spaces (s ++ t) ≡ true
unfolding no_spaces
no_spaces-append [] t hs ht = ht
no_spaces-append (c ∷ s) t hs ht = ground (arith, no_spaces-append s t)

no_spaces-reverse : (s : Text) → no_spaces s ≡ true → no_spaces (reverse s) ≡ true
unfolding no_spaces
no_spaces-reverse [] h = refl
no_spaces-reverse (c ∷ s) h =
    rw (reverse-cons c s)
      (no_spaces-append (reverse s) (c ∷ []) (no_spaces-reverse s (ground arith)) (ground arith))

pub trim-no_spaces : (s : Text) → no_spaces s ≡ true → trim s ≡ s
unfolding trim
trim-no_spaces s h = rw (
  drop_spaces-no_spaces s h,
  drop_spaces-no_spaces (reverse s) (no_spaces-reverse s h),
  reverse-reverse s,
)

-- `s.startsWith(prefix)`
unfoldable pub starts_with : Text → Text → Bool
starts_with s [] = true
starts_with [] (p ∷ ps) = false
starts_with (c ∷ s) (p ∷ ps) = c == p && starts_with s ps

trims : trim (codes "  CHASE ") ≡ codes "CHASE"
unfolding trim
trims = refl
