-- ===== src/Examples/Requests.antt =====
-- A request to flatten one book of Chase.
use cm_desk.Prelude.{◌≡◌, refl, some}
use cm_desk.Prelude.Text.{codes, no_spaces, trim-no_spaces, to_upper}
use cm_desk.Scope.{
  chase_book, scope_ok, parse_flatten_scope, normalize_chase_underlying, is_underlying,
  are_name_codes, is_fut_symbol,
}
use cm_desk.Scope.RoundTrip.{body_of, IsScope, parse-body_of}

nifty_trimmed : IsScope (chase_book (codes "NIFTY"))
unfolding no_spaces normalize_chase_underlying is_underlying are_name_codes is_fut_symbol to_upper
nifty_trimmed = let same = trim-no_spaces (codes "NIFTY") refl in ((refl, same), rw same refl)

parse-body_of_example :
    parse_flatten_scope (some (body_of (chase_book (codes "NIFTY"))))
    ≡ scope_ok (chase_book (codes "NIFTY"))
parse-body_of_example = parse-body_of (chase_book (codes "NIFTY")) nifty_trimmed
