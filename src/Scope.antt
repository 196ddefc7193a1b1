-- ===== src/Scope.antt =====
-- lib/flattenScope.ts, lib/chaseUniverse.ts: which positions a request to flatten asks for.
pub mod RoundTrip
use mathlib.Core.List.{reverse}
use cm_desk.Prelude.{
  ℕ, Bool, true, false, not, ◌&&◌, ◌||◌, Option, none, some, is_some, List, [], ◌∷◌, ◌++◌, any,
  length, leb, ◌==◌, if◌then◌else◌,
}
use cm_desk.Prelude.Text.{Text, codes, text_eq, is_empty, trim, to_upper}
use cm_desk.Risk.Settings.{strategy_key}

pub data FlattenScope : Type 0 where
  all_scope intraday : FlattenScope
  strategy_scope chase_book job position : Text → FlattenScope

-- A value of the request's body, as far as the tests tell values apart.
pub data BodyValue : Type 0 where
  text : Text → BodyValue
  yes other : BodyValue

pub record FlattenBody : Type 0 where
  pub all_open : BodyValue
  pub intraday_open : BodyValue
  pub scope : BodyValue
  pub strategy : BodyValue
  pub instrument : BodyValue
  pub job_id : BodyValue
  pub position_id : BodyValue

pub data ScopeError : Type 0 where
  not_one_scope instrument_without_chase bad_underlying bad_strategy : ScopeError

pub data ParsedScope : Type 0 where
  scope_ok : FlattenScope → ParsedScope
  scope_error : ScopeError → ParsedScope

abbrev pub is_upper : ℕ → Bool
is_upper c = leb b'A' c && leb c b'Z'

abbrev pub is_digit : ℕ → Bool
is_digit c = leb b'0' c && leb c b'9'

unfoldable pub are_name_codes : Text → Bool
are_name_codes [] = true
are_name_codes (c ∷ s) = (is_upper c || is_digit c) && are_name_codes s

-- `/^[A-Z][A-Z0-9]{0,19}$/`
unfoldable pub is_underlying : Text → Bool
is_underlying [] = false
is_underlying (c ∷ s) = is_upper c && are_name_codes s && leb (length s) 19

abbrev pub month_codes : List Text
month_codes =
    codes "JAN"
    ∷ codes "FEB"
    ∷ codes "MAR"
    ∷ codes "APR"
    ∷ codes "MAY"
    ∷ codes "JUN"
    ∷ codes "JUL"
    ∷ codes "AUG"
    ∷ codes "SEP"
    ∷ codes "OCT"
    ∷ codes "NOV"
    ∷ codes "DEC"
    ∷ []

-- `FUT_SYMBOL` on the reversed text: an underlying, two digits, a month and `FUT`
unfoldable pub is_fut_symbol : Text → Bool
is_fut_symbol (t ∷ u ∷ f ∷ z ∷ y ∷ x ∷ e ∷ d ∷ rest) =
    text_eq (f ∷ u ∷ t ∷ []) (codes "FUT")
    && any (text_eq (x ∷ y ∷ z ∷ [])) month_codes
    && is_digit d
    && is_digit e
    && is_underlying (reverse rest)
is_fut_symbol s = false

-- The value is a text where the code here calls it.
unfoldable pub normalize_chase_underlying : Text → Option Text
normalize_chase_underlying raw =
    let name = to_upper (trim raw) in
    if not (is_underlying name) || is_fut_symbol (reverse name) then none else some name

-- `typeof value === "string" ? value.trim() : ""`
abbrev pub trimmed : BodyValue → Text
trimmed (text s) = trim s
trimmed yes = []
trimmed other = []

-- `value === true`
abbrev pub is_yes : BodyValue → Bool
is_yes yes = true
is_yes (text s) = false
is_yes other = false

abbrev pub is_intraday_text : BodyValue → Bool
is_intraday_text (text s) = text_eq s (codes "intraday")
is_intraday_text yes = false
is_intraday_text other = false

abbrev pub is_given : BodyValue → Bool
is_given v = not (is_empty (trimmed v))

-- another scope beside an instrument
abbrev pub is_mixed : FlattenBody → Bool
is_mixed body =
    is_yes body.all_open
    || is_yes body.intraday_open
    || is_intraday_text body.scope
    || is_given body.job_id
    || is_given body.position_id

unfoldable pub parse_instrument : FlattenBody → ParsedScope
parse_instrument body =
    let strategy = to_upper (trimmed body.strategy) in
    if is_mixed body
    then scope_error not_one_scope
    else if not (is_empty strategy) && not (text_eq strategy (codes "CHASE"))
    then scope_error instrument_without_chase
    else elim (normalize_chase_underlying (trimmed body.instrument)) [
      | none ↦ scope_error bad_underlying
      | some instrument ↦ scope_ok (chase_book instrument)
    ]

abbrev pub pick_if : Bool → FlattenScope → List FlattenScope
pick_if true scope = scope ∷ []
pick_if false scope = []

unfoldable pub picks : FlattenBody → List FlattenScope
picks body =
    pick_if (is_yes body.all_open) all_scope
    ++ pick_if (is_yes body.intraday_open || is_intraday_text body.scope) intraday
    ++ pick_if (is_given body.strategy) (strategy_scope (to_upper (trimmed body.strategy)))
    ++ pick_if (is_given body.job_id) (job (trimmed body.job_id))
    ++ pick_if (is_given body.position_id) (position (trimmed body.position_id))

-- `picks.length !== 1`
abbrev pub single : List FlattenScope → ParsedScope
single (scope ∷ []) = scope_ok scope
single [] = scope_error not_one_scope
single (scope ∷ next ∷ scopes) = scope_error not_one_scope

unfoldable pub parse_flatten_scope : Option FlattenBody → ParsedScope
parse_flatten_scope none = scope_error not_one_scope
parse_flatten_scope (some body) =
    if is_given body.instrument
    then parse_instrument body
    else if is_given body.strategy
        && not (is_some (strategy_key (to_upper (trimmed body.strategy))))
    then scope_error bad_strategy
    else single (picks body)
