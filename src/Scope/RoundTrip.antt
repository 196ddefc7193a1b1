-- ===== src/Scope/RoundTrip.antt =====
-- lib/flattenScope.ts: a request that asks for one scope is read as that scope.
use cm_desk.Prelude.{◌≡◌, refl, true, false, some, is_some}
use cm_desk.Prelude.Text.{Text, codes, text_eq, is_empty, no_spaces, trim, trim-no_spaces, to_upper}
use cm_desk.Risk.Settings.{strategy_key}
use cm_desk.Scope.{
  FlattenScope, all_scope, intraday, strategy_scope, chase_book, job, position, FlattenBody, text,
  yes, other, scope_ok, picks, trimmed, parse_instrument, normalize_chase_underlying,
  parse_flatten_scope,
}

abbrev empty_body : FlattenBody
empty_body = record {
  all_open = other;
  intraday_open = other;
  scope = other;
  strategy = other;
  instrument = other;
  job_id = other;
  position_id = other;
}

-- the request that asks for a scope
abbrev pub body_of : FlattenScope → FlattenBody
body_of all_scope = record empty_body { all_open = yes }
body_of intraday = record empty_body { scope = text (codes "intraday") }
body_of (strategy_scope name) = record empty_body { strategy = text name }
body_of (chase_book name) = record empty_body {
  strategy = text (codes "chase");
  instrument = text name;
}
body_of (job id) = record empty_body { job_id = text id }
body_of (position id) = record empty_body { position_id = text id }

abbrev IsName : Text → Type 0
IsName name = (is_empty name ≡ false) × (trim name ≡ name)

-- Names are trimmed and not empty; a strategy is one of the risk engine, an underlying one of Kite's.
abbrev pub IsScope : FlattenScope → Type 0
IsScope all_scope = Unit
IsScope intraday = Unit
IsScope (strategy_scope name) =
    IsName name × (to_upper name ≡ name) × (is_some (strategy_key name) ≡ true)
IsScope (chase_book name) = IsName name × (normalize_chase_underlying name ≡ some name)
IsScope (job id) = IsName id
IsScope (position id) = IsName id

chase_trimmed : trim (codes "chase") ≡ codes "chase"
unfolding no_spaces
chase_trimmed = trim-no_spaces (codes "chase") refl

parse_instrument-body_of :
    (name : Text)
    → trim name ≡ name
    → normalize_chase_underlying name ≡ some name
    → parse_instrument (body_of (chase_book name)) ≡ scope_ok (chase_book name)
unfolding parse_instrument text_eq to_upper
parse_instrument-body_of name trimmed known = rw (chase_trimmed, trimmed, known) refl

-- The request that asks for one scope, whose names are trimmed and not empty and whose strategy or
-- underlying is a known one, is read as that scope.
pub parse-body_of :
    (scope : FlattenScope)
    → IsScope scope
    → parse_flatten_scope (some (body_of scope)) ≡ scope_ok scope
unfolding parse_flatten_scope picks text_eq
parse-body_of all_scope h = refl
parse-body_of intraday h = refl
parse-body_of (strategy_scope name) ((full, trimmed), upper, known) =
    rw (trimmed, full, upper, known) refl
parse-body_of (chase_book name) ((full, trimmed), known) =
    rw (trimmed, full) (parse_instrument-body_of name trimmed known)
parse-body_of (job id) (full, trimmed) = rw (trimmed, full) refl
parse-body_of (position id) (full, trimmed) = rw (trimmed, full) refl
