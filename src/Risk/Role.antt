-- ===== src/Risk/Role.antt =====
-- lib/trading/riskEngine.ts: the role of an order, and the lots that its check uses.
use cm_desk.Prelude.{
  ◌≡◌, Bool, true, false, not, ◌&&◌, ◌||◌, Option, none, some, arith, or_else, [], if◌then◌else◌,
}
use cm_desk.Prelude.Text.{Text, codes, text_eq, to_upper}
use cm_desk.Prelude.Double.{Double}

pub data OrderRole : Type 0 where
  entry exit sl flatten : OrderRole

abbrev pub is_entry : OrderRole → Bool
is_entry entry = true
is_entry _ = false

-- `(value || "").toUpperCase()`
abbrev pub upper_or_empty : Option Text → Text
upper_or_empty value = to_upper (or_else value [])

unfoldable pub is_stop_type : Text → Bool
is_stop_type type =
    text_eq type (codes "SL") || text_eq type (codes "SL-M") || text_eq type (codes "SL-L")

unfoldable pub infer_order_role : Option Text → Option Text → OrderRole
infer_order_role purpose_text order_type =
    let purpose = upper_or_empty purpose_text in
    if text_eq purpose (codes "ENTRY")
    then entry
    else if text_eq purpose (codes "FLATTEN") || text_eq purpose (codes "SQUARE_OFF")
    then flatten
    else if text_eq purpose (codes "SL") || text_eq purpose (codes "EXIT")
    then (if text_eq purpose (codes "SL") then sl else exit)
    else if is_stop_type (upper_or_empty order_type)
    then sl
    else entry

-- The four purposes that make an order one that reduces risk.
abbrev pub reduces : Text → Bool
reduces purpose =
    text_eq purpose (codes "FLATTEN")
    || text_eq purpose (codes "SQUARE_OFF")
    || text_eq purpose (codes "SL")
    || text_eq purpose (codes "EXIT")

-- An order is an entry exactly when its purpose says so, or when its purpose is none of the four that
-- reduce risk and its type is not that of a stop.
pub infer_role-entry :
    (purpose order_type : Option Text)
    → is_entry (infer_order_role purpose order_type) ≡ (
        text_eq (upper_or_empty purpose) (codes "ENTRY")
        || (not (reduces (upper_or_empty purpose))
            && not (is_stop_type (upper_or_empty order_type))))
unfolding infer_order_role
infer_role-entry purpose order_type = ground arith

module _ {ℓ} {F : Type ℓ} ⦃d : Double F⦄ where
  -- The stored job's lots win over the caller's, and a figure that is not finite counts as missing.
  finite_or : Option F → Option F → Option F
  finite_or none other = other
  finite_or (some x) other = if d.is_finite x then some x else other

  unfoldable pub lots_for_risk_check : Option F → Option F → Option F
  unfolding finite_or
  lots_for_risk_check caller stored = finite_or stored (finite_or caller none)
