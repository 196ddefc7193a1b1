-- ===== src/Reconcile/Positions/Totals.antt =====
-- lib/trading/reconcile.ts: what the comparison finds, against the sums over the ledger's rows.
use cm_desk.Prelude.{
  ◌≡◌, refl, sym, ap, ◌∙◌, Bool, true, false, not, ◌&&◌, Option, none, some, List, [], ◌∷◌, inl,
  inr, Bool-cases, ltb, subst, arith, if◌then◌else◌,
}
use cm_desk.Prelude.Int.{ℤ, pos, ◌+ℤ◌, eqb_ℤ, int_laws}
use cm_desk.Prelude.Text.{Text, text_eq, text_eq_refl, eq_of_text_eq}
use cm_desk.Money.{Money, Result, ok, throw, ◌>>=◌, money_material_diff, default_tolerance}
use cm_desk.Accounting.Rows.{money_from_unknown}
use cm_desk.Ledger.Totals.{quotient}
use cm_desk.Types.{is_synthetic_provenance}
use cm_desk.Ledger.{StoredPosition}
use cm_desk.Ledger.Rows.{total}
use cm_desk.Reconcile.Positions.{
  position_mismatch, Mismatch, BrokerPosition, Held, held_get, held_set, position_key, add_held,
  add_position, aggregate, broker_key, average_event, compare_average, compare_position,
}

-- what a row has of a contract in the live book
abbrev pub live_qty : Text → StoredPosition → ℤ
live_qty k p =
    if not (is_synthetic_provenance p.provenance) && text_eq (position_key p) k
    then p.quantity
    else pos 0

get-set :
    (k j : Text) (held : Held) (m : List (Text × Held))
    → held_get k (held_set j held m) ≡ (if text_eq j k then held else held_get k m)
unfolding held_get held_set
get-set k j held [] = refl
get-set k j held ((i, old) ∷ m) = elim (Bool-cases (text_eq i j)) [
  | inl same ↦ let key : i ≡ j = eq_of_text_eq i j same in rw (same, key) (ground arith)
  | inr apart ↦ rw apart (elim (Bool-cases (text_eq i k)) [
    | inl here ↦
        let key : i ≡ k = eq_of_text_eq i k here in
        elim (Bool-cases (text_eq j k)) [
          | inr jk ↦ rw (here, jk) refl
          | inl jk ↦
              let back : j ≡ i = eq_of_text_eq j k jk ∙ sym key in
              let same : text_eq i j ≡ true = ap (text_eq i) back ∙ text_eq_refl i in absurd (cc)
        ]
    | inr other ↦ rw other (get-set k j held m)
  ])
]

add_position-qty :
    (k : Text) (p : StoredPosition) (m : List (Text × Held))
    → (held_get k (add_position p m)).qty ≡ (held_get k m).qty +ℤ live_qty k p
add_position-qty k p m = elim (Bool-cases (is_synthetic_provenance p.provenance)) [
  | inl synthetic ↦ rw synthetic (omega int_laws)
  | inr live ↦
      let set =
        ap (λ h. h.qty) (get-set k (position_key p) (add_held p (held_get (position_key p) m)) m) in
      rw live (
        set ∙ (elim (Bool-cases (text_eq (position_key p) k)) [
          | inl here ↦
              let key : position_key p ≡ k = eq_of_text_eq (position_key p) k here in
              rw here (ap (λ j. (held_get j m).qty +ℤ p.quantity) key)
          | inr other ↦ rw other (omega int_laws)
        ]))
]

zero_add : (x : ℤ) → pos 0 +ℤ x ≡ x
zero_add x = omega int_laws

aggregate-qty :
    (k : Text) (ps : List StoredPosition) (m : List (Text × Held))
    → (held_get k (aggregate ps m)).qty ≡ (held_get k m).qty +ℤ total (live_qty k) ps
unfolding aggregate total
aggregate-qty k [] m = omega int_laws
aggregate-qty k (p ∷ ps) m =
    aggregate-qty k ps (add_position p m)
    ∙ ap (λ x. x +ℤ total (live_qty k) ps) (add_position-qty k p m)
    ∙ omega int_laws

-- The comparison reports a quantity.
abbrev pub reports_qty : Result (Option Mismatch) → Bool
reports_qty (ok (some event)) = elim event.kind [ position_mismatch ↦ true | _ ↦ false ]
reports_qty _ = false

bind-no_qty :
    (held : Held) (bp : BrokerPosition) (average : Text) (r : Result Money)
    → reports_qty (r >>= (λ b. ok (average_event held bp average b))) ≡ false
bind-no_qty held bp average (throw e) = refl
bind-no_qty held bp average (ok b) =
    elim (Bool-cases
      (money_material_diff (quotient held.cost (pos held.abs_qty)) b default_tolerance)) [
        | inl material ↦ rw material refl
        | inr equal ↦ rw equal refl
      ]

average-no_qty :
    (held : Held) (bp : BrokerPosition) (average : Option Text)
    → reports_qty (compare_average held bp average) ≡ false
average-no_qty held bp none = refl
average-no_qty held bp (some average) = elim (Bool-cases (ltb 0 held.abs_qty)) [
  | inl something ↦ rw something (bind-no_qty held bp average (money_from_unknown (some average)))
  | inr nothing ↦ rw nothing refl
]

-- A difference of quantities is reported for a position of the broker exactly when the sum of the
-- quantities of the ledger's rows of that contract, those of paper and mock books apart, is not the
-- broker's; it does not matter how many strategies share the contract or in what order the rows come.
pub positions-compared :
    (ps : List StoredPosition) (bp : BrokerPosition)
    → reports_qty (compare_position (aggregate ps []) bp)
      ≡ not (eqb_ℤ (total (live_qty (broker_key bp)) ps) bp.quantity)
unfolding compare_position
positions-compared ps bp =
    let sum =
      aggregate-qty (broker_key bp) ps [] ∙ zero_add (total (live_qty (broker_key bp)) ps) in
    subst (λ x. reports_qty (compare_position (aggregate ps []) bp) ≡ not (eqb_ℤ x bp.quantity)) sum
      (elim (Bool-cases (eqb_ℤ (held_get (broker_key bp) (aggregate ps [])).qty bp.quantity)) [
        | inl same ↦
            rw same
              (average-no_qty (held_get (broker_key bp) (aggregate ps [])) bp bp.average_price)
        | inr differs ↦ rw differs refl
      ])
