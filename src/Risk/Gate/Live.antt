-- ===== src/Risk/Gate/Live.antt =====
-- lib/trading/riskGate.ts: what reaches the broker. An order is live when its strategy is not on paper
-- and the process is no mock.
use cm_desk.Prelude.Text.{Text, truthy}
use cm_desk.Prelude.{
  List, [], ◌∷◌, ltb, length, filter, take, ◌&&◌, ◌≡◌, ◌⊎◌, refl, subst, Bool, true, false, Option,
  none, some, arith, if◌then◌else◌,
}
use cm_desk.Prelude.Double.{Double}
use cm_desk.Types.{live}
use cm_desk.Risk.Settings.{RiskSettings, limits_for, is_paper_strategy, execution_provenance}
use cm_desk.Risk.Role.{is_entry}
use cm_desk.Risk.Evaluate.{RiskDecision, accepted, refused, evaluate_order}
use cm_desk.Risk.Evaluate.Entries.{IsAdmissible, evaluate-entry_iff}
use cm_desk.Risk.Gate.{
  allowed, GateOrder, GateRows, gate_role, gate_strategy, same_book, decide_with, gate_context,
  gate_intent, verdict, assert_order_allowed,
}

verdict-accepted : (r : RiskDecision) → verdict r ≡ allowed → r ≡ accepted
verdict-accepted accepted h = refl
verdict-accepted (refused code) h = cc

none_left {ℓ} : {A : Type ℓ} (xs : List A) → ltb 0 (length xs) ≡ false → xs ≡ []
none_left [] h = refl
none_left (x ∷ xs) h = absurd (ground arith)

none_pending :
    (paper tagged entry : Bool) (rows : List (Option Text))
    → (ltb 0 (length (if tagged then filter (same_book paper) rows else [])) && entry) ≡ false
    → paper ≡ false
    → entry ≡ true
    → tagged ≡ true
    → filter (same_book false) rows ≡ []
none_pending false true true rows h p e t =
    none_left (filter (same_book false) rows) (ground (arith, h))
none_pending true tagged entry rows h p e t = absurd (cc)
none_pending false false entry rows h p e t = absurd (cc)
none_pending false true false rows h p e t = absurd (cc)

module _ {ℓ} {F : Type ℓ} ⦃d : Double F⦄ (input : GateOrder F) (rows : GateRows F) where
  -- what an order is allowed on
  abbrev Accepts : Option F → Option (RiskSettings F) → Type ℓ
  Accepts quantity settings =
      (q : F) × (s : RiskSettings F) × (quantity ≡ some q)
      × (settings ≡ some s)
      × (evaluate_order (gate_intent input rows q) (gate_context input rows s) ≡ accepted)

  decided :
      (quantity : Option F) (settings : Option (RiskSettings F))
      → decide_with input rows quantity settings ≡ allowed
      → Accepts quantity settings
  unfolding decide_with
  decided none settings h = cc
  decided (some q) none h = cc
  decided (some q) (some s) h = (q, s, refl, refl, verdict-accepted _ h)

  order_allowed-Accepts :
      assert_order_allowed input rows ≡ allowed → Accepts input.quantity rows.settings
  unfolding assert_order_allowed
  order_allowed-Accepts h = decided input.quantity rows.settings (ground arith)

  order_allowed-IsAdmissible :
      (settings : RiskSettings F)
      → rows.settings ≡ some settings
      → is_entry (gate_role input) ≡ true
      → assert_order_allowed input rows ≡ allowed
      → (q : F) × IsAdmissible (gate_intent input rows q) (gate_context input rows settings)
  order_allowed-IsAdmissible settings s r h =
      let (q, found, _, same, passed) = order_allowed-Accepts h in
      let one : found ≡ settings = cc in
      let intent = gate_intent input rows q in
      let holds =
        subst (λ x. evaluate_order intent (gate_context input rows x) ≡ accepted) one passed in
      (q, (evaluate-entry_iff intent (gate_context input rows settings) r).0 holds)

  -- An entry that the gate allows, of a strategy whose orders go to the live book, passed these checks:
  -- live orders are allowed, the desk is not halted and is trading, its strategy is not
  -- halted, the market is open if the settings ask for it, and if the order has a tag, none of the first
  -- five pending orders with its tag, symbol, side and quantity is of the live book.
  pub order_allowed-live_entry :
      (settings : RiskSettings F)
      → rows.settings ≡ some settings
      → is_entry (gate_role input) ≡ true
      → execution_provenance rows.is_mock settings (gate_strategy input rows) ≡ live
      → assert_order_allowed input rows ≡ allowed
      → (settings.allow_live_orders ≡ true)
        × (settings.desk_halted ≡ false)
        × (settings.trading_enabled ≡ true)
        × ((limits_for settings (gate_strategy input rows)).halted ≡ false)
        × ((settings.require_market_hours ≡ false) ⊎ (rows.market_open ≡ true))
        × ((truthy input.tag ≡ true) → filter (same_book false) (take 5 rows.duplicates) ≡ [])
  unfolding execution_provenance
  order_allowed-live_entry settings s r on_live h =
      let (_, a) = order_allowed-IsAdmissible settings s r h in
      let on_live_book : is_paper_strategy settings (gate_strategy input rows) ≡ false =
        ground arith in
      (
        ground arith,
        ground arith,
        ground arith,
        ground arith,
        ground arith,
        λ tagged. none_pending _ _ _ (take 5 rows.duplicates) a.no_duplicate on_live_book r tagged,
      )
