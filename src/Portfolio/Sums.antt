-- ===== src/Portfolio/Sums.antt =====
-- lib/trading/portfolio.ts: what the loop of `computePortfolio` adds up.
use cm_desk.Prelude.{
  ℕ, suc, ◌+◌, ◌≡◌, refl, sym, ap, ◌∙◌, Bool, Option, none, some, or_else, List, [], ◌∷◌, All,
  filter, Bool-cases, inl, inr, arith, if◌then◌else◌, length, not,
}
use cm_desk.Prelude.Int.{ℤ, pos, negsuc, abs, ◌+ℤ◌, ◌*ℤ◌, ◌≤ℤ◌, eqb_ℤ, int_laws, mul_parts}
use cm_desk.Prelude.Text.{Text, text_eq, eq_of_text_eq}
use cm_desk.Money.{Money, Result, ok, throw, money_zero, money_add, money_mul_qty}
use cm_desk.Accounting.Mark.{market_value}
use cm_desk.Types.{TradeBookFilter}
use cm_desk.Ledger.{StoredPosition}
use cm_desk.Ledger.Rows.{total}
use cm_desk.Portfolio.{
  StrategyPnl, Totals, in_view, explicit_mark, strategy_of, add_to_bucket, row_unrealized, add_row,
  totals_from,
}

abbrev pub read_mark : Result (Option Money) → Option Money
read_mark (ok m) = m
read_mark (throw e) = none

-- an amount, of the strategies that are chosen
abbrev pub chosen : (Text → Bool) → Text → Money → Money
chosen q strategy amount = if q strategy then amount else money_zero

chosen-add :
    (q : Text → Bool) (key : Text) (a b : Money)
    → chosen q key (a +ℤ b) ≡ chosen q key a +ℤ chosen q key b
chosen-add q key a b = elim (Bool-cases (q key)) [
  | inl h ↦ rw h refl
  | inr h ↦ rw h (omega int_laws)
]

pub zero_add : (a : Money) → money_zero +ℤ a ≡ a
zero_add a = omega int_laws

module _ (q : Text → Bool) (key : Text) (r u : Money) where
  bucket-adds :
      (bs : List StrategyPnl)
      → (total (λ b. chosen q b.strategy b.realized) (add_to_bucket key r u bs)
          ≡ total (λ b. chosen q b.strategy b.realized) bs +ℤ chosen q key r)
        × (total (λ b. chosen q b.strategy b.unrealized) (add_to_bucket key r u bs)
            ≡ total (λ b. chosen q b.strategy b.unrealized) bs +ℤ chosen q key u)
  unfolding total add_to_bucket money_add
  bucket-adds [] = rw (zero_add r, zero_add u) (omega int_laws, omega int_laws)
  bucket-adds (b ∷ bs) = elim (Bool-cases (text_eq b.strategy key)) [
    | inl h ↦
        let same = eq_of_text_eq b.strategy key h in
        rw (h, chosen-add q b.strategy b.realized r, chosen-add q b.strategy b.unrealized u, same)
          (omega int_laws, omega int_laws)
    | inr h ↦
        let (rest_r, rest_u) = bucket-adds bs in
        rw (h, rest_r, rest_u) (omega int_laws, omega int_laws)
  ]

product-bounded :
    (k : ℕ) (q : ℤ)
    → (pos k *ℤ q ≤ℤ pos k *ℤ pos (abs q)) × (pos 0 ≤ℤ pos k *ℤ pos (abs q) +ℤ pos k *ℤ q)
product-bounded k (pos n) =
    (grind (int_laws, mul_parts (pos k) (pos n)), grind (int_laws, mul_parts (pos k) (pos n)))
product-bounded k (negsuc n) =
    let down = mul_parts (pos k) (negsuc n) in
    let up = mul_parts (pos k) (pos (suc n)) in
    (grind (int_laws, down, up), grind (int_laws, down, up))

exposure-bounded :
    (k : ℕ) (q : ℤ)
    → (market_value q (pos k) ≤ℤ market_value (pos (abs q)) (pos k))
      × (pos 0 ≤ℤ market_value (pos (abs q)) (pos k) +ℤ market_value q (pos k))
unfolding market_value money_mul_qty
exposure-bounded k q = product-bounded k q

abbrev pub as_mark : Option ℕ → Option Money
as_mark none = none
as_mark (some k) = some (pos k)

-- The mark of a row, where there is one, reads as an amount that is not negative.
abbrev pub Readable : (Text → Option Text) → StoredPosition → Type 0
Readable marks p = (m : Option ℕ) × (explicit_mark marks p ≡ ok (as_mark m))

abbrev pub is_held : StoredPosition → Bool
is_held p = not (eqb_ℤ p.quantity (pos 0))

module _ (marks : Text → Option Text) where
  abbrev pub unrealized_of : StoredPosition → Money
  unrealized_of p = row_unrealized p (read_mark (explicit_mark marks p))

  -- What the loop adds for rows that it takes, where `q` chooses strategies.
  pub record Sums (q : Text → Bool) (ps : List StoredPosition) (t t' : Totals) : Type 0 where
    pub realized : t'.realized ≡ t.realized +ℤ total (λ p. p.realized_pnl) ps
    pub unrealized : t'.unrealized ≡ t.unrealized +ℤ total unrealized_of ps
    pub fees : t'.fees ≡ t.fees +ℤ total (λ p. p.fees) ps
    pub held : t'.open_count ≡ t.open_count + length (filter is_held ps)
    pub high : t'.net_exposure +ℤ t.gross_exposure ≤ℤ t'.gross_exposure +ℤ t.net_exposure
    pub low : t.gross_exposure +ℤ t.net_exposure ≤ℤ t'.gross_exposure +ℤ t'.net_exposure
    pub strategy_realized :
        total (λ b. chosen q b.strategy b.realized) t'.by_strategy
        ≡ total (λ b. chosen q b.strategy b.realized) t.by_strategy
          +ℤ total (λ p. chosen q (strategy_of p) p.realized_pnl) ps
    pub strategy_unrealized :
        total (λ b. chosen q b.strategy b.unrealized) t'.by_strategy
        ≡ total (λ b. chosen q b.strategy b.unrealized) t.by_strategy
          +ℤ total (λ p. chosen q (strategy_of p) (unrealized_of p)) ps

  nothing-Sums : (q : Text → Bool) (t : Totals) → Sums q [] t t
  unfolding total
  nothing-Sums q t = record {
    realized = omega int_laws;
    unrealized = omega int_laws;
    fees = omega int_laws;
    held = omega arith;
    high = omega int_laws;
    low = omega int_laws;
    strategy_realized = omega int_laws;
    strategy_unrealized = omega int_laws;
  }

  exposure-grows :
      (m : Option ℕ) (q gross net : ℤ)
      → ((net +ℤ market_value q (or_else (as_mark m) money_zero)) +ℤ gross
          ≤ℤ (gross +ℤ market_value (pos (abs q)) (or_else (as_mark m) money_zero)) +ℤ net)
        × (gross +ℤ net
            ≤ℤ (gross +ℤ market_value (pos (abs q)) (or_else (as_mark m) money_zero))
              +ℤ (net +ℤ market_value q (or_else (as_mark m) money_zero)))
  exposure-grows none q gross net =
      let (high, low) = exposure-bounded 0 q in (omega (int_laws, high), omega (int_laws, low))
  exposure-grows (some k) q gross net =
      let (high, low) = exposure-bounded k q in (omega (int_laws, high), omega (int_laws, low))

  row-Sums :
      (q : Text → Bool) (p : StoredPosition) (ps : List StoredPosition) (m : Option ℕ)
      (t t' : Totals)
      → explicit_mark marks p ≡ ok (as_mark m)
      → Sums q ps (add_row p (as_mark m) t) t'
      → Sums q (p ∷ ps) t t'
  unfolding total add_row money_add
  row-Sums q p ps m t t' e rest =
      let u : row_unrealized p (as_mark m) ≡ unrealized_of p =
        ap (λ r. row_unrealized p (read_mark r)) (sym e) in
      let (high, low) = exposure-grows m p.quantity t.gross_exposure t.net_exposure in
      let (kept_r, kept_u) =
        bucket-adds q (strategy_of p) p.realized_pnl (row_unrealized p (as_mark m)) t.by_strategy in
      record {
        realized = rw rest.realized (omega int_laws);
        unrealized = rw (rest.unrealized, u) (omega int_laws);
        fees = rw rest.fees (omega int_laws);
        held = elim (Bool-cases (eqb_ℤ p.quantity (pos 0))) [
          | inl h ↦ rest.held ∙ rw h refl
          | inr h ↦ rest.held ∙ rw h (omega arith)
        ];
        high = omega (int_laws, high, rest.high);
        low = omega (int_laws, low, rest.low);
        strategy_realized = rw (rest.strategy_realized, kept_r) (omega int_laws);
        strategy_unrealized = rw (rest.strategy_unrealized, kept_u, u) (omega int_laws);
      }

  pub loop-Sums :
      (book : TradeBookFilter) (ps : List StoredPosition) (t : Totals)
      → All (Readable marks) ps
      → (t' : Totals) × (totals_from marks book ps t ≡ ok t')
        × ((q : Text → Bool) → Sums q (filter (in_view book) ps) t t')
  unfolding totals_from
  loop-Sums book [] t readable = (t, refl, λ q. nothing-Sums q t)
  loop-Sums book (p ∷ ps) t ((m, e), readable) = elim (Bool-cases (in_view book p)) [
    | inl h ↦
        let (t', done, sums) = loop-Sums book ps (add_row p (as_mark m) t) readable in
        (t', rw (h, e) done, λ q. rw h (row-Sums q p (filter (in_view book) ps) m t t' e (sums q)))
    | inr h ↦
        let (t', done, sums) = loop-Sums book ps t readable in (t', rw h done, λ q. rw h (sums q))
  ]
