-- ===== src/Paper/Execution/Frame.antt =====
-- lib/trading/paperExecution.ts: what the desk's matching of paper orders leaves of the others.
use mathlib.Core.List.{reverse, reverse-cons}
use cm_desk.Prelude.{
  ℕ, suc, ◌==◌, ◌≡◌, refl, sym, subst, ◌∙◌, Bool, true, false, Option, some, List, [], ◌∷◌, All,
  not, ◌&&◌, inl, inr, Bool-cases, arith,
}
use cm_desk.Prelude.Text.{Text, truthy}
use cm_desk.Prelude.Double.{Double}
use cm_desk.Money.{result-cases}
use cm_desk.Ledger.Rows.{All-map, All-filter, All-append, Distinct, Distinct-find}
use cm_desk.Intake.{StoredOrder, Desk, order_by_id, is_open_order, get_open_orders}
use cm_desk.Intake.Intent.{JobRef}
use cm_desk.Intake.Snapshot.{KiteReport, ReportContext}
use cm_desk.Intake.Snapshot.Others.{internal-others, internal-kept}
use cm_desk.Paper.Execution.{
  is_paper_order, report_row, report_loop, is_cancel_match, cancel_paper_working_orders,
  match_paper_working_stops,
}

All-reverse {ℓ κ} : {A : Type ℓ} (P : A → Type κ) (xs : List A) → All P xs → All P (reverse xs)
All-reverse P [] all = all
All-reverse P (x ∷ xs) (px, all) =
    subst (All P) (sym (reverse-cons x xs))
      (All-append P (reverse xs) (x ∷ []) (All-reverse P xs all) (px, tt))

module _ (job_by_tag : Text → Option JobRef) (uuids : List Text) (now : ℕ) (works : Bool) where
  module _ (chosen : StoredOrder → Bool) (report : StoredOrder → KiteReport)
      (context : StoredOrder → ReportContext)
      (inside : (row : StoredOrder) → (context row).internal_order_id ≡ some row.id) (id : ℕ) where
    after_report : StoredOrder → Desk → Desk
    after_report row s = (report_row job_by_tag uuids now works (report row) (context row) s).0

    IsThere : Desk → StoredOrder → Type 0
    IsThere s row = (o : StoredOrder) × (order_by_id row.id s ≡ some o)

    IsApart : StoredOrder → Type 0
    IsApart row = chosen row ≡ true → (id == row.id) ≡ false

    loop-others :
        (rows : List StoredOrder) (count : ℕ) (s : Desk)
        → All IsApart rows
        → All (IsThere s) rows
        → order_by_id id
            (report_loop job_by_tag uuids now works chosen report context rows count s).0
          ≡ order_by_id id s
    unfolding report_loop IsThere IsApart after_report
    loop-others [] count s apart there = refl
    loop-others (row ∷ rows) count s (apart, aparts) ((o, read), theres) =
        let there =
          internal-kept (report row) (context row) now job_by_tag uuids works row.id (inside row) s
            o read in
        let same =
          internal-others (report row) (context row) now job_by_tag uuids works row.id (inside row)
            s o read id in
        elim (Bool-cases (chosen row)) [
          | inr skipped ↦ rw (skipped, report_loop) (loop-others rows count s aparts theres)
          | inl hit ↦
              elim (result-cases
                (report_row job_by_tag uuids now works (report row) (context row) s).1) [
                  | inl (e, failed) ↦ rw (hit, failed, report_loop) (same (apart hit))
                  | inr (result, done) ↦
                      rw (hit, done, report_loop)
                        (loop-others rows (suc count) (after_report row s) aparts (
                            All-map (IsThere s) (IsThere (after_report row s)) rows
                              (λ r (o', found). there r.id o' found) theres)
                          ∙ same (apart hit))
                ]
        ]

    All-open : (P : StoredOrder → Type 0) (s : Desk) → All P s.orders → All P (get_open_orders s)
    unfolding get_open_orders
    All-open P s all = All-reverse P _ (All-filter P is_open_order s.orders all)

    not-chosen :
        (s : Desk) (o row : StoredOrder)
        → order_by_id id s ≡ some o
        → chosen o ≡ false
        → order_by_id row.id s ≡ some row
        → IsApart row
    unfolding IsApart
    not-chosen s o row read live found hit = elim (Bool-cases (id == row.id)) [
      | inr apart ↦ apart
      | inl same ↦
          let key : id ≡ row.id = ground arith in
          let again : order_by_id id s ≡ some row =
            subst (λ z. order_by_id z s ≡ some row) (sym key) found in
          cc
    ]

    open-others :
        (s : Desk) (o : StoredOrder)
        → Distinct (λ x. x.id) s.orders
        → order_by_id id s ≡ some o
        → chosen o ≡ false
        → order_by_id id
            (report_loop job_by_tag uuids now works chosen report context (get_open_orders s) 0 s).0
          ≡ some o
    unfolding IsThere
    open-others s o distinct read live =
        let found = Distinct-find (λ x. x.id) s.orders distinct in
        let apart = All-map _ IsApart s.orders (λ row e. not-chosen s o row read live e) found in
        let there = All-map _ (IsThere s) s.orders (λ row e. (row, e)) found in
        loop-others (get_open_orders s) 0 s (All-open IsApart s apart)
          (All-open (IsThere s) s there)
        ∙ read

  cancel-skips_live :
      (tradingsymbol : Text) (side tag : Option Text) (o : StoredOrder)
      → is_paper_order o ≡ false
      → is_cancel_match job_by_tag uuids now tradingsymbol side tag o ≡ false
  cancel-skips_live tradingsymbol side tag o live = ground arith

  -- The paper desk never touches a live order: where the identifiers of the orders are distinct, a live
  -- order is found as it was after `matchPaperWorkingStops` at any prices and after
  -- `cancelPaperWorkingOrders` of any contract, side and tag, whether they end or throw.
  pub paper-live_kept {ℓ} :
      {F : Type ℓ} ⦃d : Double F⦄ (number_of : Text → F) (text_of : F → Text) (tradingsymbol : Text)
      (last : F) (high low : Option F) (side tag : Option Text) (s : Desk) (id : ℕ)
      (o : StoredOrder)
      → Distinct (λ x. x.id) s.orders
      → order_by_id id s ≡ some o
      → is_paper_order o ≡ false
      → (order_by_id id
            (match_paper_working_stops job_by_tag uuids now number_of text_of works tradingsymbol
              last high low s).0
          ≡ some o)
        × (order_by_id id
              (cancel_paper_working_orders job_by_tag uuids now works tradingsymbol side tag s).0
            ≡ some o)
  unfolding match_paper_working_stops cancel_paper_working_orders
  paper-live_kept number_of text_of tradingsymbol last high low side tag s id o distinct read live =
      (
        open-others _ _ _ (λ row. refl) id s o distinct read (ground arith),
        elim (Bool-cases (not (truthy side) && not (truthy tag))) [
          | inl unnamed ↦ rw unnamed read
          | inr named ↦ rw named (
              open-others _ _ _ (λ row. refl) id s o distinct read
                (cancel-skips_live tradingsymbol side tag o live))
        ],
      )
