-- ===== src/Intake/Snapshot/Redelivery/Lookup.antt =====
-- lib/trading/ledger.ts: the order that a report of the broker is about, before and after it.
use cm_desk.Prelude.{
  ℕ, ◌==◌, ◌≡◌, refl, ap, ◌∙◌, subst, Bool, true, false, Option, none, some, [], ◌∷◌, arith,
  if◌then◌else◌,
}
use cm_desk.Prelude.Text.{Text, truthy, opt_text_eq, text_eq_refl}
use cm_desk.Ledger.{find}
use cm_desk.Ledger.Rows.After.{find-updated, find-updated_new}
use cm_desk.Money.{Result}
use cm_desk.Intake.{StoredOrder, Desk, order_by_id, order_by_broker_id}
use cm_desk.Intake.Snapshot.{
  KiteReport, ReportContext, SnapshotResult, broker_id, books_fill, patched_order,
}
use cm_desk.Intake.Snapshot.Redelivery.Row.{Settles}

-- `kiteOrder.order_id || null` is no empty text.
non_empty :
    (o : Option Text) (b : Text) → (if truthy o then o else none) ≡ some b → truthy (some b) ≡ true
non_empty none b h = absurd (cc)
non_empty (some []) b h = absurd (cc)
non_empty (some (c ∷ t)) b h = subst (λ z. truthy z ≡ true) h refl

module _ (report : KiteReport) (context : ReportContext) (now : ℕ) (b : Text)
    (named : broker_id report ≡ some b) where
  patched-named :
      (saved : Bool) (row o : StoredOrder)
      → opt_text_eq (patched_order report context now saved row o).broker_order_id (some b) ≡ true
  unfolding patched_order
  patched-named saved row o = rw (named, non_empty report.order_id b named) (text_eq_refl b)

  same_id : (row : StoredOrder) → (row.id == row.id) ≡ true
  same_id row = ground arith

  -- After a report that settled the order of its identifier, that identifier names a settled order.
  pub settled-found :
      (row : StoredOrder) (s : Desk) (r : Desk × Result SnapshotResult)
      → Settles report context now row s r
      → order_by_broker_id b s ≡ some row
      → (o : StoredOrder) × (order_by_broker_id b r.0 ≡ some o)
        × (books_fill report context now o ≡ false)
  settled-found row s r h found =
      let f = patched_order report context now h.saved row in
      let (x, e) =
        find-updated (λ o. opt_text_eq o.broker_order_id (some b)) (λ o. o.id == row.id) f
          (patched-named h.saved row) s.orders row found (same_id row) in
      (f x, ap (find (λ o. opt_text_eq o.broker_order_id (some b))) h.orders ∙ e, h.settled x)

  pub settled-named :
      (row : StoredOrder) (s : Desk) (r : Desk × Result SnapshotResult)
      → Settles report context now row s r
      → order_by_broker_id b s ≡ none
      → order_by_id row.id s ≡ some row
      → (o : StoredOrder) × (order_by_broker_id b r.0 ≡ some o)
        × (books_fill report context now o ≡ false)
  settled-named row s r h absent read =
      let f = patched_order report context now h.saved row in
      let (x, e) =
        find-updated_new (λ o. opt_text_eq o.broker_order_id (some b)) (λ o. o.id == row.id) f
          (patched-named h.saved row) s.orders row absent read in
      (f x, ap (find (λ o. opt_text_eq o.broker_order_id (some b))) h.orders ∙ e, h.settled x)
