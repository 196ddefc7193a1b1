-- ===== src/Intake/Frame.antt =====
-- lib/trading/ledger.ts: what an update of one order leaves of the others.
use cm_desk.Prelude.{
  ℕ, ◌==◌, ◌≡◌, subst, sym, true, some, inl, inr, Bool-cases, arith, if◌then◌else◌,
}
use cm_desk.Order.Lifecycle.{Reach, here}
use cm_desk.Ledger.Rows.{find-key}
use cm_desk.Ledger.Rows.After.{find-after_update}
use cm_desk.Intake.{StoredOrder, Desk, order_by_id, update_order}

-- Every order is kept, and its status has moved by accepted transitions alone.
abbrev pub Advances : Desk → Desk → Type 0
Advances s t =
    (id : ℕ) (o : StoredOrder)
    → order_by_id id s ≡ some o
    → (o' : StoredOrder) × (order_by_id id t ≡ some o') × Reach o.status o'.status

pub same-Advances : (s : Desk) → Advances s s
same-Advances s id o found = (o, found, here)

pub own-read :
    (id : ℕ) (s : Desk) (row : StoredOrder)
    → order_by_id id s ≡ some row
    → order_by_id row.id s ≡ some row
own-read id s row read =
    subst (λ z. order_by_id z s ≡ some row) (sym (find-key (λ x. x.id) id s.orders row read)) read

pub kept-Advances :
    (k : ℕ) (f : StoredOrder → StoredOrder) (s : Desk)
    → ((o : StoredOrder) → (f o).id ≡ o.id)
    → ((o : StoredOrder)
        → order_by_id o.id s ≡ some o
        → (o.id == k) ≡ true
        → Reach o.status (f o).status)
    → Advances s (update_order k f s)
kept-Advances k f s keeps move id o found = (
  if o.id == k then f o else o,
  find-after_update (λ x. x.id) k id f s.orders o keeps found,
  elim (Bool-cases (o.id == k)) [
    | inl hit ↦ rw hit (move o (own-read id s o found) hit)
    | inr miss ↦ rw miss here
  ],
)

same_row :
    (s : Desk) (row o : StoredOrder)
    → order_by_id row.id s ≡ some row
    → order_by_id o.id s ≡ some o
    → (o.id == row.id) ≡ true
    → o ≡ row
same_row s row o read found hit =
    let key : o.id ≡ row.id = ground arith in
    let again : order_by_id row.id s ≡ some o = subst (λ z. order_by_id z s ≡ some o) key found in
    cc

-- The row that was read moves by an accepted history.
pub update-Advances :
    (id : ℕ) (f : StoredOrder → StoredOrder) (s : Desk) (row : StoredOrder)
    → order_by_id id s ≡ some row
    → ((o : StoredOrder) → (f o).id ≡ o.id)
    → Reach row.status (f row).status
    → Advances s (update_order row.id f s)
update-Advances id f s row read keeps moves = kept-Advances row.id f s keeps (λ o found hit.
    subst (λ z. Reach z.status (f z).status)
      (sym (same_row s row o (own-read id s row read) found hit)) moves)
