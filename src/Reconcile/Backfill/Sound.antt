-- ===== src/Reconcile/Backfill/Sound.antt =====
-- lib/trading/migrateHistory.ts: the balance of the ledger through `backfillFromTransactions`.
use cm_desk.Prelude.{
  ℕ, suc, filter, if◌then◌else◌, ◌≡◌, refl, sym, subst, ◌∙◌, not, ◌||◌, Bool, true, false, Option,
  none, some, or_else, is_some, List, [], ◌∷◌, Bool-cases, inl, inr,
}
use cm_desk.Prelude.Text.{Text}
use cm_desk.Ledger.{StoredFill, Store}
use cm_desk.Ledger.Apply.{apply_fill_by_id}
use cm_desk.Ledger.Pending.{is_pending, fills_by_time, apply_each, apply_unapplied_fills}
use cm_desk.Intake.{StoredOrder, Desk, order_by_key, order_by_broker_id}
use cm_desk.Intake.Intent.{JobRef}
use cm_desk.Intake.Snapshot.Sound.{IsSound, apply-IsSound, insert_fill-IsSound}
use cm_desk.Reconcile.Backfill.{
  Transaction, is_copied, migrated_key, insert_migrated, insert_all, migrated_fill, is_migrated,
  insert_fills, Imports, fill_orders, backfill_from_transactions,
}

-- What a step of the first statement leaves has the ledger of before.
KeepsLedger : Desk → Option Desk → Type 0
KeepsLedger s none = Unit
KeepsLedger s (some s') = s'.ledger ≡ s.ledger

module _ (job_by_tag : Text → Option JobRef) (now : ℕ) where
  insert_migrated-KeepsLedger :
      (t : Transaction) (s : Desk) → KeepsLedger s (insert_migrated job_by_tag now t s)
  unfolding insert_migrated KeepsLedger
  insert_migrated-KeepsLedger t s =
      elim (Bool-cases (not (is_copied t) || is_some (order_by_key (migrated_key t) s))) [
        | inl skipped ↦ rw skipped refl
        | inr new ↦ elim (Bool-cases (is_some (order_by_broker_id (or_else t.order_id []) s))) [
          | inl clash ↦ rw (new, clash) tt
          | inr free ↦ rw (new, free) refl
        ]
      ]

  insert_all-KeepsLedger :
      (ts : List Transaction) (s : Desk) (o : Option Desk)
      → KeepsLedger s o
      → KeepsLedger s (insert_all job_by_tag now ts o)
  unfolding insert_all KeepsLedger
  insert_all-KeepsLedger ts s none kept = tt
  insert_all-KeepsLedger [] s (some s') kept = kept
  insert_all-KeepsLedger (t ∷ ts) s (some s') kept =
      insert_all-KeepsLedger ts s (insert_migrated job_by_tag now t s')
        (then_kept s s' kept _ (insert_migrated-KeepsLedger t s'))
    where
      then_kept :
          (s s' : Desk)
          → s'.ledger ≡ s.ledger
          → (o : Option Desk) → KeepsLedger s' o
          → KeepsLedger s o
      then_kept s s' e none k = tt
      then_kept s s' e (some u) k = k ∙ e

insert_fills-IsSound : (os : List StoredOrder) (s : Store) → IsSound s → IsSound (insert_fills os s)
unfolding insert_fills migrated_fill
insert_fills-IsSound [] s sound = sound
insert_fills-IsSound (o ∷ os) s sound = elim (Bool-cases (is_migrated o)) [
  | inl copied ↦ rw copied (
      insert_fills-IsSound os _
        (insert_fill-IsSound true (migrated_fill o) s (λ n. refl) (λ n. refl) sound))
  | inr other ↦ rw other (insert_fills-IsSound os s sound)
]

apply_each-IsSound :
    (fs : List StoredFill) (n : ℕ) (s : Store) → IsSound s → IsSound (apply_each fs n s).0
unfolding apply_each
apply_each-IsSound [] n s sound = sound
apply_each-IsSound (f ∷ fs) n s sound =
    let r = apply_fill_by_id f.id none s in
    apply_each-IsSound fs (if r.1 then suc n else n) r.0 (apply-IsSound f.id none s sound)

pub apply_unapplied-IsSound : (s : Store) → IsSound s → IsSound (apply_unapplied_fills s).0
unfolding apply_unapplied_fills
apply_unapplied-IsSound s sound =
    apply_each-IsSound (fills_by_time (filter is_pending s.fills)) 0 s sound

fill_orders-IsSound :
    (works : Bool) (o : Option Desk) (s : Desk)
    → ((s' : Desk) → o ≡ some s' → s'.ledger ≡ s.ledger)
    → IsSound s.ledger
    → IsSound (fill_orders works o s).ledger
fill_orders-IsSound works none s kept sound = sound
fill_orders-IsSound true (some s') s kept sound =
    insert_fills-IsSound s'.orders s'.ledger (subst IsSound (sym (kept s' refl)) sound)
fill_orders-IsSound false (some s') s kept sound = subst IsSound (sym (kept s' refl)) sound

kept_some :
    (s : Desk) (o : Option Desk)
    → KeepsLedger s o
    → (s' : Desk) → o ≡ some s'
    → s'.ledger ≡ s.ledger
unfolding KeepsLedger
kept_some s none k s' e = absurd (cc)
kept_some s (some u) k s' e = let one : u ≡ s' = cc in subst (λ x. x.ledger ≡ s.ledger) one k

pub backfill-IsSound :
    (job_by_tag : Text → Option JobRef) (now : ℕ) (imports : Imports) (s : Desk)
    → IsSound s.ledger
    → IsSound (backfill_from_transactions job_by_tag now imports s).ledger
unfolding backfill_from_transactions KeepsLedger
backfill-IsSound job_by_tag now imports s sound =
    apply_unapplied-IsSound _ (elim (Bool-cases imports.orders_work) [
      | inl works ↦ rw works (
          fill_orders-IsSound imports.fills_work
            (insert_all job_by_tag now imports.transactions (some s)) s
            (kept_some s _
              (insert_all-KeepsLedger job_by_tag now imports.transactions s (some s) refl))
            sound)
      | inr fails ↦ rw fails sound
    ])
