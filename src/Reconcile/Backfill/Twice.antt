-- ===== src/Reconcile/Backfill/Twice.antt =====
-- lib/trading/migrateHistory.ts: `backfillFromTransactions` again, with the transactions that it has copied.
use cm_desk.Prelude.{
  ◌≡◌, not, ◌||◌, Bool, true, or_else, is_some, List, [], ◌++◌, All, length, if◌then◌else◌,
}
use cm_desk.Prelude.Text.{Text, codes}
use cm_desk.Ledger.{Store}
use cm_desk.Intake.{StoredOrder, Desk, order_by_key}
use cm_desk.Intake.Snapshot.{fill_by_fingerprint, insert_fill}
use cm_desk.Reconcile.Backfill.{
  Transaction, is_copied, migrated_key, migrated_fill, is_migrated, insert_fills, apply_all,
}

-- A transaction that is not to be copied, or whose order is there.
abbrev pub is_taken : Desk → Transaction → Bool
is_taken s t = not (is_copied t) || is_some (order_by_key (migrated_key t) s)

abbrev pub migrated_fingerprint : StoredOrder → Text
migrated_fingerprint o = codes "migrated-txn:" ++ or_else o.broker_order_id []

-- An order that brings no fill, or whose fill is there.
abbrev pub is_filled : Store → StoredOrder → Bool
is_filled s o = not (is_migrated o) || is_some (fill_by_fingerprint (migrated_fingerprint o) s)

abbrev next_store : StoredOrder → Store → Store
next_store o s = if is_migrated o then (insert_fill true (migrated_fill o) s).0 else s

pub record Twice (ts : List Transaction) (r again : Desk) : Type 0 where
  pub copied : All (λ t. is_taken r t ≡ true) ts
  pub filled : All (λ o. is_filled r.ledger o ≡ true) r.orders
  pub same_orders : again.orders ≡ r.orders
  pub same_fills : length again.ledger.fills ≡ length r.ledger.fills

abbrev filled_desk : Desk → Desk
filled_desk s = apply_all (record s { ledger = insert_fills s.orders s.ledger })
