-- ===== src/Ledger/Pending.antt =====
-- lib/trading/ledger.ts: `applyUnappliedFills`, the fills that were saved and not booked.
use cm_desk.Prelude.{ℕ, suc, Bool, not, none, List, [], ◌∷◌, filter, leb, if◌then◌else◌}
use cm_desk.Ledger.{StoredFill, Store}
use cm_desk.Ledger.Apply.{apply_fill_by_id}

-- `ORDER BY occurred_at`; equal times in the order of the rows
pub insert_fill_by_time : StoredFill → List StoredFill → List StoredFill
insert_fill_by_time f [] = f ∷ []
insert_fill_by_time f (g ∷ gs) =
    let later = insert_fill_by_time f gs in
    if leb f.occurred_at g.occurred_at then f ∷ g ∷ gs else g ∷ later

pub fills_by_time : List StoredFill → List StoredFill
fills_by_time [] = []
fills_by_time (f ∷ fs) = insert_fill_by_time f (fills_by_time fs)

abbrev pub is_pending : StoredFill → Bool
is_pending f = not f.is_applied

-- the loop, with the number of those that were booked
unfoldable pub apply_each : List StoredFill → ℕ → Store → Store × ℕ
apply_each [] n s = (s, n)
apply_each (f ∷ fs) n s =
    let (s', ok) = apply_fill_by_id f.id none s in apply_each fs (if ok then suc n else n) s'

unfoldable pub apply_unapplied_fills : Store → Store × ℕ
unfolding insert_fill_by_time fills_by_time apply_each
apply_unapplied_fills s = apply_each (fills_by_time (filter is_pending s.fills)) 0 s
