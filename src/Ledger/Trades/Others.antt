-- ===== src/Ledger/Trades/Others.antt =====
-- lib/trading/ledger.ts: the rows that `syncTrade` leaves alone.
use cm_desk.Prelude.{
  ℕ, ◌==◌, ◌≡◌, refl, ◌∙◌, Bool, true, false, ◌&&◌, Option, none, some, arith, if◌then◌else◌,
}
use cm_desk.Prelude.Text.{Text}
use cm_desk.Accounting.Fill.{PositionState, FillApplyResult}
use cm_desk.Ledger.{StoredFill, StoredTrade, Store, find}
use cm_desk.Ledger.Totals.{trade_open}
use cm_desk.Ledger.Trades.{
  sync_trade, sync_found_trade, update_open_trade, close_reversed, open_side,
}

-- The fills and the positions of a store are those of another.
pub record Keeps (s t : Store) : Type 0 where
  pub fills : t.fills ≡ s.fills
  pub positions : t.positions ≡ s.positions
  pub next_position : t.next_position ≡ s.next_position
  pub next_fill : t.next_fill ≡ s.next_fill

then_Keeps : (s t u : Store) → Keeps s t → Keeps t u → Keeps s u
then_Keeps s t u a b = record {
  fills = b.fills ∙ a.fills;
  positions = b.positions ∙ a.positions;
  next_position = b.next_position ∙ a.next_position;
  next_fill = b.next_fill ∙ a.next_fill;
}

if_Keeps : (b : Bool) (s t u : Store) → Keeps s t → Keeps s u → Keeps s (if b then t else u)
if_Keeps true s t u a b = a
if_Keeps false s t u a b = b

module _ (id : ℕ) (before : PositionState) (result : FillApplyResult) (fill : StoredFill)
    (exit_reason : Option Text) where
  close_reversed-Keeps :
      (t : Option StoredTrade) (s : Store)
      → Keeps s (close_reversed id before result fill exit_reason t s)
  close_reversed-Keeps none s = record {
    fills = refl;
    positions = refl;
    next_position = refl;
    next_fill = refl;
  }
  close_reversed-Keeps (some t) s = ground arith

  open_side-Keeps : (s : Store) → Keeps s (open_side id before result fill exit_reason s)
  open_side-Keeps s = ground arith

  update_open-Keeps :
      (t : StoredTrade) (s : Store)
      → Keeps s (update_open_trade id before result fill exit_reason t s)
  update_open-Keeps t s = ground arith

  sync_found-Keeps :
      (t : Option StoredTrade) (s : Store)
      → Keeps s (sync_found_trade id before result fill exit_reason t s)
  unfolding sync_found_trade
  sync_found-Keeps none s = ground arith
  sync_found-Keeps (some t) s = update_open-Keeps t s

  pub sync_trade-Keeps : (s : Store) → Keeps s (sync_trade id before result fill exit_reason s)
  unfolding sync_trade
  sync_trade-Keeps s =
      let open_trade = find (λ t. t.position_id == id && trade_open t) s.trades in
      if_Keeps _ s _ _ (then_Keeps s _ _ (close_reversed-Keeps open_trade s) (open_side-Keeps _))
        (sync_found-Keeps open_trade s)
