-- ===== src/Types/Books.antt =====
-- lib/trading/types.ts: which book a position row belongs to, before and after a fill.
use cm_desk.Prelude.{◌≡◌, refl, ◌⊎◌, true, false, some, arith}
use cm_desk.Prelude.Int.{pos}
use cm_desk.Prelude.Text.{text_eq}
use cm_desk.Types.{
  Provenance, live, migrated, reconciled, mock, paper, provenance_text, ledger_provenance,
  is_synthetic, FillBook, provenance_after_fill, resets_book_on_fill,
}

-- Reading back the stored spelling of a provenance gives the provenance.
pub ledger_provenance-text : (p : Provenance) → ledger_provenance (some (provenance_text p)) ≡ p
unfolding ledger_provenance provenance_text text_eq
ledger_provenance-text live = refl
ledger_provenance-text migrated = refl
ledger_provenance-text reconciled = refl
ledger_provenance-text mock = refl
ledger_provenance-text paper = refl

-- A fill moves a row to another book only if the row is flat and synthetic and the fill is not; then the row takes the provenance of the fill, and the figures of the old book are reset in just that case.
pub after_fill-books :
    (input : FillBook)
    → ((provenance_after_fill input ≡ ledger_provenance input.position_provenance)
        × (resets_book_on_fill input ≡ false))
      ⊎ ((input.position_qty ≡ pos 0)
          × (is_synthetic (ledger_provenance input.position_provenance) ≡ true)
          × (is_synthetic (ledger_provenance input.fill_provenance) ≡ false)
          × (provenance_after_fill input ≡ ledger_provenance input.fill_provenance)
          × (resets_book_on_fill input ≡ true))
unfolding provenance_after_fill resets_book_on_fill
after_fill-books input = ground arith
