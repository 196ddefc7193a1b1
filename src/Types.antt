-- ===== src/Types.antt =====
-- lib/trading/types.ts: sides, provenance of a ledger row, and which book a row belongs to.
pub mod Books
use cm_desk.Prelude.{Bool, true, false, not, ◌&&◌, ◌||◌, Option, none, some, if◌then◌else◌}
use cm_desk.Prelude.Int.{ℤ, pos, negsuc, ltb_ℤ, eqb_ℤ}
use cm_desk.Prelude.Text.{Text, codes, opt_text_eq}

pub data Side : Type 0 where
  buy sell : Side

pub data PositionDirection : Type 0 where
  long short flat : PositionDirection

pub data PositionEventKind : Type 0 where
  opened increased reduced closed reversed marked : PositionEventKind

pub data Provenance : Type 0 where
  live migrated reconciled mock paper : Provenance

pub data TradeBookFilter : Type 0 where
  all_books paper_book live_book : TradeBookFilter

pub data PositionView : Type 0 where
  live_view with_recon paper_view : PositionView

-- the spelling that the database stores
unfoldable pub provenance_text : Provenance → Text
provenance_text live = codes "LIVE"
provenance_text migrated = codes "MIGRATED"
provenance_text reconciled = codes "RECONCILED"
provenance_text mock = codes "MOCK"
provenance_text paper = codes "PAPER"

-- `value === "…"` on a column that may be null
abbrev pub is_text : Option Text → Text → Bool
is_text value literal = opt_text_eq value (some literal)

unfoldable pub parse_position_view : Option Text → Option PositionView
parse_position_view value =
    if is_text value (codes "LIVE")
    then some live_view
    else if is_text value (codes "WITH_RECON")
    then some with_recon
    else if is_text value (codes "PAPER")
    then some paper_view
    else none

unfoldable pub parse_trade_book : Option Text → TradeBookFilter
parse_trade_book value =
    if is_text value (codes "PAPER")
    then paper_book
    else if is_text value (codes "LIVE")
    then live_book
    else all_books

unfoldable pub is_synthetic_provenance : Option Text → Bool
is_synthetic_provenance p = is_text p (codes "PAPER") || is_text p (codes "MOCK")

abbrev is_broker_provenance : Option Text → Bool
is_broker_provenance p =
    is_text p (codes "LIVE") || is_text p (codes "RECONCILED") || is_text p (codes "MIGRATED")

unfoldable pub position_matches_view : Option Text → PositionView → Bool
position_matches_view p paper_view = is_text p (codes "PAPER") || is_text p (codes "MOCK")
position_matches_view p with_recon = is_broker_provenance p
position_matches_view p live_view = is_text p (codes "LIVE")

-- `paperBook` is the filter "PAPER", its negation the filter "LIVE".
unfoldable pub provenance_in_book : Option Text → Bool → Bool
provenance_in_book p true = is_text p (codes "PAPER") || is_text p (codes "MOCK")
provenance_in_book p false = is_broker_provenance p

unfoldable pub ledger_provenance : Option Text → Provenance
ledger_provenance value =
    if is_text value (codes "LIVE")
    then live
    else if is_text value (codes "MIGRATED")
    then migrated
    else if is_text value (codes "RECONCILED")
    then reconciled
    else if is_text value (codes "MOCK")
    then mock
    else if is_text value (codes "PAPER")
    then paper
    else paper

-- `isSyntheticProvenance` at a value of the enumeration
unfoldable pub is_synthetic : Provenance → Bool
unfolding is_synthetic_provenance provenance_text
is_synthetic p = is_synthetic_provenance (some (provenance_text p))

pub record FillBook : Type 0 where
  pub position_provenance : Option Text
  pub position_qty : ℤ
  pub fill_provenance : Option Text

unfoldable pub provenance_after_fill : FillBook → Provenance
provenance_after_fill input =
    let fill_book = ledger_provenance input.fill_provenance in
    let position_book = ledger_provenance input.position_provenance in
    if not (is_synthetic fill_book)
      && is_synthetic position_book
      && eqb_ℤ input.position_qty (pos 0)
    then fill_book
    else position_book

unfoldable pub resets_book_on_fill : FillBook → Bool
resets_book_on_fill input =
    if not (eqb_ℤ input.position_qty (pos 0))
    then false
    else let next = provenance_after_fill input in
      let current = ledger_provenance input.position_provenance in
      is_synthetic current && not (is_synthetic next)

unfoldable pub side_sign : Side → ℤ
side_sign buy = pos 1
side_sign sell = negsuc 0

unfoldable pub direction_from_qty : ℤ → PositionDirection
direction_from_qty qty =
    if ltb_ℤ (pos 0) qty then long else if ltb_ℤ qty (pos 0) then short else flat
