-- ===== src/Chase/Orders.antt =====
-- lib/chaseFill.ts: what Chase reads off the broker's and the ledger's orders.
pub mod Covers
use cm_desk.Prelude.{
  ℕ, zero, suc, ◌+◌, Bool, true, false, not, ◌&&◌, ◌||◌, Option, none, some, or_else, List, [], ◌∷◌,
  ◌++◌, any, length, ltb, leb, ◌==◌, if◌then◌else◌,
}
use mathlib.Core.List.{reverse}
use cm_desk.Prelude.Int.{ℤ, pos, negsuc}
use cm_desk.Prelude.Text.{Text, codes, text_eq, opt_text_eq, truthy, is_empty, to_upper, trim}
use cm_desk.Prelude.Double.{Double}
use cm_desk.Types.{Side, buy, sell, is_synthetic, ledger_provenance}
use cm_desk.Chase.Cover.{ChaseSide, long, short}

-- the broker's spelling of a side
abbrev pub side_text : Side → Text
side_text buy = codes "BUY"
side_text sell = codes "SELL"

-- An order of Kite's book; the trigger price is a JavaScript number.
pub record KiteOrder {ℓ} (F : Type ℓ) : Type ℓ where
  pub tradingsymbol : Option Text
  pub transaction_type : Option Text
  pub status : Option Text
  pub filled_quantity : Option ℤ
  pub order_type : Option Text
  pub trigger_price : Option F
  pub purpose : Option Text
  pub exchange_timestamp : Option Text
  pub order_timestamp : Option Text

pub record LedgerOrder : Type 0 where
  pub tradingsymbol : Option Text
  pub purpose : Option Text
  pub side : Option Text
  pub provenance : Option Text

-- `(value || "").toUpperCase().trim()`
abbrev pub upper_trim : Option Text → Text
upper_trim value = trim (to_upper (or_else value []))

-- `Number(q || 0)`, where only a positive quantity counts
abbrev pub positive_qty : Option ℤ → ℕ
positive_qty none = 0
positive_qty (some (pos n)) = n
positive_qty (some (negsuc n)) = 0

unfoldable pub is_chase_working_broker_status : Option Text → Bool
is_chase_working_broker_status status =
    let s = upper_trim status in
    text_eq s (codes "TRIGGER PENDING")
    || text_eq s (codes "OPEN")
    || text_eq s (codes "OPEN PENDING")
    || text_eq s (codes "VALIDATION PENDING")
    || text_eq s (codes "PUT ORDER REQ RECEIVED")
    || text_eq s (codes "MODIFY PENDING")

abbrev pub is_dead_status : Option Text → Bool
is_dead_status status =
    text_eq (upper_trim status) (codes "CANCELLED")
    || text_eq (upper_trim status) (codes "REJECTED")

abbrev pub is_digit : ℕ → Bool
is_digit c = leb b'0' c && leb c b'9'

abbrev pub is_sign : ℕ → Bool
is_sign c = c == b'+' || c == b'-'

-- `/(?:Z|[+-]\d{2}:?\d{2})$/` on the reversed text
unfoldable pub ends_in_zone : Text → Bool
ends_in_zone (m ∷ n ∷ x ∷ y ∷ z ∷ w ∷ r) =
    m == b'Z'
    || (is_digit m && is_digit n && is_digit x && is_digit y && is_sign z)
    || (is_digit m && is_digit n && x == b':' && is_digit y && is_digit z && is_sign w)
ends_in_zone (m ∷ n ∷ x ∷ y ∷ z ∷ []) =
    m == b'Z' || (is_digit m && is_digit n && is_digit x && is_digit y && is_sign z)
ends_in_zone (m ∷ r) = m == b'Z'
ends_in_zone [] = false

-- `raw.replace(" ", "T")` changes the first space.
unfoldable pub space_to_t : Text → Text
space_to_t [] = []
space_to_t (c ∷ s) = if c == 32 then b'T' ∷ s else c ∷ space_to_t s

-- `exchange_timestamp || order_timestamp || ""`
abbrev pub raw_time : Option Text → Option Text → Text
raw_time exchange_time order_time =
    trim (if truthy exchange_time then or_else exchange_time [] else or_else order_time [])

-- `at != null && at < openedMs`
abbrev pub is_before : Option ℕ → Option ℕ → Bool
is_before (some at) (some opened) = ltb at opened
is_before _ _ = false

-- a ledger order of the purpose, on the paper book or on the live one
abbrev pub is_ledger_match : Text → Bool → Text → Side → LedgerOrder → Bool
is_ledger_match purpose paper_book tradingsymbol side o =
    if not (opt_text_eq o.tradingsymbol (some tradingsymbol))
      || not (opt_text_eq o.purpose (some purpose))
      || not (opt_text_eq o.side (some (side_text side)))
    then false
    else let paper_order = is_synthetic (ledger_provenance o.provenance) in
      if paper_book then paper_order else not paper_order

module _ {ℓ} {F : Type ℓ} ⦃d : Double F⦄ where
  abbrev pub has_trigger : Option F → Bool
  has_trigger none = false
  has_trigger (some price) = d.lt (d.of_ℕ 0) price

  unfoldable pub is_chase_protective_stop_order : KiteOrder F → Bool
  is_chase_protective_stop_order o =
      let type = upper_trim o.order_type in
      if text_eq type (codes "SL") || text_eq type (codes "SL-M") || text_eq type (codes "SLM")
      then true
      else has_trigger o.trigger_price

  unfoldable pub is_chase_flatten_fill : KiteOrder F → Bool
  is_chase_flatten_fill o =
      let type = upper_trim o.order_type in
      if text_eq type (codes "MARKET") || text_eq type (codes "LIMIT")
      then true
      else let purpose = to_upper (or_else o.purpose []) in
        text_eq purpose (codes "FLATTEN")
        || text_eq purpose (codes "EXIT")
        || text_eq purpose (codes "SQUARE_OFF")

  -- an order of the symbol and side, neither cancelled nor rejected
  abbrev pub is_live_match : Text → Side → KiteOrder F → Bool
  is_live_match tradingsymbol side o =
      opt_text_eq o.tradingsymbol (some tradingsymbol)
      && opt_text_eq o.transaction_type (some (side_text side))
      && not (is_dead_status o.status)

  -- the loop of `chaseProtectiveStopFillQty`
  stop_fill_from : ℕ → Text → Side → List (KiteOrder F) → ℕ
  stop_fill_from filled tradingsymbol side [] = filled
  stop_fill_from filled tradingsymbol side (o ∷ os) =
      stop_fill_from
        (if is_live_match tradingsymbol side o && is_chase_protective_stop_order o
          then filled + positive_qty o.filled_quantity
          else filled)
        tradingsymbol side os

  unfoldable pub chase_protective_stop_fill_qty : Text → Side → List (KiteOrder F) → ℕ
  unfolding stop_fill_from
  chase_protective_stop_fill_qty = stop_fill_from 0

  -- What `new Date(text).getTime()` reads, where that is finite.
  module _ (date_ms : Text → Option ℕ) where
    unfoldable pub cover_order_time_ms : KiteOrder F → Option ℕ
    unfolding ends_in_zone space_to_t
    cover_order_time_ms o =
        let raw = raw_time o.exchange_timestamp o.order_timestamp in
        if is_empty raw
        then none
        else date_ms (if ends_in_zone (reverse raw) then raw else space_to_t raw ++ codes "+05:30")

    abbrev pub counts_as_cover : Text → Side → Option ℕ → KiteOrder F → Bool
    counts_as_cover tradingsymbol side opened o =
        is_live_match tradingsymbol side o
        && (is_chase_protective_stop_order o || is_chase_flatten_fill o)
        && not (is_before (cover_order_time_ms o) opened)

    -- the loop of `chaseEpisodeCoverFillQty`; `opened` is the finite time of the opening
    cover_fill_from : ℕ → Text → Side → Option ℕ → List (KiteOrder F) → ℕ
    cover_fill_from filled tradingsymbol side opened [] = filled
    cover_fill_from filled tradingsymbol side opened (o ∷ os) =
        cover_fill_from
          (if counts_as_cover tradingsymbol side opened o
            then filled + positive_qty o.filled_quantity
            else filled)
          tradingsymbol side opened os

    unfoldable pub chase_episode_cover_fill_qty : Text → Side → Option ℕ → List (KiteOrder F) → ℕ
    unfolding cover_fill_from
    chase_episode_cover_fill_qty = cover_fill_from 0

  -- the test of `chaseHasWorkingSameSideOrder`
  abbrev pub is_working_match : Text → Side → KiteOrder F → Bool
  is_working_match tradingsymbol side o =
      opt_text_eq o.tradingsymbol (some tradingsymbol)
      && opt_text_eq o.transaction_type (some (side_text side))
      && is_chase_working_broker_status o.status

  unfoldable pub chase_has_working_same_side_order : Text → Side → List (KiteOrder F) → Bool
  chase_has_working_same_side_order tradingsymbol side kite_orders =
      any (is_working_match tradingsymbol side) kite_orders

  unfoldable pub chase_has_working_protective_stop :
      Bool → Text → Side → List LedgerOrder → List (KiteOrder F) → Bool
  chase_has_working_protective_stop paper_book tradingsymbol side ledger_orders kite_orders =
      let ledger_hit =
        any (is_ledger_match (codes "SL") paper_book tradingsymbol side) ledger_orders in
      if paper_book then ledger_hit else any (is_working_match tradingsymbol side) kite_orders

  unfoldable pub chase_has_working_entry_order :
      Bool → Text → Side → List LedgerOrder → List (KiteOrder F) → Bool
  chase_has_working_entry_order paper_book tradingsymbol side ledger_orders kite_orders =
      let ledger_hit =
        any (is_ledger_match (codes "ENTRY") paper_book tradingsymbol side) ledger_orders in
      if ledger_hit
      then true
      else if paper_book
      then false
      else any (is_working_match tradingsymbol side) kite_orders
