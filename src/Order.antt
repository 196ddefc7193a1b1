-- ===== src/Order.antt =====
-- lib/trading/types.ts and lib/trading/stateMachine.ts: the statuses of an order and the moves between
-- them that the ledger accepts.
pub mod Lifecycle
pub mod Kite
use cm_desk.Prelude.{
  ℕ, ◌==◌, Bool, true, false, ◌&&◌, ◌||◌, Option, none, some, List, [], ◌∷◌, if◌then◌else◌,
}

pub data OrderStatus : Type 0 where
  pending submitted accepted partially_filled filled cancel_requested : OrderStatus
  cancelled rejected expired failed unknown : OrderStatus

abbrev pub order_statuses : List OrderStatus
order_statuses =
    pending ∷ submitted ∷ accepted ∷ partially_filled ∷ filled ∷ cancel_requested ∷ cancelled
    ∷ rejected ∷ expired ∷ failed ∷ unknown ∷ []

abbrev pub open_order_statuses : List OrderStatus
open_order_statuses =
    pending ∷ submitted ∷ accepted ∷ partially_filled ∷ cancel_requested ∷ unknown ∷ []

abbrev pub terminal_order_statuses : List OrderStatus
terminal_order_statuses = filled ∷ cancelled ∷ rejected ∷ expired ∷ failed ∷ []

-- the place of a status in the enumeration
abbrev pub rank : OrderStatus → ℕ
rank pending = 0
rank submitted = 1
rank accepted = 2
rank partially_filled = 3
rank filled = 4
rank cancel_requested = 5
rank cancelled = 6
rank rejected = 7
rank expired = 8
rank failed = 9
rank unknown = 10

-- `a === b`
abbrev pub status_eq : OrderStatus → OrderStatus → Bool
status_eq a b = rank a == rank b

-- `list.includes(status)`
abbrev pub includes : List OrderStatus → OrderStatus → Bool
includes [] s = false
includes (x ∷ xs) s = status_eq x s || includes xs s

-- the table `ALLOWED`
abbrev pub allowed : OrderStatus → List OrderStatus
allowed pending =
    submitted ∷ accepted ∷ partially_filled ∷ filled ∷ failed ∷ rejected ∷ cancelled ∷ unknown ∷ []
allowed submitted =
    accepted ∷ partially_filled ∷ filled ∷ rejected ∷ cancelled ∷ expired ∷ failed ∷ unknown
    ∷ cancel_requested ∷ []
allowed accepted =
    partially_filled ∷ filled ∷ cancel_requested ∷ cancelled ∷ expired ∷ rejected ∷ unknown ∷ []
allowed partially_filled =
    partially_filled ∷ filled ∷ cancel_requested ∷ cancelled ∷ expired ∷ unknown ∷ []
allowed filled = []
allowed cancel_requested = cancelled ∷ filled ∷ partially_filled ∷ expired ∷ unknown ∷ []
allowed cancelled = []
allowed rejected = []
allowed expired = []
allowed failed = unknown ∷ submitted ∷ []
allowed unknown =
    submitted ∷ accepted ∷ partially_filled ∷ filled ∷ cancelled ∷ rejected ∷ expired ∷ failed
    ∷ cancel_requested ∷ []

unfoldable pub can_transition_order : OrderStatus → OrderStatus → Bool
can_transition_order from to =
    if status_eq from to
      && (status_eq from partially_filled || status_eq from unknown || status_eq from accepted)
    then true
    else includes (allowed from) to

-- `none` is the error "illegal order transition".
unfoldable pub assert_order_transition : OrderStatus → OrderStatus → Option (Unit {0})
assert_order_transition from to =
    if status_eq from to then some tt else if can_transition_order from to then some tt else none

unfoldable pub is_terminal_order : OrderStatus → Bool
is_terminal_order status = elim (allowed status) [ [] ↦ true | _ ↦ false ]
