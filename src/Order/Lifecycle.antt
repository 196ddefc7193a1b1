-- ===== src/Order/Lifecycle.antt =====
-- lib/trading/stateMachine.ts: runs of accepted transitions.
use cm_desk.Prelude.{◌≡◌, ◌∙◌, ◌||◌, refl, true, false, not, some, arith}
use cm_desk.Order.{
  OrderStatus, failed, unknown, status_eq, includes, open_order_statuses, terminal_order_statuses,
  can_transition_order, assert_order_transition, is_terminal_order,
}

-- One accepted call of `assertOrderTransition`.
pub data Step : OrderStatus → OrderStatus → Type 0 where
  move : (from to : OrderStatus) → assert_order_transition from to ≡ some tt → Step from to

-- A history of accepted calls.
pub data Reach (s : OrderStatus) : OrderStatus → Type 0 where
  here : Reach s s
  next : {t u : OrderStatus} → Reach s t → Step t u → Reach s u

eq_of_status_eq : (a b : OrderStatus) → status_eq a b ≡ true → a ≡ b
eq_of_status_eq a b h = ground arith

terminal_stays : {from to : OrderStatus} → is_terminal_order from ≡ true → Step from to → to ≡ from
unfolding is_terminal_order assert_order_transition can_transition_order
terminal_stays t (move from to h) = ground arith

terminal-Reach :
    (s : OrderStatus) {t : OrderStatus} → is_terminal_order s ≡ true → Reach s t → t ≡ s
terminal-Reach s h here = refl
terminal-Reach s h (next r st) = let ih = terminal-Reach s h r in terminal_stays (rw ih h) st ∙ ih

listed_terminal :
    (s : OrderStatus)
    → includes terminal_order_statuses s ≡ true
    → status_eq s failed ≡ false
    → is_terminal_order s ≡ true
unfolding is_terminal_order
listed_terminal s h k = ground arith

-- A status of the terminal list of types.ts, FAILED apart, is the last one of every history of accepted
-- calls of `assertOrderTransition` from it.
pub Reach-terminal :
    (s : OrderStatus) {t : OrderStatus}
    → includes terminal_order_statuses s ≡ true
    → status_eq s failed ≡ false
    → Reach s t
    → t ≡ s
Reach-terminal s h k r = terminal-Reach s (listed_terminal s h k) r

to_unknown :
    (s : OrderStatus) → is_terminal_order s ≡ false → assert_order_transition s unknown ≡ some tt
unfolding is_terminal_order assert_order_transition can_transition_order
to_unknown s h = ground arith

from_unknown :
    (t : OrderStatus) → is_terminal_order t ≡ true → assert_order_transition unknown t ≡ some tt
unfolding is_terminal_order assert_order_transition can_transition_order
from_unknown t h = ground arith

-- An order that has not ended can still end in every way: some history leads from its status to every
-- terminal one.
pub Reach-end :
    (s t : OrderStatus) → is_terminal_order s ≡ false → is_terminal_order t ≡ true → Reach s t
Reach-end s t h k =
    next (next here (move s unknown (to_unknown s h))) (move unknown t (from_unknown t k))

-- The lists of types.ts and the table of stateMachine.ts: every status is in exactly one of the lists
-- of open and of terminal statuses, and the terminal list holds the statuses that the table lets nothing
-- leave, and `FAILED`, which the table lets go.
pub terminal-lists :
    (s : OrderStatus)
    → (includes open_order_statuses s ≡ not (includes terminal_order_statuses s))
      × (includes terminal_order_statuses s ≡ (is_terminal_order s || status_eq s failed))
      × (is_terminal_order failed ≡ false)
unfolding is_terminal_order
terminal-lists s = ground arith
