-- ===== src/Orders/Machine.antt =====
-- The order state machine: `transition`, `Order.with_status` and `validate_order` of
-- backend/src/stk/domain/orders.py.
use stock_analyser.Prelude.{
  ◌≡◌, ◌≢◌, ◌↔◌, refl, true, false, arith, ok, Option, none, some, ℤ, pos, ◌≤ℤ◌,
}
use stock_analyser.Decimal.{Decimal, ◌<d◌, zero_d}
use stock_analyser.Decimal.Order.{led-cases}
use stock_analyser.Costs.{Side, sell}
use stock_analyser.Orders.{
  OrderStatus, OrderType, market, limit, stop_loss, target, allowed, transition, is_active,
  validate_order,
}

-- A move is legal exactly when the order is still active and the status changes.
pub transition_iff :
    (current new : OrderStatus)
    → (transition current new ≡ ok new) ↔ ((is_active current ≡ true) × (new ≢ current))
unfolding transition allowed is_active
transition_iff current new = ground arith

-- The statuses that a chain of legal moves leads to.
pub data Reaches (s : OrderStatus) : OrderStatus → Type 0 where
  stays : Reaches s s
  moves : {t u : OrderStatus} → Reaches s t → transition t u ≡ ok u → Reaches s u

transition_active : (t u : OrderStatus) → transition t u ≡ ok u → is_active t ≡ true
transition_active t u h = ((transition_iff t u).0 h).0

-- A filled, cancelled or rejected order never changes again.
pub Reaches-terminal : {s t : OrderStatus} → Reaches s t → is_active s ≡ false → t ≡ s
Reaches-terminal stays h = refl
Reaches-terminal (moves {t = t} {u = u} r e) h =
    absurd (ground (arith, Reaches-terminal r h, transition_active t u e))

-- What a price that the door lets through looks like.
abbrev pub IsPositive : Option Decimal → Type 0
IsPositive none = ⊥
IsPositive (some price) = zero_d <d price

-- An order that is worth storing, by its type.
abbrev pub IsWellFormed : Side → OrderType → Option Decimal → Option Decimal → Type 0
IsWellFormed side market l t = (l ≡ none) × (t ≡ none)
IsWellFormed side limit l t = IsPositive l
IsWellFormed side stop_loss l t = (side ≡ sell) × IsPositive t
IsWellFormed side target l t = (side ≡ sell) × IsPositive t

-- `validate_order` accepts exactly the orders of quantity one or more whose prices fit their type:
-- a market order has none, a limit order a positive limit, and a stop-loss or a target is a sell
-- with a positive trigger.
pub validate_order_iff :
    (side : Side) (type : OrderType) (qty : ℤ) (l t : Option Decimal)
    → (validate_order side type qty l t ≡ ok tt) ↔ ((pos 1 ≤ℤ qty) × IsWellFormed side type l t)
unfolding validate_order
validate_order_iff side market qty l t = ground arith
validate_order_iff side limit qty none t = ground arith
validate_order_iff side limit qty (some p) t = ground (arith, led-cases p zero_d)
validate_order_iff side stop_loss qty l none = ground arith
validate_order_iff side stop_loss qty l (some p) = ground (arith, led-cases p zero_d)
validate_order_iff side target qty l none = ground arith
validate_order_iff side target qty l (some p) = ground (arith, led-cases p zero_d)
