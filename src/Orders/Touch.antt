-- ===== src/Orders/Touch.antt =====
-- When an order fills: the guards of `_blocked` and the touch of its price, in both directions.
use stock_analyser.Prelude.{
  ℕ, ◌≤◌, ◌<◌, ◌≡◌, ◌≢◌, ◌⊎◌, ◌↔◌, inl, inr, refl, true, false, arith, ok, Option, none, some,
  Bool-cases, Option-cases, ltb, Result,
}
use stock_analyser.Decimal.{Decimal, ◌≤d◌}
use stock_analyser.Decimal.Order.{led-cases}
use stock_analyser.Costs.{Side, buy, sell}
use stock_analyser.Fills.{Lock, upper, lower}
use stock_analyser.Orders.{
  Order, Candle, Fill, OrderType, market, limit, stop_loss, target, is_active, blocked,
  side_can_trade, created_during, try_fill, fill_by_type, limit_fill, trigger_fill, AssertionError,
}
use stock_analyser.Orders.Machine.{IsWellFormed}
use stock_analyser.Orders.Inversion.{try_fill-not_blocked, try_fill-by_type}

-- The order was placed strictly inside the candle's window.
abbrev pub IsInside : ℕ → ℕ → Option ℕ → Type 0
IsInside created start none = ⊥
IsInside created start (some finish) = (start < created) × (created < finish)

-- No buy at an upper lock and no sell at a lower lock.
abbrev pub CanTrade : Side → Lock → Type 0
CanTrade buy lock = lock ≢ upper
CanTrade sell lock = lock ≢ lower

-- The order is active, its side can trade, and it was there when the candle began, unless it is a
-- market order placed inside the candle.
pub record IsFillable (order : Order) (candle : Candle) (lock : Lock) : Type 0 where
  pub active : is_active order.status ≡ true
  pub trades : CanTrade order.side lock
  pub timely :
      (order.created_at ≤ candle.start)
      ⊎ ((order.order_type ≡ market) × IsInside order.created_at candle.start candle.finish)

side_can_trade_iff :
    (side : Side) (lock : Lock) → (side_can_trade side lock ≡ true) ↔ CanTrade side lock
unfolding side_can_trade
side_can_trade_iff side lock = ground arith

created_during_iff :
    (order : Order) (candle : Candle)
    → (created_during order candle ≡ true) ↔ IsInside order.created_at candle.start candle.finish
unfolding created_during
created_during_iff order candle = ground arith

not_blocked-IsFillable :
    (order : Order) (candle : Candle) (lock : Lock)
    → blocked order candle lock ≡ false
    → IsFillable order candle lock
unfolding blocked
not_blocked-IsFillable order candle lock h =
    ground (arith, side_can_trade_iff order.side lock, created_during_iff order candle)

IsFillable-not_blocked :
    (order : Order) (candle : Candle) (lock : Lock)
    → IsFillable order candle lock
    → blocked order candle lock ≡ false
unfolding blocked
IsFillable-not_blocked order candle lock h =
    ground (arith, side_can_trade_iff order.side lock, created_during_iff order candle)

-- The candle reached the order's price.
abbrev pub TouchesLimit : Side → Decimal → Candle → Type 0
TouchesLimit buy lim candle = candle.low ≤d lim
TouchesLimit sell lim candle = lim ≤d candle.high

abbrev pub Touches : Side → OrderType → Option Decimal → Option Decimal → Candle → Type 0
Touches side market l t candle = Unit
Touches side limit (some lim) t candle = TouchesLimit side lim candle
Touches side stop_loss l (some trig) candle = candle.low ≤d trig
Touches side target l (some trig) candle = trig ≤d candle.high
Touches side _ _ _ candle = ⊥

abbrev pub Fills : Order → Candle → Lock → Type 0
Fills order candle lock = (f : Fill) × (try_fill order candle lock ≡ ok (some f))

limit_fill_iff :
    (side : Side) (lim : Decimal) (c : Candle)
    → ((f : Fill) × (limit_fill side lim c ≡ some f)) ↔ TouchesLimit side lim c
unfolding limit_fill
limit_fill_iff buy lim c = elim (led-cases c.low lim) [
  | inl (e, h) ↦ rw e (λ x. h, λ x. (_, refl))
  | inr (e, h) ↦ rw e (λ x. cc x.1, λ x. absurd (omega arith))
]
limit_fill_iff sell lim c = elim (led-cases lim c.high) [
  | inl (e, h) ↦ rw e (λ x. h, λ x. (_, refl))
  | inr (e, h) ↦ rw e (λ x. cc x.1, λ x. absurd (omega arith))
]

stop_fill_iff :
    (trig : Decimal) (c : Candle)
    → ((f : Fill) × (trigger_fill stop_loss trig c ≡ some f)) ↔ (c.low ≤d trig)
unfolding trigger_fill
stop_fill_iff trig c = elim (led-cases c.low trig) [
  | inl (e, h) ↦ rw e (λ x. h, λ x. (_, refl))
  | inr (e, h) ↦ rw e (λ x. cc x.1, λ x. absurd (omega arith))
]

target_fill_iff :
    (trig : Decimal) (c : Candle)
    → ((f : Fill) × (trigger_fill target trig c ≡ some f)) ↔ (trig ≤d c.high)
unfolding trigger_fill
target_fill_iff trig c = elim (led-cases trig c.high) [
  | inl (e, h) ↦ rw e (λ x. h, λ x. (_, refl))
  | inr (e, h) ↦ rw e (λ x. cc x.1, λ x. absurd (omega arith))
]

market_fills :
    (order : Order) (c : Candle) → (f : Fill) × (fill_by_type market order c ≡ ok (some f))
unfolding fill_by_type
market_fills order c = elim (Bool-cases (ltb c.start order.created_at)) [
  | inl e ↦ rw e (_, refl)
  | inr e ↦ rw e (_, refl)
]

-- A result that is a fill for sure, seen as the fill itself.
lift_ok :
    (o : Option Fill) {f : Fill}
    → (let r : Result AssertionError (Option Fill) = ok o in r ≡ ok (some f))
    → o ≡ some f
lift_ok o h = cc

fill_by_type_iff :
    (type : OrderType) (order : Order) (c : Candle)
    → ((f : Fill) × (fill_by_type type order c ≡ ok (some f)))
      ↔ Touches order.side type order.limit_price order.trigger_price c
unfolding fill_by_type
fill_by_type_iff market order c = (λ _. tt, λ _. market_fills order c)
fill_by_type_iff limit order c = elim (Option-cases order.limit_price) [
  | inl e ↦ rw e (λ x. cc x.1, λ x. absurd x)
  | inr (lim, e) ↦ rw e (
    λ x. (limit_fill_iff order.side lim c).0 (x.0, lift_ok _ x.1),
    λ x. let (f, g) = (limit_fill_iff order.side lim c).1 x in (f, rw g),
  )
]
fill_by_type_iff stop_loss order c = elim (Option-cases order.trigger_price) [
  | inl e ↦ rw e (λ x. cc x.1, λ x. absurd x)
  | inr (trig, e) ↦ rw e (
    λ x. (stop_fill_iff trig c).0 (x.0, lift_ok _ x.1),
    λ x. let (f, g) = (stop_fill_iff trig c).1 x in (f, rw g),
  )
]
fill_by_type_iff target order c = elim (Option-cases order.trigger_price) [
  | inl e ↦ rw e (λ x. cc x.1, λ x. absurd x)
  | inr (trig, e) ↦ rw e (
    λ x. (target_fill_iff trig c).0 (x.0, lift_ok _ x.1),
    λ x. let (f, g) = (target_fill_iff trig c).1 x in (f, rw g),
  )
]

-- An order fills on a candle exactly when it may (it is active, no circuit lock stands against its
-- side, and it is no younger than the candle, or a market order placed inside it) and the candle
-- reaches its price.
pub try_fill_iff :
    (order : Order) (candle : Candle) (lock : Lock)
    → Fills order candle lock ↔ (
        IsFillable order candle lock
        × Touches order.side order.order_type order.limit_price order.trigger_price candle)
unfolding try_fill
try_fill_iff order candle lock = (
  λ x. (
    not_blocked-IsFillable order candle lock (try_fill-not_blocked order candle lock x.1),
    (fill_by_type_iff order.order_type order candle).0
        (x.0, try_fill-by_type order candle lock x.1),
  ),
  λ x.
      let (f, g) = (fill_by_type_iff order.order_type order candle).1 x.1 in
      (f, rw (IsFillable-not_blocked order candle lock x.0) g),
)

after_start :
    (created start : ℕ) (finish : Option ℕ) → IsInside created start finish → start < created
after_start created start none h = absurd h
after_start created start (some finish) h = h.0

market-closing :
    (order : Order) (c : Candle) {f : Fill}
    → c.start < order.created_at
    → fill_by_type market order c ≡ ok (some f)
    → f.price ≡ c.closing
unfolding fill_by_type
market-closing order c h e = ground arith

-- Any order that fills was there when the candle began, except a market order placed inside the
-- candle, and that one fills at the candle's close. So no fill rests on a price from before the
-- order.
pub try_fill_timely :
    (order : Order) (candle : Candle) (lock : Lock) {f : Fill}
    → try_fill order candle lock ≡ ok (some f)
    → (order.created_at ≤ candle.start)
      ⊎ ((order.order_type ≡ market)
          × IsInside order.created_at candle.start candle.finish
          × (f.price ≡ candle.closing))
try_fill_timely order candle lock {f} h =
    let ready = (try_fill_iff order candle lock).0 (f, h) in
    elim ready.0.timely [
      | inl e ↦ inl e
      | inr (m, i) ↦
          let g : fill_by_type market order candle ≡ ok (some f) =
            rw (← m) (try_fill-by_type order candle lock h) in
          inr (
            m,
            i,
            market-closing order candle (after_start order.created_at candle.start candle.finish i)
                g,
          )
    ]

fill_by_type_total :
    (type : OrderType) (order : Order) (c : Candle)
    → IsWellFormed order.side type order.limit_price order.trigger_price
    → (r : Option Fill) × (fill_by_type type order c ≡ ok r)
unfolding fill_by_type
fill_by_type_total market order c w = let (f, e) = market_fills order c in (some f, e)
fill_by_type_total limit order c w = elim (Option-cases order.limit_price) [
  | inl e ↦ absurd (rw e at w)
  | inr (lim, e) ↦ rw e (_, refl)
]
fill_by_type_total stop_loss order c w = elim (Option-cases order.trigger_price) [
  | inl e ↦ absurd ((rw e at w).1)
  | inr (trig, e) ↦ rw e (_, refl)
]
fill_by_type_total target order c w = elim (Option-cases order.trigger_price) [
  | inl e ↦ absurd ((rw e at w).1)
  | inr (trig, e) ↦ rw e (_, refl)
]

-- No assertion of the fill rules fails for an order whose prices fit its type, as `validate_order`
-- asks.
pub try_fill_total :
    (order : Order) (candle : Candle) (lock : Lock)
    → IsWellFormed order.side order.order_type order.limit_price order.trigger_price
    → (r : Option Fill) × (try_fill order candle lock ≡ ok r)
unfolding try_fill
try_fill_total order candle lock w = elim (Bool-cases (blocked order candle lock)) [
  | inl e ↦ rw e (none, refl)
  | inr e ↦ rw e (fill_by_type_total order.order_type order candle w)
]
