-- ===== src/Orders/FillRules.antt =====
-- The price that an order fills at, and the candles that it may fill on.
use stock_analyser.Prelude.{
  ◌≡◌, inl, inr, refl, arith, ok, Option, none, some, Bool-cases, ltb, or_raise, ◌>>=◌,
}
use stock_analyser.Decimal.{Decimal, ◌≤d◌, min_d, max_d}
use stock_analyser.Decimal.Order.{≤d_trans, min_d-le, le-max_d, min_d-cases, max_d-cases, led-cases}
use stock_analyser.Costs.{Side, buy, sell}
use stock_analyser.Fills.{Lock}
use stock_analyser.Orders.{
  Order, Candle, Fill, OrderType, market, limit, stop_loss, target, try_fill, fill_by_type,
  limit_fill, trigger_fill, no_limit_price, no_trigger_price,
}
use stock_analyser.Orders.Inversion.{try_fill-by_type}

-- The candle's prices are in order.
pub record IsCandle (c : Candle) : Type 0 where
  pub low_open : c.low ≤d c.opening
  pub open_high : c.opening ≤d c.high
  pub low_close : c.low ≤d c.closing
  pub close_high : c.closing ≤d c.high

abbrev pub IsTraded : Decimal → Candle → Type 0
IsTraded p c = (c.low ≤d p) × (p ≤d c.high)

min-IsTraded : (p : Decimal) (c : Candle) → IsCandle c → c.low ≤d p → IsTraded (min_d p c.opening) c
min-IsTraded p c v h = (
  elim (min_d-cases p c.opening) [ inl e ↦ rw e h | inr e ↦ rw e v.low_open ],
  ≤d_trans (min_d p c.opening) c.opening c.high (min_d-le p c.opening).1 v.open_high,
)

max-IsTraded :
    (p : Decimal) (c : Candle) → IsCandle c → p ≤d c.high → IsTraded (max_d p c.opening) c
max-IsTraded p c v h = (
  ≤d_trans c.low c.opening (max_d p c.opening) v.low_open (le-max_d p c.opening).1,
  elim (max_d-cases p c.opening) [ inl e ↦ rw e h | inr e ↦ rw e v.open_high ],
)

-- How the fill price stands to the order's own price.
abbrev pub WithinLimit : Side → Decimal → Decimal → Type 0
WithinLimit buy lim price = price ≤d lim
WithinLimit sell lim price = lim ≤d price

limit_fill-buy :
    (lim : Decimal) (c : Candle) {f : Fill}
    → limit_fill buy lim c ≡ some f
    → (c.low ≤d lim) × (f.price ≡ min_d lim c.opening)
unfolding limit_fill
limit_fill-buy lim c h = ground (arith, led-cases c.low lim)

limit_fill-sell :
    (lim : Decimal) (c : Candle) {f : Fill}
    → limit_fill sell lim c ≡ some f
    → (lim ≤d c.high) × (f.price ≡ max_d lim c.opening)
unfolding limit_fill
limit_fill-sell lim c h = ground (arith, led-cases lim c.high)

trigger_fill-stop :
    (trig : Decimal) (c : Candle) {f : Fill}
    → trigger_fill stop_loss trig c ≡ some f
    → (c.low ≤d trig) × (f.price ≡ min_d trig c.opening)
unfolding trigger_fill
trigger_fill-stop trig c h = ground (arith, led-cases c.low trig)

trigger_fill-target :
    (trig : Decimal) (c : Candle) {f : Fill}
    → trigger_fill target trig c ≡ some f
    → (trig ≤d c.high) × (f.price ≡ max_d trig c.opening)
unfolding trigger_fill
trigger_fill-target trig c h = ground (arith, led-cases trig c.high)

buy_sound :
    (lim : Decimal) (c : Candle) {f : Fill}
    → IsCandle c
    → limit_fill buy lim c ≡ some f
    → IsTraded f.price c × (f.price ≤d lim)
buy_sound lim c v h =
    let (t, e) = limit_fill-buy lim c h in rw e (min-IsTraded lim c v t, (min_d-le lim c.opening).0)

sell_sound :
    (lim : Decimal) (c : Candle) {f : Fill}
    → IsCandle c
    → limit_fill sell lim c ≡ some f
    → IsTraded f.price c × (lim ≤d f.price)
sell_sound lim c v h =
    let (t, e) = limit_fill-sell lim c h in
    rw e (max-IsTraded lim c v t, (le-max_d lim c.opening).0)

side_sound :
    (side : Side) (lim : Decimal) (c : Candle) {f : Fill}
    → IsCandle c
    → limit_fill side lim c ≡ some f
    → IsTraded f.price c × WithinLimit side lim f.price
side_sound buy lim c v h = buy_sound lim c v h
side_sound sell lim c v h = sell_sound lim c v h

stop_sound :
    (trig : Decimal) (c : Candle) {f : Fill}
    → IsCandle c
    → trigger_fill stop_loss trig c ≡ some f
    → IsTraded f.price c × (f.price ≤d trig)
stop_sound trig c v h =
    let (t, e) = trigger_fill-stop trig c h in
    rw e (min-IsTraded trig c v t, (min_d-le trig c.opening).0)

target_sound :
    (trig : Decimal) (c : Candle) {f : Fill}
    → IsCandle c
    → trigger_fill target trig c ≡ some f
    → IsTraded f.price c × (trig ≤d f.price)
target_sound trig c v h =
    let (t, e) = trigger_fill-target trig c h in
    rw e (max-IsTraded trig c v t, (le-max_d trig c.opening).0)

-- The promise of an order's type about the price that it fills at.
abbrev pub Honours : Order → OrderType → Decimal → Type 0
Honours order market price = Unit
Honours order limit price =
    (lim : Decimal) → order.limit_price ≡ some lim → WithinLimit order.side lim price
Honours order stop_loss price = (trig : Decimal) → order.trigger_price ≡ some trig → price ≤d trig
Honours order target price = (trig : Decimal) → order.trigger_price ≡ some trig → trig ≤d price

-- A chain that asks for a price yields a fill only where the price is there.
or_raise-some :
    {E A : Type 0} (o : Option A) (e : E) (g : A → Option Fill) {f : Fill}
    → (or_raise o e >>= λ a. ok (g a)) ≡ ok (some f)
    → (a : A) × (o ≡ some a) × (g a ≡ some f)
or_raise-some none e g h = cc
or_raise-some (some a) e g h = (a, refl, cc)

at_price :
    (o : Option Decimal) (P : Decimal → Type 0) {p : Decimal}
    → o ≡ some p
    → P p
    → (q : Decimal) → o ≡ some q
    → P q
at_price o P {p} e h q e' = let same : p ≡ q = cc in rw same at h

fill_by_type_sound :
    (type : OrderType) (order : Order) (c : Candle) {f : Fill}
    → IsCandle c
    → fill_by_type type order c ≡ ok (some f)
    → IsTraded f.price c × Honours order type f.price
unfolding fill_by_type
fill_by_type_sound market order c {f} v h = elim (Bool-cases (ltb c.start order.created_at)) [
  | inl e ↦ let g : f.price ≡ c.closing = ground arith in rw g ((v.low_close, v.close_high), tt)
  | inr e ↦ let g : f.price ≡ c.opening = ground arith in rw g ((v.low_open, v.open_high), tt)
]
fill_by_type_sound limit order c {f} v h =
    let (lim, e, g) =
      or_raise-some order.limit_price no_limit_price (λ p. limit_fill order.side p c) h in
    let (traded, good) = side_sound order.side lim c v g in
    (traded, at_price order.limit_price (λ p. WithinLimit order.side p f.price) e good)
fill_by_type_sound stop_loss order c {f} v h =
    let (trig, e, g) =
      or_raise-some order.trigger_price no_trigger_price (λ p. trigger_fill stop_loss p c) h in
    let (traded, good) = stop_sound trig c v g in
    (traded, at_price order.trigger_price (λ p. f.price ≤d p) e good)
fill_by_type_sound target order c {f} v h =
    let (trig, e, g) =
      or_raise-some order.trigger_price no_trigger_price (λ p. trigger_fill target p c) h in
    let (traded, good) = target_sound trig c v g in
    (traded, at_price order.trigger_price (λ p. p ≤d f.price) e good)

-- On a candle whose prices are in order, an order fills at a price between the low and the high,
-- and never worse than its own price allows: a buy limit at or below the limit, a sell limit at or
-- above it, a stop-loss at or below its trigger, a target at or above it.
pub try_fill_price :
    (order : Order) (candle : Candle) (lock : Lock) {f : Fill}
    → IsCandle candle
    → try_fill order candle lock ≡ ok (some f)
    → IsTraded f.price candle × Honours order order.order_type f.price
try_fill_price order candle lock v h =
    fill_by_type_sound order.order_type order candle v (try_fill-by_type order candle lock h)
