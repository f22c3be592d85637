-- ===== src/Orders.antt =====
-- backend/src/stk/domain/orders.py: paper orders, their state machine and the fill rules.
-- Datetimes are instants counted in whole seconds; they are only compared.
pub mod Machine
pub mod Inversion
pub mod FillRules
pub mod Touch
pub mod Oco
use stock_analyser.Prelude.{
  ℕ, Bool, true, false, ◌&&◌, ◌||◌, not, if◌then◌else◌, ltb, leb, Option, none, some, List, [], ◌∷◌,
  ℤ, pos, ltb_ℤ, Result, ok, err, ◌>>=◌, ◌>>◌, raise_if, is_some, or_raise, sort_by,
}
use stock_analyser.Decimal.{Decimal, zero_d, led, min_d, max_d}
use stock_analyser.Costs.{Side, buy, sell}
use stock_analyser.Fills.{Lock, can_buy, can_sell}

pub data OrderType : Type 0 where
  market limit stop_loss target : OrderType

-- `opened` is the source's `OPEN`.
pub data OrderStatus : Type 0 where
  opened pending_eod filled cancelled rejected : OrderStatus

-- The table `_ALLOWED`, as the test `new in _ALLOWED[current]`.
unfoldable pub allowed : OrderStatus → OrderStatus → Bool
allowed opened opened = false
allowed opened _ = true
allowed pending_eod pending_eod = false
allowed pending_eod _ = true
allowed _ _ = false

pub data IllegalTransition : Type 0 where
  illegal : OrderStatus → OrderStatus → IllegalTransition

unfoldable pub transition : OrderStatus → OrderStatus → Result IllegalTransition OrderStatus
transition current new = if allowed current new then ok new else err (illegal current new)

-- The reasons of `OrderError`.
pub data OrderError : Type 0 where
  bad_quantity bad_limit_price not_sell_side bad_trigger_price market_with_price : OrderError

pub record Order : Type 0 where
  pub order_id : ℕ
  pub side : Side
  pub order_type : OrderType
  pub qty : ℕ
  pub created_at : ℕ
  pub limit_price : Option Decimal
  pub trigger_price : Option Decimal
  pub status : OrderStatus
  pub oco_group : Option ℕ

unfoldable pub with_status : Order → OrderStatus → Result IllegalTransition Order
unfolding transition
with_status order new = do
  status ← transition order.status new
  ok (record order { status = status })

-- `price is None or price <= 0`
abbrev pub not_positive : Option Decimal → Bool
not_positive none = true
not_positive (some price) = led price zero_d

abbrev pub is_sell : Side → Bool
is_sell buy = false
is_sell sell = true

abbrev pub is_market : OrderType → Bool
is_market market = true
is_market _ = false

abbrev pub is_stop_loss : OrderType → Bool
is_stop_loss stop_loss = true
is_stop_loss _ = false

-- The checks that depend on the order's type.
unfoldable pub validate_type :
    Side → OrderType → Option Decimal → Option Decimal → Result OrderError (Unit {0})
validate_type side limit limit_price trigger_price =
    raise_if (not_positive limit_price) bad_limit_price
validate_type side market limit_price trigger_price =
    raise_if (is_some limit_price || is_some trigger_price) market_with_price
validate_type side _ limit_price trigger_price = do
  raise_if (not (is_sell side)) not_sell_side
  raise_if (not_positive trigger_price) bad_trigger_price

unfoldable pub validate_order :
    Side → OrderType → ℤ → Option Decimal → Option Decimal → Result OrderError (Unit {0})
unfolding validate_type
validate_order side type qty limit_price trigger_price = do
  raise_if (ltb_ℤ qty (pos 1)) bad_quantity
  validate_type side type limit_price trigger_price

pub record Candle : Type 0 where
  pub start : ℕ
  pub opening : Decimal
  pub high : Decimal
  pub low : Decimal
  pub closing : Decimal
  pub volume : ℕ
  pub finish : Option ℕ

pub data FillReason : Type 0 where
  market_open market_close limit_gap limit_touch stop_gap stop_touch target_gap target_touch :
      FillReason

pub record Fill : Type 0 where
  pub price : Decimal
  pub reason : FillReason

unfoldable pub created_during : Order → Candle → Bool
created_during order candle = elim candle.finish [
  | none ↦ false
  | some finish ↦ ltb candle.start order.created_at && ltb order.created_at finish
]

unfoldable pub is_active : OrderStatus → Bool
is_active opened = true
is_active pending_eod = true
is_active _ = false

-- `can_buy(lock) if order.side is Side.BUY else can_sell(lock)`
unfoldable pub side_can_trade : Side → Lock → Bool
unfolding can_buy can_sell
side_can_trade buy lock = can_buy lock
side_can_trade sell lock = can_sell lock

unfoldable pub blocked : Order → Candle → Lock → Bool
unfolding created_during is_active side_can_trade
blocked order candle lock =
    if not (is_active order.status)
    then true
    else if ltb candle.start order.created_at
        && not (is_market order.order_type && created_during order candle)
    then true
    else not (side_can_trade order.side lock)

abbrev fill : Decimal → FillReason → Option Fill
fill price reason = some (record { price = price; reason = reason })

-- The body of `_limit_fill` for each side, at the limit and the candle.
unfoldable pub limit_fill : Side → Decimal → Candle → Option Fill
limit_fill buy lim candle =
    if led candle.low lim
    then fill (min_d lim candle.opening) (if led candle.opening lim then limit_gap else limit_touch)
    else none
limit_fill sell lim candle =
    if led lim candle.high
    then fill (max_d lim candle.opening) (if led lim candle.opening then limit_gap else limit_touch)
    else none

-- The body of `_trigger_fill`, which never asks for the side.
unfoldable pub trigger_fill : OrderType → Decimal → Candle → Option Fill
trigger_fill stop_loss trig candle =
    if led candle.low trig
    then fill (min_d trig candle.opening) (if led candle.opening trig then stop_gap else stop_touch)
    else none
trigger_fill target trig candle =
    if led trig candle.high
    then fill (max_d trig candle.opening)
        (if led trig candle.opening then target_gap else target_touch)
    else none
trigger_fill _ trig candle = none

-- The two `assert ... is not None`.
pub data AssertionError : Type 0 where
  no_limit_price no_trigger_price : AssertionError

-- The dispatch of `try_fill` on the order's type.
unfoldable pub fill_by_type : OrderType → Order → Candle → Result AssertionError (Option Fill)
unfolding limit_fill trigger_fill
fill_by_type market order candle =
    if ltb candle.start order.created_at
    then ok (fill candle.closing market_close)
    else ok (fill candle.opening market_open)
fill_by_type limit order candle = do
  lim ← or_raise order.limit_price no_limit_price
  ok (limit_fill order.side lim candle)
fill_by_type type order candle = do
  trig ← or_raise order.trigger_price no_trigger_price
  ok (trigger_fill type trig candle)

unfoldable pub try_fill : Order → Candle → Lock → Result AssertionError (Option Fill)
unfolding blocked fill_by_type
try_fill order candle lock =
    if blocked order candle lock then ok none else fill_by_type order.order_type order candle

unfoldable pub market_order_expired : Order → ℕ → Bool
unfolding is_active
market_order_expired order session_close =
    is_market order.order_type && (is_active order.status && leb order.created_at session_close)

-- The list of `(order, fill)` pairs that `resolve_oco` collects.
abbrev pub Hit : Type 0
Hit = Order × Fill

abbrev cons_hit : Order → Option Fill → List Hit → List Hit
cons_hit order none hits = hits
cons_hit order (some f) hits = (order, f) ∷ hits

unfoldable pub collect_hits : List Order → Candle → Lock → Result AssertionError (List Hit)
collect_hits [] candle lock = ok []
collect_hits (order ∷ orders) candle lock = do
  f ← try_fill order candle lock
  hits ← collect_hits orders candle lock
  ok (cons_hit order f hits)

-- `key=lambda h: 0 if h[0].type is OrderType.STOP_LOSS else 1`, compared.
abbrev pub stop_first : Hit → Hit → Bool
stop_first a b = is_stop_loss a.0.order_type && not (is_stop_loss b.0.order_type)

-- `hits[0]`, or `None` where there is none
abbrev first_hit : List Hit → Option Hit
first_hit [] = none
first_hit (hit ∷ hits) = some hit

unfoldable pub resolve_oco : List Order → Candle → Lock → Result AssertionError (Option Hit)
resolve_oco orders candle lock = do
  hits ← collect_hits orders candle lock
  ok (first_hit (sort_by stop_first hits))
