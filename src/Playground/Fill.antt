-- ===== src/Playground/Fill.antt =====
-- backend/src/stk/playground/fills.py: booking a touched price as a trade. `now` is the clock's
-- reading in `set_status`, `moment` the source's `fc.when`. An error leaves the caller's tables as
-- they were, as the transaction does. The texts of the trade (reason, feed, notes) are left out.
pub mod Siblings
pub mod Booking
pub mod Effects
pub mod Outcome
pub mod Holdings
pub mod Closing
use stock_analyser.Prelude.{
  ℕ, ◌+◌, ◌*◌, Bool, true, false, ◌&&◌, ◌||◌, not, if◌then◌else◌, ◌==◌, Option, none, some, List,
  [], ◌∷◌, ◌++◌, ℤ, pos, ◌+ℤ◌, ◌-ℤ◌, ◌*ℤ◌, leb_ℤ, ltb_ℤ, Result, ok, err, ◌>>=◌, ◌>>◌, raise_if,
}
use stock_analyser.Decimal.{Decimal, of_nat, ◌-d◌, ◌*d◌}
use stock_analyser.Money.{to_money, of_money}
use stock_analyser.Costs.{
  Side, buy, sell, Product, delivery, intraday, CostRates, CostError, CostBreakdown, total,
  compute_costs, dp_charge,
}
use stock_analyser.Slippage.{SlippageTier, SlippageError, slippage_bps, apply_slippage}
use stock_analyser.Positions.{Position, PositionError, apply_buy, apply_sell}
use stock_analyser.Orders.{
  Order, OrderType, OrderStatus, opened, filled, cancelled, rejected, stop_loss, target, is_active,
  is_sell,
}
use stock_analyser.Playground.Store.{
  Listing, Db, OrderRow, TradeRow, CashKind, buy_cash, sell_cash, charges_cash, day_of,
  next_order_id, next_trade_id,
}
use stock_analyser.Playground.Ledger.{cash_balance, add_cash, get_position, save_position}
use stock_analyser.Playground.Book.{BookError, set_status}

-- `PlayCtx` and the parts of its configuration that the playground reads. `rates_for` reads the
-- tariff in force on a day.
pub record PlayCtx : Type 0 where
  pub tiers : List SlippageTier
  pub product : Product
  pub rates_for : ℕ → ℕ → CostRates
  pub circuit_band_pcts : List Decimal
  pub circuit_tolerance_pct : Decimal

-- Whatever a fill may raise.
pub data FillError : Type 0 where
  slippage_error : SlippageError → FillError
  cost_error : CostError → FillError
  position_error : PositionError → FillError
  book_error : BookError → FillError

abbrev pub recast : {E A : Type 0} → (E → FillError) → Result E A → Result FillError A
recast f (ok a) = ok a
recast f (err e) = err (f e)

abbrev pub is_delivery : Product → Bool
is_delivery delivery = true
is_delivery intraday = false

-- The `SELECT` of `_dp_already_charged` finds the trade.
abbrev pub is_dp_trade : ℕ → ℕ → ℕ → TradeRow → Bool
is_dp_trade pid symbol day t =
    t.listing.portfolio_id == pid
    && (t.listing.symbol == symbol
        && (is_sell t.side && (day_of t.filled_at == day && ltb_ℤ (pos 0) t.dp)))

unfoldable pub dp_already_charged : List TradeRow → ℕ → ℕ → ℕ → Bool
dp_already_charged [] pid symbol day = false
dp_already_charged (t ∷ ts) pid symbol day =
    is_dp_trade pid symbol day t || dp_already_charged ts pid symbol day

-- What a fill costs, in paise. `charges` includes `dp`.
pub record Quote : Type 0 where
  pub price : ℤ
  pub gross : ℤ
  pub dp : ℤ
  pub charges : ℤ

unfoldable pub dp_of : Db → PlayCtx → OrderRow → ℕ → CostRates → ℤ
unfolding dp_already_charged
dp_of db ctx row day rates =
    if is_sell row.order.side
      && (is_delivery ctx.product
          && not (dp_already_charged db.trades row.listing.portfolio_id row.listing.symbol day))
    then dp_charge rates
    else pos 0

-- The part of `apply_fill` before its transaction.
unfoldable pub quote_fill :
    Db → PlayCtx → OrderRow → Decimal → ℕ → Option Decimal → Result FillError Quote
unfolding dp_of
quote_fill db ctx row raw_price moment adv_turnover = do
  bps ← recast slippage_error (slippage_bps adv_turnover ctx.tiers)
  let price = to_money (apply_slippage raw_price row.order.side bps)
  let gross = price *ℤ pos row.order.qty
  let rates = ctx.rates_for row.listing.exchange (day_of moment)
  breakdown ← recast cost_error (compute_costs row.order.side ctx.product (of_money gross) rates)
  let dp = dp_of db ctx row (day_of moment) rates
  ok (record { price = price; gross = gross; dp = dp; charges = total breakdown +ℤ dp })

-- `oco_group=?`
abbrev pub in_group : ℕ → Option ℕ → Bool
in_group group none = false
in_group group (some g) = g == group

-- The `SELECT` of `_cancel_oco_siblings`, oldest row first.
abbrev pub is_sibling : Option ℕ → ℕ → OrderRow → Bool
is_sibling none id r = false
is_sibling (some group) id r =
    in_group group r.order.oco_group && (not (r.order.order_id == id) && is_active r.order.status)

unfoldable pub sibling_ids : List OrderRow → Option ℕ → ℕ → List ℕ
sibling_ids [] group id = []
sibling_ids (r ∷ rs) group id =
    sibling_ids rs group id ++ (if is_sibling group id r then r.order.order_id ∷ [] else [])

-- Cancels the orders, one after the other.
unfoldable pub cancel_all : Db → List ℕ → ℕ → Result BookError Db
cancel_all db [] now = ok db
cancel_all db (id ∷ ids) now = do
  db' ← set_status db id cancelled (some now)
  cancel_all db' ids now

unfoldable pub cancel_oco_siblings : Db → OrderRow → ℕ → Result BookError Db
unfolding sibling_ids cancel_all
cancel_oco_siblings db row now =
    cancel_all db (sibling_ids db.orders row.order.oco_group row.order.order_id) now

-- The inserted row of one leg. The group `bk<id>` has the number of the parent's id.
abbrev pub bracket_leg : OrderRow → OrderType → Decimal → ℕ → ℕ → OrderRow
bracket_leg parent kind trig id moment = record {
  order = record {
    order_id = id;
    side = sell;
    order_type = kind;
    qty = parent.order.qty;
    created_at = moment;
    limit_price = none;
    trigger_price = some trig;
    status = opened;
    oco_group = some parent.order.order_id;
  };
  listing = parent.listing;
  bracket_stop = none;
  bracket_target = none;
  parent_order_id = some parent.order.order_id;
  closed_at = none;
}

abbrev pub add_leg : List OrderRow → OrderRow → OrderType → Option Decimal → ℕ → List OrderRow
add_leg rows parent kind none moment = rows
add_leg rows parent kind (some trig) moment =
    bracket_leg parent kind trig (next_order_id rows) moment ∷ rows

unfoldable pub create_bracket : Db → OrderRow → ℕ → Db
create_bracket db parent moment =
    let with_stop = add_leg db.orders parent stop_loss parent.bracket_stop moment in
    record db { orders = add_leg with_stop parent target parent.bracket_target moment }

-- `side.value` as the kind of a ledger row
abbrev pub cash_kind : Side → CashKind
cash_kind buy = buy_cash
cash_kind sell = sell_cash

-- `-gross if side is Side.BUY else gross`
abbrev pub signed : Side → ℤ → ℤ
signed buy gross = pos 0 -ℤ gross
signed sell gross = gross

-- `realised` of a sale
abbrev pub realised_of : Side → Position → Position → Option Decimal
realised_of buy old new = none
realised_of sell old new = some (new.realised_pnl -d old.realised_pnl)

abbrev pub bracket_of : Side → Db → OrderRow → ℕ → Db
bracket_of buy db row moment = create_bracket db row moment
bracket_of sell db row moment = db

-- The inserted row of `trades`.
abbrev pub trade_of : Db → OrderRow → Quote → Position → ℕ → TradeRow
trade_of db row q new_pos moment = record {
  trade_id = next_trade_id db.trades;
  order_id = row.order.order_id;
  listing = row.listing;
  side = row.order.side;
  qty = row.order.qty;
  price = q.price;
  gross = q.gross;
  charges = q.charges;
  dp = q.dp;
  realised_pnl = realised_of row.order.side (get_position db row.listing) new_pos;
  filled_at = moment;
}

-- The rows that a fill writes, up to the order's status.
unfoldable pub write_fill : Db → OrderRow → Quote → Position → ℕ → Db
unfolding get_position add_cash save_position
write_fill db row q new_pos moment =
    let tid = next_trade_id db.trades in
    let pid = row.listing.portfolio_id in
    let side = row.order.side in
    let trade = trade_of db row q new_pos moment in
    let db1 = record db { trades = trade ∷ db.trades } in
    let db2 = save_position db1 row.listing new_pos in
    let db3 = add_cash db2 pid (cash_kind side) (signed side q.gross) (some tid) in
    add_cash db3 pid charges_cash (pos 0 -ℤ q.charges) (some tid)

-- The rest of the transaction.
unfoldable pub book_fill :
    Db → OrderRow → Quote → Position → ℕ → ℕ → Result FillError (Option ℕ × Db)
unfolding write_fill
book_fill db row q new_pos moment now = do
  let written = write_fill db row q new_pos moment
  closed ← recast book_error (set_status written row.order.order_id filled (some now))
  done ← recast book_error (cancel_oco_siblings closed row now)
  ok (some (next_trade_id db.trades), bracket_of row.order.side done row moment)

-- `_reject`, and `return None`
unfoldable pub reject : Db → OrderRow → ℕ → Result FillError (Option ℕ × Db)
reject db row now = do
  db' ← recast book_error (set_status db row.order.order_id rejected (some now))
  ok (none, db')

abbrev sell_fill :
    Result PositionError Position → Db → OrderRow → Quote → ℕ → ℕ → Result FillError (Option ℕ × Db)
sell_fill (ok new_pos) db row q moment now = book_fill db row q new_pos moment now
sell_fill (err e) db row q moment now = reject db row now

unfoldable pub settle : Side → Db → OrderRow → Quote → ℕ → ℕ → Result FillError (Option ℕ × Db)
unfolding book_fill reject
settle buy db row q moment now =
    if ltb_ℤ (cash_balance db row.listing.portfolio_id) (q.gross +ℤ q.charges)
    then reject db row now
    else (do
      new_pos ←
          recast position_error
            (apply_buy (get_position db row.listing) row.order.qty (of_money q.price))
      book_fill db row q new_pos moment now)
settle sell db row q moment now =
    sell_fill (apply_sell (get_position db row.listing) row.order.qty (of_money q.price)) db row q
      moment now

-- The id of the trade, or `none` where the order was rejected.
unfoldable pub apply_fill :
    Db → PlayCtx → OrderRow → Decimal → ℕ → Option Decimal → ℕ → Result FillError (Option ℕ × Db)
unfolding quote_fill settle
apply_fill db ctx row raw_price moment adv_turnover now = do
  q ← quote_fill db ctx row raw_price moment adv_turnover
  settle row.order.side db row q moment now
