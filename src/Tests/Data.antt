-- ===== src/Tests/Data.antt =====
-- The concrete tables, orders, candles and rates that the examples run on.
use stock_analyser.Prelude.{
  ℕ, Bool, true, false, Option, none, some, List, [], ◌∷◌, ℤ, pos, Result, ok, err, arith, ◌≤◌, ◌≡◌,
  refl,
}
use stock_analyser.Decimal.{Decimal, of_nat, zero_d, one_d}
use stock_analyser.Costs.{
  Side, buy, sell, Product, delivery, BrokerageRule, flat_per_order, ProductRates, CostRates,
  ChargeName, brokerage_name, CostBreakdown, compute_costs,
}
use stock_analyser.Slippage.{SlippageTier}
use stock_analyser.Positions.{Position, apply_sell}
use stock_analyser.Orders.{
  Order, OrderType, OrderStatus, market, limit, stop_loss, target, opened, pending_eod, Candle,
  Fill, stop_touch,
}
use stock_analyser.Playground.Store.{
  Listing, Db, OrderRow, TradeRow, PositionRow, CashEntry, Portfolio, deposit,
}
use stock_analyser.Playground.Ledger.Audit.{IsAudited}
use stock_analyser.Playground.Book.{OrderRequest, place_order, set_status}
use stock_analyser.Playground.Fill.{PlayCtx, Quote, quote_fill, apply_fill}
use stock_analyser.Playground.Passes.{PassResult, no_fills}
use stock_analyser.Playground.Passes.Sessions.{IntradayCandle, DayBar, intraday_pass, eod_pass}
use stock_analyser.Playground.Actions.Once.{Application, apply_in_turn}
use stock_analyser.Playground.Actions.{
  CorpAction, bonus, cash_dividend, CaState, nothing_applied, apply_to_holder,
}
use stock_analyser.Costs.Tariff.{IsTariff, IsSchedule}
use stock_analyser.Costs.Bounds.{free}
use stock_analyser.Fills.{BarPrices}
use stock_analyser.Gate.{WindowSummary, GateThresholds, won, no_trades}
use stock_analyser.Requests.{AiRequest, new_request, finish, done}
use stock_analyser.Requests.Single.{count_open}

abbrev pub a_hundred : Decimal
a_hundred = of_nat 100

abbrev pub two_hundred : Decimal
two_hundred = of_nat 200

abbrev pub some_rates : ProductRates
some_rates = record {
  brokerage = record { model = flat_per_order; pct = zero_d; flat = of_nat 20 };
  stt_buy = record { up = 1; down = 0; den_pred = 999 };
  stt_sell = record { up = 1; down = 0; den_pred = 999 };
  stamp_buy = record { up = 15; down = 0; den_pred = 99999 };
  stamp_sell = zero_d;
}

abbrev pub taxes_brokerage : ChargeName → Bool
taxes_brokerage brokerage_name = true
taxes_brokerage _ = false

abbrev pub rates : CostRates
rates = record {
  gst_rate = record { up = 18; down = 0; den_pred = 99 };
  gst_applies_to = taxes_brokerage;
  delivery_rates = some_rates;
  intraday_rates = some_rates;
  exchange_txn_rate = zero_d;
  ipft_per_crore = of_nat 10;
  sebi_rate = zero_d;
  dp_charge_inr = of_nat 13;
  dp_gst_applicable = true;
}

abbrev pub tier : SlippageTier
tier = record { min_adv_turnover_inr = zero_d; bps = of_nat 10 }

abbrev pub small_tier : SlippageTier
small_tier = record { min_adv_turnover_inr = of_nat 1000; bps = of_nat 5 }

abbrev pub ctx : PlayCtx
ctx = record {
  tiers = tier ∷ [];
  product = delivery;
  rates_for = λ exchange day. rates;
  circuit_band_pcts = of_nat 5 ∷ of_nat 10 ∷ [];
  circuit_tolerance_pct = record { up = 35; down = 0; den_pred = 99 };
}

abbrev pub place : Listing
place = record { portfolio_id = 1; exchange = 1; symbol = 7 }

abbrev pub elsewhere : Listing
elsewhere = record { portfolio_id = 1; exchange = 1; symbol = 8 }

abbrev pub buy_order : Order
buy_order = record {
  order_id = 1;
  side = buy;
  order_type = market;
  qty = 2;
  created_at = 33300;
  limit_price = none;
  trigger_price = none;
  status = opened;
  oco_group = none;
}

abbrev pub stop_order : Order
stop_order = record {
  order_id = 2;
  side = sell;
  order_type = stop_loss;
  qty = 4;
  created_at = 100;
  limit_price = none;
  trigger_price = some a_hundred;
  status = opened;
  oco_group = some 9;
}

abbrev pub target_order : Order
target_order = record {
  order_id = 3;
  side = sell;
  order_type = target;
  qty = 4;
  created_at = 100;
  limit_price = none;
  trigger_price = some two_hundred;
  status = opened;
  oco_group = some 9;
}

abbrev pub row_of : Order → OrderRow
row_of o = record {
  order = o;
  listing = place;
  bracket_stop = none;
  bracket_target = none;
  parent_order_id = none;
  closed_at = none;
}

abbrev pub bracketed : OrderRow
bracketed = record {
  order = buy_order;
  listing = place;
  bracket_stop = some (of_nat 90);
  bracket_target = some (of_nat 120);
  parent_order_id = none;
  closed_at = none;
}

abbrev pub stop_row : OrderRow
stop_row = row_of stop_order

abbrev pub target_row : OrderRow
target_row = row_of target_order

abbrev pub held : Position
held = record { qty = 4; avg_cost = of_nat 110; realised_pnl = zero_d }

abbrev pub ten_thousand : CashEntry
ten_thousand = record {
  portfolio_id = 1;
  kind = deposit;
  amount = pos 1_000_000;
  balance_after = pos 1_000_000;
  ref_trade_id = none;
}

abbrev pub one_rupee : CashEntry
one_rupee = record {
  portfolio_id = 1;
  kind = deposit;
  amount = pos 100;
  balance_after = pos 100;
  ref_trade_id = none;
}

abbrev pub portfolio : Portfolio
portfolio = record { portfolio_id = 1; name = 5; start_capital = pos 1_000_000; archived = false }

abbrev pub db : Db
db = record {
  portfolios = portfolio ∷ [];
  orders = target_row ∷ stop_row ∷ bracketed ∷ [];
  trades = [];
  positions = record { listing = place; position = held } ∷ [];
  cash_ledger = ten_thousand ∷ [];
}

abbrev pub poor_db : Db
poor_db = record {
  portfolios = portfolio ∷ [];
  orders = target_row ∷ stop_row ∷ bracketed ∷ [];
  trades = [];
  positions = record { listing = place; position = held } ∷ [];
  cash_ledger = one_rupee ∷ [];
}

abbrev pub candle : Candle
candle = record {
  start = 33600;
  opening = of_nat 105;
  high = of_nat 210;
  low = of_nat 95;
  closing = of_nat 150;
  volume = 1000;
  finish = some 33900;
}

abbrev pub feed : IntradayCandle
feed = record {
  start = 33600;
  opening = of_nat 105;
  high = of_nat 210;
  low = of_nat 95;
  closing = of_nat 150;
  volume = 1000;
}

abbrev pub feeds : List (ℕ × List IntradayCandle)
feeds = (7, feed ∷ []) ∷ []

abbrev pub bar : DayBar
bar = record {
  opening = of_nat 105;
  high = of_nat 210;
  low = of_nat 95;
  closing = of_nat 150;
  prev_close = some (of_nat 104);
}

abbrev pub bars : ℕ → Option DayBar
bars symbol = some bar

abbrev pub turnover : ℕ → Option Decimal
turnover symbol = none

abbrev pub request : OrderRequest
request = record {
  portfolio_id = 1;
  symbol = 7;
  side = sell;
  order_type = stop_loss;
  qty = pos 3;
  limit_price = none;
  trigger_price = some (of_nat 90);
  bracket_stop = none;
  bracket_target = none;
}

abbrev pub one_for_one : CorpAction
one_for_one = record {
  key = 11;
  symbol = 7;
  action_type = bonus;
  price_factor = some (record { up = 1; down = 0; den_pred = 1 });
  volume_factor = of_nat 2;
  dividend_per_share = none;
}

abbrev pub before_bonus : CaState
before_bonus = record { db = db; events = []; result = nothing_applied }

abbrev pub db_of : {E : Type 0} → Result E (Option ℕ × Db) → Db
db_of (ok r) = r.1
db_of (err e) = poor_db

abbrev pub passed : {E A : Type 0} → Result E (A × Db) → Db
passed (ok r) = r.1
passed (err e) = poor_db

-- The tables behind a purchase of two shares around 105 rupees, and behind one that is refused.
unfoldable pub filled_db : Db
unfolding apply_fill
filled_db = db_of (apply_fill db ctx bracketed (of_nat 105) 33900 none 50)

unfoldable pub refused_db : Db
unfolding apply_fill
refused_db = db_of (apply_fill poor_db ctx bracketed (of_nat 105) 33900 none 50)

abbrev pub counted : {E : Type 0} → Result E (PassResult × Db) → PassResult
counted (ok r) = r.0
counted (err e) = no_fills

unfoldable pub day_result : PassResult
unfolding eod_pass
day_result = counted (eod_pass db ctx 0 bars turnover 60000)

unfoldable pub feed_result : PassResult
unfolding intraday_pass
feed_result = counted (intraday_pass db ctx feeds 5 turnover turnover 34000)

unfoldable pub after_day : Db
unfolding eod_pass
after_day = passed (eod_pass db ctx 0 bars turnover 60000)

unfoldable pub after_feed : Db
unfolding intraday_pass
after_feed = passed (intraday_pass db ctx feeds 5 turnover turnover 34000)

abbrev pub stop_fill : Fill
stop_fill = record { price = a_hundred; reason = stop_touch }

abbrev pub pair : List Order
pair = target_order ∷ stop_order ∷ []

abbrev pub stop_hit : Order × Fill
stop_hit = (stop_order, stop_fill)

unfoldable pub placed_db : Db
unfolding place_order
placed_db = passed (place_order db (7 ∷ []) request 70)

abbrev pub the_db : {E : Type 0} → Result E Db → Db
the_db (ok d) = d
the_db (err e) = poor_db

unfoldable pub parked : Db
unfolding set_status
parked = the_db (set_status db 2 pending_eod none)

abbrev pub the_state : {E : Type 0} → Result E CaState → CaState
the_state (ok s) = s
the_state (err e) = before_bonus

unfoldable pub after_bonus : CaState
unfolding apply_to_holder
after_bonus = the_state (apply_to_holder before_bonus one_for_one 1 0 10)

abbrev pub a_dividend : CorpAction
a_dividend = record {
  key = 12;
  symbol = 7;
  action_type = cash_dividend;
  price_factor = none;
  volume_factor = of_nat 1;
  dividend_per_share = some (of_nat 1);
}

-- A dividend to the same holder, after its bonus shares.
abbrev pub paid_later : List Application
paid_later = record { action = a_dividend; holder = 1; day = 0; now = 15 } ∷ []

unfoldable pub after_both : CaState
unfolding apply_in_turn
after_both = the_state (apply_in_turn paid_later after_bonus)

abbrev pub waiting_request : AiRequest
waiting_request = new_request 1 1 3 true 2 5

abbrev pub waiting : List AiRequest
waiting = waiting_request ∷ []

abbrev pub the_rows : {E : Type 0} → Result E (List AiRequest) → List AiRequest
the_rows (ok rows) = rows
the_rows (err e) = []

unfoldable pub finished : List AiRequest
unfolding finish
finished = the_rows (finish waiting 1 done 9 none none)

abbrev pub the_breakdown : {E : Type 0} → Result E CostBreakdown → CostBreakdown
the_breakdown (ok b) = b
the_breakdown (err e) = free

unfoldable pub cheap : CostBreakdown
unfolding compute_costs
cheap = the_breakdown (compute_costs buy delivery a_hundred rates)

unfoldable pub dear : CostBreakdown
unfolding compute_costs
dear = the_breakdown (compute_costs buy delivery two_hundred rates)

abbrev pub the_position : {E : Type 0} → Result E Position → Position
the_position (ok p) = p
the_position (err e) = held

unfoldable pub less_held : Position
unfolding apply_sell
less_held = the_position (apply_sell held 3 a_hundred)

abbrev pub frozen : BarPrices
frozen = record { opening = of_nat 105; high = of_nat 105; low = of_nat 105; closing = of_nat 105 }

abbrev pub windows : List WindowSummary
windows =
    record { outcome = won; max_drawdown = zero_d; trade_count = 30 }
    ∷ record { outcome = no_trades; max_drawdown = zero_d; trade_count = 0 }
    ∷ []

abbrev pub thresholds : GateThresholds
thresholds = record {
  min_scored_windows = 1;
  min_pass_ratio = one_d;
  max_drawdown = zero_d;
  min_total_trades = 20;
}

tariff : IsTariff some_rates
tariff = record {
  brokerage = record { pct = ground arith; flat = ground arith };
  stt_buy = ground arith;
  stt_sell = ground arith;
  stamp_buy = ground arith;
  stamp_sell = ground arith;
}

pub schedule : IsSchedule rates
schedule = record {
  gst_rate = ground arith;
  delivery_rates = tariff;
  intraday_rates = tariff;
  exchange_txn_rate = ground arith;
  ipft_per_crore = ground arith;
  sebi_rate = ground arith;
}

pub waiting_once : (kind date : ℕ) → count_open waiting kind date ≤ 1
unfolding count_open
waiting_once kind date = ground arith

-- What the runs above come to.
pub filled-run : apply_fill db ctx bracketed (of_nat 105) 33900 none 50 ≡ ok (some 1, filled_db)
unfolding filled_db stock_analyser.Prelude.Int.◌+ℤ◌ stock_analyser.Prelude.Int.◌-ℤ◌
    stock_analyser.Prelude.Int.◌*ℤ◌ stock_analyser.Decimal.◌+d◌ stock_analyser.Decimal.◌-d◌
    stock_analyser.Decimal.◌*d◌ stock_analyser.Decimal.div_nat stock_analyser.Decimal.div
    stock_analyser.Decimal.led stock_analyser.Decimal.ltd stock_analyser.Decimal.eqd
    stock_analyser.Decimal.min_d stock_analyser.Decimal.max_d stock_analyser.Decimal.abs_d
    stock_analyser.Decimal.floor_nat stock_analyser.Money.round_half_up
    stock_analyser.Money.to_money stock_analyser.Costs.charge stock_analyser.Costs.for_product
    stock_analyser.Costs.total stock_analyser.Costs.gst_base stock_analyser.Costs.before_tax
    stock_analyser.Costs.with_tax stock_analyser.Costs.compute_costs stock_analyser.Costs.dp_charge
    stock_analyser.Slippage.slippage_bps stock_analyser.Slippage.apply_slippage
    stock_analyser.Slippage.cap_quantity stock_analyser.Positions.cost_basis
    stock_analyser.Positions.unrealised stock_analyser.Positions.apply_buy
    stock_analyser.Positions.apply_sell stock_analyser.Positions.split_to
    stock_analyser.Positions.apply_split_or_bonus stock_analyser.Positions.dividend_cash
    stock_analyser.Orders.allowed stock_analyser.Orders.transition stock_analyser.Orders.with_status
    stock_analyser.Orders.validate_type stock_analyser.Orders.validate_order
    stock_analyser.Orders.created_during stock_analyser.Orders.is_active
    stock_analyser.Orders.side_can_trade stock_analyser.Orders.blocked
    stock_analyser.Orders.limit_fill stock_analyser.Orders.trigger_fill
    stock_analyser.Orders.fill_by_type stock_analyser.Orders.try_fill
    stock_analyser.Orders.market_order_expired stock_analyser.Orders.collect_hits
    stock_analyser.Orders.resolve_oco stock_analyser.Fills.is_frozen stock_analyser.Fills.band_lock
    stock_analyser.Fills.move_pct stock_analyser.Fills.circuit_lock stock_analyser.Fills.can_buy
    stock_analyser.Fills.can_sell stock_analyser.Playground.Store.same_listing
    stock_analyser.Playground.Store.day_of stock_analyser.Playground.Store.next_order_id
    stock_analyser.Playground.Store.next_trade_id stock_analyser.Playground.Store.next_portfolio_id
    stock_analyser.Playground.Ledger.cash_of stock_analyser.Playground.Ledger.cash_balance
    stock_analyser.Playground.Ledger.add_cash stock_analyser.Playground.Ledger.create_portfolio
    stock_analyser.Playground.Ledger.position_of stock_analyser.Playground.Ledger.get_position
    stock_analyser.Playground.Ledger.upsert_position stock_analyser.Playground.Ledger.save_position
    stock_analyser.Playground.Ledger.replay_back stock_analyser.Playground.Ledger.held_at_start_of
    stock_analyser.Playground.Book.check_request stock_analyser.Playground.Book.place_order
    stock_analyser.Playground.Book.find_order stock_analyser.Playground.Book.update_order
    stock_analyser.Playground.Book.set_status stock_analyser.Playground.Book.cancel_order
    stock_analyser.Playground.Fill.dp_already_charged stock_analyser.Playground.Fill.dp_of
    stock_analyser.Playground.Fill.quote_fill stock_analyser.Playground.Fill.sibling_ids
    stock_analyser.Playground.Fill.cancel_all stock_analyser.Playground.Fill.cancel_oco_siblings
    stock_analyser.Playground.Fill.create_bracket stock_analyser.Playground.Fill.write_fill
    stock_analyser.Playground.Fill.book_fill stock_analyser.Playground.Fill.reject
    stock_analyser.Playground.Fill.settle stock_analyser.Playground.Fill.apply_fill
filled-run = refl

pub refused-run :
    apply_fill poor_db ctx bracketed (of_nat 105) 33900 none 50 ≡ ok (none, refused_db)
unfolding refused_db stock_analyser.Prelude.Int.◌+ℤ◌ stock_analyser.Prelude.Int.◌-ℤ◌
    stock_analyser.Prelude.Int.◌*ℤ◌ stock_analyser.Decimal.◌+d◌ stock_analyser.Decimal.◌-d◌
    stock_analyser.Decimal.◌*d◌ stock_analyser.Decimal.div_nat stock_analyser.Decimal.div
    stock_analyser.Decimal.led stock_analyser.Decimal.ltd stock_analyser.Decimal.eqd
    stock_analyser.Decimal.min_d stock_analyser.Decimal.max_d stock_analyser.Decimal.abs_d
    stock_analyser.Decimal.floor_nat stock_analyser.Money.round_half_up
    stock_analyser.Money.to_money stock_analyser.Costs.charge stock_analyser.Costs.for_product
    stock_analyser.Costs.total stock_analyser.Costs.gst_base stock_analyser.Costs.before_tax
    stock_analyser.Costs.with_tax stock_analyser.Costs.compute_costs stock_analyser.Costs.dp_charge
    stock_analyser.Slippage.slippage_bps stock_analyser.Slippage.apply_slippage
    stock_analyser.Slippage.cap_quantity stock_analyser.Positions.cost_basis
    stock_analyser.Positions.unrealised stock_analyser.Positions.apply_buy
    stock_analyser.Positions.apply_sell stock_analyser.Positions.split_to
    stock_analyser.Positions.apply_split_or_bonus stock_analyser.Positions.dividend_cash
    stock_analyser.Orders.allowed stock_analyser.Orders.transition stock_analyser.Orders.with_status
    stock_analyser.Orders.validate_type stock_analyser.Orders.validate_order
    stock_analyser.Orders.created_during stock_analyser.Orders.is_active
    stock_analyser.Orders.side_can_trade stock_analyser.Orders.blocked
    stock_analyser.Orders.limit_fill stock_analyser.Orders.trigger_fill
    stock_analyser.Orders.fill_by_type stock_analyser.Orders.try_fill
    stock_analyser.Orders.market_order_expired stock_analyser.Orders.collect_hits
    stock_analyser.Orders.resolve_oco stock_analyser.Fills.is_frozen stock_analyser.Fills.band_lock
    stock_analyser.Fills.move_pct stock_analyser.Fills.circuit_lock stock_analyser.Fills.can_buy
    stock_analyser.Fills.can_sell stock_analyser.Playground.Store.same_listing
    stock_analyser.Playground.Store.day_of stock_analyser.Playground.Store.next_order_id
    stock_analyser.Playground.Store.next_trade_id stock_analyser.Playground.Store.next_portfolio_id
    stock_analyser.Playground.Ledger.cash_of stock_analyser.Playground.Ledger.cash_balance
    stock_analyser.Playground.Ledger.add_cash stock_analyser.Playground.Ledger.create_portfolio
    stock_analyser.Playground.Ledger.position_of stock_analyser.Playground.Ledger.get_position
    stock_analyser.Playground.Ledger.upsert_position stock_analyser.Playground.Ledger.save_position
    stock_analyser.Playground.Ledger.replay_back stock_analyser.Playground.Ledger.held_at_start_of
    stock_analyser.Playground.Book.check_request stock_analyser.Playground.Book.place_order
    stock_analyser.Playground.Book.find_order stock_analyser.Playground.Book.update_order
    stock_analyser.Playground.Book.set_status stock_analyser.Playground.Book.cancel_order
    stock_analyser.Playground.Fill.dp_already_charged stock_analyser.Playground.Fill.dp_of
    stock_analyser.Playground.Fill.quote_fill stock_analyser.Playground.Fill.sibling_ids
    stock_analyser.Playground.Fill.cancel_all stock_analyser.Playground.Fill.cancel_oco_siblings
    stock_analyser.Playground.Fill.create_bracket stock_analyser.Playground.Fill.write_fill
    stock_analyser.Playground.Fill.book_fill stock_analyser.Playground.Fill.reject
    stock_analyser.Playground.Fill.settle stock_analyser.Playground.Fill.apply_fill
refused-run = refl

abbrev pub no_quote : Quote
no_quote = record { price = pos 0; gross = pos 0; dp = pos 0; charges = pos 0 }

abbrev pub the_quote : {E : Type 0} → Result E Quote → Quote
the_quote (ok q) = q
the_quote (err e) = no_quote

unfoldable pub quote : Quote
unfolding quote_fill
quote = the_quote (quote_fill db ctx bracketed (of_nat 105) 33900 none)

pub quote-run : quote_fill db ctx bracketed (of_nat 105) 33900 none ≡ ok quote
unfolding quote stock_analyser.Prelude.Int.◌+ℤ◌ stock_analyser.Prelude.Int.◌-ℤ◌
    stock_analyser.Prelude.Int.◌*ℤ◌ stock_analyser.Decimal.◌+d◌ stock_analyser.Decimal.◌-d◌
    stock_analyser.Decimal.◌*d◌ stock_analyser.Decimal.div_nat stock_analyser.Decimal.div
    stock_analyser.Decimal.led stock_analyser.Decimal.ltd stock_analyser.Decimal.eqd
    stock_analyser.Decimal.min_d stock_analyser.Decimal.max_d stock_analyser.Decimal.abs_d
    stock_analyser.Decimal.floor_nat stock_analyser.Money.round_half_up
    stock_analyser.Money.to_money stock_analyser.Costs.charge stock_analyser.Costs.for_product
    stock_analyser.Costs.total stock_analyser.Costs.gst_base stock_analyser.Costs.before_tax
    stock_analyser.Costs.with_tax stock_analyser.Costs.compute_costs stock_analyser.Costs.dp_charge
    stock_analyser.Slippage.slippage_bps stock_analyser.Slippage.apply_slippage
    stock_analyser.Slippage.cap_quantity stock_analyser.Positions.cost_basis
    stock_analyser.Positions.unrealised stock_analyser.Positions.apply_buy
    stock_analyser.Positions.apply_sell stock_analyser.Positions.split_to
    stock_analyser.Positions.apply_split_or_bonus stock_analyser.Positions.dividend_cash
    stock_analyser.Orders.allowed stock_analyser.Orders.transition stock_analyser.Orders.with_status
    stock_analyser.Orders.validate_type stock_analyser.Orders.validate_order
    stock_analyser.Orders.created_during stock_analyser.Orders.is_active
    stock_analyser.Orders.side_can_trade stock_analyser.Orders.blocked
    stock_analyser.Orders.limit_fill stock_analyser.Orders.trigger_fill
    stock_analyser.Orders.fill_by_type stock_analyser.Orders.try_fill
    stock_analyser.Orders.market_order_expired stock_analyser.Orders.collect_hits
    stock_analyser.Orders.resolve_oco stock_analyser.Fills.is_frozen stock_analyser.Fills.band_lock
    stock_analyser.Fills.move_pct stock_analyser.Fills.circuit_lock stock_analyser.Fills.can_buy
    stock_analyser.Fills.can_sell stock_analyser.Playground.Store.same_listing
    stock_analyser.Playground.Store.day_of stock_analyser.Playground.Store.next_order_id
    stock_analyser.Playground.Store.next_trade_id stock_analyser.Playground.Store.next_portfolio_id
    stock_analyser.Playground.Ledger.cash_of stock_analyser.Playground.Ledger.cash_balance
    stock_analyser.Playground.Ledger.add_cash stock_analyser.Playground.Ledger.create_portfolio
    stock_analyser.Playground.Ledger.position_of stock_analyser.Playground.Ledger.get_position
    stock_analyser.Playground.Ledger.upsert_position stock_analyser.Playground.Ledger.save_position
    stock_analyser.Playground.Ledger.replay_back stock_analyser.Playground.Ledger.held_at_start_of
    stock_analyser.Playground.Book.check_request stock_analyser.Playground.Book.place_order
    stock_analyser.Playground.Book.find_order stock_analyser.Playground.Book.update_order
    stock_analyser.Playground.Book.set_status stock_analyser.Playground.Book.cancel_order
    stock_analyser.Playground.Fill.dp_already_charged stock_analyser.Playground.Fill.dp_of
    stock_analyser.Playground.Fill.quote_fill stock_analyser.Playground.Fill.sibling_ids
    stock_analyser.Playground.Fill.cancel_all stock_analyser.Playground.Fill.cancel_oco_siblings
    stock_analyser.Playground.Fill.create_bracket stock_analyser.Playground.Fill.write_fill
    stock_analyser.Playground.Fill.book_fill stock_analyser.Playground.Fill.reject
    stock_analyser.Playground.Fill.settle stock_analyser.Playground.Fill.apply_fill
quote-run = refl

pub day-run : eod_pass db ctx 0 bars turnover 60000 ≡ ok (day_result, after_day)
unfolding day_result after_day stock_analyser.Prelude.Int.◌+ℤ◌ stock_analyser.Prelude.Int.◌-ℤ◌
    stock_analyser.Prelude.Int.◌*ℤ◌ stock_analyser.Decimal.◌+d◌ stock_analyser.Decimal.◌-d◌
    stock_analyser.Decimal.◌*d◌ stock_analyser.Decimal.div_nat stock_analyser.Decimal.div
    stock_analyser.Decimal.led stock_analyser.Decimal.ltd stock_analyser.Decimal.eqd
    stock_analyser.Decimal.min_d stock_analyser.Decimal.max_d stock_analyser.Decimal.abs_d
    stock_analyser.Decimal.floor_nat stock_analyser.Money.round_half_up
    stock_analyser.Money.to_money stock_analyser.Costs.charge stock_analyser.Costs.for_product
    stock_analyser.Costs.total stock_analyser.Costs.gst_base stock_analyser.Costs.before_tax
    stock_analyser.Costs.with_tax stock_analyser.Costs.compute_costs stock_analyser.Costs.dp_charge
    stock_analyser.Slippage.slippage_bps stock_analyser.Slippage.apply_slippage
    stock_analyser.Slippage.cap_quantity stock_analyser.Positions.cost_basis
    stock_analyser.Positions.unrealised stock_analyser.Positions.apply_buy
    stock_analyser.Positions.apply_sell stock_analyser.Positions.split_to
    stock_analyser.Positions.apply_split_or_bonus stock_analyser.Positions.dividend_cash
    stock_analyser.Orders.allowed stock_analyser.Orders.transition stock_analyser.Orders.with_status
    stock_analyser.Orders.validate_type stock_analyser.Orders.validate_order
    stock_analyser.Orders.created_during stock_analyser.Orders.is_active
    stock_analyser.Orders.side_can_trade stock_analyser.Orders.blocked
    stock_analyser.Orders.limit_fill stock_analyser.Orders.trigger_fill
    stock_analyser.Orders.fill_by_type stock_analyser.Orders.try_fill
    stock_analyser.Orders.market_order_expired stock_analyser.Orders.collect_hits
    stock_analyser.Orders.resolve_oco stock_analyser.Fills.is_frozen stock_analyser.Fills.band_lock
    stock_analyser.Fills.move_pct stock_analyser.Fills.circuit_lock stock_analyser.Fills.can_buy
    stock_analyser.Fills.can_sell stock_analyser.Playground.Store.same_listing
    stock_analyser.Playground.Store.day_of stock_analyser.Playground.Store.next_order_id
    stock_analyser.Playground.Store.next_trade_id stock_analyser.Playground.Store.next_portfolio_id
    stock_analyser.Playground.Ledger.cash_of stock_analyser.Playground.Ledger.cash_balance
    stock_analyser.Playground.Ledger.add_cash stock_analyser.Playground.Ledger.create_portfolio
    stock_analyser.Playground.Ledger.position_of stock_analyser.Playground.Ledger.get_position
    stock_analyser.Playground.Ledger.upsert_position stock_analyser.Playground.Ledger.save_position
    stock_analyser.Playground.Ledger.replay_back stock_analyser.Playground.Ledger.held_at_start_of
    stock_analyser.Playground.Book.check_request stock_analyser.Playground.Book.place_order
    stock_analyser.Playground.Book.find_order stock_analyser.Playground.Book.update_order
    stock_analyser.Playground.Book.set_status stock_analyser.Playground.Book.cancel_order
    stock_analyser.Playground.Fill.dp_already_charged stock_analyser.Playground.Fill.dp_of
    stock_analyser.Playground.Fill.quote_fill stock_analyser.Playground.Fill.sibling_ids
    stock_analyser.Playground.Fill.cancel_all stock_analyser.Playground.Fill.cancel_oco_siblings
    stock_analyser.Playground.Fill.create_bracket stock_analyser.Playground.Fill.write_fill
    stock_analyser.Playground.Fill.book_fill stock_analyser.Playground.Fill.reject
    stock_analyser.Playground.Fill.settle stock_analyser.Playground.Fill.apply_fill
    stock_analyser.Playground.Passes.select_active stock_analyser.Playground.Passes.active_orders
    stock_analyser.Playground.Passes.lock_of stock_analyser.Playground.Passes.choose
    stock_analyser.Playground.Passes.fill_chosen stock_analyser.Playground.Passes.serve_row
    stock_analyser.Playground.Passes.evaluate_rows stock_analyser.Playground.Passes.evaluate
    stock_analyser.Playground.Passes.Parking.move_row
    stock_analyser.Playground.Passes.Parking.move_rows
    stock_analyser.Playground.Passes.Parking.mark_pending_eod
    stock_analyser.Playground.Passes.Parking.restore_open
    stock_analyser.Playground.Passes.Parking.expire_market_orders
    stock_analyser.Playground.Passes.Sessions.run_candles
    stock_analyser.Playground.Passes.Sessions.run_symbols
    stock_analyser.Playground.Passes.Sessions.intraday_pass
    stock_analyser.Playground.Passes.Sessions.run_bars
    stock_analyser.Playground.Passes.Sessions.eod_pass
day-run = refl

pub feed-run : intraday_pass db ctx feeds 5 turnover turnover 34000 ≡ ok (feed_result, after_feed)
unfolding feed_result after_feed stock_analyser.Prelude.Int.◌+ℤ◌ stock_analyser.Prelude.Int.◌-ℤ◌
    stock_analyser.Prelude.Int.◌*ℤ◌ stock_analyser.Decimal.◌+d◌ stock_analyser.Decimal.◌-d◌
    stock_analyser.Decimal.◌*d◌ stock_analyser.Decimal.div_nat stock_analyser.Decimal.div
    stock_analyser.Decimal.led stock_analyser.Decimal.ltd stock_analyser.Decimal.eqd
    stock_analyser.Decimal.min_d stock_analyser.Decimal.max_d stock_analyser.Decimal.abs_d
    stock_analyser.Decimal.floor_nat stock_analyser.Money.round_half_up
    stock_analyser.Money.to_money stock_analyser.Costs.charge stock_analyser.Costs.for_product
    stock_analyser.Costs.total stock_analyser.Costs.gst_base stock_analyser.Costs.before_tax
    stock_analyser.Costs.with_tax stock_analyser.Costs.compute_costs stock_analyser.Costs.dp_charge
    stock_analyser.Slippage.slippage_bps stock_analyser.Slippage.apply_slippage
    stock_analyser.Slippage.cap_quantity stock_analyser.Positions.cost_basis
    stock_analyser.Positions.unrealised stock_analyser.Positions.apply_buy
    stock_analyser.Positions.apply_sell stock_analyser.Positions.split_to
    stock_analyser.Positions.apply_split_or_bonus stock_analyser.Positions.dividend_cash
    stock_analyser.Orders.allowed stock_analyser.Orders.transition stock_analyser.Orders.with_status
    stock_analyser.Orders.validate_type stock_analyser.Orders.validate_order
    stock_analyser.Orders.created_during stock_analyser.Orders.is_active
    stock_analyser.Orders.side_can_trade stock_analyser.Orders.blocked
    stock_analyser.Orders.limit_fill stock_analyser.Orders.trigger_fill
    stock_analyser.Orders.fill_by_type stock_analyser.Orders.try_fill
    stock_analyser.Orders.market_order_expired stock_analyser.Orders.collect_hits
    stock_analyser.Orders.resolve_oco stock_analyser.Fills.is_frozen stock_analyser.Fills.band_lock
    stock_analyser.Fills.move_pct stock_analyser.Fills.circuit_lock stock_analyser.Fills.can_buy
    stock_analyser.Fills.can_sell stock_analyser.Playground.Store.same_listing
    stock_analyser.Playground.Store.day_of stock_analyser.Playground.Store.next_order_id
    stock_analyser.Playground.Store.next_trade_id stock_analyser.Playground.Store.next_portfolio_id
    stock_analyser.Playground.Ledger.cash_of stock_analyser.Playground.Ledger.cash_balance
    stock_analyser.Playground.Ledger.add_cash stock_analyser.Playground.Ledger.create_portfolio
    stock_analyser.Playground.Ledger.position_of stock_analyser.Playground.Ledger.get_position
    stock_analyser.Playground.Ledger.upsert_position stock_analyser.Playground.Ledger.save_position
    stock_analyser.Playground.Ledger.replay_back stock_analyser.Playground.Ledger.held_at_start_of
    stock_analyser.Playground.Book.check_request stock_analyser.Playground.Book.place_order
    stock_analyser.Playground.Book.find_order stock_analyser.Playground.Book.update_order
    stock_analyser.Playground.Book.set_status stock_analyser.Playground.Book.cancel_order
    stock_analyser.Playground.Fill.dp_already_charged stock_analyser.Playground.Fill.dp_of
    stock_analyser.Playground.Fill.quote_fill stock_analyser.Playground.Fill.sibling_ids
    stock_analyser.Playground.Fill.cancel_all stock_analyser.Playground.Fill.cancel_oco_siblings
    stock_analyser.Playground.Fill.create_bracket stock_analyser.Playground.Fill.write_fill
    stock_analyser.Playground.Fill.book_fill stock_analyser.Playground.Fill.reject
    stock_analyser.Playground.Fill.settle stock_analyser.Playground.Fill.apply_fill
    stock_analyser.Playground.Passes.select_active stock_analyser.Playground.Passes.active_orders
    stock_analyser.Playground.Passes.lock_of stock_analyser.Playground.Passes.choose
    stock_analyser.Playground.Passes.fill_chosen stock_analyser.Playground.Passes.serve_row
    stock_analyser.Playground.Passes.evaluate_rows stock_analyser.Playground.Passes.evaluate
    stock_analyser.Playground.Passes.Parking.move_row
    stock_analyser.Playground.Passes.Parking.move_rows
    stock_analyser.Playground.Passes.Parking.mark_pending_eod
    stock_analyser.Playground.Passes.Parking.restore_open
    stock_analyser.Playground.Passes.Parking.expire_market_orders
    stock_analyser.Playground.Passes.Sessions.run_candles
    stock_analyser.Playground.Passes.Sessions.run_symbols
    stock_analyser.Playground.Passes.Sessions.intraday_pass
    stock_analyser.Playground.Passes.Sessions.run_bars
    stock_analyser.Playground.Passes.Sessions.eod_pass
feed-run = refl

pub audited : IsAudited db.cash_ledger
unfolding stock_analyser.Prelude.Int.◌+ℤ◌ stock_analyser.Playground.Ledger.cash_of
audited = (refl, tt)
