-- ===== src/Tests/Backtest.antt =====
-- Examples for the backtest engine.
use stock_analyser.Prelude.{
  ℕ, ◌+◌, ◌-◌, ◌≡◌, refl, ◌⊎◌, inl, inr, ◌≤◌, ◌<◌, Bool, true, false, ◌==◌, if◌then◌else◌, leb,
  length, Option, none, some, List, [], ◌∷◌, arith, Result, ok, err,
}
use stock_analyser.Decimal.{Decimal, of_nat, zero_d, ◌*d◌, ◌+d◌, ◌≤d◌, ◌<d◌, ◌≈d◌}
use stock_analyser.Costs.{delivery, buy}
use stock_analyser.Backtest.{Bar, Signal, Config, Run, Books, Holding, ExitReason, EngineError}
use stock_analyser.Backtest.View.{market_data, today, bars_until, history, trading_dates}
use stock_analyser.Backtest.Amounts.{leg_costs}
use stock_analyser.Backtest.Sales.{exit_trigger, at_or_below, at_or_above}
use stock_analyser.Backtest.Entries.{shrink, entries}
use stock_analyser.Backtest.Loop.{Strategy, run_days, run_backtest, new_run}
use stock_analyser.Backtest.Visible.{view_refines, until, on_date, last_of}
use stock_analyser.Backtest.View.{of_symbol}
use stock_analyser.Backtest.Lookahead.{run_days_past}
use stock_analyser.Backtest.Sizing.{shrink_largest, Outlay, IsTooDear}
use stock_analyser.Backtest.Accounting.{profit}
use stock_analyser.Backtest.Reconciled.{run_backtest_reconciles}
use stock_analyser.Backtest.Capacity.{IsBook}
use stock_analyser.Backtest.Filling.{entries_within_limits}
use stock_analyser.Backtest.Exiting.{exits_total}
use stock_analyser.Backtest.Entering.{entries_total}
use stock_analyser.Backtest.Priced.{IsConfig, IsPriced}
use stock_analyser.Prelude.{Member}
use stock_analyser.Backtest.Sales.{exits}
use stock_analyser.Backtest.Days.{run_days_within_limits}
use stock_analyser.Backtest.Triggers.{exit_trigger-IsJustified, IsBar, IsJustified, InRange}
use stock_analyser.Slippage.{SlippageTier}
use stock_analyser.Tests.Data.{rates, tier}

abbrev bar_on : ℕ → ℕ → Bar
bar_on d price = record {
  date = d;
  symbol = 7;
  opening = of_nat price;
  high = of_nat (price + 5);
  low = of_nat (price - 5);
  closing = of_nat price;
  volume = 30;
  prev_close = none;
  adv_turnover = none;
}

abbrev history_of : List Bar
history_of = bar_on 3 104 ∷ bar_on 1 100 ∷ bar_on 2 102 ∷ []

-- The same past, another future.
abbrev other_history : List Bar
other_history = bar_on 1 100 ∷ bar_on 3 55 ∷ bar_on 2 102 ∷ []

abbrev cfg : Config
cfg = record {
  initial_capital = of_nat 1000;
  product = delivery;
  tiers = tier ∷ [];
  participation_cap = record { up = 1; down = 0; den_pred = 9 };
  circuit_band_pcts = of_nat 5 ∷ [];
  circuit_tolerance_pct = zero_d;
  max_pos = 2;
  rates_for = λ d. rates;
}

abbrev a_signal : Signal
a_signal = record {
  symbol = 7;
  score = of_nat 1;
  stop_pct = some (record { up = 5; down = 0; den_pred = 99 });
  target_pct = none;
  max_hold_days = 9;
  reason = 0;
}

-- It asks for the symbol on the first day.
abbrev strategy : Strategy
strategy visible d held = if d == 1 then a_signal ∷ [] else []

abbrev the_run : Result EngineError Run → Run
the_run (ok r) = r
the_run (err e) = new_run cfg

unfoldable closed_run : Run
unfolding run_backtest
closed_run = the_run (run_backtest cfg strategy (market_data history_of) 1 3)

closed : run_backtest cfg strategy (market_data history_of) 1 3 ≡ ok closed_run
unfolding stock_analyser.Prelude.Int.◌+ℤ◌ stock_analyser.Prelude.Int.◌-ℤ◌
    stock_analyser.Prelude.Int.◌*ℤ◌ stock_analyser.Decimal.◌+d◌ stock_analyser.Decimal.◌-d◌
    stock_analyser.Decimal.◌*d◌ stock_analyser.Decimal.div_nat stock_analyser.Decimal.div
    stock_analyser.Decimal.led stock_analyser.Decimal.ltd stock_analyser.Decimal.eqd
    stock_analyser.Decimal.min_d stock_analyser.Decimal.max_d stock_analyser.Decimal.abs_d
    stock_analyser.Decimal.floor_nat stock_analyser.Decimal.quotient
    stock_analyser.Money.round_half_up stock_analyser.Money.to_money stock_analyser.Costs.charge
    stock_analyser.Costs.for_product stock_analyser.Costs.total stock_analyser.Costs.gst_base
    stock_analyser.Costs.before_tax stock_analyser.Costs.with_tax stock_analyser.Costs.compute_costs
    stock_analyser.Costs.dp_charge stock_analyser.Slippage.slippage_bps
    stock_analyser.Slippage.apply_slippage stock_analyser.Slippage.cap_quantity
    stock_analyser.Fills.is_frozen stock_analyser.Fills.band_lock stock_analyser.Fills.move_pct
    stock_analyser.Fills.circuit_lock stock_analyser.Fills.can_buy stock_analyser.Fills.can_sell
    stock_analyser.Backtest.View.market_data stock_analyser.Backtest.View.search_left
    stock_analyser.Backtest.View.search_right stock_analyser.Backtest.View.guard
    stock_analyser.Backtest.View.today stock_analyser.Backtest.View.bars_until
    stock_analyser.Backtest.View.history stock_analyser.Backtest.View.trading_dates
    stock_analyser.Backtest.Amounts.divide stock_analyser.Backtest.Amounts.truncate
    stock_analyser.Backtest.Amounts.quantize stock_analyser.Backtest.Amounts.slip_bps
    stock_analyser.Backtest.Amounts.bar_lock stock_analyser.Backtest.Amounts.leg_costs
    stock_analyser.Backtest.Amounts.bar_of stock_analyser.Backtest.Sales.book_sale
    stock_analyser.Backtest.Sales.sell_holding stock_analyser.Backtest.Sales.exit_trigger
    stock_analyser.Backtest.Sales.exit_one stock_analyser.Backtest.Sales.exits
    stock_analyser.Backtest.Entries.shrink stock_analyser.Backtest.Entries.wanted_qty
    stock_analyser.Backtest.Entries.open_sized stock_analyser.Backtest.Entries.is_held
    stock_analyser.Backtest.Entries.buy_signal stock_analyser.Backtest.Entries.enter_one
    stock_analyser.Backtest.Entries.entries stock_analyser.Backtest.Loop.close_or
    stock_analyser.Backtest.Loop.liquidate stock_analyser.Backtest.Loop.invested_in
    stock_analyser.Backtest.Loop.mark stock_analyser.Backtest.Loop.signal
    stock_analyser.Backtest.Loop.run_day stock_analyser.Backtest.Loop.run_days
    stock_analyser.Backtest.Loop.run_backtest closed_run
closed = refl

one_trade : length closed_run.books.trades ≡ 1
unfolding stock_analyser.Prelude.Int.◌+ℤ◌ stock_analyser.Prelude.Int.◌-ℤ◌
    stock_analyser.Prelude.Int.◌*ℤ◌ stock_analyser.Decimal.◌+d◌ stock_analyser.Decimal.◌-d◌
    stock_analyser.Decimal.◌*d◌ stock_analyser.Decimal.div_nat stock_analyser.Decimal.div
    stock_analyser.Decimal.led stock_analyser.Decimal.ltd stock_analyser.Decimal.eqd
    stock_analyser.Decimal.min_d stock_analyser.Decimal.max_d stock_analyser.Decimal.abs_d
    stock_analyser.Decimal.floor_nat stock_analyser.Decimal.quotient
    stock_analyser.Money.round_half_up stock_analyser.Money.to_money stock_analyser.Costs.charge
    stock_analyser.Costs.for_product stock_analyser.Costs.total stock_analyser.Costs.gst_base
    stock_analyser.Costs.before_tax stock_analyser.Costs.with_tax stock_analyser.Costs.compute_costs
    stock_analyser.Costs.dp_charge stock_analyser.Slippage.slippage_bps
    stock_analyser.Slippage.apply_slippage stock_analyser.Slippage.cap_quantity
    stock_analyser.Fills.is_frozen stock_analyser.Fills.band_lock stock_analyser.Fills.move_pct
    stock_analyser.Fills.circuit_lock stock_analyser.Fills.can_buy stock_analyser.Fills.can_sell
    stock_analyser.Backtest.View.market_data stock_analyser.Backtest.View.search_left
    stock_analyser.Backtest.View.search_right stock_analyser.Backtest.View.guard
    stock_analyser.Backtest.View.today stock_analyser.Backtest.View.bars_until
    stock_analyser.Backtest.View.history stock_analyser.Backtest.View.trading_dates
    stock_analyser.Backtest.Amounts.divide stock_analyser.Backtest.Amounts.truncate
    stock_analyser.Backtest.Amounts.quantize stock_analyser.Backtest.Amounts.slip_bps
    stock_analyser.Backtest.Amounts.bar_lock stock_analyser.Backtest.Amounts.leg_costs
    stock_analyser.Backtest.Amounts.bar_of stock_analyser.Backtest.Sales.book_sale
    stock_analyser.Backtest.Sales.sell_holding stock_analyser.Backtest.Sales.exit_trigger
    stock_analyser.Backtest.Sales.exit_one stock_analyser.Backtest.Sales.exits
    stock_analyser.Backtest.Entries.shrink stock_analyser.Backtest.Entries.wanted_qty
    stock_analyser.Backtest.Entries.open_sized stock_analyser.Backtest.Entries.is_held
    stock_analyser.Backtest.Entries.buy_signal stock_analyser.Backtest.Entries.enter_one
    stock_analyser.Backtest.Entries.entries stock_analyser.Backtest.Loop.close_or
    stock_analyser.Backtest.Loop.liquidate stock_analyser.Backtest.Loop.invested_in
    stock_analyser.Backtest.Loop.mark stock_analyser.Backtest.Loop.signal
    stock_analyser.Backtest.Loop.run_day stock_analyser.Backtest.Loop.run_days
    stock_analyser.Backtest.Loop.run_backtest closed_run
one_trade = refl

run_backtest_reconciles_example :
    (closed_run.positions ≡ [])
    × (closed_run.books.cash ≈d cfg.initial_capital +d profit closed_run.books.trades)
    × (length closed_run.equity_curve ≡ length (trading_dates (market_data history_of) 1 3))
run_backtest_reconciles_example =
    run_backtest_reconciles cfg strategy (market_data history_of) 1 3 closed_run closed

same_past : until 2 (market_data history_of) ≡ until 2 (market_data other_history)
unfolding market_data
same_past = refl

run_days_past_example :
    run_days cfg strategy (market_data history_of) 2 0 (1 ∷ 2 ∷ []) (new_run cfg)
    ≡ run_days cfg strategy (market_data other_history) 2 0 (1 ∷ 2 ∷ []) (new_run cfg)
run_days_past_example =
    run_days_past cfg strategy 2 history_of other_history 2 0 (1 ∷ 2 ∷ []) (new_run cfg) same_past
      (omega arith)

view_refines_example :
    (let rows = market_data history_of in
      (today rows 2 ≡ ok (on_date 2 rows))
      × (bars_until rows 2 ≡ ok (until 2 rows))
      × (history rows 2 7 1 ≡ ok (last_of 1 (until 2 (of_symbol rows 7)))))
view_refines_example = view_refines history_of 2 7 1

empty-IsBook : IsBook cfg []
empty-IsBook = record { few = omega arith; distinct = tt; held = tt }

unfoldable held_run : Run
unfolding run_days
held_run = the_run (run_days cfg strategy (market_data history_of) 2 0 (1 ∷ 2 ∷ []) (new_run cfg))

held-run :
    run_days cfg strategy (market_data history_of) 2 0 (1 ∷ 2 ∷ []) (new_run cfg) ≡ ok held_run
unfolding stock_analyser.Prelude.Int.◌+ℤ◌ stock_analyser.Prelude.Int.◌-ℤ◌
    stock_analyser.Prelude.Int.◌*ℤ◌ stock_analyser.Decimal.◌+d◌ stock_analyser.Decimal.◌-d◌
    stock_analyser.Decimal.◌*d◌ stock_analyser.Decimal.div_nat stock_analyser.Decimal.div
    stock_analyser.Decimal.led stock_analyser.Decimal.ltd stock_analyser.Decimal.eqd
    stock_analyser.Decimal.min_d stock_analyser.Decimal.max_d stock_analyser.Decimal.abs_d
    stock_analyser.Decimal.floor_nat stock_analyser.Decimal.quotient
    stock_analyser.Money.round_half_up stock_analyser.Money.to_money stock_analyser.Costs.charge
    stock_analyser.Costs.for_product stock_analyser.Costs.total stock_analyser.Costs.gst_base
    stock_analyser.Costs.before_tax stock_analyser.Costs.with_tax stock_analyser.Costs.compute_costs
    stock_analyser.Costs.dp_charge stock_analyser.Slippage.slippage_bps
    stock_analyser.Slippage.apply_slippage stock_analyser.Slippage.cap_quantity
    stock_analyser.Fills.is_frozen stock_analyser.Fills.band_lock stock_analyser.Fills.move_pct
    stock_analyser.Fills.circuit_lock stock_analyser.Fills.can_buy stock_analyser.Fills.can_sell
    stock_analyser.Backtest.View.market_data stock_analyser.Backtest.View.search_left
    stock_analyser.Backtest.View.search_right stock_analyser.Backtest.View.guard
    stock_analyser.Backtest.View.today stock_analyser.Backtest.View.bars_until
    stock_analyser.Backtest.View.history stock_analyser.Backtest.View.trading_dates
    stock_analyser.Backtest.Amounts.divide stock_analyser.Backtest.Amounts.truncate
    stock_analyser.Backtest.Amounts.quantize stock_analyser.Backtest.Amounts.slip_bps
    stock_analyser.Backtest.Amounts.bar_lock stock_analyser.Backtest.Amounts.leg_costs
    stock_analyser.Backtest.Amounts.bar_of stock_analyser.Backtest.Sales.book_sale
    stock_analyser.Backtest.Sales.sell_holding stock_analyser.Backtest.Sales.exit_trigger
    stock_analyser.Backtest.Sales.exit_one stock_analyser.Backtest.Sales.exits
    stock_analyser.Backtest.Entries.shrink stock_analyser.Backtest.Entries.wanted_qty
    stock_analyser.Backtest.Entries.open_sized stock_analyser.Backtest.Entries.is_held
    stock_analyser.Backtest.Entries.buy_signal stock_analyser.Backtest.Entries.enter_one
    stock_analyser.Backtest.Entries.entries stock_analyser.Backtest.Loop.close_or
    stock_analyser.Backtest.Loop.liquidate stock_analyser.Backtest.Loop.invested_in
    stock_analyser.Backtest.Loop.mark stock_analyser.Backtest.Loop.signal
    stock_analyser.Backtest.Loop.run_day stock_analyser.Backtest.Loop.run_days
    stock_analyser.Backtest.Loop.run_backtest held_run
held-run = refl

one_held : length held_run.positions ≡ 1
unfolding stock_analyser.Prelude.Int.◌+ℤ◌ stock_analyser.Prelude.Int.◌-ℤ◌
    stock_analyser.Prelude.Int.◌*ℤ◌ stock_analyser.Decimal.◌+d◌ stock_analyser.Decimal.◌-d◌
    stock_analyser.Decimal.◌*d◌ stock_analyser.Decimal.div_nat stock_analyser.Decimal.div
    stock_analyser.Decimal.led stock_analyser.Decimal.ltd stock_analyser.Decimal.eqd
    stock_analyser.Decimal.min_d stock_analyser.Decimal.max_d stock_analyser.Decimal.abs_d
    stock_analyser.Decimal.floor_nat stock_analyser.Decimal.quotient
    stock_analyser.Money.round_half_up stock_analyser.Money.to_money stock_analyser.Costs.charge
    stock_analyser.Costs.for_product stock_analyser.Costs.total stock_analyser.Costs.gst_base
    stock_analyser.Costs.before_tax stock_analyser.Costs.with_tax stock_analyser.Costs.compute_costs
    stock_analyser.Costs.dp_charge stock_analyser.Slippage.slippage_bps
    stock_analyser.Slippage.apply_slippage stock_analyser.Slippage.cap_quantity
    stock_analyser.Fills.is_frozen stock_analyser.Fills.band_lock stock_analyser.Fills.move_pct
    stock_analyser.Fills.circuit_lock stock_analyser.Fills.can_buy stock_analyser.Fills.can_sell
    stock_analyser.Backtest.View.market_data stock_analyser.Backtest.View.search_left
    stock_analyser.Backtest.View.search_right stock_analyser.Backtest.View.guard
    stock_analyser.Backtest.View.today stock_analyser.Backtest.View.bars_until
    stock_analyser.Backtest.View.history stock_analyser.Backtest.View.trading_dates
    stock_analyser.Backtest.Amounts.divide stock_analyser.Backtest.Amounts.truncate
    stock_analyser.Backtest.Amounts.quantize stock_analyser.Backtest.Amounts.slip_bps
    stock_analyser.Backtest.Amounts.bar_lock stock_analyser.Backtest.Amounts.leg_costs
    stock_analyser.Backtest.Amounts.bar_of stock_analyser.Backtest.Sales.book_sale
    stock_analyser.Backtest.Sales.sell_holding stock_analyser.Backtest.Sales.exit_trigger
    stock_analyser.Backtest.Sales.exit_one stock_analyser.Backtest.Sales.exits
    stock_analyser.Backtest.Entries.shrink stock_analyser.Backtest.Entries.wanted_qty
    stock_analyser.Backtest.Entries.open_sized stock_analyser.Backtest.Entries.is_held
    stock_analyser.Backtest.Entries.buy_signal stock_analyser.Backtest.Entries.enter_one
    stock_analyser.Backtest.Entries.entries stock_analyser.Backtest.Loop.close_or
    stock_analyser.Backtest.Loop.liquidate stock_analyser.Backtest.Loop.invested_in
    stock_analyser.Backtest.Loop.mark stock_analyser.Backtest.Loop.signal
    stock_analyser.Backtest.Loop.run_day stock_analyser.Backtest.Loop.run_days
    stock_analyser.Backtest.Loop.run_backtest held_run
one_held = refl

run_days_within_limits_example : IsBook cfg held_run.positions
run_days_within_limits_example =
    run_days_within_limits cfg strategy (market_data history_of) 2 0 (1 ∷ 2 ∷ []) (new_run cfg)
      held_run empty-IsBook held-run

abbrev the_entries : Result EngineError (List Holding × Books) → List Holding × Books
the_entries (ok r) = r
the_entries (err e) = ([], (new_run cfg).books)

unfoldable entered : List Holding × Books
unfolding entries
entered = the_entries (
    entries cfg (of_nat 1000) (bar_on 2 102 ∷ []) 2 1 (a_signal ∷ a_signal ∷ []) []
      (new_run cfg).books)

entered-run :
    entries cfg
      (of_nat 1000)
      (bar_on 2 102 ∷ [])
      2
      1
      (a_signal ∷ a_signal ∷ [])
      []
      (new_run cfg).books
    ≡ ok (entered.0, entered.1)
unfolding stock_analyser.Prelude.Int.◌+ℤ◌ stock_analyser.Prelude.Int.◌-ℤ◌
    stock_analyser.Prelude.Int.◌*ℤ◌ stock_analyser.Decimal.◌+d◌ stock_analyser.Decimal.◌-d◌
    stock_analyser.Decimal.◌*d◌ stock_analyser.Decimal.div_nat stock_analyser.Decimal.div
    stock_analyser.Decimal.led stock_analyser.Decimal.ltd stock_analyser.Decimal.eqd
    stock_analyser.Decimal.min_d stock_analyser.Decimal.max_d stock_analyser.Decimal.abs_d
    stock_analyser.Decimal.floor_nat stock_analyser.Decimal.quotient
    stock_analyser.Money.round_half_up stock_analyser.Money.to_money stock_analyser.Costs.charge
    stock_analyser.Costs.for_product stock_analyser.Costs.total stock_analyser.Costs.gst_base
    stock_analyser.Costs.before_tax stock_analyser.Costs.with_tax stock_analyser.Costs.compute_costs
    stock_analyser.Costs.dp_charge stock_analyser.Slippage.slippage_bps
    stock_analyser.Slippage.apply_slippage stock_analyser.Slippage.cap_quantity
    stock_analyser.Fills.is_frozen stock_analyser.Fills.band_lock stock_analyser.Fills.move_pct
    stock_analyser.Fills.circuit_lock stock_analyser.Fills.can_buy stock_analyser.Fills.can_sell
    stock_analyser.Backtest.View.market_data stock_analyser.Backtest.View.search_left
    stock_analyser.Backtest.View.search_right stock_analyser.Backtest.View.guard
    stock_analyser.Backtest.View.today stock_analyser.Backtest.View.bars_until
    stock_analyser.Backtest.View.history stock_analyser.Backtest.View.trading_dates
    stock_analyser.Backtest.Amounts.divide stock_analyser.Backtest.Amounts.truncate
    stock_analyser.Backtest.Amounts.quantize stock_analyser.Backtest.Amounts.slip_bps
    stock_analyser.Backtest.Amounts.bar_lock stock_analyser.Backtest.Amounts.leg_costs
    stock_analyser.Backtest.Amounts.bar_of stock_analyser.Backtest.Sales.book_sale
    stock_analyser.Backtest.Sales.sell_holding stock_analyser.Backtest.Sales.exit_trigger
    stock_analyser.Backtest.Sales.exit_one stock_analyser.Backtest.Sales.exits
    stock_analyser.Backtest.Entries.shrink stock_analyser.Backtest.Entries.wanted_qty
    stock_analyser.Backtest.Entries.open_sized stock_analyser.Backtest.Entries.is_held
    stock_analyser.Backtest.Entries.buy_signal stock_analyser.Backtest.Entries.enter_one
    stock_analyser.Backtest.Entries.entries stock_analyser.Backtest.Loop.close_or
    stock_analyser.Backtest.Loop.liquidate stock_analyser.Backtest.Loop.invested_in
    stock_analyser.Backtest.Loop.mark stock_analyser.Backtest.Loop.signal
    stock_analyser.Backtest.Loop.run_day stock_analyser.Backtest.Loop.run_days
    stock_analyser.Backtest.Loop.run_backtest entered
entered-run = refl

entries_within_limits_example :
    IsBook cfg entered.0 × (zero_d ≤d (new_run cfg).books.cash → zero_d ≤d entered.1.cash)
entries_within_limits_example =
    entries_within_limits cfg (of_nat 1000) (bar_on 2 102 ∷ []) 2 1 (a_signal ∷ a_signal ∷ []) []
      (new_run cfg).books entered.0 entered.1 empty-IsBook entered-run

abbrev the_size : Result EngineError (ℕ × Decimal) → ℕ × Decimal
the_size (ok r) = r
the_size (err e) = (0, zero_d)

-- Cash for two shares of 100 and their charges, where five are wanted.
unfoldable sized : ℕ × Decimal
unfolding shrink
sized = the_size (shrink cfg (of_nat 250) (of_nat 100) 2 5)

sized-run : shrink cfg (of_nat 250) (of_nat 100) 2 5 ≡ ok (2, sized.1)
unfolding stock_analyser.Prelude.Int.◌+ℤ◌ stock_analyser.Prelude.Int.◌-ℤ◌
    stock_analyser.Prelude.Int.◌*ℤ◌ stock_analyser.Decimal.◌+d◌ stock_analyser.Decimal.◌-d◌
    stock_analyser.Decimal.◌*d◌ stock_analyser.Decimal.div_nat stock_analyser.Decimal.div
    stock_analyser.Decimal.led stock_analyser.Decimal.ltd stock_analyser.Decimal.eqd
    stock_analyser.Decimal.min_d stock_analyser.Decimal.max_d stock_analyser.Decimal.abs_d
    stock_analyser.Decimal.floor_nat stock_analyser.Decimal.quotient
    stock_analyser.Money.round_half_up stock_analyser.Money.to_money stock_analyser.Costs.charge
    stock_analyser.Costs.for_product stock_analyser.Costs.total stock_analyser.Costs.gst_base
    stock_analyser.Costs.before_tax stock_analyser.Costs.with_tax stock_analyser.Costs.compute_costs
    stock_analyser.Costs.dp_charge stock_analyser.Slippage.slippage_bps
    stock_analyser.Slippage.apply_slippage stock_analyser.Slippage.cap_quantity
    stock_analyser.Fills.is_frozen stock_analyser.Fills.band_lock stock_analyser.Fills.move_pct
    stock_analyser.Fills.circuit_lock stock_analyser.Fills.can_buy stock_analyser.Fills.can_sell
    stock_analyser.Backtest.View.market_data stock_analyser.Backtest.View.search_left
    stock_analyser.Backtest.View.search_right stock_analyser.Backtest.View.guard
    stock_analyser.Backtest.View.today stock_analyser.Backtest.View.bars_until
    stock_analyser.Backtest.View.history stock_analyser.Backtest.View.trading_dates
    stock_analyser.Backtest.Amounts.divide stock_analyser.Backtest.Amounts.truncate
    stock_analyser.Backtest.Amounts.quantize stock_analyser.Backtest.Amounts.slip_bps
    stock_analyser.Backtest.Amounts.bar_lock stock_analyser.Backtest.Amounts.leg_costs
    stock_analyser.Backtest.Amounts.bar_of stock_analyser.Backtest.Sales.book_sale
    stock_analyser.Backtest.Sales.sell_holding stock_analyser.Backtest.Sales.exit_trigger
    stock_analyser.Backtest.Sales.exit_one stock_analyser.Backtest.Sales.exits
    stock_analyser.Backtest.Entries.shrink stock_analyser.Backtest.Entries.wanted_qty
    stock_analyser.Backtest.Entries.open_sized stock_analyser.Backtest.Entries.is_held
    stock_analyser.Backtest.Entries.buy_signal stock_analyser.Backtest.Entries.enter_one
    stock_analyser.Backtest.Entries.entries stock_analyser.Backtest.Loop.close_or
    stock_analyser.Backtest.Loop.liquidate stock_analyser.Backtest.Loop.invested_in
    stock_analyser.Backtest.Loop.mark stock_analyser.Backtest.Loop.signal
    stock_analyser.Backtest.Loop.run_day stock_analyser.Backtest.Loop.run_days
    stock_analyser.Backtest.Loop.run_backtest sized
sized-run = refl

shrink_largest_example :
    (2 ≤ 5)
    × (leg_costs cfg buy (of_nat 100 *d of_nat 2) 2 ≡ ok sized.1)
    × ((◌≡◌ {A = ℕ} 2 0) ⊎ (Outlay (of_nat 100) 2 sized.1 ≤d of_nat 250))
    × ((k : ℕ) → 2 < k → k ≤ 5 → IsTooDear cfg (of_nat 250) (of_nat 100) 2 k)
shrink_largest_example = shrink_largest cfg (of_nat 250) (of_nat 100) 2 5 2 sized.1 sized-run

abbrev a_holding : Holding
a_holding = record {
  symbol = 7;
  qty = 3;
  entry_date = 1;
  entry_index = 0;
  entry_price = of_nat 102;
  entry_costs_left = of_nat 24;
  stop = some (of_nat 98);
  target = none;
  max_hold_days = 9;
  reason = 0;
}

bar_on-IsBar : IsBar (bar_on 1 100)
bar_on-IsBar = record {
  low_open = omega arith;
  open_high = omega arith;
  low_close = omega arith;
  close_high = omega arith;
}

exit_trigger-IsJustified_example :
    (let h = a_holding in
      let row = bar_on 1 100 in
      ((price : Decimal) × (why : ExitReason) × (exit_trigger h row 2 ≡ some (price, why))
        × InRange row price
        × IsJustified h row 2 price why)
      ⊎ ((exit_trigger h row 2 ≡ none)
          × (at_or_below row.low h.stop ≡ false)
          × (at_or_above row.high h.target ≡ false)
          × (leb h.max_hold_days 2 ≡ false)))
exit_trigger-IsJustified_example = exit_trigger-IsJustified a_holding (bar_on 1 100) 2 bar_on-IsBar

small_tier_bps :
    (t : SlippageTier) → Member t cfg.tiers → (zero_d ≤d t.bps) × (t.bps ≤d of_nat 10000)
small_tier_bps t (inl e) = rw e (omega arith, omega arith)
small_tier_bps t (inr m) = absurd m

cfg-IsConfig : IsConfig cfg
unfolding stock_analyser.Costs.for_product
cfg-IsConfig = record {
  tiered = (tier, [], refl);
  modest = small_tier_bps;
  tariff = λ d. refl;
  cap_pos = omega arith;
  cap_whole = omega arith;
  roomy = omega arith;
}

bar_on-IsPriced : (row : Bar) → Member row (bar_on 1 100 ∷ []) → IsPriced row
bar_on-IsPriced row (inl e) = rw e (record { shaped = bar_on-IsBar; worth = omega arith })
bar_on-IsPriced row (inr m) = absurd m

a_share : (h : Holding) → Member h (a_holding ∷ []) → 1 ≤ h.qty
a_share h (inl e) = rw e (omega arith)
a_share h (inr m) = absurd m

exits_total_example :
    (r : List Holding × Books) × (exits cfg
        (bar_on 1 100 ∷ [])
        1
        2
        (a_holding ∷ [])
        (new_run cfg).books
      ≡ ok r)
exits_total_example =
    exits_total cfg (bar_on 1 100 ∷ []) 1 2 (a_holding ∷ []) (new_run cfg).books cfg-IsConfig
      bar_on-IsPriced a_share

opening_paid : (row : Bar) → Member row (bar_on 2 102 ∷ []) → zero_d <d row.opening
opening_paid row (inl e) = rw e (omega arith)
opening_paid row (inr m) = absurd m

entries_total_example :
    (r : List Holding × Books) × (entries cfg
        (of_nat 1000)
        (bar_on 2 102 ∷ [])
        2
        1
        (a_signal ∷ a_signal ∷ [])
        []
        (new_run cfg).books
      ≡ ok r)
entries_total_example =
    entries_total cfg (of_nat 1000) (bar_on 2 102 ∷ []) 2 1 (a_signal ∷ a_signal ∷ []) []
      (new_run cfg).books cfg-IsConfig opening_paid (omega arith) (omega arith)
