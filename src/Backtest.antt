-- ===== src/Backtest.antt =====
-- backend/src/stk/backtest/engine.py: the data of a run. Symbols, reasons and texts are numbered,
-- dates are numbers, prices exact fractions. The exchange is that of the configuration: `rates_for`
-- is asked for a date only.
pub mod View
pub mod Amounts
pub mod Priced
pub mod Sales
pub mod Entries
pub mod Loop
pub mod Visible
pub mod Lookahead
pub mod Sizing
pub mod Paise
pub mod Capacity
pub mod Filling
pub mod Days
pub mod Triggers
pub mod Accounting
pub mod Balance
pub mod Buying
pub mod Reconciled
pub mod Exiting
pub mod Entering
use stock_analyser.Prelude.{ℕ, Option, List, ℤ, Result, ok, err}
use stock_analyser.Decimal.{Decimal}
use stock_analyser.Costs.{Product, CostRates, CostError}
use stock_analyser.Slippage.{SlippageTier, SlippageError}

-- `LookAheadError`
pub data ViewError : Type 0 where
  look_ahead : ViewError

-- One row of `MarketData.bars`, without the columns that the engine does not read.
pub record Bar : Type 0 where
  pub date : ℕ
  pub symbol : ℕ
  pub opening : Decimal
  pub high : Decimal
  pub low : Decimal
  pub closing : Decimal
  pub volume : ℕ
  pub prev_close : Option Decimal
  pub adv_turnover : Option Decimal

pub record Signal : Type 0 where
  pub symbol : ℕ
  pub score : Decimal
  pub stop_pct : Option Decimal
  pub target_pct : Option Decimal
  pub max_hold_days : ℕ
  pub reason : ℕ

-- `EngineConfig`, with `max_pos` as the run has it and the tariff by date.
pub record Config : Type 0 where
  pub initial_capital : Decimal
  pub product : Product
  pub tiers : List SlippageTier
  pub participation_cap : Decimal
  pub circuit_band_pcts : List Decimal
  pub circuit_tolerance_pct : Decimal
  pub max_pos : ℕ
  pub rates_for : ℕ → CostRates

-- The exit reasons 'stop', 'target', 'time' and 'end_of_window'.
pub data ExitReason : Type 0 where
  by_stop by_target by_time end_of_window : ExitReason

pub record Trade : Type 0 where
  pub symbol : ℕ
  pub entry_date : ℕ
  pub entry_price : Decimal
  pub exit_date : ℕ
  pub exit_price : Decimal
  pub qty : ℕ
  pub entry_costs : Decimal
  pub exit_costs : Decimal
  pub gross_pnl : Decimal
  pub net_pnl : Decimal
  pub return_pct : Decimal
  pub exit_reason : ExitReason
  pub holding_days : ℤ
  pub reason : ℕ

-- `_Position`
pub record Holding : Type 0 where
  pub symbol : ℕ
  pub qty : ℕ
  pub entry_date : ℕ
  pub entry_index : ℕ
  pub entry_price : Decimal
  pub entry_costs_left : Decimal
  pub stop : Option Decimal
  pub target : Option Decimal
  pub max_hold_days : ℕ
  pub reason : ℕ

pub record Stats : Type 0 where
  pub signals : ℕ
  pub entries : ℕ
  pub entry_blocked_upper_lock : ℕ
  pub entry_no_bar : ℕ
  pub entry_no_cash : ℕ
  pub entry_partial_cap : ℕ
  pub exit_blocked_lower_lock : ℕ
  pub exit_deferred_cap : ℕ

-- What a step changes besides the positions; `trades` is newest first, `dp_done` the symbols that
-- paid the day's DP charge.
pub record Books : Type 0 where
  pub cash : Decimal
  pub trades : List Trade
  pub stats : Stats
  pub dp_done : List ℕ

-- `_Run`; `positions` and `pending` in their order, the curves newest first, `last_close` an
-- association list.
pub record Run : Type 0 where
  pub books : Books
  pub equity_prev : Decimal
  pub positions : List Holding
  pub pending : List Signal
  pub last_close : List (ℕ × Decimal)
  pub equity_curve : List Decimal
  pub exposure : List Decimal

pub data EngineError : Type 0 where
  cost_error : CostError → EngineError
  slippage_error : SlippageError → EngineError
  look_ahead_error : ViewError → EngineError
  division_by_zero too_few_dates : EngineError

abbrev pub recast : {E A : Type 0} → (E → EngineError) → Result E A → Result EngineError A
recast f (ok a) = ok a
recast f (err e) = err (f e)
