-- ===== src/Lib.antt =====
-- A model of the trading core of this repository's Python backend (backend/src/stk), with the
-- theorems that make it correct.
--
-- The program's parts. The domain modules (backend/src/stk/domain) are pure rules: charges,
-- slippage, circuit locks, orders and their fills, positions. The playground
-- (backend/src/stk/playground) keeps a paper-trading book in SQLite: orders rest until a delayed
-- candle or the day's bar touches them, a touched order becomes a trade in one transaction, and
-- corporate actions rewrite holdings and resting orders before the day's bar is tried. The request
-- queue (backend/src/stk/store/db/repos/ai_requests.py) lets the dashboard ask for model calls that
-- only a worker makes. A strategy is written in a small language of conditions over indicators
-- (backend/src/stk/domain/dsl), which a validator checks and an interpreter evaluates on each row;
-- the backtest engine (backend/src/stk/backtest) runs a strategy over past days, showing it only
-- what was known on each, with the same charges, slippage and locks as the playground. The promotion
-- gate, the universe rules and the calendar are small pure parts.
--
-- Which file models which part:
--   Decimal              Python's Decimal as an exact fraction
--   Money                backend/src/stk/core/money.py, `to_money`; a rounded amount is
--                        an integer of paise
--   Costs                backend/src/stk/domain/costs.py
--   Fills                backend/src/stk/domain/fills.py
--   Orders               backend/src/stk/domain/orders.py
--   Slippage             backend/src/stk/domain/slippage.py
--   Positions            backend/src/stk/domain/positions.py
--   Playground.Store     the tables (backend/src/stk/store/db/migrations/0006_playground.sql)
--   Playground.Ledger    backend/src/stk/playground/ledger.py
--   Playground.Book      backend/src/stk/playground/orders.py
--   Playground.Fill      backend/src/stk/playground/fills.py and
--                        backend/src/stk/playground/context.py
--   Playground.Passes    backend/src/stk/playground/passes.py
--   Playground.Actions   backend/src/stk/playground/corpactions.py
--   Requests             backend/src/stk/store/db/repos/ai_requests.py
--   Requests.Worker      backend/src/stk/ai/worker.py, the claim order, the closing of a
--                        request, draining
--   Jobs                 backend/src/stk/ingest/jobs.py
--   Strategies           backend/src/stk/strategies/repo.py
--   Dsl                  backend/src/stk/domain/dsl/model.py; Dsl.Catalogue, Dsl.Validate and
--                        Dsl.Evaluate the modules of those names, Dsl.Params the parameters,
--                        Dsl.Previous the columns of yesterday, Dsl.Cells pandas' float cells
--   Backtest             backend/src/stk/backtest/engine.py, its records; Backtest.Amounts, Sales,
--                        Entries and Loop its steps, Backtest.View backend/src/stk/backtest/view.py
--   Universe             backend/src/stk/domain/universe.py
--   Trading              backend/src/stk/domain/calendar.py
--   Gate                 backend/src/stk/domain/gate.py
--   Tests                runs of the model on concrete inputs
--   Prelude              what the parts share
--
-- How state and operations correspond. A function has the source's name. A database is a record of
-- its tables, each a list with the newest row first; an operation takes the tables and answers with
-- the new ones, or with an error value where the source raises. A transaction that raises leaves
-- the caller's tables. Datetimes are seconds on the IST clock, and texts that are only compared are
-- numbers. The clock and the market data are arguments. A frame is taken a row at a time, since the
-- interpreter works on each row by itself; a validator's list of errors is a list of values with the
-- place of each. A strategy of the engine is any function of the bars shown, the date and the symbols
-- held.
--
-- Loops are structural recursion over the rows, candles, actions or rounds of interference that
-- they run through, on the dates of a run or on the quantity that the sizing loop takes down, and the
-- walk back through the calendar has the source's bound of 14 days. Only `drain` runs on a number of
-- rounds, of which one for each waiting request is enough.
--
-- What is not modelled. The rounding of a Decimal quotient to 28 digits, and of floats, is left out:
-- both are exact fractions here. Notes, texts of errors and audit details are left out. SQLite,
-- Parquet, DuckDB, HTTP and the calls of model providers are outside the model, as are the metrics of
-- a backtest, walk-forward runs, ingestion and the web front end.
pub mod Prelude
pub mod Decimal
pub mod Costs
pub mod Fills
pub mod Orders
pub mod Slippage
pub mod Money
pub mod Positions
pub mod Playground
pub mod Requests
pub mod Universe
pub mod Trading
pub mod Gate
pub mod Tests
pub mod Jobs
pub mod Strategies
pub mod Dsl
pub mod Backtest
