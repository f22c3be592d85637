-- ===== src/Tests.antt =====
-- Runs of the model on concrete inputs.
mod Data
mod Fills
mod Passes
mod Orders
mod Book
mod Requests
mod Charges
mod Positions
mod Rules
mod Dsl
mod Backtest
