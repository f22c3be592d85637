-- ===== src/Playground/Store.antt =====
-- The playground's tables (backend/src/stk/store/db/migrations/0006_playground.sql), as the
-- playground reads them. A new row stands first, so a table's first row is its last inserted one.
-- Datetimes are seconds on the IST clock, so that `t / 86400` is the date. Notes, and columns that
-- no code of the playground reads back, are left out.
use stock_analyser.Prelude.{ℕ, ◌+◌, ◌/◌, Bool, ◌&&◌, ◌==◌, Option, List, [], ◌∷◌, ℤ, max}
use stock_analyser.Decimal.{Decimal}
use stock_analyser.Costs.{Side}
use stock_analyser.Orders.{Order}
use stock_analyser.Positions.{Position}

-- Texts that are only compared (symbols, exchanges) are numbered.
pub record Listing : Type 0 where
  pub portfolio_id : ℕ
  pub exchange : ℕ
  pub symbol : ℕ

unfoldable pub same_listing : Listing → Listing → Bool
same_listing a b =
    a.portfolio_id == b.portfolio_id && (a.exchange == b.exchange && a.symbol == b.symbol)

-- A row of `orders`: the domain's order, where it belongs, and its bracket.
pub record OrderRow : Type 0 where
  pub order : Order
  pub listing : Listing
  pub bracket_stop : Option Decimal
  pub bracket_target : Option Decimal
  pub parent_order_id : Option ℕ
  pub closed_at : Option ℕ

-- A row of `trades`. `dp` is the `dp` entry of its `charges_json`.
pub record TradeRow : Type 0 where
  pub trade_id : ℕ
  pub order_id : ℕ
  pub listing : Listing
  pub side : Side
  pub qty : ℕ
  pub price : ℤ
  pub gross : ℤ
  pub charges : ℤ
  pub dp : ℤ
  pub realised_pnl : Option Decimal
  pub filled_at : ℕ

-- A row of `positions`, keyed by its listing.
pub record PositionRow : Type 0 where
  pub listing : Listing
  pub position : Position

pub data CashKind : Type 0 where
  deposit buy_cash sell_cash charges_cash dividend : CashKind

-- A row of `cash_ledger`, in paise.
pub record CashEntry : Type 0 where
  pub portfolio_id : ℕ
  pub kind : CashKind
  pub amount : ℤ
  pub balance_after : ℤ
  pub ref_trade_id : Option ℕ

-- A row of `portfolios`. `name` numbers the trimmed text.
pub record Portfolio : Type 0 where
  pub portfolio_id : ℕ
  pub name : ℕ
  pub start_capital : ℤ
  pub archived : Bool

pub record Db : Type 0 where
  pub portfolios : List Portfolio
  pub orders : List OrderRow
  pub trades : List TradeRow
  pub positions : List PositionRow
  pub cash_ledger : List CashEntry

-- `datetime.date()`
unfoldable pub day_of : ℕ → ℕ
day_of t = t / 86400

-- The rowid that SQLite gives to a new row: one more than the largest.
unfoldable pub next_order_id : List OrderRow → ℕ
next_order_id [] = 1
next_order_id (r ∷ rs) = max (r.order.order_id + 1) (next_order_id rs)

unfoldable pub next_trade_id : List TradeRow → ℕ
next_trade_id [] = 1
next_trade_id (t ∷ ts) = max (t.trade_id + 1) (next_trade_id ts)

unfoldable pub next_portfolio_id : List Portfolio → ℕ
next_portfolio_id [] = 1
next_portfolio_id (p ∷ ps) = max (p.portfolio_id + 1) (next_portfolio_id ps)
