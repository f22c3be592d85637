-- ===== src/Playground/Ledger.antt =====
-- backend/src/stk/playground/ledger.py: portfolios, cash and positions.
pub mod Audit
use stock_analyser.Prelude.{
  ℕ, suc, ◌+◌, ◌-◌, Bool, true, false, ◌&&◌, ◌||◌, not, if◌then◌else◌, ◌==◌, leb, Option, none,
  some, List, [], ◌∷◌, any_of, ℤ, pos, ◌+ℤ◌, ◌-ℤ◌, leb_ℤ, pos_part, Result, ok, err, ◌>>=◌, ◌>>◌,
  raise_if,
}
use stock_analyser.Decimal.{Decimal, zero_d, led}
use stock_analyser.Money.{to_money}
use stock_analyser.Costs.{Side, buy, sell}
use stock_analyser.Positions.{Position, no_position}
use stock_analyser.Playground.Store.{
  Listing, same_listing, Db, Portfolio, PositionRow, CashEntry, CashKind, deposit, TradeRow, day_of,
  next_portfolio_id,
}

-- The reasons of `LedgerError` that the ledger raises itself.
pub data LedgerError : Type 0 where
  unnamed_portfolio capital_not_positive duplicate_portfolio : LedgerError

-- The balance of the portfolio's last ledger row, 0 where there is none.
unfoldable pub cash_of : List CashEntry → ℕ → ℤ
cash_of [] pid = pos 0
cash_of (e ∷ es) pid =
    let rest = cash_of es pid in if e.portfolio_id == pid then e.balance_after else rest

unfoldable pub cash_balance : Db → ℕ → ℤ
cash_balance db pid = cash_of db.cash_ledger pid

unfoldable pub add_cash : Db → ℕ → CashKind → ℤ → Option ℕ → Db
add_cash db pid kind amount ref = record db {
  cash_ledger =
      record {
        portfolio_id = pid;
        kind = kind;
        amount = amount;
        balance_after = cash_of db.cash_ledger pid +ℤ amount;
        ref_trade_id = ref;
      }
      ∷ db.cash_ledger;
}

-- `name` is the number of the trimmed name and 0 that of the empty text.
unfoldable pub create_portfolio : Db → ℕ → Decimal → Result LedgerError (ℕ × Db)
unfolding add_cash
create_portfolio db name start_capital = do
  raise_if (name == 0) unnamed_portfolio
  raise_if (led start_capital zero_d) capital_not_positive
  raise_if (any_of (λ p. p.name == name) db.portfolios) duplicate_portfolio
  let pid = next_portfolio_id db.portfolios
  let row : Portfolio = record {
    portfolio_id = pid;
    name = name;
    start_capital = to_money start_capital;
    archived = false;
  }
  let db' = record db { portfolios = row ∷ db.portfolios }
  ok (pid, add_cash db' pid deposit (to_money start_capital) none)

unfoldable pub position_of : List PositionRow → Listing → Position
position_of [] at = no_position
position_of (r ∷ rs) at =
    let rest = position_of rs at in if same_listing r.listing at then r.position else rest

unfoldable pub get_position : Db → Listing → Position
get_position db at = position_of db.positions at

-- `INSERT ... ON CONFLICT DO UPDATE`
unfoldable pub upsert_position : List PositionRow → Listing → Position → List PositionRow
upsert_position [] at p = record { listing = at; position = p } ∷ []
upsert_position (r ∷ rs) at p =
    if same_listing r.listing at
    then record r { position = p } ∷ rs
    else r ∷ upsert_position rs at p

unfoldable pub save_position : Db → Listing → Position → Db
save_position db at p = record db { positions = upsert_position db.positions at p }

-- One trade of the day, taken back.
abbrev pub undo_trade : Side → ℕ → ℤ → ℤ
undo_trade buy n qty = qty -ℤ pos n
undo_trade sell n qty = qty +ℤ pos n

unfoldable pub replay_back : List TradeRow → Listing → ℕ → ℤ → ℤ
replay_back [] at day qty = qty
replay_back (t ∷ ts) at day qty = replay_back ts at day (
    if same_listing t.listing at && leb day (day_of t.filled_at)
    then undo_trade t.side t.qty qty
    else qty)

-- `max(qty, 0)`
unfoldable pub held_at_start_of : Db → Listing → ℕ → ℕ
unfolding get_position replay_back
held_at_start_of db at day = pos_part (replay_back db.trades at day (pos (get_position db at).qty))
