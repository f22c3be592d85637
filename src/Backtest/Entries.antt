-- ===== src/Backtest/Entries.antt =====
-- backend/src/stk/backtest/engine.py: `_size_buy` and `entries`.
use stock_analyser.Prelude.{
  ℕ, zero, suc, Bool, true, false, if◌then◌else◌, leb, ◌==◌, Option, none, some, List, [], ◌∷◌,
  ◌++◌, length, any_of, ℤ, pos, ltb_ℤ, Result, ok, ◌>>=◌,
}
use stock_analyser.Decimal.{Decimal, one_d, of_nat, ◌+d◌, ◌-d◌, ◌*d◌, ltd, min_d}
use stock_analyser.Costs.{buy}
use stock_analyser.Fills.{can_buy}
use stock_analyser.Slippage.{apply_slippage, cap_quantity}
use stock_analyser.Backtest.{
  Bar, Signal, Config, Holding, Books, EngineError, slippage_error, recast,
}
use stock_analyser.Backtest.Amounts.{
  cost_buffer, divide, truncate, slip_bps, bar_lock, leg_costs, bar_of,
}

-- The `while` loop of `_size_buy`: the first quantity from `n` down that the cash pays, or 0.
unfoldable pub shrink : Config → Decimal → Decimal → ℕ → ℕ → Result EngineError (ℕ × Decimal)
unfolding leg_costs ltd ◌*d◌ ◌+d◌
shrink cfg cash px d zero = do costs ← leg_costs cfg buy (px *d of_nat 0) d; ok (0, costs)
shrink cfg cash px d (suc n) = do
  costs ← leg_costs cfg buy (px *d of_nat (suc n)) d
  let less = shrink cfg cash px d n
  if ltd cash (px *d of_nat (suc n) +d costs) then less else ok (suc n, costs)

-- `_size_buy` before the loop: the wanted quantity and the capped one.
unfoldable pub wanted_qty : Config → Decimal → Decimal → Decimal → Bar → Result EngineError (ℤ × ℕ)
unfolding divide truncate cap_quantity min_d ◌*d◌ ◌+d◌
wanted_qty cfg equity_prev cash px row = do
  share ← divide equity_prev (of_nat cfg.max_pos)
  ratio ← divide (min_d share cash) (px *d (one_d +d cost_buffer))
  let qty = truncate ratio
  capped ← recast slippage_error (cap_quantity qty (pos row.volume) cfg.participation_cap)
  ok (qty, capped)

abbrev pub count_partial : Bool → Books → Books
count_partial false b = b
count_partial true b = record b {
  stats = record b.stats { entry_partial_cap = suc b.stats.entry_partial_cap };
}

abbrev pub count_no_bar : Books → Books
count_no_bar b = record b { stats = record b.stats { entry_no_bar = suc b.stats.entry_no_bar } }

abbrev pub count_entry_blocked : Books → Books
count_entry_blocked b = record b {
  stats = record b.stats { entry_blocked_upper_lock = suc b.stats.entry_blocked_upper_lock };
}

abbrev pub count_no_cash : Books → Books
count_no_cash b = record b { stats = record b.stats { entry_no_cash = suc b.stats.entry_no_cash } }

abbrev pub stop_level : Decimal → Option Decimal → Option Decimal
stop_level px none = none
stop_level px (some pct) = some (px *d (one_d -d pct))

abbrev pub target_level : Decimal → Option Decimal → Option Decimal
target_level px none = none
target_level px (some pct) = some (px *d (one_d +d pct))

abbrev pub opened : Signal → ℕ → Decimal → Decimal → ℕ → ℕ → Holding
opened sig qty px costs d idx = record {
  symbol = sig.symbol;
  qty = qty;
  entry_date = d;
  entry_index = idx;
  entry_price = px;
  entry_costs_left = costs;
  stop = stop_level px sig.stop_pct;
  target = target_level px sig.target_pct;
  max_hold_days = sig.max_hold_days;
  reason = sig.reason;
}

-- The end of a round of `entries`, with the sized quantity.
unfoldable pub open_sized :
    Signal → ℕ → Decimal → Decimal → ℕ → ℕ → List Holding → Books → List Holding × Books
unfolding ◌*d◌ ◌+d◌ ◌-d◌
open_sized sig zero px costs d idx hs books = (hs, count_no_cash books)
open_sized sig (suc n) px costs d idx hs books = (
  hs ++ (opened sig (suc n) px costs d idx ∷ []),
  record books {
    cash = books.cash -d (px *d of_nat (suc n) +d costs);
    stats = record books.stats { entries = suc books.stats.entries };
  },
)

-- `sig.symbol in self.positions`
unfoldable pub is_held : List Holding → ℕ → Bool
is_held hs sym = any_of (λ (h : Holding). h.symbol == sym) hs

-- A round of `entries` with the row found and the lock open.
unfoldable pub buy_signal :
    Config
    → Decimal
    → Bar
    → Signal
    → ℕ
    → ℕ
    → List Holding
    → Books
    → Result EngineError (List Holding × Books)
unfolding slip_bps apply_slippage wanted_qty shrink open_sized
buy_signal cfg equity_prev row sig d idx hs books = do
  bps ← slip_bps cfg row.adv_turnover
  let px = apply_slippage row.opening buy bps
  (qty, capped) ← wanted_qty cfg equity_prev books.cash px row
  (fitting, costs) ← shrink cfg books.cash px d capped
  ok (open_sized sig fitting px costs d idx hs (count_partial (ltb_ℤ (pos capped) qty) books))

abbrev pub attempt_entry :
    Config
    → Decimal
    → Option Bar
    → Signal
    → ℕ
    → ℕ
    → List Holding
    → Books
    → Result EngineError (List Holding × Books)
attempt_entry cfg equity_prev none sig d idx hs books = ok (hs, count_no_bar books)
attempt_entry cfg equity_prev (some row) sig d idx hs books =
    if can_buy (bar_lock cfg row)
    then buy_signal cfg equity_prev row sig d idx hs books
    else ok (hs, count_entry_blocked books)

-- One round of `entries` after the test of the number of positions.
unfoldable pub enter_one :
    Config
    → Decimal
    → List Bar
    → Signal
    → ℕ
    → ℕ
    → List Holding
    → Books
    → Result EngineError (List Holding × Books)
unfolding is_held bar_of can_buy bar_lock buy_signal
enter_one cfg equity_prev today sig d idx hs books =
    if is_held hs sig.symbol
    then ok (hs, books)
    else attempt_entry cfg equity_prev (bar_of today sig.symbol) sig d idx hs books

-- `entries`, over the pending signals.
unfoldable pub entries :
    Config
    → Decimal
    → List Bar
    → ℕ
    → ℕ
    → List Signal
    → List Holding
    → Books
    → Result EngineError (List Holding × Books)
unfolding enter_one
entries cfg equity_prev today d idx [] hs books = ok (hs, books)
entries cfg equity_prev today d idx (sig ∷ sigs) hs books =
    let others = enter_one cfg equity_prev today sig d idx hs books >>= λ next.
    entries cfg equity_prev today d idx sigs next.0 next.1 in
    if leb cfg.max_pos (length hs) then ok (hs, books) else others
