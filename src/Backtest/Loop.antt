-- ===== src/Backtest/Loop.antt =====
-- backend/src/stk/backtest/engine.py: `mark`, `signal` and the loop of `run_backtest`.
use stock_analyser.Prelude.{
  ℕ, suc, ◌+◌, ◌-◌, Bool, true, false, if◌then◌else◌, ltb, ◌==◌, Option, none, some, List, [], ◌∷◌,
  length, take, keep, sort_by, map, Result, ok, ◌>>=◌, ◌>>◌, raise_if,
}
use stock_analyser.Decimal.{Decimal, zero_d, of_nat, ◌+d◌, ◌*d◌, ltd, eqd, quotient}
use stock_analyser.Backtest.{
  Bar, Signal, Config, end_of_window, Holding, Stats, Books, Run, EngineError, look_ahead_error,
  too_few_dates, recast,
}
use stock_analyser.Backtest.Amounts.{bar_of, return_of}
use stock_analyser.Backtest.Sales.{exits, sell_holding}
use stock_analyser.Backtest.Entries.{entries}
use stock_analyser.Backtest.View.{bars_until, trading_dates}

-- `self.last_close[sym] = close` for the rows of the day
abbrev pub mark_closes : List Bar → List (ℕ × Decimal) → List (ℕ × Decimal)
mark_closes [] closes = closes
mark_closes (r ∷ rs) closes = mark_closes rs ((r.symbol, r.closing) ∷ closes)

-- `self.last_close.get(sym, default)`
unfoldable pub close_or : List (ℕ × Decimal) → ℕ → Decimal → Decimal
close_or [] sym default = default
close_or ((s, c) ∷ rest) sym default =
    let later = close_or rest sym default in if s == sym then c else later

abbrev pub adv_of : Option Bar → Option Decimal
adv_of none = none
adv_of (some row) = row.adv_turnover

-- The liquidation on the last date.
unfoldable pub liquidate :
    Config → List Bar → List (ℕ × Decimal) → ℕ → ℕ → List Holding → Books → Result EngineError Books
unfolding bar_of close_or sell_holding
liquidate cfg today closes d idx [] books = ok books
liquidate cfg today closes d idx (h ∷ hs) books = do
  (h', books') ←
      sell_holding cfg h h.qty (close_or closes h.symbol h.entry_price)
        (adv_of (bar_of today h.symbol)) d idx end_of_window books
  liquidate cfg today closes d idx hs books'

unfoldable pub invested_in : List (ℕ × Decimal) → List Holding → Decimal
unfolding close_or ◌+d◌ ◌*d◌
invested_in closes [] = zero_d
invested_in closes (h ∷ hs) =
    of_nat h.qty *d close_or closes h.symbol h.entry_price +d invested_in closes hs

abbrev pub close_out :
    Bool
    → Config
    → List Bar
    → List (ℕ × Decimal)
    → ℕ
    → ℕ
    → List Holding
    → Books
    → Result EngineError (List Holding × Books)
close_out false cfg today closes d idx hs books = ok (hs, books)
close_out true cfg today closes d idx hs books = do
  books' ← liquidate cfg today closes d idx hs books
  ok ([], books')

-- `mark`
unfoldable pub mark : Config → List Bar → ℕ → ℕ → Bool → Run → Result EngineError Run
unfolding liquidate invested_in eqd quotient
mark cfg today d idx is_last run = do
  let closes = mark_closes today run.last_close
  (hs, books) ← close_out is_last cfg today closes d idx run.positions run.books
  let invested = invested_in closes hs
  let equity = books.cash +d invested
  ok (record run {
    books = books;
    positions = hs;
    last_close = closes;
    equity_curve = equity ∷ run.equity_curve;
    exposure = return_of invested equity ∷ run.exposure;
    equity_prev = equity;
  })

-- `sorted(sigs, key=lambda s: s.score, reverse=True)[: self.max_pos]`
abbrev pub better : Signal → Signal → Bool
better a b = ltd b.score a.score

-- The strategy is given: what it answers from the bars that it may see, the date and the symbols
-- held. Its other accessors read the same bars.
abbrev pub Strategy : Type 0
Strategy = List Bar → ℕ → List ℕ → List Signal

abbrev pub held_symbols : List Holding → List ℕ
held_symbols hs = map (λ (h : Holding). h.symbol) hs

-- `signal`
unfoldable pub signal : Config → Strategy → List Bar → ℕ → Run → Result EngineError Run
unfolding bars_until ltd
signal cfg strategy bars d run = do
  visible ← recast look_ahead_error (bars_until bars d)
  let sigs = strategy visible d (held_symbols run.positions)
  ok (record run {
    books = record run.books {
      stats = record run.books.stats { signals = run.books.stats.signals + length sigs };
    };
    pending = take cfg.max_pos (sort_by better sigs);
  })

-- `bars_by_date.get(d, {})`
abbrev pub rows_on : List Bar → ℕ → List Bar
rows_on bars d = keep (λ (r : Bar). r.date == d) bars

-- The body of the loop for one date.
unfoldable pub run_day : Config → Strategy → List Bar → Bool → ℕ → ℕ → Run → Result EngineError Run
unfolding exits entries mark signal
run_day cfg strategy bars is_last idx d run = do
  let today = rows_on bars d
  (hs, books) ← exits cfg today d idx run.positions (record run.books { dp_done = [] })
  (hs', books') ← entries cfg run.equity_prev today d idx run.pending hs books
  marked ←
      mark cfg today d idx is_last (record run { books = books'; positions = hs'; pending = [] })
  if is_last then ok marked else signal cfg strategy bars d marked

-- The loop from the index `idx`; `last` is the index of the last date.
unfoldable pub run_days :
    Config → Strategy → List Bar → ℕ → ℕ → List ℕ → Run → Result EngineError Run
unfolding run_day
run_days cfg strategy bars last idx [] run = ok run
run_days cfg strategy bars last idx (d ∷ ds) run = do
  run' ← run_day cfg strategy bars (idx == last) idx d run
  run_days cfg strategy bars last (suc idx) ds run'

abbrev pub no_stats : Stats
no_stats = record {
  signals = 0;
  entries = 0;
  entry_blocked_upper_lock = 0;
  entry_no_bar = 0;
  entry_no_cash = 0;
  entry_partial_cap = 0;
  exit_blocked_lower_lock = 0;
  exit_deferred_cap = 0;
}

-- `_Run.__init__`
abbrev pub new_run : Config → Run
new_run cfg = record {
  books = record { cash = cfg.initial_capital; trades = []; stats = no_stats; dp_done = [] };
  equity_prev = cfg.initial_capital;
  positions = [];
  pending = [];
  last_close = [];
  equity_curve = [];
  exposure = [];
}

-- `run_backtest` up to the metrics, on the bars of the market data.
unfoldable pub run_backtest : Config → Strategy → List Bar → ℕ → ℕ → Result EngineError Run
unfolding trading_dates run_days
run_backtest cfg strategy bars start stop = do
  let dates = trading_dates bars start stop
  raise_if (ltb (length dates) 2) too_few_dates
  run_days cfg strategy bars (length dates - 1) 0 dates (new_run cfg)
