-- ===== src/Playground/Passes/Sessions.antt =====
-- `intraday_pass` and `eod_pass` of backend/src/stk/playground/passes.py.
use stock_analyser.Prelude.{
  ℕ, ◌+◌, ◌*◌, Bool, if◌then◌else◌, ltb, Option, none, some, List, [], ◌∷◌, map, keep, contains,
  sort_by, is_some, Result, ok, ◌>>=◌,
}
use stock_analyser.Decimal.{Decimal}
use stock_analyser.Orders.{Candle}
use stock_analyser.Playground.Store.{Db, OrderRow}
use stock_analyser.Playground.Fill.{PlayCtx}
use stock_analyser.Playground.Passes.{
  PassResult, no_fills, PassError, move_error, raised, active_orders, session_open, session_close,
  lock_of, evaluate,
}
use stock_analyser.Playground.Passes.Parking.{restore_open, expire_market_orders}

pub record IntradayCandle : Type 0 where
  pub start : ℕ
  pub opening : Decimal
  pub high : Decimal
  pub low : Decimal
  pub closing : Decimal
  pub volume : ℕ

-- `sorted(cs, key=lambda c: c.start)`
abbrev pub earlier : IntradayCandle → IntradayCandle → Bool
earlier a b = ltb a.start b.start

abbrev pub candle_of : IntradayCandle → ℕ → Candle
candle_of ic finish = record {
  start = ic.start;
  opening = ic.opening;
  high = ic.high;
  low = ic.low;
  closing = ic.closing;
  volume = ic.volume;
  finish = some finish;
}

-- The loop over one symbol's sorted candles; it stops at the first one without waiting orders.
unfoldable pub run_candles :
    List IntradayCandle
    → ℕ
    → ℕ
    → Option Decimal
    → Option Decimal
    → PlayCtx
    → ℕ
    → Db
    → PassResult
    → Result PassError (PassResult × Db)
run_candles [] symbol minutes prev_close adv ctx now db result = ok (result, db)
run_candles (ic ∷ cs) symbol minutes prev_close adv ctx now db result =
    elim (active_orders db (some symbol)) [
      | [] ↦ ok (result, db)
      | r ∷ rs ↦
          let finish = ic.start + minutes * 60 in
          let candle = candle_of ic finish in
          evaluate db ctx (r ∷ rs) candle (lock_of ctx candle prev_close) finish adv now result
          >>= λ next. run_candles cs symbol minutes prev_close adv ctx now next.1 next.0
    ]

-- The loop over `candles.items()`. `prev_close` and `adv` are the dictionaries' `get`.
unfoldable pub run_symbols :
    List (ℕ × List IntradayCandle)
    → ℕ
    → (ℕ → Option Decimal)
    → (ℕ → Option Decimal)
    → PlayCtx
    → ℕ
    → Db
    → PassResult
    → Result PassError (PassResult × Db)
unfolding run_candles
run_symbols [] minutes prev_close adv ctx now db result = ok (result, db)
run_symbols ((symbol, cs) ∷ rest) minutes prev_close adv ctx now db result = do
  next ←
      run_candles (sort_by earlier cs) symbol minutes (prev_close symbol) (adv symbol) ctx now db
        result
  run_symbols rest minutes prev_close adv ctx now next.1 next.0

unfoldable pub intraday_pass :
    Db
    → PlayCtx
    → List (ℕ × List IntradayCandle)
    → ℕ
    → (ℕ → Option Decimal)
    → (ℕ → Option Decimal)
    → ℕ
    → Result PassError (PassResult × Db)
unfolding run_symbols
intraday_pass db ctx candles candle_minutes prev_close adv now = do
  next ← run_symbols candles candle_minutes prev_close adv ctx now db no_fills
  db' ← raised move_error (restore_open next.1 (map (λ (c : ℕ × List IntradayCandle). c.0) candles))
  ok (next.0, db')

-- A row of `bars_on_day`.
pub record DayBar : Type 0 where
  pub opening : Decimal
  pub high : Decimal
  pub low : Decimal
  pub closing : Decimal
  pub prev_close : Option Decimal

-- `sorted({...})`
abbrev pub distinct : List ℕ → List ℕ
distinct [] = []
distinct (s ∷ ss) = let rest = distinct ss in if contains s rest then rest else s ∷ rest

abbrev pub day_candle : ℕ → DayBar → Candle
day_candle day bar = record {
  start = session_open day;
  opening = bar.opening;
  high = bar.high;
  low = bar.low;
  closing = bar.closing;
  volume = 0;
  finish = some (session_close day);
}

-- The loop of `eod_pass`. `bars` and `adv` are the dictionaries' `get`.
unfoldable pub run_bars :
    List ℕ
    → ℕ
    → (ℕ → Option DayBar)
    → (ℕ → Option Decimal)
    → PlayCtx
    → ℕ
    → Db
    → PassResult
    → Result PassError (PassResult × Db)
run_bars [] day bars adv ctx now db result = ok (result, db)
run_bars (symbol ∷ rest) day bars adv ctx now db result = elim (bars symbol) [
  | none ↦ run_bars rest day bars adv ctx now db result
  | some bar ↦
      let candle = day_candle day bar in
      evaluate db ctx (active_orders db (some symbol)) candle (lock_of ctx candle bar.prev_close)
        (session_close day) (adv symbol) now result
      >>= λ next. run_bars rest day bars adv ctx now next.1 next.0
]

unfoldable pub eod_pass :
    Db
    → PlayCtx
    → ℕ
    → (ℕ → Option DayBar)
    → (ℕ → Option Decimal)
    → ℕ
    → Result PassError (PassResult × Db)
unfolding run_bars
eod_pass db ctx day bars adv now = do
  let symbols =
      sort_by ltb (distinct (map (λ (r : OrderRow). r.listing.symbol) (active_orders db none)))
  let covered = keep (λ s. is_some (bars s)) symbols
  next ← run_bars symbols day bars adv ctx now db no_fills
  restored ← raised move_error (restore_open next.1 covered)
  db' ← raised move_error (expire_market_orders restored covered (session_close day) now)
  ok (next.0, db')
