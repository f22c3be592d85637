-- ===== src/Backtest/Lookahead.antt =====
-- A run of backend/src/stk/backtest/engine.py does not look ahead.
use stock_analyser.Prelude.{
  ℕ, suc, ◌≤◌, ◌≡◌, refl, ap, ◌∙◌, sym, bind_same, Bool, true, false, ◌==◌, List, [], ◌∷◌, arith,
  All, Result, ok, ◌>>=◌,
}
use stock_analyser.Backtest.{Bar, Config, Run, EngineError}
use stock_analyser.Backtest.View.{market_data, bars_until}
use stock_analyser.Backtest.Visible.{
  until, on_date, IsSorted, market_data-IsSorted, bars_until-sorted,
}
use stock_analyser.Backtest.Sales.{exits}
use stock_analyser.Backtest.Entries.{entries}
use stock_analyser.Backtest.Loop.{Strategy, rows_on, mark, signal, run_day, run_days}

on_date-until : (d c : ℕ) (rows : List Bar) → d ≤ c → on_date d rows ≡ on_date d (until c rows)
on_date-until d c [] h = refl
on_date-until d c (r ∷ rs) h = ground (arith, on_date-until d c rs)

until-until : (d c : ℕ) (rows : List Bar) → d ≤ c → until d rows ≡ until d (until c rows)
until-until d c [] h = refl
until-until d c (r ∷ rs) h = ground (arith, until-until d c rs)

-- The same step, with equal continuations.
after_step :
    {A B : Type 0} (step : Result EngineError A) (f g : A → Result EngineError B)
    → ((a : A) → f a ≡ g a)
    → (step >>= f) ≡ (step >>= g)
after_step step f g h = bind_same step step f g refl h

module _ (cfg : Config) (strategy : Strategy) (c : ℕ) (bars bars' : List Bar)
    (sorted : IsSorted bars) (sorted' : IsSorted bars') (same : until c bars ≡ until c bars') where
  rows-same : (d : ℕ) → d ≤ c → rows_on bars d ≡ rows_on bars' d
  rows-same d h = on_date-until d c bars h ∙ ap (on_date d) same ∙ sym (on_date-until d c bars' h)

  view-same : (d : ℕ) → d ≤ c → bars_until bars d ≡ bars_until bars' d
  view-same d h =
      bars_until-sorted bars d sorted
      ∙ ap ok (until-until d c bars h ∙ ap (until d) same ∙ sym (until-until d c bars' h))
      ∙ sym (bars_until-sorted bars' d sorted')

  signal-same :
      (d : ℕ) (run : Run) → d ≤ c → signal cfg strategy bars d run ≡ signal cfg strategy bars' d run
  unfolding signal
  signal-same d run h = rw (view-same d h) refl

  run_day-same :
      (is_last : Bool) (idx d : ℕ) (run : Run)
      → d ≤ c
      → run_day cfg strategy bars is_last idx d run ≡ run_day cfg strategy bars' is_last idx d run
  unfolding run_day
  run_day-same true idx d run h = rw (rows-same d h) refl
  run_day-same false idx d run h = rw (rows-same d h) (
      after_step
        (exits cfg (rows_on bars' d) d idx run.positions (record run.books { dp_done = [] })) _ _
        (λ left.
          after_step (entries cfg run.equity_prev (rows_on bars' d) d idx run.pending left.0 left.1)
            _ _
            (λ entered.
              after_step
                (mark cfg (rows_on bars' d) d idx false
                  (record run { books = entered.1; positions = entered.0; pending = [] }))
                _ _ (λ marked. signal-same d marked h))))

  run_days-same :
      (last idx : ℕ) (dates : List ℕ) (run : Run)
      → All (λ d. d ≤ c) dates
      → run_days cfg strategy bars last idx dates run
        ≡ run_days cfg strategy bars' last idx dates run
  unfolding run_days
  run_days-same last idx [] run h = refl
  run_days-same last idx (d ∷ ds) run (h, hs) =
      bind_same _ _ _ _ (run_day-same (idx == last) idx d run h)
        (λ run'. run_days-same last (suc idx) ds run' hs)

-- No look-ahead: over dates up to `c` a run has the same trades, positions, pending signals and
-- equity on any two histories, in any order, that have the same bars dated at most `c`, whatever the
-- strategy does with what it is shown.
pub run_days_past :
    (cfg : Config) (strategy : Strategy) (c : ℕ) (bars bars' : List Bar) (last idx : ℕ)
    (dates : List ℕ) (run : Run)
    → until c (market_data bars) ≡ until c (market_data bars')
    → All (λ d. d ≤ c) dates
    → run_days cfg strategy (market_data bars) last idx dates run
      ≡ run_days cfg strategy (market_data bars') last idx dates run
run_days_past cfg strategy c bars bars' last idx dates run same h =
    run_days-same cfg strategy c (market_data bars) (market_data bars') (market_data-IsSorted bars)
      (market_data-IsSorted bars') same last idx dates run h
