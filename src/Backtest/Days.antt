-- ===== src/Backtest/Days.antt =====
-- The positions over the days of a run in backend/src/stk/backtest/engine.py.
use stock_analyser.Prelude.{
  ℕ, suc, ◌≡◌, subst, Bool, true, false, if◌then◌else◌, ◌==◌, List, [], ◌∷◌, arith, ok, >>=-eq-ok,
  ok-injective,
}
use stock_analyser.Decimal.{Decimal}
use stock_analyser.Backtest.{Bar, Config, Holding, Books, Run, recast, look_ahead_error}
use stock_analyser.Backtest.View.{bars_until}
use stock_analyser.Backtest.Sales.{exits}
use stock_analyser.Backtest.Entries.{entries}
use stock_analyser.Backtest.Loop.{
  Strategy, rows_on, mark_closes, liquidate, close_out, mark, signal, run_day, run_days,
}
use stock_analyser.Backtest.Capacity.{IsBook, exits-IsBook}
use stock_analyser.Backtest.Filling.{entries_within_limits}

close_out-IsBook :
    (is_last : Bool) (cfg : Config) (today : List Bar) (closes : List (ℕ × Decimal)) (d idx : ℕ)
    (hs : List Holding) (books : Books) (hs' : List Holding) (books' : Books)
    → IsBook cfg hs
    → close_out is_last cfg today closes d idx hs books ≡ ok (hs', books')
    → IsBook cfg hs'
close_out-IsBook false cfg today closes d idx hs books hs' books' inv e =
    subst (λ (x : List Holding × Books). IsBook cfg x.0) (ok-injective _ _ e) inv
close_out-IsBook true cfg today closes d idx hs books hs' books' inv e =
    let (b, e1, t) = >>=-eq-ok (liquidate cfg today closes d idx hs books) _ e in
    subst (λ (x : List Holding × Books). IsBook cfg x.0) (ok-injective _ _ t)
      (record { few = omega arith; distinct = tt; held = tt })

after_mark :
    (cfg : Config) (strategy : Strategy) (bars : List Bar) (is_last : Bool) (d : ℕ)
    (marked run' : Run)
    → IsBook cfg marked.positions
    → (if is_last then ok marked else signal cfg strategy bars d marked) ≡ ok run'
    → IsBook cfg run'.positions
unfolding signal
after_mark cfg strategy bars true d marked run' inv e =
    subst (λ r. IsBook cfg r.positions) (ok-injective _ _ e) inv
after_mark cfg strategy bars false d marked run' inv e =
    let (visible, e1, t) = >>=-eq-ok (recast look_ahead_error (bars_until bars d)) _ e in
    subst (λ r. IsBook cfg r.positions) (ok-injective _ _ t) inv

run_day-IsBook :
    (cfg : Config) (strategy : Strategy) (bars : List Bar) (is_last : Bool) (idx d : ℕ)
    (run run' : Run)
    → IsBook cfg run.positions
    → run_day cfg strategy bars is_last idx d run ≡ ok run'
    → IsBook cfg run'.positions
unfolding run_day mark
run_day-IsBook cfg strategy bars is_last idx d run run' inv e =
    let today = rows_on bars d in
    let fresh : Books = record run.books { dp_done = [] } in
    let ((hs, books), e1, t1) = >>=-eq-ok (exits cfg today d idx run.positions fresh) _ e in
    let ((ks, b), e2, t2) =
      >>=-eq-ok (entries cfg run.equity_prev today d idx run.pending hs books) _ t1 in
    let (marked, e3, t3) =
      >>=-eq-ok
        (mark cfg today d idx is_last (record run { books = b; positions = ks; pending = [] })) _
        t2 in
    let ((ms, c), e4, t4) =
      >>=-eq-ok (close_out is_last cfg today (mark_closes today run.last_close) d idx ks b) _ e3 in
    let entered =
      entries_within_limits cfg run.equity_prev today d idx run.pending hs books ks b
        (exits-IsBook cfg today d idx run.positions fresh hs books inv e1) e2 in
    let closed =
      close_out-IsBook is_last cfg today (mark_closes today run.last_close) d idx ks b ms c
        entered.0 e4 in
    after_mark cfg strategy bars is_last d marked run'
      (subst (λ r. IsBook cfg r.positions) (ok-injective _ _ t4) closed) t3

-- On every day of a run, whatever the strategy asks for, at most `max_pos` positions are held, no
-- two of one symbol, each of at least one share.
pub run_days_within_limits :
    (cfg : Config) (strategy : Strategy) (bars : List Bar) (last idx : ℕ) (dates : List ℕ)
    (run run' : Run)
    → IsBook cfg run.positions
    → run_days cfg strategy bars last idx dates run ≡ ok run'
    → IsBook cfg run'.positions
unfolding run_days
run_days_within_limits cfg strategy bars last idx [] run run' inv e =
    subst (λ r. IsBook cfg r.positions) (ok-injective _ _ e) inv
run_days_within_limits cfg strategy bars last idx (d ∷ ds) run run' inv e =
    let (r, e1, t) = >>=-eq-ok (run_day cfg strategy bars (idx == last) idx d run) _ e in
    run_days_within_limits cfg strategy bars last (suc idx) ds r run'
      (run_day-IsBook cfg strategy bars (idx == last) idx d run r inv e1) t
