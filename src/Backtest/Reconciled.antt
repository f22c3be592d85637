-- ===== src/Backtest/Reconciled.antt =====
-- A whole run of backend/src/stk/backtest/engine.py: the final cash is the capital and the profit.
use stock_analyser.Prelude.{
  ℕ, suc, ◌+◌, ◌-◌, ◌≡◌, refl, subst, ◌∙◌, Bool, true, false, if◌then◌else◌, ◌==◌, ==_iff, ltb,
  List, [], ◌∷◌, arith, length, ok, ◌>>◌, raise_if, >>=-eq-ok, ok-injective,
}
use stock_analyser.Decimal.{Decimal, zero_d, ◌+d◌, ◌-d◌, ◌≈d◌}
use stock_analyser.Decimal.Field.{sub-add}
use stock_analyser.Decimal.Same.{Alike, same, same_refl, same_sym, ◌⨾◌, same_add, same_zero}
use stock_analyser.Backtest.{
  Bar, Config, Holding, Books, Run, recast, look_ahead_error, too_few_dates,
}
use stock_analyser.Backtest.Sales.{exits}
use stock_analyser.Backtest.Entries.{entries}
use stock_analyser.Backtest.View.{bars_until, trading_dates}
use stock_analyser.Backtest.Loop.{
  Strategy, rows_on, mark_closes, liquidate, close_out, mark, signal, run_day, run_days,
  run_backtest, new_run,
}
use stock_analyser.Backtest.Accounting.{at_cost, principal, profit}
use stock_analyser.Backtest.Balance.{IsBalanced, exits-IsBalanced}
use stock_analyser.Backtest.Buying.{entries-IsBalanced, liquidate-Alike}

-- A run in balance with `base`.
abbrev IsRunBalanced : Decimal → Run → Type 0
IsRunBalanced base run = IsBalanced base run.positions run.books

then_base :
    {before base : Decimal} {hs : List Holding} {books : Books}
    → IsBalanced before hs books
    → Alike before base
    → IsBalanced base hs books
then_base h k = record { paise = h.paise; kept_sum = h.kept_sum ⨾ k }

close_out-IsBalanced :
    (is_last : Bool) (cfg : Config) (today : List Bar) (closes : List (ℕ × Decimal)) (d idx : ℕ)
    (hs : List Holding) (books : Books) (hs' : List Holding) (books' : Books) (base : Decimal)
    → IsBalanced base hs books
    → close_out is_last cfg today closes d idx hs books ≡ ok (hs', books')
    → IsBalanced base hs' books' × (is_last ≡ true → hs' ≡ [])
unfolding at_cost
close_out-IsBalanced false cfg today closes d idx hs books hs' books' base h e = (
  subst (λ (r : List Holding × Books). IsBalanced base r.0 r.1) (ok-injective _ _ e) h,
  λ bad. cc,
)
close_out-IsBalanced true cfg today closes d idx hs books hs' books' base h e =
    let (b, e1, t) = >>=-eq-ok (liquidate cfg today closes d idx hs books) _ e in
    let sold = liquidate-Alike cfg today closes d idx hs books b h.paise e1 in
    subst (λ (r : List Holding × Books). IsBalanced base r.0 r.1 × (true ≡ true → r.0 ≡ []))
      (ok-injective _ _ t)
      (record { paise = tt; kept_sum = same_zero (principal b) ⨾ sold ⨾ h.kept_sum }, λ q. refl)

mark-IsBalanced :
    (cfg : Config) (today : List Bar) (d idx : ℕ) (is_last : Bool) (run run' : Run) (base : Decimal)
    → IsRunBalanced base run
    → mark cfg today d idx is_last run ≡ ok run'
    → IsRunBalanced base run'
      × (is_last ≡ true → run'.positions ≡ [])
      × (length run'.equity_curve ≡ suc (length run.equity_curve))
unfolding mark
mark-IsBalanced cfg today d idx is_last run run' base h e =
    let ((hs, books), e1, t) =
      >>=-eq-ok
        (close_out is_last cfg today (mark_closes today run.last_close) d idx run.positions
          run.books)
        _ e in
    let closed =
      close_out-IsBalanced is_last cfg today (mark_closes today run.last_close) d idx run.positions
        run.books hs books base h e1 in
    subst
      (λ r.
        IsRunBalanced base r
        × (is_last ≡ true → r.positions ≡ [])
        × (length r.equity_curve ≡ suc (length run.equity_curve)))
      (ok-injective _ _ t) (closed.0, closed.1, refl)

signal-IsBalanced :
    (cfg : Config) (strategy : Strategy) (bars : List Bar) (d : ℕ) (run run' : Run) (base : Decimal)
    → IsRunBalanced base run
    → signal cfg strategy bars d run ≡ ok run'
    → IsRunBalanced base run' × (length run'.equity_curve ≡ length run.equity_curve)
unfolding signal principal
signal-IsBalanced cfg strategy bars d run run' base h e =
    let (visible, e1, t) = >>=-eq-ok (recast look_ahead_error (bars_until bars d)) _ e in
    subst (λ r. IsRunBalanced base r × (length r.equity_curve ≡ length run.equity_curve))
      (ok-injective _ _ t) (record { paise = h.paise; kept_sum = h.kept_sum }, refl)

after_mark :
    (cfg : Config) (strategy : Strategy) (bars : List Bar) (is_last : Bool) (d n : ℕ)
    (marked run' : Run) (base : Decimal)
    → IsRunBalanced base marked
    → (is_last ≡ true → marked.positions ≡ [])
    → length marked.equity_curve ≡ suc n
    → (if is_last then ok marked else signal cfg strategy bars d marked) ≡ ok run'
    → IsRunBalanced base run'
      × (is_last ≡ true → run'.positions ≡ [])
      × (length run'.equity_curve ≡ suc n)
after_mark cfg strategy bars true d n marked run' base balanced flat grown e =
    subst
      (λ r.
        IsRunBalanced base r × (true ≡ true → r.positions ≡ []) × (length r.equity_curve ≡ suc n))
      (ok-injective _ _ e) (balanced, flat, grown)
after_mark cfg strategy bars false d n marked run' base balanced flat grown e =
    let (next, kept) = signal-IsBalanced cfg strategy bars d marked run' base balanced e in
    (next, λ bad. cc, kept ∙ grown)

run_day-IsBalanced :
    (cfg : Config) (strategy : Strategy) (bars : List Bar) (is_last : Bool) (idx d : ℕ)
    (run run' : Run) (base : Decimal)
    → IsRunBalanced base run
    → run_day cfg strategy bars is_last idx d run ≡ ok run'
    → IsRunBalanced base run'
      × (is_last ≡ true → run'.positions ≡ [])
      × (length run'.equity_curve ≡ suc (length run.equity_curve))
unfolding run_day principal
run_day-IsBalanced cfg strategy bars is_last idx d run run' base h e =
    let today = rows_on bars d in
    let fresh : Books = record run.books { dp_done = [] } in
    let ((hs, books), e1, t1) = >>=-eq-ok (exits cfg today d idx run.positions fresh) _ e in
    let ((ks, b), e2, t2) =
      >>=-eq-ok (entries cfg run.equity_prev today d idx run.pending hs books) _ t1 in
    let out = exits-IsBalanced cfg today d idx run.positions fresh hs books h.paise e1 in
    let entered =
      entries-IsBalanced cfg run.equity_prev today d idx run.pending hs books ks b out.paise e2 in
    let before = then_base entered (out.kept_sum ⨾ h.kept_sum) in
    let (marked, e3, t3) =
      >>=-eq-ok
        (mark cfg today d idx is_last (record run { books = b; positions = ks; pending = [] })) _
        t2 in
    let (balanced, flat, grown) =
      mark-IsBalanced cfg today d idx is_last
        (record run { books = b; positions = ks; pending = [] }) marked base before e3 in
    after_mark cfg strategy bars is_last d (length run.equity_curve) marked run' base balanced flat
      grown t3

run_days-IsBalanced :
    (cfg : Config) (strategy : Strategy) (bars : List Bar) (last idx : ℕ) (d : ℕ) (ds : List ℕ)
    (run run' : Run) (base : Decimal)
    → idx + length ds ≡ last
    → IsRunBalanced base run
    → run_days cfg strategy bars last idx (d ∷ ds) run ≡ ok run'
    → IsRunBalanced base run'
      × (run'.positions ≡ [])
      × (length run'.equity_curve ≡ length run.equity_curve + suc (length ds))
unfolding run_days
run_days-IsBalanced cfg strategy bars last idx d [] run run' base n h e =
    let (r, e1, t) = >>=-eq-ok (run_day cfg strategy bars (idx == last) idx d run) _ e in
    let (balanced, flat, grown) =
      run_day-IsBalanced cfg strategy bars (idx == last) idx d run r base h e1 in
    subst
      (λ x.
        IsRunBalanced base x
        × (x.positions ≡ [])
        × (length x.equity_curve ≡ length run.equity_curve + 1))
      (ok-injective _ _ t) (balanced, flat ((==_iff idx last).1 (omega arith)), omega arith)
run_days-IsBalanced cfg strategy bars last idx d (d' ∷ ds) run run' base n h e =
    let (r, e1, t) = >>=-eq-ok (run_day cfg strategy bars (idx == last) idx d run) _ e in
    let (balanced, flat, grown) =
      run_day-IsBalanced cfg strategy bars (idx == last) idx d run r base h e1 in
    let (final, closed, more) =
      run_days-IsBalanced cfg strategy bars last (suc idx) d' ds r run' base (omega arith) balanced
        t in
    (final, closed, omega arith)

last_index : (ds : List ℕ) → suc (length ds) - 1 ≡ length ds
last_index ds = omega arith

sub_zero : (a : Decimal) → Alike (a -d zero_d) a
unfolding ◌-d◌
sub_zero a = same (omega arith)

whole_run :
    (cfg : Config) (strategy : Strategy) (bars : List Bar) (dates : List ℕ) (run : Run)
    → (raise_if (ltb (length dates) 2) too_few_dates
        >> run_days cfg strategy bars (length dates - 1) 0 dates (new_run cfg))
      ≡ ok run
    → (run.positions ≡ [])
      × (run.books.cash ≈d cfg.initial_capital +d profit run.books.trades)
      × (length run.equity_curve ≡ length dates)
unfolding principal profit at_cost
whole_run cfg strategy bars [] run e = cc
whole_run cfg strategy bars (d ∷ ds) run e =
    let (_, _, t) = >>=-eq-ok (raise_if (ltb (suc (length ds)) 2) too_few_dates) _ e in
    let start : Decimal = (cfg.initial_capital -d zero_d) +d zero_d in
    let (balanced, flat, grown) =
      run_days-IsBalanced cfg strategy bars (length ds) 0 d ds (new_run cfg) run start (omega arith)
        (record { paise = tt; kept_sum = same_refl }) (rw (last_index ds) at t) in
    let books = run.books in
    let closed : Alike (principal books +d zero_d) start =
      subst (λ hs. Alike (principal books +d at_cost hs) start) flat balanced.kept_sum in
    (
      flat,
      (same_sym (same (sub-add books.cash (profit books.trades)))
          ⨾ same_add (same_sym (same_zero _) ⨾ closed ⨾ same_zero _ ⨾ sub_zero cfg.initial_capital)
              (same_refl {a = profit books.trades})).eq,
      omega (arith, grown),
    )

-- A run that returns has one point of equity for each of its dates, holds nothing at the end, and
-- its cash is the initial capital and the net profit of all its trades, to the paisa: no charge, no
-- share of an entry's charges and no rounding is lost or counted twice, whatever the strategy does.
pub run_backtest_reconciles :
    (cfg : Config) (strategy : Strategy) (bars : List Bar) (start stop : ℕ) (run : Run)
    → run_backtest cfg strategy bars start stop ≡ ok run
    → (run.positions ≡ [])
      × (run.books.cash ≈d cfg.initial_capital +d profit run.books.trades)
      × (length run.equity_curve ≡ length (trading_dates bars start stop))
unfolding run_backtest
run_backtest_reconciles cfg strategy bars start stop run e =
    whole_run cfg strategy bars (trading_dates bars start stop) run e
