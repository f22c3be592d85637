-- ===== src/Backtest/Buying.antt =====
-- The entries of a day and the liquidation in backend/src/stk/backtest/engine.py keep the books in
-- balance.
use stock_analyser.Prelude.{
  ℕ, zero, suc, ◌≡◌, refl, subst, inl, inr, Bool, true, false, leb, Option, List, [], ◌∷◌,
  All-append, arith, pos, ltb_ℤ, length, Bool-cases, Option-cases, Result, ok, >>=-eq-ok,
  ok-injective,
}
use stock_analyser.Decimal.{Decimal, zero_d, of_nat, ◌+d◌, ◌-d◌, ◌*d◌}
use stock_analyser.Decimal.Sums.{spend}
use stock_analyser.Decimal.Same.{
  Alike, same, same_refl, same_sym, ◌⨾◌, same_add, same_assoc, same_zero,
}
use stock_analyser.Slippage.{apply_slippage}
use stock_analyser.Costs.{buy, compute_costs, total}
use stock_analyser.Fills.{can_buy}
use stock_analyser.Backtest.{
  Bar, Config, Signal, Holding, Books, EngineError, recast, cost_error, end_of_window,
}
use stock_analyser.Backtest.Amounts.{bar_of, bar_lock, slip_bps, leg_costs}
use stock_analyser.Backtest.Paise.{IsPaise, of_money-IsPaise}
use stock_analyser.Backtest.Sales.{sell_holding}
use stock_analyser.Backtest.Entries.{
  shrink, wanted_qty, open_sized, buy_signal, enter_one, entries, is_held, opened, count_partial,
  count_no_bar, count_entry_blocked,
}
use stock_analyser.Backtest.Sizing.{shrink_largest}
use stock_analyser.Backtest.Loop.{liquidate, close_or, adv_of}
use stock_analyser.Backtest.Accounting.{cost_one, at_cost, principal, profit, sell_holding-IsSale}
use stock_analyser.Backtest.Balance.{AllPaise, IsBalanced, moved, at_cost-append}

-- A buy: the cash goes down by what the position costs.
open_sized-IsBalanced :
    (sig : Signal) (n : ℕ) (px costs : Decimal) (d idx : ℕ) (hs : List Holding) (books : Books)
    → AllPaise hs
    → IsPaise costs
    → (let r = open_sized sig n px costs d idx hs books in
        IsBalanced (principal books +d at_cost hs) r.0 r.1)
unfolding open_sized principal at_cost cost_one
open_sized-IsBalanced sig zero px costs d idx hs books ps p = record {
  paise = ps;
  kept_sum = same_refl;
}
open_sized-IsBalanced sig (suc n) px costs d idx hs books ps p =
    let outlay = px *d of_nat (suc n) +d costs in
    record {
      paise = All-append _ hs (opened sig (suc n) px costs d idx ∷ []) ps (p, tt);
      kept_sum =
          same_add (same_refl {a = (books.cash -d outlay) -d profit books.trades}) (
            at_cost-append hs (opened sig (suc n) px costs d idx ∷ [])
            ⨾ same_add (same_refl {a = at_cost hs}) (same_zero outlay))
          ⨾ same (spend books.cash outlay (profit books.trades) (at_cost hs));
    }

shrink-IsPaise :
    (cfg : Config) (cash px : Decimal) (d n qty : ℕ) (costs : Decimal)
    → shrink cfg cash px d n ≡ ok (qty, costs)
    → IsPaise costs
unfolding leg_costs
shrink-IsPaise cfg cash px d n qty costs h =
    let (_, e, _, _) = shrink_largest cfg cash px d n qty costs h in
    let (breakdown, e1, t) =
      >>=-eq-ok
        (recast cost_error (compute_costs buy cfg.product (px *d of_nat qty) (cfg.rates_for d))) _
        e in
    subst IsPaise (ok-injective _ _ t) (of_money-IsPaise (total breakdown))

-- Nothing is bought.
same_books :
    (hs hs' : List Holding) (books counted books' : Books)
    → principal counted ≡ principal books
    → AllPaise hs
    → (let run : Result EngineError (List Holding × Books) = ok (hs, counted) in
        run ≡ ok (hs', books'))
    → IsBalanced (principal books +d at_cost hs) hs' books'
same_books hs hs' books counted books' same_sum ps e =
    moved hs hs' counted books' e (record { paise = ps; kept_sum = rw same_sum same_refl })

count_partial-principal :
    (b : Bool) (books : Books) → principal (count_partial b books) ≡ principal books
unfolding principal
count_partial-principal true books = refl
count_partial-principal false books = refl

buy_signal-IsBalanced :
    (cfg : Config) (equity_prev : Decimal) (row : Bar) (sig : Signal) (d idx : ℕ)
    (hs : List Holding) (books : Books) (hs' : List Holding) (books' : Books)
    → AllPaise hs
    → buy_signal cfg equity_prev row sig d idx hs books ≡ ok (hs', books')
    → IsBalanced (principal books +d at_cost hs) hs' books'
unfolding buy_signal
buy_signal-IsBalanced cfg equity_prev row sig d idx hs books hs' books' ps e =
    let (bps, e1, t1) = >>=-eq-ok (slip_bps cfg row.adv_turnover) _ e in
    let px : Decimal = apply_slippage row.opening buy bps in
    let ((qty, capped), e2, t2) = >>=-eq-ok (wanted_qty cfg equity_prev books.cash px row) _ t1 in
    let ((n, costs), e3, t3) = >>=-eq-ok (shrink cfg books.cash px d capped) _ t2 in
    let b = count_partial (ltb_ℤ (pos capped) qty) books in
    let balanced =
      open_sized-IsBalanced sig n px costs d idx hs b ps
        (shrink-IsPaise cfg books.cash px d capped n costs e3) in
    moved _ _ _ _ t3 (rw (count_partial-principal (ltb_ℤ (pos capped) qty) books) at balanced)

enter_one-IsBalanced :
    (cfg : Config) (equity_prev : Decimal) (today : List Bar) (sig : Signal) (d idx : ℕ)
    (hs : List Holding) (books : Books) (hs' : List Holding) (books' : Books)
    → AllPaise hs
    → enter_one cfg equity_prev today sig d idx hs books ≡ ok (hs', books')
    → IsBalanced (principal books +d at_cost hs) hs' books'
unfolding enter_one principal
enter_one-IsBalanced cfg equity_prev today sig d idx hs books hs' books' ps e =
    elim (Bool-cases (is_held hs sig.symbol)) [
      | inl q ↦ same_books hs hs' books books books' refl ps (rw q at e)
      | inr q ↦ elim (Option-cases (bar_of today sig.symbol)) [
        | inl r ↦ same_books hs hs' books (count_no_bar books) books' refl ps (rw (q, r) at e)
        | inr (row, r) ↦ elim (Bool-cases (can_buy (bar_lock cfg row))) [
          | inl b ↦
              buy_signal-IsBalanced cfg equity_prev row sig d idx hs books hs' books' ps
                (rw (q, r, b) at e)
          | inr b ↦
              same_books hs hs' books (count_entry_blocked books) books' refl ps (rw (q, r, b) at e)
        ]
      ]
    ]

-- The entries of a day.
pub entries-IsBalanced :
    (cfg : Config) (equity_prev : Decimal) (today : List Bar) (d idx : ℕ) (sigs : List Signal)
    (hs : List Holding) (books : Books) (hs' : List Holding) (books' : Books)
    → AllPaise hs
    → entries cfg equity_prev today d idx sigs hs books ≡ ok (hs', books')
    → IsBalanced (principal books +d at_cost hs) hs' books'
unfolding entries
entries-IsBalanced cfg equity_prev today d idx [] hs books hs' books' ps e =
    same_books hs hs' books books books' refl ps e
entries-IsBalanced cfg equity_prev today d idx (sig ∷ sigs) hs books hs' books' ps e =
    elim (Bool-cases (leb cfg.max_pos (length hs))) [
      | inl q ↦ same_books hs hs' books books books' refl ps (rw q at e)
      | inr q ↦
          let ((ks, b), e1, t) =
            >>=-eq-ok (enter_one cfg equity_prev today sig d idx hs books) _ (rw q at e) in
          let first = enter_one-IsBalanced cfg equity_prev today sig d idx hs books ks b ps e1 in
          let rest =
            entries-IsBalanced cfg equity_prev today d idx sigs ks b hs' books' first.paise t in
          record { paise = rest.paise; kept_sum = rest.kept_sum ⨾ first.kept_sum }
    ]

-- The liquidation: the principal is what it was with the cost of all positions.
pub liquidate-Alike :
    (cfg : Config) (today : List Bar) (closes : List (ℕ × Decimal)) (d idx : ℕ) (hs : List Holding)
    (books books' : Books)
    → AllPaise hs
    → liquidate cfg today closes d idx hs books ≡ ok books'
    → Alike (principal books') (principal books +d at_cost hs)
unfolding liquidate at_cost
liquidate-Alike cfg today closes d idx [] books books' ps e =
    subst (λ b. Alike (principal b) (principal books +d zero_d)) (ok-injective _ _ e)
      (same_sym (same_zero (principal books)))
liquidate-Alike cfg today closes d idx (h ∷ hs) books books' (p, ps) e =
    let price : Decimal = close_or closes h.symbol h.entry_price in
    let adv : Option Decimal = adv_of (bar_of today h.symbol) in
    let ((h', b), e1, t) =
      >>=-eq-ok (sell_holding cfg h h.qty price adv d idx end_of_window books) _ e in
    let sale =
      sell_holding-IsSale cfg h h.qty price adv d idx end_of_window books h' b (omega arith) e1 in
    let sold : Alike (principal b) (principal books +d cost_one h) =
      same_sym (same_zero (principal b))
      ⨾ same_add same_refl (same_sym (sale.all_sold refl p))
      ⨾ sale.kept_sum in
    liquidate-Alike cfg today closes d idx hs b books' ps t
    ⨾ same_add sold (same_refl {a = at_cost hs})
    ⨾ same_assoc (principal books) (cost_one h) (at_cost hs)
