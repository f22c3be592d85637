-- ===== src/Backtest/Entering.antt =====
-- The entries of backend/src/stk/backtest/engine.py come to a value.
use stock_analyser.Prelude.{
  ℕ, zero, suc, ◌≡◌, refl, ap, ◌∙◌, inl, inr, Option, none, some, List, [], ◌∷◌, Member, pos, leb,
  length, arith, Bool-cases, ok,
}
use stock_analyser.Decimal.{
  Decimal, zero_d, one_d, of_nat, ◌+d◌, ◌*d◌, ◌≤d◌, ◌<d◌, ltd, min_d, quotient,
}
use stock_analyser.Decimal.Order.{min_d-cases, ≤d_of_<d}
use stock_analyser.Decimal.Field.{mul_nonneg_d}
use stock_analyser.Costs.{buy}
use stock_analyser.Fills.{can_buy}
use stock_analyser.Slippage.{apply_slippage, cap_quantity}
use stock_analyser.Slippage.Fraction.{cap_quantity_largest}
use stock_analyser.Backtest.{Bar, Signal, Config, Holding, Books, recast, slippage_error}
use stock_analyser.Backtest.Amounts.{cost_buffer, bar_lock, bar_of}
use stock_analyser.Backtest.Entries.{
  shrink, wanted_qty, is_held, buy_signal, attempt_entry, enter_one, entries,
}
use stock_analyser.Backtest.Exiting.{bar_of-Member}
use stock_analyser.Backtest.Filling.{enter_one-IsRound}
use stock_analyser.Backtest.Priced.{
  IsConfig, Returns, go_on, positive_count, slip_bps-known, leg_costs-known, buy_price_positive,
  divide-known, quotient_nonneg, truncate_nonneg,
}

shrink-Returns :
    (cfg : Config) (cash px : Decimal) (d n : ℕ)
    → IsConfig cfg
    → zero_d ≤d px
    → Returns (shrink cfg cash px d n)
unfolding shrink
shrink-Returns cfg cash px d zero c h =
    let (costs, e) =
      leg_costs-known cfg buy (px *d of_nat 0) d c (mul_nonneg_d px (of_nat 0) h (omega arith)) in
    go_on _ _ e (_, refl)
shrink-Returns cfg cash px d (suc n) c h =
    let (costs, e) =
      leg_costs-known cfg buy (px *d of_nat (suc n)) d c
        (mul_nonneg_d px (of_nat (suc n)) h (omega arith)) in
    go_on _ _ e (elim (Bool-cases (ltd cash (px *d of_nat (suc n) +d costs))) [
      | inl q ↦ rw q (shrink-Returns cfg cash px d n c h)
      | inr q ↦ rw q (_, refl)
    ])

padded_positive : (px : Decimal) → zero_d <d px → zero_d <d px *d (one_d +d cost_buffer)
unfolding ◌*d◌ ◌+d◌
padded_positive px h = omega arith

min_d_nonneg : (a b : Decimal) → zero_d ≤d a → zero_d ≤d b → zero_d ≤d min_d a b
min_d_nonneg a b h k = elim (min_d-cases a b) [ inl e ↦ rw e h | inr e ↦ rw e k ]

wanted_qty-Returns :
    (cfg : Config) (equity_prev cash px : Decimal) (row : Bar)
    → IsConfig cfg
    → zero_d ≤d equity_prev
    → zero_d ≤d cash
    → zero_d <d px
    → Returns (wanted_qty cfg equity_prev cash px row)
unfolding wanted_qty
wanted_qty-Returns cfg equity_prev cash px row c rich paid priced =
    let slots = of_nat cfg.max_pos in
    let room : zero_d <d slots = positive_count cfg.max_pos c.roomy in
    let share = quotient equity_prev slots in
    let unit = px *d (one_d +d cost_buffer) in
    let some_price : zero_d <d unit = padded_positive px priced in
    let budget = min_d_nonneg share cash (quotient_nonneg equity_prev slots rich room) paid in
    let (n, whole) =
      truncate_nonneg (quotient (min_d share cash) unit)
        (quotient_nonneg (min_d share cash) unit budget some_price) in
    let (capped, e, _, _) =
      cap_quantity_largest n row.volume cfg.participation_cap c.cap_pos c.cap_whole in
    go_on _ _ (divide-known equity_prev slots room) (
      go_on _ _ (divide-known (min_d share cash) unit some_price) (
        go_on _ _
          (ap (λ q. recast slippage_error (cap_quantity q (pos row.volume) cfg.participation_cap))
              whole
            ∙ ap (λ r. recast slippage_error r) e)
          (_, refl)))

buy_signal-Returns :
    (cfg : Config) (equity_prev : Decimal) (row : Bar) (sig : Signal) (d idx : ℕ)
    (hs : List Holding) (books : Books)
    → IsConfig cfg
    → zero_d ≤d equity_prev
    → zero_d ≤d books.cash
    → zero_d <d row.opening
    → Returns (buy_signal cfg equity_prev row sig d idx hs books)
unfolding buy_signal
buy_signal-Returns cfg equity_prev row sig d idx hs books c rich paid priced =
    let (bps, e, low, _) = slip_bps-known cfg row.adv_turnover c in
    let px = apply_slippage row.opening buy bps in
    let positive : zero_d <d px = buy_price_positive row.opening bps priced low in
    let ((qty, capped), k) =
      wanted_qty-Returns cfg equity_prev books.cash px row c rich paid positive in
    let ((n, costs), s) =
      shrink-Returns cfg books.cash px d capped c (≤d_of_<d zero_d px positive) in
    go_on _ _ e (go_on _ _ k (go_on _ _ s (_, refl)))

attempt_entry-Returns :
    (cfg : Config) (equity_prev : Decimal) (row : Option Bar) (sig : Signal) (d idx : ℕ)
    (hs : List Holding) (books : Books)
    → IsConfig cfg
    → zero_d ≤d equity_prev
    → zero_d ≤d books.cash
    → ((r : Bar) → row ≡ some r → zero_d <d r.opening)
    → Returns (attempt_entry cfg equity_prev row sig d idx hs books)
attempt_entry-Returns cfg equity_prev none sig d idx hs books c rich paid priced = (_, refl)
attempt_entry-Returns cfg equity_prev (some row) sig d idx hs books c rich paid priced =
    elim (Bool-cases (can_buy (bar_lock cfg row))) [
      | inl q ↦
          rw q (
            buy_signal-Returns cfg equity_prev row sig d idx hs books c rich paid (priced row refl))
      | inr q ↦ rw q (_, refl)
    ]

enter_one-Returns :
    (cfg : Config) (equity_prev : Decimal) (today : List Bar) (sig : Signal) (d idx : ℕ)
    (hs : List Holding) (books : Books)
    → IsConfig cfg
    → zero_d ≤d equity_prev
    → zero_d ≤d books.cash
    → ((row : Bar) → Member row today → zero_d <d row.opening)
    → Returns (enter_one cfg equity_prev today sig d idx hs books)
unfolding enter_one
enter_one-Returns cfg equity_prev today sig d idx hs books c rich paid priced =
    elim (Bool-cases (is_held hs sig.symbol)) [
      | inl q ↦ rw q (_, refl)
      | inr q ↦ rw q (
          attempt_entry-Returns cfg equity_prev (bar_of today sig.symbol) sig d idx hs books c rich
            paid (λ row e. priced row (bar_of-Member today sig.symbol e)))
    ]

-- With at least one slippage tier, each of 0 to 10000 basis points, brokerage rules of a known kind,
-- a participation cap above 0 and at most 1 and room for a position, over bars that open at a
-- positive price, and with the equity of the day before and the cash not negative: the entries of a
-- day come to a result, whatever signals are pending.
pub entries_total :
    (cfg : Config) (equity_prev : Decimal) (today : List Bar) (d idx : ℕ) (sigs : List Signal)
    (hs : List Holding) (books : Books)
    → IsConfig cfg
    → ((row : Bar) → Member row today → zero_d <d row.opening)
    → zero_d ≤d equity_prev
    → zero_d ≤d books.cash
    → (r : List Holding × Books) × (entries cfg equity_prev today d idx sigs hs books ≡ ok r)
unfolding entries
entries_total cfg equity_prev today d idx [] hs books c priced rich paid = (_, refl)
entries_total cfg equity_prev today d idx (sig ∷ sigs) hs books c priced rich paid =
    elim (Bool-cases (leb cfg.max_pos (length hs))) [
      | inl q ↦ rw q (_, refl)
      | inr q ↦
          let ((ks, b), e) =
            enter_one-Returns cfg equity_prev today sig d idx hs books c rich paid priced in
          let (_, solvent) = enter_one-IsRound cfg equity_prev today sig d idx hs books ks b e in
          rw q (
            go_on _ _ e
              (entries_total cfg equity_prev today d idx sigs ks b c priced rich (solvent paid)))
    ]
