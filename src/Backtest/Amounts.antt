-- ===== src/Backtest/Amounts.antt =====
-- backend/src/stk/backtest/engine.py: the amounts of one leg and the row helpers.
use stock_analyser.Prelude.{
  ℕ, suc, ◌-◌, ◌*◌, ◌/◌, ◌%◌, Bool, true, false, if◌then◌else◌, leb, ltb, ◌==◌, Option, none, some,
  is_some, List, [], ◌∷◌, ℤ, pos, sub_ℕ, Result, ok, err, ◌>>=◌,
}
use stock_analyser.Decimal.{Decimal, zero_d, den, eqd, quotient}
use stock_analyser.Money.{of_money}
use stock_analyser.Costs.{Side, Product, delivery, intraday, compute_costs, total}
use stock_analyser.Fills.{Lock, circuit_lock}
use stock_analyser.Slippage.{slippage_bps}
use stock_analyser.Backtest.{
  Bar, Config, EngineError, cost_error, slippage_error, division_by_zero, recast,
}

-- `COST_BUFFER`, 0.004
abbrev pub cost_buffer : Decimal
cost_buffer = record { up = 4; down = 0; den_pred = 999 }

-- `a / b`, which raises at 0.
unfoldable pub divide : Decimal → Decimal → Result EngineError Decimal
divide a b = if eqd b zero_d then err division_by_zero else ok (quotient a b)

-- `int(a)`, which drops the fraction.
unfoldable pub truncate : Decimal → ℤ
truncate a =
    if leb a.down a.up then pos ((a.up - a.down) / den a) else sub_ℕ 0 ((a.down - a.up) / den a)

-- `round_half_even` of `n / d` to an integer.
abbrev pub half_even : ℕ → ℕ → ℕ
half_even n d =
    let q = n / d in
    if ltb (2 * (n % d)) d
    then q
    else if ltb d (2 * (n % d))
    then suc q
    else if q % 2 == 0
    then q
    else suc q

-- `a.quantize(Decimal("0.01"))` in the default context, which rounds halves to even.
unfoldable pub quantize : Decimal → Decimal
quantize a =
    if leb a.down a.up
    then record { up = half_even (100 * (a.up - a.down)) (den a); down = 0; den_pred = 99 }
    else record { up = 0; down = half_even (100 * (a.down - a.up)) (den a); den_pred = 99 }

-- `_slip_bps`
unfoldable pub slip_bps : Config → Option Decimal → Result EngineError Decimal
unfolding slippage_bps
slip_bps cfg adv = recast slippage_error (slippage_bps adv cfg.tiers)

-- `_lock`
unfoldable pub bar_lock : Config → Bar → Lock
unfolding circuit_lock
bar_lock cfg row =
    circuit_lock
      (record { opening = row.opening; high = row.high; low = row.low; closing = row.closing })
      row.prev_close cfg.circuit_band_pcts cfg.circuit_tolerance_pct

-- `compute_costs(...).total`
unfoldable pub leg_costs : Config → Side → Decimal → ℕ → Result EngineError Decimal
unfolding compute_costs total
leg_costs cfg side turnover d = do
  breakdown ← recast cost_error (compute_costs side cfg.product turnover (cfg.rates_for d))
  ok (of_money (total breakdown))

abbrev pub is_delivery : Product → Bool
is_delivery delivery = true
is_delivery intraday = false

abbrev pub return_of : Decimal → Decimal → Decimal
return_of net committed = if eqd committed zero_d then zero_d else quotient net committed

-- `today.get(sym)`, where the last row of a symbol stays in the dict.
unfoldable pub bar_of : List Bar → ℕ → Option Bar
bar_of [] sym = none
bar_of (r ∷ rs) sym =
    let later = bar_of rs sym in
    if is_some later then later else if r.symbol == sym then some r else none
