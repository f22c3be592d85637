-- ===== src/Tests/Charges.antt =====
-- Examples for charges, slippage and rounding.
use stock_analyser.Prelude.{arith, refl, ◌≤ℤ◌}
use stock_analyser.Costs.{buy, compute_costs, delivery, total}
use stock_analyser.Costs.Bounds.{IsBelow, compute_costs_mono}
use stock_analyser.Decimal.{Decimal, div_nat, of_nat, one_d, zero_d, ◌*d◌, ◌≤d◌}
use stock_analyser.Tests.Data.{a_hundred, cheap, dear, rates, schedule, two_hundred}

-- `compute_costs_mono` at a concrete input.
compute_costs_mono_example : IsBelow cheap dear × (total cheap ≤ℤ total dear)
unfolding compute_costs cheap dear stock_analyser.Decimal.ltd
compute_costs_mono_example =
    compute_costs_mono buy delivery a_hundred two_hundred rates {a = cheap} {b = dear} schedule
      (ground arith) refl refl
