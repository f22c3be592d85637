-- ===== src/Tests/Rules.antt =====
-- Examples for the circuit lock, the gate and the calendar.
use stock_analyser.Prelude.{[], arith, some, ◌↔◌, ◌∷◌, ◌≡◌}
use stock_analyser.Decimal.{
  Decimal, abs_d, den, div_nat, led, ltd, min_d, of_nat, one_d, zero_d, ◌*d◌, ◌-d◌, ◌<d◌, ◌≈d◌,
  ◌≤d◌,
}
use stock_analyser.Fills.{
  BarPrices, band_lock, circuit_lock, is_frozen, lower, move_pct, unlocked, upper,
}
use stock_analyser.Fills.Circuit.{IsFrozen, OnBand, circuit_lock-locked}
use stock_analyser.Gate.{
  IsEnough, IsShallow, WinsEnough, evaluate_gate, evaluate_gate_iff, insufficient_evidence, pass,
}
use stock_analyser.Tests.Data.{a_hundred, frozen, thresholds, windows}

-- `circuit_lock-locked` at a concrete input.
circuit_lock-locked_example :
    (prev : Decimal) × ((some a_hundred) ≡ some prev)
    × (zero_d <d prev)
    × IsFrozen frozen
    × OnBand (move_pct frozen.closing prev) (of_nat 5 ∷ []) zero_d
    × ((circuit_lock frozen (some a_hundred) (of_nat 5 ∷ []) zero_d ≡ upper)
        ↔ (prev <d frozen.closing))
    × ((circuit_lock frozen (some a_hundred) (of_nat 5 ∷ []) zero_d ≡ lower)
        ↔ (frozen.closing ≤d prev))
unfolding circuit_lock stock_analyser.Fills.is_frozen stock_analyser.Fills.band_lock
    stock_analyser.Fills.move_pct stock_analyser.Decimal.◌+d◌ stock_analyser.Decimal.◌-d◌
    stock_analyser.Decimal.◌*d◌ stock_analyser.Decimal.div_nat stock_analyser.Decimal.div
    stock_analyser.Decimal.led stock_analyser.Decimal.ltd stock_analyser.Decimal.eqd
    stock_analyser.Decimal.min_d stock_analyser.Decimal.max_d stock_analyser.Decimal.abs_d
    stock_analyser.Decimal.floor_nat stock_analyser.Decimal.quotient
circuit_lock-locked_example =
    circuit_lock-locked frozen (some a_hundred) (of_nat 5 ∷ []) zero_d (λ h. ground (arith, h))

-- `evaluate_gate_iff` at a concrete input.
evaluate_gate_iff_example :
    (((evaluate_gate windows thresholds).verdict ≡ pass) ↔ (
      IsEnough windows thresholds × WinsEnough windows thresholds × IsShallow windows thresholds))
    × (((evaluate_gate windows thresholds).verdict ≡ insufficient_evidence)
        ↔ ¬ (IsEnough windows thresholds))
evaluate_gate_iff_example = evaluate_gate_iff windows thresholds
