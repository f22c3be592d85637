-- ===== src/Tests/Positions.antt =====
-- Examples for positions.
use stock_analyser.Prelude.{arith, ok, refl, ◌≡◌, ◌≤◌}
use stock_analyser.Decimal.{of_nat, ◌*d◌, ◌≈d◌}
use stock_analyser.Positions.{SplitResult, apply_sell, apply_split_or_bonus}
use stock_analyser.Positions.Accounting.{IsSold, apply_sell_pnl, total_pnl}
use stock_analyser.Positions.Splits.{IsConserved, apply_split_or_bonus_conserves}
use stock_analyser.Tests.Data.{a_hundred, held, less_held}

-- `apply_sell_pnl` at a concrete input.
apply_sell_pnl_example :
    (1 ≤ 3)
    × IsSold held 3 a_hundred less_held
    × (total_pnl less_held a_hundred ≈d total_pnl held a_hundred)
unfolding apply_sell less_held
apply_sell_pnl_example = apply_sell_pnl held 3 a_hundred {p' = less_held} refl

-- `apply_split_or_bonus_conserves` at a concrete input.
apply_split_or_bonus_conserves_example :
    (r : SplitResult) × (apply_split_or_bonus held a_hundred ≡ ok r)
    × IsConserved held (of_nat held.qty *d a_hundred) r
apply_split_or_bonus_conserves_example =
    apply_split_or_bonus_conserves held a_hundred (ground arith)
