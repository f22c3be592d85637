-- ===== src/Money.antt =====
-- backend/src/stk/core/money.py: rupee amounts rounded to paise. A rounded amount is the integer
-- number of its paise.
pub mod Rounding
use stock_analyser.Prelude.{
  ℕ, ◌+◌, ◌-◌, ◌*◌, ◌/◌, if◌then◌else◌, leb, ℤ, pos, pos_part, neg_part, sub_ℕ,
}
use stock_analyser.Decimal.{Decimal, den}

-- `amount / d` rupees in whole paise, a half away from zero.
unfoldable pub round_half_up : ℕ → ℕ → ℕ
round_half_up amount d = (200 * amount + d) / (2 * d)

-- `quantize(Decimal("0.01"), rounding=ROUND_HALF_UP)`
unfoldable pub to_money : Decimal → ℤ
to_money value =
    if leb value.down value.up
    then pos (round_half_up (value.up - value.down) (den value))
    else sub_ℕ 0 (round_half_up (value.down - value.up) (den value))

-- The `Decimal` of an amount in paise.
abbrev pub of_money : ℤ → Decimal
of_money m = record { up = pos_part m; down = neg_part m; den_pred = 99 }
