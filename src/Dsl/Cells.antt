-- ===== src/Dsl/Cells.antt =====
-- The cells of a float column, as pandas computes with them: a number, an infinity, or missing
-- (NaN). There is one zero, without a sign, and finite values are exact fractions.
use stock_analyser.Prelude.{Bool, true, false, if◌then◌else◌}
use stock_analyser.Decimal.{Decimal, zero_d, ◌+d◌, ◌-d◌, ◌*d◌, quotient, eqd, led, ltd}

pub data Cell : Type 0 where
  missing : Cell
  fin : Decimal → Cell
  up_inf down_inf : Cell

pub data Sign : Type 0 where
  negative no_sign positive : Sign

abbrev pub sign_of : Cell → Sign
sign_of missing = no_sign
sign_of up_inf = positive
sign_of down_inf = negative
sign_of (fin a) = if ltd a zero_d then negative else if ltd zero_d a then positive else no_sign

abbrev pub times : Sign → Sign → Sign
times no_sign s = no_sign
times s no_sign = no_sign
times positive s = s
times negative positive = negative
times negative negative = positive

-- An infinity of that sign; of none, the result is not a number.
abbrev pub infinity : Sign → Cell
infinity negative = down_inf
infinity no_sign = missing
infinity positive = up_inf

unfoldable pub mul_cell : Cell → Cell → Cell
mul_cell missing b = missing
mul_cell a missing = missing
mul_cell (fin a) (fin b) = fin (a *d b)
mul_cell a b = infinity (times (sign_of a) (sign_of b))

unfoldable pub add_cell : Cell → Cell → Cell
add_cell missing b = missing
add_cell a missing = missing
add_cell (fin a) (fin b) = fin (a +d b)
add_cell (fin a) b = b
add_cell a (fin b) = a
add_cell up_inf up_inf = up_inf
add_cell down_inf down_inf = down_inf
add_cell _ _ = missing

unfoldable pub sub_cell : Cell → Cell → Cell
sub_cell missing b = missing
sub_cell a missing = missing
sub_cell (fin a) (fin b) = fin (a -d b)
sub_cell (fin a) up_inf = down_inf
sub_cell (fin a) down_inf = up_inf
sub_cell a (fin b) = a
sub_cell up_inf down_inf = up_inf
sub_cell down_inf up_inf = down_inf
sub_cell _ _ = missing

-- The division of columns, where a divisor 0 gives an infinity and `0 / 0` is missing.
unfoldable pub div_cell : Cell → Cell → Cell
unfolding quotient
div_cell missing b = missing
div_cell a missing = missing
div_cell (fin a) (fin b) = if eqd b zero_d then infinity (sign_of (fin a)) else fin (quotient a b)
div_cell (fin a) b = fin zero_d
div_cell a (fin b) = if eqd b zero_d then a else infinity (times (sign_of a) (sign_of (fin b)))
div_cell _ _ = missing

-- `b.replace(0.0, np.nan)`
unfoldable pub replace_zero : Cell → Cell
replace_zero (fin b) = if eqd b zero_d then missing else fin b
replace_zero b = b

-- Comparisons, false of anything missing.
unfoldable pub lt_cell : Cell → Cell → Bool
lt_cell missing b = false
lt_cell a missing = false
lt_cell (fin a) (fin b) = ltd a b
lt_cell down_inf down_inf = false
lt_cell down_inf b = true
lt_cell (fin a) up_inf = true
lt_cell a b = false

unfoldable pub le_cell : Cell → Cell → Bool
le_cell missing b = false
le_cell a missing = false
le_cell (fin a) (fin b) = led a b
le_cell down_inf b = true
le_cell a up_inf = true
le_cell a b = false
