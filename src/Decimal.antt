-- ===== src/Decimal.antt =====
-- Python's `decimal.Decimal`, as exact fractions. A value is `(up - down) / (den_pred + 1)`: the
-- denominator is positive by construction, and a sign is the difference of two naturals. The
-- context's rounding to 28 significant digits is left out: sums, products and quotients are exact.
pub mod Order
pub mod Field
pub mod Ring
pub mod Sums
pub mod Same
use stock_analyser.Prelude.{
  ℕ, zero, suc, ◌+◌, ◌-◌, ◌*◌, ◌/◌, ◌≤◌, ◌≡◌, Bool, if◌then◌else◌, leb, ltb, ◌==◌, ℤ, pos_part,
  neg_part,
}

pub record Decimal : Type 0 where
  pub up : ℕ
  pub down : ℕ
  pub den_pred : ℕ

abbrev pub den : Decimal → ℕ
den d = suc d.den_pred

-- The number whose successor is the product of two successors.
abbrev pub mul_pred : ℕ → ℕ → ℕ
mul_pred p q = p * q + p + q

-- `Decimal(n)` for an integer.
abbrev pub of_int : ℤ → Decimal
of_int n = record { up = pos_part n; down = neg_part n; den_pred = 0 }

abbrev pub of_nat : ℕ → Decimal
of_nat n = record { up = n; down = 0; den_pred = 0 }

abbrev pub zero_d : Decimal
zero_d = of_nat 0

abbrev pub one_d : Decimal
one_d = of_nat 1

infixl 65 ◌+d◌ ◌-d◌
infixl 70 ◌*d◌
unfoldable pub ◌+d◌ : Decimal → Decimal → Decimal
a +d b = record {
  up = a.up * den b + b.up * den a;
  down = a.down * den b + b.down * den a;
  den_pred = mul_pred a.den_pred b.den_pred;
}

unfoldable pub ◌-d◌ : Decimal → Decimal → Decimal
a -d b = record {
  up = a.up * den b + b.down * den a;
  down = a.down * den b + b.up * den a;
  den_pred = mul_pred a.den_pred b.den_pred;
}

unfoldable pub ◌*d◌ : Decimal → Decimal → Decimal
a *d b = record {
  up = a.up * b.up + a.down * b.down;
  down = a.up * b.down + a.down * b.up;
  den_pred = mul_pred a.den_pred b.den_pred;
}

-- Division by a positive integer. Division by 0 raises in Python; the callers exclude it, and here
-- it gives the dividend.
unfoldable pub div_nat : Decimal → ℕ → Decimal
div_nat a zero = a
div_nat a (suc n) = record { up = a.up; down = a.down; den_pred = mul_pred a.den_pred n }

-- `a / b` for a positive `b`, the only divisors of the program.
unfoldable pub div : Decimal → Decimal → Decimal
unfolding div_nat
div a b =
    div_nat (record { up = a.up * den b; down = a.down * den b; den_pred = a.den_pred })
      (b.up - b.down)

-- The two sides of `a <= b` with the denominators cleared, as naturals.
abbrev pub low_side : Decimal → Decimal → ℕ
low_side a b = a.up * den b + b.down * den a

-- `◌≈d◌` is Python's `==`: the same value, whatever the representation.
infix 50 ◌≤d◌ ◌<d◌ ◌≈d◌
abbrev pub ◌≤d◌ : Decimal → Decimal → Type 0
a ≤d b = low_side a b ≤ low_side b a

abbrev pub ◌<d◌ : Decimal → Decimal → Type 0
a <d b = suc (low_side a b) ≤ low_side b a

abbrev pub ◌≈d◌ : Decimal → Decimal → Type 0
a ≈d b = low_side a b ≡ low_side b a

unfoldable pub led : Decimal → Decimal → Bool
led a b = leb (low_side a b) (low_side b a)

unfoldable pub ltd : Decimal → Decimal → Bool
ltd a b = ltb (low_side a b) (low_side b a)

unfoldable pub eqd : Decimal → Decimal → Bool
eqd a b = low_side a b == low_side b a

-- Python's `min` and `max` of two: the first argument on a tie.
unfoldable pub min_d : Decimal → Decimal → Decimal
min_d a b = if ltd b a then b else a

unfoldable pub max_d : Decimal → Decimal → Decimal
max_d a b = if ltd a b then b else a

unfoldable pub abs_d : Decimal → Decimal
abs_d a = record { up = (a.up - a.down) + (a.down - a.up); down = 0; den_pred = a.den_pred }

-- `int(a)` and `a.to_integral_value(rounding=ROUND_FLOOR)` for an `a` that is not negative.
unfoldable pub floor_nat : Decimal → ℕ
floor_nat a = (a.up - a.down) / den a

-- `a / b` for a `b` other than 0, of either sign.
unfoldable pub quotient : Decimal → Decimal → Decimal
unfolding div ltd ◌-d◌
quotient a b = if ltd b zero_d then div (zero_d -d a) (zero_d -d b) else div a b
