-- ===== src/Decimal/Field.antt =====
-- The arithmetic of decimals against their order: exact sums, products and quotients.
use native.Mathlib.Nat.{mul-le-mul_right, le-div_iff_mul-le}
use stock_analyser.Prelude.{ℕ, suc, ◌+◌, ◌-◌, ◌*◌, ◌≤◌, ◌≡◌, ◌↔◌, arith}
use stock_analyser.Decimal.Order.{≤d_trans, ≤d_of_≈d}
use stock_analyser.Decimal.{
  Decimal, of_nat, zero_d, ◌+d◌, ◌-d◌, ◌*d◌, div_nat, div, ◌≤d◌, ◌≈d◌, mul_pred, den, floor_nat,
}

-- A quotient by a count, times the count, is the dividend.
pub div_nat-mul : (a : Decimal) (n : ℕ) → div_nat a (suc n) *d of_nat (suc n) ≈d a
unfolding ◌*d◌ div_nat
div_nat-mul a n = omega arith

pub sub-add : (a b : Decimal) → (a -d b) +d b ≈d a
unfolding ◌-d◌ ◌+d◌
sub-add a b = omega arith

pub mul_comm_d : (a b : Decimal) → a *d b ≈d b *d a
unfolding ◌*d◌
mul_comm_d a b = omega arith

pub add_comm_d : (a b : Decimal) → a +d b ≈d b +d a
unfolding ◌+d◌
add_comm_d a b = omega arith

pub sub_nonneg : (a b : Decimal) → b ≤d a → zero_d ≤d a -d b
unfolding ◌-d◌
sub_nonneg a b h = omega arith

pub le-add_right_d : (a b : Decimal) → zero_d ≤d b → a ≤d a +d b
unfolding ◌+d◌
le-add_right_d a b h =
    omega (arith, mul-le-mul_right {m = b.down} {n = b.up} (den a * den a) (omega arith))

pub sub_right_le : (a b : Decimal) → zero_d ≤d b → a -d b ≤d a
unfolding ◌-d◌
sub_right_le a b h =
    omega (arith, mul-le-mul_right {m = b.down} {n = b.up} (den a * den a) (omega arith))

-- Division by a positive value with the quotient written out.
pub div_pos :
    (a b : Decimal) (n : ℕ)
    → b.up ≡ b.down + suc n
    → div a b
      ≡ record { up = a.up * den b; down = a.down * den b; den_pred = mul_pred a.den_pred n }
unfolding div div_nat
div_pos a b n h = let e : b.up - b.down ≡ suc n = omega arith in rw e

-- Products of positive denominators, as `mul_pred` writes them.
pub suc-mul_pred : (p q : ℕ) → suc (mul_pred p q) ≡ suc p * suc q
suc-mul_pred p q = omega arith

-- The cross-multiplied form of a product with a factor `c + k - c` that is not negative.
scale_le :
    (p p' q q' c k x y z : ℕ)
    → p * y + q' * x ≤ q * x + p' * y
    → ((c + k) * p + c * p') * (z * y) + ((c + k) * q' + c * q) * (z * x)
      ≤ ((c + k) * q + c * q') * (z * x) + ((c + k) * p' + c * p) * (z * y)
scale_le p p' q q' c k x y z h = omega (arith, mul-le-mul_right (k * z) h)

scale_le_of_le :
    (p p' q q' c d x y z : ℕ)
    → d ≤ c
    → p * y + q' * x ≤ q * x + p' * y
    → (c * p + d * p') * (z * y) + (c * q' + d * q) * (z * x)
      ≤ (c * q + d * q') * (z * x) + (c * p' + d * p) * (z * y)
scale_le_of_le p p' q q' c d x y z k h =
    let e : c ≡ d + (c - d) = omega arith in rw e (scale_le p p' q q' d (c - d) x y z h)

pub mul_mono_left : (c a b : Decimal) → zero_d ≤d c → a ≤d b → c *d a ≤d c *d b
unfolding ◌*d◌
mul_mono_left c a b n h =
    simp suc-mul_pred
      (scale_le_of_le a.up a.down b.up b.down c.up c.down (den a) (den b) (den c) (omega arith) h)

-- A floor is the largest count that is not above the value.
pub floor_nat_iff : (a : Decimal) (n : ℕ) → zero_d ≤d a → (of_nat n ≤d a) ↔ (n ≤ floor_nat a)
unfolding floor_nat
floor_nat_iff a n h =
    let bound : (n ≤ floor_nat a) ↔ (n * den a ≤ a.up - a.down) =
      le-div_iff_mul-le {k = den a} {x = n} {y = a.up - a.down} (omega arith) in
    (λ x. bound.1 (omega arith), λ x. omega (arith, bound.0 x))

zero-le-mul_zero : (a : Decimal) → zero_d ≤d a *d zero_d
unfolding ◌*d◌
zero-le-mul_zero a = omega arith

-- A product of values that are not negative is not negative.
pub mul_nonneg_d : (a b : Decimal) → zero_d ≤d a → zero_d ≤d b → zero_d ≤d a *d b
mul_nonneg_d a b h k =
    ≤d_trans zero_d (a *d zero_d) (a *d b) (zero-le-mul_zero a) (mul_mono_left a zero_d b h k)

pub nonneg-mul : (n : ℕ) (a : Decimal) → zero_d ≤d a → zero_d ≤d of_nat n *d a
nonneg-mul n a h = mul_nonneg_d (of_nat n) a (omega arith) h

pub mul_mono_right : (a b c : Decimal) → zero_d ≤d c → a ≤d b → a *d c ≤d b *d c
mul_mono_right a b c n h =
    ≤d_trans (a *d c) (c *d a) (b *d c) (≤d_of_≈d (a *d c) (c *d a) (mul_comm_d a c)) (
      ≤d_trans (c *d a) (c *d b) (b *d c) (mul_mono_left c a b n h)
        (≤d_of_≈d (c *d b) (b *d c) (mul_comm_d c b)))

pub div_nat_mono : (a b : Decimal) (n : ℕ) → a ≤d b → div_nat a (suc n) ≤d div_nat b (suc n)
unfolding div_nat
div_nat_mono a b n h = omega (arith, mul-le-mul_right (suc n) h)
