-- ===== src/Decimal/Ring.antt =====
-- Laws of decimal arithmetic up to equality of values. Each is an identity of cross-multiplied
-- numerators, proved for any denominators.
use stock_analyser.Prelude.{ℕ, ◌+◌, ◌*◌, ◌≡◌, arith, ap}
use stock_analyser.Decimal.{Decimal, of_nat, ◌+d◌, ◌-d◌, ◌*d◌, ◌≈d◌, den}
use stock_analyser.Decimal.Field.{suc-mul_pred}

cross_mul-sub :
    (p p' q q' r r' x y z : ℕ)
    → ((p * y + q' * x) * r + (p' * y + q * x) * r') * (x * z * (y * z))
        + ((p * r' + p' * r) * (y * z) + (q * r + q' * r') * (x * z)) * (x * y * z)
      ≡ ((p * r + p' * r') * (y * z) + (q * r' + q' * r) * (x * z)) * (x * y * z)
        + ((p * y + q' * x) * r' + (p' * y + q * x) * r) * (x * z * (y * z))
cross_mul-sub p p' q q' r r' x y z = omega arith

pub mul-sub : (a b c : Decimal) → (a -d b) *d c ≈d a *d c -d b *d c
unfolding ◌-d◌ ◌*d◌
mul-sub a b c =
    simp suc-mul_pred (cross_mul-sub a.up a.down b.up b.down c.up c.down (den a) (den b) (den c))

cross_add_assoc :
    (p p' q q' r r' x y z : ℕ)
    → ((p * y + q * x) * z + r * (x * y)) * (x * (y * z))
        + (p' * (y * z) + (q' * z + r' * y) * x) * (x * y * z)
      ≡ (p * (y * z) + (q * z + r * y) * x) * (x * y * z)
        + ((p' * y + q' * x) * z + r' * (x * y)) * (x * (y * z))
cross_add_assoc p p' q q' r r' x y z = omega arith

pub add_assoc_d : (a b c : Decimal) → a +d b +d c ≈d a +d (b +d c)
unfolding ◌+d◌
add_assoc_d a b c =
    simp suc-mul_pred (cross_add_assoc a.up a.down b.up b.down c.up c.down (den a) (den b) (den c))

-- Two equations of cross-multiplied values, added with each side scaled by the other's denominators.
cross_congr :
    (p p' q q' r r' s s' x y z w : ℕ)
    → p * y + q' * x ≡ q * x + p' * y
    → r * w + s' * z ≡ s * z + r' * w
    → (p * z + r * x) * (y * w) + (q' * w + s' * y) * (x * z)
      ≡ (q * w + s * y) * (x * z) + (p' * z + r' * x) * (y * w)
cross_congr p p' q q' r r' s s' x y z w h k =
    omega (arith, ap (λ (t : ℕ). t * (z * w)) h, ap (λ (t : ℕ). t * (x * y)) k)

pub add_congr : (a b c d : Decimal) → a ≈d b → c ≈d d → a +d c ≈d b +d d
unfolding ◌+d◌
add_congr a b c d h k = simp suc-mul_pred (
    cross_congr a.up a.down b.up b.down c.up c.down d.up d.down (den a) (den b) (den c) (den d) h k)

pub sub_congr : (a b c d : Decimal) → a ≈d b → c ≈d d → a -d c ≈d b -d d
unfolding ◌-d◌
sub_congr a b c d h k = simp suc-mul_pred (
    cross_congr a.up a.down b.up b.down c.down c.up d.down d.up (den a) (den b) (den c) (den d) h
      (omega arith))

cross_sub_cancel :
    (p p' q q' r r' x y z : ℕ)
    → ((p * z + r * x) * (y * z) + (q' * z + r' * y) * (x * z)) * (x * y)
        + (p' * y + q * x) * (x * z * (y * z))
      ≡ (p * y + q' * x) * (x * z * (y * z))
        + ((p' * z + r' * x) * (y * z) + (q * z + r * y) * (x * z)) * (x * y)
cross_sub_cancel p p' q q' r r' x y z = omega arith

pub sub_cancel_right : (a b c : Decimal) → (a +d c) -d (b +d c) ≈d a -d b
unfolding ◌+d◌ ◌-d◌
sub_cancel_right a b c =
    simp suc-mul_pred (cross_sub_cancel a.up a.down b.up b.down c.up c.down (den a) (den b) (den c))

pub mul_of_nat_add : (a : Decimal) (m n : ℕ) → a *d of_nat (m + n) ≈d a *d of_nat m +d a *d of_nat n
unfolding ◌*d◌ ◌+d◌
mul_of_nat_add a m n = omega arith
