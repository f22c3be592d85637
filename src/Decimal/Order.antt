-- ===== src/Decimal/Order.antt =====
-- The order of decimals: total, transitive, and met by the Boolean tests.
use native.Mathlib.Nat.{mul-le-mul_right, le_of_mul-le-mul_left, lt_of_mul-lt-mul_left}
use stock_analyser.Prelude.{
  ℕ, suc, ◌+◌, ◌*◌, ◌≤◌, ◌<◌, ◌≡◌, ◌⊎◌, ◌↔◌, true, false, arith, inl, inr, Bool-cases,
}
use stock_analyser.Decimal.{Decimal, ◌≤d◌, ◌<d◌, ◌≈d◌, eqd, led, ltd, min_d, max_d}

-- The cross-multiplied inequalities of three fractions chain.
chain_le :
    (p p' q q' r r' x y z : ℕ)
    → p * suc y + q' * suc x ≤ q * suc x + p' * suc y
    → q * suc z + r' * suc y ≤ r * suc y + q' * suc z
    → p * suc z + r' * suc x ≤ r * suc x + p' * suc z
chain_le p p' q q' r r' x y z h k =
    le_of_mul-le-mul_left {k = suc y}
      (omega (arith, mul-le-mul_right (suc z) h, mul-le-mul_right (suc x) k)) (omega arith)

chain_lt :
    (p p' q q' r r' x y z : ℕ)
    → p * suc y + q' * suc x < q * suc x + p' * suc y
    → q * suc z + r' * suc y ≤ r * suc y + q' * suc z
    → p * suc z + r' * suc x < r * suc x + p' * suc z
chain_lt p p' q q' r r' x y z h k =
    lt_of_mul-lt-mul_left (suc y)
      (omega (arith, mul-le-mul_right (suc z) h, mul-le-mul_right (suc x) k))

chain_lt_right :
    (p p' q q' r r' x y z : ℕ)
    → p * suc y + q' * suc x ≤ q * suc x + p' * suc y
    → q * suc z + r' * suc y < r * suc y + q' * suc z
    → p * suc z + r' * suc x < r * suc x + p' * suc z
chain_lt_right p p' q q' r r' x y z h k =
    lt_of_mul-lt-mul_left (suc y)
      (omega (arith, mul-le-mul_right (suc z) h, mul-le-mul_right (suc x) k))

pub ≤d_refl : (a : Decimal) → a ≤d a
≤d_refl a = omega arith

pub ≤d_total : (a b : Decimal) → (a ≤d b) ⊎ (b ≤d a)
≤d_total a b = omega arith

pub ≤d_trans : (a b c : Decimal) → a ≤d b → b ≤d c → a ≤d c
≤d_trans a b c h k =
    chain_le a.up a.down b.up b.down c.up c.down a.den_pred b.den_pred c.den_pred h k

pub <d-≤d_trans : (a b c : Decimal) → a <d b → b ≤d c → a <d c
<d-≤d_trans a b c h k =
    chain_lt a.up a.down b.up b.down c.up c.down a.den_pred b.den_pred c.den_pred h k

pub ≤d-<d_trans : (a b c : Decimal) → a ≤d b → b <d c → a <d c
≤d-<d_trans a b c h k =
    chain_lt_right a.up a.down b.up b.down c.up c.down a.den_pred b.den_pred c.den_pred h k

pub ≤d_of_<d : (a b : Decimal) → a <d b → a ≤d b
≤d_of_<d a b h = omega arith

pub <d_irrefl : (a : Decimal) → ¬ (a <d a)
<d_irrefl a h = omega arith

pub not-<d_of_≤d : (a b : Decimal) → a ≤d b → ¬ (b <d a)
not-<d_of_≤d a b h k = omega arith

pub led_iff : (a b : Decimal) → (led a b ≡ true) ↔ (a ≤d b)
unfolding led
led_iff a b = ground arith

pub led_false : (a b : Decimal) → led a b ≡ false → b <d a
unfolding led
led_false a b h = ground arith

pub ltd_iff : (a b : Decimal) → (ltd a b ≡ true) ↔ (a <d b)
unfolding ltd
ltd_iff a b = ground arith

pub ltd_false : (a b : Decimal) → ltd a b ≡ false → b ≤d a
unfolding ltd
ltd_false a b h = ground arith

-- A test that holds, or the reverse order.
pub led-cases : (a b : Decimal) → ((led a b ≡ true) × (a ≤d b)) ⊎ ((led a b ≡ false) × (b <d a))
led-cases a b = elim (Bool-cases (led a b)) [
  | inl e ↦ inl (e, (led_iff a b).0 e)
  | inr e ↦ inr (e, led_false a b e)
]

pub ltd-cases : (a b : Decimal) → ((ltd a b ≡ true) × (a <d b)) ⊎ ((ltd a b ≡ false) × (b ≤d a))
ltd-cases a b = elim (Bool-cases (ltd a b)) [
  | inl e ↦ inl (e, (ltd_iff a b).0 e)
  | inr e ↦ inr (e, ltd_false a b e)
]

-- The smaller of two is one of them and is below both.
pub min_d-le : (a b : Decimal) → (min_d a b ≤d a) × (min_d a b ≤d b)
unfolding min_d
min_d-le a b = elim (ltd-cases b a) [
  | inl (e, h) ↦ rw e (≤d_of_<d b a h, ≤d_refl b)
  | inr (e, h) ↦ rw e (≤d_refl a, h)
]

pub le-max_d : (a b : Decimal) → (a ≤d max_d a b) × (b ≤d max_d a b)
unfolding max_d
le-max_d a b = elim (ltd-cases a b) [
  | inl (e, h) ↦ rw e (≤d_of_<d a b h, ≤d_refl b)
  | inr (e, h) ↦ rw e (≤d_refl a, h)
]

pub min_d-cases : (a b : Decimal) → (min_d a b ≡ a) ⊎ (min_d a b ≡ b)
unfolding min_d
min_d-cases a b = elim (Bool-cases (ltd b a)) [ inl e ↦ inr (rw e) | inr e ↦ inl (rw e) ]

pub max_d-cases : (a b : Decimal) → (max_d a b ≡ a) ⊎ (max_d a b ≡ b)
unfolding max_d
max_d-cases a b = elim (Bool-cases (ltd a b)) [ inl e ↦ inr (rw e) | inr e ↦ inl (rw e) ]

pub eqd_iff : (a b : Decimal) → (eqd a b ≡ true) ↔ (a ≈d b)
unfolding eqd
eqd_iff a b = ground arith

pub ≤d_of_≈d : (a b : Decimal) → a ≈d b → a ≤d b
≤d_of_≈d a b h = omega arith

pub ≈d_sym : (a b : Decimal) → a ≈d b → b ≈d a
≈d_sym a b h = omega arith

pub ≤d_antisym : (a b : Decimal) → a ≤d b → b ≤d a → a ≈d b
≤d_antisym a b h k = omega arith

pub ≈d_trans : (a b c : Decimal) → a ≈d b → b ≈d c → a ≈d c
≈d_trans a b c h k =
    ≤d_antisym a c (≤d_trans a b c (omega arith) (omega arith))
      (≤d_trans c b a (omega arith) (omega arith))
