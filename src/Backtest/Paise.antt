-- ===== src/Backtest/Paise.antt =====
-- Costs in whole paise, which `quantize` in backend/src/stk/backtest/engine.py leaves as they are.
use stock_analyser.Prelude.{
  ℕ, suc, ◌+◌, ◌-◌, ◌*◌, ◌≤◌, ◌≡◌, refl, inl, inr, Bool-cases, false, leb, arith, ℤ, pos_part,
  neg_part, ap,
}
use native.Mathlib.Nat.{mul-div_cancel, mul-mod_left, zero-lt-suc, le_of_mul-le-mul_right}
use stock_analyser.Decimal.{Decimal, zero_d, of_nat, den, ◌-d◌, ◌*d◌, quotient, ltd, ◌≈d◌}
use stock_analyser.Decimal.Order.{≈d_trans}
use stock_analyser.Decimal.Field.{suc-mul_pred, div_pos}
use stock_analyser.Decimal.Same.{Alike, same}
use stock_analyser.Money.{of_money}
use stock_analyser.Backtest.Amounts.{half_even, quantize}

-- A whole number of paise, `u - v` of them.
abbrev pub IsPaise : Decimal → Type 0
IsPaise a = (u : ℕ) × (v : ℕ) × (a ≈d record { up = u; down = v; den_pred = 99 })

half_even-multiple : (m d : ℕ) → half_even (m * suc d) (suc d) ≡ m
half_even-multiple m d =
    rw (mul-div_cancel m (zero-lt-suc d), mul-mod_left m (suc d)) (ground arith)

-- The sizes of the two sides of an equation of fractions, the larger minus the smaller.
excess :
    (p q u v d : ℕ)
    → q ≤ p
    → p * 100 + v * suc d ≡ u * suc d + q * 100
    → 100 * (p - q) ≡ (u - v) * suc d
excess p q u v d h e =
    let le : v ≤ u = le_of_mul-le-mul_right {k = suc d} (omega arith) (omega arith) in
    let whole : v + (u - v) ≡ u = omega arith in excess_of p q (u - v) v d h (rw (← whole) at e)
  where
    excess_of :
        (p q w v d : ℕ)
        → q ≤ p
        → p * 100 + v * suc d ≡ (v + w) * suc d + q * 100
        → 100 * (p - q) ≡ w * suc d
    excess_of p q w v d h e = omega arith

pub quantize-Alike : (a : Decimal) → IsPaise a → Alike (quantize a) a
unfolding quantize
quantize-Alike a (u, v, h) = elim (Bool-cases (leb a.down a.up)) [
  | inl e ↦
      let le : a.down ≤ a.up = ground arith in
      let k : 100 * (a.up - a.down) ≡ (u - v) * den a =
        excess a.up a.down u v a.den_pred (ground arith) h in
      rw (e, k, half_even-multiple (u - v) a.den_pred) (same (omega arith))
  | inr e ↦
      let le : a.up ≤ a.down = ground arith in
      let k : 100 * (a.down - a.up) ≡ (v - u) * den a =
        excess a.down a.up v u a.den_pred (ground arith) (omega arith) in
      rw (e, k, half_even-multiple (v - u) a.den_pred) (same (omega arith))
]

pub quotient-Alike :
    (a : Decimal) (n : ℕ) → Alike (quotient (a *d of_nat (suc n)) (of_nat (suc n))) a
unfolding quotient ◌*d◌ ltd
quotient-Alike a n =
    let e : ltd (of_nat (suc n)) zero_d ≡ false = ground arith in
    rw (e, div_pos (a *d of_nat (suc n)) (of_nat (suc n)) n (omega arith)) (same (omega arith))

sub_paise :
    (p p' q q' u v u' v' x y : ℕ)
    → p * 100 + v * x ≡ u * x + p' * 100
    → q * 100 + v' * y ≡ u' * y + q' * 100
    → (p * y + q' * x) * 100 + (v + u') * (x * y) ≡ (u + v') * (x * y) + (p' * y + q * x) * 100
sub_paise p p' q q' u v u' v' x y h k =
    omega (arith, ap (λ (t : ℕ). t * y) h, ap (λ (t : ℕ). t * x) k)

pub sub-IsPaise : (a b : Decimal) → IsPaise a → IsPaise b → IsPaise (a -d b)
unfolding ◌-d◌
sub-IsPaise a b (u, v, h) (u', v', l) = (
  u + v',
  v + u',
  simp suc-mul_pred (sub_paise a.up a.down b.up b.down u v u' v' (den a) (den b) h l),
)

pub quantize-IsPaise : (a : Decimal) → IsPaise (quantize a)
unfolding quantize
quantize-IsPaise a = elim (Bool-cases (leb a.down a.up)) [
  | inl e ↦ rw e (half_even (100 * (a.up - a.down)) (den a), 0, refl)
  | inr e ↦ rw e (0, half_even (100 * (a.down - a.up)) (den a), refl)
]

pub of_money-IsPaise : (m : ℤ) → IsPaise (of_money m)
of_money-IsPaise m = (pos_part m, neg_part m, refl)

pub Alike-IsPaise : (a b : Decimal) → Alike a b → IsPaise b → IsPaise a
Alike-IsPaise a b e (u, v, h) = (u, v, ≈d_trans a b _ e.eq h)
