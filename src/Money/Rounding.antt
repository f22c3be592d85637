-- ===== src/Money/Rounding.antt =====
-- Rounding to paise: nearest, monotone, and exact on amounts that are whole paise.
use native.Mathlib.Nat.{
  mul-le-mul_right, le-div_iff_mul-le, le_of_mul-le-mul_right, div-mul-le_self, lt-div-mul-add,
}
use stock_analyser.Prelude.{
  ℕ, suc, ◌+◌, ◌-◌, ◌*◌, ◌≤◌, ◌<◌, ◌≡◌, inl, inr, arith, ℤ, pos, negsuc, pos_part, neg_part, ◌≤ℤ◌,
  sub_ℕ, le-cases, ap,
}
use stock_analyser.Decimal.{Decimal, den, ◌≤d◌, ◌-d◌}
use stock_analyser.Money.{round_half_up, to_money, of_money}

-- The rounded amount is at most half a paisa off.
round_bounds :
    (n p : ℕ)
    → let d = suc p in
      let r = round_half_up n d in (2 * d * r ≤ 200 * n + d) × (200 * n < 2 * d * r + d)
unfolding round_half_up
round_bounds n p =
    let d = suc p in
    omega (
      arith,
      div-mul-le_self (200 * n + d) (2 * d),
      lt-div-mul-add {a = 200 * n + d} {b = 2 * d} (omega arith),
    )

-- Cross-multiplied amounts in order round in order.
round_mono :
    (n m p q : ℕ) → n * suc q ≤ m * suc p → round_half_up n (suc p) ≤ round_half_up m (suc q)
unfolding round_half_up
round_mono n m p q h =
    let k = round_half_up n (suc p) in
    (le-div_iff_mul-le {k = 2 * suc q} {x = k} {y = 200 * m + suc q} (omega arith)).1 (
      le_of_mul-le-mul_right {k = suc p}
        (omega (arith, mul-le-mul_right (suc q) (round_bounds n p).0, h)) (omega arith))

-- The two signs of the rounding.
to_money-up :
    (a : Decimal) → a.down ≤ a.up → to_money a ≡ pos (round_half_up (a.up - a.down) (den a))
unfolding to_money
to_money-up a h = ground arith

to_money-down :
    (a : Decimal) → a.up < a.down → to_money a ≡ sub_ℕ 0 (round_half_up (a.down - a.up) (den a))
unfolding to_money
to_money-down a h = ground arith

neg_parts : (r : ℕ) → (pos_part (sub_ℕ 0 r) ≡ 0) × (neg_part (sub_ℕ 0 r) ≡ r)
neg_parts r = ground arith

-- 0.005 rupees.
abbrev pub half_paisa : Decimal
half_paisa = record { up = 1; down = 0; den_pred = 199 }

-- The rounded amount is the nearest one in whole paise: it differs from the value by at most half
-- a paisa.
pub to_money_nearest :
    (a : Decimal) → let m = of_money (to_money a) in (a -d m ≤d half_paisa) × (m -d a ≤d half_paisa)
unfolding ◌-d◌
to_money_nearest a = elim (le-cases a.down a.up) [
  | inl h ↦
      let b = round_bounds (a.up - a.down) a.den_pred in rw (to_money-up a h) (omega (arith, b))
  | inr h ↦
      let b = round_bounds (a.down - a.up) a.den_pred in
      let (up, down) = neg_parts (round_half_up (a.down - a.up) (den a)) in
      rw (to_money-down a h) (rw (up, down) (omega (arith, b)))
]

-- An amount in whole paise is left as it is.
pub to_money-of_money : (m : ℤ) → to_money (of_money m) ≡ m
unfolding to_money round_half_up
to_money-of_money (pos n) = ground arith
to_money-of_money (negsuc n) = ground arith

cross_up :
    (a b : Decimal)
    → a.down ≤ a.up
    → b.down ≤ b.up
    → a ≤d b
    → (a.up - a.down) * den b ≤ (b.up - b.down) * den a
cross_up a b ha hb h =
    let ea : a.up ≡ a.down + (a.up - a.down) = omega arith in
    let eb : b.up ≡ b.down + (b.up - b.down) = omega arith in
    omega (arith, ap (λ (t : ℕ). t * den b) ea, ap (λ (t : ℕ). t * den a) eb)

cross_down :
    (a b : Decimal)
    → a.up < a.down
    → b.up < b.down
    → a ≤d b
    → (b.down - b.up) * den a ≤ (a.down - a.up) * den b
cross_down a b ha hb h =
    let ea : a.down ≡ a.up + (a.down - a.up) = omega arith in
    let eb : b.down ≡ b.up + (b.down - b.up) = omega arith in
    omega (arith, ap (λ (t : ℕ). t * den b) ea, ap (λ (t : ℕ). t * den a) eb)

cross_absurd : (a b : Decimal) → a.down ≤ a.up → b.up < b.down → ¬ (a ≤d b)
cross_absurd a b ha hb h = omega (arith, mul-le-mul_right (den b) ha, mul-le-mul_right (den a) hb)

-- Rounding keeps the order.
pub to_money_mono : (a b : Decimal) → a ≤d b → to_money a ≤ℤ to_money b
to_money_mono a b h = elim (le-cases a.down a.up) [
  | inl ha ↦ elim (le-cases b.down b.up) [
    | inl hb ↦
        rw (to_money-up a ha, to_money-up b hb)
          (omega (
            arith,
            round_mono (a.up - a.down) (b.up - b.down) a.den_pred b.den_pred (cross_up a b ha hb h),
          ))
    | inr hb ↦ absurd (cross_absurd a b ha hb h)
  ]
  | inr ha ↦ elim (le-cases b.down b.up) [
    | inl hb ↦
        rw (to_money-down a ha, to_money-up b hb)
          (omega (arith, neg_parts (round_half_up (a.down - a.up) (den a))))
    | inr hb ↦
        rw (to_money-down a ha, to_money-down b hb)
          (omega (
            arith,
            neg_parts (round_half_up (a.down - a.up) (den a)),
            neg_parts (round_half_up (b.down - b.up) (den b)),
            round_mono (b.down - b.up) (a.down - a.up) b.den_pred a.den_pred
                (cross_down a b ha hb h),
          ))
  ]
]
