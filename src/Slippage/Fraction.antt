-- ===== src/Slippage/Fraction.antt =====
-- Slippage is adverse, and the participation cap gives the largest quantity within the fraction.
use stock_analyser.Prelude.{ℕ, ◌≤◌, ◌≡◌, ◌↔◌, arith, ok, err, ℤ, pos, pos_part, ◌≤ℤ◌, min}
use stock_analyser.Decimal.{
  Decimal, of_nat, zero_d, one_d, ◌≤d◌, ◌<d◌, ◌+d◌, ◌-d◌, ◌*d◌, div_nat, floor_nat,
}
use stock_analyser.Decimal.Order.{≤d_trans, led-cases, ltd-cases, ≤d_of_<d}
use stock_analyser.Decimal.Field.{
  mul_mono_left, nonneg-mul, floor_nat_iff, le-add_right_d, sub_right_le,
}
use stock_analyser.Costs.{Side, buy, sell}
use stock_analyser.Slippage.{SlippageError, apply_slippage, cap_quantity}

mul_one_d : (a : Decimal) → (a ≤d a *d one_d) × (a *d one_d ≤d a)
unfolding ◌*d◌
mul_one_d a = omega arith

div_nat-nonneg : (a : Decimal) → zero_d ≤d a → zero_d ≤d div_nat a 10000
unfolding div_nat
div_nat-nonneg a h = omega arith

-- A buy never fills below the touched price and a sale never above it.
abbrev pub IsAdverse : Side → Decimal → Decimal → Type 0
IsAdverse buy price filled = price ≤d filled
IsAdverse sell price filled = filled ≤d price

-- At a price and a slippage that are not negative, slippage moves a buy up and a sale down.
pub apply_slippage-IsAdverse :
    (price : Decimal) (side : Side) (bps : Decimal)
    → zero_d ≤d price
    → zero_d ≤d bps
    → IsAdverse side price (apply_slippage price side bps)
unfolding apply_slippage
apply_slippage-IsAdverse price buy bps h k =
    let factor = one_d +d div_nat bps 10000 in
    ≤d_trans price (price *d one_d) (price *d factor) (mul_one_d price).0 (
      mul_mono_left price one_d factor h
        (le-add_right_d one_d (div_nat bps 10000) (div_nat-nonneg bps k)))
apply_slippage-IsAdverse price sell bps h k =
    let factor = one_d -d div_nat bps 10000 in
    ≤d_trans (price *d factor) (price *d one_d) price
      (mul_mono_left price factor one_d h
        (sub_right_le one_d (div_nat bps 10000) (div_nat-nonneg bps k)))
      (mul_one_d price).1

pub cap_quantity-guards :
    (desired volume : ℤ) (cap : Decimal) {qty : ℕ}
    → cap_quantity desired volume cap ≡ ok qty
    → (pos 0 ≤ℤ desired)
      × (pos 0 ≤ℤ volume)
      × (zero_d <d cap)
      × (cap ≤d one_d)
      × (qty ≡ min (pos_part desired) (floor_nat (of_nat (pos_part volume) *d cap)))
unfolding cap_quantity
cap_quantity-guards desired volume cap h = ground (arith, ltd-cases zero_d cap, led-cases cap one_d)

cap_quantity-accepts :
    (desired volume : ℕ) (cap : Decimal)
    → zero_d <d cap
    → cap ≤d one_d
    → cap_quantity (pos desired) (pos volume) cap
      ≡ ok (min desired (floor_nat (of_nat volume *d cap)))
unfolding cap_quantity
cap_quantity-accepts desired volume cap h k =
    ground (arith, ltd-cases zero_d cap, led-cases cap one_d)

nat_le : (m n : ℕ) → of_nat m ≤d of_nat n → m ≤ n
nat_le m n h = omega arith

-- With counts that are not negative and a cap in (0, 1], the quantity is found, and it is the
-- largest one that is at most the desired quantity and at most the capped fraction of the bar's
-- volume. In particular it never exceeds the volume.
pub cap_quantity_largest :
    (desired volume : ℕ) (cap : Decimal)
    → zero_d <d cap
    → cap ≤d one_d
    → (qty : ℕ) × (cap_quantity (pos desired) (pos volume) cap ≡ ok qty)
      × ((n : ℕ) → (n ≤ qty) ↔ ((n ≤ desired) × (of_nat n ≤d of_nat volume *d cap)))
      × (qty ≤ volume)
cap_quantity_largest desired volume cap h k =
    let whole = of_nat volume *d cap in
    let small = nonneg-mul volume cap (≤d_of_<d zero_d cap h) in
    let qty = min desired (floor_nat whole) in
    let iff : (n : ℕ) → (n ≤ qty) ↔ ((n ≤ desired) × (of_nat n ≤d whole)) = λ n. (
      λ x. (omega arith, (floor_nat_iff whole n small).1 (omega arith)),
      λ x. omega (arith, (floor_nat_iff whole n small).0 x.1),
    ) in
    (
      qty,
      cap_quantity-accepts desired volume cap h k,
      iff,
      nat_le qty volume (
          ≤d_trans (of_nat qty) whole (of_nat volume) ((iff qty).0 (omega arith)).1 (
            ≤d_trans whole (of_nat volume *d one_d) (of_nat volume)
              (mul_mono_left (of_nat volume) cap one_d (omega arith) k)
              (mul_one_d (of_nat volume)).1)),
    )

-- It raises exactly for a negative count or a cap outside (0, 1].
pub cap_quantity_raises :
    (desired volume : ℤ) (cap : Decimal) {e : SlippageError}
    → cap_quantity desired volume cap ≡ err e
    → ¬ ((pos 0 ≤ℤ desired) × (pos 0 ≤ℤ volume) × (zero_d <d cap) × (cap ≤d one_d))
unfolding cap_quantity
cap_quantity_raises desired volume cap e h =
    ground (arith, ltd-cases zero_d cap, led-cases cap one_d)
