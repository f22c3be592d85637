-- ===== src/Positions/Accounting.antt =====
-- What a position is worth before and after a trade or a split.
use stock_analyser.Prelude.{
  ℕ, suc, ◌+◌, ◌-◌, ◌≤◌, ◌≡◌, ◌↔◌, inl, inr, refl, arith, ok, Bool-cases, ◌==◌, ==_iff,
  if◌then◌else◌,
}
use stock_analyser.Decimal.{Decimal, of_nat, zero_d, ◌≈d◌, ◌+d◌, ◌-d◌, ◌*d◌, div_nat}
use stock_analyser.Decimal.Order.{≈d_sym, ≈d_trans}
use stock_analyser.Decimal.Field.{div_nat-mul}
use stock_analyser.Decimal.Ring.{
  mul-sub, add_assoc_d, add_congr, sub_congr, sub_cancel_right, mul_of_nat_add,
}
use stock_analyser.Positions.{Position, cost_basis, unrealised, apply_buy, apply_sell}

≈d_refl : (a : Decimal) → a ≈d a
≈d_refl a = refl

-- The position after a purchase and after a sale that are accepted.
abbrev pub bought : Position → ℕ → Decimal → Position
bought p n price = record {
  qty = p.qty + n;
  avg_cost = div_nat (p.avg_cost *d of_nat p.qty +d price *d of_nat n) (p.qty + n);
  realised_pnl = p.realised_pnl;
}

abbrev pub sold : Position → ℕ → Decimal → Position
sold p n price = record {
  qty = p.qty - n;
  avg_cost = if (p.qty - n) == 0 then zero_d else p.avg_cost;
  realised_pnl = p.realised_pnl +d (price -d p.avg_cost) *d of_nat n;
}

apply_buy-inv :
    (p : Position) (n : ℕ) (price : Decimal) {p' : Position}
    → apply_buy p n price ≡ ok p'
    → (1 ≤ n) × (p' ≡ bought p n price)
unfolding apply_buy
apply_buy-inv p n price h = ground arith

apply_sell-inv :
    (p : Position) (n : ℕ) (price : Decimal) {p' : Position}
    → apply_sell p n price ≡ ok p'
    → (1 ≤ n) × (n ≤ p.qty) × (p' ≡ sold p n price)
unfolding apply_sell
apply_sell-inv p n price h = ground arith

-- A sale is accepted exactly for one share up to the whole holding: there is no shorting.
pub apply_sell_iff :
    (p : Position) (n : ℕ) (price : Decimal)
    → ((p' : Position) × (apply_sell p n price ≡ ok p')) ↔ ((1 ≤ n) × (n ≤ p.qty))
unfolding apply_sell
apply_sell_iff p n price = (
  λ x. let (a, b, c) = apply_sell-inv p n price x.1 in (a, b),
  λ x. (sold p n price, ground arith),
)

bought-cost :
    (p : Position) (n : ℕ) (price : Decimal)
    → 1 ≤ n
    → (bought p n price).avg_cost *d of_nat (p.qty + n)
      ≈d p.avg_cost *d of_nat p.qty +d price *d of_nat n
bought-cost p n price h =
    let total : p.qty + n ≡ suc (p.qty + n - 1) = omega arith in
    rw total (div_nat-mul (p.avg_cost *d of_nat p.qty +d price *d of_nat n) (p.qty + n - 1))

-- A purchase of one share or more is accepted. The count grows by it, the booked gain stays, and
-- the cost basis grows by the price paid.
pub apply_buy_cost :
    (p : Position) (n : ℕ) (price : Decimal)
    → 1 ≤ n
    → (p' : Position) × (apply_buy p n price ≡ ok p')
      × (p'.qty ≡ p.qty + n)
      × (p'.realised_pnl ≡ p.realised_pnl)
      × (cost_basis p' ≈d cost_basis p +d price *d of_nat n)
unfolding apply_buy cost_basis
apply_buy_cost p n price h = (bought p n price, ground arith, refl, refl, bought-cost p n price h)

-- What the position has earned at a price, booked and not.
abbrev pub total_pnl : Position → Decimal → Decimal
total_pnl p mark = p.realised_pnl +d unrealised p mark

buy_cancels : (a b x y z : Decimal) → x ≈d a +d z → y ≈d b +d z → x -d y ≈d a -d b
buy_cancels a b x y z h k =
    ≈d_trans (x -d y) ((a +d z) -d (b +d z)) (a -d b) (sub_congr x (a +d z) y (b +d z) h k)
      (sub_cancel_right a b z)

-- Buying at a price neither makes nor loses anything at that price.
pub apply_buy_pnl :
    (p : Position) (n : ℕ) (price : Decimal) {p' : Position}
    → apply_buy p n price ≡ ok p'
    → total_pnl p' price ≈d total_pnl p price
unfolding unrealised
apply_buy_pnl p n price {p'} h =
    let (one, e) = apply_buy-inv p n price h in
    let avg = (bought p n price).avg_cost in
    let new = of_nat (p.qty + n) in
    let old = of_nat p.qty in
    rw e (
      add_congr p.realised_pnl p.realised_pnl ((price -d avg) *d new) ((price -d p.avg_cost) *d old)
        (≈d_refl p.realised_pnl)
        (≈d_trans ((price -d avg) *d new) (price *d new -d avg *d new)
          ((price -d p.avg_cost) *d old) (mul-sub price avg new)
          (≈d_trans (price *d new -d avg *d new) (price *d old -d p.avg_cost *d old)
            ((price -d p.avg_cost) *d old)
            (buy_cancels (price *d old) (p.avg_cost *d old) (price *d new) (avg *d new)
              (price *d of_nat n) (mul_of_nat_add price p.qty n) (bought-cost p n price one))
            (≈d_sym ((price -d p.avg_cost) *d old) (price *d old -d p.avg_cost *d old)
              (mul-sub price p.avg_cost old)))))

mul_zero_d : (a b : Decimal) → a *d of_nat 0 ≈d b *d of_nat 0
unfolding ◌*d◌
mul_zero_d a b = omega arith

-- What is left after a sale is valued as before; where nothing is left, its cost does not matter.
sold-rest :
    (p : Position) (n : ℕ) (price : Decimal)
    → (price -d (sold p n price).avg_cost) *d of_nat (p.qty - n)
      ≈d (price -d p.avg_cost) *d of_nat (p.qty - n)
sold-rest p n price = elim (Bool-cases ((p.qty - n) == 0)) [
  | inl e ↦
      let none_left : p.qty - n ≡ 0 = (==_iff (p.qty - n) 0).0 e in
      rw none_left (mul_zero_d (price -d zero_d) (price -d p.avg_cost))
  | inr e ↦ rw e (≈d_refl ((price -d p.avg_cost) *d of_nat (p.qty - n)))
]

-- A purchase of `n` adds the shares and what they cost, and books nothing.
abbrev pub IsBought : Position → ℕ → Decimal → Position → Type 0
IsBought p n price p' =
    (p'.qty ≡ p.qty + n)
    × (p'.realised_pnl ≡ p.realised_pnl)
    × (p'.avg_cost *d of_nat p'.qty ≈d p.avg_cost *d of_nat p.qty +d price *d of_nat n)

-- A sale of `n` takes the shares away, books their gain over the average cost, and keeps that cost
-- for what is left.
abbrev pub IsSold : Position → ℕ → Decimal → Position → Type 0
IsSold p n price p' =
    (p'.qty + n ≡ p.qty)
    × (p'.realised_pnl ≡ p.realised_pnl +d (price -d p.avg_cost) *d of_nat n)
    × (1 ≤ p'.qty → p'.avg_cost ≡ p.avg_cost)

pub apply_buy-IsBought :
    (p : Position) (n : ℕ) (price : Decimal) {p' : Position}
    → apply_buy p n price ≡ ok p'
    → IsBought p n price p'
apply_buy-IsBought p n price {p'} h =
    let (one, e) = apply_buy-inv p n price h in rw e (refl, refl, bought-cost p n price one)

pub apply_sell-IsSold :
    (p : Position) (n : ℕ) (price : Decimal) {p' : Position}
    → apply_sell p n price ≡ ok p'
    → IsSold p n price p'
apply_sell-IsSold p n price {p'} h =
    let (one, le, e) = apply_sell-inv p n price h in
    rw e (omega arith, refl, λ left. ground (arith, left))

sale_keeps_value :
    (p : Position) (n : ℕ) (price : Decimal) {p' : Position}
    → apply_sell p n price ≡ ok p'
    → total_pnl p' price ≈d total_pnl p price
unfolding unrealised
sale_keeps_value p n price {p'} h =
    let (one, le, e) = apply_sell-inv p n price h in
    let gain = price -d p.avg_cost in
    let left = of_nat (p.qty - n) in
    let rest = (price -d (sold p n price).avg_cost) *d left in
    let booked = p.realised_pnl +d gain *d of_nat n in
    let split : n + (p.qty - n) ≡ p.qty = omega arith in
    let whole : gain *d of_nat n +d gain *d left ≈d gain *d of_nat p.qty =
      ≈d_sym (gain *d of_nat p.qty) (gain *d of_nat n +d gain *d left)
        (rw split at (mul_of_nat_add gain n (p.qty - n))) in
    rw e (
      ≈d_trans (booked +d rest) (booked +d gain *d left) (p.realised_pnl +d gain *d of_nat p.qty)
        (add_congr booked booked rest (gain *d left) (≈d_refl booked) (sold-rest p n price))
        (≈d_trans (booked +d gain *d left) (p.realised_pnl +d (gain *d of_nat n +d gain *d left))
          (p.realised_pnl +d gain *d of_nat p.qty)
          (add_assoc_d p.realised_pnl (gain *d of_nat n) (gain *d left))
          (add_congr p.realised_pnl p.realised_pnl (gain *d of_nat n +d gain *d left)
            (gain *d of_nat p.qty) (≈d_refl p.realised_pnl) whole)))

-- A sale that is accepted is of one share or more. It takes the shares away, books their gain over
-- the average cost and keeps that cost for the shares that are left; and it neither makes nor loses
-- anything at its price.
pub apply_sell_pnl :
    (p : Position) (n : ℕ) (price : Decimal) {p' : Position}
    → apply_sell p n price ≡ ok p'
    → (1 ≤ n) × IsSold p n price p' × (total_pnl p' price ≈d total_pnl p price)
apply_sell_pnl p n price h =
    ((apply_sell-inv p n price h).0, apply_sell-IsSold p n price h, sale_keeps_value p n price h)
