-- ===== src/Decimal/Same.antt =====
-- Equality of values as a relation that keeps its two sides, and its calculus.
use stock_analyser.Prelude.{ℕ, ◌+◌, ◌-◌, ◌≤◌, ◌≡◌, refl, subst, arith}
use stock_analyser.Decimal.{Decimal, zero_d, of_nat, ◌+d◌, ◌-d◌, ◌*d◌, ◌≈d◌}
use stock_analyser.Decimal.Order.{≈d_sym, ≈d_trans}
use stock_analyser.Decimal.Field.{add_comm_d}
use stock_analyser.Decimal.Ring.{add_assoc_d, add_congr, sub_congr, mul-sub, mul_of_nat_add}
use stock_analyser.Decimal.Sums.{sub_sums, sale_gain, refill, swap_right}

pub record Alike (a b : Decimal) : Type 0 where
  pub eq : a ≈d b

pub same : {a b : Decimal} → a ≈d b → Alike a b
same h = record { eq = h }

pub same_refl : {a : Decimal} → Alike a a
same_refl = record { eq = refl }

pub same_sym : {a b : Decimal} → Alike a b → Alike b a
same_sym {a} {b} h = record { eq = ≈d_sym a b h.eq }

infixr 30 ◌⨾◌
pub ◌⨾◌ : {a b c : Decimal} → Alike a b → Alike b c → Alike a c
◌⨾◌ {a} {b} {c} h k = record { eq = ≈d_trans a b c h.eq k.eq }

pub same_add : {a b c d : Decimal} → Alike a b → Alike c d → Alike (a +d c) (b +d d)
same_add {a} {b} {c} {d} h k = record { eq = add_congr a b c d h.eq k.eq }

pub same_sub : {a b c d : Decimal} → Alike a b → Alike c d → Alike (a -d c) (b -d d)
same_sub {a} {b} {c} {d} h k = record { eq = sub_congr a b c d h.eq k.eq }

pub same_assoc : (a b c : Decimal) → Alike (a +d b +d c) (a +d (b +d c))
same_assoc a b c = same (add_assoc_d a b c)

pub same_comm : (a b : Decimal) → Alike (a +d b) (b +d a)
same_comm a b = same (add_comm_d a b)

pub same_swap : (a b c : Decimal) → Alike (a +d b +d c) (a +d c +d b)
same_swap a b c = same (swap_right a b c)

pub same_zero : (a : Decimal) → Alike (a +d zero_d) a
unfolding ◌+d◌
same_zero a = same (omega arith)

pub same_sub_self : (a : Decimal) → Alike (a -d a) zero_d
unfolding ◌-d◌
same_sub_self a = same (omega arith)

-- A part and the rest of a quantity, at one price.
pub same_split :
    (price : Decimal) (n k : ℕ)
    → k ≤ n
    → Alike (price *d of_nat (n - k) +d price *d of_nat k) (price *d of_nat n)
same_split price n k h =
    let whole : n - k + k ≡ n = omega arith in
    subst (λ m. Alike (price *d of_nat (n - k) +d price *d of_nat k) (price *d of_nat m)) whole
      (same_sym (same (mul_of_nat_add price (n - k) k)))

-- The books of one sale of `k` out of `n` at `px`, bought at `price`: cash less the profit, plus
-- what the rest cost, is what it was.
pub same_sale :
    (cash pnl px price costs left alloc : Decimal) (n k : ℕ)
    → k ≤ n
    → (let net = ((px -d price) *d of_nat k -d alloc) -d costs in
        Alike
          (((cash +d (px *d of_nat k -d costs)) -d (net +d pnl))
            +d (price *d of_nat (n - k) +d (left -d alloc)))
          ((cash -d pnl) +d (price *d of_nat n +d left)))
same_sale cash pnl px price costs left alloc n k h =
    let g = px *d of_nat k in
    let e = price *d of_nat k in
    let rest = price *d of_nat (n - k) +d (left -d alloc) in
    let gross = same (mul-sub px price (of_nat k)) in
    let net = same_sub (same_sub gross (same_refl {a = alloc})) (same_refl {a = costs}) in
    let gain = same_sub (same_refl {a = g -d costs}) net ⨾ same (sale_gain g costs e alloc) in
    same_add (same (sub_sums cash (g -d costs) _ pnl) ⨾ same_add same_refl gain)
      (same_refl {a = rest})
    ⨾ same_assoc (cash -d pnl) (e +d alloc) rest
    ⨾ same_add same_refl (
        same (refill e alloc (price *d of_nat (n - k)) left)
        ⨾ same_add (same_split price n k h) same_refl)
