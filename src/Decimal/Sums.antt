-- ===== src/Decimal/Sums.antt =====
-- Identities of sums and differences, each proved for any denominators.
use stock_analyser.Prelude.{ℕ, ◌+◌, ◌*◌, ◌≡◌, arith}
use stock_analyser.Decimal.{Decimal, ◌+d◌, ◌-d◌, ◌≈d◌, den}
use stock_analyser.Decimal.Field.{suc-mul_pred}

cross_sub_sums :
    (p p' q q' r r' s s' a b c d : ℕ)
    → ((p * b + q * a) * (c * d) + (r' * d + s' * c) * (a * b)) * ((a * d) * (b * c))
        + ((p' * d + s * a) * (b * c) + (q' * c + r * b) * (a * d)) * ((a * b) * (c * d))
      ≡ ((p * d + s' * a) * (b * c) + (q * c + r' * b) * (a * d)) * ((a * b) * (c * d))
        + ((p' * b + q' * a) * (c * d) + (r * d + s * c) * (a * b)) * ((a * d) * (b * c))
cross_sub_sums p p' q q' r r' s s' a b c d = omega arith

pub sub_sums : (c x n p : Decimal) → (c +d x) -d (n +d p) ≈d (c -d p) +d (x -d n)
unfolding ◌+d◌ ◌-d◌
sub_sums c x n p =
    simp suc-mul_pred (
      cross_sub_sums c.up c.down x.up x.down n.up n.down p.up p.down (den c) (den x) (den n)
        (den p))

cross_sale_gain :
    (p p' q q' r r' s s' a b c d : ℕ)
    → ((p * b + q' * a) * (((a * c) * d) * b)
            + (((p' * c + r * a) * d + s * (a * c)) * b + q * ((a * c) * d)) * (a * b))
          * (c * d)
        + (r' * d + s' * c) * ((a * b) * (((a * c) * d) * b))
      ≡ (r * d + s * c) * ((a * b) * (((a * c) * d) * b))
        + ((p' * b + q * a) * (((a * c) * d) * b)
            + (((p * c + r' * a) * d + s' * (a * c)) * b + q' * ((a * c) * d)) * (a * b))
          * (c * d)
cross_sale_gain p p' q q' r r' s s' a b c d = omega arith

pub sale_gain : (g k e a : Decimal) → (g -d k) -d (((g -d e) -d a) -d k) ≈d e +d a
unfolding ◌+d◌ ◌-d◌
sale_gain g k e a = simp suc-mul_pred (
    cross_sale_gain g.up g.down k.up k.down e.up e.down a.up a.down (den g) (den k) (den e) (den a))

cross_refill :
    (p p' q q' r r' s s' a b c d : ℕ)
    → ((p * b + q * a) * (c * (d * b)) + (r * (d * b) + (s * b + q' * d) * c) * (a * b))
          * ((c * a) * d)
        + ((r' * a + p' * c) * d + s' * (c * a)) * ((a * b) * (c * (d * b)))
      ≡ ((r * a + p * c) * d + s * (c * a)) * ((a * b) * (c * (d * b)))
        + ((p' * b + q' * a) * (c * (d * b)) + (r' * (d * b) + (s' * b + q * d) * c) * (a * b))
          * ((c * a) * d)
cross_refill p p' q q' r r' s s' a b c d = omega arith

pub refill : (e a r l : Decimal) → (e +d a) +d (r +d (l -d a)) ≈d (r +d e) +d l
unfolding ◌+d◌ ◌-d◌
refill e a r l =
    simp suc-mul_pred
      (cross_refill e.up e.down a.up a.down r.up r.down l.up l.down (den e) (den a) (den r) (den l))

cross_swap_right :
    (p p' q q' r r' a b c : ℕ)
    → ((p * b + q * a) * c + r * (a * b)) * ((a * c) * b)
        + ((p' * c + r' * a) * b + q' * (a * c)) * ((a * b) * c)
      ≡ ((p * c + r * a) * b + q * (a * c)) * ((a * b) * c)
        + ((p' * b + q' * a) * c + r' * (a * b)) * ((a * c) * b)
cross_swap_right p p' q q' r r' a b c = omega arith

pub swap_right : (a b c : Decimal) → (a +d b) +d c ≈d (a +d c) +d b
unfolding ◌+d◌ ◌-d◌
swap_right a b c =
    simp suc-mul_pred (cross_swap_right a.up a.down b.up b.down c.up c.down (den a) (den b) (den c))

cross_spend :
    (p p' q q' r r' s s' a b c d : ℕ)
    → (((p * b + q' * a) * c + r' * (a * b)) * (d * b) + (s * b + q * d) * ((a * b) * c))
          * ((a * c) * d)
        + ((p' * c + r * a) * d + s' * (a * c)) * (((a * b) * c) * (d * b))
      ≡ ((p * c + r' * a) * d + s * (a * c)) * (((a * b) * c) * (d * b))
        + (((p' * b + q * a) * c + r * (a * b)) * (d * b) + (s' * b + q' * d) * ((a * b) * c))
          * ((a * c) * d)
cross_spend p p' q q' r r' s s' a b c d = omega arith

pub spend : (c o p h : Decimal) → ((c -d o) -d p) +d (h +d o) ≈d (c -d p) +d h
unfolding ◌+d◌ ◌-d◌
spend c o p h =
    simp suc-mul_pred
      (cross_spend c.up c.down o.up o.down p.up p.down h.up h.down (den c) (den o) (den p) (den h))
