-- ===== src/Positions/Splits.antt =====
-- A split or a bonus conserves the cost and the share count, up to what it reports as dropped.
use stock_analyser.Prelude.{
  ℕ, suc, ◌-◌, ◌≡◌, ◌≢◌, inl, inr, refl, arith, ok, Bool-cases, ◌==◌, ==_iff,
}
use stock_analyser.Decimal.{
  Decimal, of_nat, zero_d, one_d, ◌≤d◌, ◌<d◌, ◌≈d◌, ◌+d◌, ◌-d◌, ◌*d◌, div_nat, div, floor_nat,
}
use stock_analyser.Decimal.Order.{≈d_trans, led-cases, ≤d_of_<d, not-<d_of_≤d}
use stock_analyser.Decimal.Field.{div_nat-mul, sub_nonneg, floor_nat_iff, nonneg-mul}
use stock_analyser.Decimal.Ring.{add_congr}
use stock_analyser.Positions.{Position, SplitResult, cost_basis, split_to, apply_split_or_bonus}

-- What a split reports against the position `p` and the exact entitlement.
pub record IsConserved (p : Position) (exact : Decimal) (r : SplitResult) : Type 0 where
  pub cost : cost_basis r.position +d r.dropped_cost ≈d cost_basis p
  pub shares : of_nat r.position.qty +d r.dropped_shares ≈d exact
  pub dropped_nonneg : zero_d ≤d r.dropped_shares
  pub dropped_small : r.dropped_shares <d one_d
  pub pnl : r.position.realised_pnl ≡ p.realised_pnl

zero-add_d : (a : Decimal) → zero_d *d of_nat 0 +d a ≈d a
unfolding ◌*d◌ ◌+d◌
zero-add_d a = omega arith

of_nat_zero-add : (a : Decimal) → of_nat 0 +d a ≈d a
unfolding ◌+d◌
of_nat_zero-add a = omega arith

add-sub : (a b : Decimal) → a +d (b -d a) ≈d b
unfolding ◌-d◌ ◌+d◌
add-sub a b = omega arith

whole_share : (a : Decimal) → ¬ (of_nat 1 ≤d a) → a <d one_d
whole_share a h = omega arith

below_next : (n : ℕ) (a : Decimal) → ¬ (of_nat (suc n) ≤d a) → a -d of_nat n <d one_d
unfolding ◌-d◌
below_next n a h = omega arith

kept-cost : (cb kept : Decimal) (n : ℕ) → n ≢ 0 → (div_nat kept n *d of_nat n) +d (cb -d kept) ≈d cb
kept-cost cb kept n ne =
    let e : n ≡ suc (n - 1) = omega arith in
    rw e (
      ≈d_trans (div_nat kept (suc (n - 1)) *d of_nat (suc (n - 1)) +d (cb -d kept))
        (kept +d (cb -d kept)) cb
        (add_congr (div_nat kept (suc (n - 1)) *d of_nat (suc (n - 1))) kept (cb -d kept)
          (cb -d kept) (div_nat-mul kept (n - 1)) refl)
        (add-sub kept cb))

split_to-IsConserved :
    (p : Position) (exact : Decimal)
    → zero_d ≤d exact
    → IsConserved p exact (split_to p exact (floor_nat exact))
unfolding split_to cost_basis
split_to-IsConserved p exact h =
    let n = floor_nat exact in
    let cb = p.avg_cost *d of_nat p.qty in
    let kept = div (cb *d of_nat n) exact in
    let fits = (floor_nat_iff exact n h).1 (omega arith) in
    let over : ¬ (of_nat (suc n) ≤d exact) =
      λ x. omega (arith, (floor_nat_iff exact (suc n) h).0 x) in
    elim (Bool-cases (n == 0)) [
      | inl e ↦
          let none_left : n ≡ 0 = (==_iff n 0).0 e in
          rw e (record {
            cost = zero-add_d (p.avg_cost *d of_nat p.qty);
            shares = of_nat_zero-add exact;
            dropped_nonneg = h;
            dropped_small = whole_share exact (rw none_left at over);
            pnl = refl;
          })
      | inr e ↦
          let ne : n ≢ 0 = λ z. ground (arith, e, z) in
          rw e (record {
            cost = kept-cost cb kept n ne;
            shares = add-sub (of_nat n) exact;
            dropped_nonneg = sub_nonneg exact (of_nat n) fits;
            dropped_small = below_next n exact over;
            pnl = refl;
          })
    ]

-- A position with no share is left alone.
closed-IsConserved :
    (p : Position) (factor : Decimal)
    → p.qty ≡ 0
    → IsConserved p
        (of_nat p.qty *d factor)
        (record { position = p; dropped_shares = zero_d; dropped_cost = zero_d })
unfolding cost_basis ◌*d◌ ◌+d◌
closed-IsConserved p factor e = rw e (record {
  cost = omega arith;
  shares = omega arith;
  dropped_nonneg = omega arith;
  dropped_small = omega arith;
  pnl = refl;
})

-- A split by a positive factor is accepted. The cost basis and what is written off make the old
-- cost basis, the new count and the dropped fraction make the exact entitlement, the fraction is
-- less than one share, and the booked gain stays.
pub apply_split_or_bonus_conserves :
    (p : Position) (factor : Decimal)
    → zero_d <d factor
    → (r : SplitResult) × (apply_split_or_bonus p factor ≡ ok r)
      × IsConserved p (of_nat p.qty *d factor) r
unfolding apply_split_or_bonus
apply_split_or_bonus_conserves p factor h = elim (led-cases factor zero_d) [
  | inl (e, le) ↦ absurd (not-<d_of_≤d factor zero_d le h)
  | inr (e, lt) ↦ rw e (elim (Bool-cases (p.qty == 0)) [
    | inl z ↦ rw z (_, refl, closed-IsConserved p factor ((==_iff p.qty 0).0 z))
    | inr z ↦ rw z (
      _,
      refl,
      split_to-IsConserved p (of_nat p.qty *d factor)
          (nonneg-mul p.qty factor (≤d_of_<d zero_d factor h)),
    )
  ])
]
