-- ===== src/Backtest/Sizing.antt =====
-- The sizing loop of `_size_buy` in backend/src/stk/backtest/engine.py.
use stock_analyser.Prelude.{
  ℕ, zero, suc, ◌≤◌, ◌<◌, ◌≡◌, refl, subst, ◌⊎◌, inl, inr, arith, ok, >>=-eq-ok, ok-injective,
  le-cases,
}
use stock_analyser.Decimal.{Decimal, of_nat, ◌+d◌, ◌*d◌, ◌≤d◌, ◌<d◌}
use stock_analyser.Decimal.Order.{ltd-cases}
use stock_analyser.Costs.{buy}
use stock_analyser.Backtest.{Config}
use stock_analyser.Backtest.Amounts.{leg_costs}
use stock_analyser.Backtest.Entries.{shrink}

-- What a buy of `k` costs, charges included.
abbrev pub Outlay : Decimal → ℕ → Decimal → Decimal
Outlay px k costs = px *d of_nat k +d costs

-- The charges of a buy of `k` are known, and the cash does not pay it.
abbrev pub IsTooDear : Config → Decimal → Decimal → ℕ → ℕ → Type 0
IsTooDear cfg cash px d k =
    (costs : Decimal) × (leg_costs cfg buy (px *d of_nat k) d ≡ ok costs)
    × (cash <d Outlay px k costs)

-- The loop ends with the largest quantity, up to the one that it starts from, that the cash pays
-- together with its charges: the charges are those of that quantity, every larger one is too dear,
-- and at 0 nothing is left to shrink.
pub shrink_largest :
    (cfg : Config) (cash px : Decimal) (d n qty : ℕ) (costs : Decimal)
    → shrink cfg cash px d n ≡ ok (qty, costs)
    → (qty ≤ n)
      × (leg_costs cfg buy (px *d of_nat qty) d ≡ ok costs)
      × ((qty ≡ 0) ⊎ (Outlay px qty costs ≤d cash))
      × ((k : ℕ) → qty < k → k ≤ n → IsTooDear cfg cash px d k)
unfolding shrink
shrink_largest cfg cash px d zero qty costs h =
    let (c, ec, rest) = >>=-eq-ok (leg_costs cfg buy (px *d of_nat 0) d) _ h in
    let same = ok-injective _ _ rest in
    subst
      (λ (r : ℕ × Decimal).
        (r.0 ≤ 0)
        × (leg_costs cfg buy (px *d of_nat r.0) d ≡ ok r.1)
        × ((r.0 ≡ 0) ⊎ (Outlay px r.0 r.1 ≤d cash))
        × ((k : ℕ) → r.0 < k → k ≤ 0 → IsTooDear cfg cash px d k))
      same (omega arith, ec, inl refl, λ k a b. absurd (omega arith))
shrink_largest cfg cash px d (suc n) qty costs h =
    let (c, ec, rest) = >>=-eq-ok (leg_costs cfg buy (px *d of_nat (suc n)) d) _ h in
    elim (ltd-cases cash (Outlay px (suc n) c)) [
      | inl (e, dear) ↦
          let (le, eq, fits, larger) = shrink_largest cfg cash px d n qty costs (rw e at rest) in
          (
            omega arith,
            eq,
            fits,
            λ k a b. elim (le-cases k n) [
              | inl small ↦ larger k a small
              | inr big ↦
                  let same : suc n ≡ k = omega arith in
                  subst (IsTooDear cfg cash px d) same (c, ec, dear)
            ],
          )
      | inr (e, pays) ↦
          let same = ok-injective _ _ (rw e at rest) in
          subst
            (λ (r : ℕ × Decimal).
              (r.0 ≤ suc n)
              × (leg_costs cfg buy (px *d of_nat r.0) d ≡ ok r.1)
              × ((r.0 ≡ 0) ⊎ (Outlay px r.0 r.1 ≤d cash))
              × ((k : ℕ) → r.0 < k → k ≤ suc n → IsTooDear cfg cash px d k))
            same (omega arith, ec, inr pays, λ k a b. absurd (omega arith))
    ]
