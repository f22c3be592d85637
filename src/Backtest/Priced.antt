-- ===== src/Backtest/Priced.antt =====
-- The amounts of backend/src/stk/backtest/engine.py that are known under a sound configuration.
use stock_analyser.Prelude.{
  ℕ, suc, ◌+◌, ◌-◌, ◌*◌, ◌≤◌, ◌≡◌, refl, ap, ◌∙◌, inl, inr, Bool, true, false, Option, none, some,
  List, ◌∷◌, Member, pos, leb, ◌/◌, arith, Result, ok, ◌>>=◌,
}
use native.Mathlib.Nat.{mul-le-mul_right}
use stock_analyser.Decimal.{
  Decimal, zero_d, one_d, of_nat, den, ◌-d◌, ◌≤d◌, ◌<d◌, div_nat, eqd, quotient,
}
use stock_analyser.Decimal.Order.{ltd-cases, <d-≤d_trans, ≤d_of_<d}
use stock_analyser.Decimal.Field.{mul_nonneg_d, div_pos}
use stock_analyser.Money.{to_money, of_money}
use stock_analyser.Costs.{
  Side, Product, buy, sell, CostRates, CostBreakdown, BrokerageModel, BrokerageRule, flat_per_order,
  pct_of_turnover, min_of_pct_and_flat, other_model, charge, compute_costs, for_product, total,
  with_tax, before_tax,
}
use stock_analyser.Slippage.{SlippageTier, apply_slippage, slippage_bps}
use stock_analyser.Slippage.Tiers.{slippage_bps_known, slippage_bps_unknown}
use stock_analyser.Slippage.Fraction.{apply_slippage-IsAdverse}
use stock_analyser.Backtest.Triggers.{IsBar}
use stock_analyser.Backtest.{Bar, Config, EngineError, recast, slippage_error}
use stock_analyser.Backtest.Amounts.{divide, truncate, slip_bps, leg_costs}

-- A step that comes to a value.
abbrev pub Returns : {A : Type 0} → Result EngineError A → Type 0
Returns {A} run = (a : A) × (run ≡ ok a)

-- It goes on from the value of its first step.
pub go_on :
    {A B : Type 0} (run : Result EngineError A) (next : A → Result EngineError B) {a : A}
    → run ≡ ok a
    → Returns (next a)
    → Returns (run >>= next)
go_on run next e (b, k) = (b, ap (λ r. r >>= next) e ∙ k)

pub positive_count : (n : ℕ) → 1 ≤ n → zero_d <d of_nat n
positive_count n h = omega arith

-- The prices of a bar are positive, and its open and close lie between its low and its high.
pub record IsPriced (row : Bar) : Type 0 where
  pub shaped : IsBar row
  pub worth : zero_d <d row.low

abbrev pub is_known_model : BrokerageModel → Bool
is_known_model flat_per_order = true
is_known_model pct_of_turnover = true
is_known_model min_of_pct_and_flat = true
is_known_model other_model = false

-- A configuration that the engine can run with: at least one tier, each of at most all of the
-- price, brokerage rules that the program knows, a participation of at most the whole volume and
-- room for a position.
pub record IsConfig (cfg : Config) : Type 0 where
  pub tiered : (t : SlippageTier) × (ts : List SlippageTier) × (cfg.tiers ≡ t ∷ ts)
  pub modest : (t : SlippageTier) → Member t cfg.tiers → (zero_d ≤d t.bps) × (t.bps ≤d of_nat 10000)
  pub tariff :
      (d : ℕ) → is_known_model (for_product (cfg.rates_for d) cfg.product).brokerage.model ≡ true
  pub cap_pos : zero_d <d cfg.participation_cap
  pub cap_whole : cfg.participation_cap ≤d one_d
  pub roomy : 1 ≤ cfg.max_pos

pub slip_bps-known :
    (cfg : Config) (adv : Option Decimal)
    → IsConfig cfg
    → (bps : Decimal) × (slip_bps cfg adv ≡ ok bps) × (zero_d ≤d bps) × (bps ≤d of_nat 10000)
unfolding slip_bps
slip_bps-known cfg none c =
    let (t, ts, e) = c.tiered in
    let modest = c.modest in
    let (d, m, eq, least) = slippage_bps_unknown t ts in
    let (low, high) = modest d (rw e m) in
    (
      d.bps,
      ap (λ tiers. recast slippage_error (slippage_bps none tiers)) e
          ∙ ap (λ r. recast slippage_error r) eq,
      low,
      high,
    )
slip_bps-known cfg (some adv) c =
    let (t, ts, e) = c.tiered in
    let modest = c.modest in
    let (d, m, eq, decisive) = slippage_bps_known adv t ts in
    let (low, high) = modest d (rw e m) in
    (
      d.bps,
      ap (λ tiers. recast slippage_error (slippage_bps (some adv) tiers)) e
          ∙ ap (λ r. recast slippage_error r) eq,
      low,
      high,
    )

charge-known :
    (m : BrokerageModel) (rule : BrokerageRule) (turnover : Decimal)
    → is_known_model m ≡ true
    → (fee : Decimal) × (charge m rule turnover ≡ ok fee)
unfolding charge
charge-known flat_per_order rule turnover h = (_, refl)
charge-known pct_of_turnover rule turnover h = (_, refl)
charge-known min_of_pct_and_flat rule turnover h = (_, refl)
charge-known other_model rule turnover h = cc

compute_costs-known :
    (side : Side) (product : Product) (turnover : Decimal) (rates : CostRates)
    → zero_d ≤d turnover
    → is_known_model (for_product rates product).brokerage.model ≡ true
    → (b : CostBreakdown) × (compute_costs side product turnover rates ≡ ok b)
unfolding compute_costs
compute_costs-known side product turnover rates h k = elim (ltd-cases turnover zero_d) [
  | inl (e, lt) ↦ absurd (omega arith)
  | inr (e, le) ↦
      let rule = (for_product rates product).brokerage in
      let (fee, known) = charge-known rule.model rule turnover k in
      (
        with_tax rates (before_tax side (for_product rates product) rates turnover (to_money fee)),
        rw (e, known) refl,
      )
]

-- The charges of a leg are known.
pub leg_costs-known :
    (cfg : Config) (side : Side) (turnover : Decimal) (d : ℕ)
    → IsConfig cfg
    → zero_d ≤d turnover
    → (costs : Decimal) × (leg_costs cfg side turnover d ≡ ok costs)
unfolding leg_costs
leg_costs-known cfg side turnover d c h =
    let (b, e) = compute_costs-known side cfg.product turnover (cfg.rates_for d) h (c.tariff d) in
    (of_money (total b), rw e refl)

part_of_price : (bps : Decimal) → bps ≤d of_nat 10000 → zero_d ≤d one_d -d div_nat bps 10000
unfolding ◌-d◌ div_nat
part_of_price bps h = omega arith

pub sale_price_nonneg :
    (price bps : Decimal)
    → zero_d ≤d price
    → bps ≤d of_nat 10000
    → zero_d ≤d apply_slippage price sell bps
unfolding apply_slippage
sale_price_nonneg price bps h k = mul_nonneg_d price _ h (part_of_price bps k)

pub buy_price_positive :
    (price bps : Decimal) → zero_d <d price → zero_d ≤d bps → zero_d <d apply_slippage price buy bps
buy_price_positive price bps h k =
    <d-≤d_trans zero_d price _ h
      (apply_slippage-IsAdverse price buy bps (≤d_of_<d zero_d price h) k)

-- A quotient by a positive value is known, and keeps the sign.
pub divide-known : (a b : Decimal) → zero_d <d b → divide a b ≡ ok (quotient a b)
unfolding divide eqd
divide-known a b h = ground arith

positive_gap : (p q : ℕ) → suc q ≤ p → p ≡ q + suc (p - suc q)
positive_gap p q h = omega arith

pub quotient_nonneg : (a b : Decimal) → zero_d ≤d a → zero_d <d b → zero_d ≤d quotient a b
unfolding quotient
quotient_nonneg a b h k = elim (ltd-cases b zero_d) [
  | inl (e, lt) ↦ absurd (omega arith)
  | inr (e, le) ↦
      rw (e, div_pos a b (b.up - suc b.down) (positive_gap b.up b.down (omega arith)))
        (omega (arith, scaled a.up a.down (den b) (omega arith)))
]
  where
    scaled : (p q n : ℕ) → q ≤ p → q * n ≤ p * n
    scaled p q n h = mul-le-mul_right n h

pub truncate_nonneg : (a : Decimal) → zero_d ≤d a → (n : ℕ) × (truncate a ≡ pos n)
unfolding truncate
truncate_nonneg a h =
    let le : leb a.down a.up ≡ true = ground arith in ((a.up - a.down) / den a, rw le refl)
