-- ===== src/Costs/Tariff.antt =====
-- Rates that are not negative, and the brokerage rule at such rates.
use stock_analyser.Prelude.{◌≡◌, inl, inr, ok, pos, ◌≤ℤ◌}
use stock_analyser.Decimal.{Decimal, zero_d, ◌≤d◌, ◌*d◌, min_d}
use stock_analyser.Decimal.Order.{≤d_refl, ≤d_trans, min_d-le, min_d-cases}
use stock_analyser.Decimal.Field.{mul_mono_right, mul_nonneg_d}
use stock_analyser.Money.{to_money, round_half_up}
use stock_analyser.Money.Rounding.{to_money_mono}
use stock_analyser.Costs.{
  BrokerageModel, flat_per_order, pct_of_turnover, min_of_pct_and_flat, other_model, BrokerageRule,
  ProductRates, CostRates, charge,
}

pub to_money_nonneg : (a : Decimal) → zero_d ≤d a → pos 0 ≤ℤ to_money a
unfolding to_money round_half_up
to_money_nonneg a h = to_money_mono zero_d a h

-- Rates that are not negative.
pub record IsCharge (rule : BrokerageRule) : Type 0 where
  pub pct : zero_d ≤d rule.pct
  pub flat : zero_d ≤d rule.flat

pub record IsTariff (pr : ProductRates) : Type 0 where
  pub brokerage : IsCharge pr.brokerage
  pub stt_buy : zero_d ≤d pr.stt_buy
  pub stt_sell : zero_d ≤d pr.stt_sell
  pub stamp_buy : zero_d ≤d pr.stamp_buy
  pub stamp_sell : zero_d ≤d pr.stamp_sell

pub record IsSchedule (rates : CostRates) : Type 0 where
  pub gst_rate : zero_d ≤d rates.gst_rate
  pub delivery_rates : IsTariff rates.delivery_rates
  pub intraday_rates : IsTariff rates.intraday_rates
  pub exchange_txn_rate : zero_d ≤d rates.exchange_txn_rate
  pub ipft_per_crore : zero_d ≤d rates.ipft_per_crore
  pub sebi_rate : zero_d ≤d rates.sebi_rate

pub min_d_mono : (a b c : Decimal) → a ≤d b → min_d a c ≤d min_d b c
min_d_mono a b c h = elim (min_d-cases b c) [
  | inl e ↦ rw e (≤d_trans (min_d a c) a b (min_d-le a c).0 h)
  | inr e ↦ rw e (min_d-le a c).1
]

pub charge_mono :
    (m : BrokerageModel) (rule : BrokerageRule) (t u : Decimal) {x y : Decimal}
    → IsCharge rule
    → t ≤d u
    → charge m rule t ≡ ok x
    → charge m rule u ≡ ok y
    → x ≤d y
unfolding charge
charge_mono flat_per_order rule t u {x} {y} w h p q = let e : x ≡ y = cc in rw e (≤d_refl y)
charge_mono pct_of_turnover rule t u {x} {y} w h p q =
    let ex : t *d rule.pct ≡ x = cc in
    let ey : u *d rule.pct ≡ y = cc in rw (← ex) (rw (← ey) (mul_mono_right t u rule.pct w.pct h))
charge_mono min_of_pct_and_flat rule t u {x} {y} w h p q =
    let ex : min_d (t *d rule.pct) rule.flat ≡ x = cc in
    let ey : min_d (u *d rule.pct) rule.flat ≡ y = cc in
    rw (← ex) (
      rw (← ey) (
        min_d_mono (t *d rule.pct) (u *d rule.pct) rule.flat (mul_mono_right t u rule.pct w.pct h)))
charge_mono other_model rule t u {x} {y} w h p q = cc p

pub charge_nonneg :
    (m : BrokerageModel) (rule : BrokerageRule) (t : Decimal) {x : Decimal}
    → IsCharge rule
    → zero_d ≤d t
    → charge m rule t ≡ ok x
    → zero_d ≤d x
unfolding charge
charge_nonneg flat_per_order rule t {x} w h p = let e : rule.flat ≡ x = cc in rw (← e) w.flat
charge_nonneg pct_of_turnover rule t {x} w h p =
    let e : t *d rule.pct ≡ x = cc in rw (← e) (mul_nonneg_d t rule.pct h w.pct)
charge_nonneg min_of_pct_and_flat rule t {x} w h p =
    let e : min_d (t *d rule.pct) rule.flat ≡ x = cc in
    rw (← e) (elim (min_d-cases (t *d rule.pct) rule.flat) [
      | inl a ↦ rw a (mul_nonneg_d t rule.pct h w.pct)
      | inr b ↦ rw b w.flat
    ])
charge_nonneg other_model rule t w h p = cc p
