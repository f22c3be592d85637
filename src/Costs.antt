-- ===== src/Costs.antt =====
-- backend/src/stk/domain/costs.py: the charges of one order leg. Rates and turnover are decimals;
-- every rounded charge is an integer number of paise.
pub mod Types
pub mod Tariff
pub mod Bounds
pub use Types.*
use stock_analyser.Prelude.{
  ℕ, ◌≡◌, Bool, true, false, if◌then◌else◌, ℤ, pos, ◌+ℤ◌, Result, ok, err, ◌>>=◌, ◌>>◌, raise_if,
}
use stock_analyser.Decimal.{Decimal, zero_d, one_d, ◌+d◌, ◌*d◌, div_nat, ltd, min_d}
use stock_analyser.Money.{to_money, of_money}

-- The names that `BrokerageRule.model` may hold; `other_model` is any other string.
pub data BrokerageModel : Type 0 where
  flat_per_order pct_of_turnover min_of_pct_and_flat other_model : BrokerageModel

pub record BrokerageRule : Type 0 where
  pub model : BrokerageModel
  pub pct : Decimal
  pub flat : Decimal

-- The `ValueError`s of the module.
pub data CostError : Type 0 where
  unknown_brokerage_model negative_turnover : CostError

-- `BrokerageRule.charge`, by the model's name.
unfoldable pub charge : BrokerageModel → BrokerageRule → Decimal → Result CostError Decimal
charge flat_per_order rule turnover = ok rule.flat
charge pct_of_turnover rule turnover = ok (turnover *d rule.pct)
charge min_of_pct_and_flat rule turnover = ok (min_d (turnover *d rule.pct) rule.flat)
charge other_model rule turnover = err unknown_brokerage_model

pub record ProductRates : Type 0 where
  pub brokerage : BrokerageRule
  pub stt_buy : Decimal
  pub stt_sell : Decimal
  pub stamp_buy : Decimal
  pub stamp_sell : Decimal

-- The keys of the `taxable` dict.
pub data ChargeName : Type 0 where
  brokerage_name exchange_txn_name sebi_turnover_fee_name ipft_name stt_name stamp_duty_name :
      ChargeName

-- `gst_applies_to` is the membership test of the frozenset. Names that are no charge have no
-- effect on the tax, so they are left out.
pub record CostRates : Type 0 where
  pub gst_rate : Decimal
  pub gst_applies_to : ChargeName → Bool
  pub delivery_rates : ProductRates
  pub intraday_rates : ProductRates
  pub exchange_txn_rate : Decimal
  pub ipft_per_crore : Decimal
  pub sebi_rate : Decimal
  pub dp_charge_inr : Decimal
  pub dp_gst_applicable : Bool

unfoldable pub for_product : CostRates → Product → ProductRates
for_product rates delivery = rates.delivery_rates
for_product rates intraday = rates.intraday_rates

pub record CostBreakdown : Type 0 where
  pub turnover : Decimal
  pub brokerage : ℤ
  pub stt : ℤ
  pub stamp_duty : ℤ
  pub exchange_txn : ℤ
  pub ipft : ℤ
  pub sebi_fee : ℤ
  pub gst : ℤ

-- `CostBreakdown.total`
unfoldable pub total : CostBreakdown → ℤ
total b = b.brokerage +ℤ b.stt +ℤ b.stamp_duty +ℤ b.exchange_txn +ℤ b.ipft +ℤ b.sebi_fee +ℤ b.gst

abbrev pub stt_rate : Side → ProductRates → Decimal
stt_rate buy pr = pr.stt_buy
stt_rate sell pr = pr.stt_sell

abbrev pub stamp_rate : Side → ProductRates → Decimal
stamp_rate buy pr = pr.stamp_buy
stamp_rate sell pr = pr.stamp_sell

-- A charge's part in the tax base.
abbrev pub taxed : Bool → ℤ → ℤ
taxed b amount = if b then amount else pos 0

-- The sum over `gst_applies_to` of the charges that are in the `taxable` dict.
unfoldable pub gst_base : (ChargeName → Bool) → CostBreakdown → ℤ
gst_base applies b =
    taxed (applies brokerage_name) b.brokerage
    +ℤ taxed (applies exchange_txn_name) b.exchange_txn
    +ℤ taxed (applies sebi_turnover_fee_name) b.sebi_fee
    +ℤ taxed (applies ipft_name) b.ipft
    +ℤ taxed (applies stt_name) b.stt
    +ℤ taxed (applies stamp_duty_name) b.stamp_duty

-- The charges before tax, for a brokerage that is already rounded.
unfoldable pub before_tax : Side → ProductRates → CostRates → Decimal → ℤ → CostBreakdown
before_tax side pr rates turnover brokerage = record {
  turnover = turnover;
  brokerage = brokerage;
  stt = to_money (turnover *d stt_rate side pr);
  stamp_duty = to_money (turnover *d stamp_rate side pr);
  exchange_txn = to_money (turnover *d rates.exchange_txn_rate);
  ipft = to_money (div_nat turnover 10_000_000 *d rates.ipft_per_crore);
  sebi_fee = to_money (turnover *d rates.sebi_rate);
  gst = pos 0;
}

unfoldable pub with_tax : CostRates → CostBreakdown → CostBreakdown
with_tax rates b = record b {
  gst = to_money (of_money (gst_base rates.gst_applies_to b) *d rates.gst_rate);
}

unfoldable pub compute_costs : Side → Product → Decimal → CostRates → Result CostError CostBreakdown
unfolding for_product charge before_tax with_tax gst_base
compute_costs side product turnover rates = do
  raise_if (ltd turnover zero_d) negative_turnover
  let pr = for_product rates product
  brokerage ← charge pr.brokerage.model pr.brokerage turnover
  ok (with_tax rates (before_tax side pr rates turnover (to_money brokerage)))

unfoldable pub dp_charge : CostRates → ℤ
dp_charge rates = to_money (
    if rates.dp_gst_applicable
    then rates.dp_charge_inr *d (one_d +d rates.gst_rate)
    else rates.dp_charge_inr)
