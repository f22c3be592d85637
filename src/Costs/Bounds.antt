-- ===== src/Costs/Bounds.antt =====
-- Charges never turn into credits, and grow with the turnover.
use stock_analyser.Prelude.{
  ℕ, suc, ◌≡◌, inl, inr, refl, Bool, true, false, arith, ok, ℤ, pos, ◌≤ℤ◌, int_laws, >>=-eq-ok,
  ok-injective, sym,
}
use stock_analyser.Decimal.{Decimal, zero_d, ◌≤d◌, ◌*d◌, div_nat}
use stock_analyser.Decimal.Order.{ltd-cases}
use stock_analyser.Decimal.Field.{mul_mono_right, mul_nonneg_d, div_nat_mono}
use stock_analyser.Money.{to_money, of_money}
use stock_analyser.Money.Rounding.{to_money_mono}
use stock_analyser.Costs.{
  Side, Product, buy, sell, delivery, intraday, ChargeName, brokerage_name, exchange_txn_name,
  sebi_turnover_fee_name, ipft_name, stt_name, stamp_duty_name, ProductRates, CostRates,
  CostBreakdown, charge, for_product, total, stt_rate, stamp_rate, taxed, gst_base, before_tax,
  with_tax, compute_costs,
}
use stock_analyser.Costs.Tariff.{IsSchedule, IsTariff, charge_mono, charge_nonneg, to_money_nonneg}

-- Each amount of one breakdown is at most its fellow of another.
pub record IsBelow (a b : CostBreakdown) : Type 0 where
  pub brokerage : a.brokerage ≤ℤ b.brokerage
  pub stt : a.stt ≤ℤ b.stt
  pub stamp_duty : a.stamp_duty ≤ℤ b.stamp_duty
  pub exchange_txn : a.exchange_txn ≤ℤ b.exchange_txn
  pub ipft : a.ipft ≤ℤ b.ipft
  pub sebi_fee : a.sebi_fee ≤ℤ b.sebi_fee
  pub gst : a.gst ≤ℤ b.gst

-- The breakdown of a leg that costs nothing.
abbrev pub free : CostBreakdown
free = record {
  turnover = zero_d;
  brokerage = pos 0;
  stt = pos 0;
  stamp_duty = pos 0;
  exchange_txn = pos 0;
  ipft = pos 0;
  sebi_fee = pos 0;
  gst = pos 0;
}

taxed_mono : (b : Bool) (x y : ℤ) → x ≤ℤ y → taxed b x ≤ℤ taxed b y
taxed_mono true x y h = h
taxed_mono false x y h = omega arith

gst_base_mono :
    (f : ChargeName → Bool) (a b : CostBreakdown) → IsBelow a b → gst_base f a ≤ℤ gst_base f b
unfolding gst_base
gst_base_mono f a b h = omega (
  int_laws,
  taxed_mono (f brokerage_name) a.brokerage b.brokerage h.brokerage,
  taxed_mono (f exchange_txn_name) a.exchange_txn b.exchange_txn h.exchange_txn,
  taxed_mono (f sebi_turnover_fee_name) a.sebi_fee b.sebi_fee h.sebi_fee,
  taxed_mono (f ipft_name) a.ipft b.ipft h.ipft,
  taxed_mono (f stt_name) a.stt b.stt h.stt,
  taxed_mono (f stamp_duty_name) a.stamp_duty b.stamp_duty h.stamp_duty,
)

div_nat_nonneg : (a : Decimal) (n : ℕ) → zero_d ≤d a → zero_d ≤d div_nat a (suc n)
unfolding div_nat
div_nat_nonneg a n h = omega arith

taxed_zero : (b : Bool) → taxed b (pos 0) ≡ pos 0
taxed_zero true = refl
taxed_zero false = refl

gst_base-free : (f : ChargeName → Bool) → gst_base f free ≡ pos 0
unfolding gst_base
gst_base-free f = simp taxed_zero (omega int_laws)

of_money_mono : (x y : ℤ) → x ≤ℤ y → of_money x ≤d of_money y
of_money_mono x y h = omega arith

of_money_nonneg : (x : ℤ) → pos 0 ≤ℤ x → zero_d ≤d of_money x
of_money_nonneg x h = omega arith

stt_rate_nonneg : (side : Side) (pr : ProductRates) → IsTariff pr → zero_d ≤d stt_rate side pr
stt_rate_nonneg buy pr w = w.stt_buy
stt_rate_nonneg sell pr w = w.stt_sell

stamp_rate_nonneg : (side : Side) (pr : ProductRates) → IsTariff pr → zero_d ≤d stamp_rate side pr
stamp_rate_nonneg buy pr w = w.stamp_buy
stamp_rate_nonneg sell pr w = w.stamp_sell

for_product-IsTariff :
    (rates : CostRates) (product : Product)
    → IsSchedule rates
    → IsTariff (for_product rates product)
unfolding for_product
for_product-IsTariff rates delivery w = w.delivery_rates
for_product-IsTariff rates intraday w = w.intraday_rates

module _ (side : Side) (pr : ProductRates) (rates : CostRates) (v : IsTariff pr)
    (w : IsSchedule rates) where
  at_rate :
      (t u rate : Decimal) → zero_d ≤d rate → t ≤d u → to_money (t *d rate) ≤ℤ to_money (u *d rate)
  at_rate t u rate n h = to_money_mono (t *d rate) (u *d rate) (mul_mono_right t u rate n h)

  before_tax_mono :
      (t u : Decimal) (x y : ℤ)
      → t ≤d u
      → x ≤ℤ y
      → IsBelow (before_tax side pr rates t x) (before_tax side pr rates u y)
  unfolding before_tax
  before_tax_mono t u x y h k = record {
    brokerage = k;
    stt = at_rate t u (stt_rate side pr) (stt_rate_nonneg side pr v) h;
    stamp_duty = at_rate t u (stamp_rate side pr) (stamp_rate_nonneg side pr v) h;
    exchange_txn = at_rate t u rates.exchange_txn_rate w.exchange_txn_rate h;
    ipft =
        at_rate (div_nat t 10_000_000) (div_nat u 10_000_000) rates.ipft_per_crore w.ipft_per_crore
          (div_nat_mono t u 9_999_999 h);
    sebi_fee = at_rate t u rates.sebi_rate w.sebi_rate h;
    gst = omega arith;
  }

  with_tax_mono :
      (a b : CostBreakdown) → IsBelow a b → IsBelow (with_tax rates a) (with_tax rates b)
  unfolding with_tax
  with_tax_mono a b h =
      let x = gst_base rates.gst_applies_to a in
      let y = gst_base rates.gst_applies_to b in
      record {
        brokerage = h.brokerage;
        stt = h.stt;
        stamp_duty = h.stamp_duty;
        exchange_txn = h.exchange_txn;
        ipft = h.ipft;
        sebi_fee = h.sebi_fee;
        gst =
            at_rate (of_money x) (of_money y) rates.gst_rate w.gst_rate
              (of_money_mono x y (gst_base_mono rates.gst_applies_to a b h));
      }

  nonneg_at : (t rate : Decimal) → zero_d ≤d t → zero_d ≤d rate → pos 0 ≤ℤ to_money (t *d rate)
  nonneg_at t rate h k = to_money_nonneg (t *d rate) (mul_nonneg_d t rate h k)

  before_tax_nonneg :
      (t : Decimal) (x : ℤ) → zero_d ≤d t → pos 0 ≤ℤ x → IsBelow free (before_tax side pr rates t x)
  unfolding before_tax
  before_tax_nonneg t x h k = record {
    brokerage = k;
    stt = nonneg_at t (stt_rate side pr) h (stt_rate_nonneg side pr v);
    stamp_duty = nonneg_at t (stamp_rate side pr) h (stamp_rate_nonneg side pr v);
    exchange_txn = nonneg_at t rates.exchange_txn_rate h w.exchange_txn_rate;
    ipft =
        nonneg_at (div_nat t 10_000_000) rates.ipft_per_crore (div_nat_nonneg t 9_999_999 h)
          w.ipft_per_crore;
    sebi_fee = nonneg_at t rates.sebi_rate h w.sebi_rate;
    gst = omega arith;
  }

  with_tax_nonneg : (b : CostBreakdown) → IsBelow free b → IsBelow free (with_tax rates b)
  unfolding with_tax
  with_tax_nonneg b h =
      let y = gst_base rates.gst_applies_to b in
      record {
        brokerage = h.brokerage;
        stt = h.stt;
        stamp_duty = h.stamp_duty;
        exchange_txn = h.exchange_txn;
        ipft = h.ipft;
        sebi_fee = h.sebi_fee;
        gst =
            nonneg_at (of_money y) rates.gst_rate
              (of_money_nonneg y (
                rw (gst_base-free rates.gst_applies_to) at
                  (gst_base_mono rates.gst_applies_to free b h)))
              w.gst_rate;
      }

total_mono : (a b : CostBreakdown) → IsBelow a b → total a ≤ℤ total b
unfolding total
total_mono a b h = omega int_laws

total_nonneg : (b : CostBreakdown) → IsBelow free b → pos 0 ≤ℤ total b
unfolding total
total_nonneg b h = omega int_laws

compute_costs-inv :
    (side : Side) (product : Product) (t : Decimal) (rates : CostRates) {b : CostBreakdown}
    → compute_costs side product t rates ≡ ok b
    → (zero_d ≤d t)
      × ((x : Decimal) × (charge
              (for_product rates product).brokerage.model
              (for_product rates product).brokerage
              t
            ≡ ok x)
          × (b ≡ with_tax rates (before_tax side (for_product rates product) rates t (to_money x))))
unfolding compute_costs
compute_costs-inv side product t rates {b} h =
    let pr = for_product rates product in
    elim (ltd-cases t zero_d) [
      | inl (e, lt) ↦ absurd (let h' = rw e at h in cc)
      | inr (e, le) ↦
          let h' = rw e at h in
          let (x, ex, eb) = >>=-eq-ok (charge pr.brokerage.model pr.brokerage t) _ h' in
          (le, (x, ex, sym (ok-injective _ _ eb)))
    ]

-- At rates that are not negative no charge is negative, and so the total is not.
pub compute_costs_nonneg :
    (side : Side) (product : Product) (t : Decimal) (rates : CostRates) {b : CostBreakdown}
    → IsSchedule rates
    → compute_costs side product t rates ≡ ok b
    → IsBelow free b × (pos 0 ≤ℤ total b)
compute_costs_nonneg side product t rates {b} w h =
    let pr = for_product rates product in
    let v = for_product-IsTariff rates product w in
    let (le, (x, ex, eb)) = compute_costs-inv side product t rates h in
    let small = charge_nonneg pr.brokerage.model pr.brokerage t v.brokerage le ex in
    let base = before_tax side pr rates t (to_money x) in
    let below : IsBelow free b = rw eb (
      with_tax_nonneg side pr rates v w base
        (before_tax_nonneg side pr rates v w t (to_money x) le (to_money_nonneg x small))) in
    (below, total_nonneg b below)

-- At rates that are not negative a larger turnover costs at least as much, charge by charge and in
-- total.
pub compute_costs_mono :
    (side : Side) (product : Product) (t u : Decimal) (rates : CostRates) {a b : CostBreakdown}
    → IsSchedule rates
    → t ≤d u
    → compute_costs side product t rates ≡ ok a
    → compute_costs side product u rates ≡ ok b
    → IsBelow a b × (total a ≤ℤ total b)
compute_costs_mono side product t u rates {a} {b} w le h k =
    let pr = for_product rates product in
    let v = for_product-IsTariff rates product w in
    let (_, (x, ex, ea)) = compute_costs-inv side product t rates h in
    let (_, (y, ey, eb)) = compute_costs-inv side product u rates k in
    let fee =
      to_money_mono x y (charge_mono pr.brokerage.model pr.brokerage t u v.brokerage le ex ey) in
    let below : IsBelow a b =
      rw (ea, eb)
        (with_tax_mono side pr rates v w (before_tax side pr rates t (to_money x))
          (before_tax side pr rates u (to_money y))
          (before_tax_mono side pr rates v w t u (to_money x) (to_money y) le fee)) in
    (below, total_mono a b below)
