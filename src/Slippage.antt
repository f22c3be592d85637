-- ===== src/Slippage.antt =====
-- backend/src/stk/domain/slippage.py: tiered slippage and the participation cap.
pub mod Tiers
pub mod Fraction
use stock_analyser.Prelude.{
  ℕ, ◌-◌, Bool, true, false, ◌||◌, ◌&&◌, not, if◌then◌else◌, min, Option, none, some, List, [], ◌∷◌,
  map, ℤ, pos, ltb_ℤ, pos_part, Result, ok, err, ◌>>=◌, ◌>>◌, raise_if, sort_by,
}
use stock_analyser.Decimal.{
  Decimal, of_nat, zero_d, one_d, ◌+d◌, ◌-d◌, ◌*d◌, div_nat, led, ltd, max_d, floor_nat,
}
use stock_analyser.Costs.{Side, buy, sell}

pub record SlippageTier : Type 0 where
  pub min_adv_turnover_inr : Decimal
  pub bps : Decimal

-- The `ValueError`s of the module.
pub data SlippageError : Type 0 where
  no_tiers negative_quantity bad_participation_cap : SlippageError

-- `key=lambda t: t.min_adv_turnover_inr, reverse=True`
abbrev pub larger_first : SlippageTier → SlippageTier → Bool
larger_first a b = ltd b.min_adv_turnover_inr a.min_adv_turnover_inr

-- `max(t.bps for t in tiers)`, from the first tier on
abbrev pub max_bps : Decimal → List SlippageTier → Decimal
max_bps best [] = best
max_bps best (t ∷ ts) = max_bps (max_d best t.bps) ts

-- The loop over the ordered tiers, and its fall-back to the last one.
abbrev pub first_reached : Decimal → SlippageTier → List SlippageTier → Decimal
first_reached adv t [] = t.bps
first_reached adv t (u ∷ us) =
    let rest = first_reached adv u us in if led t.min_adv_turnover_inr adv then t.bps else rest

abbrev pub reached_of : Decimal → List SlippageTier → Result SlippageError Decimal
reached_of adv [] = err no_tiers
reached_of adv (t ∷ ts) = ok (first_reached adv t ts)

unfoldable pub slippage_bps : Option Decimal → List SlippageTier → Result SlippageError Decimal
slippage_bps adv [] = err no_tiers
slippage_bps none (t ∷ ts) = ok (max_bps t.bps ts)
slippage_bps (some adv) (t ∷ ts) = reached_of adv (sort_by larger_first (t ∷ ts))

unfoldable pub apply_slippage : Decimal → Side → Decimal → Decimal
apply_slippage price buy bps = price *d (one_d +d div_nat bps 10000)
apply_slippage price sell bps = price *d (one_d -d div_nat bps 10000)

unfoldable pub cap_quantity : ℤ → ℤ → Decimal → Result SlippageError ℕ
cap_quantity desired_qty bar_volume participation_cap = do
  raise_if (ltb_ℤ desired_qty (pos 0) || ltb_ℤ bar_volume (pos 0)) negative_quantity
  raise_if (not (ltd zero_d participation_cap && led participation_cap one_d)) bad_participation_cap
  let limit = floor_nat (of_nat (pos_part bar_volume) *d participation_cap)
  ok (min (pos_part desired_qty) limit)
