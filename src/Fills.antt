-- ===== src/Fills.antt =====
-- backend/src/stk/domain/fills.py: the circuit-lock heuristic.
pub mod Circuit
use stock_analyser.Prelude.{
  Bool, true, false, ◌&&◌, ◌||◌, if◌then◌else◌, Option, none, some, List, [], ◌∷◌, not,
}
use stock_analyser.Decimal.{Decimal, of_nat, zero_d, ◌*d◌, ◌-d◌, div, led, ltd, eqd, abs_d}

pub data Lock : Type 0 where
  unlocked upper lower : Lock

pub record BarPrices : Type 0 where
  pub opening : Decimal
  pub high : Decimal
  pub low : Decimal
  pub closing : Decimal

-- `open == high == low == close`
unfoldable pub is_frozen : BarPrices → Bool
is_frozen bar = eqd bar.opening bar.high && (eqd bar.high bar.low && eqd bar.low bar.closing)

-- The loop over the bands.
unfoldable pub band_lock : Decimal → Decimal → List Decimal → Lock
band_lock move_pct tolerance_pct [] = unlocked
band_lock move_pct tolerance_pct (band ∷ bands) =
    let rest = band_lock move_pct tolerance_pct bands in
    if led (abs_d (abs_d move_pct -d band)) tolerance_pct
    then (if ltd zero_d move_pct then upper else lower)
    else rest

-- `(bar.close / prev_close - 1) * 100`
unfoldable pub move_pct : Decimal → Decimal → Decimal
move_pct close prev_close = (div close prev_close -d of_nat 1) *d of_nat 100

unfoldable pub circuit_lock : BarPrices → Option Decimal → List Decimal → Decimal → Lock
circuit_lock bar none bands tolerance_pct = unlocked
circuit_lock bar (some prev_close) bands tolerance_pct =
    if led prev_close zero_d
    then unlocked
    else if not (is_frozen bar)
    then unlocked
    else band_lock (move_pct bar.closing prev_close) tolerance_pct bands

unfoldable pub can_buy : Lock → Bool
can_buy upper = false
can_buy _ = true

unfoldable pub can_sell : Lock → Bool
can_sell lower = false
can_sell _ = true
