-- ===== src/Universe.antt =====
-- backend/src/stk/domain/universe.py: which securities are liquid, tradeable and listed. The
-- floats are only compared, and stand for their exact values; NaN does not occur. Of a rejection's
-- text, its leading check is kept.
use stock_analyser.Prelude.{
  ℕ, ◌≤◌, ◌≡◌, ◌↔◌, inl, inr, arith, Bool, true, false, not, if◌then◌else◌, ltb, leb, le-cases,
  Option, none, some, List, contains, Result, ok, ◌>>◌, raise_if,
}
use stock_analyser.Decimal.{Decimal, ◌≤d◌, ltd}
use stock_analyser.Decimal.Order.{ltd-cases}

pub record LiquidityMetrics : Type 0 where
  pub median_turnover_20d : Option Decimal
  pub median_volume_20d : Option Decimal
  pub median_trades_20d : Option Decimal
  pub avg_price_20d : Option Decimal
  pub listed_days : ℕ

pub record LiquidityThresholds : Type 0 where
  pub min_median_turnover_inr : Decimal
  pub min_median_trades : Decimal
  pub min_price_inr : Decimal
  pub min_listed_days : ℕ

pub data Reason : Type 0 where
  low_listed_days low_turnover low_trades low_price passes passes_without_trades : Reason

-- `x is None or x < least`
abbrev pub is_below : Option Decimal → Decimal → Bool
is_below none least = true
is_below (some x) least = ltd x least

-- `x is not None and x < least`
abbrev pub is_reported_below : Option Decimal → Decimal → Bool
is_reported_below none least = false
is_reported_below (some x) least = ltd x least

abbrev pub passing : Option Decimal → Reason
passing none = passes_without_trades
passing (some _) = passes

unfoldable pub is_liquid : LiquidityMetrics → LiquidityThresholds → Bool × Reason
is_liquid m t =
    if ltb m.listed_days t.min_listed_days
    then (false, low_listed_days)
    else if is_below m.median_turnover_20d t.min_median_turnover_inr
    then (false, low_turnover)
    else if is_reported_below m.median_trades_20d t.min_median_trades
    then (false, low_trades)
    else if is_below m.avg_price_20d t.min_price_inr
    then (false, low_price)
    else (true, passing m.median_trades_20d)

-- `series_or_group not in flag_only`, of numbered texts
unfoldable pub is_tradeable_intraday : ℕ → List ℕ → Bool
is_tradeable_intraday series_or_group flag_only = not (contains series_or_group flag_only)

pub data Lifecycle : Type 0 where
  active suspended delisted : Lifecycle

pub data LifecycleError : Type 0 where
  delist_before_suspend : LifecycleError

unfoldable pub lifecycle_status : ℕ → ℕ → ℕ → Result LifecycleError Lifecycle
lifecycle_status missed_snapshots suspend_after delist_after = do
  raise_if (ltb delist_after suspend_after) delist_before_suspend
  if leb delist_after missed_snapshots
      then ok delisted
      else if leb suspend_after missed_snapshots
      then ok suspended
      else ok active

-- A value that is there and reaches its threshold.
abbrev pub Reaches : Decimal → Option Decimal → Type 0
Reaches least none = ⊥
Reaches least (some x) = least ≤d x

-- A value that reaches its threshold where it was reported.
abbrev pub ReachesIfReported : Decimal → Option Decimal → Type 0
ReachesIfReported least none = Unit
ReachesIfReported least (some x) = least ≤d x

reaches : (o : Option Decimal) (least : Decimal) → (is_below o least ≡ false) ↔ Reaches least o
reaches none least = ground arith
reaches (some x) least = ground (arith, ltd-cases x least)

reaches_if_reported :
    (o : Option Decimal) (least : Decimal)
    → (is_reported_below o least ≡ false) ↔ ReachesIfReported least o
reaches_if_reported none least = ground arith
reaches_if_reported (some x) least = ground (arith, ltd-cases x least)

-- A security is liquid exactly when it has been listed for long enough, its median turnover and its
-- average price are known and high enough, and its median number of trades is high enough or was
-- never reported.
pub is_liquid_iff :
    (m : LiquidityMetrics) (t : LiquidityThresholds)
    → ((is_liquid m t).0 ≡ true) ↔ (
        (t.min_listed_days ≤ m.listed_days)
        × Reaches t.min_median_turnover_inr m.median_turnover_20d
        × ReachesIfReported t.min_median_trades m.median_trades_20d
        × Reaches t.min_price_inr m.avg_price_20d)
unfolding is_liquid
is_liquid_iff m t = ground (
  arith,
  reaches m.median_turnover_20d t.min_median_turnover_inr,
  reaches_if_reported m.median_trades_20d t.min_median_trades,
  reaches m.avg_price_20d t.min_price_inr,
)

-- How far gone a status is.
abbrev pub rank : Lifecycle → ℕ
rank active = 0
rank suspended = 1
rank delisted = 2

-- The status that the thresholds give, by its rank.
lifecycle_status-rank :
    (missed suspend_after delist_after : ℕ)
    → suspend_after ≤ delist_after
    → (a : Lifecycle) × (lifecycle_status missed suspend_after delist_after ≡ ok a)
      × (rank a
          ≡ (if leb delist_after missed then 2 else if leb suspend_after missed then 1 else 0))
unfolding lifecycle_status
lifecycle_status-rank missed suspend_after delist_after ordered =
    elim (le-cases delist_after missed) [
      | inl d ↦ (delisted, ground arith, ground arith)
      | inr d ↦ elim (le-cases suspend_after missed) [
        | inl s ↦ (suspended, ground arith, ground arith)
        | inr s ↦ (active, ground arith, ground arith)
      ]
    ]

-- With thresholds in their order a status is always found, and missing more snapshots never brings
-- a security closer to being listed.
pub lifecycle_status_mono :
    (missed more suspend_after delist_after : ℕ)
    → suspend_after ≤ delist_after
    → missed ≤ more
    → (a b : Lifecycle) × (lifecycle_status missed suspend_after delist_after ≡ ok a)
      × (lifecycle_status more suspend_after delist_after ≡ ok b)
      × (rank a ≤ rank b)
lifecycle_status_mono missed more suspend_after delist_after ordered later =
    let (a, p, u) = lifecycle_status-rank missed suspend_after delist_after ordered in
    let (b, q, v) = lifecycle_status-rank more suspend_after delist_after ordered in
    (a, b, p, q, ground (arith, u, v))
