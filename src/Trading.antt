-- ===== src/Trading.antt =====
-- backend/src/stk/domain/calendar.py: the trading days. Dates are numbered by day (Python's
-- ordinals), so that day 1 is a Monday; sets of dates are lists.
use stock_analyser.Prelude.{
  ℕ, zero, suc, ◌+◌, ◌-◌, ◌≤◌, ◌<◌, ◌%◌, ◌≡◌, ◌↔◌, inl, inr, true, false, arith, Bool, ◌&&◌, not,
  if◌then◌else◌, leb, ◌==◌, ==_iff, subst, Option, none, some, List, [], ◌∷◌, contains, Bool-cases,
  sym,
}

-- `is_weekend` of backend/src/stk/core/time.py: `d.weekday() >= 5`
unfoldable pub is_weekend : ℕ → Bool
is_weekend d = leb 5 ((d + 6) % 7)

-- `is_market_hours` of backend/src/stk/core/time.py, at an instant in seconds on the IST clock: its
-- time of day lies between 09:15 and 15:30.
unfoldable pub is_market_hours : ℕ → Bool
is_market_hours moment = leb 33300 (moment % 86400) && leb (moment % 86400) 55800

-- The loop over `n` days from `current` on.
unfoldable pub days_from : ℕ → ℕ → List ℕ → List ℕ
days_from zero current holidays = []
days_from (suc n) current holidays =
    let rest = days_from n (suc current) holidays in
    if not (is_weekend current) && not (contains current holidays) then current ∷ rest else rest

unfoldable pub build_trading_day_set : ℕ → ℕ → List ℕ → List ℕ
unfolding days_from
build_trading_day_set start finish holidays = days_from (suc finish - start) start holidays

-- The loop of the bounded walk; `current` does not go below the first day.
unfoldable pub walk_back : ℕ → ℕ → List ℕ → Option ℕ
walk_back zero current days = none
walk_back (suc n) current days =
    let rest = walk_back n (current - 1) days in
    if contains current days then some current else rest

unfoldable pub last_trading_day_on_or_before : ℕ → List ℕ → Option ℕ
unfolding walk_back
last_trading_day_on_or_before target days = walk_back 14 target days

first_day :
    (n current : ℕ) (holidays : List ℕ)
    → ((contains current (days_from n (suc current) holidays) ≡ true) ↔ (
        (suc current ≤ current)
        × (current < n + suc current)
        × (is_weekend current ≡ false)
        × (contains current holidays ≡ false)))
    → (contains current (days_from (suc n) current holidays) ≡ true) ↔ (
        (current ≤ current)
        × (current < suc n + current)
        × (is_weekend current ≡ false)
        × (contains current holidays ≡ false))
unfolding days_from
first_day n current holidays ih = elim (Bool-cases (is_weekend current)) [
  | inl w ↦ ground (arith, ih, w)
  | inr w ↦ elim (Bool-cases (contains current holidays)) [
    | inl c ↦ ground (arith, ih, w, c)
    | inr c ↦ ground (arith, ih, w, c)
  ]
]

later_day :
    (n current d : ℕ) (holidays : List ℕ)
    → (current == d) ≡ false
    → ((contains d (days_from n (suc current) holidays) ≡ true) ↔ (
        (suc current ≤ d)
        × (d < n + suc current)
        × (is_weekend d ≡ false)
        × (contains d holidays ≡ false)))
    → (contains d (days_from (suc n) current holidays) ≡ true) ↔ (
        (current ≤ d)
        × (d < suc n + current)
        × (is_weekend d ≡ false)
        × (contains d holidays ≡ false))
unfolding days_from
later_day n current d holidays e ih =
    elim (Bool-cases (not (is_weekend current) && not (contains current holidays))) [
      | inl w ↦ ground (arith, ih, w, e)
      | inr w ↦ ground (arith, ih, w, e)
    ]

days_from_iff :
    (n current d : ℕ) (holidays : List ℕ)
    → (contains d (days_from n current holidays) ≡ true)
      ↔ ((current ≤ d) × (d < n + current) × (is_weekend d ≡ false) × (contains d holidays ≡ false))
unfolding days_from
days_from_iff zero current d holidays = ground arith
days_from_iff (suc n) current d holidays = elim (Bool-cases (current == d)) [
  | inl e ↦
      let p : current ≡ d = (==_iff current d).0 e in
      subst
        (λ x. (contains x (days_from (suc n) current holidays) ≡ true) ↔ (
          (current ≤ x)
          × (x < suc n + current)
          × (is_weekend x ≡ false)
          × (contains x holidays ≡ false)))
        p (first_day n current holidays (days_from_iff n (suc current) current holidays))
  | inr e ↦ later_day n current d holidays e (days_from_iff n (suc current) d holidays)
]

-- The trading days are exactly the days of the range that are neither on a weekend nor a holiday.
pub build_trading_day_set_iff :
    (start finish d : ℕ) (holidays : List ℕ)
    → (contains d (build_trading_day_set start finish holidays) ≡ true)
      ↔ ((start ≤ d) × (d ≤ finish) × (is_weekend d ≡ false) × (contains d holidays ≡ false))
unfolding build_trading_day_set
build_trading_day_set_iff start finish d holidays =
    ground (arith, days_from_iff (suc finish - start) start d holidays)

walk_back-last :
    (n current d : ℕ) (days : List ℕ)
    → walk_back n current days ≡ some d
    → (contains d days ≡ true)
      × (d ≤ current)
      × ((e : ℕ) → d < e → e ≤ current → contains e days ≡ false)
unfolding walk_back
walk_back-last zero current d days h = cc
walk_back-last (suc n) current d days h = elim (Bool-cases (contains current days)) [
  | inl c ↦
      let p : current ≡ d = ground (arith, h, c) in
      (
        subst (λ x. contains x days ≡ true) p c,
        omega (arith, p),
        λ e a b. absurd (omega (arith, p, a, b)),
      )
  | inr c ↦
      let (found, before, none_between) = walk_back-last n (current - 1) d days (rw c at h) in
      (
        found,
        omega (arith, before),
        λ e a b. elim (Bool-cases (e == current)) [
          | inl f ↦ subst (λ x. contains x days ≡ false) (sym ((==_iff e current).0 f)) c
          | inr f ↦ none_between e a (ground (arith, f, b))
        ],
      )
]

-- What the walk finds is a trading day, not after the target, and the last such day.
pub last_trading_day_latest :
    (target d : ℕ) (days : List ℕ)
    → last_trading_day_on_or_before target days ≡ some d
    → (contains d days ≡ true)
      × (d ≤ target)
      × ((e : ℕ) → d < e → e ≤ target → contains e days ≡ false)
unfolding last_trading_day_on_or_before
last_trading_day_latest target d days h = walk_back-last 14 target d days h
