-- ===== src/Backtest/Triggers.antt =====
-- The exits that a bar triggers in backend/src/stk/backtest/engine.py.
use stock_analyser.Prelude.{
  ℕ, ◌≤◌, ◌≡◌, refl, ◌⊎◌, inl, inr, true, false, leb, Option, none, some, arith, Bool-cases,
  Option-cases,
}
use stock_analyser.Decimal.{Decimal, ◌≤d◌}
use stock_analyser.Decimal.Order.{led_false, led_iff, ≤d_refl, ≤d_trans, ≤d_of_<d}
use stock_analyser.Backtest.{Bar, Holding, ExitReason, by_stop, by_target, by_time, end_of_window}
use stock_analyser.Backtest.Sales.{exit_trigger, at_or_below, at_or_above, level_or}

-- The low is the lowest price of the bar, the high the highest.
pub record IsBar (row : Bar) : Type 0 where
  pub low_open : row.low ≤d row.opening
  pub open_high : row.opening ≤d row.high
  pub low_close : row.low ≤d row.closing
  pub close_high : row.closing ≤d row.high

-- What the reason of an exit promises.
abbrev pub IsJustified : Holding → Bar → ℕ → Decimal → ExitReason → Type 0
IsJustified h row held price by_stop = (level : Decimal) × (h.stop ≡ some level) × (price ≤d level)
IsJustified h row held price by_target =
    (at_or_below row.low h.stop ≡ false)
    × ((level : Decimal) × (h.target ≡ some level) × (level ≤d price))
IsJustified h row held price by_time =
    (at_or_below row.low h.stop ≡ false)
    × (at_or_above row.high h.target ≡ false)
    × (h.max_hold_days ≤ held)
    × (price ≡ row.closing)
IsJustified h row held price end_of_window = ⊥

abbrev pub InRange : Bar → Decimal → Type 0
InRange row price = (row.low ≤d price) × (price ≤d row.high)

reached_below :
    (price : Decimal) (o : Option Decimal)
    → at_or_below price o ≡ true
    → (level : Decimal) × (o ≡ some level) × (price ≤d level)
reached_below price none h = cc
reached_below price (some level) h = (level, refl, (led_iff price level).0 h)

reached_above :
    (price : Decimal) (o : Option Decimal)
    → at_or_above price o ≡ true
    → (level : Decimal) × (o ≡ some level) × (level ≤d price)
reached_above price none h = cc
reached_above price (some level) h = (level, refl, (led_iff level price).0 h)

missed_below :
    (price level : Decimal) (o : Option Decimal)
    → o ≡ some level
    → at_or_below price o ≡ false
    → level ≤d price
missed_below price level o e h = ≤d_of_<d level price (led_false price level (rw e at h))

missed_above :
    (price level : Decimal) (o : Option Decimal)
    → o ≡ some level
    → at_or_above price o ≡ false
    → price ≤d level
missed_above price level o e h = ≤d_of_<d price level (led_false level price (rw e at h))

level_or-some :
    (o : Option Decimal) (price level : Decimal) → o ≡ some level → level_or o price ≡ level
level_or-some o price level e = rw e refl

abbrev Answers : Holding → Bar → ℕ → Option (Decimal × ExitReason) → Type 0
Answers h row held none =
    (at_or_below row.low h.stop ≡ false)
    × (at_or_above row.high h.target ≡ false)
    × (leb h.max_hold_days held ≡ false)
Answers h row held (some (price, why)) = InRange row price × IsJustified h row held price why

exit_trigger-Answers :
    (h : Holding) (row : Bar) (held : ℕ) → IsBar row → Answers h row held (exit_trigger h row held)
unfolding exit_trigger
exit_trigger-Answers h row held bar = elim (Bool-cases (at_or_below row.opening h.stop)) [
  | inl a ↦ rw a ((bar.low_open, bar.open_high), reached_below row.opening h.stop a)
  | inr a ↦ elim (Bool-cases (at_or_below row.low h.stop)) [
    | inl b ↦
        let (level, e, le) = reached_below row.low h.stop b in
        let below = missed_below row.opening level h.stop e a in
        rw (a, b, level_or-some h.stop row.low level e)
          ((le, ≤d_trans level row.opening row.high below bar.open_high), (level, e, ≤d_refl level))
    | inr b ↦ elim (Bool-cases (at_or_above row.opening h.target)) [
      | inl c ↦
          rw (a, b, c) ((bar.low_open, bar.open_high), (b, reached_above row.opening h.target c))
      | inr c ↦ elim (Bool-cases (at_or_above row.high h.target)) [
        | inl f ↦
            let (level, e, le) = reached_above row.high h.target f in
            let above = missed_above row.opening level h.target e c in
            rw (a, b, c, f, level_or-some h.target row.high level e)
              (
                (≤d_trans row.low row.opening level bar.low_open above, le),
                (b, (level, e, ≤d_refl level)),
              )
        | inr f ↦ elim (Bool-cases (leb h.max_hold_days held)) [
          | inl g ↦ rw (a, b, c, f, g) ((bar.low_close, bar.close_high), (b, f, ground arith, refl))
          | inr g ↦ rw (a, b, c, f, g) (b, f, g)
        ]
      ]
    ]
  ]
]

-- On a bar whose open and close lie between its low and its high, an exit fills at a price of the
-- bar: at or below the stop; or, where the bar stays above the stop, at or above the target; or,
-- where it reaches neither, at the close of a position held its full time. Without an exit it
-- reaches neither level and the time is not up.
pub exit_trigger-IsJustified :
    (h : Holding) (row : Bar) (held : ℕ)
    → IsBar row
    → ((price : Decimal) × (why : ExitReason) × (exit_trigger h row held ≡ some (price, why))
        × InRange row price
        × IsJustified h row held price why)
      ⊎ ((exit_trigger h row held ≡ none)
          × (at_or_below row.low h.stop ≡ false)
          × (at_or_above row.high h.target ≡ false)
          × (leb h.max_hold_days held ≡ false))
exit_trigger-IsJustified h row held bar =
    let answer = exit_trigger-Answers h row held bar in
    elim (Option-cases (exit_trigger h row held)) [
      | inl e ↦ let (stop, target, time) = rw e at answer in inr (e, stop, target, time)
      | inr ((price, why), e) ↦
          let (range, fair) = rw e at answer in inl (price, why, e, range, fair)
    ]
