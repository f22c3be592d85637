-- ===== src/Backtest/View.antt =====
-- backend/src/stk/backtest/view.py: the market data and the point-in-time view of it, for the bars.
-- `np.searchsorted` is the number of leading entries below the cutoff, as it is on sorted dates.
use stock_analyser.Prelude.{
  ℕ, zero, suc, ◌-◌, Bool, ◌&&◌, ◌||◌, if◌then◌else◌, ltb, leb, ◌==◌, List, [], ◌∷◌, take, keep,
  any_of, sort_by, Result, ok, ◌>>◌, raise_if,
}
use stock_analyser.Backtest.{Bar, ViewError, look_ahead}

-- `sort_values(["date", "symbol"], kind="stable")`
abbrev pub earlier : Bar → Bar → Bool
earlier a b = ltb a.date b.date || (a.date == b.date && ltb a.symbol b.symbol)

-- `MarketData.__post_init__`
unfoldable pub market_data : List Bar → List Bar
market_data bars = sort_by earlier bars

-- `np.searchsorted(dates, cutoff, side="left")`
unfoldable pub search_left : List Bar → ℕ → ℕ
search_left [] cutoff = 0
search_left (r ∷ rs) cutoff =
    let more = search_left rs cutoff in if ltb r.date cutoff then suc more else 0

-- `np.searchsorted(dates, cutoff, side="right")`
unfoldable pub search_right : List Bar → ℕ → ℕ
search_right [] cutoff = 0
search_right (r ∷ rs) cutoff =
    let more = search_right rs cutoff in if leb r.date cutoff then suc more else 0

abbrev pub drop : ℕ → List Bar → List Bar
drop zero rows = rows
drop (suc n) [] = []
drop (suc n) (r ∷ rs) = drop n rs

-- `iloc[lo:hi]`
abbrev pub slice : ℕ → ℕ → List Bar → List Bar
slice lo hi rows = drop lo (take hi rows)

-- `_guard`
unfoldable pub guard : ℕ → List Bar → Result ViewError (List Bar)
guard d rows = raise_if (any_of (λ (r : Bar). ltb d r.date) rows) look_ahead >> ok rows

-- `today`
unfoldable pub today : List Bar → ℕ → Result ViewError (List Bar)
unfolding search_left search_right guard
today bars d = guard d (slice (search_left bars d) (search_right bars d) bars)

-- `bars_until`
unfoldable pub bars_until : List Bar → ℕ → Result ViewError (List Bar)
unfolding search_right guard
bars_until bars d = guard d (take (search_right bars d) bars)

-- `_by_symbol[symbol]`: the symbol's bars in their order.
abbrev pub of_symbol : List Bar → ℕ → List Bar
of_symbol bars symbol = keep (λ (r : Bar). r.symbol == symbol) bars

-- `history`; a symbol without bars has an empty frame.
unfoldable pub history : List Bar → ℕ → ℕ → ℕ → Result ViewError (List Bar)
unfolding search_right guard
history bars d symbol n =
    let frame = of_symbol bars symbol in
    let hi = search_right frame d in guard d (slice (hi - n) hi frame)

-- `np.unique` of sorted dates.
abbrev pub unique_from : ℕ → List ℕ → List ℕ
unique_from d [] = d ∷ []
unique_from d (e ∷ es) =
    let same = unique_from d es in
    let other = d ∷ unique_from e es in if d == e then same else other

abbrev pub unique : List ℕ → List ℕ
unique [] = []
unique (d ∷ ds) = unique_from d ds

abbrev pub dates_in : List Bar → ℕ → ℕ → List ℕ
dates_in [] lo hi = []
dates_in (r ∷ rs) lo hi =
    let rest = dates_in rs lo hi in if leb lo r.date && leb r.date hi then r.date ∷ rest else rest

-- `trading_dates`
unfoldable pub trading_dates : List Bar → ℕ → ℕ → List ℕ
trading_dates bars lo hi = unique (dates_in bars lo hi)
