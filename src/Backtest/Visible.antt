-- ===== src/Backtest/Visible.antt =====
-- The accessors of backend/src/stk/backtest/view.py on market data that is sorted by date.
use stock_analyser.Prelude.{
  ℕ, zero, suc, ◌-◌, ◌≤◌, ◌<◌, ◌≡◌, refl, ap, ◌∙◌, sym, Bool, true, false, ltb, leb, ◌==◌, List, [],
  ◌∷◌, arith, All, length, take, keep, any_of, sort_by, IsOrderedBy, sort_by-IsOrderedBy,
  Bool-cases, inl, inr, ok,
}
use stock_analyser.Backtest.{Bar}
use stock_analyser.Backtest.View.{
  earlier, market_data, search_left, search_right, drop, slice, guard, today, bars_until, of_symbol,
  history,
}

-- The independent description: the bars dated at most `d`, those of `d`, and the last `n` of some.
abbrev pub until : ℕ → List Bar → List Bar
until d bars = keep (λ (r : Bar). leb r.date d) bars

abbrev pub on_date : ℕ → List Bar → List Bar
on_date d bars = keep (λ (r : Bar). r.date == d) bars

abbrev pub last_of : ℕ → List Bar → List Bar
last_of n rows = drop (length rows - n) rows

-- No bar is dated before one that stands earlier.
abbrev pub IsSorted : List Bar → Type 0
IsSorted [] = Unit
IsSorted (r ∷ rs) = All (λ (x : Bar). r.date ≤ x.date) rs × IsSorted rs

after-earlier :
    (r : Bar) (rs : List Bar)
    → All (λ x. earlier x r ≡ false) rs
    → All (λ (x : Bar). r.date ≤ x.date) rs
after-earlier r [] h = tt
after-earlier r (x ∷ xs) (h, hs) = (ground arith, after-earlier r xs hs)

IsOrderedBy-IsSorted : (bars : List Bar) → IsOrderedBy earlier bars → IsSorted bars
IsOrderedBy-IsSorted [] h = tt
IsOrderedBy-IsSorted (r ∷ rs) (h, hs) = (after-earlier r rs h, IsOrderedBy-IsSorted rs hs)

pub market_data-IsSorted : (bars : List Bar) → IsSorted (market_data bars)
unfolding market_data
market_data-IsSorted bars =
    IsOrderedBy-IsSorted (sort_by earlier bars)
      (sort_by-IsOrderedBy earlier (λ a b h. ground arith) (λ a b c h k. ground arith) bars)

All-keep : (P : Bar → Type 0) (p : Bar → Bool) (rs : List Bar) → All P rs → All P (keep p rs)
All-keep P p [] h = tt
All-keep P p (r ∷ rs) (h, hs) = elim (Bool-cases (p r)) [
  | inl e ↦ rw e (h, All-keep P p rs hs)
  | inr e ↦ rw e (All-keep P p rs hs)
]

keep-IsSorted : (p : Bar → Bool) (rs : List Bar) → IsSorted rs → IsSorted (keep p rs)
keep-IsSorted p [] h = tt
keep-IsSorted p (r ∷ rs) (h, hs) = elim (Bool-cases (p r)) [
  | inl e ↦ rw e (All-keep (λ (x : Bar). r.date ≤ x.date) p rs h, keep-IsSorted p rs hs)
  | inr e ↦ rw e (keep-IsSorted p rs hs)
]

until-late : (d e : ℕ) (rs : List Bar) → d < e → All (λ (x : Bar). e ≤ x.date) rs → until d rs ≡ []
until-late d e [] h k = refl
until-late d e (r ∷ rs) h (k, ks) = ground (arith, until-late d e rs)

take-search_right :
    (bars : List Bar) (d : ℕ) → IsSorted bars → take (search_right bars d) bars ≡ until d bars
unfolding search_right
take-search_right [] d h = refl
take-search_right (r ∷ rs) d (h, hs) = elim (Bool-cases (leb r.date d)) [
  | inl e ↦ rw e (ap (λ rest. r ∷ rest) (take-search_right rs d hs))
  | inr e ↦ rw e (sym (until-late d r.date rs (ground arith) h))
]

length-until :
    (bars : List Bar) (d : ℕ) → IsSorted bars → search_right bars d ≡ length (until d bars)
unfolding search_right
length-until [] d h = refl
length-until (r ∷ rs) d (h, hs) = elim (Bool-cases (leb r.date d)) [
  | inl e ↦ rw e (ap suc (length-until rs d hs))
  | inr e ↦ rw (e, until-late d r.date rs (ground arith) h) refl
]

until-on_date :
    (d : ℕ) (rs : List Bar) → All (λ (x : Bar). d ≤ x.date) rs → until d rs ≡ on_date d rs
until-on_date d [] h = refl
until-on_date d (r ∷ rs) (h, hs) = ground (arith, until-on_date d rs)

All-le :
    (d e : ℕ) (rs : List Bar)
    → d ≤ e
    → All (λ (x : Bar). e ≤ x.date) rs
    → All (λ (x : Bar). d ≤ x.date) rs
All-le d e [] h k = tt
All-le d e (r ∷ rs) h (k, ks) = (omega arith, All-le d e rs h ks)

slice-on_date :
    (bars : List Bar) (d : ℕ)
    → IsSorted bars
    → slice (search_left bars d) (search_right bars d) bars ≡ on_date d bars
unfolding search_left search_right
slice-on_date [] d h = refl
slice-on_date (r ∷ rs) d (h, hs) = elim (Bool-cases (ltb r.date d)) [
  | inl e ↦
      let le : leb r.date d ≡ true = ground arith in
      let ne : (r.date == d) ≡ false = ground arith in rw (e, le, ne) (slice-on_date rs d hs)
  | inr e ↦
      let from : d ≤ r.date = ground arith in
      rw e (
        take-search_right (r ∷ rs) d (h, hs)
        ∙ until-on_date d (r ∷ rs) (from, All-le d r.date rs from h))
]

guard-ok : (d : ℕ) (rows : List Bar) → All (λ (r : Bar). r.date ≤ d) rows → guard d rows ≡ ok rows
unfolding guard
guard-ok d rows h = rw (none_late d rows h) refl
  where
    none_late :
        (d : ℕ) (rows : List Bar)
        → All (λ (r : Bar). r.date ≤ d) rows
        → any_of (λ (r : Bar). ltb d r.date) rows ≡ false
    none_late d [] h = refl
    none_late d (r ∷ rs) (h, hs) = ground (arith, none_late d rs)

All-until : (d : ℕ) (rows : List Bar) → All (λ (r : Bar). r.date ≤ d) (until d rows)
All-until d [] = tt
All-until d (r ∷ rs) = elim (Bool-cases (leb r.date d)) [
  | inl e ↦ rw e (ground arith, All-until d rs)
  | inr e ↦ rw e (All-until d rs)
]

All-on_date : (d : ℕ) (rows : List Bar) → All (λ (r : Bar). r.date ≤ d) (on_date d rows)
All-on_date d [] = tt
All-on_date d (r ∷ rs) = elim (Bool-cases (r.date == d)) [
  | inl e ↦ rw e (ground arith, All-on_date d rs)
  | inr e ↦ rw e (All-on_date d rs)
]

All-drop : (P : Bar → Type 0) (n : ℕ) (rows : List Bar) → All P rows → All P (drop n rows)
All-drop P zero rows h = h
All-drop P (suc n) [] h = h
All-drop P (suc n) (r ∷ rs) (h, hs) = All-drop P n rs hs

-- On market data in any order, the view at `d` returns exactly the bars of `d`, the bars dated at
-- most `d`, and the last `n` bars of a symbol dated at most `d`; its guard never raises.
pub view_refines :
    (bars : List Bar) (d symbol n : ℕ)
    → (let rows = market_data bars in
        (today rows d ≡ ok (on_date d rows))
        × (bars_until rows d ≡ ok (until d rows))
        × (history rows d symbol n ≡ ok (last_of n (until d (of_symbol rows symbol)))))
unfolding today bars_until history
view_refines bars d symbol n =
    let rows = market_data bars in
    let sorted = market_data-IsSorted bars in
    let frame = of_symbol rows symbol in
    let sorted' : IsSorted frame = keep-IsSorted (λ (r : Bar). r.symbol == symbol) rows sorted in
    (
      rw (slice-on_date rows d sorted) (guard-ok d _ (All-on_date d rows)),
      rw (take-search_right rows d sorted) (guard-ok d _ (All-until d rows)),
      rw (take-search_right frame d sorted', length-until frame d sorted')
          (guard-ok d _ (All-drop (λ (r : Bar). r.date ≤ d) _ _ (All-until d frame))),
    )

pub bars_until-sorted :
    (rows : List Bar) (d : ℕ) → IsSorted rows → bars_until rows d ≡ ok (until d rows)
unfolding bars_until
bars_until-sorted rows d sorted =
    rw (take-search_right rows d sorted) (guard-ok d _ (All-until d rows))
