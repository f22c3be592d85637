-- ===== src/Backtest/Filling.antt =====
-- Entries and whole days of backend/src/stk/backtest/engine.py: how many positions, and the cash.
use stock_analyser.Prelude.{
  ℕ, zero, suc, ◌≤◌, ◌≡◌, refl, sym, subst, ◌⊎◌, inl, inr, Bool, true, false, ◌==◌, leb, List, [],
  ◌∷◌, ◌++◌, All, All-append, arith, pos, ltb_ℤ, length, length-append, Bool-cases, Option-cases,
  Result, ok, >>=-eq-ok, ok-injective,
}
use stock_analyser.Decimal.{Decimal, zero_d, of_nat, ◌+d◌, ◌*d◌, ◌≤d◌}
use stock_analyser.Decimal.Field.{sub_nonneg}
use stock_analyser.Slippage.{apply_slippage}
use stock_analyser.Costs.{buy}
use stock_analyser.Fills.{can_buy}
use stock_analyser.Backtest.{Bar, Config, Signal, Holding, Books, EngineError}
use stock_analyser.Backtest.Amounts.{bar_of, bar_lock, slip_bps}
use stock_analyser.Backtest.Entries.{
  shrink, wanted_qty, open_sized, buy_signal, enter_one, entries, is_held, opened, count_partial,
  count_no_bar, count_entry_blocked,
}
use stock_analyser.Backtest.Sizing.{shrink_largest}
use stock_analyser.Backtest.Capacity.{IsDistinct, IsBook}

-- One round of `entries` opens nothing, or one position in a symbol that is not held.
abbrev IsEntered : List Holding → Books → List Holding → Books → Type 0
IsEntered hs books hs' books' =
    (hs' ≡ hs)
    ⊎ ((h : Holding) × (hs' ≡ hs ++ (h ∷ [])) × (is_held hs h.symbol ≡ false) × (1 ≤ h.qty))

-- The cash, where it was not negative.
abbrev Solvent : Books → Books → Type 0
Solvent books books' = zero_d ≤d books.cash → zero_d ≤d books'.cash

abbrev IsRound : List Holding → Books → List Holding → Books → Type 0
IsRound hs books hs' books' = IsEntered hs books hs' books' × Solvent books books'

carried :
    (hs : List Holding) (books : Books) (ks ks' : List Holding) (b b' : Books)
    → (let run : Result EngineError (List Holding × Books) = ok (ks, b) in run ≡ ok (ks', b'))
    → IsRound hs books ks b
    → IsRound hs books ks' b'
carried hs books ks ks' b b' e r =
    subst (λ (x : List Holding × Books). IsRound hs books x.0 x.1) (ok-injective _ _ e) r

open_sized-IsRound :
    (sig : Signal) (n : ℕ) (px costs : Decimal) (d idx : ℕ) (hs : List Holding)
    (books start : Books)
    → is_held hs sig.symbol ≡ false
    → start.cash ≡ books.cash
    → (n ≡ 0) ⊎ (px *d of_nat n +d costs ≤d books.cash)
    → (let r = open_sized sig n px costs d idx hs books in IsRound hs start r.0 r.1)
unfolding open_sized
open_sized-IsRound sig zero px costs d idx hs books start free c fits = (inl refl, λ h. rw (← c) h)
open_sized-IsRound sig (suc n) px costs d idx hs books start free c (inl bad) = absurd (omega arith)
open_sized-IsRound sig (suc n) px costs d idx hs books start free c (inr pays) = (
  inr (opened sig (suc n) px costs d idx, refl, free, omega arith),
  λ h. sub_nonneg books.cash (px *d of_nat (suc n) +d costs) pays,
)

partial_cash : (b : Bool) (books : Books) → (count_partial b books).cash ≡ books.cash
partial_cash true books = refl
partial_cash false books = refl

buy_signal-IsRound :
    (cfg : Config) (equity_prev : Decimal) (row : Bar) (sig : Signal) (d idx : ℕ)
    (hs : List Holding) (books : Books) (hs' : List Holding) (books' : Books)
    → is_held hs sig.symbol ≡ false
    → buy_signal cfg equity_prev row sig d idx hs books ≡ ok (hs', books')
    → IsRound hs books hs' books'
unfolding buy_signal
buy_signal-IsRound cfg equity_prev row sig d idx hs books hs' books' free e =
    let (bps, e1, t1) = >>=-eq-ok (slip_bps cfg row.adv_turnover) _ e in
    let px : Decimal = apply_slippage row.opening buy bps in
    let ((qty, capped), e2, t2) = >>=-eq-ok (wanted_qty cfg equity_prev books.cash px row) _ t1 in
    let ((n, costs), e3, t3) = >>=-eq-ok (shrink cfg books.cash px d capped) _ t2 in
    let partial : Bool = ltb_ℤ (pos capped) qty in
    let (_, _, fits, _) = shrink_largest cfg books.cash px d capped n costs e3 in
    carried hs books _ hs' _ books' t3 (
      open_sized-IsRound sig n px costs d idx hs (count_partial partial books) books free
        (sym (partial_cash partial books)) (rw (partial_cash partial books) fits))

pub enter_one-IsRound :
    (cfg : Config) (equity_prev : Decimal) (today : List Bar) (sig : Signal) (d idx : ℕ)
    (hs : List Holding) (books : Books) (hs' : List Holding) (books' : Books)
    → enter_one cfg equity_prev today sig d idx hs books ≡ ok (hs', books')
    → IsRound hs books hs' books'
unfolding enter_one
enter_one-IsRound cfg equity_prev today sig d idx hs books hs' books' e =
    elim (Bool-cases (is_held hs sig.symbol)) [
      | inl q ↦ carried hs books _ hs' _ books' (rw q at e) (inl refl, λ h. h)
      | inr q ↦ elim (Option-cases (bar_of today sig.symbol)) [
        | inl r ↦
            carried hs books hs hs' (count_no_bar books) books' (rw (q, r) at e) (inl refl, λ h. h)
        | inr (row, r) ↦ elim (Bool-cases (can_buy (bar_lock cfg row))) [
          | inl b ↦
              buy_signal-IsRound cfg equity_prev row sig d idx hs books hs' books' q
                (rw (q, r, b) at e)
          | inr b ↦
              carried hs books hs hs' (count_entry_blocked books) books' (rw (q, r, b) at e)
                (inl refl, λ h. h)
        ]
      ]
    ]

apart_append :
    (s : ℕ) (hs : List Holding) (k : Holding)
    → All (λ (h : Holding). (h.symbol == s) ≡ false) hs
    → (k.symbol == s) ≡ false
    → All (λ (h : Holding). (h.symbol == s) ≡ false) (hs ++ (k ∷ []))
apart_append s hs k h e = All-append _ hs (k ∷ []) h (e, tt)

distinct_append :
    (hs : List Holding) (k : Holding)
    → IsDistinct hs
    → is_held hs k.symbol ≡ false
    → IsDistinct (hs ++ (k ∷ []))
unfolding is_held
distinct_append [] k h free = (tt, tt)
distinct_append (h ∷ hs) k (p, ps) free =
    (apart_append h.symbol hs k p (ground arith), distinct_append hs k ps (ground arith))

entered-IsBook :
    (cfg : Config) (hs hs' : List Holding) (books books' : Books)
    → leb cfg.max_pos (length hs) ≡ false
    → IsBook cfg hs
    → IsEntered hs books hs' books'
    → IsBook cfg hs'
entered-IsBook cfg hs hs' books books' room inv (inl e) = rw e inv
entered-IsBook cfg hs hs' books books' room inv (inr (h, e, free, q)) = rw e (record {
  few = grown cfg hs h (ground arith);
  distinct = distinct_append hs h inv.distinct free;
  held = All-append _ hs (h ∷ []) inv.held (q, tt);
})
  where
    grown :
        (cfg : Config) (hs : List Holding) (h : Holding)
        → suc (length hs) ≤ cfg.max_pos
        → length (hs ++ (h ∷ [])) ≤ cfg.max_pos
    grown cfg hs h le = omega (arith, length-append hs (h ∷ []))

-- However many signals are pending, the entries of a day never hold more than `max_pos` positions,
-- two of one symbol or one without a share, and never overdraw the cash: where it was not negative
-- it is not negative afterwards.
pub entries_within_limits :
    (cfg : Config) (equity_prev : Decimal) (today : List Bar) (d idx : ℕ) (sigs : List Signal)
    (hs : List Holding) (books : Books) (hs' : List Holding) (books' : Books)
    → IsBook cfg hs
    → entries cfg equity_prev today d idx sigs hs books ≡ ok (hs', books')
    → IsBook cfg hs' × (zero_d ≤d books.cash → zero_d ≤d books'.cash)
unfolding entries
entries_within_limits cfg equity_prev today d idx [] hs books hs' books' inv e =
    subst (λ (x : List Holding × Books). IsBook cfg x.0 × Solvent books x.1) (ok-injective _ _ e)
      (inv, λ h. h)
entries_within_limits cfg equity_prev today d idx (sig ∷ sigs) hs books hs' books' inv e =
    elim (Bool-cases (leb cfg.max_pos (length hs))) [
      | inl q ↦
          subst (λ (x : List Holding × Books). IsBook cfg x.0 × Solvent books x.1)
            (ok-injective _ _ (rw q at e)) (inv, λ h. h)
      | inr q ↦
          let ((ks, b), e1, t) =
            >>=-eq-ok (enter_one cfg equity_prev today sig d idx hs books) _ (rw q at e) in
          let (entered, solvent) =
            enter_one-IsRound cfg equity_prev today sig d idx hs books ks b e1 in
          let (final, still) =
            entries_within_limits cfg equity_prev today d idx sigs ks b hs' books'
              (entered-IsBook cfg hs ks books b q inv entered) t in
          (final, λ h. still (solvent h))
    ]
