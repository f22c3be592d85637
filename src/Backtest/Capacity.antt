-- ===== src/Backtest/Capacity.antt =====
-- What the positions of a run in backend/src/stk/backtest/engine.py always satisfy.
use stock_analyser.Prelude.{
  ℕ, zero, suc, ◌-◌, ◌≤◌, ◌≡◌, refl, subst, ◌⊎◌, inl, inr, Bool, true, false, ◌==◌, ltb, Option,
  none, some, List, [], ◌∷◌, ◌++◌, All, arith, pos, length, Bool-cases, Result, ok, >>=-eq-ok,
  ok-injective,
}
use stock_analyser.Decimal.{Decimal}
use stock_analyser.Slippage.{cap_quantity}
use stock_analyser.Fills.{can_sell}
use stock_analyser.Backtest.{
  Bar, Config, ExitReason, Holding, Books, EngineError, recast, slippage_error,
}
use stock_analyser.Backtest.Amounts.{bar_of, bar_lock}
use stock_analyser.Backtest.Sales.{
  sell_holding, exit_trigger, attempt_exit, count_deferred, fill_exit, kept, exit_one, exits,
}
use stock_analyser.Backtest.Accounting.{sell_holding-IsSale}
use stock_analyser.Backtest.Balance.{at_most, recast-ok}

abbrev pub IsDistinct : List Holding → Type 0
IsDistinct [] = Unit
IsDistinct (h ∷ hs) = All (λ (k : Holding). (k.symbol == h.symbol) ≡ false) hs × IsDistinct hs

-- At most `max_pos` positions, no two of one symbol, each of at least one share.
pub record IsBook (cfg : Config) (hs : List Holding) : Type 0 where
  pub few : length hs ≤ cfg.max_pos
  pub distinct : IsDistinct hs
  pub held : All (λ (h : Holding). 1 ≤ h.qty) hs

-- Some positions went, and the others kept their symbols and at least one share.
data Trimmed : List Holding → List Holding → Type 0 where
  trimmed : Trimmed [] []
  gone : {h : Holding} {ks hs : List Holding} → Trimmed ks hs → Trimmed ks (h ∷ hs)
  stays :
      {h k : Holding} {ks hs : List Holding}
      → k.symbol ≡ h.symbol
      → 1 ≤ k.qty
      → Trimmed ks hs
      → Trimmed (k ∷ ks) (h ∷ hs)

Trimmed-length : (ks hs : List Holding) → Trimmed ks hs → length ks ≤ length hs
Trimmed-length _ _ trimmed = omega arith
Trimmed-length ks (_ ∷ hs) (gone t) = omega (arith, Trimmed-length ks hs t)
Trimmed-length (_ ∷ ks) (_ ∷ hs) (stays e q t) = omega (arith, Trimmed-length ks hs t)

Trimmed-apart :
    (s : ℕ) (ks hs : List Holding)
    → Trimmed ks hs
    → All (λ (k : Holding). (k.symbol == s) ≡ false) hs
    → All (λ (k : Holding). (k.symbol == s) ≡ false) ks
Trimmed-apart s _ _ trimmed h = h
Trimmed-apart s ks (_ ∷ hs) (gone t) (h, hs') = Trimmed-apart s ks hs t hs'
Trimmed-apart s (k ∷ ks) (_ ∷ hs) (stays e q t) (h, hs') = (rw e h, Trimmed-apart s ks hs t hs')

Trimmed-distinct : (ks hs : List Holding) → Trimmed ks hs → IsDistinct hs → IsDistinct ks
Trimmed-distinct _ _ trimmed h = h
Trimmed-distinct ks (_ ∷ hs) (gone t) (h, hs') = Trimmed-distinct ks hs t hs'
Trimmed-distinct (k ∷ ks) (_ ∷ hs) (stays e q t) (h, hs') =
    (rw e (Trimmed-apart _ ks hs t h), Trimmed-distinct ks hs t hs')

Trimmed-held : (ks hs : List Holding) → Trimmed ks hs → All (λ (h : Holding). 1 ≤ h.qty) ks
Trimmed-held _ _ trimmed = tt
Trimmed-held ks (_ ∷ hs) (gone t) = Trimmed-held ks hs t
Trimmed-held (k ∷ ks) (_ ∷ hs) (stays e q t) = (q, Trimmed-held ks hs t)

-- What an exit leaves of one position.
abbrev IsRest : Holding → List Holding → Type 0
IsRest h left =
    (left ≡ []) ⊎ ((k : Holding) × (left ≡ k ∷ []) × (k.symbol ≡ h.symbol) × (1 ≤ k.qty))

carried :
    (h : Holding) (left left' : List Holding) (books books' : Books)
    → (let run : Result EngineError (List Holding × Books) = ok (left, books) in
        run ≡ ok (left', books'))
    → IsRest h left
    → IsRest h left'
carried h left left' books books' e r =
    subst (λ (x : List Holding × Books). IsRest h x.0) (ok-injective _ _ e) r

kept-IsRest : (h h' : Holding) → h'.symbol ≡ h.symbol → IsRest h (kept h')
kept-IsRest h h' e = elim (Bool-cases (h'.qty == 0)) [
  | inl q ↦ inl (rw q refl)
  | inr q ↦ rw q (inr (h', refl, e, ground arith))
]

fill_exit-IsRest :
    (cfg : Config) (h : Holding) (fill : ℕ) (price : Decimal) (why : ExitReason) (row : Bar)
    (d idx : ℕ) (books : Books) (left : List Holding) (books' : Books)
    → fill ≤ h.qty
    → 1 ≤ h.qty
    → fill_exit cfg h fill price why row d idx books ≡ ok (left, books')
    → IsRest h left
fill_exit-IsRest cfg h zero price why row d idx books left books' le q e =
    carried h _ left _ books' e (inr (h, refl, refl, q))
fill_exit-IsRest cfg h (suc n) price why row d idx books left books' le q e =
    let ((h', b), e1, t) =
      >>=-eq-ok (sell_holding cfg h (suc n) price row.adv_turnover d idx why books) _ e in
    carried h _ left _ books' t (
      kept-IsRest h h'
        (sell_holding-IsSale cfg h (suc n) price row.adv_turnover d idx why books h' b le
          e1).symbol)

attempt_exit-IsRest :
    (cfg : Config) (h : Holding) (sellable : Bool) (trigger : Option (Decimal × ExitReason))
    (row : Bar) (d idx : ℕ) (books : Books) (left : List Holding) (books' : Books)
    → 1 ≤ h.qty
    → attempt_exit cfg h sellable trigger row d idx books ≡ ok (left, books')
    → IsRest h left
attempt_exit-IsRest cfg h sellable none row d idx books left books' q e =
    carried h _ left _ books' e (inr (h, refl, refl, q))
attempt_exit-IsRest cfg h false (some t) row d idx books left books' q e =
    carried h _ left _ books' e (inr (h, refl, refl, q))
attempt_exit-IsRest cfg h true (some (price, why)) row d idx books left books' q e =
    let (fill, e1, t) =
      >>=-eq-ok
        (recast slippage_error (cap_quantity (pos h.qty) (pos row.volume) cfg.participation_cap)) _
        e in
    fill_exit-IsRest cfg h fill price why row d idx (count_deferred (ltb fill h.qty) books) left
      books' (at_most h row cfg fill (recast-ok _ fill e1)) q t

exit_one-IsRest :
    (cfg : Config) (row : Option Bar) (h : Holding) (d idx : ℕ) (books : Books)
    (left : List Holding) (books' : Books)
    → 1 ≤ h.qty
    → exit_one cfg row h d idx books ≡ ok (left, books')
    → IsRest h left
unfolding exit_one
exit_one-IsRest cfg none h d idx books left books' q e =
    carried h _ left _ books' e (inr (h, refl, refl, q))
exit_one-IsRest cfg (some row) h d idx books left books' q e =
    elim (Bool-cases (idx == h.entry_index)) [
      | inl t ↦ carried h _ left _ books' (rw t at e) (inr (h, refl, refl, q))
      | inr t ↦
          attempt_exit-IsRest cfg h (can_sell (bar_lock cfg row))
            (exit_trigger h row (idx - h.entry_index)) row d idx books left books' q (rw t at e)
    ]

join_rest :
    (h : Holding) (left ks hs : List Holding)
    → IsRest h left
    → Trimmed ks hs
    → Trimmed (left ++ ks) (h ∷ hs)
join_rest h left ks hs (inl e) t = rw e (gone t)
join_rest h left ks hs (inr (k, e, same, q)) t = rw e (stays same q t)

exits-Trimmed :
    (cfg : Config) (today : List Bar) (d idx : ℕ) (hs : List Holding) (books : Books)
    (left : List Holding) (books' : Books)
    → All (λ (h : Holding). 1 ≤ h.qty) hs
    → exits cfg today d idx hs books ≡ ok (left, books')
    → Trimmed left hs
unfolding exits
exits-Trimmed cfg today d idx [] books left books' q e =
    subst (λ (x : List Holding × Books). Trimmed x.0 []) (ok-injective _ _ e) trimmed
exits-Trimmed cfg today d idx (h ∷ hs) books left books' (q, qs) e =
    let ((l, b), e1, t1) = >>=-eq-ok (exit_one cfg (bar_of today h.symbol) h d idx books) _ e in
    let ((r, c), e2, t2) = >>=-eq-ok (exits cfg today d idx hs b) _ t1 in
    subst (λ (x : List Holding × Books). Trimmed x.0 (h ∷ hs)) (ok-injective _ _ t2)
      (join_rest h l r hs (exit_one-IsRest cfg (bar_of today h.symbol) h d idx books l b q e1)
        (exits-Trimmed cfg today d idx hs b r c qs e2))

pub exits-IsBook :
    (cfg : Config) (today : List Bar) (d idx : ℕ) (hs : List Holding) (books : Books)
    (left : List Holding) (books' : Books)
    → IsBook cfg hs
    → exits cfg today d idx hs books ≡ ok (left, books')
    → IsBook cfg left
exits-IsBook cfg today d idx hs books left books' inv e =
    let t = exits-Trimmed cfg today d idx hs books left books' inv.held e in
    record {
      few = omega (arith, Trimmed-length left hs t, inv.few);
      distinct = Trimmed-distinct left hs t inv.distinct;
      held = Trimmed-held left hs t;
    }
