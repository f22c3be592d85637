-- ===== src/Backtest/Balance.antt =====
-- The exits of a day in backend/src/stk/backtest/engine.py keep the books in balance.
use stock_analyser.Prelude.{
  ℕ, zero, suc, ◌-◌, ◌≤◌, ◌≡◌, ap, subst, inl, inr, Bool, true, false, ◌==◌, ltb, Option, none,
  some, List, [], ◌∷◌, ◌++◌, All, All-append, arith, pos, Bool-cases, Result, ok, err, >>=-eq-ok,
  ok-injective,
}
use stock_analyser.Decimal.{Decimal, ◌+d◌}
use stock_analyser.Decimal.Same.{
  Alike, same, same_refl, same_sym, ◌⨾◌, same_add, same_assoc, same_swap, same_comm, same_zero,
}
use stock_analyser.Slippage.{SlippageError, cap_quantity}
use stock_analyser.Slippage.Fraction.{cap_quantity-guards}
use stock_analyser.Fills.{can_sell}
use stock_analyser.Backtest.{
  Bar, Config, ExitReason, Holding, Books, EngineError, recast, slippage_error,
}
use stock_analyser.Backtest.Amounts.{bar_of, bar_lock}
use stock_analyser.Backtest.Paise.{IsPaise}
use stock_analyser.Backtest.Sales.{
  sell_holding, exit_trigger, attempt_exit, count_deferred, count_exit_blocked, fill_exit, kept,
  exit_one, exits,
}
use stock_analyser.Backtest.Accounting.{cost_one, at_cost, principal, IsSale, sell_holding-IsSale}

abbrev pub AllPaise : List Holding → Type 0
AllPaise hs = All (λ (h : Holding). IsPaise h.entry_costs_left) hs

-- What some positions became: their entry costs are whole paise, and the principal with their cost
-- is what it was.
pub record IsBalanced (before : Decimal) (hs : List Holding) (books : Books) : Type 0 where
  pub paise : AllPaise hs
  pub kept_sum : Alike (principal books +d at_cost hs) before

unchanged :
    (h : Holding) (books : Books)
    → IsPaise h.entry_costs_left
    → IsBalanced (principal books +d cost_one h) (h ∷ []) books
unfolding at_cost
unchanged h books p = record {
  paise = (p, tt);
  kept_sum = same_add same_refl (same_zero (cost_one h));
}

kept-IsBalanced :
    (h h' : Holding) (qty : ℕ) (books books' : Books)
    → qty ≤ h.qty
    → IsPaise h.entry_costs_left
    → IsSale h h' qty books books'
    → IsBalanced (principal books +d cost_one h) (kept h') books'
unfolding at_cost
kept-IsBalanced h h' qty books books' le p sale = elim (Bool-cases (h'.qty == 0)) [
  | inl e ↦
      let empty : h'.qty ≡ 0 = ground arith in
      let whole : qty ≡ h.qty = omega (arith, sale.rest) in
      rw e (record {
        paise = tt;
        kept_sum = same_add same_refl (same_sym (sale.all_sold whole p)) ⨾ sale.kept_sum;
      })
  | inr e ↦ rw e (record {
    paise = (sale.paise p, tt);
    kept_sum = same_add same_refl (same_zero (cost_one h')) ⨾ sale.kept_sum;
  })
]

pub recast-ok :
    {A : Type 0} (run : Result SlippageError A) (a : A)
    → recast slippage_error run ≡ ok a
    → run ≡ ok a
recast-ok (ok b) a h = ap ok (ok-injective _ _ h)
recast-ok (err e) a h = cc

-- The run that has a value has this one.
pub moved :
    {before : Decimal} (hs hs' : List Holding) (books books' : Books)
    → (let run : Result EngineError (List Holding × Books) = ok (hs, books) in
        run ≡ ok (hs', books'))
    → IsBalanced before hs books
    → IsBalanced before hs' books'
moved {before} hs hs' books books' e h =
    subst (λ (r : List Holding × Books). IsBalanced before r.0 r.1) (ok-injective _ _ e) h

fill_exit-IsBalanced :
    (cfg : Config) (h : Holding) (fill : ℕ) (price : Decimal) (why : ExitReason) (row : Bar)
    (d idx : ℕ) (books : Books) (left : List Holding) (books' : Books)
    → fill ≤ h.qty
    → IsPaise h.entry_costs_left
    → fill_exit cfg h fill price why row d idx books ≡ ok (left, books')
    → IsBalanced (principal books +d cost_one h) left books'
fill_exit-IsBalanced cfg h zero price why row d idx books left books' le p e =
    moved _ _ _ _ e (unchanged h books p)
fill_exit-IsBalanced cfg h (suc n) price why row d idx books left books' le p e =
    let ((h', b), e1, t) =
      >>=-eq-ok (sell_holding cfg h (suc n) price row.adv_turnover d idx why books) _ e in
    moved _ _ _ _ t (
      kept-IsBalanced h h' (suc n) books b le p
        (sell_holding-IsSale cfg h (suc n) price row.adv_turnover d idx why books h' b le e1))

pub at_most :
    (h : Holding) (row : Bar) (cfg : Config) (fill : ℕ)
    → cap_quantity (pos h.qty) (pos row.volume) cfg.participation_cap ≡ ok fill
    → fill ≤ h.qty
at_most h row cfg fill e =
    let (_, _, _, _, q) =
      cap_quantity-guards (pos h.qty) (pos row.volume) cfg.participation_cap e in
    omega (arith, q)

-- The counters are no part of the balance.
same_start :
    (h : Holding) (b : Bool) (books : Books) {left : List Holding} {books' : Books}
    → IsBalanced (principal (count_deferred b books) +d cost_one h) left books'
    → IsBalanced (principal books +d cost_one h) left books'
unfolding principal
same_start h true books x = x
same_start h false books x = x

attempt_exit-IsBalanced :
    (cfg : Config) (h : Holding) (sellable : Bool) (trigger : Option (Decimal × ExitReason))
    (row : Bar) (d idx : ℕ) (books : Books) (left : List Holding) (books' : Books)
    → IsPaise h.entry_costs_left
    → attempt_exit cfg h sellable trigger row d idx books ≡ ok (left, books')
    → IsBalanced (principal books +d cost_one h) left books'
unfolding principal
attempt_exit-IsBalanced cfg h sellable none row d idx books left books' p e =
    moved _ _ _ _ e (unchanged h books p)
attempt_exit-IsBalanced cfg h false (some t) row d idx books left books' p e =
    moved _ _ _ _ e (unchanged h (count_exit_blocked books) p)
attempt_exit-IsBalanced cfg h true (some (price, why)) row d idx books left books' p e =
    let (fill, e1, t) =
      >>=-eq-ok
        (recast slippage_error (cap_quantity (pos h.qty) (pos row.volume) cfg.participation_cap)) _
        e in
    let few : fill ≤ h.qty = at_most h row cfg fill (recast-ok _ fill e1) in
    same_start h (ltb fill h.qty) books (
      fill_exit-IsBalanced cfg h fill price why row d idx (count_deferred (ltb fill h.qty) books)
        left books' few p t)

pub exit_one-IsBalanced :
    (cfg : Config) (row : Option Bar) (h : Holding) (d idx : ℕ) (books : Books)
    (left : List Holding) (books' : Books)
    → IsPaise h.entry_costs_left
    → exit_one cfg row h d idx books ≡ ok (left, books')
    → IsBalanced (principal books +d cost_one h) left books'
unfolding exit_one
exit_one-IsBalanced cfg none h d idx books left books' p e = moved _ _ _ _ e (unchanged h books p)
exit_one-IsBalanced cfg (some row) h d idx books left books' p e =
    elim (Bool-cases (idx == h.entry_index)) [
      | inl q ↦ moved _ _ _ _ (rw q at e) (unchanged h books p)
      | inr q ↦
          attempt_exit-IsBalanced cfg h (can_sell (bar_lock cfg row))
            (exit_trigger h row (idx - h.entry_index)) row d idx books left books' p (rw q at e)
    ]

pub at_cost-append : (hs ks : List Holding) → Alike (at_cost (hs ++ ks)) (at_cost hs +d at_cost ks)
unfolding at_cost ◌+d◌
at_cost-append [] ks = same (omega arith)
at_cost-append (h ∷ hs) ks =
    unfold at_cost in (same_add same_refl (at_cost-append hs ks) ⨾ same_sym (same_assoc _ _ _))

-- The exits of a day.
pub exits-IsBalanced :
    (cfg : Config) (today : List Bar) (d idx : ℕ) (hs : List Holding) (books : Books)
    (left : List Holding) (books' : Books)
    → AllPaise hs
    → exits cfg today d idx hs books ≡ ok (left, books')
    → IsBalanced (principal books +d at_cost hs) left books'
unfolding exits at_cost
exits-IsBalanced cfg today d idx [] books left books' p e =
    moved _ _ _ _ e (record { paise = tt; kept_sum = same_refl })
exits-IsBalanced cfg today d idx (h ∷ hs) books left books' (p, ps) e =
    let ((l, b), e1, t1) = >>=-eq-ok (exit_one cfg (bar_of today h.symbol) h d idx books) _ e in
    let ((r, c), e2, t2) = >>=-eq-ok (exits cfg today d idx hs b) _ t1 in
    let first = exit_one-IsBalanced cfg (bar_of today h.symbol) h d idx books l b p e1 in
    let rest = exits-IsBalanced cfg today d idx hs b r c ps e2 in
    moved _ _ _ _ t2 (record {
      paise = All-append _ l r first.paise rest.paise;
      kept_sum =
          same_add same_refl (at_cost-append l r ⨾ same_comm (at_cost l) (at_cost r))
          ⨾ same_sym (same_assoc (principal c) (at_cost r) (at_cost l))
          ⨾ same_add rest.kept_sum (same_refl {a = at_cost l})
          ⨾ same_swap (principal b) (at_cost hs) (at_cost l)
          ⨾ same_add first.kept_sum (same_refl {a = at_cost hs})
          ⨾ same_assoc (principal books) (cost_one h) (at_cost hs);
    })
