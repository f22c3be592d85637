-- ===== src/Backtest/Accounting.antt =====
-- What a sale of backend/src/stk/backtest/engine.py does to the books: cash less realised profit,
-- plus the cost of what is held, stays.
use stock_analyser.Prelude.{
  ℕ, zero, suc, ◌-◌, ◌≤◌, ◌≡◌, refl, sym, subst, inl, inr, Bool, false, if◌then◌else◌, Option, List,
  [], ◌∷◌, arith, Bool-cases, ok, >>=-eq-ok, ok-injective,
}
use stock_analyser.Decimal.{Decimal, zero_d, of_nat, ◌+d◌, ◌-d◌, ◌*d◌, eqd, quotient}
use stock_analyser.Decimal.Same.{
  Alike, same, same_refl, ◌⨾◌, same_add, same_sub, same_zero, same_sub_self, same_sale,
}
use stock_analyser.Costs.{sell, dp_charge}
use stock_analyser.Money.{of_money}
use stock_analyser.Slippage.{apply_slippage}
use stock_analyser.Backtest.{Config, ExitReason, Holding, Books, Trade}
use stock_analyser.Backtest.Amounts.{divide, quantize, slip_bps, leg_costs}
use stock_analyser.Backtest.Paise.{
  IsPaise, quantize-Alike, quantize-IsPaise, quotient-Alike, sub-IsPaise, Alike-IsPaise,
}
use stock_analyser.Backtest.Sales.{book_sale, dp_due, sell_holding}

-- The realised profit of some trades.
unfoldable pub profit : List Trade → Decimal
profit [] = zero_d
profit (t ∷ ts) = t.net_pnl +d profit ts

-- What a position has cost, its share of the entry charges included.
unfoldable pub cost_one : Holding → Decimal
cost_one h = h.entry_price *d of_nat h.qty +d h.entry_costs_left

unfoldable pub at_cost : List Holding → Decimal
unfolding cost_one
at_cost [] = zero_d
at_cost (h ∷ hs) = cost_one h +d at_cost hs

-- Cash less what was gained.
unfoldable pub principal : Books → Decimal
unfolding profit
principal books = books.cash -d profit books.trades

-- A sale that keeps the sum: `h'` is what is left of `h`.
pub record IsSale (h h' : Holding) (qty : ℕ) (books books' : Books) : Type 0 where
  pub kept_sum : Alike (principal books' +d cost_one h') (principal books +d cost_one h)
  pub rest : h'.qty ≡ h.qty - qty
  pub symbol : h'.symbol ≡ h.symbol
  pub paise : IsPaise h.entry_costs_left → IsPaise h'.entry_costs_left
  pub all_sold : qty ≡ h.qty → IsPaise h.entry_costs_left → Alike (cost_one h') zero_d

divide-ok :
    (a b share : Decimal) → divide a b ≡ ok share → (eqd b zero_d ≡ false) × (quotient a b ≡ share)
unfolding divide
divide-ok a b share h = elim (Bool-cases (eqd b zero_d)) [
  | inl e ↦ let bad = rw e at h in cc
  | inr e ↦ (e, ok-injective _ _ (rw e at h))
]

nothing_left :
    (price left alloc : Decimal) (n : ℕ)
    → Alike alloc left
    → Alike (price *d of_nat (n - n) +d (left -d alloc)) zero_d
unfolding ◌*d◌ ◌+d◌
nothing_left price left alloc n h =
    let none_left : n - n ≡ 0 = omega arith in
    rw none_left (
      same_add {b = zero_d} (same (omega arith)) (same_sub same_refl h ⨾ same_sub_self left)
      ⨾ same_zero zero_d)

-- The share of a whole sale is all that was left.
whole_share :
    (left : Decimal) (n : ℕ) (share : Decimal)
    → divide (left *d of_nat n) (of_nat n) ≡ ok share
    → IsPaise left
    → Alike (quantize share) left
unfolding divide eqd
whole_share left zero share e p = cc
whole_share left (suc n) share e p =
    let (_, q) = divide-ok (left *d of_nat (suc n)) (of_nat (suc n)) share e in
    let all_of_it : Alike share left = subst (λ t. Alike t left) q (quotient-Alike left n) in
    quantize-Alike share (Alike-IsPaise share left all_of_it p) ⨾ all_of_it

book_sale-IsSale :
    (h : Holding) (qty : ℕ) (px costs share : Decimal) (d idx : ℕ) (why : ExitReason) (dp : Bool)
    (books : Books)
    → qty ≤ h.qty
    → divide (h.entry_costs_left *d of_nat qty) (of_nat h.qty) ≡ ok share
    → (let r = book_sale h qty px costs (quantize share) d idx why dp books in
        IsSale h r.0 qty books r.1)
unfolding book_sale principal profit cost_one
book_sale-IsSale h qty px costs share d idx why dp books le e = record {
  kept_sum =
      same_sale books.cash (profit books.trades) px h.entry_price costs h.entry_costs_left
        (quantize share) h.qty qty le;
  rest = refl;
  symbol = refl;
  paise = λ p. sub-IsPaise h.entry_costs_left (quantize share) p (quantize-IsPaise share);
  all_sold = λ whole p.
      subst
        (λ n.
          Alike (h.entry_price *d of_nat (h.qty - n) +d (h.entry_costs_left -d quantize share))
            zero_d)
        (sym whole)
        (nothing_left h.entry_price h.entry_costs_left (quantize share) h.qty (
          whole_share h.entry_costs_left h.qty share
            (subst (λ n. divide (h.entry_costs_left *d of_nat n) (of_nat h.qty) ≡ ok share) whole e)
            p));
}

-- `sell_holding` either raises or makes such a sale.
pub sell_holding-IsSale :
    (cfg : Config) (h : Holding) (qty : ℕ) (raw_price : Decimal) (adv : Option Decimal) (d idx : ℕ)
    (why : ExitReason) (books : Books) (h' : Holding) (books' : Books)
    → qty ≤ h.qty
    → sell_holding cfg h qty raw_price adv d idx why books ≡ ok (h', books')
    → IsSale h h' qty books books'
unfolding sell_holding
sell_holding-IsSale cfg h qty raw_price adv d idx why books h' books' le e =
    let (bps, e1, t1) = >>=-eq-ok (slip_bps cfg adv) _ e in
    let px : Decimal = apply_slippage raw_price sell bps in
    let (leg, e2, t2) = >>=-eq-ok (leg_costs cfg sell (px *d of_nat qty) d) _ t1 in
    let (share, e3, t3) =
      >>=-eq-ok (divide (h.entry_costs_left *d of_nat qty) (of_nat h.qty)) _ t2 in
    let dp : Bool = dp_due cfg h.symbol books.dp_done in
    let costs : Decimal = if dp then leg +d of_money (dp_charge (cfg.rates_for d)) else leg in
    subst (λ (r : Holding × Books). IsSale h r.0 qty books r.1) (ok-injective _ _ t3)
      (book_sale-IsSale h qty px costs share d idx why dp books le e3)
