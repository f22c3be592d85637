-- ===== src/Backtest/Exiting.antt =====
-- The exits of backend/src/stk/backtest/engine.py come to a value.
use stock_analyser.Prelude.{
  ℕ, zero, suc, ◌-◌, ◌≤◌, ◌≡◌, refl, ap, ◌∙◌, inl, inr, Bool, true, false, Option, none, some, List,
  [], ◌∷◌, Member, ltb, ◌==◌, arith, Bool-cases, Option-cases, ok,
}
use stock_analyser.Decimal.{Decimal, zero_d, of_nat, ◌*d◌, ◌≤d◌}
use stock_analyser.Decimal.Order.{≤d_trans, ≤d_of_<d}
use stock_analyser.Decimal.Field.{mul_nonneg_d}
use stock_analyser.Costs.{sell}
use stock_analyser.Fills.{can_sell}
use stock_analyser.Slippage.{apply_slippage}
use stock_analyser.Slippage.Fraction.{cap_quantity_largest}
use stock_analyser.Backtest.{Bar, Config, Holding, Books, ExitReason, recast, slippage_error}
use stock_analyser.Backtest.Amounts.{bar_lock, bar_of}
use stock_analyser.Backtest.Sales.{
  sell_holding, exit_trigger, fill_exit, attempt_exit, count_deferred, exit_one, exits,
}
use stock_analyser.Backtest.Triggers.{exit_trigger-IsJustified}
use stock_analyser.Backtest.Priced.{
  IsConfig, IsPriced, Returns, go_on, positive_count, slip_bps-known, leg_costs-known,
  sale_price_nonneg, divide-known,
}

sell_holding-Returns :
    (cfg : Config) (h : Holding) (qty : ℕ) (price : Decimal) (adv : Option Decimal) (d idx : ℕ)
    (why : ExitReason) (books : Books)
    → IsConfig cfg
    → 1 ≤ h.qty
    → zero_d ≤d price
    → Returns (sell_holding cfg h qty price adv d idx why books)
unfolding sell_holding
sell_holding-Returns cfg h qty price adv d idx why books c held priced =
    let (bps, e, _, modest) = slip_bps-known cfg adv c in
    let px = apply_slippage price sell bps in
    let (leg, k) =
      leg_costs-known cfg sell (px *d of_nat qty) d c
        (mul_nonneg_d px (of_nat qty) (sale_price_nonneg price bps priced modest) (omega arith)) in
    go_on _ _ e (
      go_on _ _ k (
        go_on _ _
          (divide-known (h.entry_costs_left *d of_nat qty) (of_nat h.qty)
            (positive_count h.qty held))
          (_, refl)))

fill_exit-Returns :
    (cfg : Config) (h : Holding) (fill : ℕ) (price : Decimal) (why : ExitReason) (row : Bar)
    (d idx : ℕ) (books : Books)
    → IsConfig cfg
    → 1 ≤ h.qty
    → zero_d ≤d price
    → Returns (fill_exit cfg h fill price why row d idx books)
fill_exit-Returns cfg h zero price why row d idx books c held priced = (_, refl)
fill_exit-Returns cfg h (suc n) price why row d idx books c held priced =
    let (sold, e) =
      sell_holding-Returns cfg h (suc n) price row.adv_turnover d idx why books c held priced in
    go_on _ _ e (_, refl)

attempt_exit-Returns :
    (cfg : Config) (h : Holding) (sellable : Bool) (trigger : Option (Decimal × ExitReason))
    (row : Bar) (d idx : ℕ) (books : Books)
    → IsConfig cfg
    → 1 ≤ h.qty
    → ((price : Decimal) (why : ExitReason) → trigger ≡ some (price, why) → zero_d ≤d price)
    → Returns (attempt_exit cfg h sellable trigger row d idx books)
attempt_exit-Returns cfg h sellable none row d idx books c held priced = (_, refl)
attempt_exit-Returns cfg h false (some t) row d idx books c held priced = (_, refl)
attempt_exit-Returns cfg h true (some (price, why)) row d idx books c held priced =
    let (fill, e, _, _) =
      cap_quantity_largest h.qty row.volume cfg.participation_cap c.cap_pos c.cap_whole in
    go_on _ _ (ap (λ r. recast slippage_error r) e) (
      fill_exit-Returns cfg h fill price why row d idx (count_deferred (ltb fill h.qty) books) c
        held (priced price why refl))

trigger_priced :
    (h : Holding) (row : Bar) (held : ℕ) (price : Decimal) (why : ExitReason)
    → IsPriced row
    → exit_trigger h row held ≡ some (price, why)
    → zero_d ≤d price
trigger_priced h row held price why p e = elim (exit_trigger-IsJustified h row held p.shaped) [
  | inl (price', why', e', (low, _), _) ↦
      let same : price' ≡ price = cc in
      ≤d_trans zero_d row.low price (≤d_of_<d zero_d row.low p.worth) (rw same at low)
  | inr (e', _, _, _) ↦ cc
]

exit_one-Returns :
    (cfg : Config) (row : Option Bar) (h : Holding) (d idx : ℕ) (books : Books)
    → IsConfig cfg
    → 1 ≤ h.qty
    → ((r : Bar) → row ≡ some r → IsPriced r)
    → Returns (exit_one cfg row h d idx books)
unfolding exit_one
exit_one-Returns cfg none h d idx books c held priced = (_, refl)
exit_one-Returns cfg (some row) h d idx books c held priced =
    elim (Bool-cases (idx == h.entry_index)) [
      | inl e ↦ rw e (_, refl)
      | inr e ↦ rw e (
          attempt_exit-Returns cfg h (can_sell (bar_lock cfg row))
            (exit_trigger h row (idx - h.entry_index)) row d idx books c held
            (λ price why t.
              trigger_priced h row (idx - h.entry_index) price why (priced row refl) t))
    ]

pub bar_of-Member :
    (today : List Bar) (sym : ℕ) {row : Bar} → bar_of today sym ≡ some row → Member row today
unfolding bar_of
bar_of-Member [] sym e = cc
bar_of-Member (r ∷ rs) sym {row} e = elim (Option-cases (bar_of rs sym)) [
  | inr (x, k) ↦ inr (bar_of-Member rs sym (k ∙ (rw k at e)))
  | inl k ↦ elim (Bool-cases (r.symbol == sym)) [
    | inl q ↦ let found = rw (k, q) at e in inl cc
    | inr q ↦ let found = rw (k, q) at e in cc
  ]
]

-- With at least one slippage tier, each of 0 to 10000 basis points, brokerage rules of a known kind,
-- a participation cap above 0 and at most 1 and room for a position, over bars of positive prices
-- whose open and close lie between their low and their high, and with positions of at least one
-- share: the exits of a day come to a result, whatever levels the positions carry.
pub exits_total :
    (cfg : Config) (today : List Bar) (d idx : ℕ) (hs : List Holding) (books : Books)
    → IsConfig cfg
    → ((row : Bar) → Member row today → IsPriced row)
    → ((h : Holding) → Member h hs → 1 ≤ h.qty)
    → (r : List Holding × Books) × (exits cfg today d idx hs books ≡ ok r)
unfolding exits
exits_total cfg today d idx [] books c priced held = (_, refl)
exits_total cfg today d idx (h ∷ hs) books c priced held =
    let ((left, books'), e) =
      exit_one-Returns cfg (bar_of today h.symbol) h d idx books c (held h (inl refl))
        (λ row q. priced row (bar_of-Member today h.symbol q)) in
    let (rest, k) = exits_total cfg today d idx hs books' c priced (λ x m. held x (inr m)) in
    go_on _ _ e (go_on _ _ k (_, refl))
