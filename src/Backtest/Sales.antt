-- ===== src/Backtest/Sales.antt =====
-- backend/src/stk/backtest/engine.py: `_sell`, `_exit_trigger` and `exits`.
use stock_analyser.Prelude.{
  ℕ, zero, suc, ◌-◌, Bool, true, false, ◌&&◌, not, if◌then◌else◌, leb, ltb, ◌==◌, Option, none,
  some, List, [], ◌∷◌, ◌++◌, contains, pos, ◌-ℤ◌, Result, ok, ◌>>=◌,
}
use stock_analyser.Decimal.{Decimal, of_nat, ◌+d◌, ◌-d◌, ◌*d◌, led, eqd, quotient}
use stock_analyser.Money.{of_money}
use stock_analyser.Costs.{sell, dp_charge}
use stock_analyser.Fills.{can_sell}
use stock_analyser.Slippage.{apply_slippage, cap_quantity}
use stock_analyser.Backtest.{
  Bar, Config, ExitReason, by_stop, by_target, by_time, Holding, Books, EngineError, slippage_error,
  recast,
}
use stock_analyser.Backtest.Amounts.{
  divide, quantize, slip_bps, bar_lock, leg_costs, bar_of, return_of, is_delivery,
}

-- The DP charge is due once a day for each symbol sold from delivery.
abbrev pub dp_due : Config → ℕ → List ℕ → Bool
dp_due cfg symbol done = is_delivery cfg.product && not (contains symbol done)

-- The end of `_sell`, after the amounts that may raise: `px` and `costs` are those of the sale,
-- `alloc` the part of the entry costs.
unfoldable pub book_sale :
    Holding → ℕ → Decimal → Decimal → Decimal → ℕ → ℕ → ExitReason → Bool → Books → Holding × Books
unfolding ◌+d◌ ◌-d◌ ◌*d◌ eqd quotient
book_sale h qty px costs alloc d idx why dp books =
    let gross = (px -d h.entry_price) *d of_nat qty in
    let net = gross -d alloc -d costs in
    let committed = h.entry_price *d of_nat qty in
    (
      record h { qty = h.qty - qty; entry_costs_left = h.entry_costs_left -d alloc },
      record books {
        cash = books.cash +d (px *d of_nat qty -d costs);
        trades =
            record {
              symbol = h.symbol;
              entry_date = h.entry_date;
              entry_price = h.entry_price;
              exit_date = d;
              exit_price = px;
              qty = qty;
              entry_costs = alloc;
              exit_costs = costs;
              gross_pnl = gross;
              net_pnl = net;
              return_pct = return_of net committed;
              exit_reason = why;
              holding_days = pos idx -ℤ pos h.entry_index;
              reason = h.reason;
            }
            ∷ books.trades;
        dp_done = if dp then h.symbol ∷ books.dp_done else books.dp_done;
      },
    )

-- `_sell`, with the index of the date `d` and the row's `adv_turnover`.
unfoldable pub sell_holding :
    Config
    → Holding
    → ℕ
    → Decimal
    → Option Decimal
    → ℕ
    → ℕ
    → ExitReason
    → Books
    → Result EngineError (Holding × Books)
unfolding slip_bps leg_costs apply_slippage divide quantize book_sale dp_charge
sell_holding cfg h qty raw_price adv d idx why books = do
  bps ← slip_bps cfg adv
  let px = apply_slippage raw_price sell bps
  leg ← leg_costs cfg sell (px *d of_nat qty) d
  let dp = dp_due cfg h.symbol books.dp_done
  let costs = if dp then leg +d of_money (dp_charge (cfg.rates_for d)) else leg
  share ← divide (h.entry_costs_left *d of_nat qty) (of_nat h.qty)
  ok (book_sale h qty px costs (quantize share) d idx why dp books)

-- `pos.stop is not None and price <= pos.stop`
abbrev pub at_or_below : Decimal → Option Decimal → Bool
at_or_below price none = false
at_or_below price (some level) = led price level

abbrev pub at_or_above : Decimal → Option Decimal → Bool
at_or_above price none = false
at_or_above price (some level) = led level price

abbrev pub level_or : Option Decimal → Decimal → Decimal
level_or none price = price
level_or (some level) price = level

-- `_exit_trigger`; the levels of the second and fourth case are there.
unfoldable pub exit_trigger : Holding → Bar → ℕ → Option (Decimal × ExitReason)
unfolding led
exit_trigger h row held_days =
    if at_or_below row.opening h.stop
    then some (row.opening, by_stop)
    else if at_or_below row.low h.stop
    then some (level_or h.stop row.low, by_stop)
    else if at_or_above row.opening h.target
    then some (row.opening, by_target)
    else if at_or_above row.high h.target
    then some (level_or h.target row.high, by_target)
    else if leb h.max_hold_days held_days
    then some (row.closing, by_time)
    else none

abbrev pub count_exit_blocked : Books → Books
count_exit_blocked b = record b {
  stats = record b.stats { exit_blocked_lower_lock = suc b.stats.exit_blocked_lower_lock };
}

abbrev pub count_deferred : Bool → Books → Books
count_deferred false b = b
count_deferred true b = record b {
  stats = record b.stats { exit_deferred_cap = suc b.stats.exit_deferred_cap };
}

-- A position whose quantity is 0 leaves the dict.
abbrev pub kept : Holding → List Holding
kept h = if h.qty == 0 then [] else h ∷ []

-- The sale of a triggered exit: nothing at a fill of 0.
abbrev pub fill_exit :
    Config
    → Holding
    → ℕ
    → Decimal
    → ExitReason
    → Bar
    → ℕ
    → ℕ
    → Books
    → Result EngineError (List Holding × Books)
fill_exit cfg h zero price why row d idx books = ok (h ∷ [], books)
fill_exit cfg h (suc n) price why row d idx books = do
  (h', books') ← sell_holding cfg h (suc n) price row.adv_turnover d idx why books
  ok (kept h', books')

abbrev pub attempt_exit :
    Config
    → Holding
    → Bool
    → Option (Decimal × ExitReason)
    → Bar
    → ℕ
    → ℕ
    → Books
    → Result EngineError (List Holding × Books)
attempt_exit cfg h sellable none row d idx books = ok (h ∷ [], books)
attempt_exit cfg h false (some _) row d idx books = ok (h ∷ [], count_exit_blocked books)
attempt_exit cfg h true (some (price, why)) row d idx books = do
  fill ← recast slippage_error (cap_quantity (pos h.qty) (pos row.volume) cfg.participation_cap)
  fill_exit cfg h fill price why row d idx (count_deferred (ltb fill h.qty) books)

-- One round of `exits`: what is left of the position.
unfoldable pub exit_one :
    Config → Option Bar → Holding → ℕ → ℕ → Books → Result EngineError (List Holding × Books)
unfolding exit_trigger bar_lock can_sell cap_quantity sell_holding
exit_one cfg none h d idx books = ok (h ∷ [], books)
exit_one cfg (some row) h d idx books =
    if idx == h.entry_index
    then ok (h ∷ [], books)
    else attempt_exit cfg h (can_sell (bar_lock cfg row)) (exit_trigger h row (idx - h.entry_index))
        row d idx books

-- `exits`, over the positions in their order.
unfoldable pub exits :
    Config → List Bar → ℕ → ℕ → List Holding → Books → Result EngineError (List Holding × Books)
unfolding exit_one bar_of
exits cfg today d idx [] books = ok ([], books)
exits cfg today d idx (h ∷ hs) books = do
  (left, books') ← exit_one cfg (bar_of today h.symbol) h d idx books
  (rest, books'') ← exits cfg today d idx hs books'
  ok (left ++ rest, books'')
