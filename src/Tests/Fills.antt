-- ===== src/Tests/Fills.antt =====
-- Examples for fills.
use stock_analyser.Prelude.{
  Option, arith, false, none, ok, pos, refl, some, ℕ, ◌+ℤ◌, ◌≡◌, ◌≢◌, ◌≤ℤ◌,
}
use stock_analyser.Costs.{buy}
use stock_analyser.Decimal.{of_nat}
use stock_analyser.Money.{of_money}
use stock_analyser.Orders.{cancelled, filled, is_active}
use stock_analyser.Playground.Book.{find_order}
use stock_analyser.Playground.Book.Status.{closed_as}
use stock_analyser.Playground.Fill.{Quote, apply_fill, quote_fill, signed}
use stock_analyser.Playground.Fill.Closing.{IsPartner, apply_fill_orders}
use stock_analyser.Playground.Fill.Effects.{
  IsTraded, apply_fill_cash, apply_fill_position, apply_fill_reconciles,
}
use stock_analyser.Playground.Fill.Holdings.{apply_fill_held}
use stock_analyser.Playground.Fill.Outcome.{
  IsRefused, IsRejected, apply_fill_rejects, apply_fill_total,
}
use stock_analyser.Playground.Ledger.{cash_balance, get_position, held_at_start_of}
use stock_analyser.Playground.Ledger.Audit.{cash_balance-eq-moved, moved}
use stock_analyser.Playground.Store.{Db, Listing, day_of, next_order_id, same_listing}
use stock_analyser.Tests.Data.{
  audited, bracketed, ctx, db, filled-run, filled_db, place, poor_db, quote, quote-run, refused-run,
  refused_db,
}

-- `apply_fill_cash` at a concrete input.
apply_fill_cash_example :
    (q : Quote) × (quote_fill db ctx bracketed (of_nat 105) 33900 none ≡ ok q)
    × (cash_balance filled_db bracketed.listing.portfolio_id +ℤ q.charges
        ≡ cash_balance db bracketed.listing.portfolio_id +ℤ signed bracketed.order.side q.gross)
    × ((other : ℕ)
        → other ≢ bracketed.listing.portfolio_id
        → cash_balance filled_db other ≡ cash_balance db other)
    × (bracketed.order.side ≡ buy → pos 0 ≤ℤ cash_balance filled_db bracketed.listing.portfolio_id)
apply_fill_cash_example =
    apply_fill_cash db ctx bracketed (of_nat 105) 33900 none 50 1 {db' = filled_db} filled-run

-- `apply_fill_position` at a concrete input.
apply_fill_position_example :
    (q : Quote) × (quote_fill db ctx bracketed (of_nat 105) 33900 none ≡ ok q)
    × IsTraded bracketed.order.side
        (get_position db bracketed.listing)
        bracketed.order.qty
        (of_money q.price)
        (get_position filled_db bracketed.listing)
    × ((other : Listing)
        → same_listing bracketed.listing other ≡ false
        → get_position filled_db other ≡ get_position db other)
apply_fill_position_example =
    apply_fill_position db ctx bracketed (of_nat 105) 33900 none 50 1 {db' = filled_db} filled-run

-- `apply_fill_reconciles` at a concrete input.
apply_fill_reconciles_example : cash_balance filled_db 1 ≡ moved filled_db.cash_ledger 1
apply_fill_reconciles_example =
    apply_fill_reconciles db ctx bracketed (of_nat 105) 33900 none 50 1 1 {db' = filled_db}
      (cash_balance-eq-moved db 1 audited) filled-run

-- `apply_fill_rejects` at a concrete input.
apply_fill_rejects_example :
    (q : Quote) × (quote_fill poor_db ctx bracketed (of_nat 105) 33900 none ≡ ok q)
    × IsRefused bracketed.order.side poor_db bracketed q
    × IsRejected poor_db refused_db bracketed.order.order_id 50
apply_fill_rejects_example =
    apply_fill_rejects poor_db ctx bracketed (of_nat 105) 33900 none 50 {db' = refused_db}
      refused-run

-- `apply_fill_total` at a concrete input.
apply_fill_total_example :
    (r : Option ℕ × Db) × (apply_fill db ctx bracketed (of_nat 105) 33900 none 50 ≡ ok r)
unfolding find_order is_active next_order_id
apply_fill_total_example =
    apply_fill_total db ctx bracketed (of_nat 105) 33900 none 50 {q = quote}
      (record { keyed = ground arith; fresh = refl; active = refl; positive = ground arith })
      quote-run

-- `apply_fill_orders` at a concrete input.
apply_fill_orders_example :
    (1 ≡ bracketed.order.order_id
      → find_order filled_db.orders 1 ≡ some (closed_as filled 50 bracketed))
    × (1 ≢ bracketed.order.order_id
        → IsPartner bracketed bracketed
        → find_order filled_db.orders 1 ≡ some (closed_as cancelled 50 bracketed))
    × (1 ≢ bracketed.order.order_id
        → ¬ IsPartner bracketed bracketed
        → find_order filled_db.orders 1 ≡ some bracketed)
unfolding find_order next_order_id
apply_fill_orders_example =
    apply_fill_orders db ctx bracketed (of_nat 105) 33900 none 50 1 1 bracketed {db' = filled_db}
      (ground arith) filled-run refl

-- `apply_fill_held` at a concrete input.
apply_fill_held_example : held_at_start_of filled_db place 0 ≡ held_at_start_of db place 0
unfolding day_of
apply_fill_held_example =
    apply_fill_held db ctx bracketed (of_nat 105) 33900 none 50 1 place 0 {db' = filled_db}
      filled-run (ground arith)
