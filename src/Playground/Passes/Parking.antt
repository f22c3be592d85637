-- ===== src/Playground/Passes/Parking.antt =====
-- Moves of resting orders by the feed's state (backend/src/stk/playground/passes.py): parked while
-- it is stale, restored when it is alive, and market orders that outlived their session cancelled.
use stock_analyser.Prelude.{
  ℕ, ◌+◌, Bool, true, false, ◌&&◌, Option, none, some, List, [], ◌∷◌, contains, Result, ok, ◌>>=◌,
}
use stock_analyser.Orders.{OrderStatus, opened, pending_eod, cancelled, market_order_expired}
use stock_analyser.Playground.Store.{Db, OrderRow}
use stock_analyser.Playground.Book.{BookError, set_status}
use stock_analyser.Playground.Passes.{active_orders}

abbrev pub is_opened : OrderStatus → Bool
is_opened opened = true
is_opened _ = false

abbrev pub is_pending : OrderStatus → Bool
is_pending pending_eod = true
is_pending _ = false

-- `symbols is not None and row["symbol"] not in symbols` is false.
abbrev pub in_scope : Option (List ℕ) → OrderRow → Bool
in_scope none r = true
in_scope (some symbols) r = contains r.listing.symbol symbols

-- The body of a loop that moves and counts the rows that pass a test; the first argument is the
-- test's answer.
unfoldable pub move_row : Bool → OrderRow → OrderStatus → Option ℕ → Db → Result BookError (ℕ × Db)
move_row true r new closed db = do db' ← set_status db r.order.order_id new closed; ok (1, db')
move_row false r new closed db = ok (0, db)

unfoldable pub move_rows :
    List OrderRow → (OrderRow → Bool) → OrderStatus → Option ℕ → Db → Result BookError (ℕ × Db)
unfolding move_row
move_rows [] test new closed db = ok (0, db)
move_rows (r ∷ rs) test new closed db = do
  moved ← move_row (test r) r new closed db
  rest ← move_rows rs test new closed moved.1
  ok (moved.0 + rest.0, rest.1)

unfoldable pub mark_pending_eod : Db → Option (List ℕ) → Result BookError (ℕ × Db)
unfolding move_rows
mark_pending_eod db symbols =
    move_rows (active_orders db none) (λ r. in_scope symbols r && is_opened r.order.status)
      pending_eod none db

unfoldable pub restore_open : Db → List ℕ → Result BookError Db
unfolding move_rows
restore_open db symbols = do
  moved ←
      move_rows (active_orders db none)
        (λ r. contains r.listing.symbol symbols && is_pending r.order.status) opened none db
  ok moved.1

unfoldable pub expire_market_orders : Db → List ℕ → ℕ → ℕ → Result BookError Db
unfolding move_rows
expire_market_orders db symbols close now = do
  moved ←
      move_rows (active_orders db none)
        (λ r. contains r.listing.symbol symbols && market_order_expired r.order close) cancelled
        (some now) db
  ok moved.1
