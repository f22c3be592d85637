-- ===== src/Tests/Book.antt =====
-- Examples for the book, the ledger and corporate actions.
use stock_analyser.Prelude.{[], if◌then◌else◌, none, ok, refl, some, true, ℕ, ◌↔◌, ◌∷◌, ◌≡◌, ◌≢◌}
use stock_analyser.Decimal.{Decimal, eqd, led, ltd, of_nat, one_d, zero_d, ◌<d◌}
use stock_analyser.Orders.{
  OrderError, OrderStatus, allowed, cancelled, collect_hits, filled, is_active, is_sell, opened,
  pending_eod, resolve_oco, stop_loss, transition, try_fill, validate_order,
}
use stock_analyser.Playground.Actions.{
  CaError, CaState, CorpAction, apply_cash_action, apply_price_action, apply_to_holder, cash_part,
  credit, is_cash_action, is_price_action, is_recorded, position_failed, price_part, reraise,
  rescale_orders, save_if_held, skipped,
}
use stock_analyser.Playground.Actions.Once.{SameTables, apply_in_turn, apply_to_holder_once}
use stock_analyser.Playground.Book.{cancel_order, check_request, find_order, place_order}
use stock_analyser.Playground.Book.Placement.{
  IsOpenOrder, IsPlaceable, check_request_iff, place_order_accepts,
}
use stock_analyser.Playground.Book.Status.{cancel_order_iff}
use stock_analyser.Playground.Ledger.{
  add_cash, cash_balance, cash_of, get_position, held_at_start_of, position_of, save_position,
  upsert_position,
}
use stock_analyser.Playground.Ledger.Audit.{get_position-save_position}
use stock_analyser.Playground.Store.{
  CashEntry, CashKind, Db, Listing, OrderRow, PositionRow, day_of, next_order_id, same_listing,
}
use stock_analyser.Positions.{Position, SplitResult, apply_split_or_bonus, dividend_cash}
use stock_analyser.Tests.Data.{
  after_bonus, after_both, before_bonus, db, elsewhere, held, one_for_one, paid_later, place,
  placed_db, request,
}

-- `check_request_iff` at a concrete input.
check_request_iff_example :
    (check_request db (7 ∷ []) request ≡ ok tt) ↔ IsPlaceable db (7 ∷ []) request
check_request_iff_example = check_request_iff db (7 ∷ []) request

-- `place_order_accepts` at a concrete input.
place_order_accepts_example :
    IsPlaceable db (7 ∷ []) request
    × (find_order db.orders 4 ≡ none)
    × ((r : OrderRow) × (find_order placed_db.orders 4 ≡ some r) × IsOpenOrder request 4 70 r)
    × ((other : ℕ) → other ≢ 4 → find_order placed_db.orders other ≡ find_order db.orders other)
    × (record placed_db { orders = db.orders } ≡ db)
unfolding place_order placed_db stock_analyser.Orders.validate_order stock_analyser.Decimal.led
    stock_analyser.Playground.Ledger.get_position stock_analyser.Playground.Ledger.position_of
    stock_analyser.Playground.Store.same_listing next_order_id
place_order_accepts_example =
    place_order_accepts db (7 ∷ []) request 70 {id = 4} {db' = placed_db} refl

-- `cancel_order_iff` at a concrete input.
cancel_order_iff_example :
    ((db' : Db) × (cancel_order db 2 60 ≡ ok db'))
    ↔ ((r : OrderRow) × (find_order db.orders 2 ≡ some r) × (is_active r.order.status ≡ true))
cancel_order_iff_example = cancel_order_iff db 2 60

-- `get_position-save_position` at a concrete input.
get_position-save_position_example :
    get_position (save_position db place held) elsewhere
    ≡ (if same_listing place elsewhere then held else get_position db elsewhere)
get_position-save_position_example = get_position-save_position db place elsewhere held

-- `apply_to_holder_once` at a concrete input.
apply_to_holder_once_example :
    (t' : CaState) × (apply_to_holder after_both one_for_one 1 0 20 ≡ ok t')
    × SameTables after_both t'
unfolding apply_to_holder after_bonus after_both apply_in_turn
    stock_analyser.Positions.dividend_cash stock_analyser.Playground.Ledger.held_at_start_of
    stock_analyser.Playground.Ledger.replay_back stock_analyser.Playground.Ledger.add_cash
    stock_analyser.Playground.Ledger.cash_of stock_analyser.Playground.Actions.is_recorded
    stock_analyser.Decimal.ltd stock_analyser.Decimal.eqd
    stock_analyser.Positions.apply_split_or_bonus stock_analyser.Decimal.led
    stock_analyser.Playground.Actions.rescale_orders stock_analyser.Playground.Ledger.get_position
    stock_analyser.Playground.Ledger.position_of stock_analyser.Playground.Store.same_listing
    stock_analyser.Playground.Ledger.save_position stock_analyser.Orders.is_active
    stock_analyser.Decimal.floor_nat stock_analyser.Decimal.◌*d◌
apply_to_holder_once_example =
    apply_to_holder_once before_bonus one_for_one 1 0 10 20 paid_later {s' = after_bonus}
      {t = after_both} refl refl
