-- ===== src/Playground/Book.antt =====
-- backend/src/stk/playground/orders.py: placing and cancelling paper orders. The `listings` table
-- is another part of the program: the numbers of the symbols that it knows are an argument, and a
-- symbol's number is that of its trimmed upper-case text. `now` is the clock's reading.
pub mod Status
pub mod Placement
use stock_analyser.Prelude.{
  ℕ, Bool, true, false, ◌&&◌, ◌||◌, not, if◌then◌else◌, ◌==◌, ltb, Option, none, some, List, [],
  ◌∷◌, contains, any_of, find_first, ℤ, pos, pos_part, Result, ok, err, ◌>>=◌, ◌>>◌, raise_if,
  or_raise,
}
use stock_analyser.Decimal.{Decimal, zero_d, led, eqd}
use stock_analyser.Costs.{Side, buy, sell}
use stock_analyser.Orders.{
  Order, OrderType, OrderStatus, OrderError, IllegalTransition, opened, cancelled, transition,
  validate_order, is_active, is_sell,
}
use stock_analyser.Playground.Store.{Listing, Db, OrderRow, Portfolio, next_order_id}
use stock_analyser.Playground.Ledger.{get_position}

-- The exchange of the playground, `EXCHANGE`.
abbrev pub nse : ℕ
nse = 1

-- The reasons of `LedgerError`, and the refusal of the state machine.
pub data BookError : Type 0 where
  malformed : OrderError → BookError
  bracket_on_sell bracket_not_positive bracket_crossed : BookError
  unknown_symbol no_portfolio oversold no_order already_closed : BookError
  bad_transition : IllegalTransition → BookError

abbrev pub lift : {E A : Type 0} → (E → BookError) → Result E A → Result BookError A
lift f (ok a) = ok a
lift f (err e) = err (f e)

-- Python's truth of an optional `Decimal`.
abbrev pub truthy : Option Decimal → Bool
truthy none = false
truthy (some d) = not (eqd d zero_d)

-- `val is not None and val <= 0`
abbrev pub bad_bracket : Option Decimal → Bool
bad_bracket none = false
bad_bracket (some d) = led d zero_d

abbrev pub crossed : Option Decimal → Option Decimal → Bool
crossed (some stop) (some target) = led target stop
crossed _ _ = false

-- `order_id=?`
abbrev pub has_id : ℕ → OrderRow → Bool
has_id id r = r.order.order_id == id

-- `SELECT 1 FROM portfolios WHERE portfolio_id=? AND archived_at IS NULL`
abbrev pub is_open_portfolio : ℕ → Portfolio → Bool
is_open_portfolio pid p = p.portfolio_id == pid && not p.archived

-- What the caller asks for. `qty` is an unchecked integer.
pub record OrderRequest : Type 0 where
  pub portfolio_id : ℕ
  pub symbol : ℕ
  pub side : Side
  pub order_type : OrderType
  pub qty : ℤ
  pub limit_price : Option Decimal
  pub trigger_price : Option Decimal
  pub bracket_stop : Option Decimal
  pub bracket_target : Option Decimal

abbrev pub listing_of : OrderRequest → Listing
listing_of q = record { portfolio_id = q.portfolio_id; exchange = nse; symbol = q.symbol }

-- The row that an accepted request becomes.
abbrev pub placed_row : OrderRequest → ℕ → ℕ → OrderRow
placed_row q id now = record {
  order = record {
    order_id = id;
    side = q.side;
    order_type = q.order_type;
    qty = pos_part q.qty;
    created_at = now;
    limit_price = q.limit_price;
    trigger_price = q.trigger_price;
    status = opened;
    oco_group = none;
  };
  listing = listing_of q;
  bracket_stop = q.bracket_stop;
  bracket_target = q.bracket_target;
  parent_order_id = none;
  closed_at = none;
}

-- The checks of `place_order`, in their order.
unfoldable pub check_request : Db → List ℕ → OrderRequest → Result BookError (Unit {0})
check_request db listings q = do
  lift malformed (validate_order q.side q.order_type q.qty q.limit_price q.trigger_price)
  raise_if ((truthy q.bracket_stop || truthy q.bracket_target) && is_sell q.side) bracket_on_sell
  raise_if (bad_bracket q.bracket_stop || bad_bracket q.bracket_target) bracket_not_positive
  raise_if (crossed q.bracket_stop q.bracket_target) bracket_crossed
  raise_if (not (contains q.symbol listings)) unknown_symbol
  raise_if (not (any_of (is_open_portfolio q.portfolio_id) db.portfolios)) no_portfolio
  raise_if (is_sell q.side && ltb (get_position db (listing_of q)).qty (pos_part q.qty)) oversold

unfoldable pub place_order : Db → List ℕ → OrderRequest → ℕ → Result BookError (ℕ × Db)
unfolding check_request
place_order db listings q now = do
  check_request db listings q
  let id = next_order_id db.orders
  ok (id, record db { orders = placed_row q id now ∷ db.orders })

-- `SELECT ... FROM orders WHERE order_id=?`
unfoldable pub find_order : List OrderRow → ℕ → Option OrderRow
find_order [] id = none
find_order (r ∷ rs) id = let rest = find_order rs id in if has_id id r then some r else rest

-- `UPDATE orders SET ... WHERE order_id=?`
unfoldable pub update_order : List OrderRow → ℕ → (OrderRow → OrderRow) → List OrderRow
update_order [] id f = []
update_order (r ∷ rs) id f = (if has_id id r then f r else r) ∷ update_order rs id f

abbrev pub set_row_status : OrderStatus → Option ℕ → OrderRow → OrderRow
set_row_status new closed r =
    let o = r.order in record r { order = record o { status = new }; closed_at = closed }

unfoldable pub set_status : Db → ℕ → OrderStatus → Option ℕ → Result BookError Db
set_status db id new closed = do
  r ← or_raise (find_order db.orders id) no_order
  moved ← lift bad_transition (transition r.order.status new)
  ok (record db { orders = update_order db.orders id (set_row_status moved closed) })

unfoldable pub cancel_order : Db → ℕ → ℕ → Result BookError Db
unfolding set_status
cancel_order db id now = do
  r ← or_raise (find_order db.orders id) no_order
  raise_if (not (is_active r.order.status)) already_closed
  set_status db id cancelled (some now)
