-- ===== src/Playground/Passes.antt =====
-- backend/src/stk/playground/passes.py: the intraday and the end-of-day pass over resting orders.
-- Symbols are numbered in the order of their texts, so that sorting the numbers sorts the texts.
-- Daily bars and turnovers come out of the Parquet store, and are arguments. What a raised
-- exception leaves behind is not modelled: the pass then has no result.
pub mod Parking
pub mod Sessions
pub mod Invariants
pub mod Service
pub mod Days
use stock_analyser.Prelude.{
  ℕ, zero, suc, ◌+◌, ◌*◌, Bool, true, false, ◌&&◌, ◌||◌, not, if◌then◌else◌, ◌==◌, ltb, leb, Option,
  none, some, List, [], ◌∷◌, ◌++◌, map, keep, find_first, contains, sort_by, Result, ok, err, ◌>>=◌,
  ◌>>◌, or_raise,
}
use stock_analyser.Decimal.{Decimal, zero_d}
use stock_analyser.Fills.{Lock, BarPrices, circuit_lock}
use stock_analyser.Orders.{
  Order, OrderStatus, opened, pending_eod, cancelled, is_active, Candle, Fill, try_fill,
  resolve_oco, market_order_expired, AssertionError,
}
use stock_analyser.Playground.Store.{Db, OrderRow}
use stock_analyser.Playground.Book.{BookError, find_order, set_status}
use stock_analyser.Playground.Fill.{PlayCtx, FillError, in_group, apply_fill}

pub record PassResult : Type 0 where
  pub fills : ℕ
  pub rejected : ℕ
  pub trade_ids : List ℕ

-- `PassResult()`
abbrev pub no_fills : PassResult
no_fills = record { fills = 0; rejected = 0; trade_ids = [] }

-- Whatever a pass may raise: a failed assertion, a missing row, or the error of a fill or a move.
pub data PassError : Type 0 where
  assertion : AssertionError → PassError
  missing_row : PassError
  fill_error : FillError → PassError
  move_error : BookError → PassError

abbrev pub raised : {E A : Type 0} → (E → PassError) → Result E A → Result PassError A
raised f (ok a) = ok a
raised f (err e) = err (f e)

-- `if symbol: ... AND symbol=?`, where 0 is the empty text
abbrev pub has_symbol : Option ℕ → OrderRow → Bool
has_symbol none r = true
has_symbol (some zero) r = true
has_symbol (some (suc s)) r = r.listing.symbol == suc s

-- The rows of the `SELECT`, oldest first.
unfoldable pub select_active : List OrderRow → Option ℕ → List OrderRow
select_active [] symbol = []
select_active (r ∷ rs) symbol =
    select_active rs symbol
    ++ (if is_active r.order.status && has_symbol symbol r then r ∷ [] else [])

unfoldable pub active_orders : Db → Option ℕ → List OrderRow
active_orders db symbol = select_active db.orders symbol

-- 09:15 and 15:30 of a day.
abbrev pub session_open : ℕ → ℕ
session_open day = day * 86400 + 33300

abbrev pub session_close : ℕ → ℕ
session_close day = day * 86400 + 55800

unfoldable pub lock_of : PlayCtx → Candle → Option Decimal → Lock
lock_of ctx c prev_close =
    circuit_lock (record { opening = c.opening; high = c.high; low = c.low; closing = c.closing })
      prev_close ctx.circuit_band_pcts ctx.circuit_tolerance_pct

-- `next(r for r in group if r["order_id"] == order.order_id)`, with the fill's price
abbrev pub row_of_hit :
    List OrderRow → Option (Order × Fill) → Result PassError (Option (OrderRow × Decimal))
row_of_hit group none = ok none
row_of_hit group (some (order, f)) = do
  r ← or_raise (find_first (λ (r : OrderRow). r.order.order_id == order.order_id) group) missing_row
  ok (some (r, f.price))

abbrev pub row_of_fill : OrderRow → Option Fill → Option (OrderRow × Decimal)
row_of_fill row none = none
row_of_fill row (some f) = some (row, f.price)

-- `[r for r in rows if r["oco_group"] == row["oco_group"]]`
abbrev pub group_of : List OrderRow → ℕ → List OrderRow
group_of rows g = keep (λ (r : OrderRow). in_group g r.order.oco_group) rows

-- The choice that one row of the loop leads to.
unfoldable pub choose :
    Option ℕ
    → List OrderRow
    → OrderRow
    → Candle
    → Lock
    → Result PassError (Option (OrderRow × Decimal))
choose none rows row candle lock = do
  single ← raised assertion (try_fill row.order candle lock)
  ok (row_of_fill row single)
choose (some g) rows row candle lock = do
  hit ←
      raised assertion (resolve_oco (map (λ (r : OrderRow). r.order) (group_of rows g)) candle lock)
  row_of_hit (group_of rows g) hit

-- What the row adds to `seen`.
abbrev pub seen_with : Option ℕ → List OrderRow → OrderRow → List ℕ
seen_with none rows row = row.order.order_id ∷ []
seen_with (some g) rows row = map (λ (r : OrderRow). r.order.order_id) (group_of rows g)

abbrev pub count_fill : PassResult → Option ℕ → PassResult
count_fill result none = record result { rejected = suc result.rejected }
count_fill result (some tid) = record result {
  fills = suc result.fills;
  trade_ids = result.trade_ids ++ tid ∷ [];
}

-- The end of the loop's body, from the fresh read on.
unfoldable pub fill_chosen :
    Db
    → PlayCtx
    → Option (OrderRow × Decimal)
    → ℕ
    → Option Decimal
    → ℕ
    → PassResult
    → Result PassError (PassResult × Db)
fill_chosen db ctx none moment adv now result = ok (result, db)
fill_chosen db ctx (some (chosen, fill_price)) moment adv now result = do
  fresh ← or_raise (find_order db.orders chosen.order.order_id) missing_row
  let filling = apply_fill db ctx fresh fill_price moment adv now
  if is_active fresh.order.status
      then (do booked ← raised fill_error filling; ok (count_fill result booked.0, booked.1))
      else ok (result, db)

-- The body of `_evaluate`'s loop. The first argument says whether the row was seen.
unfoldable pub serve_row :
    Bool
    → List OrderRow
    → OrderRow
    → Db
    → PlayCtx
    → Candle
    → Lock
    → ℕ
    → Option Decimal
    → ℕ
    → PassResult
    → Result PassError (PassResult × Db)
unfolding choose fill_chosen
serve_row true rows row db ctx candle lock moment adv now result = ok (result, db)
serve_row false rows row db ctx candle lock moment adv now result = do
  chosen ← choose row.order.oco_group rows row candle lock
  fill_chosen db ctx chosen moment adv now result

-- What is seen behind the row.
abbrev pub see : Bool → List OrderRow → OrderRow → List ℕ → List ℕ
see true rows row seen = seen
see false rows row seen = seen_with row.order.oco_group rows row ++ seen

-- The loop over the rows that are left.
unfoldable pub evaluate_rows :
    List OrderRow
    → List OrderRow
    → List ℕ
    → Db
    → PlayCtx
    → Candle
    → Lock
    → ℕ
    → Option Decimal
    → ℕ
    → PassResult
    → Result PassError (PassResult × Db)
unfolding serve_row
evaluate_rows [] rows seen db ctx candle lock moment adv now result = ok (result, db)
evaluate_rows (row ∷ rest) rows seen db ctx candle lock moment adv now result = do
  let skip = contains row.order.order_id seen
  next ← serve_row skip rows row db ctx candle lock moment adv now result
  evaluate_rows rest rows (see skip rows row seen) next.1 ctx candle lock moment adv now next.0

-- `_evaluate`. `moment` is the fill context's.
unfoldable pub evaluate :
    Db
    → PlayCtx
    → List OrderRow
    → Candle
    → Lock
    → ℕ
    → Option Decimal
    → ℕ
    → PassResult
    → Result PassError (PassResult × Db)
unfolding evaluate_rows
evaluate db ctx rows candle lock moment adv now result =
    evaluate_rows rows rows [] db ctx candle lock moment adv now result
