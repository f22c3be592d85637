-- ===== src/Playground/Passes/Service.antt =====
-- `_evaluate`, `intraday_pass` and `eod_pass` of backend/src/stk/playground/passes.py as chains of
-- fills and moves.
use stock_analyser.Prelude.{
  ℕ, ◌+◌, ◌≤◌, ◌≡◌, inl, inr, true, false, arith, Bool, Option, none, some, List, [], ◌∷◌, ok,
  ok-injective, >>=-eq-ok, Bool-cases, or_raise, subst, contains,
}
use stock_analyser.Decimal.{Decimal}
use stock_analyser.Orders.{OrderStatus, Candle, opened, cancelled, is_active}
use stock_analyser.Fills.{Lock}
use stock_analyser.Playground.Store.{Db, OrderRow, day_of}
use stock_analyser.Playground.Book.{find_order, set_status}
use stock_analyser.Playground.Fill.{PlayCtx, apply_fill}
use stock_analyser.Playground.Passes.{
  PassResult, fill_error, missing_row, raised, choose, fill_chosen, count_fill, serve_row, see,
  evaluate_rows, session_close, active_orders,
}
use stock_analyser.Playground.Passes.Parking.{
  move_row, move_rows, restore_open, expire_market_orders,
}
use stock_analyser.Playground.Passes.Invariants.{Serves, fills, moves, raised-ok}

fill_chosen-Serves :
    (day : ℕ) (a db : Db) (ctx : PlayCtx) (o : Option (OrderRow × Decimal)) (moment : ℕ)
    (adv : Option Decimal) (now : ℕ) (result : PassResult) {r : PassResult × Db}
    → day ≤ day_of moment
    → Serves day a db
    → fill_chosen db ctx o moment adv now result ≡ ok r
    → Serves day a r.1
unfolding fill_chosen
fill_chosen-Serves day a db ctx none moment adv now result {r = r} later s h =
    subst (λ x. Serves day a x.1) (ok-injective (result, db) r h) s
fill_chosen-Serves day a db ctx (some (chosen, price)) moment adv now result {r = r} later s h =
    let (fresh, found, rest) =
      >>=-eq-ok (or_raise (find_order db.orders chosen.order.order_id) missing_row) _ h in
    elim (Bool-cases (is_active fresh.order.status)) [
      | inl live ↦
          let (booked, filled_it, last) =
            >>=-eq-ok (raised fill_error (apply_fill db ctx fresh price moment adv now)) _
              (rw live at rest) in
          subst (λ x. Serves day a x.1) (ok-injective (count_fill result booked.0, booked.1) r last)
            (fills s ctx fresh price moment adv now later
              (raised-ok fill_error (apply_fill db ctx fresh price moment adv now) filled_it))
      | inr closed ↦
          subst (λ x. Serves day a x.1) (ok-injective (result, db) r (rw closed at rest)) s
    ]

serve_row-Serves :
    (day : ℕ) (a : Db) (skip : Bool) (rows : List OrderRow) (row : OrderRow) (db : Db)
    (ctx : PlayCtx) (candle : Candle) (lock : Lock) (moment : ℕ) (adv : Option Decimal) (now : ℕ)
    (result : PassResult) {r : PassResult × Db}
    → day ≤ day_of moment
    → Serves day a db
    → serve_row skip rows row db ctx candle lock moment adv now result ≡ ok r
    → Serves day a r.1
unfolding serve_row
serve_row-Serves day a true rows row db ctx candle lock moment adv now result {r = r} later s h =
    subst (λ x. Serves day a x.1) (ok-injective (result, db) r h) s
serve_row-Serves day a false rows row db ctx candle lock moment adv now result later s h =
    let (chosen, _, rest) = >>=-eq-ok (choose row.order.oco_group rows row candle lock) _ h in
    fill_chosen-Serves day a db ctx chosen moment adv now result later s rest

pub evaluate_rows-Serves :
    (day : ℕ) (a : Db) (todo rows : List OrderRow) (seen : List ℕ) (db : Db) (ctx : PlayCtx)
    (candle : Candle) (lock : Lock) (moment : ℕ) (adv : Option Decimal) (now : ℕ)
    (result : PassResult) {r : PassResult × Db}
    → day ≤ day_of moment
    → Serves day a db
    → evaluate_rows todo rows seen db ctx candle lock moment adv now result ≡ ok r
    → Serves day a r.1
unfolding evaluate_rows
evaluate_rows-Serves day a [] rows seen db ctx candle lock moment adv now result {r = r} later s h =
    subst (λ x. Serves day a x.1) (ok-injective (result, db) r h) s
evaluate_rows-Serves day a (row ∷ todo) rows seen db ctx candle lock moment adv now result later s
      h =
    let skip = contains row.order.order_id seen in
    let (next, served, rest) =
      >>=-eq-ok (serve_row skip rows row db ctx candle lock moment adv now result) _ h in
    evaluate_rows-Serves day a todo rows (see skip rows row seen) next.1 ctx candle lock moment adv
      now next.0 later
      (serve_row-Serves day a skip rows row db ctx candle lock moment adv now result later s served)
      rest

move_row-Serves :
    (day : ℕ) (a : Db) (b : Bool) (row : OrderRow) (new : OrderStatus) (closed : Option ℕ) (db : Db)
    {r : ℕ × Db}
    → Serves day a db
    → move_row b row new closed db ≡ ok r
    → Serves day a r.1
unfolding move_row
move_row-Serves day a true row new closed db {r = r} s h =
    let (mid, moved, last) = >>=-eq-ok (set_status db row.order.order_id new closed) _ h in
    subst (λ x. Serves day a x.1) (ok-injective (1, mid) r last)
      (moves s row.order.order_id new closed moved)
move_row-Serves day a false row new closed db {r = r} s h =
    subst (λ x. Serves day a x.1) (ok-injective (0, db) r h) s

move_rows-Serves :
    (day : ℕ) (a : Db) (rows : List OrderRow) (test : OrderRow → Bool) (new : OrderStatus)
    (closed : Option ℕ) (db : Db) {r : ℕ × Db}
    → Serves day a db
    → move_rows rows test new closed db ≡ ok r
    → Serves day a r.1
unfolding move_rows
move_rows-Serves day a [] test new closed db {r = r} s h =
    subst (λ x. Serves day a x.1) (ok-injective (0, db) r h) s
move_rows-Serves day a (row ∷ rows) test new closed db {r = r} s h =
    let (mid, moved, rest) = >>=-eq-ok (move_row (test row) row new closed db) _ h in
    let (next, later, last) = >>=-eq-ok (move_rows rows test new closed mid.1) _ rest in
    subst (λ x. Serves day a x.1) (ok-injective (mid.0 + next.0, next.1) r last)
      (move_rows-Serves day a rows test new closed mid.1
        (move_row-Serves day a (test row) row new closed db s moved) later)

pub restore_open-Serves :
    (day : ℕ) (a db : Db) (symbols : List ℕ) {db' : Db}
    → Serves day a db
    → restore_open db symbols ≡ ok db'
    → Serves day a db'
unfolding restore_open
restore_open-Serves day a db symbols {db' = db'} s h =
    let (moved, first, last) = >>=-eq-ok (move_rows (active_orders db none) _ opened none db) _ h in
    subst (Serves day a) (ok-injective moved.1 db' last)
      (move_rows-Serves day a (active_orders db none) _ opened none db s first)

pub expire_market_orders-Serves :
    (day : ℕ) (a db : Db) (symbols : List ℕ) (close now : ℕ) {db' : Db}
    → Serves day a db
    → expire_market_orders db symbols close now ≡ ok db'
    → Serves day a db'
unfolding expire_market_orders
expire_market_orders-Serves day a db symbols close now {db' = db'} s h =
    let (moved, first, last) =
      >>=-eq-ok (move_rows (active_orders db none) _ cancelled (some now) db) _ h in
    subst (Serves day a) (ok-injective moved.1 db' last)
      (move_rows-Serves day a (active_orders db none) _ cancelled (some now) db s first)

pub close_day : (day : ℕ) → day_of (session_close day) ≡ day
unfolding day_of
close_day day = omega arith
