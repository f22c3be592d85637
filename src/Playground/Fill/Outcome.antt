-- ===== src/Playground/Fill/Outcome.antt =====
-- How a fill ends: traded or rejected, and what becomes of the order rows (`apply_fill` of
-- backend/src/stk/playground/fills.py).
use stock_analyser.Prelude.{
  ℕ, ◌≤◌, ◌≡◌, ◌≢◌, ◌⊎◌, inl, inr, refl, true, arith, Option, none, some, ok, ok-injective,
  >>=-eq-ok, Bool-cases, Result-cases, ap, subst, ◌+ℤ◌, ◌≤ℤ◌, ltb_ℤ,
}
use stock_analyser.Decimal.{Decimal}
use stock_analyser.Money.{of_money}
use stock_analyser.Costs.{Side, buy, sell}
use stock_analyser.Positions.{Position, apply_buy, apply_sell}
use stock_analyser.Positions.Accounting.{apply_buy_cost, apply_sell_iff}
use stock_analyser.Orders.{
  OrderStatus, opened, pending_eod, filled, rejected, transition, allowed, is_active,
}
use stock_analyser.Playground.Store.{Db, OrderRow, next_trade_id}
use stock_analyser.Playground.Ledger.{cash_balance, get_position, add_cash, save_position}
use stock_analyser.Playground.Book.{find_order, set_status}
use stock_analyser.Playground.Book.Status.{IsMoved, closed_as, set_status_moves, set_status-live}
use stock_analyser.Playground.Fill.{
  PlayCtx, Quote, quote_fill, write_fill, bracket_of, book_fill, reject, settle, apply_fill, recast,
  book_error, position_error,
}
use stock_analyser.Playground.Fill.Booking.{recast-ok, book_fill-not-none}
use stock_analyser.Playground.Fill.Siblings.{IsKeyed, set_status-IsKeyed, cancel_oco_siblings-total}

-- Why a fill is rejected.
abbrev pub IsRefused : Side → Db → OrderRow → Quote → Type 0
IsRefused buy db row q = ¬ (q.gross +ℤ q.charges ≤ℤ cash_balance db row.listing.portfolio_id)
IsRefused sell db row q =
    ¬ ((1 ≤ row.order.qty) × (row.order.qty ≤ (get_position db row.listing).qty))

reject-moves :
    (db : Db) (row : OrderRow) (now : ℕ) {db' : Db}
    → reject db row now ≡ ok (none, db')
    → IsMoved db db' row.order.order_id rejected (some now)
unfolding reject
reject-moves db row now {db' = db'} h =
    let id = row.order.order_id in
    let (mid, h1, last) =
      >>=-eq-ok (recast book_error (set_status db id rejected (some now))) _ h in
    subst (λ x. IsMoved db x id rejected (some now))
      (ap (λ x. x.1) (ok-injective (none, mid) (none, db') last))
      (set_status_moves db id rejected (some now)
        (recast-ok book_error (set_status db id rejected (some now)) h1))

settle-rejects :
    (side : Side) (db : Db) (row : OrderRow) (q : Quote) (moment now : ℕ) {db' : Db}
    → settle side db row q moment now ≡ ok (none, db')
    → IsRefused side db row q × IsMoved db db' row.order.order_id rejected (some now)
unfolding settle
settle-rejects buy db row q moment now {db' = db'} h =
    let cash = cash_balance db row.listing.portfolio_id in
    elim (Bool-cases (ltb_ℤ cash (q.gross +ℤ q.charges))) [
      | inl e ↦ (λ x. ground (arith, e, x), reject-moves db row now (rw e at h))
      | inr e ↦
          let bought = apply_buy (get_position db row.listing) row.order.qty (of_money q.price) in
          let (p, h1, last) = >>=-eq-ok (recast position_error bought) _ (rw e at h) in
          absurd (book_fill-not-none db row q p moment now last)
    ]
settle-rejects sell db row q moment now {db' = db'} h =
    let pos_before = get_position db row.listing in
    elim (Result-cases (apply_sell pos_before row.order.qty (of_money q.price))) [
      | inl (p, e) ↦ absurd (book_fill-not-none db row q p moment now (rw e at h))
      | inr (x, e) ↦ (
        λ fits.
            let (p, sold) = (apply_sell_iff pos_before row.order.qty (of_money q.price)).1 fits in
            ground (arith, e, sold),
        reject-moves db row now (rw e at h),
      )
    ]

-- An order of the tables `db` that was open or parked is closed as rejected in `db'`; every other
-- order and every other table stays as it was.
abbrev pub IsRejected : Db → Db → ℕ → ℕ → Type 0
IsRejected db db' id now =
    (r : OrderRow) × (find_order db.orders id ≡ some r)
    × ((r.order.status ≡ opened) ⊎ (r.order.status ≡ pending_eod))
    × (find_order db'.orders id ≡ some (closed_as rejected now r))
    × ((other : ℕ) → other ≢ id → find_order db'.orders other ≡ find_order db.orders other)
    × (record db' { orders = db.orders } ≡ db)

live_status : (s : OrderStatus) → is_active s ≡ true → (s ≡ opened) ⊎ (s ≡ pending_eod)
unfolding is_active
live_status s h = ground arith

IsMoved-IsRejected :
    (db db' : Db) (id now : ℕ) → IsMoved db db' id rejected (some now) → IsRejected db db' id now
IsMoved-IsRejected db db' id now m =
    (m.row, m.found, live_status m.row.order.status m.active, m.after, m.others, m.only_orders)

-- A fill that is rejected was one that its portfolio could not pay for, or a sale of shares that it
-- does not hold; all it changes is the order, which was open or parked and ends rejected.
pub apply_fill_rejects :
    (db : Db) (ctx : PlayCtx) (row : OrderRow) (raw : Decimal) (moment : ℕ) (adv : Option Decimal)
    (now : ℕ) {db' : Db}
    → apply_fill db ctx row raw moment adv now ≡ ok (none, db')
    → (q : Quote) × (quote_fill db ctx row raw moment adv ≡ ok q)
      × IsRefused row.order.side db row q
      × IsRejected db db' row.order.order_id now
unfolding apply_fill
apply_fill_rejects db ctx row raw moment adv now h =
    let (q, quoted, rest) = >>=-eq-ok (quote_fill db ctx row raw moment adv) _ h in
    let (refused, moved) = settle-rejects row.order.side db row q moment now rest in
    (q, quoted, refused, IsMoved-IsRejected db _ row.order.order_id now moved)

transition-filled : (s : OrderStatus) → is_active s ≡ true → transition s filled ≡ ok filled
unfolding transition allowed is_active
transition-filled s h = ground arith

transition-rejected : (s : OrderStatus) → is_active s ≡ true → transition s rejected ≡ ok rejected
unfolding transition allowed is_active
transition-rejected s h = ground arith

-- The order of a fill as its caller has just read it.
pub record IsFillOrder (db : Db) (row : OrderRow) : Type 0 where
  pub keyed : IsKeyed db.orders
  pub fresh : find_order db.orders row.order.order_id ≡ some row
  pub active : is_active row.order.status ≡ true
  pub positive : 1 ≤ row.order.qty

book_fill-total :
    (db : Db) (row : OrderRow) (q : Quote) (p : Position) (moment now : ℕ)
    → IsFillOrder db row
    → (r : Option ℕ × Db) × (book_fill db row q p moment now ≡ ok r)
unfolding book_fill write_fill save_position add_cash
book_fill-total db row q p moment now h =
    let written = write_fill db row q p moment in
    let id = row.order.order_id in
    let (closed, filled_it) =
      set_status-live written id filled (some now) row h.fresh
        (transition-filled row.order.status h.active) in
    let (done, siblings) =
      cancel_oco_siblings-total closed row now
        (set_status-IsKeyed written id filled (some now) filled_it h.keyed) in
    (
      (some (next_trade_id db.trades), bracket_of row.order.side done row moment),
      rw filled_it (rw siblings refl),
    )

reject-total :
    (db : Db) (row : OrderRow) (now : ℕ)
    → IsFillOrder db row
    → (r : Option ℕ × Db) × (reject db row now ≡ ok r)
unfolding reject
reject-total db row now h =
    let (done, moved) =
      set_status-live db row.order.order_id rejected (some now) row h.fresh
        (transition-rejected row.order.status h.active) in
    ((none, done), rw moved refl)

settle-total :
    (side : Side) (db : Db) (row : OrderRow) (q : Quote) (moment now : ℕ)
    → IsFillOrder db row
    → (r : Option ℕ × Db) × (settle side db row q moment now ≡ ok r)
unfolding settle
settle-total buy db row q moment now h =
    let (p, bought, _, _, _) =
      apply_buy_cost (get_position db row.listing) row.order.qty (of_money q.price) h.positive in
    elim (Bool-cases (ltb_ℤ (cash_balance db row.listing.portfolio_id) (q.gross +ℤ q.charges))) [
      | inl e ↦ rw e (reject-total db row now h)
      | inr e ↦ rw e (rw bought (book_fill-total db row q p moment now h))
    ]
settle-total sell db row q moment now h =
    elim (Result-cases
      (apply_sell (get_position db row.listing) row.order.qty (of_money q.price))) [
        | inl (p, e) ↦ rw e (book_fill-total db row q p moment now h)
        | inr (x, e) ↦ rw e (reject-total db row now h)
      ]

-- Once its costs are known, the fill of an active order of at least one share never raises: it
-- trades or is rejected.
pub apply_fill_total :
    (db : Db) (ctx : PlayCtx) (row : OrderRow) (raw : Decimal) (moment : ℕ) (adv : Option Decimal)
    (now : ℕ) {q : Quote}
    → IsFillOrder db row
    → quote_fill db ctx row raw moment adv ≡ ok q
    → (r : Option ℕ × Db) × (apply_fill db ctx row raw moment adv now ≡ ok r)
unfolding apply_fill
apply_fill_total db ctx row raw moment adv now {q = q} h quoted =
    rw quoted (settle-total row.order.side db row q moment now h)
