-- ===== src/Playground/Fill/Booking.antt =====
-- What one fill does to cash, positions and the order: `apply_fill` of
-- backend/src/stk/playground/fills.py.
use stock_analyser.Prelude.{
  ℕ, ◌≡◌, ◌≢◌, inl, inr, arith, none, some, Result, ok, err, ok-injective, >>=-eq-ok, Bool-cases,
  Result-cases, ap, ◌+ℤ◌, ◌≤ℤ◌, ltb_ℤ,
}
use stock_analyser.Decimal.{Decimal}
use stock_analyser.Money.{of_money}
use stock_analyser.Costs.{Side, buy, sell}
use stock_analyser.Positions.{Position, PositionError, apply_buy, apply_sell}
use stock_analyser.Orders.{filled, rejected}
use stock_analyser.Playground.Store.{Db, OrderRow, next_trade_id}
use stock_analyser.Playground.Ledger.{cash_balance, get_position}
use stock_analyser.Playground.Book.{set_status}
use stock_analyser.Playground.Fill.{
  FillError, book_error, position_error, recast, Quote, write_fill, book_fill, bracket_of, reject,
  settle, cancel_oco_siblings,
}

pub recast-ok :
    {E A : Type 0} (f : E → FillError) (m : Result E A) {a : A} → recast f m ≡ ok a → m ≡ ok a
recast-ok f (ok b) h = cc
recast-ok f (err e) h = cc

-- The steps of a fill that went through.
pub record IsBooked (db db' : Db) (row : OrderRow) (q : Quote) (new_pos : Position)
    (moment now tid : ℕ) : Type 0 where
  pub closed : Db
  pub done : Db
  pub filled_it :
      set_status (write_fill db row q new_pos moment) row.order.order_id filled (some now)
      ≡ ok closed
  pub siblings : cancel_oco_siblings closed row now ≡ ok done
  pub result : bracket_of row.order.side done row moment ≡ db'
  pub trade_id : next_trade_id db.trades ≡ tid

pair_injective :
    {A B : Type 0} (a c : A) (b d : B) → (let p : A × B = (a, b) in p ≡ (c, d)) → (a ≡ c) × (b ≡ d)
pair_injective a c b d h = (ap (λ x. x.0) h, ap (λ x. x.1) h)

pub book_fill-inv :
    (db : Db) (row : OrderRow) (q : Quote) (new_pos : Position) (moment now tid : ℕ) {db' : Db}
    → book_fill db row q new_pos moment now ≡ ok (some tid, db')
    → IsBooked db db' row q new_pos moment now tid
unfolding book_fill
book_fill-inv db row q new_pos moment now tid {db' = db'} h =
    let written = write_fill db row q new_pos moment in
    let (closed, h1, rest) =
      >>=-eq-ok (recast book_error (set_status written row.order.order_id filled (some now))) _ h in
    let (done, h2, last) =
      >>=-eq-ok (recast book_error (cancel_oco_siblings closed row now)) _ rest in
    let p =
      ok-injective (some (next_trade_id db.trades), bracket_of row.order.side done row moment)
        (some tid, db') last in
    record {
      closed = closed;
      done = done;
      filled_it = recast-ok book_error (set_status written row.order.order_id filled (some now)) h1;
      siblings = recast-ok book_error (cancel_oco_siblings closed row now) h2;
      result = ap (λ x. x.1) p;
      trade_id = ground (arith, ap (λ x. x.0) p);
    }

pub book_fill-not-none :
    (db : Db) (row : OrderRow) (q : Quote) (new_pos : Position) (moment now : ℕ) {db' : Db}
    → book_fill db row q new_pos moment now ≢ ok (none, db')
unfolding book_fill
book_fill-not-none db row q new_pos moment now {db' = db'} h =
    let written = write_fill db row q new_pos moment in
    let (closed, h1, rest) =
      >>=-eq-ok (recast book_error (set_status written row.order.order_id filled (some now))) _ h in
    let (done, h2, last) =
      >>=-eq-ok (recast book_error (cancel_oco_siblings closed row now)) _ rest in
    ground (arith, last)

-- The position after a trade of either side.
abbrev pub traded : Side → Position → ℕ → Decimal → Result PositionError Position
traded buy p n price = apply_buy p n price
traded sell p n price = apply_sell p n price

-- What the transaction of a fill has done where it traded.
pub record IsSettled (side : Side) (db db' : Db) (row : OrderRow) (q : Quote) (moment now tid : ℕ)
    : Type 0 where
  pub new_pos : Position
  pub trade :
      traded side (get_position db row.listing) row.order.qty (of_money q.price) ≡ ok new_pos
  pub affordable : side ≡ buy → q.gross +ℤ q.charges ≤ℤ cash_balance db row.listing.portfolio_id
  pub booked : IsBooked db db' row q new_pos moment now tid

reject-not-some :
    (db : Db) (row : OrderRow) (now tid : ℕ) {db' : Db} → reject db row now ≢ ok (some tid, db')
unfolding reject
reject-not-some db row now tid {db' = db'} h =
    let (mid, h1, last) =
      >>=-eq-ok (recast book_error (set_status db row.order.order_id rejected (some now))) _ h in
    ground (arith, last)

pub settle-IsSettled :
    (side : Side) (db : Db) (row : OrderRow) (q : Quote) (moment now tid : ℕ) {db' : Db}
    → settle side db row q moment now ≡ ok (some tid, db')
    → IsSettled side db db' row q moment now tid
unfolding settle
settle-IsSettled buy db row q moment now tid {db' = db'} h =
    let cash = cash_balance db row.listing.portfolio_id in
    elim (Bool-cases (ltb_ℤ cash (q.gross +ℤ q.charges))) [
      | inl e ↦ absurd (reject-not-some db row now tid {db' = db'} (rw e at h))
      | inr e ↦
          let bought = apply_buy (get_position db row.listing) row.order.qty (of_money q.price) in
          let (p, h1, last) = >>=-eq-ok (recast position_error bought) _ (rw e at h) in
          record {
            new_pos = p;
            trade = recast-ok position_error bought h1;
            affordable = λ x. ground (arith, e);
            booked = book_fill-inv db row q p moment now tid last;
          }
    ]
settle-IsSettled sell db row q moment now tid {db' = db'} h =
    elim (Result-cases
      (apply_sell (get_position db row.listing) row.order.qty (of_money q.price))) [
        | inl (p, e) ↦ record {
          new_pos = p;
          trade = e;
          affordable = λ x. ground arith;
          booked = book_fill-inv db row q p moment now tid (rw e at h);
        }
        | inr (x, e) ↦ absurd (reject-not-some db row now tid (rw e at h))
      ]
