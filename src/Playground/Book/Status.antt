-- ===== src/Playground/Book/Status.antt =====
-- The order rows under `set_status` and `cancel_order` of backend/src/stk/playground/orders.py.
use stock_analyser.Prelude.{
  ℕ, ◌≡◌, ◌↔◌, inl, inr, refl, true, arith, if◌then◌else◌, ◌==◌, Option, none, some, List, [], ◌∷◌,
  Result, ok, err, ok-injective, >>=-eq-ok, Bool-cases, or_raise, or_raise-ok, ◌≢◌, subst, ap, sym,
  ◌∙◌,
}
use stock_analyser.Orders.{OrderStatus, cancelled, transition, allowed, is_active}
use stock_analyser.Orders.Machine.{transition_iff}
use stock_analyser.Playground.Store.{Db, OrderRow}
use stock_analyser.Playground.Book.{
  BookError, no_order, bad_transition, lift, find_order, update_order, set_row_status, set_status,
  cancel_order,
}

abbrev pub map_row : (OrderRow → OrderRow) → Option OrderRow → Option OrderRow
map_row f none = none
map_row f (some r) = some (f r)

-- A change that keeps a row's id is read back at its id and nowhere else.
find_order-update_order :
    (rs : List OrderRow) (id other : ℕ) (f : OrderRow → OrderRow)
    → ((r : OrderRow) → (f r).order.order_id ≡ r.order.order_id)
    → find_order (update_order rs id f) other
      ≡ (if id == other then map_row f (find_order rs id) else find_order rs other)
unfolding find_order update_order
find_order-update_order [] id other f keeps = ground arith
find_order-update_order (r ∷ rs) id other f keeps =
    ground (arith, find_order-update_order rs id other f keeps, keeps r)

pub find_order-id :
    (rs : List OrderRow) (id : ℕ) {r : OrderRow} → find_order rs id ≡ some r → r.order.order_id ≡ id
unfolding find_order
find_order-id [] id h = cc
find_order-id (x ∷ rs) id {r = r} h = ground (arith, find_order-id rs id {r = r})

-- The tables but that of the orders are the same.
abbrev pub OnlyOrders : Db → Db → Type 0
OnlyOrders db db' = record db' { orders = db.orders } ≡ db

-- The row `r` closed at `now` with the status `status`, all else as it was.
abbrev pub closed_as : OrderStatus → ℕ → OrderRow → OrderRow
closed_as status now r = record {
  order = record {
    order_id = r.order.order_id;
    side = r.order.side;
    order_type = r.order.order_type;
    qty = r.order.qty;
    created_at = r.order.created_at;
    limit_price = r.order.limit_price;
    trigger_price = r.order.trigger_price;
    status = status;
    oco_group = r.order.oco_group;
  };
  listing = r.listing;
  bracket_stop = r.bracket_stop;
  bracket_target = r.bracket_target;
  parent_order_id = r.parent_order_id;
  closed_at = some now;
}

-- What a successful `set_status` has found and left behind.
pub record IsMoved (db db' : Db) (id : ℕ) (new : OrderStatus) (closed : Option ℕ) : Type 0 where
  pub row : OrderRow
  pub found : find_order db.orders id ≡ some row
  pub active : is_active row.order.status ≡ true
  pub changed : new ≢ row.order.status
  pub after : find_order db'.orders id ≡ some (set_row_status new closed row)
  pub others : (other : ℕ) → other ≢ id → find_order db'.orders other ≡ find_order db.orders other
  pub updated : db'.orders ≡ update_order db.orders id (set_row_status new closed)
  pub only_orders : OnlyOrders db db'

pub lift-ok :
    {E A : Type 0} (f : E → BookError) (m : Result E A) {a : A} → lift f m ≡ ok a → m ≡ ok a
lift-ok f (ok b) h = cc
lift-ok f (err e) h = cc

transition-new : (s new : OrderStatus) {t : OrderStatus} → transition s new ≡ ok t → t ≡ new
unfolding transition
transition-new s new h = ground arith

moved_db : Db → ℕ → OrderStatus → Option ℕ → Db
moved_db db id new closed = record db {
  orders = update_order db.orders id (set_row_status new closed);
}

moved_db-IsMoved :
    (db : Db) (id : ℕ) (new : OrderStatus) (closed : Option ℕ) (r : OrderRow)
    → find_order db.orders id ≡ some r
    → transition r.order.status new ≡ ok new
    → IsMoved db (moved_db db id new closed) id new closed
unfolding moved_db
moved_db-IsMoved db id new closed r found legal =
    let (active, changed) = (transition_iff r.order.status new).0 legal in
    let read = λ (other : ℕ).
      find_order-update_order db.orders id other (set_row_status new closed) (λ _. refl) in
    record {
      row = r;
      found = found;
      active = active;
      changed = changed;
      after = ground (arith, read id, found);
      others = λ other apart. ground (arith, read other);
      updated = refl;
      only_orders = refl;
    }

-- A legal status change goes through.
pub set_status-live :
    (db : Db) (id : ℕ) (new : OrderStatus) (closed : Option ℕ) (r : OrderRow)
    → find_order db.orders id ≡ some r
    → transition r.order.status new ≡ ok new
    → (db' : Db) × (set_status db id new closed ≡ ok db')
unfolding set_status
set_status-live db id new closed r found legal = (
  record db { orders = update_order db.orders id (set_row_status new closed) },
  rw found (rw legal refl),
)

-- A status change that is not refused was legal, and it changes that order's status and closing
-- time alone.
pub set_status_moves :
    (db : Db) (id : ℕ) (new : OrderStatus) (closed : Option ℕ) {db' : Db}
    → set_status db id new closed ≡ ok db'
    → IsMoved db db' id new closed
unfolding set_status moved_db
set_status_moves db id new closed {db' = db'} h =
    let (r, found, h1) = >>=-eq-ok (or_raise (find_order db.orders id) no_order) _ h in
    let (s, legal, h2) = >>=-eq-ok (lift bad_transition (transition r.order.status new)) _ h1 in
    let e : s ≡ new =
      transition-new r.order.status new
        (lift-ok bad_transition (transition r.order.status new) legal) in
    let p : moved_db db id s closed ≡ db' = ok-injective (moved_db db id s closed) db' h2 in
    subst (λ x. IsMoved db x id new closed) (ap (λ x. moved_db db id x closed) (sym e) ∙ p)
      (moved_db-IsMoved db id new closed r (or_raise-ok (find_order db.orders id) no_order found) (
        subst (λ x. transition r.order.status new ≡ ok x) e
          (lift-ok bad_transition (transition r.order.status new) legal)))

pub transition-cancelled :
    (s : OrderStatus) → is_active s ≡ true → transition s cancelled ≡ ok cancelled
unfolding transition allowed is_active
transition-cancelled s h = ground arith

cancel_order-found :
    (db : Db) (id now : ℕ) (r : OrderRow)
    → find_order db.orders id ≡ some r
    → is_active r.order.status ≡ true
    → cancel_order db id now ≡ ok (moved_db db id cancelled (some now))
unfolding cancel_order set_status moved_db
cancel_order-found db id now r found active =
    rw found (rw active (rw (transition-cancelled r.order.status active) refl))

cancel_order-inv :
    (db : Db) (id now : ℕ) {db' : Db}
    → cancel_order db id now ≡ ok db'
    → (r : OrderRow) × (find_order db.orders id ≡ some r) × (is_active r.order.status ≡ true)
unfolding cancel_order
cancel_order-inv db id now h =
    let (r, found, h1) = >>=-eq-ok (or_raise (find_order db.orders id) no_order) _ h in
    (
      r,
      or_raise-ok (find_order db.orders id) no_order found,
      elim (Bool-cases (is_active r.order.status)) [
        | inl a ↦ a
        | inr a ↦ absurd (ground (arith, h1, a))
      ],
    )

-- A cancellation goes through exactly for an order that exists and is still active.
pub cancel_order_iff :
    (db : Db) (id now : ℕ)
    → ((db' : Db) × (cancel_order db id now ≡ ok db'))
      ↔ ((r : OrderRow) × (find_order db.orders id ≡ some r) × (is_active r.order.status ≡ true))
cancel_order_iff db id now = (
  λ x. cancel_order-inv db id now x.1,
  λ x. (moved_db db id cancelled (some now), cancel_order-found db id now x.0 x.1 x.2),
)
