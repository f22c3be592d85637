-- ===== src/Playground/Fill/Closing.antt =====
-- The order rows behind a fill that traded: the filled order, its OCO partners and its bracket
-- (backend/src/stk/playground/fills.py).
use stock_analyser.Prelude.{
  ℕ, ◌≡◌, ◌≢◌, ◌⊎◌, inl, inr, refl, true, false, arith, if◌then◌else◌, ◌==◌, ==_iff, Option, none,
  some, List, ok, Bool-cases, ap, sym, ◌∙◌, subst,
}
use stock_analyser.Decimal.{Decimal}
use stock_analyser.Costs.{Side, buy, sell}
use stock_analyser.Positions.{Position}
use stock_analyser.Orders.{
  OrderType, stop_loss, target, filled, cancelled, opened, pending_eod, OrderStatus, is_active,
}
use stock_analyser.Playground.Store.{Db, OrderRow}
use stock_analyser.Playground.Ledger.{add_cash, save_position}
use stock_analyser.Playground.Book.{find_order, set_row_status}
use stock_analyser.Playground.Book.Status.{closed_as, set_status_moves, find_order-id}
use stock_analyser.Playground.Fill.{
  PlayCtx, Quote, write_fill, bracket_of, create_bracket, add_leg, apply_fill, is_sibling, in_group,
}
use stock_analyser.Playground.Fill.Booking.{IsBooked}
use stock_analyser.Playground.Fill.Effects.{apply_fill-inv}
use stock_analyser.Playground.Fill.Siblings.{
  IsKeyed, set_status-IsKeyed, cancel_oco_siblings-cancels, after_partner, find_order-below,
}

-- Inserted rows leave the rows of smaller ids alone.
add_leg-old :
    (rows : List OrderRow) (parent : OrderRow) (kind : OrderType) (trig : Option Decimal)
    (moment id : ℕ) {r : OrderRow}
    → find_order rows id ≡ some r
    → find_order (add_leg rows parent kind trig moment) id ≡ some r
unfolding find_order
add_leg-old rows parent kind none moment id h = h
add_leg-old rows parent kind (some t) moment id h = ground (arith, find_order-below rows id h)

bracket_of-old :
    (side : Side) (db : Db) (parent : OrderRow) (moment id : ℕ) {r : OrderRow}
    → find_order db.orders id ≡ some r
    → find_order (bracket_of side db parent moment).orders id ≡ some r
unfolding create_bracket
bracket_of-old buy db parent moment id h =
    add_leg-old _ parent target parent.bracket_target moment id
      (add_leg-old db.orders parent stop_loss parent.bracket_stop moment id h)
bracket_of-old sell db parent moment id h = h

own_row :
    (group : Option ℕ) (self now : ℕ) (r : OrderRow)
    → (r.order.order_id == self) ≡ true
    → after_partner group self now r ≡ r
own_row none self now r h = refl
own_row (some g) self now r h = ground (arith, h)

-- What the last two steps do to a row.
booked-row :
    (row : OrderRow) (now moment id : ℕ) {db db' : Db} {q : Quote} {p : Position} {tid : ℕ}
    (b : IsBooked db db' row q p moment now tid)
    → IsKeyed b.closed.orders
    → (c : OrderRow) → find_order b.closed.orders id ≡ some c
    → find_order db'.orders id ≡ some (after_partner row.order.oco_group row.order.order_id now c)
booked-row row now moment id b keyed c h =
    subst
      (λ (x : Db).
        find_order x.orders id ≡ some (after_partner row.order.oco_group row.order.order_id now c))
      b.result
      (bracket_of-old row.order.side b.done row moment id
        (cancel_oco_siblings-cancels b.closed row now id c keyed b.siblings h))

-- A row as a fill of `row` leaves it.
abbrev pub after_fill : OrderRow → ℕ → OrderRow → OrderRow
after_fill row now r =
    if r.order.order_id == row.order.order_id
    then set_row_status filled (some now) r
    else after_partner row.order.oco_group row.order.order_id now r

apply_fill-after :
    (db : Db) (ctx : PlayCtx) (row : OrderRow) (raw : Decimal) (moment : ℕ) (adv : Option Decimal)
    (now tid id : ℕ) (r : OrderRow) {db' : Db}
    → IsKeyed db.orders
    → apply_fill db ctx row raw moment adv now ≡ ok (some tid, db')
    → find_order db.orders id ≡ some r
    → find_order db'.orders id ≡ some (after_fill row now r)
unfolding write_fill save_position add_cash
apply_fill-after db ctx row raw moment adv now tid id r {db' = db'} keyed h found =
    let (q, quoted, s) = apply_fill-inv db ctx row raw moment adv now tid h in
    let written = write_fill db row q s.new_pos moment in
    let self = row.order.order_id in
    let step = set_status_moves written self filled (some now) s.booked.filled_it in
    let later =
      booked-row row now moment id s.booked
        (set_status-IsKeyed written self filled (some now) s.booked.filled_it keyed) in
    let named = find_order-id db.orders id found in
    elim (Bool-cases (r.order.order_id == self)) [
      | inl e ↦
          let own : id ≡ self = sym named ∙ (==_iff r.order.order_id self).0 e in
          let same : step.row ≡ r = ground (arith, step.found, found, own) in
          let closed_row = set_row_status filled (some now) r in
          rw e (
            later closed_row
              (rw own (step.after ∙ ap (λ x. some (set_row_status filled (some now) x)) same))
            ∙ ap some (own_row row.order.oco_group self now closed_row e))
      | inr e ↦ rw e (later r (step.others id (λ x. ground (arith, named, e, x)) ∙ found))
    ]

-- The order `r` rests (open or parked) in the OCO group of `row`.
abbrev pub IsPartner : OrderRow → OrderRow → Type 0
IsPartner row r =
    (group : ℕ) × (row.order.oco_group ≡ some group)
    × (r.order.oco_group ≡ some group)
    × ((r.order.status ≡ opened) ⊎ (r.order.status ≡ pending_eod))

Shares : Option ℕ → OrderRow → Type 0
Shares group r =
    (g : ℕ) × (group ≡ some g)
    × (r.order.oco_group ≡ some g)
    × ((r.order.status ≡ opened) ⊎ (r.order.status ≡ pending_eod))

resting-is_active : (s : OrderStatus) → (s ≡ opened) ⊎ (s ≡ pending_eod) → is_active s ≡ true
unfolding is_active
resting-is_active s h = ground arith

active_resting : (s : OrderStatus) → is_active s ≡ true → (s ≡ opened) ⊎ (s ≡ pending_eod)
unfolding is_active
active_resting s h = ground arith

in_group-some : (g : ℕ) (o : Option ℕ) → in_group g o ≡ true → o ≡ some g
in_group-some g none h = cc
in_group-some g (some k) h = ap some ((==_iff k g).0 h)

partner-is_sibling :
    (group : Option ℕ) (self : ℕ) (r : OrderRow)
    → r.order.order_id ≢ self
    → Shares group r
    → is_sibling group self r ≡ true
unfolding Shares
partner-is_sibling group self r apart (g, e, k, s) =
    let active = resting-is_active r.order.status s in rw (e, k, active) (ground (arith, apart))

is_sibling-partner :
    (group : Option ℕ) (self : ℕ) (r : OrderRow) → is_sibling group self r ≡ true → Shares group r
unfolding Shares
is_sibling-partner none self r h = cc
is_sibling-partner (some g) self r h =
    let same : in_group g r.order.oco_group ≡ true = ground (arith, h) in
    let active : is_active r.order.status ≡ true = ground (arith, h) in
    (g, refl, in_group-some g r.order.oco_group same, active_resting r.order.status active)

-- In a table of orders whose ids grow with each insertion: a fill that trades closes its order as
-- filled and cancels the orders that rest in its OCO group; every other order that was there stays
-- as it was.
pub apply_fill_orders :
    (db : Db) (ctx : PlayCtx) (row : OrderRow) (raw : Decimal) (moment : ℕ) (adv : Option Decimal)
    (now tid id : ℕ) (r : OrderRow) {db' : Db}
    → IsKeyed db.orders
    → apply_fill db ctx row raw moment adv now ≡ ok (some tid, db')
    → find_order db.orders id ≡ some r
    → (id ≡ row.order.order_id → find_order db'.orders id ≡ some (closed_as filled now r))
      × (id ≢ row.order.order_id
          → IsPartner row r
          → find_order db'.orders id ≡ some (closed_as cancelled now r))
      × (id ≢ row.order.order_id → ¬ IsPartner row r → find_order db'.orders id ≡ some r)
unfolding Shares
apply_fill_orders db ctx row raw moment adv now tid id r keyed h found =
    let after = apply_fill-after db ctx row raw moment adv now tid id r keyed h found in
    let named = find_order-id db.orders id found in
    let self = row.order.order_id in
    let group = row.order.oco_group in
    let apart : id ≢ self → (r.order.order_id == self) ≡ false = λ x. ground (arith, named, x) in
    (
      λ own. rw ((==_iff r.order.order_id self).1 (named ∙ own)) at after,
      λ other partner.
          rw (apart other, partner-is_sibling group self r (λ e. other (sym named ∙ e)) partner) at
            after,
      λ other alone. elim (Bool-cases (is_sibling group self r)) [
        | inl e ↦ absurd (alone (is_sibling-partner group self r e))
        | inr e ↦ rw (apart other, e) at after
      ],
    )
