-- ===== src/Playground/Fill/Holdings.antt =====
-- Fills and `held_at_start_of` of backend/src/stk/playground/ledger.py.
use stock_analyser.Prelude.{
  ℕ, ◌+◌, ◌-◌, ◌≤◌, ◌≡◌, inl, inr, refl, arith, if◌then◌else◌, le→leb, Option, some, List, ◌∷◌, ok,
  Bool-cases, ap, ◌∙◌, ℤ, pos, ◌+ℤ◌, ◌-ℤ◌, pos_part, int_laws,
}
use stock_analyser.Decimal.{Decimal}
use stock_analyser.Money.{of_money}
use stock_analyser.Costs.{Side, buy, sell}
use stock_analyser.Positions.{Position, apply_buy, apply_sell}
use stock_analyser.Playground.Store.{Db, Listing, OrderRow, TradeRow, same_listing, day_of}
use stock_analyser.Playground.Ledger.{
  get_position, save_position, add_cash, undo_trade, replay_back, held_at_start_of,
}
use stock_analyser.Playground.Ledger.Audit.{same_listing_iff_sound}
use stock_analyser.Playground.Fill.{PlayCtx, Quote, write_fill, trade_of, apply_fill}
use stock_analyser.Playground.Fill.Booking.{IsSettled, traded}
use stock_analyser.Playground.Fill.Effects.{apply_fill-inv, booked-OnlyOrders, settled-position}

add_back : (a b : ℕ) → b ≤ a → pos (a - b) +ℤ pos b ≡ pos a
add_back a b h = grind int_laws

take_back : (a b : ℕ) → pos (a + b) -ℤ pos b ≡ pos a
take_back a b = grind int_laws

-- Taking a trade back gives the shares from before it.
undo-traded :
    (side : Side) (p p' : Position) (n : ℕ) (price : Decimal)
    → traded side p n price ≡ ok p'
    → undo_trade side n (pos p'.qty) ≡ pos p.qty
unfolding apply_buy apply_sell
undo-traded buy p p' n price h = ground (arith, take_back p.qty n)
undo-traded sell p p' n price h = ground (arith, add_back p.qty n)

replay_back-head :
    (t : TradeRow) (ts : List TradeRow) (at : Listing) (day : ℕ) (qty : ℤ)
    → day ≤ day_of t.filled_at
    → replay_back (t ∷ ts) at day qty
      ≡ replay_back ts at day
          (if same_listing t.listing at then undo_trade t.side t.qty qty else qty)
unfolding replay_back
replay_back-head t ts at day qty h =
    rw (le→leb day (day_of t.filled_at) h)
      (elim (Bool-cases (same_listing t.listing at)) [ inl e ↦ rw e refl | inr e ↦ rw e refl ])

write_fill-replay :
    (db : Db) (row : OrderRow) (q : Quote) (p : Position) (moment : ℕ) (at : Listing) (day : ℕ)
    (qty : ℤ)
    → day ≤ day_of moment
    → replay_back (write_fill db row q p moment).trades at day qty
      ≡ replay_back db.trades at day
          (if same_listing row.listing at then undo_trade row.order.side row.order.qty qty else qty)
unfolding write_fill save_position add_cash
write_fill-replay db row q p moment at day qty h =
    replay_back-head (trade_of db row q p moment) db.trades at day qty h

-- The trades are those of the fill and the earlier ones.
settled-replay :
    (db db' : Db) (row : OrderRow) (q : Quote) (moment now tid : ℕ) (at : Listing) (day : ℕ)
    (qty : ℤ)
    → IsSettled row.order.side db db' row q moment now tid
    → day ≤ day_of moment
    → replay_back db'.trades at day qty
      ≡ replay_back db.trades at day
          (if same_listing row.listing at then undo_trade row.order.side row.order.qty qty else qty)
unfolding replay_back
settled-replay db db' row q moment now tid at day qty s h =
    ap (λ ts. replay_back ts at day qty) (ap (λ (x : Db). x.trades) (booked-OnlyOrders s.booked))
    ∙ write_fill-replay db row q s.new_pos moment at day qty h

-- Taking the fill back gives the shares from before it.
undone :
    (db db' : Db) (row : OrderRow) (q : Quote) (moment now tid : ℕ) (at : Listing)
    → IsSettled row.order.side db db' row q moment now tid
    → (let qty = pos (get_position db' at).qty in
        if same_listing row.listing at then undo_trade row.order.side row.order.qty qty else qty)
      ≡ pos (get_position db at).qty
undone db db' row q moment now tid at s =
    rw (settled-position db db' row q moment now tid at s)
      (elim (Bool-cases (same_listing row.listing at)) [
        | inl e ↦ rw e (
            rw (← same_listing_iff_sound row.listing at e) (
              undo-traded row.order.side (get_position db row.listing) s.new_pos row.order.qty
                (of_money q.price) s.trade))
        | inr e ↦ rw e refl
      ])

-- A fill changes nothing in what was held before its day: shares that are bought on a day, or
-- sold on it, count neither for nor against the holding at that day's start.
pub apply_fill_held :
    (db : Db) (ctx : PlayCtx) (row : OrderRow) (raw : Decimal) (moment : ℕ) (adv : Option Decimal)
    (now tid : ℕ) (at : Listing) (day : ℕ) {db' : Db}
    → apply_fill db ctx row raw moment adv now ≡ ok (some tid, db')
    → day ≤ day_of moment
    → held_at_start_of db' at day ≡ held_at_start_of db at day
unfolding held_at_start_of
apply_fill_held db ctx row raw moment adv now tid at day {db' = db'} h before =
    let (q, quoted, s) = apply_fill-inv db ctx row raw moment adv now tid h in
    ap pos_part (
      settled-replay db db' row q moment now tid at day (pos (get_position db' at).qty) s before
      ∙ ap (replay_back db.trades at day) (undone db db' row q moment now tid at s))
