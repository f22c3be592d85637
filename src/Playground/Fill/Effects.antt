-- ===== src/Playground/Fill/Effects.antt =====
-- The accounts after a fill: `apply_fill` of backend/src/stk/playground/fills.py on cash, positions
-- and trades.
use stock_analyser.Prelude.{
  ℕ, ◌≡◌, ◌≢◌, inl, inr, refl, false, arith, if◌then◌else◌, ◌==◌, ==_iff, Option, some, ok,
  >>=-eq-ok, Bool-cases, ap, sym, ◌∙◌, subst, ℤ, pos, ◌+ℤ◌, ◌-ℤ◌, ◌≤ℤ◌, int_laws,
}
use stock_analyser.Decimal.{Decimal}
use stock_analyser.Money.{of_money}
use stock_analyser.Costs.{Side, buy, sell}
use stock_analyser.Positions.{Position}
use stock_analyser.Positions.Accounting.{IsBought, IsSold, apply_buy-IsBought, apply_sell-IsSold}
use stock_analyser.Orders.{filled}
use stock_analyser.Playground.Store.{Db, Listing, OrderRow, same_listing}
use stock_analyser.Playground.Ledger.{
  cash_balance, cash_of, add_cash, get_position, position_of, save_position,
}
use stock_analyser.Playground.Ledger.Audit.{
  IsAudited, moved, get_position-save_position, same_listing_refl,
}
use stock_analyser.Playground.Book.Status.{OnlyOrders, set_status_moves}
use stock_analyser.Playground.Fill.{
  PlayCtx, Quote, quote_fill, write_fill, bracket_of, create_bracket, cancel_oco_siblings,
  apply_fill, signed,
}
use stock_analyser.Playground.Fill.Siblings.{cancel_all-only, OnlyOrders-trans}
use stock_analyser.Playground.Fill.Booking.{IsBooked, IsSettled, traded, settle-IsSettled}

bracket_of-only :
    (side : Side) (db : Db) (row : OrderRow) (moment : ℕ)
    → OnlyOrders db (bracket_of side db row moment)
unfolding create_bracket
bracket_of-only buy db row moment = refl
bracket_of-only sell db row moment = refl

-- Behind the written rows a fill only changes orders.
pub booked-OnlyOrders :
    {db db' : Db} {row : OrderRow} {q : Quote} {p : Position} {moment now tid : ℕ}
    → IsBooked db db' row q p moment now tid
    → OnlyOrders (write_fill db row q p moment) db'
unfolding cancel_oco_siblings
booked-OnlyOrders {db = db} {db' = db'} {row = row} {q = q} {p = p} {moment = moment} {now = now}
      b =
    let written = write_fill db row q p moment in
    let first =
      (set_status_moves written row.order.order_id filled (some now) b.filled_it).only_orders in
    let second = cancel_all-only b.closed _ now b.siblings in
    OnlyOrders-trans written b.closed db' first (
      OnlyOrders-trans b.closed b.done db' second
        (subst (OnlyOrders b.done) b.result (bracket_of-only row.order.side b.done row moment)))

same_cash : (a b : Db) → OnlyOrders a b → b.cash_ledger ≡ a.cash_ledger
same_cash a b h = ap (λ (x : Db). x.cash_ledger) h

same_positions : (a b : Db) → OnlyOrders a b → b.positions ≡ a.positions
same_positions a b h = ap (λ (x : Db). x.positions) h

pub apply_fill-inv :
    (db : Db) (ctx : PlayCtx) (row : OrderRow) (raw : Decimal) (moment : ℕ) (adv : Option Decimal)
    (now tid : ℕ) {db' : Db}
    → apply_fill db ctx row raw moment adv now ≡ ok (some tid, db')
    → (q : Quote) × (quote_fill db ctx row raw moment adv ≡ ok q)
      × IsSettled row.order.side db db' row q moment now tid
unfolding apply_fill
apply_fill-inv db ctx row raw moment adv now tid h =
    let (q, quoted, rest) = >>=-eq-ok (quote_fill db ctx row raw moment adv) _ h in
    (q, quoted, settle-IsSettled row.order.side db row q moment now tid rest)

write_fill-cash :
    (db : Db) (row : OrderRow) (q : Quote) (p : Position) (moment other : ℕ)
    → cash_balance (write_fill db row q p moment) other ≡ (
        if row.listing.portfolio_id == other
        then cash_balance db row.listing.portfolio_id
          +ℤ signed row.order.side q.gross
          +ℤ (pos 0 -ℤ q.charges)
        else cash_balance db other)
unfolding write_fill save_position cash_balance add_cash cash_of
write_fill-cash db row q p moment other =
    rw ((==_iff row.listing.portfolio_id row.listing.portfolio_id).1 refl)
      (elim (Bool-cases (row.listing.portfolio_id == other)) [
        | inl e ↦ rw e refl
        | inr e ↦ rw e refl
      ])

settled-cash :
    (db db' : Db) (row : OrderRow) (q : Quote) (moment now tid other : ℕ)
    → IsSettled row.order.side db db' row q moment now tid
    → cash_balance db' other ≡ (
        if row.listing.portfolio_id == other
        then cash_balance db row.listing.portfolio_id
          +ℤ signed row.order.side q.gross
          +ℤ (pos 0 -ℤ q.charges)
        else cash_balance db other)
unfolding cash_balance
settled-cash db db' row q moment now tid other s =
    ap (λ es. cash_of es other)
      (same_cash (write_fill db row q s.new_pos moment) db' (booked-OnlyOrders s.booked))
    ∙ write_fill-cash db row q s.new_pos moment other

settled-cash_own :
    (db db' : Db) (row : OrderRow) (q : Quote) (moment now tid : ℕ)
    → IsSettled row.order.side db db' row q moment now tid
    → cash_balance db' row.listing.portfolio_id
      ≡ cash_balance db row.listing.portfolio_id
        +ℤ signed row.order.side q.gross
        +ℤ (pos 0 -ℤ q.charges)
settled-cash_own db db' row q moment now tid s =
    let pid = row.listing.portfolio_id in
    rw (settled-cash db db' row q moment now tid pid s) (rw ((==_iff pid pid).1 refl) refl)

pay_charges :
    (cash moved charges : ℤ) → cash +ℤ moved +ℤ (pos 0 -ℤ charges) +ℤ charges ≡ cash +ℤ moved
pay_charges cash moved charges = grind int_laws

stays_paid :
    (cash gross charges : ℤ)
    → gross +ℤ charges ≤ℤ cash
    → pos 0 ≤ℤ cash +ℤ (pos 0 -ℤ gross) +ℤ (pos 0 -ℤ charges)
stays_paid cash gross charges h = grind int_laws

-- A fill that trades moves the gross value and the charges through its portfolio's cash, and no
-- other portfolio's; a purchase never overdraws.
pub apply_fill_cash :
    (db : Db) (ctx : PlayCtx) (row : OrderRow) (raw : Decimal) (moment : ℕ) (adv : Option Decimal)
    (now tid : ℕ) {db' : Db}
    → apply_fill db ctx row raw moment adv now ≡ ok (some tid, db')
    → (q : Quote) × (quote_fill db ctx row raw moment adv ≡ ok q)
      × (cash_balance db' row.listing.portfolio_id +ℤ q.charges
          ≡ cash_balance db row.listing.portfolio_id +ℤ signed row.order.side q.gross)
      × ((other : ℕ)
          → other ≢ row.listing.portfolio_id
          → cash_balance db' other ≡ cash_balance db other)
      × (row.order.side ≡ buy → pos 0 ≤ℤ cash_balance db' row.listing.portfolio_id)
apply_fill_cash db ctx row raw moment adv now tid {db' = db'} h =
    let (q, quoted, s) = apply_fill-inv db ctx row raw moment adv now tid h in
    let pid = row.listing.portfolio_id in
    let own = settled-cash_own db db' row q moment now tid s in
    (
      q,
      quoted,
      rw own (pay_charges (cash_balance db pid) (signed row.order.side q.gross) q.charges),
      λ other apart. ground (arith, settled-cash db db' row q moment now tid other s, apart),
      λ bought.
          rw own
            (rw bought (stays_paid (cash_balance db pid) q.gross q.charges (s.affordable bought))),
    )

write_fill-position :
    (db : Db) (row : OrderRow) (q : Quote) (p : Position) (moment : ℕ) (other : Listing)
    → get_position (write_fill db row q p moment) other
      ≡ (if same_listing row.listing other then p else get_position db other)
unfolding write_fill add_cash get_position save_position
write_fill-position db row q p moment other = get_position-save_position db row.listing other p

pub settled-position :
    (db db' : Db) (row : OrderRow) (q : Quote) (moment now tid : ℕ) (other : Listing)
    → (s : IsSettled row.order.side db db' row q moment now tid)
    → get_position db' other
      ≡ (if same_listing row.listing other then s.new_pos else get_position db other)
unfolding get_position
settled-position db db' row q moment now tid other s =
    ap (λ ps. position_of ps other)
      (same_positions (write_fill db row q s.new_pos moment) db' (booked-OnlyOrders s.booked))
    ∙ write_fill-position db row q s.new_pos moment other

abbrev pub IsTraded : Side → Position → ℕ → Decimal → Position → Type 0
IsTraded buy p n price p' = IsBought p n price p'
IsTraded sell p n price p' = IsSold p n price p'

traded-IsTraded :
    (side : Side) (p : Position) (n : ℕ) (price : Decimal) {p' : Position}
    → traded side p n price ≡ ok p'
    → IsTraded side p n price p'
traded-IsTraded buy p n price h = apply_buy-IsBought p n price h
traded-IsTraded sell p n price h = apply_sell-IsSold p n price h

-- A fill that trades changes the position of its listing and no other, at the price of its quote. A
-- purchase adds the order's shares and their cost and books nothing; a sale takes away shares that
-- were held, books their gain over the average cost and keeps that cost for the shares left.
pub apply_fill_position :
    (db : Db) (ctx : PlayCtx) (row : OrderRow) (raw : Decimal) (moment : ℕ) (adv : Option Decimal)
    (now tid : ℕ) {db' : Db}
    → apply_fill db ctx row raw moment adv now ≡ ok (some tid, db')
    → (q : Quote) × (quote_fill db ctx row raw moment adv ≡ ok q)
      × IsTraded row.order.side
          (get_position db row.listing)
          row.order.qty
          (of_money q.price)
          (get_position db' row.listing)
      × ((other : Listing)
          → same_listing row.listing other ≡ false
          → get_position db' other ≡ get_position db other)
apply_fill_position db ctx row raw moment adv now tid {db' = db'} h =
    let (q, quoted, s) = apply_fill-inv db ctx row raw moment adv now tid h in
    let own : get_position db' row.listing ≡ s.new_pos =
      settled-position db db' row q moment now tid row.listing s
      ∙ (rw (same_listing_refl row.listing) refl) in
    (
      q,
      quoted,
      rw own (
          traded-IsTraded row.order.side (get_position db row.listing) row.order.qty
            (of_money q.price) s.trade),
      λ other apart. settled-position db db' row q moment now tid other s ∙ (rw apart refl),
    )

write_fill-IsAudited :
    (db : Db) (row : OrderRow) (q : Quote) (p : Position) (moment : ℕ)
    → IsAudited db.cash_ledger
    → IsAudited (write_fill db row q p moment).cash_ledger
unfolding write_fill add_cash save_position
write_fill-IsAudited db row q p moment h = (refl, (refl, h))

-- A fill that trades keeps the balances that stand in the ledger's rows.
pub apply_fill-IsAudited :
    (db : Db) (ctx : PlayCtx) (row : OrderRow) (raw : Decimal) (moment : ℕ) (adv : Option Decimal)
    (now tid : ℕ) {db' : Db}
    → IsAudited db.cash_ledger
    → apply_fill db ctx row raw moment adv now ≡ ok (some tid, db')
    → IsAudited db'.cash_ledger
apply_fill-IsAudited db ctx row raw moment adv now tid {db' = db'} audited h =
    let (q, quoted, s) = apply_fill-inv db ctx row raw moment adv now tid h in
    subst IsAudited
      (sym (same_cash (write_fill db row q s.new_pos moment) db' (booked-OnlyOrders s.booked)))
      (write_fill-IsAudited db row q s.new_pos moment audited)

write_fill-moved :
    (db : Db) (row : OrderRow) (q : Quote) (p : Position) (moment other : ℕ)
    → moved (write_fill db row q p moment).cash_ledger other ≡ (
        if row.listing.portfolio_id == other
        then moved db.cash_ledger other +ℤ signed row.order.side q.gross +ℤ (pos 0 -ℤ q.charges)
        else moved db.cash_ledger other)
unfolding write_fill add_cash save_position
write_fill-moved db row q p moment other = elim (Bool-cases (row.listing.portfolio_id == other)) [
  | inl e ↦ rw e refl
  | inr e ↦ rw e refl
]

-- Where the cash balance of a portfolio is the sum of all its cash movements, it still is after a
-- fill that trades, of that portfolio's order or of another's.
pub apply_fill_reconciles :
    (db : Db) (ctx : PlayCtx) (row : OrderRow) (raw : Decimal) (moment : ℕ) (adv : Option Decimal)
    (now tid pid : ℕ) {db' : Db}
    → cash_balance db pid ≡ moved db.cash_ledger pid
    → apply_fill db ctx row raw moment adv now ≡ ok (some tid, db')
    → cash_balance db' pid ≡ moved db'.cash_ledger pid
apply_fill_reconciles db ctx row raw moment adv now tid pid {db' = db'} before h =
    let (q, quoted, s) = apply_fill-inv db ctx row raw moment adv now tid h in
    let written = write_fill db row q s.new_pos moment in
    let ledger = same_cash written db' (booked-OnlyOrders s.booked) in
    let own = row.listing.portfolio_id in
    rw
      (
        settled-cash db db' row q moment now tid pid s,
        ledger,
        write_fill-moved db row q s.new_pos moment pid,
      )
      (elim (Bool-cases (own == pid)) [
        | inl e ↦ rw (e, (==_iff own pid).0 e, before) refl
        | inr e ↦ rw (e, before) refl
      ])
