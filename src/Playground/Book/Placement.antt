-- ===== src/Playground/Book/Placement.antt =====
-- What `place_order` of backend/src/stk/playground/orders.py lets through.
use stock_analyser.Prelude.{
  ℕ, ◌≡◌, ◌≤◌, ◌↔◌, inl, inr, refl, true, false, arith, Bool, Option, none, some, List, [], ◌∷◌,
  Result, ok, err, ok-injective, >>=-eq-ok, Bool-cases, raise_if, ◌≢◌, subst, ◌>>=◌, ◌&&◌, ◌||◌,
  not, ℤ, pos, negsuc, pos_part, ◌≤ℤ◌, contains, any_of, ltb,
}
use stock_analyser.Decimal.{Decimal, ◌<d◌, zero_d, eqd}
use stock_analyser.Decimal.Order.{led-cases}
use stock_analyser.Orders.{opened, OrderError, validate_order, is_sell}
use stock_analyser.Orders.Machine.{IsWellFormed, validate_order_iff}
use stock_analyser.Playground.Store.{Db, OrderRow, next_order_id}
use stock_analyser.Playground.Ledger.{get_position}
use stock_analyser.Playground.Book.{
  nse, BookError, malformed, bracket_on_sell, bracket_not_positive, bracket_crossed, unknown_symbol,
  no_portfolio, oversold, lift, truthy, bad_bracket, crossed, OrderRequest, listing_of, placed_row,
  is_open_portfolio, check_request, place_order, find_order,
}

-- A bracket's price, where it has one.
abbrev pub IsBracketPrice : Option Decimal → Type 0
IsBracketPrice none = Unit
IsBracketPrice (some d) = zero_d <d d

abbrev pub IsOrdered : Option Decimal → Option Decimal → Type 0
IsOrdered (some stop) (some target) = stop <d target
IsOrdered _ _ = Unit

-- The request is one the playground may store.
pub record IsPlaceable (db : Db) (listings : List ℕ) (q : OrderRequest) : Type 0 where
  pub positive : pos 1 ≤ℤ q.qty
  pub well_formed : IsWellFormed q.side q.order_type q.limit_price q.trigger_price
  pub bracket_is_buy : is_sell q.side ≡ true → (q.bracket_stop ≡ none) × (q.bracket_target ≡ none)
  pub stop_positive : IsBracketPrice q.bracket_stop
  pub target_positive : IsBracketPrice q.bracket_target
  pub ordered : IsOrdered q.bracket_stop q.bracket_target
  pub known : contains q.symbol listings ≡ true
  pub has_portfolio : any_of (is_open_portfolio q.portfolio_id) db.portfolios ≡ true
  pub covered : is_sell q.side ≡ true → pos_part q.qty ≤ (get_position db (listing_of q)).qty

raise_if-ok : {E : Type 0} (b : Bool) (e : E) {u : Unit {0}} → raise_if b e ≡ ok u → b ≡ false
raise_if-ok true e h = cc
raise_if-ok false e h = refl

bracket_price : (o : Option Decimal) → (bad_bracket o ≡ false) ↔ IsBracketPrice o
bracket_price none = ground arith
bracket_price (some d) = ground (arith, led-cases d zero_d)

bracket_order : (s t : Option Decimal) → (crossed s t ≡ false) ↔ IsOrdered s t
bracket_order none t = ground arith
bracket_order (some s) none = ground arith
bracket_order (some s) (some t) = ground (arith, led-cases t s)

truthy_positive : (d : Decimal) → zero_d <d d → truthy (some d) ≡ true
unfolding eqd
truthy_positive d h = ground arith

absent : (o : Option Decimal) → IsBracketPrice o → (truthy o ≡ false) ↔ (o ≡ none)
absent none h = ground arith
absent (some d) h = ground (arith, truthy_positive d h)

lift_malformed : (m : Result OrderError (Unit {0})) → (lift malformed m ≡ ok tt) ↔ (m ≡ ok tt)
lift_malformed (ok tt) = ground arith
lift_malformed (err e) = ground arith

-- Six refusals in a row all pass exactly when no test holds.
all_pass :
    (m : Result BookError (Unit {0})) (a b c d f g : Bool) (u v w x y z : BookError)
    → ((m >>= λ _. raise_if a u >>= λ _. raise_if b v >>= λ _.
          raise_if c w >>= λ _. raise_if d x >>= λ _. raise_if f y >>= λ _. raise_if g z)
        ≡ ok tt)
      ↔ ((m ≡ ok tt)
          × (a ≡ false)
          × (b ≡ false)
          × (c ≡ false)
          × (d ≡ false)
          × (f ≡ false)
          × (g ≡ false))
all_pass (err e) a b c d f g u v w x y z = ground arith
all_pass (ok tt) a b c d f g u v w x y z = ground arith

-- The tests of `check_request` after the validation, as they are written there.
RequestTests : (db : Db) (listings : List ℕ) (q : OrderRequest) → Type 0
RequestTests db listings q =
    (validate_order q.side q.order_type q.qty q.limit_price q.trigger_price ≡ ok tt)
    × (((truthy q.bracket_stop || truthy q.bracket_target) && is_sell q.side) ≡ false)
    × ((bad_bracket q.bracket_stop || bad_bracket q.bracket_target) ≡ false)
    × (crossed q.bracket_stop q.bracket_target ≡ false)
    × (not (contains q.symbol listings) ≡ false)
    × (not (any_of (is_open_portfolio q.portfolio_id) db.portfolios) ≡ false)
    × ((is_sell q.side && ltb (get_position db (listing_of q)).qty (pos_part q.qty)) ≡ false)

tests-IsPlaceable :
    (db : Db) (listings : List ℕ) (q : OrderRequest)
    → RequestTests db listings q
    → IsPlaceable db listings q
unfolding RequestTests
tests-IsPlaceable db listings q (valid, on_buy, positive, order, symbol, portfolio, held) =
    let (qty, form) =
      (validate_order_iff q.side q.order_type q.qty q.limit_price q.trigger_price).0 valid in
    let stop : IsBracketPrice q.bracket_stop =
      (bracket_price q.bracket_stop).0 (ground (arith, positive)) in
    let target : IsBracketPrice q.bracket_target =
      (bracket_price q.bracket_target).0 (ground (arith, positive)) in
    record {
      positive = qty;
      well_formed = form;
      bracket_is_buy = λ s. (
        (absent q.bracket_stop stop).0 (ground (arith, on_buy, s)),
        (absent q.bracket_target target).0 (ground (arith, on_buy, s)),
      );
      stop_positive = stop;
      target_positive = target;
      ordered = (bracket_order q.bracket_stop q.bracket_target).0 order;
      known = ground (arith, symbol);
      has_portfolio = ground (arith, portfolio);
      covered = λ s. ground (arith, held, s);
    }

IsPlaceable-tests :
    (db : Db) (listings : List ℕ) (q : OrderRequest)
    → IsPlaceable db listings q
    → RequestTests db listings q
unfolding RequestTests
IsPlaceable-tests db listings q h = (
  (validate_order_iff q.side q.order_type q.qty q.limit_price q.trigger_price).1
      (h.positive, h.well_formed),
  elim (Bool-cases (is_sell q.side)) [
    | inl s ↦ let (a, b) = h.bracket_is_buy s in rw a (rw b refl)
    | inr s ↦ ground (arith, s)
  ],
  (let a = (bracket_price q.bracket_stop).1 h.stop_positive in
      let b = (bracket_price q.bracket_target).1 h.target_positive in ground (arith, a, b)),
  (bracket_order q.bracket_stop q.bracket_target).1 h.ordered,
  ground (arith, h.known),
  ground (arith, h.has_portfolio),
  elim (Bool-cases (is_sell q.side)) [
    | inl s ↦ ground (arith, h.covered s)
    | inr s ↦ ground (arith, s)
  ],
)

-- `place_order`'s checks accept exactly the requests that may be stored: a well-formed order of one
-- share or more on a known symbol in an open portfolio, a bracket only on a buy and then positive
-- with its stop below its target, and never more shares sold than held.
pub check_request_iff :
    (db : Db) (listings : List ℕ) (q : OrderRequest)
    → (check_request db listings q ≡ ok tt) ↔ IsPlaceable db listings q
unfolding check_request RequestTests
check_request_iff db listings q =
    let m = validate_order q.side q.order_type q.qty q.limit_price q.trigger_price in
    let (to, from) =
      all_pass (lift malformed m)
        ((truthy q.bracket_stop || truthy q.bracket_target) && is_sell q.side)
        (bad_bracket q.bracket_stop || bad_bracket q.bracket_target)
        (crossed q.bracket_stop q.bracket_target) (not (contains q.symbol listings))
        (not (any_of (is_open_portfolio q.portfolio_id) db.portfolios))
        (is_sell q.side && ltb (get_position db (listing_of q)).qty (pos_part q.qty))
        bracket_on_sell bracket_not_positive bracket_crossed unknown_symbol no_portfolio oversold in
    (
      λ h.
          let (v, a, b, c, d, f, g) = to h in
          tests-IsPlaceable db listings q ((lift_malformed m).0 v, a, b, c, d, f, g),
      λ h.
          let (v, a, b, c, d, f, g) = IsPlaceable-tests db listings q h in
          from ((lift_malformed m).1 v, a, b, c, d, f, g),
    )

next_order_id-above :
    (rs : List OrderRow) (id : ℕ) → next_order_id rs ≤ id → find_order rs id ≡ none
unfolding next_order_id find_order
next_order_id-above [] id h = refl
next_order_id-above (r ∷ rs) id h = ground (arith, next_order_id-above rs id)

-- The row is an open order for the request, placed at `now` under `id`: the request's listing on the
-- NSE, side, type, shares, prices and bracket, in no OCO group and with no parent.
pub record IsOpenOrder (q : OrderRequest) (id now : ℕ) (r : OrderRow) : Type 0 where
  pub named : r.order.order_id ≡ id
  pub resting : (r.order.status ≡ opened) × (r.closed_at ≡ none)
  pub created : r.order.created_at ≡ now
  pub side : r.order.side ≡ q.side
  pub kind : r.order.order_type ≡ q.order_type
  pub shares : pos r.order.qty ≡ q.qty
  pub limit_price : r.order.limit_price ≡ q.limit_price
  pub trigger_price : r.order.trigger_price ≡ q.trigger_price
  pub portfolio : r.listing.portfolio_id ≡ q.portfolio_id
  pub exchange : r.listing.exchange ≡ nse
  pub symbol : r.listing.symbol ≡ q.symbol
  pub stop : r.bracket_stop ≡ q.bracket_stop
  pub target : r.bracket_target ≡ q.bracket_target
  pub alone : (r.order.oco_group ≡ none) × (r.parent_order_id ≡ none)

positive_shares : (n : ℤ) → pos 1 ≤ℤ n → pos (pos_part n) ≡ n
positive_shares (pos n) h = refl
positive_shares (negsuc n) h = absurd (omega arith)

placed_row-IsOpenOrder :
    (q : OrderRequest) (id now : ℕ) → pos 1 ≤ℤ q.qty → IsOpenOrder q id now (placed_row q id now)
placed_row-IsOpenOrder q id now h = record {
  named = refl;
  resting = (refl, refl);
  created = refl;
  side = refl;
  kind = refl;
  shares = positive_shares q.qty h;
  limit_price = refl;
  trigger_price = refl;
  portfolio = refl;
  exchange = refl;
  symbol = refl;
  stop = refl;
  target = refl;
  alone = (refl, refl);
}

-- The request `q` was placed under `id`.
abbrev pub IsPlaced : Db → List ℕ → OrderRequest → ℕ → ℕ → Db → Type 0
IsPlaced db listings q now id db' =
    IsPlaceable db listings q
    × (find_order db.orders id ≡ none)
    × (find_order db'.orders id ≡ some (placed_row q id now))
    × ((other : ℕ) → other ≢ id → find_order db'.orders other ≡ find_order db.orders other)
    × (record db' { orders = db.orders } ≡ db)

placed : Db → OrderRequest → ℕ → ℕ × Db
placed db q now =
    let id = next_order_id db.orders in (id, record db { orders = placed_row q id now ∷ db.orders })

placed-IsPlaced :
    (db : Db) (listings : List ℕ) (q : OrderRequest) (now : ℕ)
    → IsPlaceable db listings q
    → IsPlaced db listings q now (placed db q now).0 (placed db q now).1
unfolding placed find_order
placed-IsPlaced db listings q now h = (
  h,
  next_order_id-above db.orders (next_order_id db.orders) (omega arith),
  ground arith,
  λ other apart. ground arith,
  refl,
)

-- An accepted request was fit to store. It becomes an open order of just what was asked for, under an
-- id that no order had, and no other order, position, trade or balance changes.
pub place_order_accepts :
    (db : Db) (listings : List ℕ) (q : OrderRequest) (now : ℕ) {id : ℕ} {db' : Db}
    → place_order db listings q now ≡ ok (id, db')
    → IsPlaceable db listings q
      × (find_order db.orders id ≡ none)
      × ((r : OrderRow) × (find_order db'.orders id ≡ some r) × IsOpenOrder q id now r)
      × ((other : ℕ) → other ≢ id → find_order db'.orders other ≡ find_order db.orders other)
      × (record db' { orders = db.orders } ≡ db)
unfolding place_order placed
place_order_accepts db listings q now {id = id} {db' = db'} h =
    let (u, passed, rest) = >>=-eq-ok (check_request db listings q) _ h in
    let (fit, fresh, found, others, kept) =
      subst (λ x. IsPlaced db listings q now x.0 x.1)
        (ok-injective (placed db q now) (id, db') rest)
        (placed-IsPlaced db listings q now ((check_request_iff db listings q).0 passed)) in
    (
      fit,
      fresh,
      (placed_row q id now, found, placed_row-IsOpenOrder q id now fit.positive),
      others,
      kept,
    )
