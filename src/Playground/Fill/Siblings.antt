-- ===== src/Playground/Fill/Siblings.antt =====
-- `_cancel_oco_siblings` of backend/src/stk/playground/fills.py, and the order rows around a fill.
use stock_analyser.Prelude.{
  ℕ, ◌≤◌, ◌<◌, ◌≡◌, ◌≢◌, ◌↔◌, ◌⊎◌, inl, inr, refl, true, false, arith, Bool, if◌then◌else◌, Option,
  none, some, List, [], ◌∷◌, ◌++◌, Member, All-Member, Member-All, All, All-append, ok,
  ok-injective, >>=-eq-ok, Bool-cases, ap, sym, ◌∙◌, subst,
}
use stock_analyser.Orders.{OrderStatus, cancelled, is_active}
use stock_analyser.Playground.Store.{Db, OrderRow, next_order_id}
use stock_analyser.Playground.Book.{find_order, update_order, set_row_status, set_status, has_id}
use stock_analyser.Playground.Book.Status.{
  OnlyOrders, set_status_moves, set_status-live, transition-cancelled,
}
use stock_analyser.Playground.Fill.{is_sibling, sibling_ids, cancel_all, cancel_oco_siblings}

-- Every row's id is larger than those of the rows that were inserted before it.
abbrev pub IsKeyed : List OrderRow → Type 0
IsKeyed [] = Unit
IsKeyed (r ∷ rs) = (next_order_id rs ≤ r.order.order_id) × IsKeyed rs

next_order_id-update_order :
    (rs : List OrderRow) (id : ℕ) (f : OrderRow → OrderRow)
    → ((r : OrderRow) → (f r).order.order_id ≡ r.order.order_id)
    → next_order_id (update_order rs id f) ≡ next_order_id rs
unfolding next_order_id update_order
next_order_id-update_order [] id f keeps = refl
next_order_id-update_order (r ∷ rs) id f keeps =
    ground (arith, keeps r, next_order_id-update_order rs id f keeps)

update_order-IsKeyed :
    (rs : List OrderRow) (id : ℕ) (f : OrderRow → OrderRow)
    → ((r : OrderRow) → (f r).order.order_id ≡ r.order.order_id)
    → IsKeyed rs
    → IsKeyed (update_order rs id f)
unfolding update_order
update_order-IsKeyed [] id f keeps keyed = tt
update_order-IsKeyed (r ∷ rs) id f keeps (k, keyed) = (
  ground (arith, keeps r, next_order_id-update_order rs id f keeps),
  update_order-IsKeyed rs id f keeps keyed,
)

pub set_status-IsKeyed :
    (db : Db) (id : ℕ) (new : OrderStatus) (closed : Option ℕ) {db' : Db}
    → set_status db id new closed ≡ ok db'
    → IsKeyed db.orders
    → IsKeyed db'.orders
set_status-IsKeyed db id new closed h keyed =
    subst IsKeyed (sym (set_status_moves db id new closed h).updated)
      (update_order-IsKeyed db.orders id (set_row_status new closed) (λ r. refl) keyed)

-- The order stands in the table and is active.
abbrev pub IsLive : List OrderRow → ℕ → Type 0
IsLive rows id = (r : OrderRow) × (find_order rows id ≡ some r) × (is_active r.order.status ≡ true)

-- No id of the list comes twice.
abbrev pub IsApart : List ℕ → Type 0
IsApart [] = Unit
IsApart (id ∷ ids) = All (λ other. other ≢ id) ids × IsApart ids

pub OnlyOrders-trans : (a b c : Db) → OnlyOrders a b → OnlyOrders b c → OnlyOrders a c
OnlyOrders-trans a b c p q = ap (λ (x : Db). record x { orders = a.orders }) q ∙ p

pub cancel_all-only :
    (db : Db) (ids : List ℕ) (now : ℕ) {db' : Db}
    → cancel_all db ids now ≡ ok db'
    → OnlyOrders db db'
unfolding cancel_all
cancel_all-only db [] now {db' = db'} h =
    ap (λ (x : Db). record x { orders = db.orders }) (sym (ok-injective db db' h))
cancel_all-only db (id ∷ ids) now {db' = db'} h =
    let (mid, moved, rest) = >>=-eq-ok (set_status db id cancelled (some now)) _ h in
    OnlyOrders-trans db mid db' (set_status_moves db id cancelled (some now) moved).only_orders
      (cancel_all-only mid ids now rest)

-- An order outside the list is left alone.
pub cancel_all-others :
    (db : Db) (ids : List ℕ) (now other : ℕ) {db' : Db}
    → cancel_all db ids now ≡ ok db'
    → All (λ id. id ≢ other) ids
    → find_order db'.orders other ≡ find_order db.orders other
unfolding cancel_all
cancel_all-others db [] now other {db' = db'} h apart =
    ap (λ (x : Db). find_order x.orders other) (sym (ok-injective db db' h))
cancel_all-others db (id ∷ ids) now other h (a, apart) =
    let (mid, moved, rest) = >>=-eq-ok (set_status db id cancelled (some now)) _ h in
    cancel_all-others mid ids now other rest apart
    ∙ (set_status_moves db id cancelled (some now) moved).others other (λ e. a (sym e))

-- An order of the list that comes once ends cancelled.
pub cancel_all-cancels :
    (db : Db) (ids : List ℕ) (now id : ℕ) {db' : Db}
    → cancel_all db ids now ≡ ok db'
    → IsApart ids
    → Member id ids
    → (r : OrderRow) × (find_order db.orders id ≡ some r)
      × (find_order db'.orders id ≡ some (set_row_status cancelled (some now) r))
unfolding cancel_all
cancel_all-cancels db [] now id h apart m = absurd m
cancel_all-cancels db (first ∷ ids) now id {db' = db'} h (a, apart) (inl e) =
    let (mid, moved, rest) = >>=-eq-ok (set_status db first cancelled (some now)) _ h in
    let step = set_status_moves db first cancelled (some now) moved in
    let same = cancel_all-others mid ids now first rest a in
    subst
      (λ x.
        (r : OrderRow) × (find_order db.orders x ≡ some r)
        × (find_order db'.orders x ≡ some (set_row_status cancelled (some now) r)))
      (sym e) (step.row, step.found, same ∙ step.after)
cancel_all-cancels db (first ∷ ids) now id {db' = db'} h (a, apart) (inr m) =
    let (mid, moved, rest) = >>=-eq-ok (set_status db first cancelled (some now)) _ h in
    let step = set_status_moves db first cancelled (some now) moved in
    let (r, found, after) = cancel_all-cancels mid ids now id rest apart m in
    (r, sym (step.others id (All-Member (λ other. other ≢ first) ids id a m)) ∙ found, after)

-- Live orders that come once each are all cancelled: nothing is raised.
pub cancel_all-total :
    (db : Db) (ids : List ℕ) (now : ℕ)
    → IsApart ids
    → ((id : ℕ) → Member id ids → IsLive db.orders id)
    → (db' : Db) × (cancel_all db ids now ≡ ok db')
unfolding cancel_all
cancel_all-total db [] now apart live = (db, refl)
cancel_all-total db (first ∷ ids) now (a, apart) live =
    let (r, found, active) = live first (inl refl) in
    let (mid, moved) =
      set_status-live db first cancelled (some now) r found
        (transition-cancelled r.order.status active) in
    let step = set_status_moves db first cancelled (some now) moved in
    let (db', rest) = cancel_all-total mid ids now apart (λ id m.
      let (s, f, act) = live id (inr m) in
      (s, step.others id (All-Member (λ other. other ≢ first) ids id a m) ∙ f, act)) in
    (db', rw moved rest)

pub find_order-below :
    (rs : List OrderRow) (id : ℕ) {r : OrderRow} → find_order rs id ≡ some r → id < next_order_id rs
unfolding find_order next_order_id
find_order-below [] id h = cc
find_order-below (x ∷ rs) id {r = r} h = ground (arith, find_order-below rs id {r = r})

Member-snoc_if :
    (xs : List ℕ) (b : Bool) (y z : ℕ)
    → Member z (xs ++ (if b then y ∷ [] else [])) ↔ (Member z xs ⊎ ((b ≡ true) × (z ≡ y)))
Member-snoc_if [] true y z = ground arith
Member-snoc_if [] false y z = ground arith
Member-snoc_if (x ∷ xs) b y z = ground (arith, Member-snoc_if xs b y z)

IsApart-snoc_if :
    (xs : List ℕ) (b : Bool) (y : ℕ)
    → IsApart xs
    → ((z : ℕ) → Member z xs → z < y)
    → IsApart (xs ++ (if b then y ∷ [] else []))
IsApart-snoc_if [] true y apart below = (tt, tt)
IsApart-snoc_if [] false y apart below = tt
IsApart-snoc_if (x ∷ xs) b y (a, apart) below = (
  elim b as (λ k. All (λ other. other ≢ x) (xs ++ (if k then y ∷ [] else []))) [
    | true ↦ All-append (λ other. other ≢ x) xs (y ∷ []) a (ground (arith, below x (inl refl)), tt)
    | false ↦ All-append (λ other. other ≢ x) xs [] a tt
  ],
  IsApart-snoc_if xs b y apart (λ z m. below z (inr m)),
)

-- The siblings that the query returns are the rows that it describes.
sibling_ids_iff :
    (rows : List OrderRow) (group : Option ℕ) (self id : ℕ)
    → IsKeyed rows
    → Member id (sibling_ids rows group self)
      ↔ ((r : OrderRow) × (find_order rows id ≡ some r) × (is_sibling group self r ≡ true))
unfolding sibling_ids find_order
sibling_ids_iff [] group self id keyed = ground arith
sibling_ids_iff (x ∷ rows) group self id (k, keyed) =
    let b = is_sibling group self x in
    let older = sibling_ids_iff rows group self id keyed in
    let split = Member-snoc_if (sibling_ids rows group self) b x.order.order_id id in
    (
      λ m. elim (split.0 m) [
        | inl m1 ↦
            let (r, f, sib) = older.0 m1 in
            (r, ground (arith, k, find_order-below rows id f, f), sib)
        | inr p ↦ (x, ground (arith, p.1), p.0)
      ],
      λ (r, f, sib). elim (Bool-cases (has_id id x)) [
        | inl e ↦ split.1 (inr (ground (arith, e, f, sib), ground (arith, e)))
        | inr e ↦ split.1 (inl (older.1 (r, ground (arith, e, f), sib)))
      ],
    )

sibling_ids-below :
    (rows : List OrderRow) (group : Option ℕ) (self id : ℕ)
    → IsKeyed rows
    → Member id (sibling_ids rows group self)
    → id < next_order_id rows
sibling_ids-below rows group self id keyed m =
    let (r, f, sib) = (sibling_ids_iff rows group self id keyed).0 m in find_order-below rows id f

sibling_ids-IsApart :
    (rows : List OrderRow) (group : Option ℕ) (self : ℕ)
    → IsKeyed rows
    → IsApart (sibling_ids rows group self)
unfolding sibling_ids
sibling_ids-IsApart [] group self keyed = tt
sibling_ids-IsApart (x ∷ rows) group self (k, keyed) =
    IsApart-snoc_if (sibling_ids rows group self) (is_sibling group self x) x.order.order_id
      (sibling_ids-IsApart rows group self keyed)
      (λ z m. omega (arith, k, sibling_ids-below rows group self z keyed m))

is_sibling-active :
    (group : Option ℕ) (self : ℕ) (r : OrderRow)
    → is_sibling group self r ≡ true
    → is_active r.order.status ≡ true
is_sibling-active none self r h = ground arith
is_sibling-active (some g) self r h = ground arith

-- In a keyed table the siblings of an order can always be cancelled.
pub cancel_oco_siblings-total :
    (db : Db) (row : OrderRow) (now : ℕ)
    → IsKeyed db.orders
    → (db' : Db) × (cancel_oco_siblings db row now ≡ ok db')
unfolding cancel_oco_siblings
cancel_oco_siblings-total db row now keyed =
    let group = row.order.oco_group in
    let self = row.order.order_id in
    cancel_all-total db (sibling_ids db.orders group self) now
      (sibling_ids-IsApart db.orders group self keyed)
      (λ id m.
        let (r, f, sib) = (sibling_ids_iff db.orders group self id keyed).0 m in
        (r, f, is_sibling-active group self r sib))

-- What is left of a row once its partner has filled.
abbrev pub after_partner : Option ℕ → ℕ → ℕ → OrderRow → OrderRow
after_partner group self now r =
    if is_sibling group self r then set_row_status cancelled (some now) r else r

-- A fill cancels the active orders of its OCO group, and only those: every other row stays as it
-- was, the filled order's own too.
pub cancel_oco_siblings-cancels :
    (db : Db) (row : OrderRow) (now id : ℕ) (r : OrderRow) {db' : Db}
    → IsKeyed db.orders
    → cancel_oco_siblings db row now ≡ ok db'
    → find_order db.orders id ≡ some r
    → find_order db'.orders id ≡ some (after_partner row.order.oco_group row.order.order_id now r)
unfolding cancel_oco_siblings
cancel_oco_siblings-cancels db row now id r keyed h found =
    let group = row.order.oco_group in
    let self = row.order.order_id in
    let ids = sibling_ids db.orders group self in
    let iff = sibling_ids_iff db.orders group self id keyed in
    let chosen : Member id ids → is_sibling group self r ≡ true =
      λ m. let (r3, f3, sib3) = iff.0 m in ground (arith, f3, sib3, found) in
    elim (Bool-cases (is_sibling group self r)) [
      | inl sib ↦
          let (r2, f, after) =
            cancel_all-cancels db ids now id h (sibling_ids-IsApart db.orders group self keyed)
              (iff.1 (r, found, sib)) in
          rw sib (ground (arith, f, after, found))
      | inr other ↦ rw other (
          cancel_all-others db ids now id h (
            Member-All (λ i. i ≢ id) ids
              (λ i m e. absurd (ground (arith, other, chosen (subst (λ x. Member x ids) e m)))))
          ∙ found)
    ]
