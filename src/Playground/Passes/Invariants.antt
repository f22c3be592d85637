-- ===== src/Playground/Passes/Invariants.antt =====
-- What every pass of backend/src/stk/playground/passes.py leaves as it was, by induction on the
-- fills and moves that it makes.
use stock_analyser.Prelude.{
  ℕ, ◌≤◌, ◌≡◌, refl, Option, none, some, Result, ok, err, ap, sym, ◌∙◌, subst,
}
use stock_analyser.Decimal.{Decimal}
use stock_analyser.Orders.{OrderStatus}
use stock_analyser.Playground.Store.{Db, Listing, OrderRow, day_of}
use stock_analyser.Playground.Ledger.{held_at_start_of, get_position}
use stock_analyser.Playground.Ledger.Audit.{IsAudited}
use stock_analyser.Playground.Book.{set_status}
use stock_analyser.Playground.Book.Status.{OnlyOrders, set_status_moves}
use stock_analyser.Playground.Fill.{PlayCtx, apply_fill}
use stock_analyser.Playground.Fill.Effects.{apply_fill-IsAudited}
use stock_analyser.Playground.Fill.Holdings.{apply_fill_held}
use stock_analyser.Playground.Fill.Outcome.{apply_fill_rejects}
use stock_analyser.Playground.Passes.{PassError, raised}

-- The tables `b` come out of `a` by fills booked on `day` or later and by moves of orders.
pub data Serves (day : ℕ) (a : Db) : Db → Type 0 where
  idle : Serves day a a
  fills :
      {b c : Db} {trade : Option ℕ}
      → Serves day a b
      → (ctx : PlayCtx) (row : OrderRow) (raw : Decimal) (moment : ℕ) (adv : Option Decimal)
        (now : ℕ)
      → day ≤ day_of moment
      → apply_fill b ctx row raw moment adv now ≡ ok (trade, c)
      → Serves day a c
  moves :
      {b c : Db}
      → Serves day a b
      → (id : ℕ) (new : OrderStatus) (closed : Option ℕ) → set_status b id new closed ≡ ok c
      → Serves day a c

-- What an order's move leaves alone.
only-held :
    (a b : Db) (at : Listing) (day : ℕ)
    → OnlyOrders a b
    → held_at_start_of b at day ≡ held_at_start_of a at day
unfolding held_at_start_of get_position
only-held a b at day h = ap (λ (x : Db). held_at_start_of x at day) h

only-IsAudited : (a b : Db) → OnlyOrders a b → IsAudited a.cash_ledger → IsAudited b.cash_ledger
only-IsAudited a b h audited = subst IsAudited (sym (ap (λ (x : Db). x.cash_ledger) h)) audited

pub Serves-held :
    {day : ℕ} {a b : Db} (at : Listing)
    → Serves day a b
    → held_at_start_of b at day ≡ held_at_start_of a at day
Serves-held at idle = refl
Serves-held {day = day} at
      (fills {b = b} {c = c} {trade = none} s ctx row raw moment adv now later h) =
    let (q, quoted, refused, moved) = apply_fill_rejects b ctx row raw moment adv now h in
    only-held b c at day moved.5 ∙ Serves-held at s
Serves-held {day = day} at
      (fills {b = b} {c = c} {trade = some tid} s ctx row raw moment adv now later h) =
    apply_fill_held b ctx row raw moment adv now tid at day h later ∙ Serves-held at s
Serves-held {day = day} at (moves {b = b} {c = c} s id new closed h) =
    only-held b c at day (set_status_moves b id new closed h).only_orders ∙ Serves-held at s

pub Serves-IsAudited :
    {day : ℕ} {a b : Db} → Serves day a b → IsAudited a.cash_ledger → IsAudited b.cash_ledger
Serves-IsAudited idle h = h
Serves-IsAudited (fills {b = b} {c = c} {trade = none} s ctx row raw moment adv now later h)
      audited =
    let (q, quoted, refused, moved) = apply_fill_rejects b ctx row raw moment adv now h in
    only-IsAudited b c moved.5 (Serves-IsAudited s audited)
Serves-IsAudited (fills {b = b} {c = c} {trade = some tid} s ctx row raw moment adv now later h)
      audited =
    apply_fill-IsAudited b ctx row raw moment adv now tid (Serves-IsAudited s audited) h
Serves-IsAudited (moves {b = b} {c = c} s id new closed h) audited =
    only-IsAudited b c (set_status_moves b id new closed h).only_orders (Serves-IsAudited s audited)

pub raised-ok :
    {E A : Type 0} (f : E → PassError) (m : Result E A) {a : A} → raised f m ≡ ok a → m ≡ ok a
raised-ok f (ok b) h = cc
raised-ok f (err e) h = cc
