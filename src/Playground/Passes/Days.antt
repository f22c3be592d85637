-- ===== src/Playground/Passes/Days.antt =====
-- A whole pass of backend/src/stk/playground/passes.py: `intraday_pass` and `eod_pass`.
use stock_analyser.Prelude.{
  ℕ, ◌+◌, ◌*◌, ◌≤◌, ◌≡◌, arith, Bool, Option, none, some, List, [], ◌∷◌, map, All, All-Member,
  Member-All, ok, ok-injective, >>=-eq-ok, subst, sort_by, Member-sort_by, keep, ltb, is_some,
  List-cases, Option-cases, inl, inr,
}
use stock_analyser.Decimal.{Decimal}
use stock_analyser.Playground.Store.{Db, Listing, OrderRow, day_of}
use stock_analyser.Playground.Ledger.{held_at_start_of}
use stock_analyser.Playground.Ledger.Audit.{IsAudited}
use stock_analyser.Playground.Fill.{PlayCtx}
use stock_analyser.Playground.Passes.{
  PassResult, no_fills, move_error, raised, evaluate, session_close, active_orders, lock_of,
}
use stock_analyser.Playground.Passes.Parking.{restore_open, expire_market_orders}
use stock_analyser.Playground.Passes.Sessions.{
  IntradayCandle, earlier, candle_of, run_candles, run_symbols, intraday_pass, DayBar, distinct,
  day_candle, run_bars, eod_pass,
}
use stock_analyser.Playground.Passes.Invariants.{
  Serves, idle, Serves-held, Serves-IsAudited, raised-ok,
}
use stock_analyser.Playground.Passes.Service.{
  evaluate_rows-Serves, restore_open-Serves, expire_market_orders-Serves, close_day,
}

-- A candle that ends on the day or later.
abbrev pub IsLate : ℕ → ℕ → IntradayCandle → Type 0
IsLate day minutes ic = day ≤ day_of (ic.start + minutes * 60)

sort_by-All :
    (before : IntradayCandle → IntradayCandle → Bool) (P : IntradayCandle → Type 0)
    (cs : List IntradayCandle)
    → All P cs
    → All P (sort_by before cs)
sort_by-All before P cs h =
    Member-All P (sort_by before cs) (λ x m. All-Member P cs x h (Member-sort_by before x cs m))

on_day : (day : ℕ) → day ≤ day_of (session_close day)
on_day day = rw (close_day day) (omega arith)

run_candles-Serves :
    (day : ℕ) (a : Db) (cs : List IntradayCandle) (symbol minutes : ℕ) (prev adv : Option Decimal)
    (ctx : PlayCtx) (now : ℕ) (db : Db) (result : PassResult) {r : PassResult × Db}
    → All (IsLate day minutes) cs
    → Serves day a db
    → run_candles cs symbol minutes prev adv ctx now db result ≡ ok r
    → Serves day a r.1
unfolding run_candles evaluate
run_candles-Serves day a [] symbol minutes prev adv ctx now db result {r = r} late s h =
    subst (λ x. Serves day a x.1) (ok-injective (result, db) r h) s
run_candles-Serves day a (ic ∷ cs) symbol minutes prev adv ctx now db result {r = r} (l, late) s h =
    elim (List-cases (active_orders db (some symbol))) [
      | inl e ↦
          subst (λ x. Serves day a x.1) (ok-injective (result, db) r (rw (run_candles, e) at h)) s
      | inr (row, rows, e) ↦
          let finish = ic.start + minutes * 60 in
          let candle = candle_of ic finish in
          let (next, first, rest) =
            >>=-eq-ok
              (evaluate db ctx (row ∷ rows) candle (lock_of ctx candle prev) finish adv now result)
              _ (rw (run_candles, e) at h) in
          run_candles-Serves day a cs symbol minutes prev adv ctx now next.1 next.0 late
            (evaluate_rows-Serves day a (row ∷ rows) (row ∷ rows) [] db ctx candle
              (lock_of ctx candle prev) finish adv now result l s first)
            rest
    ]

run_symbols-Serves :
    (day : ℕ) (a : Db) (candles : List (ℕ × List IntradayCandle)) (minutes : ℕ)
    (prev adv : ℕ → Option Decimal) (ctx : PlayCtx) (now : ℕ) (db : Db) (result : PassResult)
    {r : PassResult × Db}
    → All (λ c. All (IsLate day minutes) c.1) candles
    → Serves day a db
    → run_symbols candles minutes prev adv ctx now db result ≡ ok r
    → Serves day a r.1
unfolding run_symbols
run_symbols-Serves day a [] minutes prev adv ctx now db result {r = r} late s h =
    subst (λ x. Serves day a x.1) (ok-injective (result, db) r h) s
run_symbols-Serves day a ((symbol, cs) ∷ rest) minutes prev adv ctx now db result (l, late) s h =
    let (next, first, later) =
      >>=-eq-ok
        (run_candles (sort_by earlier cs) symbol minutes (prev symbol) (adv symbol) ctx now db
          result)
        _ h in
    run_symbols-Serves day a rest minutes prev adv ctx now next.1 next.0 late
      (run_candles-Serves day a (sort_by earlier cs) symbol minutes (prev symbol) (adv symbol) ctx
        now db result (sort_by-All earlier (IsLate day minutes) cs l) s first)
      later

run_bars-Serves :
    (a : Db) (symbols : List ℕ) (day : ℕ) (bars : ℕ → Option DayBar) (adv : ℕ → Option Decimal)
    (ctx : PlayCtx) (now : ℕ) (db : Db) (result : PassResult) {r : PassResult × Db}
    → Serves day a db
    → run_bars symbols day bars adv ctx now db result ≡ ok r
    → Serves day a r.1
unfolding run_bars evaluate
run_bars-Serves a [] day bars adv ctx now db result {r = r} s h =
    subst (λ x. Serves day a x.1) (ok-injective (result, db) r h) s
run_bars-Serves a (symbol ∷ rest) day bars adv ctx now db result s h =
    elim (Option-cases (bars symbol)) [
      | inl e ↦ run_bars-Serves a rest day bars adv ctx now db result s (rw (run_bars, e) at h)
      | inr (bar, e) ↦
          let candle = day_candle day bar in
          let rows = active_orders db (some symbol) in
          let close = session_close day in
          let lock = lock_of ctx candle bar.prev_close in
          let (next, first, later) =
            >>=-eq-ok (evaluate db ctx rows candle lock close (adv symbol) now result) _
              (rw (run_bars, e) at h) in
          run_bars-Serves a rest day bars adv ctx now next.1 next.0
            (evaluate_rows-Serves day a rows rows [] db ctx candle lock close (adv symbol) now
              result (on_day day) s first)
            later
    ]

-- The intraday pass over candles that end on a day or later keeps the cash ledger auditable, and
-- never changes what any portfolio held at that day's start.
pub intraday_pass_keeps :
    (db : Db) (ctx : PlayCtx) (candles : List (ℕ × List IntradayCandle)) (minutes : ℕ)
    (prev adv : ℕ → Option Decimal) (now day : ℕ) (at : Listing) {result : PassResult} {db' : Db}
    → All (λ c. All (IsLate day minutes) c.1) candles
    → IsAudited db.cash_ledger
    → intraday_pass db ctx candles minutes prev adv now ≡ ok (result, db')
    → IsAudited db'.cash_ledger × (held_at_start_of db' at day ≡ held_at_start_of db at day)
unfolding intraday_pass
intraday_pass_keeps db ctx candles minutes prev adv now day at {result = result} {db' = db'} late
      audited h =
    let (next, first, rest) =
      >>=-eq-ok (run_symbols candles minutes prev adv ctx now db no_fills) _ h in
    let restored = restore_open next.1 (map (λ (c : ℕ × List IntradayCandle). c.0) candles) in
    let (done, opened_again, last) = >>=-eq-ok (raised move_error restored) _ rest in
    let s =
      run_symbols-Serves day db candles minutes prev adv ctx now db no_fills late idle first in
    let t : Serves day db done =
      restore_open-Serves day db next.1 _ s (raised-ok move_error restored opened_again) in
    let u : Serves day db db' =
      subst (λ x. Serves day db x.1) (ok-injective (next.0, done) (result, db') last) t in
    (Serves-IsAudited u audited, Serves-held at u)

-- The end-of-day pass keeps the cash ledger auditable, and never changes what any portfolio held at
-- the start of its day.
pub eod_pass_keeps :
    (db : Db) (ctx : PlayCtx) (day : ℕ) (bars : ℕ → Option DayBar) (adv : ℕ → Option Decimal)
    (now : ℕ) (at : Listing) {result : PassResult} {db' : Db}
    → IsAudited db.cash_ledger
    → eod_pass db ctx day bars adv now ≡ ok (result, db')
    → IsAudited db'.cash_ledger × (held_at_start_of db' at day ≡ held_at_start_of db at day)
unfolding eod_pass
eod_pass_keeps db ctx day bars adv now at {result = result} {db' = db'} audited h =
    let symbols =
      sort_by ltb (distinct (map (λ (r : OrderRow). r.listing.symbol) (active_orders db none))) in
    let covered = keep (λ s. is_some (bars s)) symbols in
    let (next, first, rest) = >>=-eq-ok (run_bars symbols day bars adv ctx now db no_fills) _ h in
    let (restored, h1, rest2) =
      >>=-eq-ok (raised move_error (restore_open next.1 covered)) _ rest in
    let expired = expire_market_orders restored covered (session_close day) now in
    let (done, h2, last) = >>=-eq-ok (raised move_error expired) _ rest2 in
    let s = run_bars-Serves db symbols day bars adv ctx now db no_fills idle first in
    let t =
      restore_open-Serves day db next.1 covered s
        (raised-ok move_error (restore_open next.1 covered) h1) in
    let v : Serves day db done =
      expire_market_orders-Serves day db restored covered (session_close day) now t
        (raised-ok move_error expired h2) in
    let u : Serves day db db' =
      subst (λ x. Serves day db x.1) (ok-injective (next.0, done) (result, db') last) v in
    (Serves-IsAudited u audited, Serves-held at u)
