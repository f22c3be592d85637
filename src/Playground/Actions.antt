-- ===== src/Playground/Actions.antt =====
-- backend/src/stk/playground/corpactions.py: corporate actions on paper holdings and resting
-- orders. The `corporate_actions` rows of the day are an argument. The key of an action and the
-- texts in it are numbered; the audit detail and the notes are left out. What a raised exception
-- leaves behind is not modelled: the run then has no result.
pub mod Events
pub mod Once
use stock_analyser.Prelude.{
  ℕ, zero, suc, ◌+◌, ◌*◌, Bool, true, false, ◌&&◌, ◌||◌, not, if◌then◌else◌, ◌==◌, ltb, Option,
  none, some, List, [], ◌∷◌, ◌++◌, contains, any_of, ℤ, pos, ◌+ℤ◌, ltb_ℤ, Result, ok, err, ◌>>=◌,
  ◌>>◌,
}
use stock_analyser.Decimal.{Decimal, of_nat, zero_d, ◌*d◌, eqd, floor_nat}
use stock_analyser.Money.{to_money, of_money}
use stock_analyser.Positions.{
  Position, PositionError, SplitResult, apply_split_or_bonus, dividend_cash,
}
use stock_analyser.Orders.{Order, OrderStatus, cancelled, is_active}
use stock_analyser.Playground.Store.{Listing, Db, OrderRow, PositionRow, dividend}
use stock_analyser.Playground.Ledger.{get_position, save_position, add_cash, held_at_start_of}
use stock_analyser.Playground.Book.{BookError, nse, has_id, update_order, set_status}

pub data ActionType : Type 0 where
  bonus split consolidation cash_dividend distribution other_action : ActionType

-- A parsed row of the day. `key` numbers `_key(row)`, which is the row's economic identity.
pub record CorpAction : Type 0 where
  pub key : ℕ
  pub symbol : ℕ
  pub action_type : ActionType
  pub price_factor : Option Decimal
  pub volume_factor : Decimal
  pub dividend_per_share : Option Decimal

-- `PRICE_ACTIONS` and `CASH_ACTIONS`
abbrev pub is_price_action : ActionType → Bool
is_price_action bonus = true
is_price_action split = true
is_price_action consolidation = true
is_price_action _ = false

abbrev pub is_cash_action : ActionType → Bool
is_cash_action cash_dividend = true
is_cash_action distribution = true
is_cash_action _ = false

pub record CorpActionResult : Type 0 where
  pub splits_applied : ℕ
  pub orders_rescaled : ℕ
  pub dividends_credited : ℕ
  pub dividend_total : ℤ
  pub skipped_already_applied : ℕ

-- The tables, with `position_ca_events` as its pairs of a portfolio and a key.
pub record CaState : Type 0 where
  pub db : Db
  pub events : List (ℕ × ℕ)
  pub result : CorpActionResult

pub data CaError : Type 0 where
  position_failed : PositionError → CaError
  status_failed : BookError → CaError

abbrev pub reraise : {E A : Type 0} → (E → CaError) → Result E A → Result CaError A
reraise f (ok a) = ok a
reraise f (err e) = err (f e)

unfoldable pub is_recorded : List (ℕ × ℕ) → ℕ → ℕ → Bool
is_recorded [] pid key = false
is_recorded (e ∷ es) pid key = (e.0 == pid && e.1 == key) || is_recorded es pid key

-- `(Decimal(v) * price_factor).quantize(PAISE, ROUND_HALF_UP)` of a price that is there
abbrev pub scale : Decimal → Option Decimal → Option Decimal
scale price_factor none = none
scale price_factor (some v) = some (of_money (to_money (v *d price_factor)))

abbrev pub new_qty : Decimal → OrderRow → ℕ
new_qty volume_factor r = floor_nat (of_nat r.order.qty *d volume_factor)

-- The `UPDATE` of a rescaled order.
abbrev pub rescale_row : Decimal → ℕ → OrderRow → OrderRow
rescale_row price_factor qty r =
    let o = r.order in
    record r {
      order = record o {
        qty = qty;
        limit_price = scale price_factor o.limit_price;
        trigger_price = scale price_factor o.trigger_price;
      };
      bracket_stop = scale price_factor r.bracket_stop;
      bracket_target = scale price_factor r.bracket_target;
    }

-- The `SELECT` of `_rescale_orders`, oldest row first.
abbrev pub is_resting : ℕ → ℕ → OrderRow → Bool
is_resting pid symbol r =
    r.listing.portfolio_id == pid && (r.listing.symbol == symbol && is_active r.order.status)

unfoldable pub resting_orders : List OrderRow → ℕ → ℕ → List OrderRow
resting_orders [] pid symbol = []
resting_orders (r ∷ rs) pid symbol =
    resting_orders rs pid symbol ++ (if is_resting pid symbol r then r ∷ [] else [])

-- The body of its loop: the new tables, and 1 for a rescaled order.
unfoldable pub rescale_order : Db → OrderRow → Decimal → Decimal → ℕ → Result CaError (ℕ × Db)
rescale_order db r price_factor volume_factor now =
    let qty = new_qty volume_factor r in
    if ltb qty 1
    then (do
      db' ← reraise status_failed (set_status db r.order.order_id cancelled (some now))
      ok (0, db'))
    else ok (
      1,
      record db { orders = update_order db.orders r.order.order_id (rescale_row price_factor qty) },
    )

unfoldable pub rescale_all : List OrderRow → Db → Decimal → Decimal → ℕ → Result CaError (ℕ × Db)
unfolding rescale_order
rescale_all [] db price_factor volume_factor now = ok (0, db)
rescale_all (r ∷ rs) db price_factor volume_factor now = do
  first ← rescale_order db r price_factor volume_factor now
  rest ← rescale_all rs first.1 price_factor volume_factor now
  ok (first.0 + rest.0, rest.1)

unfoldable pub rescale_orders : Db → ℕ → ℕ → Decimal → Decimal → ℕ → Result CaError (ℕ × Db)
unfolding resting_orders rescale_all
rescale_orders db pid symbol price_factor volume_factor now =
    rescale_all (resting_orders db.orders pid symbol) db price_factor volume_factor now

abbrev pub skipped : CaState → CaState
skipped s =
    let r = s.result in
    record s { result = record r { skipped_already_applied = suc r.skipped_already_applied } }

-- `if pos.qty: save_position(...)`
abbrev pub save_if_held : Db → Listing → Position → Position → Db
save_if_held db at old new = if old.qty == 0 then db else save_position db at new

-- A split, bonus or consolidation for one holder.
unfoldable pub apply_price_action : CaState → CorpAction → Decimal → ℕ → ℕ → Result CaError CaState
unfolding is_recorded
apply_price_action s action price_factor pid now = do
  let at : Listing = record { portfolio_id = pid; exchange = nse; symbol = action.symbol }
  let held = get_position s.db at
  res ← reraise position_failed (apply_split_or_bonus held action.volume_factor)
  let saved = save_if_held s.db at held res.position
  let rescaled = rescale_orders saved pid action.symbol price_factor action.volume_factor now
  if is_recorded s.events pid action.key then ok (skipped s) else (do
    done ← rescaled
    let r = s.result
    ok (record {
      db = done.1;
      events = (pid, action.key) ∷ s.events;
      result = record r {
        splits_applied = suc r.splits_applied;
        orders_rescaled = r.orders_rescaled + done.0;
      };
    }))

-- `if cash > 0: ...`
abbrev pub credit : CaState → ℕ → ℤ → CaState
credit s pid cash =
    let r = s.result in
    if ltb_ℤ (pos 0) cash
    then record s {
      db = add_cash s.db pid dividend cash none;
      result = record r {
        dividends_credited = suc r.dividends_credited;
        dividend_total = r.dividend_total +ℤ cash;
      };
    }
    else s

-- A dividend for one holder.
unfoldable pub apply_cash_action : CaState → CorpAction → Decimal → ℕ → ℕ → Result CaError CaState
unfolding is_recorded
apply_cash_action s action per_share pid day = do
  let at : Listing = record { portfolio_id = pid; exchange = nse; symbol = action.symbol }
  cash ← reraise position_failed (dividend_cash (held_at_start_of s.db at day) per_share)
  if is_recorded s.events pid action.key
      then ok (skipped s)
      else ok (credit (record s { events = (pid, action.key) ∷ s.events }) pid cash)

-- `elif kind in CASH_ACTIONS and row["dividend_per_share"]`: a dividend of 0 does nothing.
abbrev pub cash_part : Option Decimal → CaState → CorpAction → ℕ → ℕ → Result CaError CaState
cash_part none s action pid day = ok s
cash_part (some per_share) s action pid day =
    let applied = apply_cash_action s action per_share pid day in
    if is_cash_action action.action_type && not (eqd per_share zero_d) then applied else ok s

abbrev pub price_part : Option Decimal → CaState → CorpAction → ℕ → ℕ → ℕ → Result CaError CaState
price_part none s action pid day now = cash_part action.dividend_per_share s action pid day
price_part (some pf) s action pid day now =
    let applied = apply_price_action s action pf pid now in
    if is_price_action action.action_type
    then applied
    else cash_part action.dividend_per_share s action pid day

-- The body of the loop over the holders.
unfoldable pub apply_to_holder : CaState → CorpAction → ℕ → ℕ → ℕ → Result CaError CaState
unfolding apply_price_action apply_cash_action
apply_to_holder s action pid day now = price_part action.price_factor s action pid day now

unfoldable pub apply_to_holders : List ℕ → CaState → CorpAction → ℕ → ℕ → Result CaError CaState
unfolding apply_to_holder
apply_to_holders [] s action day now = ok s
apply_to_holders (pid ∷ pids) s action day now = do
  next ← apply_to_holder s action pid day now
  apply_to_holders pids next action day now

-- `SELECT DISTINCT portfolio_id`: those that hold the symbol or have an active order on it.
unfoldable pub holders_of : Db → ℕ → List ℕ → List ℕ
holders_of db symbol [] = []
holders_of db symbol (pid ∷ pids) =
    if any_of
        (λ (p : PositionRow).
          p.listing.portfolio_id == pid && (p.listing.symbol == symbol && ltb 0 p.position.qty))
        db.positions
      || any_of (is_resting pid symbol) db.orders
    then pid ∷ holders_of db symbol pids
    else holders_of db symbol pids

abbrev pub nothing_applied : CorpActionResult
nothing_applied = record {
  splits_applied = 0;
  orders_rescaled = 0;
  dividends_credited = 0;
  dividend_total = pos 0;
  skipped_already_applied = 0;
}

-- One round of the loop over the actions. The first argument says whether the key was seen.
-- `pids` are the ids of the portfolios.
unfoldable pub apply_action : Bool → CaState → CorpAction → List ℕ → ℕ → ℕ → Result CaError CaState
unfolding holders_of apply_to_holders
apply_action true s action pids day now = ok s
apply_action false s action pids day now =
    apply_to_holders (holders_of s.db action.symbol pids) s action day now

unfoldable pub apply_actions :
    List CorpAction → List ℕ → CaState → List ℕ → ℕ → ℕ → Result CaError CaState
unfolding apply_action
apply_actions [] seen s pids day now = ok s
apply_actions (action ∷ actions) seen s pids day now = do
  next ← apply_action (contains action.key seen) s action pids day now
  apply_actions actions (action.key ∷ seen) next pids day now

-- `actions` are the day's parsed rows in the order of their ids.
unfoldable pub apply_corporate_actions :
    List CorpAction → Db → List (ℕ × ℕ) → List ℕ → ℕ → ℕ → Result CaError CaState
unfolding apply_actions
apply_corporate_actions actions db events pids day now =
    apply_actions actions [] (record { db = db; events = events; result = nothing_applied }) pids
      day now
