-- ===== src/Playground/Actions/Events.antt =====
-- The record of applied corporate actions, the `position_ca_events` of
-- backend/src/stk/playground/corpactions.py: an application stands on it and stays.
use stock_analyser.Prelude.{
  ℕ, ◌≡◌, inl, inr, true, arith, ◌&&◌, not, Option, none, some, List, ◌∷◌, Result, ok, err,
  ok-injective, >>=-eq-ok, Bool-cases, subst, ℤ, pos, ltb_ℤ,
}
use stock_analyser.Decimal.{Decimal, zero_d, eqd}
use stock_analyser.Positions.{apply_split_or_bonus, dividend_cash}
use stock_analyser.Playground.Store.{Listing}
use stock_analyser.Playground.Ledger.{get_position, held_at_start_of}
use stock_analyser.Playground.Book.{nse}
use stock_analyser.Playground.Actions.{
  CorpAction, CaState, CaError, position_failed, reraise, is_recorded, skipped, credit,
  save_if_held, rescale_orders, apply_price_action, apply_cash_action, cash_part, price_part,
  is_price_action, is_cash_action,
}

-- What is on record in `s` is on record in `t`.
unfoldable pub Keeps : CaState → CaState → Type 0
Keeps s t =
    (pid key : ℕ) → is_recorded s.events pid key ≡ true → is_recorded t.events pid key ≡ true

pub reraise-ok :
    {E A : Type 0} (f : E → CaError) (m : Result E A) {a : A} → reraise f m ≡ ok a → m ≡ ok a
reraise-ok f (ok b) h = cc
reraise-ok f (err e) h = cc

recorded_now :
    (events : List (ℕ × ℕ)) (pid key : ℕ) → is_recorded ((pid, key) ∷ events) pid key ≡ true
unfolding is_recorded
recorded_now events pid key = ground arith

-- After a run the action is on record.
pub price-recorded :
    (s : CaState) (a : CorpAction) (pf : Decimal) (pid now : ℕ) {s' : CaState}
    → apply_price_action s a pf pid now ≡ ok s'
    → is_recorded s'.events pid a.key ≡ true
unfolding apply_price_action
price-recorded s a pf pid now {s' = s'} h =
    let at : Listing = record { portfolio_id = pid; exchange = nse; symbol = a.symbol } in
    let (res, h1, rest) =
      >>=-eq-ok
        (reraise position_failed (apply_split_or_bonus (get_position s.db at) a.volume_factor)) _
        h in
    elim (Bool-cases (is_recorded s.events pid a.key)) [
      | inl e ↦
          subst (λ (x : CaState). is_recorded x.events pid a.key ≡ true)
            (ok-injective (skipped s) s' (rw e at rest)) e
      | inr e ↦
          let saved = save_if_held s.db at (get_position s.db at) res.position in
          let (done, h2, last) =
            >>=-eq-ok (rescale_orders saved pid a.symbol pf a.volume_factor now) _ (rw e at rest) in
          subst (λ (x : CaState). is_recorded x.events pid a.key ≡ true) (ok-injective _ s' last)
            (recorded_now s.events pid a.key)
    ]

credited :
    (s : CaState) (pid : ℕ) (cash : ℤ) (p key : ℕ)
    → is_recorded s.events p key ≡ true
    → is_recorded (credit s pid cash).events p key ≡ true
credited s pid cash p key h = elim (Bool-cases (ltb_ℤ (pos 0) cash)) [
  | inl e ↦ rw e h
  | inr e ↦ rw e h
]

pub cash-recorded :
    (s : CaState) (a : CorpAction) (per_share : Decimal) (pid day : ℕ) {s' : CaState}
    → apply_cash_action s a per_share pid day ≡ ok s'
    → is_recorded s'.events pid a.key ≡ true
unfolding apply_cash_action
cash-recorded s a per_share pid day {s' = s'} h =
    let at : Listing = record { portfolio_id = pid; exchange = nse; symbol = a.symbol } in
    let (cash, h1, rest) =
      >>=-eq-ok (reraise position_failed (dividend_cash (held_at_start_of s.db at day) per_share)) _
        h in
    elim (Bool-cases (is_recorded s.events pid a.key)) [
      | inl e ↦
          subst (λ (x : CaState). is_recorded x.events pid a.key ≡ true)
            (ok-injective (skipped s) s' (rw e at rest)) e
      | inr e ↦
          let claimed : CaState = record s { events = (pid, a.key) ∷ s.events } in
          subst (λ (x : CaState). is_recorded x.events pid a.key ≡ true)
            (ok-injective (credit claimed pid cash) s' (rw e at rest))
            (credited claimed pid cash pid a.key (recorded_now s.events pid a.key))
    ]

-- No application strikes an event off the record.
recorded_later :
    (events : List (ℕ × ℕ)) (e : ℕ × ℕ) (pid key : ℕ)
    → is_recorded events pid key ≡ true
    → is_recorded (e ∷ events) pid key ≡ true
unfolding is_recorded
recorded_later events e pid key h = ground (arith, h)

price-Keeps :
    (s : CaState) (a : CorpAction) (pf : Decimal) (pid now : ℕ) {s' : CaState}
    → apply_price_action s a pf pid now ≡ ok s'
    → Keeps s s'
unfolding apply_price_action Keeps
price-Keeps s a pf pid now {s' = s'} h p key known =
    let at : Listing = record { portfolio_id = pid; exchange = nse; symbol = a.symbol } in
    let (res, h1, rest) =
      >>=-eq-ok
        (reraise position_failed (apply_split_or_bonus (get_position s.db at) a.volume_factor)) _
        h in
    elim (Bool-cases (is_recorded s.events pid a.key)) [
      | inl e ↦
          subst (λ (x : CaState). is_recorded x.events p key ≡ true)
            (ok-injective (skipped s) s' (rw e at rest)) known
      | inr e ↦
          let saved = save_if_held s.db at (get_position s.db at) res.position in
          let (done, h2, last) =
            >>=-eq-ok (rescale_orders saved pid a.symbol pf a.volume_factor now) _ (rw e at rest) in
          subst (λ (x : CaState). is_recorded x.events p key ≡ true) (ok-injective _ s' last)
            (recorded_later s.events (pid, a.key) p key known)
    ]

cash-Keeps :
    (s : CaState) (a : CorpAction) (per_share : Decimal) (pid day : ℕ) {s' : CaState}
    → apply_cash_action s a per_share pid day ≡ ok s'
    → Keeps s s'
unfolding apply_cash_action Keeps
cash-Keeps s a per_share pid day {s' = s'} h p key known =
    let at : Listing = record { portfolio_id = pid; exchange = nse; symbol = a.symbol } in
    let (cash, h1, rest) =
      >>=-eq-ok (reraise position_failed (dividend_cash (held_at_start_of s.db at day) per_share)) _
        h in
    elim (Bool-cases (is_recorded s.events pid a.key)) [
      | inl e ↦
          subst (λ (x : CaState). is_recorded x.events p key ≡ true)
            (ok-injective (skipped s) s' (rw e at rest)) known
      | inr e ↦
          let claimed : CaState = record s { events = (pid, a.key) ∷ s.events } in
          subst (λ (x : CaState). is_recorded x.events p key ≡ true)
            (ok-injective (credit claimed pid cash) s' (rw e at rest))
            (credited claimed pid cash p key (recorded_later s.events (pid, a.key) p key known))
    ]

cash_part-Keeps :
    (o : Option Decimal) (s : CaState) (a : CorpAction) (pid day : ℕ) {s' : CaState}
    → cash_part o s a pid day ≡ ok s'
    → Keeps s s'
unfolding Keeps
cash_part-Keeps none s a pid day h p key known =
    subst (λ (x : CaState). is_recorded x.events p key ≡ true) (ok-injective _ _ h) known
cash_part-Keeps (some d) s a pid day h p key known =
    elim (Bool-cases (is_cash_action a.action_type && not (eqd d zero_d))) [
      | inl e ↦ cash-Keeps s a d pid day (rw e at h) p key known
      | inr e ↦
          subst (λ (x : CaState). is_recorded x.events p key ≡ true) (ok-injective _ _ (rw e at h))
            known
    ]

pub part-Keeps :
    (o : Option Decimal) (s : CaState) (a : CorpAction) (pid day now : ℕ) {s' : CaState}
    → price_part o s a pid day now ≡ ok s'
    → Keeps s s'
unfolding Keeps
part-Keeps none s a pid day now h p key known =
    cash_part-Keeps a.dividend_per_share s a pid day h p key known
part-Keeps (some pf) s a pid day now h p key known =
    elim (Bool-cases (is_price_action a.action_type)) [
      | inl e ↦ price-Keeps s a pf pid now (rw e at h) p key known
      | inr e ↦ cash_part-Keeps a.dividend_per_share s a pid day (rw e at h) p key known
    ]
