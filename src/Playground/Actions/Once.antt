-- ===== src/Playground/Actions/Once.antt =====
-- A corporate action is applied to a portfolio once (backend/src/stk/playground/corpactions.py).
use stock_analyser.Prelude.{
  ℕ, ◌≡◌, inl, inr, refl, true, arith, ◌&&◌, not, Option, none, some, List, [], ◌∷◌, Result, ok,
  ◌>>=◌, ok-injective, >>=-eq-ok, Result-cases, Bool-cases, subst, ℤ,
}
use stock_analyser.Decimal.{Decimal, zero_d, led, ltd, eqd}
use stock_analyser.Positions.{Position, SplitResult, apply_split_or_bonus, dividend_cash}
use stock_analyser.Playground.Store.{Listing}
use stock_analyser.Playground.Ledger.{get_position, held_at_start_of}
use stock_analyser.Playground.Book.{nse}
use stock_analyser.Playground.Actions.{
  CorpAction, CaState, CaError, position_failed, reraise, is_recorded, skipped, apply_price_action,
  apply_cash_action, cash_part, price_part, is_price_action, is_cash_action, apply_to_holder,
}
use stock_analyser.Playground.Actions.Events.{
  reraise-ok, price-recorded, cash-recorded, Keeps, part-Keeps,
}

-- Whether a split is refused depends on its factor alone, and a dividend on its amount alone.
split_again :
    (p p' : Position) (vf : Decimal) {r : SplitResult}
    → apply_split_or_bonus p vf ≡ ok r
    → (r' : SplitResult) × (apply_split_or_bonus p' vf ≡ ok r')
unfolding apply_split_or_bonus
split_again p p' vf h = elim (Bool-cases (led vf zero_d)) [
  | inl e ↦ absurd (ground (arith, e, h))
  | inr e ↦ elim (Result-cases (apply_split_or_bonus p' vf)) [
    | inl x ↦ x
    | inr (x, f) ↦ absurd (ground (arith, e, f))
  ]
]

dividend_again :
    (n m : ℕ) (per_share : Decimal) {c : ℤ}
    → dividend_cash n per_share ≡ ok c
    → (c' : ℤ) × (dividend_cash m per_share ≡ ok c')
unfolding dividend_cash
dividend_again n m per_share h = elim (Bool-cases (ltd per_share zero_d)) [
  | inl e ↦ absurd (ground (arith, e, h))
  | inr e ↦ elim (Result-cases (dividend_cash m per_share)) [
    | inl x ↦ x
    | inr (x, f) ↦ absurd (ground (arith, e, f))
  ]
]

-- An action on record is skipped.
price-skips :
    (s : CaState) (a : CorpAction) (pf : Decimal) (pid now : ℕ) {r : SplitResult}
    → is_recorded s.events pid a.key ≡ true
    → apply_split_or_bonus
        (get_position s.db (record { portfolio_id = pid; exchange = nse; symbol = a.symbol }))
        a.volume_factor
      ≡ ok r
    → apply_price_action s a pf pid now ≡ ok (skipped s)
unfolding apply_price_action
price-skips s a pf pid now e h = rw h (rw e refl)

price-again :
    (s t : CaState) (a : CorpAction) (pf : Decimal) (pid now later : ℕ) {s' : CaState}
    → apply_price_action s a pf pid now ≡ ok s'
    → is_recorded t.events pid a.key ≡ true
    → apply_price_action t a pf pid later ≡ ok (skipped t)
unfolding apply_price_action
price-again s t a pf pid now later h known =
    let at : Listing = record { portfolio_id = pid; exchange = nse; symbol = a.symbol } in
    let first = apply_split_or_bonus (get_position s.db at) a.volume_factor in
    let (res, h1, rest) = >>=-eq-ok (reraise position_failed first) _ h in
    let (r, again) =
      split_again (get_position s.db at) (get_position t.db at) a.volume_factor
        (reraise-ok position_failed first h1) in
    price-skips t a pf pid later known again

cash-again :
    (s t : CaState) (a : CorpAction) (per_share : Decimal) (pid day : ℕ) {s' : CaState}
    → apply_cash_action s a per_share pid day ≡ ok s'
    → is_recorded t.events pid a.key ≡ true
    → apply_cash_action t a per_share pid day ≡ ok (skipped t)
unfolding apply_cash_action
cash-again s t a per_share pid day h known =
    let at : Listing = record { portfolio_id = pid; exchange = nse; symbol = a.symbol } in
    let first = dividend_cash (held_at_start_of s.db at day) per_share in
    let (cash, h1, rest) = >>=-eq-ok (reraise position_failed first) _ h in
    let (c, again) =
      dividend_again (held_at_start_of s.db at day) (held_at_start_of t.db at day) per_share
        (reraise-ok position_failed first h1) in
    rw again (rw known refl)

-- The tables of two states are the same.
abbrev pub SameTables : CaState → CaState → Type 0
SameTables a b = (b.db ≡ a.db) × (b.events ≡ a.events)

cash_part-again :
    (o : Option Decimal) (s t : CaState) (a : CorpAction) (pid day : ℕ) {s' : CaState}
    → cash_part o s a pid day ≡ ok s'
    → Keeps s' t
    → (t' : CaState) × (cash_part o t a pid day ≡ ok t') × SameTables t t'
unfolding Keeps
cash_part-again none s t a pid day h k = (t, refl, (refl, refl))
cash_part-again (some d) s t a pid day h k =
    elim (Bool-cases (is_cash_action a.action_type && not (eqd d zero_d))) [
      | inl e ↦
          let h' = rw e at h in
          (
            skipped t,
            rw e (cash-again s t a d pid day h' (k pid a.key (cash-recorded s a d pid day h'))),
            (refl, refl),
          )
      | inr e ↦ (t, rw e refl, (refl, refl))
    ]

part-again :
    (o : Option Decimal) (s t : CaState) (a : CorpAction) (pid day now later : ℕ) {s' : CaState}
    → price_part o s a pid day now ≡ ok s'
    → Keeps s' t
    → (t' : CaState) × (price_part o t a pid day later ≡ ok t') × SameTables t t'
unfolding Keeps
part-again none s t a pid day now later h k = cash_part-again a.dividend_per_share s t a pid day h k
part-again (some pf) s t a pid day now later h k =
    elim (Bool-cases (is_price_action a.action_type)) [
      | inl e ↦
          let h' = rw e at h in
          (
            skipped t,
            rw e (
                price-again s t a pf pid now later h'
                  (k pid a.key (price-recorded s a pf pid now h'))),
            (refl, refl),
          )
      | inr e ↦ rw e (cash_part-again a.dividend_per_share s t a pid day (rw e at h) k)
    ]

-- Actions applied one after the other, each to a holder, on a day, at a reading of the clock.
pub record Application : Type 0 where
  pub action : CorpAction
  pub holder : ℕ
  pub day : ℕ
  pub now : ℕ

unfoldable pub apply_in_turn : List Application → CaState → Result CaError CaState
apply_in_turn [] s = ok s
apply_in_turn (x ∷ xs) s =
    apply_to_holder s x.action x.holder x.day x.now >>= λ t. apply_in_turn xs t

apply_in_turn-Keeps :
    (xs : List Application) (s : CaState) {t : CaState} → apply_in_turn xs s ≡ ok t → Keeps s t
unfolding apply_in_turn apply_to_holder Keeps
apply_in_turn-Keeps [] s h p key known =
    subst (λ (x : CaState). is_recorded x.events p key ≡ true) (ok-injective _ _ h) known
apply_in_turn-Keeps (x ∷ xs) s h p key known =
    let (mid, h1, rest) = >>=-eq-ok (apply_to_holder s x.action x.holder x.day x.now) _ h in
    apply_in_turn-Keeps xs mid rest p key
      (part-Keeps x.action.price_factor s x.action x.holder x.day x.now h1 p key known)

-- After an action was applied to a holder, and whatever other actions were applied to whichever
-- holders since then, applying it to that holder again succeeds and changes no table: neither the
-- book nor the record of events. So one event has one application for a holder.
pub apply_to_holder_once :
    (s : CaState) (a : CorpAction) (pid day now later : ℕ) (others : List Application)
    {s' t : CaState}
    → apply_to_holder s a pid day now ≡ ok s'
    → apply_in_turn others s' ≡ ok t
    → (t' : CaState) × (apply_to_holder t a pid day later ≡ ok t') × SameTables t t'
unfolding apply_to_holder
apply_to_holder_once s a pid day now later others {s' = s'} {t = t} h k =
    part-again a.price_factor s t a pid day now later h (apply_in_turn-Keeps others s' k)
