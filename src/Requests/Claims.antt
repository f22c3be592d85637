-- ===== src/Requests/Claims.antt =====
-- Who gets a request: `claim_next` of backend/src/stk/store/db/repos/ai_requests.py.
use stock_analyser.Prelude.{
  ℕ, ◌≡◌, ◌≢◌, ◌⊎◌, ◌==◌, ==_iff, inl, inr, refl, true, false, arith, Bool, if◌then◌else◌, ◌&&◌,
  Option, none, some, Option-cases, List, [], ◌∷◌, Bool-cases, ap, sym, ◌∙◌, subst, Member,
}
use stock_analyser.Requests.{
  AiRequest, RequestStatus, queued, running, start_row, request_of, is_queued, kind_is, is_earlier,
  oldest_queued, start_request, claim_next, earlier_of,
}

queued_now : (s : RequestStatus) → is_queued s ≡ true → s ≡ queued
queued_now s h = ground arith

oldest_step :
    (b : Bool) (x r : AiRequest) (o : Option AiRequest)
    → (if b then earlier_of x o else o) ≡ some r
    → ((b ≡ true) × (r ≡ x)) ⊎ (o ≡ some r)
oldest_step true x r none h = ground (arith, h)
oldest_step true x r (some s) h = ground (arith, h)
oldest_step false x r o h = inr h

some_injective : (a b : AiRequest) → some a ≡ some b → a ≡ b
some_injective a b h = cc

earlier_irrefl : (a : AiRequest) → is_earlier a a ≡ false
unfolding is_earlier
earlier_irrefl a = ground arith

earlier_asym : (a b : AiRequest) → is_earlier a b ≡ true → is_earlier b a ≡ false
unfolding is_earlier
earlier_asym a b h = ground arith

not_earlier_trans :
    (a b c : AiRequest) → is_earlier a b ≡ false → is_earlier b c ≡ false → is_earlier a c ≡ false
unfolding is_earlier
not_earlier_trans a b c h k = ground arith

oldest_not_after :
    (b : Bool) (x r : AiRequest) (o : Option AiRequest)
    → (if b then earlier_of x o else o) ≡ some r
    → (b ≡ true → is_earlier x r ≡ false) × ((s : AiRequest) → o ≡ some s → is_earlier s r ≡ false)
oldest_not_after true x r none h =
    (λ _. subst (λ y. is_earlier x y ≡ false) (some_injective x r h) (earlier_irrefl x), λ s e. cc)
oldest_not_after true x r (some t) h = elim (Bool-cases (is_earlier t x)) [
  | inl e ↦
      let p : t ≡ r = some_injective t r (rw e at h) in
      (
        λ _. subst (λ y. is_earlier x y ≡ false) p (earlier_asym t x e),
        λ s f.
            subst (λ y. is_earlier y r ≡ false) (sym p ∙ some_injective t s f) (earlier_irrefl r),
      )
  | inr e ↦
      let p : x ≡ r = some_injective x r (rw e at h) in
      (
        λ _. subst (λ y. is_earlier x y ≡ false) p (earlier_irrefl x),
        λ s f.
            subst (λ y. is_earlier y r ≡ false) (some_injective t s f)
              (subst (λ y. is_earlier t y ≡ false) p e),
      )
]
oldest_not_after false x r o h = (
  λ e. cc,
  λ s e. subst (λ y. is_earlier s y ≡ false) (some_injective s r (sym e ∙ h)) (earlier_irrefl s),
)

none_here :
    (b : Bool) (x : AiRequest) (o : Option AiRequest)
    → (if b then earlier_of x o else o) ≡ none
    → (b ≡ false) × (o ≡ none)
none_here true x none h = ground (arith, h)
none_here true x (some s) h = ground (arith, h)
none_here false x o h = (refl, h)

pub oldest_queued-is :
    (rows : List AiRequest) (kind : Option ℕ) {r : AiRequest}
    → oldest_queued rows kind ≡ some r
    → (Member r rows) × (r.status ≡ queued) × (kind_is kind r ≡ true)
unfolding oldest_queued
oldest_queued-is [] kind h = cc
oldest_queued-is (x ∷ rows) kind {r = r} h =
    elim (oldest_step (is_queued x.status && kind_is kind x) x r (oldest_queued rows kind) h) [
      | inl (b, e) ↦
          (inl e, rw e (queued_now x.status (ground (arith, b))), rw e (ground (arith, b)))
      | inr e ↦ let (m, q, k) = oldest_queued-is rows kind e in (inr m, q, k)
    ]

pub oldest_queued-none :
    (rows : List AiRequest) (kind : Option ℕ) (s : AiRequest)
    → oldest_queued rows kind ≡ none
    → Member s rows
    → (is_queued s.status && kind_is kind s) ≡ false
unfolding oldest_queued
oldest_queued-none [] kind s h m = absurd m
oldest_queued-none (x ∷ rows) kind s h (inl e) =
    rw e (none_here (is_queued x.status && kind_is kind x) x (oldest_queued rows kind) h).0
oldest_queued-none (x ∷ rows) kind s h (inr m) =
    oldest_queued-none rows kind s
      (none_here (is_queued x.status && kind_is kind x) x (oldest_queued rows kind) h).1 m

oldest_queued-first :
    (rows : List AiRequest) (kind : Option ℕ) (r s : AiRequest)
    → oldest_queued rows kind ≡ some r
    → Member s rows
    → (is_queued s.status && kind_is kind s) ≡ true
    → is_earlier s r ≡ false
unfolding oldest_queued
oldest_queued-first [] kind r s h m q = absurd m
oldest_queued-first (x ∷ rows) kind r s h (inl e) q = rw e (
    (oldest_not_after (is_queued x.status && kind_is kind x) x r (oldest_queued rows kind) h).0
      (rw e at q))
oldest_queued-first (x ∷ rows) kind r s h (inr m) q =
    elim (Option-cases (oldest_queued rows kind)) [
      | inl e ↦ absurd (ground (arith, oldest_queued-none rows kind s e m, q))
      | inr (t, e) ↦ not_earlier_trans s t r (oldest_queued-first rows kind t s e m q) (
          (oldest_not_after (is_queued x.status && kind_is kind x) x r (oldest_queued rows kind)
              h).1
            t e)
    ]

-- No two rows of the list have the same id.
abbrev pub HasKeys : List AiRequest → Type 0
HasKeys [] = Unit
HasKeys (r ∷ rs) = ((s : AiRequest) → Member s rs → s.request_id ≢ r.request_id) × HasKeys rs

-- A queued request as a claim leaves it.
abbrev pub started : ℕ → AiRequest → AiRequest
started now r = record {
  request_id = r.request_id;
  kind = r.kind;
  business_date = r.business_date;
  status = running;
  force = r.force;
  requested_by = r.requested_by;
  requested_at = r.requested_at;
  started_at = some now;
  finished_at = r.finished_at;
  run_id = r.run_id;
  error = r.error;
}

-- The rows behind a claim: the claimed one has started, the others are as they were.
abbrev pub StartsOnly : List AiRequest → AiRequest → ℕ → List AiRequest → Type 0
StartsOnly [] r now rows' = rows' ≡ []
StartsOnly (x ∷ xs) r now [] = ⊥
StartsOnly (x ∷ xs) r now (y ∷ ys) =
    (x.request_id ≡ r.request_id → y ≡ started now x)
    × (x.request_id ≢ r.request_id → y ≡ x)
    × StartsOnly xs r now ys

start_row-started :
    (id now : ℕ) (r : AiRequest)
    → r.request_id ≡ id
    → r.status ≡ queued
    → start_row id now r ≡ started now r
start_row-started id now r e q = let same = (==_iff r.request_id id).1 e in rw (same, q) refl

start_row-other : (id now : ℕ) (r : AiRequest) → r.request_id ≢ id → start_row id now r ≡ r
start_row-other id now r apart =
    let other : (r.request_id == id) ≡ false = ground (arith, apart) in rw other refl

start_request-none :
    (rows : List AiRequest) (r : AiRequest) (now : ℕ)
    → ((s : AiRequest) → Member s rows → s.request_id ≢ r.request_id)
    → StartsOnly rows r now (start_request rows r.request_id now)
unfolding start_request
start_request-none [] r now h = refl
start_request-none (x ∷ xs) r now h = (
  λ e. absurd (h x (inl refl) e),
  λ apart. start_row-other r.request_id now x apart,
  start_request-none xs r now (λ s m. h s (inr m)),
)

-- In a keyed table a queued request is started, and found again.
start_request-StartsOnly :
    (rows : List AiRequest) (r : AiRequest) (now : ℕ)
    → HasKeys rows
    → Member r rows
    → r.status ≡ queued
    → StartsOnly rows r now (start_request rows r.request_id now)
      × (request_of (start_request rows r.request_id now) r.request_id ≡ some (started now r))
unfolding start_request request_of
start_request-StartsOnly [] r now keys m q = absurd m
start_request-StartsOnly (x ∷ xs) r now (k, keys) (inl e) q =
    let same : x.request_id ≡ r.request_id = ap (λ (t : AiRequest). t.request_id) (sym e) in
    let waits : x.status ≡ queued = ap (λ (t : AiRequest). t.status) (sym e) ∙ q in
    let own = start_row-started r.request_id now x same waits in
    let found : (x.request_id == r.request_id) ≡ true = (==_iff x.request_id r.request_id).1 same in
    (
      (
        λ z. own,
        λ apart. absurd (apart same),
        start_request-none xs r now (λ s m z. k s m (z ∙ sym same)),
      ),
      rw (own, found) (ap (λ t. some (started now t)) (sym e)),
    )
start_request-StartsOnly (x ∷ xs) r now (k, keys) (inr m) q =
    let (only, found) = start_request-StartsOnly xs r now keys m q in
    let apart : x.request_id ≢ r.request_id = λ e. k r m (sym e) in
    let other : (x.request_id == r.request_id) ≡ false = ground (arith, apart) in
    (
      (λ e. absurd (apart e), λ z. start_row-other r.request_id now x z, only),
      rw (start_row-other r.request_id now x apart) (rw other found),
    )

-- Undisturbed, in a table whose ids differ, `claim_next` answers with nothing and changes nothing
-- exactly where no queued request of the kind waits. Otherwise it answers with one that was queued,
-- now running since `now`; none of that kind was queued before it, and no other row changes.
pub claim_next_first :
    (rows : List AiRequest) (kind : Option ℕ) (now : ℕ)
    → HasKeys rows
    → ((claim_next [] rows kind now ≡ (none, rows))
        × ((s : AiRequest) → Member s rows → (is_queued s.status && kind_is kind s) ≡ false))
      ⊎ ((r : AiRequest) × (rows' : List AiRequest) × (claim_next [] rows kind now
            ≡ (some (started now r), rows'))
          × StartsOnly rows r now rows'
          × Member r rows
          × (r.status ≡ queued)
          × (kind_is kind r ≡ true)
          × ((s : AiRequest)
              → Member s rows
              → (is_queued s.status && kind_is kind s) ≡ true
              → is_earlier s r ≡ false))
unfolding claim_next
claim_next_first rows kind now keys = elim (Option-cases (oldest_queued rows kind)) [
  | inl e ↦ inl (rw (claim_next, e) refl, λ s m. oldest_queued-none rows kind s e m)
  | inr (r, e) ↦
      let (m, q, k) = oldest_queued-is rows kind e in
      let (only, found) = start_request-StartsOnly rows r now keys m q in
      inr (
        r,
        start_request rows r.request_id now,
        rw (claim_next, e, found) refl,
        only,
        m,
        q,
        k,
        λ s n w. oldest_queued-first rows kind r s e n w,
      )
]
