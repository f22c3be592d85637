-- ===== src/Requests/Draining.antt =====
-- The loop of `drain` in backend/src/stk/ai/worker.py ends, and leaves nothing waiting.
use stock_analyser.Prelude.{
  ℕ, zero, suc, ◌+◌, ◌≤◌, ◌≡◌, refl, ap, sym, ◌∙◌, inl, inr, Bool, true, false, ◌&&◌, ◌==◌, Option,
  none, some, List, [], ◌∷◌, ◌++◌, length, length-append, arith, Member, Bool-cases, Option-cases,
  Result, ok, err,
}
use stock_analyser.Requests.{
  AiRequest, RequestStatus, queued, failed, is_queued, kind_is, review_kind, lab_kind,
  oldest_queued, start_row, start_request, request_of, claim_next, finish_row, finish_rows,
}
use stock_analyser.Requests.Claims.{oldest_queued-is, oldest_queued-none}
use stock_analyser.Requests.Worker.{
  JobStatus, JobAnswer, Execute, final_of, or_none, close_with, outcome_of, run_one, or_claim,
  claim, Outcomes, after_claim, drain,
}

abbrev weight : Bool → ℕ
weight true = 1
weight false = 0

-- How many requests wait.
unfoldable pub count_queued : List AiRequest → ℕ
count_queued [] = 0
count_queued (r ∷ rs) = weight (is_queued r.status) + count_queued rs

start_row-fewer :
    (id now : ℕ) (r : AiRequest)
    → weight (is_queued (start_row id now r).status) ≤ weight (is_queued r.status)
start_row-fewer id now r = ground arith

start_request-fewer :
    (rows : List AiRequest) (id now : ℕ)
    → count_queued (start_request rows id now) ≤ count_queued rows
unfolding count_queued start_request
start_request-fewer [] id now = omega arith
start_request-fewer (r ∷ rs) id now =
    omega (arith, start_row-fewer id now r, start_request-fewer rs id now)

started :
    (id now : ℕ) (r : AiRequest)
    → r.status ≡ queued
    → r.request_id ≡ id
    → suc (weight (is_queued (start_row id now r).status)) ≤ weight (is_queued r.status)
started id now r q e = let waits : is_queued r.status ≡ true = rw q refl in ground arith

start_request-less :
    (rows : List AiRequest) (id now : ℕ) (r : AiRequest)
    → Member r rows
    → r.status ≡ queued
    → r.request_id ≡ id
    → suc (count_queued (start_request rows id now)) ≤ count_queued rows
unfolding count_queued start_request
start_request-less [] id now r m q e = absurd m
start_request-less (x ∷ rs) id now r (inl s) q e = omega (
  arith,
  started id now x (ap (λ (t : AiRequest). t.status) (sym s) ∙ q)
      (ap (λ (t : AiRequest). t.request_id) (sym s) ∙ e),
  start_request-fewer rs id now,
)
start_request-less (x ∷ rs) id now r (inr m) q e =
    omega (arith, start_row-fewer id now x, start_request-less rs id now r m q e)

start_row_id : (id now : ℕ) (r : AiRequest) → (start_row id now r).request_id ≡ r.request_id
start_row_id id now r = ground arith

-- A started request is found again.
request_of-started :
    (rows : List AiRequest) (id now : ℕ) (r : AiRequest)
    → Member r rows
    → r.request_id ≡ id
    → (req : AiRequest) × (request_of (start_request rows id now) id ≡ some req)
unfolding start_request request_of
request_of-started [] id now r m e = absurd m
request_of-started (x ∷ rs) id now r m e =
    elim (Bool-cases ((start_row id now x).request_id == id)) [
      | inl t ↦ (start_row id now x, rw t refl)
      | inr t ↦ elim m [
        | inl s ↦
            let here : x.request_id ≡ id = ap (λ (u : AiRequest). u.request_id) (sym s) ∙ e in
            let kept = start_row_id id now x in absurd (ground arith)
        | inr k ↦ rw t (request_of-started rs id now r k e)
      ]
    ]

finish_row-fewer :
    (id : ℕ) (status : RequestStatus) (now : ℕ) (run_id error : Option ℕ) (r : AiRequest)
    → is_queued status ≡ false
    → weight (is_queued (finish_row id status now run_id error r).status)
      ≤ weight (is_queued r.status)
finish_row-fewer id status now run_id error r h = ground arith

finish_rows-fewer :
    (rows : List AiRequest) (id : ℕ) (status : RequestStatus) (now : ℕ) (run_id error : Option ℕ)
    → is_queued status ≡ false
    → count_queued (finish_rows rows id status now run_id error) ≤ count_queued rows
unfolding count_queued finish_rows
finish_rows-fewer [] id status now run_id error h = omega arith
finish_rows-fewer (r ∷ rs) id status now run_id error h = omega (
  arith,
  finish_row-fewer id status now run_id error r h,
  finish_rows-fewer rs id status now run_id error h,
)

final_of-closed : (s : JobStatus) → is_queued (final_of s) ≡ false
final_of-closed s = ground arith

close_with-fewer :
    (answer : Result ℕ JobAnswer) (rows : List AiRequest) (id now : ℕ)
    → count_queued (close_with answer rows id now) ≤ count_queued rows
close_with-fewer (ok a) rows id now =
    finish_rows-fewer rows id (final_of a.status) now a.run_id (or_none a.detail)
      (final_of-closed a.status)
close_with-fewer (err text) rows id now = finish_rows-fewer rows id failed now none (some text) refl

-- What a claim of any kind comes to: nothing, or a request that no longer waits.
abbrev IsClaim : List AiRequest → Option ℕ → Option AiRequest × List AiRequest → Type 0
IsClaim rows kind (none, rows') =
    (rows' ≡ rows)
    × ((s : AiRequest) → Member s rows → (is_queued s.status && kind_is kind s) ≡ false)
IsClaim rows kind (some req, rows') = suc (count_queued rows') ≤ count_queued rows

claim_next-IsClaim :
    (rows : List AiRequest) (kind : Option ℕ) (now : ℕ)
    → IsClaim rows kind (claim_next [] rows kind now)
unfolding claim_next
claim_next-IsClaim rows kind now = elim (Option-cases (oldest_queued rows kind)) [
  | inl e ↦ rw (claim_next, e) (refl, λ s m. oldest_queued-none rows kind s e m)
  | inr (r, e) ↦
      let (m, q, k) = oldest_queued-is rows kind e in
      let (req, f) = request_of-started rows r.request_id now r m refl in
      rw (claim_next, e, f) (start_request-less rows r.request_id now r m q refl)
]

none_waits :
    (rows : List AiRequest)
    → ((s : AiRequest) → Member s rows → (is_queued s.status && kind_is none s) ≡ false)
    → count_queued rows ≡ 0
unfolding count_queued
none_waits [] h = refl
none_waits (r ∷ rs) h =
    let here = h r (inl refl) in let rest = none_waits rs (λ s m. h s (inr m)) in ground arith

abbrev IsTaken : List AiRequest → Option AiRequest × List AiRequest → Type 0
IsTaken rows (none, rows') = count_queued rows' ≡ 0
IsTaken rows (some req, rows') = suc (count_queued rows') ≤ count_queued rows

or_claim-IsTaken :
    (rows : List AiRequest) (kind : Option ℕ) (first : Option AiRequest × List AiRequest)
    (next : Option AiRequest × List AiRequest)
    → IsClaim rows kind first
    → IsTaken rows next
    → IsTaken rows (or_claim first.0 first.1 next)
or_claim-IsTaken rows kind (none, rows') next h k = k
or_claim-IsTaken rows kind (some req, rows') next h k = h

last_claim :
    (rows : List AiRequest) (found : Option AiRequest × List AiRequest)
    → IsClaim rows none found
    → IsTaken rows found
last_claim rows (none, rows') (same, h) = rw same (none_waits rows h)
last_claim rows (some req, rows') h = h

claim-IsTaken : (rows : List AiRequest) (now : ℕ) → IsTaken rows (claim rows now)
unfolding claim
claim-IsTaken rows now =
    or_claim-IsTaken rows (some review_kind) _ _ (claim_next-IsClaim rows (some review_kind) now) (
      or_claim-IsTaken rows (some lab_kind) _ _ (claim_next-IsClaim rows (some lab_kind) now)
        (last_claim rows _ (claim_next-IsClaim rows none now)))

abbrev IsDrained : ℕ → Outcomes → Outcomes × List AiRequest → Type 0
IsDrained n out (out', rows') = (count_queued rows' ≡ 0) × (length out' ≤ length out + n)

after_claim-IsDrained :
    (n : ℕ) (again : List AiRequest → Outcomes → Outcomes × List AiRequest) (execute : Execute)
    (rows : List AiRequest) (now : ℕ) (out : Outcomes) (found : Option AiRequest × List AiRequest)
    → ((rows' : List AiRequest) (out' : Outcomes)
        → count_queued rows' ≤ n
        → IsDrained n out' (again rows' out'))
    → count_queued rows ≤ suc n
    → IsTaken rows found
    → IsDrained (suc n) out (after_claim again execute now found out)
unfolding run_one
after_claim-IsDrained n again execute rows now out (none, rows') ih le t = (t, omega arith)
after_claim-IsDrained n again execute rows now out (some req, rows') ih le t =
    let closed = close_with (execute req) rows' req.request_id now in
    let out' = out ++ ((req.request_id, outcome_of (execute req)) ∷ []) in
    let fewer = close_with-fewer (execute req) rows' req.request_id now in
    let (empty, few) = ih closed out' (omega arith) in
    (empty, omega (arith, few, length-append out ((req.request_id, outcome_of (execute req)) ∷ [])))

-- With a round for each waiting request, whatever the jobs answer or raise, `drain` comes to its end
-- with no request waiting, and it has carried out at most that many.
pub drain_empties :
    (n : ℕ) (execute : Execute) (rows : List AiRequest) (now : ℕ) (out : Outcomes)
    → count_queued rows ≤ n
    → (count_queued (drain n execute rows now out).1 ≡ 0)
      × (length (drain n execute rows now out).0 ≤ length out + n)
unfolding drain
drain_empties zero execute rows now out le = (omega arith, omega arith)
drain_empties (suc n) execute rows now out le =
    after_claim-IsDrained n (λ closed out'. drain n execute closed now out') execute rows now out
      (claim rows now) (λ rows' out' k. drain_empties n execute rows' now out' k) le
      (claim-IsTaken rows now)
