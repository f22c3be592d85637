-- ===== src/Requests/Worker.antt =====
-- backend/src/stk/ai/worker.py: `run_one`, `_claim` and `drain`. The jobs themselves (the evening
-- review and the strategy lab, which call a model) are a parameter: what a job answers, or the
-- text of what it raises. No other writer runs beside the worker here. The callbacks are left out.
use stock_analyser.Prelude.{ℕ, zero, suc, Option, none, some, List, [], ◌∷◌, ◌++◌, Result, ok, err}
use stock_analyser.Requests.{
  AiRequest, RequestStatus, done, failed, review_kind, lab_kind, claim_next, finish_rows,
}

-- The status text of a job; those in `DONE_STATUSES` are `success` and `skip`.
pub data JobStatus : Type 0 where
  success skip : JobStatus
  other_status : ℕ → JobStatus

-- `detail` 0 is the empty text.
pub record JobAnswer : Type 0 where
  pub status : JobStatus
  pub run_id : Option ℕ
  pub detail : ℕ

-- What `_execute` does: `err` is the text of what it raises.
abbrev pub Execute : Type 0
Execute = AiRequest → Result ℕ JobAnswer

abbrev pub final_of : JobStatus → RequestStatus
final_of success = done
final_of skip = done
final_of (other_status _) = failed

-- `detail or None`
abbrev pub or_none : ℕ → Option ℕ
or_none zero = none
or_none (suc n) = some (suc n)

-- `ai_requests.finish` with a status that is final, as both calls have it.
abbrev pub close_with : Result ℕ JobAnswer → List AiRequest → ℕ → ℕ → List AiRequest
close_with (ok a) rows id now =
    finish_rows rows id (final_of a.status) now a.run_id (or_none a.detail)
close_with (err text) rows id now = finish_rows rows id failed now none (some text)

-- `None` stands for the answer 'error' of a job that raised.
abbrev pub outcome_of : Result ℕ JobAnswer → Option JobStatus
outcome_of (ok a) = some a.status
outcome_of (err text) = none

unfoldable pub run_one :
    Execute → List AiRequest → AiRequest → ℕ → Option JobStatus × List AiRequest
unfolding finish_rows
run_one execute rows req now =
    (outcome_of (execute req), close_with (execute req) rows req.request_id now)

-- The next claim where the one before found nothing.
abbrev pub or_claim :
    Option AiRequest
    → List AiRequest
    → Option AiRequest × List AiRequest
    → Option AiRequest × List AiRequest
or_claim none rows next = next
or_claim (some r) rows next = (some r, rows)

-- `_claim`: a review, else a lab, else whatever is queued.
unfoldable pub claim : List AiRequest → ℕ → Option AiRequest × List AiRequest
claim rows now =
    let (review, rows1) = claim_next [] rows (some review_kind) now in
    let (lab, rows2) = claim_next [] rows (some lab_kind) now in
    or_claim review rows1 (or_claim lab rows2 (claim_next [] rows none now))

-- `DrainResult`; its `handled` is the number of its outcomes.
abbrev pub Outcomes : Type 0
Outcomes = List (ℕ × Option JobStatus)

-- The body of the loop of `drain`, before the next round `again`.
abbrev pub after_claim :
    (List AiRequest → Outcomes → Outcomes × List AiRequest)
    → Execute
    → ℕ
    → Option AiRequest × List AiRequest
    → Outcomes
    → Outcomes × List AiRequest
after_claim again execute now (none, rows) out = (out, rows)
after_claim again execute now (some req, rows) out =
    let (status, closed) = run_one execute rows req now in
    again closed (out ++ ((req.request_id, status) ∷ []))

-- `drain`, on as many rounds as it is given and with one reading of the clock.
unfoldable pub drain : ℕ → Execute → List AiRequest → ℕ → Outcomes → Outcomes × List AiRequest
unfolding claim run_one
drain zero execute rows now out = (out, rows)
drain (suc n) execute rows now out =
    after_claim (λ closed out'. drain n execute closed now out') execute now (claim rows now) out
