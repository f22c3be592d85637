-- ===== src/Requests.antt =====
-- backend/src/stk/store/db/repos/ai_requests.py: the queue of requested model calls. Rows stand
-- newest first. Kinds and texts are numbered (number 0 is the empty text), dates and times are
-- numbers. Another writer may run between a statement and the next one: the rows that each statement
-- of `enqueue` finds are arguments of their own, and `claim_next` takes what others do in between.
pub mod Single
pub mod Claims
pub mod Worker
pub mod Draining
use stock_analyser.Prelude.{
  ℕ, zero, suc, ◌+◌, Bool, true, false, ◌&&◌, ◌||◌, not, if◌then◌else◌, ◌==◌, ltb, Option, none,
  some, List, [], ◌∷◌, any_of, find_first, max, is_none, Result, ok, err, ◌>>=◌, ◌>>◌, raise_if,
}

pub data RequestStatus : Type 0 where
  queued running done failed : RequestStatus

-- `failed` is the source's 'error'.
pub record AiRequest : Type 0 where
  pub request_id : ℕ
  pub kind : ℕ
  pub business_date : ℕ
  pub status : RequestStatus
  pub force : Bool
  pub requested_by : ℕ
  pub requested_at : ℕ
  pub started_at : Option ℕ
  pub finished_at : Option ℕ
  pub run_id : Option ℕ
  pub error : Option ℕ

-- `status IN ('queued','running')`
unfoldable pub is_open : RequestStatus → Bool
is_open queued = true
is_open running = true
is_open _ = false

abbrev pub is_queued : RequestStatus → Bool
is_queued queued = true
is_queued _ = false

abbrev pub is_for : ℕ → ℕ → AiRequest → Bool
is_for kind date r = r.kind == kind && r.business_date == date

unfoldable pub open_request : List AiRequest → ℕ → ℕ → Option AiRequest
open_request [] kind date = none
open_request (r ∷ rs) kind date =
    let rest = open_request rs kind date in
    if is_for kind date r && is_open r.status then some r else rest

unfoldable pub latest : List AiRequest → ℕ → ℕ → Option AiRequest
latest rows kind date = find_first (is_for kind date) rows

unfoldable pub next_request_id : List AiRequest → ℕ
next_request_id [] = 1
next_request_id (r ∷ rs) = max (suc r.request_id) (next_request_id rs)

pub data QueueError : Type 0 where
  integrity_error bad_final_status : QueueError

abbrev pub new_request : ℕ → ℕ → ℕ → Bool → ℕ → ℕ → AiRequest
new_request id kind date force requested_by now = record {
  request_id = id;
  kind = kind;
  business_date = date;
  status = queued;
  force = force;
  requested_by = requested_by;
  requested_at = now;
  started_at = none;
  finished_at = none;
  run_id = none;
  error = none;
}

-- `REVIEW_KIND` and `LAB_KIND`, the kinds that the table's `CHECK` admits
abbrev pub review_kind : ℕ
review_kind = 1

abbrev pub lab_kind : ℕ
lab_kind = 2

abbrev pub is_known_kind : ℕ → Bool
is_known_kind kind = kind == review_kind || kind == lab_kind

-- The `INSERT` of a queued row under the table's `CHECK` and the partial unique index on the open
-- rows of a kind and date (backend/src/stk/store/db/migrations/0011_previews_and_ai_requests.sql):
-- `none` is the `IntegrityError`.
unfoldable pub insert_queued : List AiRequest → AiRequest → Option (List AiRequest)
unfolding open_request
insert_queued rows r =
    if is_known_kind r.kind && is_none (open_request rows r.kind r.business_date)
    then some (r ∷ rows)
    else none

-- The `except` block, by what its query finds.
abbrev pub after_race :
    Option AiRequest → List AiRequest → Result QueueError (AiRequest × List AiRequest)
after_race none rows = err integrity_error
after_race (some raced) rows = ok (raced, rows)

abbrev pub inserted :
    Option (List AiRequest)
    → AiRequest
    → List AiRequest
    → Result QueueError (AiRequest × List AiRequest)
inserted (some rows') r later = ok (r, rows')
inserted none r later = after_race (open_request later r.kind r.business_date) later

-- What follows the first query of `enqueue`.
unfoldable pub answer :
    Option AiRequest
    → AiRequest
    → List AiRequest
    → List AiRequest
    → Result QueueError (AiRequest × List AiRequest)
unfolding insert_queued open_request
answer (some existing) r rows later = ok (existing, rows)
answer none r rows later = inserted (insert_queued rows r) r later

-- `seen` are the rows of the first query, `rows` those of the `INSERT`, and `later` those of the
-- query after an `INSERT` that failed. The answer has the rows as the last statement left them.
unfoldable pub enqueue :
    List AiRequest
    → List AiRequest
    → List AiRequest
    → ℕ
    → ℕ
    → Bool
    → ℕ
    → ℕ
    → Result QueueError (AiRequest × List AiRequest)
unfolding answer
enqueue seen rows later kind date force requested_by now =
    answer (open_request seen kind date)
      (new_request (next_request_id rows) kind date force requested_by now) rows later

-- `AND kind=?`, where it is asked for
abbrev pub kind_is : Option ℕ → AiRequest → Bool
kind_is none r = true
kind_is (some zero) r = true
kind_is (some (suc k)) r = r.kind == suc k

-- `ORDER BY requested_at, request_id`
unfoldable pub is_earlier : AiRequest → AiRequest → Bool
is_earlier a b =
    ltb a.requested_at b.requested_at
    || (a.requested_at == b.requested_at && ltb a.request_id b.request_id)

abbrev pub earlier_of : AiRequest → Option AiRequest → Option AiRequest
earlier_of r none = some r
earlier_of r (some s) = if is_earlier s r then some s else some r

-- The `SELECT ... LIMIT 1` of `claim_next`.
unfoldable pub oldest_queued : List AiRequest → Option ℕ → Option AiRequest
unfolding is_earlier
oldest_queued [] kind = none
oldest_queued (r ∷ rs) kind =
    let rest = oldest_queued rs kind in
    if is_queued r.status && kind_is kind r then earlier_of r rest else rest

abbrev pub start_row : ℕ → ℕ → AiRequest → AiRequest
start_row id now r =
    if r.request_id == id && is_queued r.status
    then record r { status = running; started_at = some now }
    else r

-- `UPDATE ... WHERE request_id=? AND status='queued'`
unfoldable pub start_request : List AiRequest → ℕ → ℕ → List AiRequest
start_request [] id now = []
start_request (r ∷ rs) id now = start_row id now r ∷ start_request rs id now

-- The `UPDATE`'s rowcount is not 0.
unfoldable pub is_startable : List AiRequest → ℕ → Bool
is_startable rows id = any_of (λ (r : AiRequest). r.request_id == id && is_queued r.status) rows

-- `WHERE request_id=?`
unfoldable pub request_of : List AiRequest → ℕ → Option AiRequest
request_of [] id = none
request_of (r ∷ rs) id = let rest = request_of rs id in if r.request_id == id then some r else rest

-- `claim_next`. The list holds what other workers do between a round's `SELECT` and its `UPDATE`;
-- past its end nobody interferes.
unfoldable pub claim_next :
    List (List AiRequest → List AiRequest)
    → List AiRequest
    → Option ℕ
    → ℕ
    → Option AiRequest × List AiRequest
unfolding oldest_queued start_request is_startable request_of
claim_next [] rows kind now = elim (oldest_queued rows kind) [
  | none ↦ (none, rows)
  | some r ↦
      (let rows' = start_request rows r.request_id now in (request_of rows' r.request_id, rows'))
]
claim_next (others ∷ more) rows kind now = elim (oldest_queued rows kind) [
  | none ↦ (none, rows)
  | some r ↦ elim (is_startable (others rows) r.request_id) [
    | true ↦
        (let rows' = start_request (others rows) r.request_id now in
          (request_of rows' r.request_id, rows'))
    | false ↦ claim_next more (others rows) kind now
  ]
]

abbrev pub is_final : RequestStatus → Bool
is_final done = true
is_final failed = true
is_final _ = false

abbrev pub finish_row : ℕ → RequestStatus → ℕ → Option ℕ → Option ℕ → AiRequest → AiRequest
finish_row id status now run_id error r =
    if r.request_id == id
    then record r { status = status; finished_at = some now; run_id = run_id; error = error }
    else r

unfoldable pub finish_rows :
    List AiRequest → ℕ → RequestStatus → ℕ → Option ℕ → Option ℕ → List AiRequest
finish_rows [] id status now run_id error = []
finish_rows (r ∷ rs) id status now run_id error =
    finish_row id status now run_id error r ∷ finish_rows rs id status now run_id error

unfoldable pub finish :
    List AiRequest
    → ℕ
    → RequestStatus
    → ℕ
    → Option ℕ
    → Option ℕ
    → Result QueueError (List AiRequest)
unfolding finish_rows
finish rows id status now run_id error = do
  raise_if (not (is_final status)) bad_final_status
  ok (finish_rows rows id status now run_id error)
