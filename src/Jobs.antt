-- ===== src/Jobs.antt =====
-- backend/src/stk/ingest/jobs.py: the log of job runs. A job's body is a parameter, which changes
-- the handle and ends in one of three ways. Names, dates and texts are numbered, rows stand newest
-- first, and what a body itself writes elsewhere is outside. Tracebacks and metrics are left out.
use stock_analyser.Prelude.{
  ℕ, suc, Bool, true, false, ◌&&◌, if◌then◌else◌, ◌==◌, ◌≡◌, arith, Option, none, some, List, [],
  ◌∷◌, max,
}

pub data RunStatus : Type 0 where
  running_job succeeded degraded failed_job skipped_holiday : RunStatus

-- 0 is the text of an interrupted run.
pub record JobRun : Type 0 where
  pub run_id : ℕ
  pub job_name : ℕ
  pub business_date : Option ℕ
  pub status : RunStatus
  pub attempt : ℕ
  pub started_at : ℕ
  pub finished_at : Option ℕ
  pub error_message : Option ℕ
  pub rows_in : Option ℕ
  pub rows_written : Option ℕ
  pub rows_rejected : Option ℕ

pub record JobRunHandle : Type 0 where
  pub rows_in : Option ℕ
  pub rows_written : Option ℕ
  pub rows_rejected : Option ℕ
  pub skipped : Bool
  pub degraded : Bool

-- `JobRunHandle()`
abbrev pub new_handle : JobRunHandle
new_handle = record {
  rows_in = none;
  rows_written = none;
  rows_rejected = none;
  skipped = false;
  degraded = false;
}

-- How the body of the `with` block ends: it returns, raises `JobSkipped`, or raises another error.
pub data BodyEnd : Type 0 where
  returns job_skipped : BodyEnd
  raises : ℕ → BodyEnd

-- `business_date IS ?`
abbrev pub same_date : Option ℕ → Option ℕ → Bool
same_date none none = true
same_date (some a) (some b) = a == b
same_date _ _ = false

unfoldable pub next_attempt : List JobRun → ℕ → Option ℕ → ℕ
next_attempt [] job date = 1
next_attempt (r ∷ rs) job date =
    let rest = next_attempt rs job date in
    if r.job_name == job && same_date r.business_date date then max (suc r.attempt) rest else rest

abbrev pub is_running_job : RunStatus → Bool
is_running_job running_job = true
is_running_job _ = false

abbrev pub interrupt_row : ℕ → ℕ → JobRun → JobRun
interrupt_row job now r =
    if r.job_name == job && is_running_job r.status
    then record r { status = failed_job; finished_at = some now; error_message = some 0 }
    else r

unfoldable pub reap_stale_running : List JobRun → ℕ → ℕ → List JobRun
reap_stale_running [] job now = []
reap_stale_running (r ∷ rs) job now = interrupt_row job now r ∷ reap_stale_running rs job now

unfoldable pub next_run_id : List JobRun → ℕ
next_run_id [] = 1
next_run_id (r ∷ rs) = max (suc r.run_id) (next_run_id rs)

-- The row that the end of the body leaves, and whether the error is raised again.
abbrev pub close_run : BodyEnd → JobRunHandle → ℕ → JobRun → JobRun
close_run returns h now r = record r {
  status = if h.degraded then degraded else succeeded;
  finished_at = some now;
  rows_in = h.rows_in;
  rows_written = h.rows_written;
  rows_rejected = h.rows_rejected;
}
close_run job_skipped h now r = record r { status = skipped_holiday; finished_at = some now }
close_run (raises e) h now r = record r {
  status = failed_job;
  finished_at = some now;
  error_message = some e;
  rows_in = h.rows_in;
  rows_written = h.rows_written;
  rows_rejected = h.rows_rejected;
}

abbrev pub reraised : BodyEnd → Option ℕ
reraised (raises e) = some e
reraised _ = none

abbrev pub end_handle : BodyEnd → JobRunHandle → JobRunHandle
end_handle job_skipped h = record h { skipped = true }
end_handle _ h = h

-- The inserted row of a run.
abbrev pub started_run : List JobRun → ℕ → Option ℕ → ℕ → JobRun
started_run rows job date now = record {
  run_id = next_run_id rows;
  job_name = job;
  business_date = date;
  status = running_job;
  attempt = next_attempt rows job date;
  started_at = now;
  finished_at = none;
  error_message = none;
  rows_in = none;
  rows_written = none;
  rows_rejected = none;
}

-- The rows while the body runs.
unfoldable pub start_job : List JobRun → ℕ → Option ℕ → ℕ → List JobRun
unfolding next_attempt reap_stale_running next_run_id
start_job rows job date now = started_run rows job date now ∷ reap_stale_running rows job now

unfoldable pub job_run :
    List JobRun
    → ℕ
    → Option ℕ
    → (JobRunHandle → BodyEnd × JobRunHandle)
    → ℕ
    → ℕ
    → Option ℕ × JobRunHandle × List JobRun
unfolding next_attempt reap_stale_running next_run_id
job_run rows job date body now later =
    let (ending, h) = body new_handle in
    (
      reraised ending,
      end_handle ending h,
      close_run ending h later (started_run rows job date now) ∷ reap_stale_running rows job now,
    )

-- Whether some run of the job is still marked as running.
abbrev pub has_running : List JobRun → ℕ → Bool
has_running [] job = false
has_running (r ∷ rs) job =
    if r.job_name == job && is_running_job r.status then true else has_running rs job

-- Behind the reaping no earlier run of the job is marked as running.
reap_stale_running-has_running :
    (rows : List JobRun) (job now : ℕ) → has_running (reap_stale_running rows job now) job ≡ false
unfolding reap_stale_running
reap_stale_running-has_running [] job now = ground arith
reap_stale_running-has_running (r ∷ rs) job now =
    ground (arith, reap_stale_running-has_running rs job now)
