-- ===== src/Jobs.antt =====
-- Durable background jobs: server/app/domain/runtime/jobs.py, the repository
-- server/app/infrastructure/repositories/misc/sqlalchemy_background_job_repository.py, the sweep of
-- dead jobs of server/app/infrastructure/worker/cron.py, and the run of a job of
-- server/app/infrastructure/worker/runtime.py. Times are in seconds.
use rag_assistant.Prelude.{
  Bool, List, Option, String, [], false, get_or, if◌then◌else◌, ltb, min, none, some, suc, true,
  ◌&&◌, ◌*◌, ◌+◌, ◌-◌, ◌==◌, ◌^◌, ◌∷◌, ℕ,
}
pub mod Rows
pub mod Sweeps
pub mod Runs
mod Tests

pub data BackgroundJobStatus : Type 0 where
  pending running done failed : BackgroundJobStatus

pub record BackgroundJob : Type 0 where
  pub id : ℕ
  pub job_type : String
  pub status : BackgroundJobStatus
  pub related_id : Option ℕ
  pub request_id : Option String
  pub started_at : Option ℕ
  pub finished_at : Option ℕ
  pub heartbeat_at : Option ℕ
  pub error_message : Option String
  pub creation_date : ℕ

abbrev pub Jobs : Type 0
Jobs = List BackgroundJob

abbrev pub is_pending : BackgroundJobStatus → Bool
is_pending pending = true
is_pending _ = false

abbrev pub is_running : BackgroundJobStatus → Bool
is_running running = true
is_running _ = false

-- The terminal and the active states of `BackgroundJobStatus`.
abbrev pub is_finished : BackgroundJobStatus → Bool
is_finished done = true
is_finished failed = true
is_finished _ = false

abbrev pub is_unfinished : BackgroundJobStatus → Bool
is_unfinished pending = true
is_unfinished running = true
is_unfinished _ = false

-- `BackgroundJob.mark_running`, `mark_done` and `mark_failed`.
abbrev pub job_mark_running : ℕ → BackgroundJob → BackgroundJob
job_mark_running now j = record j {
  status = running;
  started_at = some now;
  heartbeat_at = some now;
}

abbrev pub job_mark_done : ℕ → BackgroundJob → BackgroundJob
job_mark_done now j = record j { status = done; finished_at = some now }

abbrev pub job_mark_failed : ℕ → Option String → BackgroundJob → BackgroundJob
job_mark_failed now error j = record j {
  status = failed;
  finished_at = some now;
  error_message = error;
}

-- The row with an id, changed, if there is one.
unfoldable pub update_job : ℕ → (BackgroundJob → BackgroundJob) → Jobs → Jobs
update_job id f [] = []
update_job id f (j ∷ js) = (if j.id == id then f j else j) ∷ update_job id f js

unfoldable pub create_job : ℕ → ℕ → String → Option ℕ → Option String → Jobs → Jobs
create_job now id job_type related_id request_id jobs =
    record {
      id = id;
      job_type = job_type;
      status = pending;
      related_id = related_id;
      request_id = request_id;
      started_at = none;
      finished_at = none;
      heartbeat_at = none;
      error_message = none;
      creation_date = now;
    }
    ∷ jobs

-- The repository writes the columns that are named here, not the whole entity.
unfoldable pub mark_running : ℕ → ℕ → Jobs → Jobs
unfolding update_job
mark_running now id = update_job id (λ j.
    let e = job_mark_running now j in record j { status = e.status; started_at = e.started_at })

unfoldable pub mark_done : ℕ → ℕ → Jobs → Jobs
unfolding update_job
mark_done now id = update_job id (λ j.
    let e = job_mark_done now j in record j { status = e.status; finished_at = e.finished_at })

unfoldable pub mark_failed : ℕ → ℕ → String → Jobs → Jobs
unfolding update_job
mark_failed now id error = update_job id (λ j.
    let e = job_mark_failed now (some error) j in
    record j { status = e.status; finished_at = e.finished_at; error_message = e.error_message })

unfoldable pub touch_heartbeat : ℕ → ℕ → Jobs → Jobs
unfolding update_job
touch_heartbeat now id = update_job id (λ j. record j { heartbeat_at = some now })

unfoldable pub count_active : Jobs → ℕ
count_active [] = 0
count_active (j ∷ js) = if is_unfinished j.status then suc (count_active js) else count_active js

-- `creation_date < cutoff AND status IN ('done', 'failed')`
unfoldable pub delete_old : ℕ → Jobs → Jobs
delete_old cutoff [] = []
delete_old cutoff (j ∷ js) =
    let rest = delete_old cutoff js in
    if ltb j.creation_date cutoff && is_finished j.status then rest else j ∷ rest

abbrev pub is_orphaned : ℕ → ℕ → BackgroundJob → Bool
is_orphaned now timeout j =
    is_running j.status && elim j.started_at [ none ↦ false | some t ↦ ltb (t + timeout) now ]

unfoldable pub recover_orphaned : ℕ → ℕ → Jobs → Jobs
recover_orphaned now timeout [] = []
recover_orphaned now timeout (j ∷ js) =
    (if is_orphaned now timeout j
      then job_mark_failed now (some "Worker died or restarted — task orphaned") j
      else j)
    ∷ recover_orphaned now timeout js

-- `coalesce(heartbeat_at, creation_date) < cutoff`
abbrev pub is_stale : ℕ → ℕ → BackgroundJob → Bool
is_stale now timeout j =
    is_pending j.status && ltb (get_or j.heartbeat_at j.creation_date + timeout) now

unfoldable pub fail_stale_pending : ℕ → ℕ → Jobs → Jobs
fail_stale_pending now timeout [] = []
fail_stale_pending now timeout (j ∷ js) =
    (if is_stale now timeout j
      then job_mark_failed now (some "Stale pending — exceeded timeout") j
      else j)
    ∷ fail_stale_pending now timeout js

-- `cron_recover_orphaned_jobs`, as to the table of jobs.
unfoldable pub sweep_jobs : ℕ → ℕ → ℕ → Jobs → Jobs
unfolding recover_orphaned fail_stale_pending
sweep_jobs now stuck_timeout stale_timeout jobs =
    fail_stale_pending now stale_timeout (recover_orphaned now stuck_timeout jobs)

-- How the body of a job ends.
pub data Outcome : Type 0 where
  returned cancelled : Outcome
  incomplete raised : String → Outcome

-- How the run of a job ends: it returns, or raises the cancellation, the error of the last write, or
-- a request for a retry.
pub data Ended : Type 0 where
  returns reraised raises : Ended
  retry : ℕ → Ended

-- `job_try` counts from 1.
abbrev pub defer_seconds : ℕ → ℕ
defer_seconds job_try = min 60 (5 * 2 ^ (job_try - 1))

-- `mark_job_failed_safe`: an error of the write is logged and dropped, and the row stays as it is. The
-- cut of the text to 500 characters is left out.
unfoldable pub mark_job_failed_safe : Bool → ℕ → ℕ → String → Jobs → Jobs
unfolding mark_failed update_job
mark_job_failed_safe stored now id error jobs =
    if stored then mark_failed now id error jobs else jobs

-- `run_tracked_job` after the body has ended, at the time `now`; `stored` says whether the database
-- takes the write at the end.
unfoldable pub finish_job : Bool → ℕ → ℕ → ℕ → ℕ → Outcome → Jobs → Ended × Jobs
unfolding mark_done mark_failed mark_job_failed_safe update_job
finish_job stored now id job_try max_tries returned jobs =
    if stored then (returns, mark_done now id jobs) else (raises, jobs)
finish_job stored now id job_try max_tries cancelled jobs = (
  reraised,
  mark_job_failed_safe stored now id "Task cancelled (timeout or worker shutdown)" jobs,
)
finish_job stored now id job_try max_tries (incomplete error) jobs =
    (returns, mark_job_failed_safe stored now id error jobs)
finish_job stored now id job_try max_tries (raised error) jobs =
    if ltb job_try max_tries
    then (retry (defer_seconds job_try), jobs)
    else (returns, mark_job_failed_safe stored now id error jobs)

-- What goes on around one run: the times of its start and its end, whether the two writes of the
-- status are stored, what others do to the table in between, and how the body ends.
pub record Circumstances : Type 0 where
  pub start : ℕ
  pub end : ℕ
  pub start_stored : Bool
  pub end_stored : Bool
  pub meanwhile : Jobs → Jobs
  pub outcome : Outcome

-- `run_tracked_job`: a mark at the start that fails is logged, and the body runs all the same.
unfoldable pub run_tracked_job : Circumstances → ℕ → ℕ → ℕ → Jobs → Ended × Jobs
unfolding mark_running update_job finish_job
run_tracked_job c id job_try max_tries jobs =
    let started = if c.start_stored then mark_running c.start id jobs else jobs in
    finish_job c.end_stored c.end id job_try max_tries c.outcome (c.meanwhile started)
