-- ===== src/Jobs/Tests.antt =====
-- A queue of two jobs, and the theorems applied to it.
use rag_assistant.Prelude.{
  map, ℕ, ltb, not, if◌then◌else◌, ◌==◌, ◌⊎◌, [], arith, false, none, refl, some, true, ◌*◌, ◌+◌,
  ◌∷◌, ◌≡◌,
}
use rag_assistant.Jobs.{
  BackgroundJob, Jobs, running, done, failed, raised, cancelled, Circumstances, update_job,
  run_tracked_job, finish_job, create_job, mark_running, touch_heartbeat, recover_orphaned,
}
use rag_assistant.Jobs.Runs.{all_finished, is_repeated, run_tries, run_tries-finishes}

abbrev ingest : BackgroundJob
ingest = record {
  id = 1;
  job_type = "ingest";
  status = running;
  related_id = some 7;
  request_id = none;
  started_at = some 100;
  finished_at = none;
  heartbeat_at = none;
  error_message = none;
  creation_date = 90;
}

abbrev finished : BackgroundJob
finished = record ingest { id = 2; status = done; finished_at = some 150 }

abbrev jobs : Jobs
jobs = ingest ∷ finished ∷ []

abbrev made : Jobs
made = touch_heartbeat 60 1 (mark_running 20 1 (create_job 10 1 "ingest" (some 7) none []))

-- A heartbeat ten seconds before does not help.
recover_orphaned_test :
    map (λ j. j.status) (recover_orphaned 1100 900 (touch_heartbeat 1090 1 jobs))
    ≡ failed ∷ done ∷ []
unfolding recover_orphaned touch_heartbeat update_job
recover_orphaned_test = refl

-- The second run is cancelled by a shutdown and taken up again, the others raise.
abbrev around : ℕ → Circumstances
around t = record {
  start = t * 100;
  end = t * 100 + 50;
  start_stored = not (t == 2);
  end_stored = true;
  meanwhile = λ js. js;
  outcome = if t == 2 then cancelled else raised "x";
}

run_tries-finishes_example :
    let r = run_tries around (λ t. ltb t 3) 1 3 3 1 jobs in
    (is_repeated (ltb r.job_try 3) r.ended ≡ false)
    × (((around r.job_try).end_stored ≡ false) ⊎ (all_finished 1 r.jobs ≡ true))
run_tries-finishes_example =
    run_tries-finishes around (λ t. ltb t 3) 1 3 3 2 1 jobs (λ n h. ground arith) (omega arith)
      (omega arith)

run_tries_test : (run_tries around (λ t. ltb t 3) 1 3 3 1 jobs).job_try ≡ 3
unfolding run_tracked_job finish_job
run_tries_test = refl
