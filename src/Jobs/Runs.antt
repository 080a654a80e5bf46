-- ===== src/Jobs/Runs.antt =====
-- The runs of a background job of worker/runtime.py: the queue runs it again when it asks for a retry,
-- and it may do so after a cancellation.
use rag_assistant.Prelude.{
  Bool, Bool-cases, [], all, arith, false, inl, ltb, not, refl, suc, true, zero, ℕ, ◌+◌, ◌<◌, ◌==◌,
  ◌||◌, ◌∷◌, ◌≡◌, ◌≤◌, ◌⊎◌, inr, if◌then◌else◌, String,
}
use rag_assistant.Jobs.{
  BackgroundJob, Jobs, Outcome, Ended, returned, cancelled, incomplete, raised, returns, reraised,
  retry, raises, Circumstances, mark_job_failed_safe, is_finished, update_job, mark_done,
  mark_failed, run_tracked_job, finish_job,
}

-- Every row with the id is finished.
abbrev pub all_finished : ℕ → Jobs → Bool
all_finished id js = all (λ j. not (j.id == id) || is_finished j.status) js

-- Whether the queue takes a job up again after a run: on a request for a retry, and after a
-- cancellation if it says so.
abbrev pub is_repeated : Bool → Ended → Bool
is_repeated again returns = false
is_repeated again raises = false
is_repeated again reraised = again
is_repeated again (retry d) = true

-- The last run of a job: its number, how it ended, and the table after it.
pub record LastRun : Type 0 where
  pub job_try : ℕ
  pub ended : Ended
  pub jobs : Jobs

-- The runs of a job from the one with the number `t` on, with their circumstances; `requeues` is
-- what the queue does with a cancelled run.
abbrev pub run_tries :
    (ℕ → Circumstances) → (requeues : ℕ → Bool) → ℕ → ℕ → ℕ → (t : ℕ) → Jobs → LastRun
run_tries around requeues id max_tries zero t jobs = record {
  job_try = t;
  ended = retry 0;
  jobs = jobs;
}
run_tries around requeues id max_tries (suc more) t jobs =
    let (ended, after) = run_tracked_job (around t) id t max_tries jobs in
    let rest = run_tries around requeues id max_tries more (suc t) after in
    if is_repeated (requeues t) ended
    then rest
    else record { job_try = t; ended = ended; jobs = after }

abbrev is_retry : Ended → Bool
is_retry (retry d) = true
is_retry _ = false

repeated_cases :
    (again : Bool) (e : Ended) → is_repeated again e ≡ true → (is_retry e ≡ true) ⊎ (again ≡ true)
repeated_cases again returns h = cc
repeated_cases again raises h = cc
repeated_cases again reraised h = inr h
repeated_cases again (retry d) h = inl refl

all_finished-update_job :
    (id : ℕ) (f : BackgroundJob → BackgroundJob) (js : Jobs)
    → ((j : BackgroundJob) → (is_finished (f j).status ≡ true) × ((f j).id ≡ j.id))
    → all_finished id (update_job id f js) ≡ true
unfolding update_job
all_finished-update_job id f [] h = refl
all_finished-update_job id f (j ∷ js) h =
    let below = all_finished-update_job id f js h in
    elim (Bool-cases (j.id == id)) [
      | inl same ↦ rw same (rw ((h j).1, same, (h j).0) below)
      | inr other ↦ rw (other, other) below
    ]

mark_failed-finished :
    (now id : ℕ) (error : String) (js : Jobs) → all_finished id (mark_failed now id error js) ≡ true
unfolding mark_failed
mark_failed-finished now id error js = all_finished-update_job id _ js (λ j. (refl, refl))

mark_done-finished : (now id : ℕ) (js : Jobs) → all_finished id (mark_done now id js) ≡ true
unfolding mark_done
mark_done-finished now id js = all_finished-update_job id _ js (λ j. (refl, refl))

-- The row is finished, or the write at the end was lost.
abbrev IsMarked : Bool → ℕ → Jobs → Type 0
IsMarked stored id js = (stored ≡ false) ⊎ (all_finished id js ≡ true)

mark_job_failed_safe-IsMarked :
    (stored : Bool) (now id : ℕ) (error : String) (js : Jobs)
    → IsMarked stored id (mark_job_failed_safe stored now id error js)
unfolding mark_job_failed_safe
mark_job_failed_safe-IsMarked true now id error js = inr (mark_failed-finished now id error js)
mark_job_failed_safe-IsMarked false now id error js = inl refl

-- A run asks for a retry only if tries are left, and otherwise leaves the job finished, if the
-- write at its end is stored.
finish_job_lem :
    (stored : Bool) (now id job_try max_tries : ℕ) (outcome : Outcome) (js : Jobs)
    → let r = finish_job stored now id job_try max_tries outcome js in
      ((is_retry r.0 ≡ true) × (job_try < max_tries))
      ⊎ ((is_retry r.0 ≡ false) × IsMarked stored id r.1)
unfolding finish_job
finish_job_lem true now id job_try max_tries returned js =
    inr (refl, inr (mark_done-finished now id js))
finish_job_lem false now id job_try max_tries returned js = inr (refl, inl refl)
finish_job_lem stored now id job_try max_tries cancelled js =
    inr (refl, mark_job_failed_safe-IsMarked stored now id _ js)
finish_job_lem stored now id job_try max_tries (incomplete error) js =
    inr (refl, mark_job_failed_safe-IsMarked stored now id error js)
finish_job_lem stored now id job_try max_tries (raised error) js =
    elim (Bool-cases (ltb job_try max_tries)) [
      | inl more ↦ rw more (inl (refl, ground arith))
      | inr out ↦ rw out (inr (refl, mark_job_failed_safe-IsMarked stored now id error js))
    ]

run_tracked_job_lem :
    (c : Circumstances) (id job_try max_tries : ℕ) (js : Jobs)
    → let r = run_tracked_job c id job_try max_tries js in
      ((is_retry r.0 ≡ true) × (job_try < max_tries))
      ⊎ ((is_retry r.0 ≡ false) × IsMarked c.end_stored id r.1)
unfolding run_tracked_job
run_tracked_job_lem c id job_try max_tries js =
    finish_job_lem c.end_stored c.end id job_try max_tries c.outcome _

-- The last run leaves its row marked, if the queue is done with it.
settled_run :
    (again stored : Bool) (id t max_tries : ℕ) (e : Ended) (js : Jobs)
    → is_repeated again e ≡ false
    → ((is_retry e ≡ true) × (t < max_tries)) ⊎ ((is_retry e ≡ false) × IsMarked stored id js)
    → IsMarked stored id js
settled_run again stored id t max_tries returns js h (inl (r, l)) = absurd (ground arith)
settled_run again stored id t max_tries raises js h (inl (r, l)) = absurd (ground arith)
settled_run again stored id t max_tries reraised js h (inl (r, l)) = absurd (ground arith)
settled_run again stored id t max_tries (retry d) js h (inl (r, l)) = absurd (ground arith)
settled_run again stored id t max_tries e js h (inr (r, marked)) = marked

last_run :
    (again : Bool) (t max_tries : ℕ) (e : Ended) {Marked : Type 0}
    → is_repeated again e ≡ true
    → again ≡ false
    → max_tries ≤ t
    → ((is_retry e ≡ true) × (t < max_tries)) ⊎ ((is_retry e ≡ false) × Marked)
    → ⊥
last_run again t max_tries e h never out (inl (r, more)) = omega arith
last_run again t max_tries e h never out (inr (r, marked)) = elim (repeated_cases again e h) [
  | inl asked ↦ ground arith
  | inr requeued ↦ ground arith
]

-- Let the queue requeue no cancelled run from the number `limit` on. Then a job that is tried from
-- the number `t` on is done after one run and `max (max_tries, limit) - t` further ones at most: with
-- that much fuel the queue does not take it up again. Its row is finished then, whatever its body and the
-- other users of the table do, unless the database has lost the write at the end of the last run.
pub run_tries-finishes :
    (around : ℕ → Circumstances) (requeues : ℕ → Bool) (id max_tries limit more t : ℕ) (js : Jobs)
    → ((n : ℕ) → limit ≤ n → requeues n ≡ false)
    → max_tries ≤ t + more
    → limit ≤ t + more
    → let r = run_tries around requeues id max_tries (suc more) t js in
      (is_repeated (requeues r.job_try) r.ended ≡ false)
      × (((around r.job_try).end_stored ≡ false) ⊎ (all_finished id r.jobs ≡ true))
run_tries-finishes around requeues id max_tries limit zero t js bounded tries requeued =
    let r = run_tracked_job (around t) id t max_tries js in
    let ended = run_tracked_job_lem (around t) id t max_tries js in
    let last = bounded t (ground arith) in
    elim (Bool-cases (is_repeated (requeues t) r.0)) [
      | inr over ↦
          rw over
            (over, settled_run (requeues t) (around t).end_stored id t max_tries r.0 r.1 over ended)
      | inl again ↦ absurd (last_run (requeues t) t max_tries r.0 again last (ground arith) ended)
    ]
run_tries-finishes around requeues id max_tries limit (suc more) t js bounded tries requeued =
    let r = run_tracked_job (around t) id t max_tries js in
    let ended = run_tracked_job_lem (around t) id t max_tries js in
    elim (Bool-cases (is_repeated (requeues t) r.0)) [
      | inr over ↦
          rw over
            (over, settled_run (requeues t) (around t).end_stored id t max_tries r.0 r.1 over ended)
      | inl again ↦ rw again (
          run_tries-finishes around requeues id max_tries limit more (suc t) r.1 bounded
            (omega arith) (omega arith))
    ]
