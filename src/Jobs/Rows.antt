-- ===== src/Jobs/Rows.antt =====
-- What every table of background jobs satisfies that the repository's methods can reach.
use rag_assistant.Prelude.{
  All, Bool-cases, Option, String, [], ap, arith, false, if◌then◌else◌, inl, inr, is_none, ltb,
  refl, suc, true, ℕ, ◌&&◌, ◌==◌, ◌∷◌, ◌≡◌,
}
use rag_assistant.Jobs.{
  BackgroundJob, Jobs, is_finished, is_running, is_unfinished, update_job, create_job, mark_running,
  mark_done, mark_failed, touch_heartbeat, delete_old, recover_orphaned, fail_stale_pending,
  is_orphaned, is_stale, job_mark_failed, count_active,
}

-- A finished job says when it ended, and a running one when it started.
pub record IsDated (j : BackgroundJob) : Type 0 where
  pub ended : is_finished j.status ≡ true → is_none j.finished_at ≡ false
  pub begun : is_running j.status ≡ true → is_none j.started_at ≡ false

-- One call of a method of the repository.
pub data Step (jobs : Jobs) : Jobs → Type 0 where
  created :
      (now id : ℕ) (job_type : String) (related_id : Option ℕ) (request_id : Option String)
      → Step jobs (create_job now id job_type related_id request_id jobs)
  started : (now id : ℕ) → Step jobs (mark_running now id jobs)
  succeeded : (now id : ℕ) → Step jobs (mark_done now id jobs)
  broke : (now id : ℕ) (error : String) → Step jobs (mark_failed now id error jobs)
  touched : (now id : ℕ) → Step jobs (touch_heartbeat now id jobs)
  cleaned : (cutoff : ℕ) → Step jobs (delete_old cutoff jobs)
  orphaned : (now timeout : ℕ) → Step jobs (recover_orphaned now timeout jobs)
  staled : (now timeout : ℕ) → Step jobs (fail_stale_pending now timeout jobs)

pub data Reach : Jobs → Type 0 where
  empty : Reach []
  later : {jobs jobs' : Jobs} → Reach jobs → Step jobs jobs' → Reach jobs'

All-update_job :
    (P : BackgroundJob → Type 0) (id : ℕ) (f : BackgroundJob → BackgroundJob) (js : Jobs)
    → ((j : BackgroundJob) → P j → P (f j))
    → All P js
    → All P (update_job id f js)
unfolding update_job
All-update_job P id f [] h a = tt
All-update_job P id f (j ∷ js) h a = elim (Bool-cases (j.id == id)) [
  | inl same ↦ rw same (h j a.0, All-update_job P id f js h a.1)
  | inr other ↦ rw other (a.0, All-update_job P id f js h a.1)
]

failed-IsDated :
    (now : ℕ) (error : Option String) (j : BackgroundJob) → IsDated (job_mark_failed now error j)
failed-IsDated now error j = record { ended = λ x. refl; begun = λ x. ground arith }

delete_old-IsDated : (cutoff : ℕ) (js : Jobs) → All IsDated js → All IsDated (delete_old cutoff js)
unfolding delete_old
delete_old-IsDated cutoff [] a = tt
delete_old-IsDated cutoff (j ∷ js) a =
    elim (Bool-cases (ltb j.creation_date cutoff && is_finished j.status)) [
      | inl gone ↦ rw gone (delete_old-IsDated cutoff js a.1)
      | inr kept ↦ rw kept (a.0, delete_old-IsDated cutoff js a.1)
    ]

recover_orphaned-IsDated :
    (now timeout : ℕ) (js : Jobs) → All IsDated js → All IsDated (recover_orphaned now timeout js)
unfolding recover_orphaned
recover_orphaned-IsDated now timeout [] a = tt
recover_orphaned-IsDated now timeout (j ∷ js) a = elim (Bool-cases (is_orphaned now timeout j)) [
  | inl old ↦ rw old (failed-IsDated now _ j, recover_orphaned-IsDated now timeout js a.1)
  | inr fine ↦ rw fine (a.0, recover_orphaned-IsDated now timeout js a.1)
]

fail_stale_pending-IsDated :
    (now timeout : ℕ) (js : Jobs) → All IsDated js → All IsDated (fail_stale_pending now timeout js)
unfolding fail_stale_pending
fail_stale_pending-IsDated now timeout [] a = tt
fail_stale_pending-IsDated now timeout (j ∷ js) a = elim (Bool-cases (is_stale now timeout j)) [
  | inl old ↦ rw old (failed-IsDated now _ j, fail_stale_pending-IsDated now timeout js a.1)
  | inr fine ↦ rw fine (a.0, fail_stale_pending-IsDated now timeout js a.1)
]

Step-IsDated : {jobs jobs' : Jobs} → Step jobs jobs' → All IsDated jobs → All IsDated jobs'
unfolding create_job mark_running mark_done mark_failed touch_heartbeat
Step-IsDated (created now id job_type related_id request_id) a =
    (record { ended = λ x. ground arith; begun = λ x. ground arith }, a)
Step-IsDated {jobs} (started now id) a =
    All-update_job IsDated id _ jobs
      (λ j d. record { ended = λ x. ground arith; begun = λ x. refl }) a
Step-IsDated {jobs} (succeeded now id) a =
    All-update_job IsDated id _ jobs
      (λ j d. record { ended = λ x. refl; begun = λ x. ground arith }) a
Step-IsDated {jobs} (broke now id error) a =
    All-update_job IsDated id _ jobs
      (λ j d. record { ended = λ x. refl; begun = λ x. ground arith }) a
Step-IsDated {jobs} (touched now id) a =
    All-update_job IsDated id _ jobs (λ j d. record { ended = d.ended; begun = d.begun }) a
Step-IsDated {jobs} (cleaned cutoff) a = delete_old-IsDated cutoff jobs a
Step-IsDated {jobs} (orphaned now timeout) a = recover_orphaned-IsDated now timeout jobs a
Step-IsDated {jobs} (staled now timeout) a = fail_stale_pending-IsDated now timeout jobs a

-- In every table that the methods can reach, a finished job has the time of its end and a running
-- one the time of its start.
pub Reach-IsDated : {jobs : Jobs} → Reach jobs → All IsDated jobs
Reach-IsDated empty = tt
Reach-IsDated (later r s) = Step-IsDated s (Reach-IsDated r)

-- The cleanup deletes no active job.
pub count_active-delete_old :
    (cutoff : ℕ) (js : Jobs) → count_active (delete_old cutoff js) ≡ count_active js
unfolding count_active delete_old
count_active-delete_old cutoff [] = refl
count_active-delete_old cutoff (j ∷ js) =
    elim (Bool-cases (ltb j.creation_date cutoff && is_finished j.status)) [
      | inl gone ↦
          let ended : is_unfinished j.status ≡ false = ground arith in
          rw (gone, ended) (count_active-delete_old cutoff js)
      | inr kept ↦ rw kept (
          ap (λ n. if is_unfinished j.status then suc n else n) (count_active-delete_old cutoff js))
    ]
