-- ===== src/Corpus/Tests.antt =====
-- A corpus of two generations with an API process and a worker, and the theorems applied to it.
use rag_assistant.Prelude.{
  List, [], arith, none, ok, refl, some, true, validation_error, ℕ, ◌*◌, ◌+◌, ◌∷◌, ◌≡◌, err,
}
use rag_assistant.Corpus.Repository.{
  CorpusSnapshot, Journal, active, failed, preparing, committing, ProcessRow, Role, api, worker,
  Latest, initialize, commit_switch,
}
use rag_assistant.Corpus.Guards.{validate_write_admission, corpus_write_guard}
use rag_assistant.Corpus.{start_switch, Local, switch_failed, wait_prepared}
use rag_assistant.Corpus.Steps.{System, written, begun, committed, Reach, initial, later}
use rag_assistant.Corpus.Phases.{IsSound, Reach-IsSound}
use rag_assistant.Corpus.Fencing.{commit_switch-Reach, start_switch-pending}
use rag_assistant.Corpus.Ready.{pending}
use rag_assistant.Corpus.Progress.{run_ticks, run_ticks-active}

abbrev digest : ℕ × ℕ × ℕ × ℕ → ℕ
digest (a, b, c, d) = 1000 * a + (100 * b + (10 * c + d))

abbrev first_corpus : CorpusSnapshot
first_corpus = record {
  endpoint = 1;
  alias = 5;
  physical_collection = 1;
  embedding_identity = 3;
  generation = 1;
}

abbrev second_corpus : CorpusSnapshot
second_corpus = record {
  endpoint = 1;
  alias = 5;
  physical_collection = 2;
  embedding_identity = 3;
  generation = 2;
}

-- The journal of the first corpus after so many writes.
abbrev settled_at : ℕ → Journal
settled_at epoch = record {
  phase = active;
  write_epoch = epoch;
  installed = first_corpus;
  candidate = none;
  digest = none;
  owner = none;
  error = none;
}

abbrev prepared_at : ℕ → Journal
prepared_at epoch = record {
  phase = preparing;
  write_epoch = epoch;
  installed = first_corpus;
  candidate = some second_corpus;
  digest = some 99;
  owner = some 7;
  error = none;
}

abbrev committed_at : ℕ → Journal
committed_at epoch = record {
  phase = committing;
  write_epoch = epoch;
  installed = second_corpus;
  candidate = some second_corpus;
  digest = some 99;
  owner = some 7;
  error = none;
}

abbrev process : ℕ → Role → ℕ → ProcessRow
process id role generation = record {
  process_id = id;
  role = role;
  prepared_generation = none;
  applied_generation = some generation;
  error = none;
  heartbeat_at = 100;
}

abbrev serving : List ProcessRow
serving = process 7 api 1 ∷ process 8 worker 1 ∷ []

abbrev nothing_changed : Latest
nothing_changed = record {
  documents = [];
  outbox = [];
  digest = 99;
  same_config = true;
  has_config = true;
}

abbrev prepared_system : System
prepared_system = record { journal = prepared_at 1; holder = some 7; validated = 1 }

-- A write, and the start of a switch by process 7.
prepared_system-Reach : Reach digest prepared_system
unfolding initialize validate_write_admission start_switch
prepared_system-Reach =
    later (later (initial first_corpus (settled_at 0) refl) (written first_corpus refl refl))
      (begun 7 1 (settled_at 1) serving (ok second_corpus) 99 refl refl)

wait_prepared_test :
    wait_prepared 2 (7 ∷ 8 ∷ []) (
      serving
      ∷ (record (process 8 worker 1) { prepared_generation = some 2 }
          ∷ record (process 7 api 1) { prepared_generation = some 2 }
          ∷ [])
      ∷ [])
    ≡ ok tt
unfolding wait_prepared
wait_prepared_test = refl

Reach-IsSound_example : IsSound prepared_system
Reach-IsSound_example = Reach-IsSound digest prepared_system-Reach

commit_switch-Reach_example :
    (prepared_system.journal.owner ≡ some 7)
    × (some second_corpus ≡ some second_corpus)
    × (second_corpus.generation ≡ 2)
    × (committing ≡ committing)
    × ((committed_at 1).write_epoch ≡ 1)
unfolding commit_switch
commit_switch-Reach_example =
    commit_switch-Reach digest prepared_system second_corpus 99 7 nothing_changed (committed_at 1)
      prepared_system-Reach refl

-- A write under the guard is counted; without a journal there is none.
corpus_write_guard_test :
    corpus_write_guard digest first_corpus (λ index. (ok tt, index + 1)) 5 (some (settled_at 0))
    ≡ (ok tt, 6, some (settled_at 1))
unfolding corpus_write_guard
corpus_write_guard_test = refl

corpus_write_guard_missing_test :
    corpus_write_guard digest first_corpus (λ index. (ok tt, index + 1)) 5 none
    ≡ (err validation_error, 5, none)
unfolding corpus_write_guard
corpus_write_guard_missing_test = refl

-- A commit of the prepared system.
committed_system-Reach :
    Reach digest (record { journal = committed_at 1; holder = some 7; validated = 1 })
unfolding commit_switch
committed_system-Reach =
    later prepared_system-Reach (committed 7 99 second_corpus nothing_changed (committed_at 1) refl)

start_switch-pending_example :
    start_switch 7 1 (prepared_at 1) serving (ok second_corpus) 99 (prepared_at 1) ≡ (
      err validation_error,
      record (prepared_at 1) { phase = failed; candidate = none; error = some switch_failed },
    )
start_switch-pending_example =
    start_switch-pending 7 1 7 serving (ok second_corpus) 99 (prepared_at 1) refl refl

abbrev serving_process : ℕ → Role → Local
serving_process id role = record {
  process_id = id;
  role = role;
  resource = first_corpus;
  prepared = none;
  error = none;
}

run_ticks-active_example :
    (run_ticks
      ((101, serving_process 7 api) ∷ (105, serving_process 8 worker) ∷ [])
      serving
      (committed_at 1)).1.phase
    ≡ active
run_ticks-active_example =
    run_ticks-active 101 second_corpus (101, serving_process 7 api)
      ((105, serving_process 8 worker) ∷ []) serving (committed_at 1) (pending refl refl refl)
      (ground arith) (refl, (refl, tt)) refl refl
