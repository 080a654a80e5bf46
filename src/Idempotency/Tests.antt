-- ===== src/Idempotency/Tests.antt =====
-- The theorems on reservations at concrete runs.
use rag_assistant.Prelude.{
  Bool, [], err, false, none, ok, refl, runtime_error, some, true, ◌∷◌, ◌≡◌, ◌≤◌, arith,
}
use rag_assistant.Idempotency.{
  Reservation, completed, conflict, new_entry, claim, Attempt, complete, completed_entry,
  complete_tries,
}
use rag_assistant.Idempotency.Interleavings.{
  Keyed, Reach, start, next, sets, watches, gets, executes, expires,
}
use rag_assistant.Idempotency.Replays.{IsReserved, complete-claim}
use rag_assistant.Idempotency.Owned.{Reach-IsOwned, IsOwned}

abbrev upload_entry : Reservation
upload_entry = new_entry 1 77 5

abbrev stored : Reservation
stored = record upload_entry { state = completed; token = none; result = some 200 }

abbrev attempt : Bool → Attempt
attempt b = record { raw = some upload_entry; executed = b }

completes : complete 5 200 (attempt false) (attempt true) (attempt false) ≡ ok stored
unfolding complete complete_tries completed_entry
completes = refl

gives_up : complete 5 200 (attempt false) (attempt false) (attempt false) ≡ err runtime_error
unfolding complete complete_tries completed_entry
gives_up = refl

attempt-IsReserved : (b : Bool) → IsReserved 1 77 5 (attempt b)
attempt-IsReserved b old read own = (ground arith, ground arith)

complete-claim_example : claim 1 78 6 false (some stored) false none ≡ ok conflict
complete-claim_example =
    complete-claim 1 77 5 200 1 78 6 (attempt false) (attempt true) (attempt false) stored false
      none (attempt-IsReserved false, (attempt-IsReserved true, (attempt-IsReserved false, tt)))
      completes

-- A request acquires the key, which expires; another one acquires it and completes.
abbrev second_run : Keyed
second_run = record {
  cell = some (record (new_entry 1 77 6) { state = completed; token = none; result = some 200 });
  version = 4;
  acquired = 6 ∷ 5 ∷ [];
  expiries = 1;
  watches = record { token = 6; version = 3 } ∷ [];
  readings = record { token = 6; version = 3; raw = some (new_entry 1 77 6) } ∷ [];
  completions = (6, 200) ∷ [];
}

second_run-Reach : Reach second_run
unfolding completed_entry
second_run-Reach =
    let acquires = next start (sets 1 77 5 refl) in
    let again = next (next acquires expires) (sets 1 77 6 refl) in
    let reads =
      next (next again (watches 6)) (gets [] [] (record { token = 6; version = 3 }) refl) in
    next reads (
      executes [] [] (record { token = 6; version = 3; raw = some (new_entry 1 77 6) }) 200
        (record (new_entry 1 77 6) { state = completed; token = none; result = some 200 }) refl refl
        refl)

Reach-IsOwned_example : (2 ≤ 2) × IsOwned second_run.cell second_run.acquired second_run.completions
Reach-IsOwned_example = Reach-IsOwned second_run-Reach
