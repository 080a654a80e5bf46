-- ===== src/Budget/Tests.antt =====
-- One request, with limits of 10 and 20 units, and the theorems applied to it.
use rag_assistant.Prelude.{
  refl, ◌≤◌, List, [], budget_error, err, none, ok, some, true, ℕ, ◌∷◌, ◌≡◌, ◌≢◌, ◌≤◌,
}
use rag_assistant.Budget.Table.{
  Usage, Ledger, find_usage, rate_violated, total_units, hour, day, sum_by,
}
use rag_assistant.Budget.{Request, reserve, admit, new_usage}
use rag_assistant.Budget.Totals.{IsUnique}
use rag_assistant.Budget.Payment.{settle, mark_dispatch, release_before_dispatch, find_own}
use rag_assistant.Budget.Limits.{reserve_within_limits}
use rag_assistant.Budget.Release.{reserve-release}
use rag_assistant.Budget.Sending.{dispatch_once}
use rag_assistant.Budget.Rows.{
  IsValid, Call, reserving, reconciling, dispatching, responding, apply_calls, apply_calls-IsValid,
}

abbrev ask : Request
ask = record {
  principal = 1;
  operation_id = 5;
  provider = 2;
  model = 3;
  operation = 4;
  maximum_units = 6;
  rate_version = 1;
  hourly_units = 10;
  daily_units = 20;
  enforce_limits = true;
  request_fingerprint = some 8;
}

-- An earlier operation of the same principal, paid two hours before 9000.
abbrev earlier : Usage
earlier =
    settle 1800 12 none none none
      (new_usage 1000 (record ask { operation_id = 4; maximum_units = 12 }))

abbrev history : Ledger
history = earlier ∷ []

history-IsUnique : IsUnique history
unfolding find_usage
history-IsUnique = (refl, tt)

reserve_test : (reserve 9000 ask history).0 ≡ ok true
unfolding reserve find_usage rate_violated total_units sum_by admit
reserve_test = refl

reserve_test_hour : (reserve 5000 ask history).0 ≡ err budget_error
unfolding reserve find_usage rate_violated total_units sum_by admit
reserve_test_hour = refl

abbrev pending : Usage
pending = new_usage 9000 ask

abbrev taken : Ledger
taken = pending ∷ history

find_usage_test : find_usage 5 taken ≡ some pending
unfolding find_usage
find_usage_test = refl

mark_dispatch_test : (mark_dispatch 1 5 taken).0 ≡ ok tt
unfolding mark_dispatch find_own find_usage
mark_dispatch_test = refl

reserve_within_limits_example :
    (total_units hour 9000 1 (reserve 9000 ask history).1 ≤ 10)
    × (total_units day 9000 1 (reserve 9000 ask history).1 ≤ 20)
reserve_within_limits_example =
    reserve_within_limits 9000 ask history history-IsUnique refl reserve_test

reserve-release_example :
    let released = release_before_dispatch 9010 1 5 (reserve 9000 ask history).1 in
    (released.0 ≡ ok tt)
    × ((span t : ℕ) → total_units span t 1 released.1 ≡ total_units span t 1 history)
reserve-release_example = reserve-release 9000 9010 ask history history-IsUnique reserve_test

dispatch_once_example :
    let sent = apply_calls (responding 1 5 77 ∷ []) (mark_dispatch 1 5 taken).1 in
    (mark_dispatch 1 5 sent ≡ (err budget_error, sent))
    × ((reserve 9006 ask sent).0 ≢ ok true)
    × ((reserve 9006 ask sent).1 ≡ sent)
dispatch_once_example =
    dispatch_once 9006 1 1 ask taken (responding 1 5 77 ∷ []) mark_dispatch_test (refl, tt)

history-IsValid : IsValid history
history-IsValid = record {
  unique = history-IsUnique;
  consistent = (record { timed = refl; state = refl }, tt);
}

abbrev calls : List Call
calls =
    reserving 9000 ask
    ∷ dispatching 1 5
    ∷ responding 1 5 77
    ∷ reconciling 9005 1 5 4 none none none
    ∷ []

apply_calls-IsValid_example : IsValid (apply_calls calls history)
apply_calls-IsValid_example = apply_calls-IsValid calls history history-IsValid
