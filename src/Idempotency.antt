-- ===== src/Idempotency.antt =====
-- server/app/infrastructure/rate_limit/idempotency.py: the reservations of write requests, for one key
-- in Redis. The replies of Redis are arguments, of which Idempotency/Interleavings says how they come
-- about. Operations, fingerprints, tokens and results are only compared or passed on: numbers stand
-- for them.
pub mod Interleavings
pub mod Replays
pub mod Owned
mod Tests
use rag_assistant.Prelude.{
  ℕ, Bool, true, false, not, ◌||◌, Option, none, some, List, [], ◌∷◌, Result, ok, err,
  runtime_error, ◌>>=◌, ◌==◌, option_eq, if◌then◌else◌,
}

pub data EntryState : Type 0 where
  in_progress completed : EntryState

-- The dictionary that is stored as JSON.
pub record Reservation : Type 0 where
  pub operation : ℕ
  pub fingerprint : ℕ
  pub state : EntryState
  pub token : Option ℕ
  pub result : Option ℕ

-- The answers of `claim`: the statuses of `IdempotencyClaimStatus`, with the token or the result.
pub data Claim : Type 0 where
  acquired : ℕ → Claim
  in_progress_elsewhere : Claim
  replayed : Option ℕ → Claim
  conflict : Claim

abbrev pub new_entry : (operation fingerprint token : ℕ) → Reservation
new_entry operation fingerprint token = record {
  operation = operation;
  fingerprint = fingerprint;
  state = in_progress;
  token = some token;
  result = none;
}

abbrev answer_state : EntryState → Option ℕ → Claim
answer_state completed result = replayed result
answer_state in_progress result = in_progress_elsewhere

abbrev pub answer : (operation fingerprint : ℕ) → Reservation → Claim
answer operation fingerprint existing =
    if not (existing.operation == operation) || not (existing.fingerprint == fingerprint)
    then conflict
    else answer_state existing.state existing.result

abbrev last_reading : (operation fingerprint : ℕ) → Option Reservation → Result Claim
last_reading operation fingerprint none = err runtime_error
last_reading operation fingerprint (some existing) = ok (answer operation fingerprint existing)

-- `claim`, with the replies of its two `SET NX` and its two `GET`, of which it uses what it asks for.
unfoldable pub claim :
    (operation fingerprint token : ℕ)
    → (set : Bool) → (raw : Option Reservation) → (set_again : Bool)
    → (raw_again : Option Reservation) → Result Claim
claim operation fingerprint token true raw set_again raw_again = ok (acquired token)
claim operation fingerprint token false (some existing) set_again raw_again =
    ok (answer operation fingerprint existing)
claim operation fingerprint token false none true raw_again = ok (acquired token)
claim operation fingerprint token false none false raw_again =
    last_reading operation fingerprint raw_again

-- What one try of `complete` sends, from what it has read.
unfoldable pub completed_entry : (token result : ℕ) → Option Reservation → Result Reservation
completed_entry token result none = err runtime_error
completed_entry token result (some entry) =
    if option_eq entry.token (some token)
    then ok (record entry { state = completed; token = none; result = some result })
    else err runtime_error

-- A try of `complete`: what `GET` returned, and whether `EXEC` was carried out.
pub record Attempt : Type 0 where
  pub raw : Option Reservation
  pub executed : Bool

unfoldable pub complete_tries : (token result : ℕ) → List Attempt → Result Reservation
complete_tries token result [] = err runtime_error
complete_tries token result (t ∷ tries) =
    let rest = complete_tries token result tries in
    completed_entry token result t.raw >>= (λ entry. if t.executed then ok entry else rest)

-- `complete`, with its three tries: what it has stored.
unfoldable pub complete : (token result : ℕ) → (first second third : Attempt) → Result Reservation
unfolding complete_tries
complete token result first second third = complete_tries token result (first ∷ second ∷ third ∷ [])
