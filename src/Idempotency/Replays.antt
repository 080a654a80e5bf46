-- ===== src/Idempotency/Replays.antt =====
-- server/app/infrastructure/rate_limit/idempotency.py: what a completion stores, and how the requests
-- that repeat it are answered.
use rag_assistant.Prelude.{
  >>=-inversion, Bool, List, Option, Result, [], ap, arith, err, false, if◌then◌else◌, inl, inr,
  none, ok, ok-injective, option_eq, refl, runtime_error, some, sym, true, ℕ, ◌&&◌, ◌==◌, ◌∷◌, ◌≡◌,
  ◌⊎◌, All,
}
use rag_assistant.Idempotency.{
  completed, Reservation, replayed, conflict, claim, completed_entry, Attempt, complete_tries,
  complete,
}

own_token : (o : Option ℕ) {token : ℕ} → option_eq o (some token) ≡ true → o ≡ some token
own_token none h = cc
own_token (some t) h = ap some (ground arith)

sent_if :
    (b : Bool) (e stored : Reservation)
    → (if b then ok e else err runtime_error) ≡ ok stored
    → (b ≡ true) × (stored ≡ e)
sent_if true e stored h = (refl, sym (ok-injective h))
sent_if false e stored h = cc

sent_or :
    (b : Bool) (e : Reservation) (rest : Result Reservation) (stored : Reservation)
    → (if b then ok e else rest) ≡ ok stored
    → (stored ≡ e) ⊎ (rest ≡ ok stored)
sent_or true e rest stored h = inl (sym (ok-injective h))
sent_or false e rest stored h = inr h

-- What a try of a completion sends: the entry that it read under its own token, completed.
pub completed_entry_lem :
    (token result : ℕ) (raw : Option Reservation) (entry : Reservation)
    → completed_entry token result raw ≡ ok entry
    → (old : Reservation) × (raw ≡ some old)
      × (old.token ≡ some token)
      × (entry ≡ record old { state = completed; token = none; result = some result })
unfolding completed_entry
completed_entry_lem token result none entry h = cc
completed_entry_lem token result (some old) entry h =
    let (own, same) =
      sent_if (option_eq old.token (some token))
        (record old { state = completed; token = none; result = some result }) entry h in
    (old, refl, own_token old.token own, same)

-- The reservation of a request: what a reading shows under its token is what the request has put.
abbrev pub IsReserved : (operation fingerprint own : ℕ) → Attempt → Type 0
IsReserved operation fingerprint own t =
    (old : Reservation)
    → t.raw ≡ some old
    → old.token ≡ some own
    → (old.operation ≡ operation) × (old.fingerprint ≡ fingerprint)

complete_tries_lem :
    (operation fingerprint token result : ℕ) (tries : List Attempt) (stored : Reservation)
    → All (IsReserved operation fingerprint token) tries
    → complete_tries token result tries ≡ ok stored
    → stored ≡ record {
      operation = operation;
      fingerprint = fingerprint;
      state = completed;
      token = none;
      result = some result;
    }
unfolding complete_tries
complete_tries_lem operation fingerprint token result [] stored reserved h = cc
complete_tries_lem operation fingerprint token result (t ∷ tries) stored reserved h =
    let (entry, going, sent) = >>=-inversion (completed_entry token result t.raw) _ h in
    let (old, raw, own, same) = completed_entry_lem token result t.raw entry sent in
    let (operated, printed) = reserved.0 old raw own in
    elim (sent_or t.executed entry (complete_tries token result tries) stored going) [
      | inl now ↦ rw (now, same, operated, printed) refl
      | inr later ↦
          complete_tries_lem operation fingerprint token result tries stored reserved.1 later
    ]

-- Let a request complete whose reservation was for an operation and a fingerprint: what it has read
-- under its token has both. Then another request that finds the key taken is answered with the
-- result, if it has the same operation and fingerprint, and else with a conflict.
pub complete-claim :
    (operation fingerprint own result operation' fingerprint' token : ℕ)
    (first second third : Attempt) (stored : Reservation) (set_again : Bool)
    (raw_again : Option Reservation)
    → All (IsReserved operation fingerprint own) (first ∷ second ∷ third ∷ [])
    → complete own result first second third ≡ ok stored
    → claim operation' fingerprint' token false (some stored) set_again raw_again
      ≡ ok (
          if (operation == operation') && (fingerprint == fingerprint')
          then replayed (some result)
          else conflict)
unfolding complete claim
complete-claim operation fingerprint own result operation' fingerprint' token first second third
      stored set_again raw_again reserved h =
    let e =
      complete_tries_lem operation fingerprint own result (first ∷ second ∷ third ∷ []) stored
        reserved h in
    rw e (ground arith)
