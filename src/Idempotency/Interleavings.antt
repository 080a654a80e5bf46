-- ===== src/Idempotency/Interleavings.antt =====
-- server/app/infrastructure/rate_limit/idempotency.py: the commands of the requests on one key, in any
-- order, with the key's expiry. `EXEC` is carried out if the key has not changed since `WATCH`; a
-- number of changes stands for that.
use rag_assistant.Prelude.{List, Option, [], none, ok, some, ℕ, ◌++◌, ◌+◌, ◌∷◌, ◌≡◌}
use rag_assistant.Idempotency.{Reservation, new_entry, completed_entry}

pub record Watch : Type 0 where
  pub token : ℕ
  pub version : ℕ

pub record Reading : Type 0 where
  pub token : ℕ
  pub version : ℕ
  pub raw : Option Reservation

-- The key, with the number of its changes; the tokens of the requests that acquired it, the newest
-- first; the expiries; the requests inside a transaction; and the completions with their results.
pub record Keyed : Type 0 where
  pub cell : Option Reservation
  pub version : ℕ
  pub acquired : List ℕ
  pub expiries : ℕ
  pub watches : List Watch
  pub readings : List Reading
  pub completions : List (ℕ × ℕ)

abbrev pub untouched : Keyed
untouched = record {
  cell = none;
  version = 0;
  acquired = [];
  expiries = 0;
  watches = [];
  readings = [];
  completions = [];
}

abbrev pub write : Option Reservation → Keyed → Keyed
write cell s = record s { cell = cell; version = s.version + 1 }

pub data Step (s : Keyed) : Keyed → Type 0 where
  sets :
      (operation fingerprint token : ℕ)
      → s.cell ≡ none
      → Step s (record (write (some (new_entry operation fingerprint token)) s) {
        acquired = token ∷ s.acquired;
      })
  watches :
      (token : ℕ)
      → Step s (record s { watches = record { token = token; version = s.version } ∷ s.watches })
  gets :
      (before after : List Watch) (w : Watch)
      → s.watches ≡ before ++ w ∷ after
      → Step s (record s {
        readings = record { token = w.token; version = w.version; raw = s.cell } ∷ s.readings;
      })
  executes :
      (before after : List Reading) (r : Reading) (result : ℕ) (entry : Reservation)
      → s.readings ≡ before ++ r ∷ after
      → completed_entry r.token result r.raw ≡ ok entry
      → r.version ≡ s.version
      → Step s (record (write (some entry) s) { completions = (r.token, result) ∷ s.completions })
  expires : Step s (record (write none s) { expiries = s.expiries + 1 })

pub data Reach : Keyed → Type 0 where
  start : Reach untouched
  next : {s t : Keyed} → Reach s → Step s t → Reach t
