-- ===== src/Outbox/Table.antt =====
-- The repository of the vector outbox,
-- server/app/infrastructure/repositories/config/sqlalchemy_vector_outbox_repository.py: every method is
-- a transaction, hence a function of the table, whose rows stand in the order of their ids. Times
-- are in seconds.
use rag_assistant.Prelude.{
  Bool, List, String, [], false, if◌then◌else◌, leb, ltb, none, not, some, suc, ◌&&◌, ◌++◌, ◌+◌,
  ◌-◌, ◌==◌, ◌∷◌, ℕ,
}
use rag_assistant.Outbox.Entry.{
  OutboxOperation, AggregateType, VectorOutboxEntry, pending, in_progress, done, dead_letter,
  is_waiting, is_in_progress, is_unfinished, is_failed, is_dead_letter, entry_mark_failed,
}

abbrev pub Outbox : Type 0
Outbox = List VectorOutboxEntry

-- The INSERT, whose id is the next of the sequence.
unfoldable pub enqueue : ℕ → ℕ → OutboxOperation → AggregateType → ℕ → String → Outbox → Outbox
enqueue now id operation aggregate_type aggregate_id payload rows =
    rows
    ++ (record {
      id = id;
      operation = operation;
      aggregate_type = aggregate_type;
      aggregate_id = aggregate_id;
      payload = payload;
      status = pending;
      attempts = 0;
      max_attempts = 8;
      last_error = none;
      next_attempt_at = now;
      locked_by = none;
      locked_at = none;
      completed_at = none;
    }
        ∷ [])

-- The rows of the inner SELECT, but for its limit; `skip` says which are locked by others.
abbrev pub claimable : ℕ → (ℕ → Bool) → VectorOutboxEntry → Bool
claimable now skip e = is_waiting e.status && (leb e.next_attempt_at now && not (skip e.id))

abbrev pub claim : ℕ → ℕ → VectorOutboxEntry → VectorOutboxEntry
claim worker now e = record e {
  status = in_progress;
  locked_by = some worker;
  locked_at = some now;
}

-- The table after the UPDATE, and the rows that it returns.
unfoldable pub claim_batch : ℕ → ℕ → (ℕ → Bool) → ℕ → Outbox → Outbox × Outbox
claim_batch worker now skip limit [] = ([], [])
claim_batch worker now skip limit (e ∷ es) =
    let take = claimable now skip e && ltb 0 limit in
    let rest = claim_batch worker now skip (if take then limit - 1 else limit) es in
    if take
    then (claim worker now e ∷ rest.0, claim worker now e ∷ rest.1)
    else (e ∷ rest.0, rest.1)

abbrev pub is_stuck : ℕ → ℕ → VectorOutboxEntry → Bool
is_stuck now timeout e =
    is_in_progress e.status && elim e.locked_at [ none ↦ false | some t ↦ ltb (t + timeout) now ]

abbrev pub recover : VectorOutboxEntry → VectorOutboxEntry
recover e = record e {
  status = pending;
  locked_by = none;
  locked_at = none;
  last_error = some "Recovered from stuck in_progress (dispatcher crash)";
}

unfoldable pub recover_stuck : ℕ → ℕ → Outbox → Outbox
recover_stuck now timeout [] = []
recover_stuck now timeout (e ∷ es) =
    (if is_stuck now timeout e then recover e else e) ∷ recover_stuck now timeout es

-- The update of the row with an id, if there is one.
unfoldable pub update_entry : ℕ → (VectorOutboxEntry → VectorOutboxEntry) → Outbox → Outbox
update_entry id f [] = []
update_entry id f (e ∷ es) = (if e.id == id then f e else e) ∷ update_entry id f es

abbrev pub finish : ℕ → VectorOutboxEntry → VectorOutboxEntry
finish now e = record e { status = done; completed_at = some now }

unfoldable pub mark_done : ℕ → ℕ → Outbox → Outbox
unfolding update_entry
mark_done now id = update_entry id (finish now)

-- What `mark_failed` writes to the row, with the first 2000 characters of the text as `error`.
abbrev pub fail : ℕ → String → ℕ → VectorOutboxEntry → VectorOutboxEntry
unfolding entry_mark_failed
fail now error backoff e =
    let e' = entry_mark_failed error e in
    if is_dead_letter e'.status then e' else record e' { next_attempt_at = now + backoff }

unfoldable pub mark_failed : ℕ → ℕ → String → ℕ → Outbox → Outbox
unfolding update_entry
mark_failed now id error backoff = update_entry id (fail now error backoff)

unfoldable pub mark_dead_letter : ℕ → String → Outbox → Outbox
unfolding update_entry
mark_dead_letter id error =
    update_entry id (λ e. record e { status = dead_letter; last_error = some error })

unfoldable pub count_pending : Outbox → ℕ
count_pending [] = 0
count_pending (e ∷ es) = if is_unfinished e.status then suc (count_pending es) else count_pending es

-- `count_by_document`: the entries of an aggregate id that are unfinished, and that have failed.
unfoldable pub count_by_document : ℕ → Outbox → ℕ × ℕ
count_by_document id [] = (0, 0)
count_by_document id (e ∷ es) =
    let (n, m) = count_by_document id es in
    if e.aggregate_id == id
    then (if is_unfinished e.status then suc n else n, if is_failed e.status then suc m else m)
    else (n, m)
