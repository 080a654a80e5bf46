-- ===== src/Outbox/Lives.antt =====
-- What holds of every table that the methods of the vector outbox can reach, and the life of one
-- entry under failures.
use rag_assistant.Prelude.{
  All, Bool, Bool-cases, String, [], arith, false, inl, inr, leb, ltb, refl, suc, true, ℕ, ◌&&◌,
  ◌++◌, ◌-◌, ◌<◌, ◌==◌, ◌∷◌, ◌≡◌,
}
use rag_assistant.Outbox.Entry.{
  VectorOutboxEntry, OutboxOperation, AggregateType, is_unfinished, entry_mark_failed,
}
use rag_assistant.Outbox.Table.{
  Outbox, claimable, claim, claim_batch, enqueue, recover_stuck, recover, is_stuck, update_entry,
  mark_done, mark_failed, mark_dead_letter, fail,
}
use rag_assistant.Outbox.Claims.{has_id}

-- One transaction on the table. The ids come from a sequence, so a new one is fresh.
pub data Step (rows : Outbox) : Outbox → Type 0 where
  enqueued :
      (now id : ℕ) (operation : OutboxOperation) (aggregate_type : AggregateType) (aggregate_id : ℕ)
      (payload : String)
      → has_id id rows ≡ false
      → Step rows (enqueue now id operation aggregate_type aggregate_id payload rows)
  claimed :
      (worker now : ℕ) (skip : ℕ → Bool) (limit : ℕ)
      → Step rows (claim_batch worker now skip limit rows).0
  recovered : (now timeout : ℕ) → Step rows (recover_stuck now timeout rows)
  succeeded : (now id : ℕ) → Step rows (mark_done now id rows)
  raised :
      (now id : ℕ) (error : String) (backoff : ℕ)
      → Step rows (mark_failed now id error backoff rows)
  buried : (id : ℕ) (error : String) → Step rows (mark_dead_letter id error rows)

pub data Reach : Outbox → Type 0 where
  empty : Reach []
  later : {rows rows' : Outbox} → Reach rows → Step rows rows' → Reach rows'

-- An entry that has not been given up or applied has attempts left.
pub record HasAttempts (e : VectorOutboxEntry) : Type 0 where
  pub limit : e.max_attempts ≡ 8
  pub left : is_unfinished e.status ≡ true → e.attempts < 8

All-append :
    (P : VectorOutboxEntry → Type 0) (rows : Outbox) (e : VectorOutboxEntry)
    → All P rows
    → P e
    → All P (rows ++ (e ∷ []))
All-append P [] e a p = (p, tt)
All-append P (x ∷ rows) e a p = (a.0, All-append P rows e a.1 p)

All-claim_batch :
    (P : VectorOutboxEntry → Type 0) (worker now : ℕ) (skip : ℕ → Bool) (limit : ℕ) (rows : Outbox)
    → ((e : VectorOutboxEntry) → claimable now skip e ≡ true → P e → P (claim worker now e))
    → All P rows
    → All P (claim_batch worker now skip limit rows).0
unfolding claim_batch
All-claim_batch P worker now skip limit [] h a = tt
All-claim_batch P worker now skip limit (e ∷ es) h a =
    elim (Bool-cases (claimable now skip e && ltb 0 limit)) [
      | inl taken ↦
          rw taken (h e (ground arith) a.0, All-claim_batch P worker now skip (limit - 1) es h a.1)
      | inr kept ↦ rw kept (a.0, All-claim_batch P worker now skip limit es h a.1)
    ]

All-recover_stuck :
    (P : VectorOutboxEntry → Type 0) (now timeout : ℕ) (rows : Outbox)
    → ((e : VectorOutboxEntry) → is_stuck now timeout e ≡ true → P e → P (recover e))
    → All P rows
    → All P (recover_stuck now timeout rows)
unfolding recover_stuck
All-recover_stuck P now timeout [] h a = tt
All-recover_stuck P now timeout (e ∷ es) h a = elim (Bool-cases (is_stuck now timeout e)) [
  | inl stuck ↦ rw stuck (h e stuck a.0, All-recover_stuck P now timeout es h a.1)
  | inr fine ↦ rw fine (a.0, All-recover_stuck P now timeout es h a.1)
]

All-update_entry :
    (P : VectorOutboxEntry → Type 0) (id : ℕ) (f : VectorOutboxEntry → VectorOutboxEntry)
    (rows : Outbox)
    → ((e : VectorOutboxEntry) → P e → P (f e))
    → All P rows
    → All P (update_entry id f rows)
unfolding update_entry
All-update_entry P id f [] h a = tt
All-update_entry P id f (e ∷ es) h a = elim (Bool-cases (e.id == id)) [
  | inl same ↦ rw same (h e a.0, All-update_entry P id f es h a.1)
  | inr other ↦ rw other (a.0, All-update_entry P id f es h a.1)
]

fail-HasAttempts :
    (now : ℕ) (error : String) (backoff : ℕ) (e : VectorOutboxEntry)
    → HasAttempts e
    → HasAttempts (fail now error backoff e)
unfolding entry_mark_failed
fail-HasAttempts now error backoff e h = elim (Bool-cases (leb e.max_attempts (suc e.attempts))) [
  | inl out ↦ rw out (record { limit = h.limit; left = λ x. ground arith })
  | inr more ↦ rw more (record { limit = h.limit; left = λ x. ground arith })
]

Step-HasAttempts :
    {rows rows' : Outbox} → Step rows rows' → All HasAttempts rows → All HasAttempts rows'
unfolding enqueue mark_done mark_failed mark_dead_letter
Step-HasAttempts {rows} (enqueued now id operation aggregate_type aggregate_id payload fresh) a =
    All-append HasAttempts rows _ a (record { limit = refl; left = λ x. omega arith })
Step-HasAttempts {rows} (claimed worker now skip limit) a =
    All-claim_batch HasAttempts worker now skip limit rows
      (λ e due h. record { limit = h.limit; left = λ x. h.left (ground arith) }) a
Step-HasAttempts {rows} (recovered now timeout) a =
    All-recover_stuck HasAttempts now timeout rows
      (λ e stuck h. record { limit = h.limit; left = λ x. h.left (ground arith) }) a
Step-HasAttempts {rows} (succeeded now id) a =
    All-update_entry HasAttempts id _ rows
      (λ e h. record { limit = h.limit; left = λ x. ground arith }) a
Step-HasAttempts {rows} (raised now id error backoff) a =
    All-update_entry HasAttempts id _ rows (λ e h. fail-HasAttempts now error backoff e h) a
Step-HasAttempts {rows} (buried id error) a =
    All-update_entry HasAttempts id _ rows
      (λ e h. record { limit = h.limit; left = λ x. ground arith }) a

-- In every table that the methods can reach, an entry that is neither applied nor given up has
-- attempts left of its eight.
pub Reach-HasAttempts : {rows : Outbox} → Reach rows → All HasAttempts rows
Reach-HasAttempts empty = tt
Reach-HasAttempts (later r s) = Step-HasAttempts s (Reach-HasAttempts r)
