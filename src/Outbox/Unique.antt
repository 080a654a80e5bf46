-- ===== src/Outbox/Unique.antt =====
-- The ids of the vector outbox stay unique under its methods.
use rag_assistant.Prelude.{
  Bool, Bool-cases, String, [], arith, false, inl, inr, ltb, refl, ℕ, ◌&&◌, ◌++◌, ◌-◌, ◌==◌, ◌∷◌,
  ◌≡◌,
}
use rag_assistant.Outbox.Entry.{VectorOutboxEntry, entry_mark_failed}
use rag_assistant.Outbox.Table.{
  Outbox, claimable, claim_batch, enqueue, recover_stuck, is_stuck, update_entry, mark_done,
  mark_failed, mark_dead_letter, fail,
}
use rag_assistant.Outbox.Lives.{
  Step, enqueued, claimed, recovered, succeeded, raised, buried, Reach, empty, later,
}
use rag_assistant.Outbox.Claims.{has_id, IsUnique, claim_batch_absent}

append_absent :
    (id : ℕ) (rows : Outbox) (e : VectorOutboxEntry)
    → has_id id rows ≡ false
    → e.id == id ≡ false
    → has_id id (rows ++ (e ∷ [])) ≡ false
append_absent id [] e h other = ground arith
append_absent id (x ∷ rows) e h other = ground (arith, append_absent id rows e (ground arith) other)

append-IsUnique :
    (rows : Outbox) (e : VectorOutboxEntry)
    → has_id e.id rows ≡ false
    → IsUnique rows
    → IsUnique (rows ++ (e ∷ []))
append-IsUnique [] e h u = (refl, tt)
append-IsUnique (x ∷ rows) e h u =
    (append_absent x.id rows e u.0 (ground arith), append-IsUnique rows e (ground arith) u.1)

claim_batch-IsUnique :
    (worker now : ℕ) (skip : ℕ → Bool) (limit : ℕ) (rows : Outbox)
    → IsUnique rows
    → IsUnique (claim_batch worker now skip limit rows).0
unfolding claim_batch
claim_batch-IsUnique worker now skip limit [] u = tt
claim_batch-IsUnique worker now skip limit (e ∷ es) u =
    elim (Bool-cases (claimable now skip e && ltb 0 limit)) [
      | inl taken ↦ rw taken (
        (claim_batch_absent worker now skip (limit - 1) e.id es u.0).0,
        claim_batch-IsUnique worker now skip (limit - 1) es u.1,
      )
      | inr kept ↦ rw kept (
        (claim_batch_absent worker now skip limit e.id es u.0).0,
        claim_batch-IsUnique worker now skip limit es u.1,
      )
    ]

recover_stuck_absent :
    (now timeout id : ℕ) (rows : Outbox)
    → has_id id rows ≡ false
    → has_id id (recover_stuck now timeout rows) ≡ false
unfolding recover_stuck
recover_stuck_absent now timeout id [] h = refl
recover_stuck_absent now timeout id (e ∷ es) h = elim (Bool-cases (is_stuck now timeout e)) [
  | inl stuck ↦ rw stuck (ground (arith, recover_stuck_absent now timeout id es (ground arith)))
  | inr fine ↦ rw fine (ground (arith, recover_stuck_absent now timeout id es (ground arith)))
]

recover_stuck-IsUnique :
    (now timeout : ℕ) (rows : Outbox) → IsUnique rows → IsUnique (recover_stuck now timeout rows)
unfolding recover_stuck
recover_stuck-IsUnique now timeout [] u = tt
recover_stuck-IsUnique now timeout (e ∷ es) u =
    let absent = recover_stuck_absent now timeout e.id es u.0 in
    elim (Bool-cases (is_stuck now timeout e)) [
      | inl stuck ↦ rw stuck (absent, recover_stuck-IsUnique now timeout es u.1)
      | inr fine ↦ rw fine (absent, recover_stuck-IsUnique now timeout es u.1)
    ]

abbrev KeepsId : (VectorOutboxEntry → VectorOutboxEntry) → Type 0
KeepsId f = (e : VectorOutboxEntry) → (f e).id ≡ e.id

update_entry_absent :
    (id key : ℕ) (f : VectorOutboxEntry → VectorOutboxEntry) (rows : Outbox)
    → KeepsId f
    → has_id key rows ≡ false
    → has_id key (update_entry id f rows) ≡ false
unfolding update_entry
update_entry_absent id key f [] k h = refl
update_entry_absent id key f (e ∷ es) k h =
    let below = update_entry_absent id key f es k (ground arith) in
    elim (Bool-cases (e.id == id)) [
      | inl same ↦ rw (same, k e) (ground arith)
      | inr other ↦ rw other (ground arith)
    ]

update_entry-IsUnique :
    (id : ℕ) (f : VectorOutboxEntry → VectorOutboxEntry) (rows : Outbox)
    → KeepsId f
    → IsUnique rows
    → IsUnique (update_entry id f rows)
unfolding update_entry
update_entry-IsUnique id f [] k u = tt
update_entry-IsUnique id f (e ∷ es) k u =
    let absent = update_entry_absent id e.id f es k u.0 in
    let below = update_entry-IsUnique id f es k u.1 in
    elim (Bool-cases (e.id == id)) [
      | inl same ↦ rw (same, k e) (absent, below)
      | inr other ↦ rw other (absent, below)
    ]

fail-KeepsId : (now : ℕ) (error : String) (backoff : ℕ) → KeepsId (fail now error backoff)
unfolding entry_mark_failed
fail-KeepsId now error backoff e = ground arith

Step-IsUnique : {rows rows' : Outbox} → Step rows rows' → IsUnique rows → IsUnique rows'
unfolding enqueue mark_done mark_failed mark_dead_letter
Step-IsUnique {rows} (enqueued now id operation aggregate_type aggregate_id payload fresh) u =
    append-IsUnique rows _ fresh u
Step-IsUnique {rows} (claimed worker now skip limit) u =
    claim_batch-IsUnique worker now skip limit rows u
Step-IsUnique {rows} (recovered now timeout) u = recover_stuck-IsUnique now timeout rows u
Step-IsUnique {rows} (succeeded now id) u = update_entry-IsUnique id _ rows (λ e. refl) u
Step-IsUnique {rows} (raised now id error backoff) u =
    update_entry-IsUnique id _ rows (fail-KeepsId now error backoff) u
Step-IsUnique {rows} (buried id error) u = update_entry-IsUnique id _ rows (λ e. refl) u

-- In every table that the methods can reach, the ids are unique.
pub Reach-IsUnique : {rows : Outbox} → Reach rows → IsUnique rows
Reach-IsUnique empty = tt
Reach-IsUnique (later r s) = Step-IsUnique s (Reach-IsUnique r)
