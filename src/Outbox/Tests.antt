-- ===== src/Outbox/Tests.antt =====
-- A table of three entries of document 7, and the theorems applied to it.
use rag_assistant.Prelude.{
  Bool, List, String, [], false, if◌then◌else◌, none, refl, some, true, ℕ, ◌∷◌, ◌≡◌,
}
use rag_assistant.Documents.{indexing}
use rag_assistant.Documents
use rag_assistant.Outbox.Entry.{
  VectorOutboxEntry, upsert_chunks, rename_document, document, pending, done,
}
use rag_assistant.Outbox.Table.{Outbox, enqueue, claim_batch, mark_failed, recover_stuck}
use rag_assistant.Outbox.{Store, apply_one}
use rag_assistant.Outbox.Claims.{has_id, claim_batch-disjoint}
use rag_assistant.Outbox.Lives.{Reach, empty, later, enqueued, claimed, raised, recovered}
use rag_assistant.Outbox.Completes.{find_status, others_done, apply_one-completes}

abbrev upsert : VectorOutboxEntry
upsert = record {
  id = 1;
  operation = upsert_chunks;
  aggregate_type = document;
  aggregate_id = 7;
  payload = "{}";
  status = pending;
  attempts = 0;
  max_attempts = 8;
  last_error = none;
  next_attempt_at = 10;
  locked_by = none;
  locked_at = none;
  completed_at = none;
}

abbrev rename : VectorOutboxEntry
rename = record upsert { id = 2; operation = rename_document }

abbrev applied : VectorOutboxEntry
applied = record upsert { id = 3; status = done }

abbrev free : ℕ → Bool
free id = false

abbrev rows : Outbox
rows = upsert ∷ rename ∷ applied ∷ []

claim_batch_test : has_id 1 (claim_batch 4 20 free 1 rows).1 ≡ true
unfolding claim_batch
claim_batch_test = refl

claim_batch-disjoint_example :
    has_id 1 (claim_batch 5 21 free 2 (claim_batch 4 20 free 1 rows).0).1 ≡ false
claim_batch-disjoint_example =
    claim_batch-disjoint 4 5 20 21 free free 1 2 1 rows (refl, (refl, (refl, tt))) claim_batch_test

abbrev queued : Outbox
queued = enqueue 10 1 upsert_chunks document 7 "{}" []

abbrev tried : Outbox
tried = mark_failed 30 1 "timeout" 5 (claim_batch 4 20 free 5 queued).0

tried-Reach : Reach (recover_stuck 400 300 tried)
tried-Reach =
    later
      (later
        (later (later empty (enqueued 10 1 upsert_chunks document 7 "{}" refl))
          (claimed 4 20 free 5))
        (raised 30 1 "timeout" 5))
      (recovered 400 300)

abbrev attempts : List (ℕ × ℕ × String × ℕ)
attempts = (4, 20, "timeout", 5) ∷ (4, 30, "timeout", 10) ∷ []

abbrev store : Store
store = record {
  outbox = upsert ∷ applied ∷ [];
  documents =
      record { document_id = 7; document_status = indexing; indexed_at = none; version = 1 } ∷ [];
}

find_status_test : find_status 7 store.documents ≡ some indexing
unfolding find_status
find_status_test = refl

apply_one-completes_example :
    find_status 7 (apply_one 40 none upsert store).documents
    ≡ some (if others_done 7 1 store.outbox then Documents.done else indexing)
apply_one-completes_example = apply_one-completes 40 upsert store refl find_status_test
