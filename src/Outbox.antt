-- ===== src/Outbox.antt =====
-- server/app/infrastructure/repositories/vector/outbox_dispatcher.py: the dispatcher that applies
-- the entries of the vector outbox. Applying an entry calls Qdrant and the cache, so its outcome is
-- an argument: `none`, or the text of the exception. The table of documents is reduced to the
-- columns that the dispatcher touches.
pub mod Entry
pub mod Table
pub mod Claims
pub mod Lives
pub mod Unique
pub mod Retries
pub mod Completes
mod Tests
use rag_assistant.Prelude.{
  Bool, List, Option, String, [], false, if◌then◌else◌, min, none, some, suc, true, ℕ, ◌&&◌, ◌*◌,
  ◌==◌, ◌^◌, ◌∷◌,
}
use rag_assistant.Documents.{DocumentStatus}
use rag_assistant.Documents
use rag_assistant.Outbox.Entry.{VectorOutboxEntry, is_document}
use rag_assistant.Outbox.Table.{
  Outbox, mark_done, mark_failed, update_entry, count_by_document, claim_batch, recover_stuck,
}

pub record DocumentRow : Type 0 where
  pub document_id : ℕ
  pub document_status : DocumentStatus
  pub indexed_at : Option ℕ
  pub version : ℕ

pub record Store : Type 0 where
  pub outbox : Outbox
  pub documents : List DocumentRow

abbrev pub base_backoff_sec : ℕ
base_backoff_sec = 5

abbrev pub max_backoff_sec : ℕ
max_backoff_sec = 900

unfoldable pub backoff_seconds : ℕ → ℕ
backoff_seconds attempts = min (base_backoff_sec * 2 ^ attempts) max_backoff_sec

abbrev pub is_indexing : DocumentStatus → Bool
is_indexing Documents.indexing = true
is_indexing _ = false

abbrev pub complete : ℕ → DocumentRow → DocumentRow
complete now d = record d {
  document_status = Documents.done;
  indexed_at = some now;
  version = suc d.version;
}

-- `mark_done_if_indexing` of the document repository.
unfoldable pub mark_done_if_indexing : ℕ → ℕ → List DocumentRow → List DocumentRow
mark_done_if_indexing now id [] = []
mark_done_if_indexing now id (d ∷ ds) =
    (if d.document_id == id && is_indexing d.document_status then complete now d else d)
    ∷ mark_done_if_indexing now id ds

-- Neither a pending nor a failed entry of the document.
abbrev pub all_applied : ℕ → Outbox → Bool
unfolding count_by_document
all_applied id rows = let counts = count_by_document id rows in counts.0 == 0 && counts.1 == 0

-- `_apply_one`, where `outcome` is the exception of dispatching and of the cache's invalidation.
unfoldable pub apply_one : ℕ → Option String → VectorOutboxEntry → Store → Store
unfolding mark_done mark_failed update_entry count_by_document mark_done_if_indexing backoff_seconds
apply_one now (some error) e s = record s {
  outbox = mark_failed now e.id error (backoff_seconds e.attempts) s.outbox;
}
apply_one now none e s =
    let rows = mark_done now e.id s.outbox in
    record s {
      outbox = rows;
      documents =
          if is_document e.aggregate_type && all_applied e.aggregate_id rows
          then mark_done_if_indexing now e.aggregate_id s.documents
          else s.documents;
    }

-- The entries of a batch, each with its time and its outcome, in the order in which they end.
unfoldable pub apply_batch : List (ℕ × Option String × VectorOutboxEntry) → Store → Store
unfolding apply_one
apply_batch [] s = s
apply_batch ((now, outcome, e) ∷ es) s = apply_batch es (apply_one now outcome e s)
