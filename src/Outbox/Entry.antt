-- ===== src/Outbox/Entry.antt =====
-- server/app/domain/knowledge/index_sync.py: an entry of the vector outbox, with the columns that
-- server/app/infrastructure/repositories/config/sqlalchemy_vector_outbox_repository.py keeps beside it.
use rag_assistant.Prelude.{
  Bool, Option, String, false, if◌then◌else◌, leb, some, suc, true, ℕ, ◌||◌,
}

pub data OutboxOperation : Type 0 where
  upsert_chunks delete_by_document delete_chunks rename_document : OutboxOperation
  update_metadata set_document_id : OutboxOperation

-- `pending` and `failed` entries are the ones that wait for a dispatcher.
pub data OutboxStatus : Type 0 where
  pending in_progress done failed dead_letter : OutboxStatus

-- The two aggregate types that the code enqueues.
pub data AggregateType : Type 0 where
  document act_version : AggregateType

pub record VectorOutboxEntry : Type 0 where
  pub id : ℕ
  pub operation : OutboxOperation
  pub aggregate_type : AggregateType
  pub aggregate_id : ℕ
  pub payload : String
  pub status : OutboxStatus
  pub attempts : ℕ
  pub max_attempts : ℕ
  pub last_error : Option String
  pub next_attempt_at : ℕ
  pub locked_by : Option ℕ
  pub locked_at : Option ℕ
  pub completed_at : Option ℕ

abbrev pub is_document : AggregateType → Bool
is_document document = true
is_document act_version = false

abbrev pub is_done : OutboxStatus → Bool
is_done done = true
is_done _ = false

abbrev pub is_waiting : OutboxStatus → Bool
is_waiting pending = true
is_waiting failed = true
is_waiting _ = false

abbrev pub is_in_progress : OutboxStatus → Bool
is_in_progress in_progress = true
is_in_progress _ = false

abbrev pub is_failed : OutboxStatus → Bool
is_failed failed = true
is_failed dead_letter = true
is_failed _ = false

-- `status IN ('pending', 'failed', 'in_progress')`
abbrev pub is_unfinished : OutboxStatus → Bool
is_unfinished s = is_waiting s || is_in_progress s

-- `VectorOutboxEntry.is_dead_letter`
abbrev pub is_dead_letter : OutboxStatus → Bool
is_dead_letter dead_letter = true
is_dead_letter _ = false

-- `VectorOutboxEntry.mark_failed`
unfoldable pub entry_mark_failed : String → VectorOutboxEntry → VectorOutboxEntry
entry_mark_failed error e = record e {
  attempts = suc e.attempts;
  last_error = some error;
  status = if leb e.max_attempts (suc e.attempts) then dead_letter else failed;
}
