-- ===== src/Chunks.antt =====
-- server/app/application/chunks/mutations.py and access.py: editing, adding and deleting a chunk, each
-- in one transaction with its entry of the outbox, over the statements of
-- server/app/infrastructure/repositories/chunk/chunk_crud.py. A content is a number that stands for
-- its text, with its length; page, section, hashes and the metadata of the entries are left out.
pub mod Index
pub mod Interleavings
pub mod Mutations
pub mod Synced
pub mod Converges
pub mod Uploading
pub mod Dispatch
mod Tests
use rag_assistant.Prelude.{
  Bool, List, Option, [], business_rule_violation, entity_not_found, err, false, if◌then◌else◌, ltb,
  max, none, not, select, some, true, validation_error, ℕ, ◌++◌, ◌+◌, ◌==◌, ◌>>◌, ◌∷◌, Result, map,
  ok,
}
use rag_assistant.Identity.{UserContext, UserRole}
use rag_assistant.Documents.{Document, DocumentStatus, done, indexing, can_edit_chunks}

pub record Content : Type 0 where
  pub text : ℕ
  pub size : ℕ
  pub blank : Bool

pub record ChunkRecord : Type 0 where
  pub chunk_id : ℕ
  pub document_id : ℕ
  pub chunk_index : ℕ
  pub content : Content
  pub edited_at : Option ℕ
  pub edited_by : Option ℕ
  pub manual : Bool

-- The columns of a document that the mutations write.
pub record DocumentStats : Type 0 where
  pub document_id : ℕ
  pub has_manual_edits : Bool
  pub chunks : ℕ
  pub chars : ℕ

-- An outbox entry of a document: UPSERT_CHUNKS with the ids of its points, or DELETE_CHUNKS.
pub data ChunkEntry : Type 0 where
  upsert : ℕ → List ℕ → ChunkEntry
  delete : ℕ → List ℕ → ChunkEntry

-- The tables; ids of chunks come from a sequence.
pub record ChunkStore : Type 0 where
  pub documents : List DocumentStats
  pub chunks : List ChunkRecord
  pub outbox : List ChunkEntry
  pub next_id : ℕ

abbrev may_edit : ℕ → UserRole → UserContext → Document → Bool
may_edit user_id role ctx doc =
    can_edit_chunks user_id role ctx.group_ids ctx.managed_client_ids ctx.managed_internal_ids
      ctx.managed_group_ids doc

unfoldable pub load_doc_for_edit : ℕ → UserRole → UserContext → Option Document → Result (Unit {0})
unfolding can_edit_chunks
load_doc_for_edit user_id role ctx none = err entity_not_found
load_doc_for_edit user_id role ctx (some doc) =
    if may_edit user_id role ctx doc then ok tt else err business_rule_violation

abbrev is_addable : DocumentStatus → Bool
is_addable done = true
is_addable indexing = true
is_addable _ = false

unfoldable pub load_doc_for_add : ℕ → UserRole → UserContext → Option Document → Result (Unit {0})
unfolding can_edit_chunks
load_doc_for_add user_id role ctx none = err entity_not_found
load_doc_for_add user_id role ctx (some doc) =
    if not (is_addable doc.status)
    then err business_rule_violation
    else if may_edit user_id role ctx doc
    then ok tt
    else err business_rule_violation

-- The bounds are products of a ratio and the size of a chunk, cut to integers.
unfoldable pub validate_chunk_content : ℕ → ℕ → Content → Result (Unit {0})
validate_chunk_content min_len max_len c =
    if c.blank
    then err validation_error
    else if ltb c.size min_len
    then err validation_error
    else if ltb max_len c.size
    then err validation_error
    else ok tt

abbrev pub find_chunk : ℕ → List ChunkRecord → Option ChunkRecord
find_chunk id [] = none
find_chunk id (c ∷ cs) = if c.chunk_id == id then some c else find_chunk id cs

-- `get_document_stats`: the number of the chunks and the sum of their lengths.
abbrev pub count_chunks : ℕ → List ChunkRecord → ℕ
count_chunks doc [] = 0
count_chunks doc (c ∷ cs) = (if c.document_id == doc then 1 else 0) + count_chunks doc cs

abbrev pub count_chars : ℕ → List ChunkRecord → ℕ
count_chars doc [] = 0
count_chars doc (c ∷ cs) = (if c.document_id == doc then c.content.size else 0) + count_chars doc cs

abbrev update_stats : ℕ → List ChunkRecord → DocumentStats → DocumentStats
update_stats doc chunks d =
    if d.document_id == doc
    then record d { chunks = count_chunks doc chunks; chars = count_chars doc chunks }
    else d

unfoldable pub update_document_stats :
    ℕ → List ChunkRecord → List DocumentStats → List DocumentStats
update_document_stats doc chunks documents = map (update_stats doc chunks) documents

unfoldable pub set_has_manual_edits : ℕ → List DocumentStats → List DocumentStats
set_has_manual_edits doc documents =
    map (λ d. if d.document_id == doc then record d { has_manual_edits = true } else d) documents

-- `update_content`
abbrev pub write_content : ℕ → Content → ℕ → ℕ → ChunkRecord → ChunkRecord
write_content id content now user_id c =
    if c.chunk_id == id
    then record c { content = content; edited_at = some now; edited_by = some user_id }
    else c

-- The chunk that a mutation is about, which has to be of the document.
abbrev pub check_chunk : ℕ → Option ChunkRecord → Result (Unit {0})
check_chunk doc none = err entity_not_found
check_chunk doc (some c) = if c.document_id == doc then ok tt else err business_rule_violation

abbrev pub edited_store : ℕ → ℕ → Content → ℕ → ℕ → ChunkStore → ChunkStore
edited_store doc id content now user_id s =
    let chunks = map (write_content id content now user_id) s.chunks in
    record s {
      chunks = chunks;
      documents = update_document_stats doc chunks (set_has_manual_edits doc s.documents);
      outbox = s.outbox ++ upsert doc (id ∷ []) ∷ [];
    }

-- `access` is what `load_doc_for_edit` answers.
unfoldable pub edit_chunk :
    Result (Unit {0}) → ℕ → ℕ → ℕ → ℕ → Content → ℕ → ℕ → ChunkStore → Result ChunkStore
unfolding validate_chunk_content set_has_manual_edits update_document_stats
edit_chunk access min_len max_len doc id content now user_id s =
    access
    >> (check_chunk doc (find_chunk id s.chunks)
        >> (validate_chunk_content min_len max_len content
            >> ok (edited_store doc id content now user_id s)))

-- `max(chunk_index) + 1`, which is 0 for a document without chunks.
abbrev pub next_index : ℕ → List ChunkRecord → ℕ
next_index doc [] = 0
next_index doc (c ∷ cs) =
    let rest = next_index doc cs in
    if c.document_id == doc then max (c.chunk_index + 1) rest else rest

abbrev pub new_chunk : ℕ → Content → ChunkStore → ChunkRecord
new_chunk doc content s = record {
  chunk_id = s.next_id;
  document_id = doc;
  chunk_index = next_index doc s.chunks;
  content = content;
  edited_at = none;
  edited_by = none;
  manual = true;
}

abbrev pub added_store : ℕ → Content → ChunkStore → ChunkStore
added_store doc content s =
    let chunks = new_chunk doc content s ∷ s.chunks in
    record {
      chunks = chunks;
      documents = update_document_stats doc chunks (set_has_manual_edits doc s.documents);
      outbox = s.outbox ++ upsert doc (s.next_id ∷ []) ∷ [];
      next_id = s.next_id + 1;
    }

-- The document's row is locked, so that no other transaction takes the same index.
unfoldable pub add_chunk : Result (Unit {0}) → ℕ → ℕ → ℕ → Content → ChunkStore → Result ChunkStore
unfolding validate_chunk_content set_has_manual_edits update_document_stats
add_chunk access min_len max_len doc content s =
    access >> (validate_chunk_content min_len max_len content >> ok (added_store doc content s))

abbrev pub deleted_store : ℕ → ℕ → ChunkStore → ChunkStore
deleted_store doc id s =
    let chunks = select (λ c. not (c.chunk_id == id)) s.chunks in
    record s {
      chunks = chunks;
      documents = update_document_stats doc chunks s.documents;
      outbox = s.outbox ++ delete doc (id ∷ []) ∷ [];
    }

unfoldable pub delete_chunk : Result (Unit {0}) → ℕ → ℕ → ChunkStore → Result ChunkStore
unfolding update_document_stats
delete_chunk access doc id s =
    access >> (check_chunk doc (find_chunk id s.chunks) >> ok (deleted_store doc id s))
