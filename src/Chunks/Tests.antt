-- ===== src/Chunks/Tests.antt =====
-- A chunk that is added to document 1 and indexed, and the theorem applied to it.
use rag_assistant.Prelude.{
  List, Result, [], err, false, none, ok, refl, some, true, ℕ, ◌>>=◌, ◌∷◌, ◌≡◌,
}
use rag_assistant.Chunks.{DocumentStats, Content, ChunkStore, add_chunk, added_store, next_index}
use rag_assistant.Chunks.Index.{
  delete_by_ids, obsolete_ids, current_points, upload_documents, verify_uploaded_chunks,
}
use rag_assistant.Chunks.Interleavings.{
  World, idle, uploading, uploaded, Reach, empty, later, added, reads, uploads, verified,
}
use rag_assistant.Chunks.Dispatch.{Reach-index}

abbrev text : Content
text = record { text = 5; size = 40; blank = false }

abbrev no_chunks : ChunkStore
no_chunks = record {
  documents = record { document_id = 1; has_manual_edits = false; chunks = 0; chars = 0 } ∷ [];
  chunks = [];
  outbox = [];
  next_id = 0;
}

-- The documents and the next index after two additions.
abbrev added_twice : Result ChunkStore
added_twice = add_chunk (ok tt) 10 100 1 text no_chunks >>= λ s. add_chunk (ok tt) 10 100 1 text s

abbrev summary : Result ChunkStore → List DocumentStats × ℕ
summary (ok s) = (s.documents, next_index 1 s.chunks)
summary (err e) = ([], 0)

add_chunk-twice :
    summary added_twice
    ≡ (record { document_id = 1; has_manual_edits = true; chunks = 2; chars = 80 } ∷ [], 2)
unfolding add_chunk
add_chunk-twice = refl

abbrev after_add : World
after_add = record {
  store = added_store 1 text no_chunks;
  index = λ x. none;
  flight = idle;
  dead = [];
}

abbrev after_read : World
after_read = record after_add {
  store = record after_add.store { outbox = [] };
  index = delete_by_ids (obsolete_ids 1 after_add.store.chunks (0 ∷ [])) after_add.index;
  flight = uploading (0 ∷ []) (current_points 1 after_add.store.chunks (0 ∷ []));
}

abbrev points : List (ℕ × ℕ)
points = current_points 1 after_add.store.chunks (0 ∷ [])

abbrev after_upload : World
after_upload = record after_read {
  index = upload_documents points after_read.index;
  flight = uploaded (0 ∷ []) points;
}

abbrev after_check : World
after_check = record after_upload {
  index = (verify_uploaded_chunks 1 after_upload.store.chunks points after_upload.index).1;
  flight = idle;
}

after_check-Reach : Reach 1 after_check
unfolding add_chunk verify_uploaded_chunks current_points
after_check-Reach =
    later
      (later
        (later (later (empty no_chunks.documents) (added (ok tt) 10 100 text after_add.store refl))
          (reads [] [] (0 ∷ []) refl refl))
        (uploads (0 ∷ []) points refl))
      (verified (0 ∷ []) points refl refl)

Reach-index_example : after_check.index 0 ≡ some 5
Reach-index_example = Reach-index 1 0 after_check-Reach refl
