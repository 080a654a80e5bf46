-- ===== src/Chunks/Interleavings.antt =====
-- The mutations of one document's chunks and the dispatchers that apply its entries, in any order.
use rag_assistant.Prelude.{
  true, AppError, Bool, List, Result, [], any, contains, err, false, none, ok, ℕ, ◌++◌, ◌||◌, ◌∷◌,
  ◌≡◌, ◌⊎◌,
}
use rag_assistant.Chunks.{
  DocumentStats, ChunkEntry, upsert, delete, ChunkStore, Content, edit_chunk, add_chunk,
  delete_chunk,
}
use rag_assistant.Chunks.Index.{
  Index, current_points, obsolete_ids, delete_by_ids, upload_documents, verify_uploaded_chunks,
}

-- The upsert that holds the index lock of the document: its ids, and the points that it has read. It
-- reads, uploads and verifies in three steps, between which anything else may happen.
pub data Flight : Type 0 where
  idle : Flight
  uploading uploaded : List ℕ → List (ℕ × ℕ) → Flight

-- The outbox holds the entries that wait; the one in flight is claimed. `dead` are the dead letters,
-- which no dispatcher applies.
pub record World : Type 0 where
  pub store : ChunkStore
  pub index : Index
  pub flight : Flight
  pub dead : List ChunkEntry

-- `mark_failed`: an entry that has failed waits for another attempt, or, when its attempts are
-- exhausted, is a dead letter. The attempts are not counted here: any failure may be the last.
abbrev pub fail_entry : (exhausted : Bool) → ChunkEntry → World → World
fail_entry false e w = record w {
  store = record w.store { outbox = e ∷ w.store.outbox };
  flight = idle;
}
fail_entry true e w = record w { flight = idle; dead = e ∷ w.dead }

pub data Step (doc : ℕ) (w : World) : World → Type 0 where
  edited :
      (access : Result (Unit {0})) (min_len max_len id : ℕ) (content : Content) (now user_id : ℕ)
      (s : ChunkStore)
      → edit_chunk access min_len max_len doc id content now user_id w.store ≡ ok s
      → Step doc w (record w { store = s })
  added :
      (access : Result (Unit {0})) (min_len max_len : ℕ) (content : Content) (s : ChunkStore)
      → add_chunk access min_len max_len doc content w.store ≡ ok s
      → Step doc w (record w { store = s })
  deleted :
      (access : Result (Unit {0})) (id : ℕ) (s : ChunkStore)
      → delete_chunk access doc id w.store ≡ ok s
      → Step doc w (record w { store = s })
  reads :
      (before after : List ChunkEntry) (ids : List ℕ)
      → w.flight ≡ idle
      → w.store.outbox ≡ before ++ upsert doc ids ∷ after
      → Step doc w (record w {
        store = record w.store { outbox = before ++ after };
        index = delete_by_ids (obsolete_ids doc w.store.chunks ids) w.index;
        flight = uploading ids (current_points doc w.store.chunks ids);
      })
  uploads :
      (ids : List ℕ) (points : List (ℕ × ℕ))
      → w.flight ≡ uploading ids points
      → Step doc w
          (record w { index = upload_documents points w.index; flight = uploaded ids points })
  verified :
      (ids : List ℕ) (points : List (ℕ × ℕ))
      → w.flight ≡ uploaded ids points
      → (verify_uploaded_chunks doc w.store.chunks points w.index).0 ≡ ok tt
      → Step doc w (record w {
        index = (verify_uploaded_chunks doc w.store.chunks points w.index).1;
        flight = idle;
      })
  stale :
      (ids : List ℕ) (points : List (ℕ × ℕ)) (e : AppError) (exhausted : Bool)
      → w.flight ≡ uploaded ids points
      → (verify_uploaded_chunks doc w.store.chunks points w.index).0 ≡ err e
      → Step doc w (
          fail_entry exhausted
            (upsert doc ids)
            (record w { index = (verify_uploaded_chunks doc w.store.chunks points w.index).1 }))
  crashed :
      (ids : List ℕ) (points : List (ℕ × ℕ)) (exhausted : Bool)
      → (w.flight ≡ uploading ids points) ⊎ (w.flight ≡ uploaded ids points)
      → Step doc w (fail_entry exhausted (upsert doc ids) w)
  removes :
      (before after : List ChunkEntry) (ids : List ℕ)
      → w.store.outbox ≡ before ++ delete doc ids ∷ after
      → Step doc w (record w {
        store = record w.store { outbox = before ++ after };
        index = delete_by_ids ids w.index;
      })
  removes_again :
      (before after : List ChunkEntry) (ids : List ℕ)
      → w.store.outbox ≡ before ++ delete doc ids ∷ after
      → Step doc w (record w { index = delete_by_ids ids w.index })
  gives_up :
      (before after : List ChunkEntry) (e : ChunkEntry)
      → w.store.outbox ≡ before ++ e ∷ after
      → Step doc w
          (record w { store = record w.store { outbox = before ++ after }; dead = e ∷ w.dead })

pub data Reach (doc : ℕ) : World → Type 0 where
  empty :
      (documents : List DocumentStats)
      → Reach doc (record {
        store = record { documents = documents; chunks = []; outbox = []; next_id = 0 };
        index = λ x. none;
        flight = idle;
        dead = [];
      })
  later : {w w' : World} → Reach doc w → Step doc w w' → Reach doc w'

abbrev pub touches : ℕ → ChunkEntry → Bool
touches x (upsert doc ids) = contains x ids
touches x (delete doc ids) = contains x ids

abbrev pub deletes : ℕ → ChunkEntry → Bool
deletes x (upsert doc ids) = false
deletes x (delete doc ids) = contains x ids

abbrev pub in_flight : ℕ → Flight → Bool
in_flight x idle = false
in_flight x (uploading ids points) = contains x ids
in_flight x (uploaded ids points) = contains x ids

-- An entry about the chunk waits, is being applied, or is a dead letter.
abbrev pub is_mentioned : ℕ → World → Bool
is_mentioned x w =
    any (touches x) w.store.outbox || (in_flight x w.flight || any (touches x) w.dead)
