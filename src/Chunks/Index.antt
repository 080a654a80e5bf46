-- ===== src/Chunks/Index.antt =====
-- server/app/infrastructure/repositories/vector/outbox_dispatcher.py: applying an entry of a document
-- to the index. Of a point, its content; the index is a function from the ids of chunks.
use rag_assistant.Prelude.{
  Bool, List, Option, Result, [], any, contains, err, if◌then◌else◌, is_none, map, none, ok,
  option_eq, runtime_error, select, some, ◌&&◌, ◌==◌, ◌∷◌, ℕ, not,
}
use rag_assistant.Chunks.{ChunkRecord}

abbrev pub Index : Type 0
Index = ℕ → Option ℕ

-- `get_by_ids` for one id: the content of the document's chunk.
abbrev pub content_of : ℕ → List ChunkRecord → ℕ → Option ℕ
content_of doc [] x = none
content_of doc (c ∷ cs) x =
    if c.chunk_id == x && c.document_id == doc then some c.content.text else content_of doc cs x

-- `delete_by_ids` and `upload_documents`
unfoldable pub delete_by_ids : List ℕ → Index → Index
delete_by_ids ids index x = if contains x ids then none else index x

abbrev pub point_of : ℕ → List (ℕ × ℕ) → Option ℕ
point_of x [] = none
point_of x ((id, text) ∷ points) = if id == x then some text else point_of x points

abbrev pub or_stored : Option ℕ → Option ℕ → Option ℕ
or_stored (some text) stored = some text
or_stored none stored = stored

unfoldable pub upload_documents : List (ℕ × ℕ) → Index → Index
upload_documents points index x = or_stored (point_of x points) (index x)

-- The points of an upsert that still have a chunk, with its content as it is now.
abbrev pub with_point : ℕ → Option ℕ → List (ℕ × ℕ) → List (ℕ × ℕ)
with_point id none rest = rest
with_point id (some text) rest = (id, text) ∷ rest

unfoldable pub current_points : ℕ → List ChunkRecord → List ℕ → List (ℕ × ℕ)
current_points doc chunks [] = []
current_points doc chunks (id ∷ ids) =
    with_point id (content_of doc chunks id) (current_points doc chunks ids)

unfoldable pub obsolete_ids : ℕ → List ChunkRecord → List ℕ → List ℕ
obsolete_ids doc chunks ids = select (λ id. is_none (content_of doc chunks id)) ids

-- `verify_uploaded_chunks`: the points that have lost their chunk are deleted, and a content that has
-- changed is an error.
abbrev pub is_outdated_point : ℕ → List ChunkRecord → ℕ × ℕ → Bool
is_outdated_point doc chunks (id, text) =
    not (is_none (content_of doc chunks id))
    && not (option_eq (content_of doc chunks id) (some text))

abbrev pub ids_of : List (ℕ × ℕ) → List ℕ
ids_of points = map (λ p. p.0) points

unfoldable pub verify_uploaded_chunks :
    ℕ → List ChunkRecord → List (ℕ × ℕ) → Index → Result (Unit {0}) × Index
unfolding obsolete_ids delete_by_ids
verify_uploaded_chunks doc chunks points index = (
  if any (is_outdated_point doc chunks) points then err runtime_error else ok tt,
  delete_by_ids (obsolete_ids doc chunks (ids_of points)) index,
)
