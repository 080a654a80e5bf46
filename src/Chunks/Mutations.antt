-- ===== src/Chunks/Mutations.antt =====
-- What the three mutations of a document's chunks have in common.
use rag_assistant.Prelude.{
  >>=-inversion, Bool-cases, List, Result, [], arith, false, if◌then◌else◌, inl, inr, is_none, map,
  none, not, ok, ok-injective, refl, select, some, subst, sym, true, ℕ, ◌++◌, ◌<◌, ◌==◌, ◌>>◌, ◌∷◌,
  ◌≡◌, ◌≤◌,
}
use rag_assistant.Chunks.{
  ChunkRecord, ChunkEntry, upsert, delete, ChunkStore, Content, edit_chunk, add_chunk, delete_chunk,
  edited_store, added_store, deleted_store, check_chunk, find_chunk, write_content,
  validate_chunk_content,
}
use rag_assistant.Chunks.Index.{content_of}
use rag_assistant.Chunks.Interleavings.{touches, deletes}

-- What every mutation does: it adds one entry, which is about every chunk whose content it changes.
pub record IsMutation (doc : ℕ) (s s' : ChunkStore) : Type 0 where
  pub entry : ChunkEntry
  pub enqueued : s'.outbox ≡ s.outbox ++ entry ∷ []
  pub grows : s.next_id ≤ s'.next_id
  pub gone :
      (x : ℕ) → x < s.next_id → content_of doc s.chunks x ≡ none → content_of doc s'.chunks x ≡ none
  pub unborn :
      (x : ℕ)
      → s'.next_id ≤ x
      → content_of doc s.chunks x ≡ none
      → content_of doc s'.chunks x ≡ none
  pub others :
      (x : ℕ) → touches x entry ≡ false → content_of doc s'.chunks x ≡ content_of doc s.chunks x
  pub known : (x : ℕ) → touches x entry ≡ true → x < s'.next_id
  pub lost : (x : ℕ) → deletes x entry ≡ true → content_of doc s'.chunks x ≡ none

content_of-write_content :
    (doc id now user_id x : ℕ) (content : Content) (cs : List ChunkRecord)
    → (x == id) ≡ false
    → content_of doc (map (write_content id content now user_id) cs) x ≡ content_of doc cs x
content_of-write_content doc id now user_id x content [] h = refl
content_of-write_content doc id now user_id x content (c ∷ cs) h =
    ground (arith, content_of-write_content doc id now user_id x content cs h)

write_content-none :
    (doc id now user_id x : ℕ) (content : Content) (cs : List ChunkRecord)
    → content_of doc cs x ≡ none
    → content_of doc (map (write_content id content now user_id) cs) x ≡ none
write_content-none doc id now user_id x content [] h = refl
write_content-none doc id now user_id x content (c ∷ cs) h =
    ground (arith, write_content-none doc id now user_id x content cs)

content_of-check_chunk :
    (doc id : ℕ) (cs : List ChunkRecord) (u : Unit {0})
    → check_chunk doc (find_chunk id cs) ≡ ok u
    → is_none (content_of doc cs id) ≡ false
content_of-check_chunk doc id [] u h = absurd (ground arith)
content_of-check_chunk doc id (c ∷ cs) u h = elim (Bool-cases (c.chunk_id == id)) [
  | inl hit ↦ let own : check_chunk doc (some c) ≡ ok u = rw hit at h in ground arith
  | inr miss ↦ let below = content_of-check_chunk doc id cs u (rw miss at h) in rw miss below
]

content_of-remove :
    (doc id x : ℕ) (cs : List ChunkRecord)
    → content_of doc (select (λ c. not (c.chunk_id == id)) cs) x
      ≡ (if x == id then none else content_of doc cs x)
content_of-remove doc id x [] = ground arith
content_of-remove doc id x (c ∷ cs) = ground (arith, content_of-remove doc id x cs)

-- The chunks below the sequence.
abbrev pub IsFresh : ℕ → ChunkStore → Type 0
IsFresh doc s = (x : ℕ) → s.next_id ≤ x → content_of doc s.chunks x ≡ none

pub edit_chunk-IsMutation :
    (doc : ℕ) (access : Result (Unit {0})) (min_len max_len id : ℕ) (content : Content)
    (now user_id : ℕ) (s s' : ChunkStore)
    → IsFresh doc s
    → edit_chunk access min_len max_len doc id content now user_id s ≡ ok s'
    → IsMutation doc s s'
unfolding edit_chunk
edit_chunk-IsMutation doc access min_len max_len id content now user_id s s' fresh h =
    let done : Result ChunkStore = ok (edited_store doc id content now user_id s) in
    let (_, checked, _) =
      >>=-inversion access
        (λ u.
          check_chunk doc (find_chunk id s.chunks)
          >> (validate_chunk_content min_len max_len content >> done))
        h in
    let (u, validated, own) =
      >>=-inversion (check_chunk doc (find_chunk id s.chunks))
        (λ u. validate_chunk_content min_len max_len content >> done) checked in
    let (_, same, _) =
      >>=-inversion (validate_chunk_content min_len max_len content) (λ u. done) validated in
    let there = content_of-check_chunk doc id s.chunks u own in
    subst (IsMutation doc s) (ok-injective same) (record {
      entry = upsert doc (id ∷ []);
      enqueued = refl;
      grows = ground arith;
      gone = λ x below e. write_content-none doc id now user_id x content s.chunks e;
      unborn = λ x above e. write_content-none doc id now user_id x content s.chunks e;
      others = λ x e. content_of-write_content doc id now user_id x content s.chunks (ground arith);
      known = λ x e.
          let none_above = fresh x in
          let same_id : x ≡ id = ground arith in
          let here = subst (λ y. is_none (content_of doc s.chunks y) ≡ false) (sym same_id) there in
          ground arith;
      lost = λ x e. absurd (ground arith);
    })

pub add_chunk-IsMutation :
    (doc : ℕ) (access : Result (Unit {0})) (min_len max_len : ℕ) (content : Content)
    (s s' : ChunkStore)
    → add_chunk access min_len max_len doc content s ≡ ok s'
    → IsMutation doc s s'
unfolding add_chunk
add_chunk-IsMutation doc access min_len max_len content s s' h =
    let done : Result ChunkStore = ok (added_store doc content s) in
    let (_, checked, _) =
      >>=-inversion access (λ u. validate_chunk_content min_len max_len content >> done) h in
    let (_, same, _) =
      >>=-inversion (validate_chunk_content min_len max_len content) (λ u. done) checked in
    subst (IsMutation doc s) (ok-injective same) (record {
      entry = upsert doc (s.next_id ∷ []);
      enqueued = refl;
      grows = ground arith;
      gone = λ x below e. ground arith;
      unborn = λ x above e. ground arith;
      others = λ x e. ground arith;
      known = λ x e. ground arith;
      lost = λ x e. absurd (ground arith);
    })

pub delete_chunk-IsMutation :
    (doc : ℕ) (access : Result (Unit {0})) (id : ℕ) (s s' : ChunkStore)
    → IsFresh doc s
    → delete_chunk access doc id s ≡ ok s'
    → IsMutation doc s s'
unfolding delete_chunk
delete_chunk-IsMutation doc access id s s' fresh h =
    let done : Result ChunkStore = ok (deleted_store doc id s) in
    let (_, checked, _) =
      >>=-inversion access (λ u. check_chunk doc (find_chunk id s.chunks) >> done) h in
    let (u, same, own) =
      >>=-inversion (check_chunk doc (find_chunk id s.chunks)) (λ u. done) checked in
    let there = content_of-check_chunk doc id s.chunks u own in
    subst (IsMutation doc s) (ok-injective same) (record {
      entry = delete doc (id ∷ []);
      enqueued = refl;
      grows = ground arith;
      gone = λ x below e. rw (content_of-remove doc id x s.chunks) (ground arith);
      unborn = λ x above e. rw (content_of-remove doc id x s.chunks) (ground arith);
      others = λ x e. rw (content_of-remove doc id x s.chunks) (ground arith);
      known = λ x e.
          let none_above = fresh x in
          let same_id : x ≡ id = ground arith in
          let here = subst (λ y. is_none (content_of doc s.chunks y) ≡ false) (sym same_id) there in
          ground arith;
      lost = λ x e. rw (content_of-remove doc id x s.chunks) (ground arith);
    })
