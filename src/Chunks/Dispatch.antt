-- ===== src/Chunks/Dispatch.antt =====
-- The steps of dispatchers that delete or give up, and the index in every reachable state.
use rag_assistant.Prelude.{
  Bool, Bool-cases, List, any, ap, arith, contains, false, inl, inr, refl, sym, true, ℕ, ◌++◌, ◌||◌,
  ◌∙◌, ◌∷◌, ◌≡◌, ◌⊎◌, [],
}
use rag_assistant.Chunks.{ChunkEntry, upsert, delete}
use rag_assistant.Chunks.Index.{content_of, delete_by_ids}
use rag_assistant.Chunks.Interleavings.{
  uploading, uploaded, World, Step, edited, added, deleted, reads, uploads, verified, stale,
  crashed, removes, removes_again, gives_up, Flight, Reach, empty, later, touches, deletes,
  in_flight, is_mentioned,
}
use rag_assistant.Chunks.Mutations.{
  edit_chunk-IsMutation, add_chunk-IsMutation, delete_chunk-IsMutation,
}
use rag_assistant.Chunks.Synced.{IsSynced, any-insert, IsFlight-weaken, mutation-IsSynced}
use rag_assistant.Chunks.Converges.{reads-IsSynced}
use rag_assistant.Chunks.Uploading.{
  uploads-IsSynced, verified-IsSynced, stale-IsSynced, crashed-IsSynced,
}

-- A deletion, finished or not; `left` is what then waits in the outbox.
removes-IsSynced :
    (doc : ℕ) (w : World) (outbox : List ChunkEntry) (ids : List ℕ)
    → ((x : ℕ) → any (touches x) w.store.outbox ≡ (contains x ids || any (touches x) outbox))
    → ((x : ℕ) → any (deletes x) w.store.outbox ≡ (contains x ids || any (deletes x) outbox))
    → IsSynced doc w
    → IsSynced doc
        (record w { store = record w.store { outbox = outbox }; index = delete_by_ids ids w.index })
unfolding delete_by_ids
removes-IsSynced doc w outbox ids touched erased v = record {
  known = λ x m. v.known x (ground (arith, touched x));
  fresh = v.fresh;
  lost = λ x m. v.lost x (ground (arith, erased x));
  synced = λ x m. elim (Bool-cases (contains x ids)) [
    | inl inside ↦ rw inside (sym (v.lost x (ground (arith, erased x))))
    | inr out ↦ rw out (v.synced x (ground (arith, touched x)))
  ];
  flight =
      IsFlight-weaken doc w.flight w
        (record w { store = record w.store { outbox = outbox }; index = delete_by_ids ids w.index })
        (λ x inside e. e)
        (λ x. elim (Bool-cases (contains x ids)) [
          | inl inside ↦ inr (rw inside refl, v.lost x (ground (arith, erased x)))
          | inr out ↦ inl (rw out refl)
        ])
        v.flight;
}

again :
    (p : ChunkEntry → Bool) (before after : List ChunkEntry) (e : ChunkEntry)
    (outbox : List ChunkEntry)
    → outbox ≡ before ++ e ∷ after
    → any p outbox ≡ (p e || any p outbox)
again p before after e outbox h =
    let split = ap (any p) h ∙ any-insert p before e after in ground (arith, split)

flies_with :
    (ids : List ℕ) (points : List (ℕ × ℕ)) (f : Flight)
    → (f ≡ uploading ids points) ⊎ (f ≡ uploaded ids points)
    → (x : ℕ) → in_flight x f ≡ contains x ids
flies_with ids points f (inl e) = λ x. rw e refl
flies_with ids points f (inr e) = λ x. rw e refl

-- A failure for the last time moves an entry to the dead letters.
gives_up-IsSynced :
    (doc : ℕ) (w : World) (before after : List ChunkEntry) (e : ChunkEntry)
    → w.store.outbox ≡ before ++ e ∷ after
    → IsSynced doc w
    → IsSynced doc
        (record w { store = record w.store { outbox = before ++ after }; dead = e ∷ w.dead })
gives_up-IsSynced doc w before after e h v =
    let split = λ (p : ChunkEntry → Bool). ap (any p) h ∙ any-insert p before e after in
    record {
      known = λ x m. v.known x (ground (arith, split (touches x)));
      fresh = v.fresh;
      lost = λ x m. v.lost x (ground (arith, split (deletes x)));
      synced = λ x m. v.synced x (ground (arith, split (touches x)));
      flight =
          IsFlight-weaken doc w.flight w
            (record w { store = record w.store { outbox = before ++ after }; dead = e ∷ w.dead })
            (λ x inside gone. gone) (λ x. inl refl) v.flight;
    }

Step-IsSynced : (doc : ℕ) {w w' : World} → Step doc w w' → IsSynced doc w → IsSynced doc w'
Step-IsSynced doc {w} (edited access min_len max_len id content now user_id s h) v =
    mutation-IsSynced doc w s v
      (edit_chunk-IsMutation doc access min_len max_len id content now user_id w.store s v.fresh h)
Step-IsSynced doc {w} (added access min_len max_len content s h) v =
    mutation-IsSynced doc w s v
      (add_chunk-IsMutation doc access min_len max_len content w.store s h)
Step-IsSynced doc {w} (deleted access id s h) v =
    mutation-IsSynced doc w s v (delete_chunk-IsMutation doc access id w.store s v.fresh h)
Step-IsSynced doc {w} (reads before after ids f e) v = reads-IsSynced doc w before after ids f e v
Step-IsSynced doc {w} (uploads ids points f) v = uploads-IsSynced doc w ids points f v
Step-IsSynced doc {w} (verified ids points f h) v = verified-IsSynced doc w ids points f h v
Step-IsSynced doc {w} (stale ids points e false f h) v = stale-IsSynced doc w ids points f v
Step-IsSynced doc {w} (stale ids points e true f h) v =
    gives_up-IsSynced doc _ [] w.store.outbox (upsert doc ids) refl
      (stale-IsSynced doc w ids points f v)
Step-IsSynced doc {w} (crashed ids points false f) v =
    crashed-IsSynced doc w ids (flies_with ids points w.flight f) v
Step-IsSynced doc {w} (crashed ids points true f) v =
    gives_up-IsSynced doc _ [] w.store.outbox (upsert doc ids) refl
      (crashed-IsSynced doc w ids (flies_with ids points w.flight f) v)
Step-IsSynced doc {w} (gives_up before after e h) v = gives_up-IsSynced doc w before after e h v
Step-IsSynced doc {w} (removes before after ids e) v =
    removes-IsSynced doc w (before ++ after) ids
      (λ x. ap (any (touches x)) e ∙ any-insert (touches x) before (delete doc ids) after)
      (λ x. ap (any (deletes x)) e ∙ any-insert (deletes x) before (delete doc ids) after) v
Step-IsSynced doc {w} (removes_again before after ids e) v =
    removes-IsSynced doc w w.store.outbox ids
      (λ x. again (touches x) before after (delete doc ids) w.store.outbox e)
      (λ x. again (deletes x) before after (delete doc ids) w.store.outbox e) v

Reach-IsSynced : (doc : ℕ) {w : World} → Reach doc w → IsSynced doc w
Reach-IsSynced doc (empty documents) = record {
  known = λ x h. absurd (ground arith);
  fresh = λ x h. refl;
  lost = λ x h. refl;
  synced = λ x h. refl;
  flight = tt;
}
Reach-IsSynced doc (later r t) = Step-IsSynced doc t (Reach-IsSynced doc r)

-- However edits, additions and deletions of a document's chunks interleave with dispatchers that read,
-- upload, verify, fail, retry and give up in any order, the index holds exactly the content of a chunk
-- in the table, or nothing if there is no chunk, unless an entry about the chunk waits, is in flight or
-- is a dead letter.
pub Reach-index :
    (doc : ℕ) {w : World} (x : ℕ)
    → Reach doc w
    → is_mentioned x w ≡ false
    → w.index x ≡ content_of doc w.store.chunks x
Reach-index doc x r h = let v = Reach-IsSynced doc r in v.synced x h
