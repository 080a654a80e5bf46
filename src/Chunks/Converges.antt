-- ===== src/Chunks/Converges.antt =====
-- A dispatcher that reads, uploads and verifies keeps the index in step, and so does one that fails.
use rag_assistant.Prelude.{
  Bool-cases, List, [], any, ap, arith, contains, false, if◌then◌else◌, inl, inr, is_none, none,
  not, refl, some, subst, ℕ, ◌&&◌, ◌++◌, ◌==◌, ◌||◌, ◌∙◌, ◌∷◌, ◌≡◌,
}
use rag_assistant.Chunks.{ChunkRecord, ChunkEntry, upsert, ChunkStore}
use rag_assistant.Chunks.Index.{
  Index, content_of, current_points, obsolete_ids, delete_by_ids, point_of, ids_of,
  is_outdated_point,
}
use rag_assistant.Chunks.Interleavings.{idle, uploading, World, touches, deletes, in_flight}
use rag_assistant.Chunks.Synced.{IsSynced, any-insert}

contains-obsolete_ids :
    (doc x : ℕ) (cs : List ChunkRecord) (ids : List ℕ)
    → contains x (obsolete_ids doc cs ids) ≡ (contains x ids && is_none (content_of doc cs x))
unfolding obsolete_ids
contains-obsolete_ids doc x cs [] = refl
contains-obsolete_ids doc x cs (id ∷ ids) = elim (Bool-cases (x == id)) [
  | inr other ↦ ground (arith, contains-obsolete_ids doc x cs ids)
  | inl same ↦
      let e : id ≡ x = ground arith in rw e (ground (arith, contains-obsolete_ids doc x cs ids))
]

point_of-current_points :
    (doc x : ℕ) (cs : List ChunkRecord) (ids : List ℕ)
    → point_of x (current_points doc cs ids)
      ≡ (if contains x ids then content_of doc cs x else none)
unfolding current_points
point_of-current_points doc x cs [] = refl
point_of-current_points doc x cs (id ∷ ids) = elim (Bool-cases (x == id)) [
  | inr other ↦ ground (arith, point_of-current_points doc x cs ids)
  | inl same ↦
      let e : id ≡ x = ground arith in rw e (ground (arith, point_of-current_points doc x cs ids))
]

pub contains-ids_of :
    (x : ℕ) (points : List (ℕ × ℕ)) → contains x (ids_of points) ≡ not (is_none (point_of x points))
contains-ids_of x [] = refl
contains-ids_of x ((id, text) ∷ points) = ground (arith, contains-ids_of x points)

-- A point that is not stale and has its chunk has its content.
pub point_of-fresh :
    (doc x text : ℕ) (cs : List ChunkRecord) (points : List (ℕ × ℕ))
    → any (is_outdated_point doc cs) points ≡ false
    → point_of x points ≡ some text
    → is_none (content_of doc cs x) ≡ false
    → content_of doc cs x ≡ some text
point_of-fresh doc x text cs [] h p there = absurd (ground arith)
point_of-fresh doc x text cs ((id, t) ∷ points) h p there = elim (Bool-cases (id == x)) [
  | inr other ↦ point_of-fresh doc x text cs points (ground arith) (rw other at p) there
  | inl same ↦
      let e : id ≡ x = ground arith in
      let own : is_outdated_point doc cs (x, t) ≡ false =
        subst (λ y. is_outdated_point doc cs (y, t) ≡ false) e (ground arith) in
      let said : some t ≡ some text = rw same at p in ground arith
]

-- The index without the points that have lost their chunk.
abbrev pub pruned : ℕ → ChunkStore → List (ℕ × ℕ) → Index → Index
pruned doc s points index = delete_by_ids (obsolete_ids doc s.chunks (ids_of points)) index

pub delete_by_ids-obsolete :
    (doc x : ℕ) (cs : List ChunkRecord) (ids : List ℕ) (index : Index)
    → delete_by_ids (obsolete_ids doc cs ids) index x
      ≡ (if contains x ids && is_none (content_of doc cs x) then none else index x)
unfolding delete_by_ids
delete_by_ids-obsolete doc x cs ids index = rw (contains-obsolete_ids doc x cs ids) refl

pub reads-IsSynced :
    (doc : ℕ) (w : World) (before after : List ChunkEntry) (ids : List ℕ)
    → w.flight ≡ idle
    → w.store.outbox ≡ before ++ upsert doc ids ∷ after
    → IsSynced doc w
    → IsSynced doc (record w {
      store = record w.store { outbox = before ++ after };
      index = delete_by_ids (obsolete_ids doc w.store.chunks ids) w.index;
      flight = uploading ids (current_points doc w.store.chunks ids);
    })
reads-IsSynced doc w before after ids f e v =
    let none_flies : (x : ℕ) → in_flight x w.flight ≡ false = λ x. rw f refl in
    let touched : (x : ℕ)
        → any (touches x) w.store.outbox ≡ (contains x ids || any (touches x) (before ++ after)) =
      λ x. ap (any (touches x)) e ∙ any-insert (touches x) before (upsert doc ids) after in
    let lost : (x : ℕ) → any (deletes x) w.store.outbox ≡ any (deletes x) (before ++ after) =
      λ x. ap (any (deletes x)) e ∙ any-insert (deletes x) before (upsert doc ids) after in
    record {
      known = λ x h. v.known x (ground (arith, touched x, none_flies x));
      fresh = v.fresh;
      lost = λ x h. v.lost x (lost x ∙ h);
      synced = λ x h.
          let apart : contains x ids ≡ false = ground arith in
          rw (delete_by_ids-obsolete doc x w.store.chunks ids w.index, apart)
            (v.synced x (ground (arith, touched x, none_flies x)));
      flight = λ x. elim (Bool-cases (contains x ids)) [
        | inr out ↦ inl (out, rw (point_of-current_points doc x w.store.chunks ids, out) refl)
        | inl inside ↦ inr (
          inside,
          record {
            missing = λ p.
                let gone : content_of doc w.store.chunks x ≡ none =
                  rw (point_of-current_points doc x w.store.chunks ids, inside) at p in
                (
                  gone,
                  rw (delete_by_ids-obsolete doc x w.store.chunks ids w.index, inside, gone) refl,
                );
            present = λ text p was. absurd (ground arith);
          },
        )
      ];
    }
