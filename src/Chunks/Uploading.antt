-- ===== src/Chunks/Uploading.antt =====
-- The later steps of a dispatcher that applies an upsert: it uploads, verifies, or fails.
use rag_assistant.Prelude.{
  Bool-cases, List, Option-cases, any, arith, contains, false, inl, inr, is_none, none, ok, refl,
  subst, true, ℕ, ◌∙◌, ◌∷◌, ◌≡◌,
}
use rag_assistant.Chunks.{upsert}
use rag_assistant.Chunks.Index.{
  content_of, upload_documents, point_of, verify_uploaded_chunks, ids_of, is_outdated_point,
}
use rag_assistant.Chunks.Interleavings.{idle, uploading, uploaded, World, in_flight}
use rag_assistant.Chunks.Synced.{IsPoint, IsFlight, IsSynced}
use rag_assistant.Chunks.Converges.{pruned, contains-ids_of, point_of-fresh, delete_by_ids-obsolete}

pub uploads-IsSynced :
    (doc : ℕ) (w : World) (ids : List ℕ) (points : List (ℕ × ℕ))
    → w.flight ≡ uploading ids points
    → IsSynced doc w
    → IsSynced doc
        (record w { index = upload_documents points w.index; flight = uploaded ids points })
unfolding upload_documents
uploads-IsSynced doc w ids points f v =
    let flies : (x : ℕ) → in_flight x w.flight ≡ contains x ids = λ x. rw f refl in
    let held : IsFlight doc (uploading ids points) w = subst (λ y. IsFlight doc y w) f v.flight in
    record {
      known = λ x h. v.known x (ground (arith, flies x));
      fresh = v.fresh;
      lost = v.lost;
      synced = λ x h. elim (held x) [
        | inl (out, nothing) ↦ rw nothing (v.synced x (ground (arith, flies x)))
        | inr (inside, p) ↦ absurd (ground arith)
      ];
      flight = λ x. elim (held x) [
        | inl out ↦ inl out
        | inr (inside, p) ↦ inr (
          inside,
          record {
            missing = λ e. let (gone, off) = p.missing e in (gone, rw e off);
            present = λ text e was. inl (rw e refl);
          },
        )
      ];
    }

-- The index at a chunk after a verification that found nothing stale.
verified-point :
    (doc x : ℕ) (w : World) (ids : List ℕ) (points : List (ℕ × ℕ))
    → any (is_outdated_point doc w.store.chunks) points ≡ false
    → IsPoint doc x points true w
    → pruned doc w.store points w.index x ≡ content_of doc w.store.chunks x
verified-point doc x w ids points fine p =
    let shown = delete_by_ids-obsolete doc x w.store.chunks (ids_of points) w.index in
    elim (Option-cases (point_of x points)) [
      | inl nothing ↦ let (gone, off) = p.missing nothing in shown ∙ rw (gone, off) (ground arith)
      | inr (text, e) ↦ elim (Bool-cases (is_none (content_of doc w.store.chunks x))) [
        | inl lost ↦
            let inside : contains x (ids_of points) ≡ true =
              rw (contains-ids_of x points, e) refl in
            let gone : content_of doc w.store.chunks x ≡ none = ground arith in
            shown ∙ rw (inside, gone) refl
        | inr there ↦
            let same = point_of-fresh doc x text w.store.chunks points fine e there in
            elim (p.present text e refl) [
              | inl stored ↦ shown ∙ rw (same, stored) (ground arith)
              | inr gone ↦ absurd (ground arith)
            ]
      ]
    ]

outside-pruned :
    (doc x : ℕ) (w : World) (points : List (ℕ × ℕ))
    → point_of x points ≡ none
    → pruned doc w.store points w.index x ≡ w.index x
outside-pruned doc x w points e =
    let out : contains x (ids_of points) ≡ false = rw (contains-ids_of x points, e) refl in
    delete_by_ids-obsolete doc x w.store.chunks (ids_of points) w.index ∙ rw out refl

pub verified-IsSynced :
    (doc : ℕ) (w : World) (ids : List ℕ) (points : List (ℕ × ℕ))
    → w.flight ≡ uploaded ids points
    → (verify_uploaded_chunks doc w.store.chunks points w.index).0 ≡ ok tt
    → IsSynced doc w
    → IsSynced doc (record w {
      index = (verify_uploaded_chunks doc w.store.chunks points w.index).1;
      flight = idle;
    })
unfolding verify_uploaded_chunks
verified-IsSynced doc w ids points f h v =
    let flies : (x : ℕ) → in_flight x w.flight ≡ contains x ids = λ x. rw f refl in
    let held : IsFlight doc (uploaded ids points) w = subst (λ y. IsFlight doc y w) f v.flight in
    let fine : any (is_outdated_point doc w.store.chunks) points ≡ false = ground arith in
    record {
      known = λ x m. v.known x (ground arith);
      fresh = v.fresh;
      lost = v.lost;
      synced = λ x m. elim (held x) [
        | inl (out, nothing) ↦
            outside-pruned doc x w points nothing ∙ v.synced x (ground (arith, flies x))
        | inr (inside, p) ↦ verified-point doc x w ids points fine p
      ];
      flight = tt;
    }

pub stale-IsSynced :
    (doc : ℕ) (w : World) (ids : List ℕ) (points : List (ℕ × ℕ))
    → w.flight ≡ uploaded ids points
    → IsSynced doc w
    → IsSynced doc (record w {
      store = record w.store { outbox = upsert doc ids ∷ w.store.outbox };
      index = (verify_uploaded_chunks doc w.store.chunks points w.index).1;
      flight = idle;
    })
unfolding verify_uploaded_chunks
stale-IsSynced doc w ids points f v =
    let flies : (x : ℕ) → in_flight x w.flight ≡ contains x ids = λ x. rw f refl in
    let held : IsFlight doc (uploaded ids points) w = subst (λ y. IsFlight doc y w) f v.flight in
    record {
      known = λ x m. v.known x (ground (arith, flies x));
      fresh = v.fresh;
      lost = v.lost;
      synced = λ x m. elim (held x) [
        | inl (out, nothing) ↦
            outside-pruned doc x w points nothing ∙ v.synced x (ground (arith, flies x))
        | inr (inside, p) ↦ absurd (ground arith)
      ];
      flight = tt;
    }

pub crashed-IsSynced :
    (doc : ℕ) (w : World) (ids : List ℕ)
    → ((x : ℕ) → in_flight x w.flight ≡ contains x ids)
    → IsSynced doc w
    → IsSynced doc (record w {
      store = record w.store { outbox = upsert doc ids ∷ w.store.outbox };
      flight = idle;
    })
crashed-IsSynced doc w ids flies v = record {
  known = λ x m. v.known x (ground (arith, flies x));
  fresh = v.fresh;
  lost = v.lost;
  synced = λ x m. v.synced x (ground (arith, flies x));
  flight = tt;
}
