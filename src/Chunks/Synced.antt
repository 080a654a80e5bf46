-- ===== src/Chunks/Synced.antt =====
-- The index follows the chunks of the document, whatever the mutations and the dispatchers do.
use rag_assistant.Prelude.{
  Bool, Bool-cases, List, [], any, ap, arith, contains, false, inl, inr, none, refl, some, sym,
  true, ℕ, ◌++◌, ◌<◌, ◌||◌, ◌∙◌, ◌∷◌, ◌≡◌, ◌≤◌, ◌⊎◌,
}
use rag_assistant.Chunks.{ChunkEntry, upsert, delete, ChunkStore}
use rag_assistant.Chunks.Index.{content_of, point_of}
use rag_assistant.Chunks.Interleavings.{
  Flight, idle, uploading, uploaded, World, touches, deletes, in_flight, is_mentioned,
}
use rag_assistant.Chunks.Mutations.{IsMutation}

-- Of the points in flight, those without a chunk are off the index, and those that were uploaded are
-- in it, unless their chunk is gone.
pub record IsPoint (doc x : ℕ) (points : List (ℕ × ℕ)) (was_uploaded : Bool) (w : World)
    : Type 0 where
  pub missing :
      point_of x points ≡ none → (content_of doc w.store.chunks x ≡ none) × (w.index x ≡ none)
  pub present :
      (text : ℕ)
      → point_of x points ≡ some text
      → was_uploaded ≡ true
      → (w.index x ≡ some text) ⊎ (content_of doc w.store.chunks x ≡ none)

abbrev pub IsFlight : ℕ → Flight → World → Type 0
IsFlight doc idle w = Unit
IsFlight doc (uploading ids points) w =
    (x : ℕ)
    → ((contains x ids ≡ false) × (point_of x points ≡ none))
      ⊎ ((contains x ids ≡ true) × IsPoint doc x points false w)
IsFlight doc (uploaded ids points) w =
    (x : ℕ)
    → ((contains x ids ≡ false) × (point_of x points ≡ none))
      ⊎ ((contains x ids ≡ true) × IsPoint doc x points true w)

pub record IsSynced (doc : ℕ) (w : World) : Type 0 where
  pub known : (x : ℕ) → is_mentioned x w ≡ true → x < w.store.next_id
  pub fresh : (x : ℕ) → w.store.next_id ≤ x → content_of doc w.store.chunks x ≡ none
  pub lost :
      (x : ℕ) → any (deletes x) w.store.outbox ≡ true → content_of doc w.store.chunks x ≡ none
  pub synced : (x : ℕ) → is_mentioned x w ≡ false → w.index x ≡ content_of doc w.store.chunks x
  pub flight : IsFlight doc w.flight w

any-append :
    (p : ChunkEntry → Bool) (xs ys : List ChunkEntry) → any p (xs ++ ys) ≡ (any p xs || any p ys)
any-append p [] ys = refl
any-append p (x ∷ xs) ys = ground (arith, any-append p xs ys)

pub any-insert :
    (p : ChunkEntry → Bool) (xs : List ChunkEntry) (e : ChunkEntry) (ys : List ChunkEntry)
    → any p (xs ++ e ∷ ys) ≡ (p e || any p (xs ++ ys))
any-insert p [] e ys = refl
any-insert p (x ∷ xs) e ys = ground (arith, any-insert p xs e ys)

-- What a point says depends on its chunk and on the index at it only.
pub IsFlight-weaken :
    (doc : ℕ) (f : Flight) (w w' : World)
    → ((x : ℕ)
        → in_flight x f ≡ true
        → content_of doc w.store.chunks x ≡ none
        → content_of doc w'.store.chunks x ≡ none)
    → ((x : ℕ)
        → (w'.index x ≡ w.index x)
          ⊎ ((w'.index x ≡ none) × (content_of doc w'.store.chunks x ≡ none)))
    → IsFlight doc f w
    → IsFlight doc f w'
IsFlight-weaken doc idle w w' gone same v = tt
IsFlight-weaken doc (uploading ids points) w w' gone same v = λ x. elim (v x) [
  | inl out ↦ inl out
  | inr (inside, p) ↦ inr (
    inside,
    record {
      missing = λ e. (
        gone x inside (p.missing e).0,
        elim (same x) [ inl kept ↦ kept ∙ (p.missing e).1 | inr (off, left) ↦ off ],
      );
      present = λ text e was. absurd (ground arith);
    },
  )
]
IsFlight-weaken doc (uploaded ids points) w w' gone same v = λ x. elim (v x) [
  | inl out ↦ inl out
  | inr (inside, p) ↦ inr (
    inside,
    record {
      missing = λ e. (
        gone x inside (p.missing e).0,
        elim (same x) [ inl kept ↦ kept ∙ (p.missing e).1 | inr (off, left) ↦ off ],
      );
      present = λ text e was. elim (p.present text e was) [
        | inr none_left ↦ inr (gone x inside none_left)
        | inl there ↦ elim (same x) [ inl kept ↦ inl (kept ∙ there) | inr (off, left) ↦ inr left ]
      ];
    },
  )
]

pub deletes-touches :
    (x : ℕ) (es : List ChunkEntry) → any (deletes x) es ≡ true → any (touches x) es ≡ true
deletes-touches x [] h = h
deletes-touches x (upsert doc ids ∷ es) h = ground (arith, deletes-touches x es)
deletes-touches x (delete doc ids ∷ es) h = ground (arith, deletes-touches x es)

pub mutation-IsSynced :
    (doc : ℕ) (w : World) (s : ChunkStore)
    → IsSynced doc w
    → IsMutation doc w.store s
    → IsSynced doc (record w { store = s })
mutation-IsSynced doc w s v m =
    let outbox : (p : ChunkEntry → Bool) → any p s.outbox ≡ (any p w.store.outbox || p m.entry) =
      λ p. ap (any p) m.enqueued ∙ any-append p w.store.outbox (m.entry ∷ []) ∙ ground arith in
    record {
      known = λ x h. ground (arith, outbox (touches x), m.known x, v.known x, m.grows);
      fresh = λ x h. m.unborn x h (v.fresh x (ground (arith, m.grows)));
      lost = λ x h. elim (Bool-cases (deletes x m.entry)) [
        | inl new ↦ m.lost x new
        | inr old ↦
            let before : any (deletes x) w.store.outbox ≡ true =
              ground (arith, outbox (deletes x)) in
            let mentioned : is_mentioned x w ≡ true =
              ground (arith, deletes-touches x w.store.outbox) in
            m.gone x (v.known x mentioned) (v.lost x before)
      ];
      synced = λ x h.
          let apart : touches x m.entry ≡ false = ground (arith, outbox (touches x)) in
          let before : is_mentioned x w ≡ false = ground (arith, outbox (touches x)) in
          v.synced x before ∙ sym (m.others x apart);
      flight =
          IsFlight-weaken doc w.flight w (record w { store = s })
            (λ x inside e. m.gone x (v.known x (ground arith)) e) (λ x. inl refl) v.flight;
    }
