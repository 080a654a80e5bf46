-- ===== src/Retrieval/Order.antt =====
-- The order in which retrieval.py offers documents, and its deduplication.
use rag_assistant.Prelude.{
  ℕ, none, arith, option_eq, subst, All, Bool, Bool-cases, List, Option, String, [], any, ap, inl,
  inr, refl, some, true, ◌++◌, ◌+◌, ◌∙◌, ◌∷◌, ◌≡◌,
}
use rag_assistant.Retrieval.{
  RetrievalDocument, Provision, Source, by_id, by_name, same_source, same_parts, provision_of,
  same_provision, is_seen, two_passes, prioritize_distinct_provisions, deduplicate_docs,
}
use rag_assistant.Retrieval.Passes.{
  count, count-append, count-two_passes, first-IsLedOnce, remaining_seen, repeats, IsLedOnce,
  provisions,
}
use rag_assistant.Retrieval.Stable.{
  leading, repeating, nothing_seen, two_passes-first, two_passes-second,
}
use mathlib.Core.Path.{ap₂}
use text.Mathlib.Text.{◌==◌ as str_eq}
use text.Mathlib.TextEquality.{eq_iff}

same_text : (s t : String) → str_eq s t ≡ true → s ≡ t
same_text s t h = (eq_iff s t).0 h

same_source-eq : (a b : Source) → same_source a b ≡ true → a ≡ b
same_source-eq (by_id a) (by_id b) h = ap by_id (ground arith)
same_source-eq (by_id a) (by_name b) h = cc
same_source-eq (by_name a) (by_id b) h = cc
same_source-eq (by_name a) (by_name b) h = ap by_name (same_text a b h)

same_version-eq : (a b : Option ℕ) → option_eq a b ≡ true → a ≡ b
same_version-eq none none h = refl
same_version-eq none (some b) h = cc
same_version-eq (some a) none h = cc
same_version-eq (some a) (some b) h = ap some (ground arith)

same_parts-eq : (xs ys : List String) → same_parts xs ys ≡ true → xs ≡ ys
same_parts-eq [] [] h = refl
same_parts-eq [] (y ∷ ys) h = cc
same_parts-eq (x ∷ xs) [] h = cc
same_parts-eq (x ∷ xs) (y ∷ ys) h =
    ap₂ ◌∷◌ (same_text x y (ground arith)) (same_parts-eq xs ys (ground arith))

same_provision_trans :
    (p q r : Provision)
    → same_provision p q ≡ true
    → same_provision q r ≡ true
    → same_provision p r ≡ true
same_provision_trans p q r h g =
    let source = same_source-eq p.source q.source (ground arith) in
    let version = same_version-eq p.version q.version (ground arith) in
    let parts = same_parts-eq p.parts q.parts (ground arith) in rw (source, version, parts) g

-- The prioritized documents are first those without an earlier document of their provision, in the
-- order in which they are given, and then the others, in that order. No provision comes twice among
-- the first, each of the others is of a provision of the first, and every test holds of as many
-- documents as before.
pub prioritize_distinct_provisions_lem :
    (split : String → List String) (items : List RetrievalDocument)
    → let key : RetrievalDocument → Option Provision = λ d. provision_of split d.metadata in
      let firsts = leading same_provision key [] items in
      let others = repeating same_provision key [] items in
      (prioritize_distinct_provisions split items ≡ firsts ++ others)
      × IsLedOnce same_provision key firsts
      × All
          (λ y. is_seen same_provision key (provisions same_provision key firsts) (key y) ≡ true)
          others
      × ((p : RetrievalDocument → Bool)
          → count p (prioritize_distinct_provisions split items) ≡ count p items)
unfolding prioritize_distinct_provisions
prioritize_distinct_provisions_lem split items =
    let key : RetrievalDocument → Option Provision = λ d. provision_of split d.metadata in
    let passes = two_passes same_provision key [] items in
    let seen = nothing_seen same_provision key in
    let first = two_passes-first same_provision key same_provision_trans [] [] items seen in
    let second = two_passes-second same_provision key same_provision_trans [] [] items seen in
    (
      ap₂ ◌++◌ first second,
      subst (IsLedOnce same_provision key) first (first-IsLedOnce same_provision key [] items),
      subst
          (λ ys.
            All
              (λ y.
                is_seen same_provision key
                  (provisions same_provision key (leading same_provision key [] items)) (key y)
                ≡ true)
              ys)
          second
          (subst
            (λ xs.
              All
                (λ y. is_seen same_provision key (provisions same_provision key xs) (key y) ≡ true)
                passes.1)
            first
            (repeats same_provision key (provisions same_provision key passes.0) passes.1
              (remaining_seen same_provision key [] items))),
      λ p. count-append p passes.0 passes.1 ∙ count-two_passes same_provision key p [] items,
    )

-- Deduplication is the first pass over the digests.
deduplicate_docs-eq :
    (content_hash : String → String) (seen : List String) (ds : List RetrievalDocument)
    → deduplicate_docs content_hash seen ds
      ≡ (two_passes str_eq (λ d. some (content_hash d.page_content)) seen ds).0
unfolding deduplicate_docs two_passes
deduplicate_docs-eq content_hash seen [] = refl
deduplicate_docs-eq content_hash seen (d ∷ ds) =
    elim (Bool-cases (any (str_eq (content_hash d.page_content)) seen)) [
      | inl old ↦ rw old (deduplicate_docs-eq content_hash seen ds)
      | inr new ↦ rw new (
          ap (λ r. d ∷ r)
            (deduplicate_docs-eq content_hash (content_hash d.page_content ∷ seen) ds))
    ]

-- Deduplication keeps no two documents with one digest, and what it drops, the second pass over the
-- digests, has digests that it keeps.
pub deduplicate_docs_lem :
    (content_hash : String → String) (ds : List RetrievalDocument)
    → let key : RetrievalDocument → Option String = λ d. some (content_hash d.page_content) in
      let kept = deduplicate_docs content_hash [] ds in
      IsLedOnce str_eq key kept
      × All
          (λ d. is_seen str_eq key (provisions str_eq key kept) (key d) ≡ true)
          (two_passes str_eq key [] ds).1
      × ((p : RetrievalDocument → Bool)
          → count p kept + count p (two_passes str_eq key [] ds).1 ≡ count p ds)
deduplicate_docs_lem content_hash ds =
    let key : RetrievalDocument → Option String = λ d. some (content_hash d.page_content) in
    let passes = two_passes str_eq key [] ds in
    rw (deduplicate_docs-eq content_hash [] ds) (
      first-IsLedOnce str_eq key [] ds,
      repeats str_eq key (provisions str_eq key passes.0) passes.1
          (remaining_seen str_eq key [] ds),
      λ p. count-two_passes str_eq key p [] ds,
    )
