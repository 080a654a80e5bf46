-- ===== src/Retrieval/Tests.antt =====
-- Three chunks of two provisions, and the theorems applied to them.
use rag_assistant.Prelude.{
  All, Bool, List, Option, String, [], if◌then◌else◌, none, refl, some, true, ◌++◌, ◌+◌, ◌∷◌, ◌≡◌,
  ◌≤◌, ◌⊎◌,
}
use rag_assistant.Retrieval.{
  narrow, default_options, is_broad, reserved_tokens, compute_context_budget, RetrievalDocument,
  Provision, provision_of, same_provision, is_seen, two_passes, prioritize_distinct_provisions,
  deduplicate_docs,
}
use rag_assistant.Retrieval.Passes.{count, IsLedOnce, provisions}
use rag_assistant.Retrieval.Stable.{leading, repeating}
use rag_assistant.Retrieval.Order.{prioritize_distinct_provisions_lem}
use rag_assistant.Retrieval.Limits.{compute_context_budget_lem}

abbrev whole : String → List String
whole s = s ∷ []

abbrev digest : String → String
digest s = s

abbrev article : String → String → RetrievalDocument
article name content = record {
  page_content = content;
  metadata = record {
    section = some name;
    heading = none;
    document_id = some 3;
    source = none;
    table_id = none;
    act_version_id = some 1;
  };
}

abbrev docs : List RetrievalDocument
docs = article "1" "a" ∷ article "1" "b" ∷ article "2" "a" ∷ []

abbrev key : RetrievalDocument → Option Provision
key d = provision_of whole d.metadata

prioritize_test :
    prioritize_distinct_provisions whole docs
    ≡ article "1" "a" ∷ article "2" "a" ∷ article "1" "b" ∷ []
unfolding prioritize_distinct_provisions two_passes
prioritize_test = refl

deduplicate_test : deduplicate_docs digest [] docs ≡ article "1" "a" ∷ article "1" "b" ∷ []
unfolding deduplicate_docs
deduplicate_test = refl

prioritize_distinct_provisions_lem_example :
    let firsts = leading same_provision key [] docs in
    let others = repeating same_provision key [] docs in
    (prioritize_distinct_provisions whole docs ≡ firsts ++ others)
    × IsLedOnce same_provision key firsts
    × All
        (λ y. is_seen same_provision key (provisions same_provision key firsts) (key y) ≡ true)
        others
    × ((p : RetrievalDocument → Bool)
        → count p (prioritize_distinct_provisions whole docs) ≡ count p docs)
prioritize_distinct_provisions_lem_example = prioritize_distinct_provisions_lem whole docs

compute_context_budget_lem_example :
    let budget = compute_context_budget narrow true 400 200 8192 16384 default_options in
    let wide = is_broad narrow true in
    (1000 ≤ budget)
    × (1500 ≤ reserved_tokens default_options 400 200)
    × ((budget ≡ 1000)
        ⊎ (budget + (if wide then 2048 else 400) + reserved_tokens default_options 400 200
            ≤ (if wide then 16384 else 8192)))
compute_context_budget_lem_example =
    compute_context_budget_lem narrow true 400 200 8192 16384 default_options
