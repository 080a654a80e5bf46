-- ===== src/Retrieval.antt =====
-- server/app/domain/rag/retrieval.py: the policies that order, deduplicate and bound the documents
-- retrieved for a question. The digest of a text and the splitting of a section's path, which are
-- calls of Python's library, are parameters.
pub mod Passes
pub mod Stable
pub mod Order
pub mod Limits
mod Tests
use rag_assistant.Prelude.{
  Bool, List, Option, String, [], any, false, if◌then◌else◌, none, option_eq, some, true, ℕ, ◌&&◌,
  ◌++◌, ◌+◌, ◌-◌, ◌/◌, ◌==◌, ◌∷◌, max,
}
use text.Mathlib.Text.{◌==◌ as str_eq}

pub data Breadth : Type 0 where
  narrow broad : Breadth

-- The keyword arguments of `compute_context_budget` that have defaults.
pub record ContextBudgetOptions : Type 0 where
  pub chars_per_token : ℕ
  pub reserved_overhead : ℕ
  pub min_context_tokens : ℕ
  pub num_predict_narrow : ℕ
  pub num_predict_broad : ℕ

abbrev pub default_options : ContextBudgetOptions
default_options = record {
  chars_per_token = 4;
  reserved_overhead = 3000;
  min_context_tokens = 1000;
  num_predict_narrow = 400;
  num_predict_broad = 2048;
}

abbrev pub is_broad : Breadth → Bool → Bool
is_broad narrow enumerate_cases = enumerate_cases
is_broad broad enumerate_cases = true

abbrev pub reserved_tokens : ContextBudgetOptions → ℕ → ℕ → ℕ
reserved_tokens o history question =
    max ((history + question + o.reserved_overhead) / o.chars_per_token) 1500

-- `chars_per_token` is positive. A difference below zero is below the minimum, as zero is.
unfoldable pub compute_context_budget : Breadth → Bool → ℕ → ℕ → ℕ → ℕ → ContextBudgetOptions → ℕ
compute_context_budget breadth enumerate_cases history question ctx_narrow ctx_broad o =
    let wide = is_broad breadth enumerate_cases in
    let num_ctx = if wide then ctx_broad else ctx_narrow in
    let num_predict = if wide then o.num_predict_broad else o.num_predict_narrow in
    max (num_ctx - num_predict - reserved_tokens o history question) o.min_context_tokens

unfoldable pub select_final_top_k : Breadth → Bool → ℕ → ℕ → ℕ
select_final_top_k narrow false top_k top_k_broad = top_k
select_final_top_k narrow true top_k top_k_broad = top_k_broad
select_final_top_k broad enumerate_cases top_k top_k_broad = top_k_broad

-- The keys of a chunk's metadata that the ordering reads; a missing key is `none`. Of `table_id` only
-- the truth is read.
pub record Metadata : Type 0 where
  pub section : Option String
  pub heading : Option String
  pub document_id : Option ℕ
  pub source : Option String
  pub table_id : Option ℕ
  pub act_version_id : Option ℕ

pub record RetrievalDocument : Type 0 where
  pub page_content : String
  pub metadata : Metadata

-- `a or b` on strings, where the empty one is false as well.
abbrev string_or : Option String → Option String → Option String
string_or none b = b
string_or (some s) b = if str_eq s "" then b else some s

abbrev truthy : Option String → Option String
truthy none = none
truthy (some s) = if str_eq s "" then none else some s

-- Python's truth of a number that may be missing.
abbrev truthy_id : Option ℕ → Option ℕ
truthy_id none = none
truthy_id (some n) = if n == 0 then none else some n

pub data Source : Type 0 where
  by_id : ℕ → Source
  by_name : String → Source

abbrev source_of : Option ℕ → Option String → Option Source
source_of (some n) name = some (by_id n)
source_of none none = none
source_of none (some s) = some (by_name s)

-- A provision: its source, its version and the path of its section.
pub record Provision : Type 0 where
  pub source : Source
  pub version : Option ℕ
  pub parts : List String

abbrev pub same_source : Source → Source → Bool
same_source (by_id a) (by_id b) = a == b
same_source (by_name a) (by_name b) = str_eq a b
same_source _ _ = false

abbrev pub same_parts : List String → List String → Bool
same_parts [] [] = true
same_parts (x ∷ xs) (y ∷ ys) = str_eq x y && same_parts xs ys
same_parts _ _ = false

abbrev pub same_provision : Provision → Provision → Bool
same_provision p q =
    same_source p.source q.source && (option_eq p.version q.version && same_parts p.parts q.parts)

-- `if parts[-1] == SENTENCE_UNIT_KIND: parts = parts[:-1]`
abbrev drop_sentence : List String → List String
drop_sentence [] = []
drop_sentence (p ∷ []) = if str_eq p "sentence" then [] else p ∷ []
drop_sentence (p ∷ q ∷ ps) = p ∷ drop_sentence (q ∷ ps)

-- The provision of a chunk; `none` for a chunk that keeps its own slot.
abbrev provision_at : List String → Option ℕ → Source → Option Provision
provision_at [] version s = none
provision_at (p ∷ ps) version s = some (record { source = s; version = version; parts = p ∷ ps })

abbrev provision_in :
    (String → List String) → Option String → Option Source → Option ℕ → Option ℕ → Option Provision
provision_in split (some section) (some s) none version =
    provision_at (drop_sentence (split section)) version s
provision_in split _ _ _ version = none

abbrev pub provision_of : (String → List String) → Metadata → Option Provision
provision_of split m =
    provision_in split (truthy (string_or m.section m.heading))
      (source_of (truthy_id m.document_id) (truthy m.source)) (truthy_id m.table_id)
      m.act_version_id

module _ {A K : Type 0} (same : K → K → Bool) (key : A → Option K) where
  abbrev pub is_seen : List K → Option K → Bool
  is_seen seen none = false
  is_seen seen (some k) = any (same k) seen

  abbrev pub note : List K → Option K → List K
  note seen none = seen
  note seen (some k) = if any (same k) seen then seen else k ∷ seen

  -- The loop: the first chunks of their provisions, and the remaining ones.
  unfoldable pub two_passes : List K → List A → List A × List A
  two_passes seen [] = ([], [])
  two_passes seen (x ∷ xs) =
      let rest = two_passes (note seen (key x)) xs in
      if is_seen seen (key x) then (rest.0, x ∷ rest.1) else (x ∷ rest.0, rest.1)

unfoldable pub prioritize_distinct_provisions :
    (String → List String) → List RetrievalDocument → List RetrievalDocument
unfolding two_passes
prioritize_distinct_provisions split items =
    let passes = two_passes same_provision (λ d. provision_of split d.metadata) [] items in
    passes.0 ++ passes.1

unfoldable pub deduplicate_docs :
    (String → String) → List String → List RetrievalDocument → List RetrievalDocument
deduplicate_docs content_hash seen [] = []
deduplicate_docs content_hash seen (d ∷ ds) =
    let h = content_hash d.page_content in
    let known = any (str_eq h) seen in
    let rest = deduplicate_docs content_hash (if known then seen else h ∷ seen) ds in
    if known then rest else d ∷ rest
