-- ===== src/Context/Tests.antt =====
-- The theorems on the versions of acts, and those on the selection of the context at concrete documents: a document is its number of
-- tokens, with itself as its text and its size as its score.
use rag_assistant.Prelude.{
  All, List, [], arith, err, ltb, ok, refl, value_error, ℕ, ◌*◌, ◌+◌, ◌-◌, ◌==◌, ◌∷◌, ◌≡◌, Option,
  map, none, some,
}
use rag_assistant.Context.Numbers.{Floats, count}
use rag_assistant.Context.Selection.{
  Documents, Selection, Exclusion, duplicate, over_budget, oversized_block, exclude, select_context,
  pack_all, pack, coverage_weight, is_prior, gain,
}
use rag_assistant.Context.Temporal.{Retrieved, resolve_temporal_conflicts}
use rag_assistant.Context.Resolved.{resolve_temporal_conflicts_lem, unversioned}
use rag_assistant.Context.Packing.{select_context-count}
use rag_assistant.Context.Fitting.{select_context-IsFitting, IsFitting, IsJustified}

abbrev total : List ℕ → ℕ
total [] = 0
total (n ∷ ns) = n + total ns

instance abbrev whole_numbers : Floats ℕ
whole_numbers = record {
  zero_float = 0;
  weight = 0;
  ratio = λ a b. 0;
  sum = total;
  add = λ a b. a + b;
  sub = λ a b. a - b;
  mul = λ a b. a * b;
  divide = λ a b. a;
  less = ltb;
}

abbrev sized : Documents ℕ ℕ ℕ ℕ
sized = record {
  score = λ d. d;
  terms = λ d. [];
  same_block = λ a b. a == b;
  render = λ items. (total items, items);
  empty = 0;
  count_tokens = λ c. c;
}

abbrev sizes : List ℕ
sizes = 4 ∷ 9 ∷ 4 ∷ 3 ∷ 20 ∷ []

abbrev packed : Selection ℕ ℕ ℕ
packed = record {
  chosen = 9 ∷ 3 ∷ [];
  covered = [];
  context = 12;
  selected = 9 ∷ 3 ∷ [];
  exclusions = exclude 4 duplicate ∷ exclude 20 oversized_block ∷ exclude 4 over_budget ∷ [];
}

selects : select_context sized sizes 12 [] ≡ ok packed
unfolding select_context pack_all pack coverage_weight is_prior gain
selects = refl

refuses : select_context sized sizes 0 [] ≡ err value_error
unfolding select_context
refuses = refl

select_context-count_example :
    count (λ d. d == 4) packed.chosen + count (λ (x : Exclusion ℕ). x.item == 4) packed.exclusions
    ≡ 2
select_context-count_example = select_context-count sized (λ d. d == 4) sizes 12 [] packed selects

select_context-IsFitting_example :
    (out : Selection ℕ ℕ ℕ) × (select_context sized sizes 12 [] ≡ ok out)
    × IsFitting sized 12 out
    × All (IsJustified sized 12 out.chosen) out.exclusions
select_context-IsFitting_example = select_context-IsFitting sized 12 sizes [] (omega arith)

-- Two versions of act 1, of which version 8 is the newer, and a document without a version.
abbrev chunk : ℕ → Option ℕ → Option ℕ → ℕ → Retrieved ℕ
chunk n act version date = record {
  doc = n;
  act_id = act;
  act_version_id = version;
  effective_from = some date;
}

abbrev retrieved : List (Retrieved ℕ)
retrieved =
    chunk 1 (some 1) (some 7) 100
    ∷ chunk 2 none none 0
    ∷ chunk 3 (some 1) (some 8) 200
    ∷ chunk 4 (some 2) (some 9) 50
    ∷ chunk 5 (some 1) (some 8) 200
    ∷ []

resolves :
    map (λ (d : Retrieved ℕ). d.doc) (resolve_temporal_conflicts retrieved) ≡ 2 ∷ 3 ∷ 5 ∷ 4 ∷ []
unfolding resolve_temporal_conflicts
resolves = refl

resolve_temporal_conflicts_lem_example :
    unversioned (resolve_temporal_conflicts retrieved) ≡ chunk 2 none none 0 ∷ []
resolve_temporal_conflicts_lem_example = (resolve_temporal_conflicts_lem retrieved).0
