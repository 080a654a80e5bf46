-- ===== src/Context/Selection.antt =====
-- server/app/infrastructure/ml/rag/context_selection.py: the greedy selection of the context within a
-- budget of tokens. What the code imports to read a document (its identity with header and text, its
-- terms) and to render a prompt is an argument; terms are numbers.
use rag_assistant.Prelude.{
  Bool, List, Result, [], any, contains, err, if◌then◌else◌, leb, length, ltb, nonempty, not, ok,
  value_error, select, suc, zero, ℕ, ◌&&◌, ◌++◌, ◌+◌, ◌==◌, ◌||◌, ◌∷◌,
}
use rag_assistant.Context.Numbers.{Floats}

pub data ExclusionReason : Type 0 where
  duplicate over_budget oversized_block : ExclusionReason

pub record Entry (F D : Type 0) : Type 0 where
  pub index : ℕ
  pub item : D
  pub score : F
  pub terms : List ℕ

pub record Exclusion (D : Type 0) : Type 0 where
  pub item : D
  pub reason : ExclusionReason

-- What the loop holds: the chosen items, the covered terms, the prompt, its documents and the records
-- of what was left out.
pub record Selection (D C S : Type 0) : Type 0 where
  pub chosen : List D
  pub covered : List ℕ
  pub context : C
  pub selected : List S
  pub exclusions : List (Exclusion D)

-- The documents and the renderer: `score` is 0.0 of an item without one.
pub record Documents (F D C S : Type 0) : Type 0 where
  pub score : D → F
  pub terms : D → List ℕ
  pub same_block : D → D → Bool
  pub render : List D → C × List S
  pub empty : C
  pub count_tokens : C → ℕ

abbrev pub exclude : {D : Type 0} → D → ExclusionReason → Exclusion D
exclude item reason = record { item = item; reason = reason }

-- `len((terms & part) - covered)`
abbrev fresh_terms : (terms part covered : List ℕ) → ℕ
fresh_terms terms [] covered = 0
fresh_terms terms (t ∷ part) covered =
    (if contains t terms && not (contains t covered) then 1 else 0) + fresh_terms terms part covered

module _ {F D : Type 0} where
  -- The best entry and the others in their order: `front` stands before the best so far, `middle`
  -- after it.
  abbrev pub take_best :
      (Entry F D → Entry F D → Bool)
      → (front : List (Entry F D)) → Entry F D
      → (middle rest : List (Entry F D)) → Entry F D × List (Entry F D)
  take_best prior front best middle [] = (best, front ++ middle)
  take_best prior front best middle (e ∷ rest) =
      let new = prior e best in
      take_best prior (if new then front ++ best ∷ middle else front) (if new then e else best)
        (if new then [] else middle ++ e ∷ []) rest

module _ {F D : Type 0} ⦃floats : Floats F⦄ where
  open floats use {zero_float, weight, sub, mul, less}

  -- `sorted(..., key=lambda pair: -score)`: by falling score, equal scores in the order of the list.
  abbrev pub insert_ranked : Entry F D → List (Entry F D) → List (Entry F D)
  insert_ranked e [] = e ∷ []
  insert_ranked e (x ∷ entries) =
      let rest = insert_ranked e entries in
      if less e.score x.score then x ∷ rest else e ∷ x ∷ entries

  abbrev pub sort_ranked : List (Entry F D) → List (Entry F D)
  sort_ranked [] = []
  sort_ranked (e ∷ entries) = insert_ranked e (sort_ranked entries)

  -- `max` and `min` of the scores, 0.0 where there is none
  abbrev extreme_from : (F → F → Bool) → F → List (Entry F D) → F
  extreme_from better best [] = best
  extreme_from better best (e ∷ entries) =
      extreme_from better (if better e.score best then e.score else best) entries

  abbrev extreme : (F → F → Bool) → List (Entry F D) → F
  extreme better [] = zero_float
  extreme better (e ∷ entries) = extreme_from better e.score entries

  unfoldable pub coverage_weight : List (Entry F D) → F
  coverage_weight entries =
      mul weight (sub (extreme (λ a b. less b a) entries) (extreme less entries))

module _ {F : Type 0} ⦃floats : Floats F⦄ where
  open floats use {ratio}

  abbrev part_gains : (terms covered : List ℕ) → List (List ℕ) → List F
  part_gains terms covered [] = []
  part_gains terms covered (part ∷ parts) =
      ratio (fresh_terms terms part covered) (length part) ∷ part_gains terms covered parts

module _ {F D C S : Type 0} where
  abbrev pub reason_of : Documents F D C S → (budget : ℕ) → Entry F D → ExclusionReason
  reason_of docs budget e =
      let (single_context, single_selected) = docs.render (e.item ∷ []) in
      if ltb budget (docs.count_tokens single_context) then oversized_block else over_budget

  abbrev pub try_entry :
      Documents F D C S → (budget : ℕ) → Selection D C S → Entry F D → Selection D C S
  try_entry docs budget s e =
      let (trial_context, trial_selected) = docs.render (s.chosen ++ e.item ∷ []) in
      if leb (docs.count_tokens trial_context) budget
      then record s {
        chosen = s.chosen ++ e.item ∷ [];
        covered = s.covered ++ e.terms;
        context = trial_context;
        selected = trial_selected;
      }
      else record s { exclusions = s.exclusions ++ exclude e.item (reason_of docs budget e) ∷ [] }

module _ {F D C S : Type 0} ⦃floats : Floats F⦄ where
  open floats use {zero_float, sum, add, mul, divide, less}

  abbrev pub enumerate_items : Documents F D C S → ℕ → List D → List (Entry F D)
  enumerate_items docs i [] = []
  enumerate_items docs i (d ∷ items) =
      record { index = i; item = d; score = docs.score d; terms = docs.terms d }
      ∷ enumerate_items docs (i + 1) items

  -- The blocks that were not seen before, and the records of the others.
  abbrev pub unseen :
      Documents F D C S → (seen : List D) → List (Entry F D) → List (Entry F D) × List (Exclusion D)
  unseen docs seen [] = ([], [])
  unseen docs seen (e ∷ entries) =
      let old = any (docs.same_block e.item) seen in
      let (remaining, records) = unseen docs (if old then seen else e.item ∷ seen) entries in
      if old then (remaining, exclude e.item duplicate ∷ records) else (e ∷ remaining, records)

  unfoldable pub gain : (parts : List (List ℕ)) → Selection D C S → Entry F D → F
  gain parts s e =
      if nonempty parts
      then divide (sum (part_gains e.terms s.covered parts)) (length parts)
      else zero_float

  -- `priority(e) > priority(best)`: the tuples in the order of their parts
  unfoldable pub is_prior :
      (parts : List (List ℕ)) → F → Selection D C S → Entry F D → Entry F D → Bool
  unfolding gain
  is_prior parts factor s e best =
      let bonus : Entry F D → F =
        λ x. if nonempty s.chosen then mul factor (gain parts s x) else zero_float in
      let tie : Entry F D → F = λ x. if nonempty s.chosen then gain parts s x else zero_float in
      let value : Entry F D → F = λ x. add x.score (bonus x) in
      less (value best) (value e)
      || (not (less (value e) (value best))
          && (less (tie best) (tie e) || (not (less (tie e) (tie best)) && ltb e.index best.index)))

  -- `while remaining`, with the number of the entries that remain
  unfoldable pub pack :
      Documents F D C S
      → (parts : List (List ℕ)) → F
      → (budget fuel : ℕ) → List (Entry F D)
      → Selection D C S
      → Selection D C S
  pack docs parts factor budget zero remaining s = s
  pack docs parts factor budget (suc fuel) [] s = s
  pack docs parts factor budget (suc fuel) (e ∷ remaining) s =
      let (best, rest) = take_best (is_prior parts factor s) [] e [] remaining in
      pack docs parts factor budget fuel rest (try_entry docs budget s best)

  -- The entries that `remaining` starts with, with the records of the repeated blocks.
  abbrev pub candidates : Documents F D C S → List D → List (Entry F D) × List (Exclusion D)
  candidates docs items = unseen docs [] (sort_ranked (enumerate_items docs 0 items))

  unfoldable pub pack_all :
      Documents F D C S → List D → (budget : ℕ) → List (List ℕ) → Selection D C S
  unfolding pack coverage_weight
  pack_all docs items budget query_parts =
      let (remaining, records) = candidates docs items in
      pack docs (select nonempty query_parts) (coverage_weight remaining) budget (length remaining)
        remaining
        (record {
          chosen = [];
          covered = [];
          context = docs.empty;
          selected = [];
          exclusions = records;
        })

  unfoldable pub select_context :
      Documents F D C S → List D → (budget : ℕ) → List (List ℕ) → Result (Selection D C S)
  unfolding pack_all
  select_context docs items budget query_parts =
      if budget == 0 then err value_error else ok (pack_all docs items budget query_parts)
