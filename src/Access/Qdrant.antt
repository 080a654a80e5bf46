-- ===== src/Access/Qdrant.antt =====
-- server/app/infrastructure/repositories/vector/acl.py: the Qdrant filters for access, domain and
-- time. The filter language is Qdrant's, not the repository's: it is a parameter, with the
-- documented meaning of each condition that the code builds as a law.
pub mod Language
pub mod Payload
pub mod Refines
pub mod Temporal
use rag_assistant.Prelude.{
  ℕ, Bool, true, false, Option, none, some, List, [], ◌∷◌, ◌++◌, map, get_or,
}
use rag_assistant.Identity.{UserContext}
use rag_assistant.Documents.{DocumentVisibility}
use rag_assistant.Access.{
  OwnerMatch, self, assigned, VisibilityCondition, conditions_of, get_visibility_conditions,
}
use Language.{
  FilterLanguage, Value, number, text, visibility_of, flag, Key, visibility, owner_id, group_id,
  doc_domain, effective_from, effective_to, is_current,
}

module _ (q : FilterLanguage) where
  open q use {Condition, match_value, match_any, lte, gt, is_empty, must, should, must_not}

  -- The owner clause; `self` and `assigned` are the two tests on `cond.owner_match`.
  abbrev owner_clause : ℕ → Option OwnerMatch → Option (List ℕ) → List Condition
  owner_clause user_id none ids = []
  owner_clause user_id (some self) ids = match_value owner_id (number user_id) ∷ []
  owner_clause user_id (some assigned) none = []
  owner_clause user_id (some assigned) (some []) = []
  owner_clause user_id (some assigned) (some (i ∷ ids)) = match_any owner_id (i ∷ ids) ∷ []

  abbrev group_clause : List ℕ → Bool → Option (List ℕ) → List Condition
  group_clause groups false ids = []
  group_clause groups true none = match_any group_id groups ∷ []
  group_clause groups true (some ids) = match_any group_id ids ∷ []

  -- `Filter(must=must) if len(must) > 1 else must[0]`, for `must` with the first element `c`.
  abbrev single_or_must : Condition → List Condition → Condition
  single_or_must c [] = c
  single_or_must c (d ∷ ds) = must (c ∷ d ∷ ds)

  unfoldable pub clause : ℕ → List ℕ → VisibilityCondition → Condition
  clause user_id groups cond =
      single_or_must (match_value visibility (visibility_of cond.visibility)) (
        owner_clause user_id cond.owner_match cond.owner_ids
        ++ group_clause groups cond.group_match cond.group_ids)

  unfoldable pub build_qdrant_filter : UserContext → Condition
  unfolding clause
  build_qdrant_filter ctx =
      should (map (clause ctx.user_id ctx.group_ids) (conditions_of false ctx))

  -- The `access_filter is not None` test, then the conjunction.
  abbrev pub with_access : Option Condition → Condition → Condition
  with_access none c = must (c ∷ [])
  with_access (some access) c = must (access ∷ c ∷ [])

  unfoldable pub with_domain_filter : Option Condition → ℕ → Condition
  with_domain_filter access domain = with_access access (match_value doc_domain (text domain))

  unfoldable pub with_temporal_filter : Option Condition → Option ℕ → ℕ → Condition
  with_temporal_filter access as_of_date today =
      let effective_date = get_or as_of_date today in
      with_access access (
        must (
          should (is_empty effective_from ∷ lte effective_from effective_date ∷ [])
          ∷ should (is_empty effective_to ∷ gt effective_to effective_date ∷ [])
          ∷ should (
              match_value is_current (flag true)
              ∷ must_not (is_empty effective_from ∷ [])
              ∷ must_not (is_empty effective_to ∷ [])
              ∷ [])
          ∷ []))
