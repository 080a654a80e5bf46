-- ===== src/Access/Qdrant/Refines.antt =====
-- What the filters of acl.py let through, for any filter language that obeys the laws.
use rag_assistant.Prelude.{
  ℕ, Bool, true, false, ◌&&◌, Option, none, some, List, [], ◌∷◌, ◌++◌, map, ◌≡◌, refl, arith, all,
  any, nonempty, and-true, ◌∙◌,
}
use rag_assistant.Identity.{UserContext}
use rag_assistant.Documents.{Document}
use rag_assistant.Access.{
  owner_passes, group_passes, OwnerMatch, self, assigned, VisibilityCondition, conditions_of,
  get_visibility_conditions, is_in_search_scope, matches_condition, matches_any_condition,
}
use rag_assistant.Access.Qdrant.Language.{
  FilterLanguage, number, visibility_of, visibility, owner_id, group_id, Payload,
}
use rag_assistant.Access.Qdrant.Payload.{Edition, payload_of}
use rag_assistant.Access.Qdrant.{
  owner_clause, group_clause, single_or_must, clause, build_qdrant_filter,
}

-- A condition whose clause says all that the condition says: one on assigned owners names some.
abbrev names_owners : Option OwnerMatch → Option (List ℕ) → Bool
names_owners (some assigned) none = false
names_owners (some assigned) (some ids) = nonempty ids
names_owners _ ids = true

abbrev is_translatable : VisibilityCondition → Bool
is_translatable cond = names_owners cond.owner_match cond.owner_ids

conditions_of-translatable :
    (ctx : UserContext) → all is_translatable (conditions_of false ctx) ≡ true
unfolding get_visibility_conditions
conditions_of-translatable ctx = ground arith

conditions_of-nonempty : (ctx : UserContext) → nonempty (conditions_of false ctx) ≡ true
unfolding get_visibility_conditions
conditions_of-nonempty ctx = ground arith

all-append {ℓ} :
    {A : Type ℓ} (p : A → Bool) (xs ys : List A) → all p (xs ++ ys) ≡ (all p xs && all p ys)
all-append p [] ys = refl
all-append p (x ∷ xs) ys = ground (arith, all-append p xs ys)

module _ (q : FilterLanguage) where
  open q use {holds, must, should, holds-match_value, holds-match_any, holds-must, holds-should}

  holds-should_nonempty :
      (cs : List q.Condition) (p : Payload)
      → nonempty cs ≡ true
      → holds (should cs) p ≡ any (λ c. holds c p) cs
  holds-should_nonempty [] p h = ground arith
  holds-should_nonempty (c ∷ cs) p h = holds-should c cs p

  holds-single_or_must :
      (c : q.Condition) (cs : List q.Condition) (p : Payload)
      → holds (single_or_must q c cs) p ≡ all (λ d. holds d p) (c ∷ cs)
  holds-single_or_must c [] p = ground arith
  holds-single_or_must c (d ∷ ds) p = holds-must (c ∷ d ∷ ds) p

  module _ (doc : Document) (e : Edition) (ctx : UserContext) where
    abbrev passes : List q.Condition → Bool
    passes cs = all (λ c. holds c (payload_of doc e)) cs

    owner_clause-passes :
        (match : Option OwnerMatch) (ids : Option (List ℕ))
        → names_owners match ids ≡ true
        → passes (owner_clause q ctx.user_id match ids) ≡ owner_passes match ids doc ctx
    owner_clause-passes none ids t = refl
    owner_clause-passes (some self) ids t =
        ground (arith, holds-match_value owner_id (number ctx.user_id) (payload_of doc e))
    owner_clause-passes (some assigned) none t = ground arith
    owner_clause-passes (some assigned) (some []) t = ground arith
    owner_clause-passes (some assigned) (some (i ∷ ids)) t =
        ground (arith, holds-match_any owner_id (i ∷ ids) (payload_of doc e))

    group_clause-passes :
        (match : Bool) (ids : Option (List ℕ))
        → passes (group_clause q ctx.group_ids match ids) ≡ group_passes match ids doc ctx
    group_clause-passes false ids = refl
    group_clause-passes true none =
        ground (arith, holds-match_any group_id ctx.group_ids (payload_of doc e))
    group_clause-passes true (some ids) =
        ground (arith, holds-match_any group_id ids (payload_of doc e))

    clause-matches :
        (cond : VisibilityCondition)
        → is_translatable cond ≡ true
        → holds (clause q ctx.user_id ctx.group_ids cond) (payload_of doc e)
          ≡ matches_condition doc ctx cond
    unfolding clause matches_condition
    clause-matches cond t =
        let owners = owner_clause q ctx.user_id cond.owner_match cond.owner_ids in
        let groups = group_clause q ctx.group_ids cond.group_match cond.group_ids in
        let first = q.match_value visibility (visibility_of cond.visibility) in
        rw (holds-single_or_must first (owners ++ groups) (payload_of doc e)) (
          ground (
            arith,
            holds-match_value visibility (visibility_of cond.visibility) (payload_of doc e),
            all-append (λ (c : q.Condition). holds c (payload_of doc e)) owners groups,
            owner_clause-passes cond.owner_match cond.owner_ids t,
            group_clause-passes cond.group_match cond.group_ids,
          ))

    nonempty-map-clause :
        (conds : List VisibilityCondition)
        → nonempty conds ≡ true
        → nonempty (map (clause q ctx.user_id ctx.group_ids) conds) ≡ true
    nonempty-map-clause [] h = h
    nonempty-map-clause (c ∷ conds) h = refl

    any-clause :
        (conds : List VisibilityCondition)
        → all is_translatable conds ≡ true
        → any (λ c. holds c (payload_of doc e)) (map (clause q ctx.user_id ctx.group_ids) conds)
          ≡ any (matches_condition doc ctx) conds
    any-clause [] t = refl
    any-clause (c ∷ conds) t =
        let (first, rest) = and-true (is_translatable c) (all is_translatable conds) t in
        ground (arith, clause-matches c first, any-clause conds rest)

-- The access filter sent to Qdrant selects exactly the points of the documents that the domain
-- rule `is_in_search_scope` admits, for every filter language that obeys the laws.
pub build_qdrant_filter-search_scope :
    (q : FilterLanguage) (doc : Document) (e : Edition) (ctx : UserContext)
    → q.holds (build_qdrant_filter q ctx) (payload_of doc e) ≡ is_in_search_scope doc ctx
unfolding build_qdrant_filter is_in_search_scope matches_any_condition
build_qdrant_filter-search_scope q doc e ctx =
    holds-should_nonempty q (map (clause q ctx.user_id ctx.group_ids) (conditions_of false ctx))
      (payload_of doc e)
      (nonempty-map-clause q doc e ctx (conditions_of false ctx) (conditions_of-nonempty ctx))
    ∙ any-clause q doc e ctx (conditions_of false ctx) (conditions_of-translatable ctx)
