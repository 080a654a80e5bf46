-- ===== src/Access.antt =====
-- server/app/domain/knowledge/access_control.py: the canonical visibility conditions, their match
-- against a document, and the checks that raise. The proofs are in the modules below.
pub mod Spec
pub mod Upload
pub mod Qdrant
mod Tests
use rag_assistant.Prelude.{
  ℕ, Bool, true, false, not, ◌&&◌, ◌||◌, Option, none, some, List, [], ◌∷◌, ◌++◌, Result, ok, err,
  validation_error, business_rule_violation, option_eq, contains, contains_some, set_union,
  nonempty, any, if◌then◌else◌,
}
use rag_assistant.Identity.{
  UserRole, admin, curator, user, UserKind, internal, client, UserContext, is_client_kind,
  is_admin_role, is_curator_role,
}
use rag_assistant.Documents.{
  Document, DocumentVisibility, internal_public, internal_group, internal_private, client_private,
  same_visibility, can_be_deleted_by,
}

pub data OwnerMatch : Type 0 where
  self assigned : OwnerMatch

-- One AND-clause of a visibility filter; the whole filter is the OR of its conditions.
pub record VisibilityCondition : Type 0 where
  pub visibility : DocumentVisibility
  pub owner_match : Option OwnerMatch
  pub owner_ids : Option (List ℕ)
  pub group_match : Bool
  pub group_ids : Option (List ℕ)

-- `VisibilityCondition(visibility=v)`, every other field at its default.
abbrev pub plain : DocumentVisibility → VisibilityCondition
plain v = record {
  visibility = v;
  owner_match = none;
  owner_ids = none;
  group_match = false;
  group_ids = none;
}

-- The test `v in ALLOWED_VISIBILITY_FOR_KIND[kind]`.
abbrev pub is_allowed_visibility : UserKind → DocumentVisibility → Bool
is_allowed_visibility internal v = true
is_allowed_visibility client v = same_visibility v client_private

unfoldable pub client_conditions : List VisibilityCondition
client_conditions = record (plain client_private) { owner_match = some self } ∷ []

-- `[c] if test else []`, as each `conditions.append` under a test.
abbrev pub append_if : Bool → VisibilityCondition → List VisibilityCondition
append_if test c = if test then c ∷ [] else []

unfoldable pub base_internal_conditions : UserKind → List ℕ → List VisibilityCondition
base_internal_conditions kind groups =
    append_if (is_allowed_visibility kind internal_public) (plain internal_public)
    ++ (append_if (is_allowed_visibility kind internal_private)
          (record (plain internal_private) { owner_match = some self })
        ++ append_if (is_allowed_visibility kind internal_group && nonempty groups)
            (record (plain internal_group) { group_match = true }))

unfoldable pub curator_conditions : List ℕ → List ℕ → List ℕ → List ℕ → List VisibilityCondition
curator_conditions groups managed_clients managed_internals managed_groups =
    let all_groups = set_union groups managed_groups in
    append_if (nonempty managed_internals) (record (plain internal_private) {
      owner_match = some assigned;
      owner_ids = some managed_internals;
    })
    ++ (append_if (nonempty managed_clients) (record (plain client_private) {
      owner_match = some assigned;
      owner_ids = some managed_clients;
    })
        ++ append_if (nonempty all_groups)
            (record (plain internal_group) { group_match = true; group_ids = some all_groups }))

unfoldable pub admin_conditions : Bool → List VisibilityCondition
admin_conditions for_list =
    plain internal_group ∷ plain internal_private ∷ append_if for_list (plain client_private)

unfoldable pub get_visibility_conditions :
    UserKind → List ℕ → Bool → UserRole → List ℕ → List ℕ → List ℕ → List VisibilityCondition
unfolding client_conditions base_internal_conditions curator_conditions admin_conditions
get_visibility_conditions kind groups for_list role clients internals managed_groups =
    if is_client_kind kind
    then client_conditions
    else if is_curator_role role
    then base_internal_conditions kind groups
      ++ curator_conditions groups clients internals managed_groups
    else if is_admin_role role
    then base_internal_conditions kind groups ++ admin_conditions for_list
    else base_internal_conditions kind groups

-- The three `continue` tests of the loop in `matches_any_condition`, negated.
abbrev owner_passes : Option OwnerMatch → Option (List ℕ) → Document → UserContext → Bool
owner_passes none ids doc ctx = true
owner_passes (some self) ids doc ctx = option_eq doc.owner_id (some ctx.user_id)
owner_passes (some assigned) none doc ctx = false
owner_passes (some assigned) (some ids) doc ctx = contains_some doc.owner_id ids

abbrev group_passes : Bool → Option (List ℕ) → Document → UserContext → Bool
group_passes false ids doc ctx = true
group_passes true none doc ctx = contains_some doc.group_id ctx.group_ids
group_passes true (some ids) doc ctx = contains_some doc.group_id ids

unfoldable pub matches_condition : Document → UserContext → VisibilityCondition → Bool
matches_condition doc ctx cond =
    same_visibility cond.visibility doc.visibility
    && (owner_passes cond.owner_match cond.owner_ids doc ctx
        && group_passes cond.group_match cond.group_ids doc ctx)

unfoldable pub matches_any_condition : Document → UserContext → List VisibilityCondition → Bool
unfolding matches_condition
matches_any_condition doc ctx conditions = any (matches_condition doc ctx) conditions

-- The call of `get_visibility_conditions` that both `can_view_document` and `is_in_search_scope` make.
abbrev pub conditions_of : Bool → UserContext → List VisibilityCondition
conditions_of for_list ctx =
    get_visibility_conditions ctx.user_kind ctx.group_ids for_list ctx.user_role
      ctx.managed_client_ids ctx.managed_internal_ids ctx.managed_group_ids

unfoldable pub can_view_document : Document → UserContext → Bool
unfolding get_visibility_conditions matches_any_condition
can_view_document doc ctx = matches_any_condition doc ctx (conditions_of true ctx)

unfoldable pub is_in_search_scope : Document → UserContext → Bool
unfolding get_visibility_conditions matches_any_condition
is_in_search_scope doc ctx = matches_any_condition doc ctx (conditions_of false ctx)

unfoldable pub check_document_access : Document → UserContext → Result (Unit {0})
unfolding can_view_document
check_document_access doc ctx =
    if can_view_document doc ctx then ok tt else err business_rule_violation

unfoldable pub check_ownership : Document → UserContext → Result (Unit {0})
unfolding can_be_deleted_by
check_ownership doc ctx =
    if can_be_deleted_by ctx.user_id ctx.user_role ctx.group_ids ctx.managed_client_ids
      ctx.managed_internal_ids ctx.managed_group_ids doc
    then ok tt
    else err business_rule_violation

-- The last block of `validate_document_visibility`, for `internal_group`.
abbrev validate_group : Option ℕ → UserContext → Result (Unit {0})
validate_group none ctx = err validation_error
validate_group (some g) ctx =
    if not (is_admin_role ctx.user_role)
      && not (contains g (set_union ctx.group_ids ctx.managed_group_ids))
    then err business_rule_violation
    else ok tt

unfoldable pub validate_document_visibility :
    DocumentVisibility → Option ℕ → UserContext → Result (Unit {0})
validate_document_visibility visibility group_id ctx =
    if not (is_allowed_visibility ctx.user_kind visibility)
    then err validation_error
    else if same_visibility visibility internal_public && not (is_admin_role ctx.user_role)
    then err business_rule_violation
    else if same_visibility visibility client_private
        && (not (is_client_kind ctx.user_kind)
            && not (is_admin_role ctx.user_role || is_curator_role ctx.user_role))
    then err business_rule_violation
    else if same_visibility visibility internal_group
    then validate_group group_id ctx
    else ok tt

unfoldable pub compute_owner_and_group : DocumentVisibility → Option ℕ → ℕ → Option ℕ × Option ℕ
compute_owner_and_group internal_public group_id user_id = (none, none)
compute_owner_and_group internal_group group_id user_id = (none, group_id)
compute_owner_and_group _ group_id user_id = (some user_id, none)
