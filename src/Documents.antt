-- ===== src/Documents.antt =====
-- server/app/domain/knowledge/enums.py and document.py: the document aggregate, its lifecycle and
-- the rules for who may change it. A quality score is a float that the code only stores; it is kept
-- as its printed text. A time is the number that the clock read.
pub mod Lifecycle
pub mod Rights
mod Tests
use rag_assistant.Prelude.{
  ℕ, String, Bool, true, false, ◌&&◌, not, Option, some, List, Result, ok, err,
  business_rule_violation, option_eq, contains_some, set_union, if◌then◌else◌,
}
use rag_assistant.Identity.{UserRole, is_admin_role, is_curator_role}

pub data DocumentVisibility : Type 0 where
  internal_public internal_group internal_private client_private : DocumentVisibility

pub data DocumentStatus : Type 0 where
  pending processing indexing done failed : DocumentStatus

abbrev pub same_visibility : DocumentVisibility → DocumentVisibility → Bool
same_visibility internal_public internal_public = true
same_visibility internal_group internal_group = true
same_visibility internal_private internal_private = true
same_visibility client_private client_private = true
same_visibility _ _ = false

-- `LifecycleStatus.is_active` and `is_terminal` at the sets that `DocumentStatus` passes.
abbrev pub is_active : DocumentStatus → Bool
is_active pending = true
is_active processing = true
is_active indexing = true
is_active done = false
is_active failed = false

abbrev pub is_terminal : DocumentStatus → Bool
is_terminal done = true
is_terminal failed = true
is_terminal _ = false

pub record Document : Type 0 where
  pub id : Option ℕ
  pub filename : String
  pub visibility : DocumentVisibility
  pub owner_id : Option ℕ
  pub group_id : Option ℕ
  pub status : DocumentStatus
  pub error_message : Option String
  pub warning_message : Option String
  pub quality_score : Option String
  pub chunks : Option ℕ
  pub chars : Option ℕ
  pub indexed_at : Option ℕ

pub mark_done : ℕ → ℕ → ℕ → Option String → Option String → Document → Result Document
mark_done now n_chunks n_chars warning quality doc =
    if is_active doc.status
    then ok (record doc {
      status = done;
      chunks = some n_chunks;
      chars = some n_chars;
      indexed_at = some now;
      warning_message = warning;
      quality_score = quality;
    })
    else err business_rule_violation

pub mark_failed : String → Document → Result Document
mark_failed error doc =
    if is_active doc.status
    then ok (record doc { status = failed; error_message = some error })
    else err business_rule_violation

unfoldable pub in_curator_scope : List ℕ → List ℕ → List ℕ → List ℕ → Document → Bool
in_curator_scope user_groups managed_clients managed_internals managed_groups doc =
    let all_managed = set_union managed_clients managed_internals in
    let all_groups = set_union user_groups managed_groups in
    if contains_some doc.owner_id all_managed
    then true
    else same_visibility doc.visibility internal_group && contains_some doc.group_id all_groups

unfoldable pub can_be_deleted_by :
    ℕ → UserRole → List ℕ → List ℕ → List ℕ → List ℕ → Document → Bool
unfolding in_curator_scope
can_be_deleted_by user_id role user_groups managed_clients managed_internals managed_groups doc =
    if is_admin_role role
    then true
    else if option_eq doc.owner_id (some user_id)
    then true
    else if is_curator_role role
    then in_curator_scope user_groups managed_clients managed_internals managed_groups doc
    else same_visibility doc.visibility internal_group && contains_some doc.group_id user_groups

unfoldable pub can_edit_chunks : ℕ → UserRole → List ℕ → List ℕ → List ℕ → List ℕ → Document → Bool
unfolding in_curator_scope
can_edit_chunks user_id role user_groups managed_clients managed_internals managed_groups doc =
    if is_admin_role role
    then true
    else if option_eq doc.owner_id (some user_id)
    then true
    else if is_curator_role role
    then in_curator_scope user_groups managed_clients managed_internals managed_groups doc
    else not (same_visibility doc.visibility internal_group)
      && option_eq doc.owner_id (some user_id)
