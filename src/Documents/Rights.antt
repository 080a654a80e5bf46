-- ===== src/Documents/Rights.antt =====
-- The rights of server/app/domain/knowledge/document.py: who may delete a document and who may
-- edit its chunks.
use rag_assistant.Prelude.{ℕ, ◌&&◌, ◌||◌, List, ◌≡◌, arith, contains_some, not}
use rag_assistant.Identity.{UserRole, is_curator_role, is_admin_role}
use rag_assistant.Documents.{
  Document, internal_group, same_visibility, can_be_deleted_by, can_edit_chunks,
}

module _ (user_id : ℕ) (role : UserRole) (groups clients internals managed_groups : List ℕ)
    (doc : Document) where
  -- Whoever may edit the chunks of a document may delete it; the right to delete is wider only for
  -- a plain user on a document of a group that the user is in.
  pub can_be_deleted_by-can_edit_chunks :
      can_be_deleted_by user_id role groups clients internals managed_groups doc ≡ (
        can_edit_chunks user_id role groups clients internals managed_groups doc
        || (not (is_admin_role role || is_curator_role role)
            && (same_visibility doc.visibility internal_group
                && contains_some doc.group_id groups)))
  unfolding can_be_deleted_by can_edit_chunks
  can_be_deleted_by-can_edit_chunks = ground arith
