-- ===== src/Acts/Scope.antt =====
-- server/app/domain/knowledge/acts/policy.py: the visibility scope that the editions of one act share.
use rag_assistant.Prelude.{ℕ, Bool, true, false, Option, ◌≡◌, ◌&&◌, arith, option_eq, if◌then◌else◌}
use rag_assistant.Documents.{
  Document, DocumentVisibility, internal_public, internal_group, internal_private, client_private,
  same_visibility,
}

-- The tests on `left.visibility`, once it is known to be that of the other document too.
abbrev scope_matches : DocumentVisibility → Document → Document → Bool
scope_matches internal_private left right = option_eq left.owner_id right.owner_id
scope_matches client_private left right = option_eq left.owner_id right.owner_id
scope_matches internal_group left right = option_eq left.group_id right.group_id
scope_matches internal_public left right = true

unfoldable pub same_document_scope : Document → Document → Bool
same_document_scope left right =
    if same_visibility left.visibility right.visibility
    then scope_matches left.visibility left right
    else false

-- The text `visibility`, or `visibility:id` where the id may be `None`.
pub data ScopeKey : Type 0 where
  bare : DocumentVisibility → ScopeKey
  keyed : DocumentVisibility → Option ℕ → ScopeKey

abbrev key_of : DocumentVisibility → Document → ScopeKey
key_of internal_group doc = keyed internal_group doc.group_id
key_of internal_private doc = keyed internal_private doc.owner_id
key_of client_private doc = keyed client_private doc.owner_id
key_of internal_public doc = bare internal_public

unfoldable pub document_scope_key : Document → ScopeKey
document_scope_key doc = key_of doc.visibility doc

abbrev pub same_key : ScopeKey → ScopeKey → Bool
same_key (bare v) (bare w) = same_visibility v w
same_key (keyed v i) (keyed w j) = same_visibility v w && option_eq i j
same_key _ _ = false

-- Two documents are in one scope exactly if their scope keys, under which acts are stored, agree.
pub same_document_scope-key :
    (left right : Document)
    → same_document_scope left right ≡ same_key (document_scope_key left) (document_scope_key right)
unfolding same_document_scope document_scope_key
same_document_scope-key left right = ground arith
