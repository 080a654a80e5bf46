-- ===== src/Access/Upload.antt =====
-- server/app/application/documents/upload.py (who owns an upload) and manual.py.
use rag_assistant.Prelude.{
  ℕ, Bool, true, false, not, ◌&&◌, Option, none, some, List, Result, ok, err, ◌>>=◌, ◌>>◌, ◌≡◌,
  validation_error, business_rule_violation, entity_not_found, arith, refl, contains,
  contains-set_union, if◌then◌else◌, String,
}
use rag_assistant.Identity.{
  UserRole, curator, UserKind, internal, UserContext, IdentityQueries, build_context,
  is_client_kind, is_curator_role,
}
use rag_assistant.Documents.{
  Document, DocumentVisibility, internal_public, internal_group, internal_private, client_private,
  same_visibility, pending, DocumentStatus, done,
}
use rag_assistant.Access.{validate_document_visibility, compute_owner_and_group, can_view_document}
use rag_assistant.Access.Spec.{visibility-permits, permits}

-- The lookups of the unit of work: the kind of a user, and whether a group is there.
pub record UploadQueries : Type 0 where
  pub identity : IdentityQueries
  pub get_user_kind : ℕ → Option UserKind
  pub has_group : ℕ → Bool

abbrev validate_group_exists : UploadQueries → Bool → Option ℕ → Result (Unit {0})
validate_group_exists uow false g = ok tt
validate_group_exists uow true none = err validation_error
validate_group_exists uow true (some g) = if uow.has_group g then ok tt else err entity_not_found

unfoldable pub validate_scope :
    UploadQueries → DocumentVisibility → Option ℕ → UserContext → Result (Unit {0})
unfolding validate_document_visibility
validate_scope uow vis group_id ctx = do
  validate_document_visibility vis group_id ctx
  validate_group_exists uow (same_visibility vis internal_group) group_id

-- `user is not None and user.kind == UserKind.CLIENT`
abbrev is_client_user : Option UserKind → Bool
is_client_user none = false
is_client_user (some kind) = is_client_kind kind

-- `ids is not None and client_id in ids`
abbrev in_managed : ℕ → Option (List ℕ) → Bool
in_managed id none = false
in_managed id (some ids) = contains id ids

-- The branch of `resolve_effective_owner_id` in which staff upload for a client.
abbrev resolve_client : UploadQueries → Option ℕ → UserRole → Option (List ℕ) → Result ℕ
resolve_client uow none role managed = err validation_error
resolve_client uow (some client_id) role managed =
    if not (is_client_user (uow.get_user_kind client_id))
    then err validation_error
    else if is_curator_role role && not (in_managed client_id managed)
    then err business_rule_violation
    else ok client_id

unfoldable pub resolve_effective_owner_id :
    UploadQueries
    → DocumentVisibility
    → ℕ
    → UserKind
    → Option ℕ
    → UserRole
    → Option (List ℕ)
    → Result ℕ
resolve_effective_owner_id uow vis user_id kind client_id role managed =
    if not (same_visibility vis client_private)
    then ok user_id
    else if is_client_kind kind
    then ok user_id
    else resolve_client uow client_id role managed

-- `Document(filename=…, visibility=…, owner_id=…, group_id=…, status=…)`, the rest at its default.
abbrev pub new_document :
    String → DocumentVisibility → Option ℕ × Option ℕ → DocumentStatus → Option ℕ → Document
new_document filename vis (owner_id, group_id) status count = record {
  id = none;
  filename = filename;
  visibility = vis;
  owner_id = owner_id;
  group_id = group_id;
  status = status;
  error_message = none;
  warning_message = none;
  quality_score = none;
  chunks = count;
  chars = count;
  indexed_at = none;
}

-- The document that `DocumentUploadCommand.execute` builds before it looks for a slot to put it in.
unfoldable pub upload_document :
    UploadQueries
    → String
    → DocumentVisibility
    → Option ℕ
    → Option ℕ
    → ℕ
    → UserKind
    → UserRole
    → Result Document
unfolding validate_scope resolve_effective_owner_id compute_owner_and_group build_context
upload_document uow filename vis group_id client_id user_id kind role =
    let ctx = build_context uow.identity user_id kind role in
    do
      validate_scope uow vis group_id ctx
      owner ←
          resolve_effective_owner_id uow vis user_id kind client_id role
            (if is_curator_role role then some ctx.managed_client_ids else none)
      ok (new_document filename vis (compute_owner_and_group vis group_id owner) pending none)

-- `ManualDocumentService.create_manual_document`, up to the save.
unfoldable pub create_manual_document :
    IdentityQueries
    → String
    → DocumentVisibility
    → ℕ
    → UserKind
    → UserRole
    → Option ℕ
    → Result Document
unfolding validate_document_visibility compute_owner_and_group build_context
create_manual_document uow title vis user_id kind role group_id =
    let ctx = build_context uow user_id kind role in
    do
      validate_document_visibility vis group_id ctx
      ok (new_document title vis (compute_owner_and_group vis group_id user_id) done (some 0))

-- The uploader's sight of the result, by visibility.
upload_document-permits :
    (uow : UploadQueries) (filename : String) (vis : DocumentVisibility)
    (group_id client_id : Option ℕ) (user_id : ℕ) (kind : UserKind) (role : UserRole)
    (doc : Document)
    → upload_document uow filename vis group_id client_id user_id kind role ≡ ok doc
    → permits true doc (build_context uow.identity user_id kind role) ≡ true
unfolding upload_document
upload_document-permits uow filename internal_public g c u kind role doc h = ground arith
upload_document-permits uow filename internal_group none c u kind role doc h = ground arith
upload_document-permits uow filename internal_group (some g) c u kind role doc h =
    let ctx = build_context uow.identity u kind role in
    ground (arith, contains-set_union g ctx.group_ids ctx.managed_group_ids)
upload_document-permits uow filename internal_private g c u kind role doc h = ground arith
upload_document-permits uow filename client_private g none u kind role doc h = ground arith
upload_document-permits uow filename client_private g (some c) u kind role doc h = ground arith

-- Whoever may upload a document sees it afterwards in listings, whatever the visibility, the kind
-- and the role, also where staff upload on behalf of a client.
pub upload_document-visible :
    (uow : UploadQueries) (filename : String) (vis : DocumentVisibility)
    (group_id client_id : Option ℕ) (user_id : ℕ) (kind : UserKind) (role : UserRole)
    (doc : Document)
    → upload_document uow filename vis group_id client_id user_id kind role ≡ ok doc
    → can_view_document doc (build_context uow.identity user_id kind role) ≡ true
upload_document-visible uow filename vis group_id client_id user_id kind role doc h =
    rw (visibility-permits doc (build_context uow.identity user_id kind role)).0
      (upload_document-permits uow filename vis group_id client_id user_id kind role doc h)

-- A curator who creates a client-private document by hand is never refused, owns it, and sees it
-- afterwards exactly if the curator's own id is among the clients assigned to the curator.
pub create_manual_document-curator :
    (uow : IdentityQueries) (title : String) (user_id : ℕ) (group_id : Option ℕ)
    → (doc : Document) × (create_manual_document uow title client_private user_id internal curator
          group_id
        ≡ ok doc)
      × (doc.owner_id ≡ some user_id)
      × (can_view_document doc (build_context uow user_id internal curator)
          ≡ contains user_id (uow.get_managed_client_ids user_id))
unfolding create_manual_document
create_manual_document-curator uow title user_id group_id =
    let doc = new_document title client_private (some user_id, none) done (some 0) in
    (doc, refl, refl, (visibility-permits doc (build_context uow user_id internal curator)).0)
