-- ===== src/Access/Spec.antt =====
-- The access table: who sees which document, written out by role and visibility, beside
-- `get_visibility_conditions` and `matches_any_condition` of access_control.py.
use rag_assistant.Prelude.{
  Bool, true, false, not, ◌&&◌, ◌||◌, some, ok, ◌≡◌, ◌↔◌, arith, option_eq, contains_some,
  set_union, contains_some-set_union, contains_some-nonempty,
}
use rag_assistant.Identity.{
  UserRole, admin, curator, user, UserKind, internal, client, UserContext, is_client_kind,
  is_admin_role,
}
use rag_assistant.Documents.{
  Document, DocumentVisibility, internal_public, internal_group, internal_private, client_private,
  same_visibility,
}
use rag_assistant.Access.{
  matches_any_condition, conditions_of, get_visibility_conditions, can_view_document,
  is_in_search_scope, check_document_access,
}

abbrev owned : Document → UserContext → Bool
owned doc ctx = option_eq doc.owner_id (some ctx.user_id)

-- What a user of the given kind and role sees of a document of the given visibility; the first
-- argument says whether it is a listing (true) or a search (false).
abbrev permits_by : Bool → UserKind → UserRole → DocumentVisibility → Document → UserContext → Bool
permits_by for_list client role client_private doc ctx = owned doc ctx
permits_by for_list client role _ doc ctx = false
permits_by for_list internal role internal_public doc ctx = true
permits_by for_list internal admin internal_private doc ctx = true
permits_by for_list internal curator internal_private doc ctx =
    owned doc ctx || contains_some doc.owner_id ctx.managed_internal_ids
permits_by for_list internal user internal_private doc ctx = owned doc ctx
permits_by for_list internal admin internal_group doc ctx = true
permits_by for_list internal curator internal_group doc ctx =
    contains_some doc.group_id ctx.group_ids || contains_some doc.group_id ctx.managed_group_ids
permits_by for_list internal user internal_group doc ctx = contains_some doc.group_id ctx.group_ids
permits_by for_list internal admin client_private doc ctx = for_list
permits_by for_list internal curator client_private doc ctx =
    contains_some doc.owner_id ctx.managed_client_ids
permits_by for_list internal user client_private doc ctx = false

abbrev pub permits : Bool → Document → UserContext → Bool
permits for_list doc ctx = permits_by for_list ctx.user_kind ctx.user_role doc.visibility doc ctx

module _ (for_list : Bool) (doc : Document) (ctx : UserContext) where
  pub matches_any_condition-permits :
      matches_any_condition doc ctx (conditions_of for_list ctx) ≡ permits for_list doc ctx
  unfolding get_visibility_conditions matches_any_condition
  matches_any_condition-permits = ground (
    arith,
    contains_some-nonempty doc.group_id ctx.group_ids,
    contains_some-nonempty doc.owner_id ctx.managed_internal_ids,
    contains_some-nonempty doc.owner_id ctx.managed_client_ids,
    contains_some-nonempty doc.group_id (set_union ctx.group_ids ctx.managed_group_ids),
    contains_some-set_union doc.group_id ctx.group_ids ctx.managed_group_ids,
  )

-- Listing grants exactly what the access table permits in its listing form, and search exactly
-- what it permits in its search form, for every document and user context.
pub visibility-permits :
    (doc : Document) (ctx : UserContext)
    → (can_view_document doc ctx ≡ permits true doc ctx)
      × (is_in_search_scope doc ctx ≡ permits false doc ctx)
unfolding can_view_document is_in_search_scope
visibility-permits doc ctx =
    (matches_any_condition-permits true doc ctx, matches_any_condition-permits false doc ctx)

-- Whatever search returns can be listed, and the only documents that can be listed and are left
-- out of search are the client-private ones, for an internal admin.
pub can_view_document-search :
    (doc : Document) (ctx : UserContext)
    → can_view_document doc ctx ≡ (
        is_in_search_scope doc ctx
        || (not (is_client_kind ctx.user_kind)
            && (is_admin_role ctx.user_role && same_visibility doc.visibility client_private)))
can_view_document-search doc ctx =
    rw ((visibility-permits doc ctx).0, (visibility-permits doc ctx).1) (ground arith)

-- A user of kind client passes `check_document_access` on a
-- document exactly when it is client-private and their own, whatever the role and the id lists.
pub check_document_access-client :
    (doc : Document) (ctx : UserContext)
    → ctx.user_kind ≡ client
    → (check_document_access doc ctx ≡ ok tt)
      ↔ ((doc.visibility ≡ client_private) × (doc.owner_id ≡ some ctx.user_id))
unfolding check_document_access
check_document_access-client doc ctx k = rw (visibility-permits doc ctx).0 (ground arith)
