-- ===== src/Access/Tests.antt =====
-- Concrete users and documents, and the theorems of the access rules applied to them.
use rag_assistant.Prelude.{
  Bool, true, false, not, ◌&&◌, none, some, List, [], ◌∷◌, ok, ◌≡◌, refl, all, any,
}
use rag_assistant.Identity.{
  internal, client, curator, user, UserContext, IdentityQueries, build_context,
}
use rag_assistant.Documents.{Document, client_private, pending}
use rag_assistant.Access.{can_view_document, is_in_search_scope}
use rag_assistant.Access.Spec.{permits, visibility-permits}
use rag_assistant.Access.Upload.{
  UploadQueries, upload_document, upload_document-visible, create_manual_document,
  create_manual_document-curator, new_document,
}
use rag_assistant.Access.Qdrant.Language.{
  FilterLanguage, Payload, same_value, one_of, at_most, later_than, is_null,
}
use rag_assistant.Access.Qdrant.Payload.{Edition, payload_of}
use rag_assistant.Access.Qdrant.{build_qdrant_filter, with_temporal_filter}
use rag_assistant.Access.Qdrant.Refines.{build_qdrant_filter-search_scope}
use rag_assistant.Access.Qdrant.Temporal.{with_temporal_filter-in_force, in_force}

-- Curator 7 is in group 1, manages group 2 and client 9; user 8 is in group 1.
abbrev queries : IdentityQueries
queries = record {
  get_user_group_ids = λ u. 1 ∷ [];
  get_managed_client_ids = λ u. 9 ∷ [];
  get_managed_internal_ids = λ u. 8 ∷ [];
  get_managed_group_ids = λ u. 2 ∷ [];
}

abbrev uploads : UploadQueries
uploads = record { identity = queries; get_user_kind = λ u. some client; has_group = λ g. true }

abbrev curator_7 : UserContext
curator_7 = build_context queries 7 internal curator

abbrev client_9 : UserContext
client_9 = build_context queries 9 client user

abbrev contract : Document
contract = new_document "contract.pdf" client_private (some 9, none) pending none

abbrev edition : Edition
edition = record { domain = 0; starts = some 10; ends = some 20; current = true }

-- A filter language in which a condition is its own meaning.
holds-should_any :
    (c : Payload → Bool) (cs : List (Payload → Bool)) (p : Payload)
    → any (λ d. d p) (c ∷ cs) ≡ any (λ d. d p) (c ∷ cs)
holds-should_any c cs p = refl

abbrev meanings : FilterLanguage
meanings = record {
  Condition = Payload → Bool;
  match_value = λ k v p. same_value v (p k);
  match_any = λ k ids p. one_of (p k) ids;
  lte = λ k d p. at_most (p k) d;
  gt = λ k d p. later_than (p k) d;
  is_empty = λ k p. is_null (p k);
  must = λ cs p. all (λ c. c p) cs;
  should = λ cs p. any (λ c. c p) cs;
  must_not = λ cs p. all (λ c. not (c p)) cs;
  holds = λ c p. c p;
  holds-match_value = λ k v p. refl;
  holds-match_any = λ k ids p. refl;
  holds-lte = λ k d p. refl;
  holds-gt = λ k d p. refl;
  holds-is_empty = λ k p. refl;
  holds-must = λ cs p. refl;
  holds-should = holds-should_any;
  holds-must_not = λ cs p. refl;
}

curator_sees_contract : can_view_document contract curator_7 ≡ true
unfolding can_view_document build_context
curator_sees_contract = refl

visibility-permits_example :
    (can_view_document contract curator_7 ≡ permits true contract curator_7)
    × (is_in_search_scope contract curator_7 ≡ permits false contract curator_7)
visibility-permits_example = visibility-permits contract curator_7

upload_document-visible_example : can_view_document contract curator_7 ≡ true
unfolding upload_document
upload_document-visible_example =
    upload_document-visible uploads "contract.pdf" client_private none (some 9) 7 internal curator
      contract refl

create_manual_document-curator_example :
    (doc : Document) × (create_manual_document queries "note" client_private 7 internal curator none
      ≡ ok doc)
    × (doc.owner_id ≡ some 7)
    × (can_view_document doc curator_7 ≡ false)
create_manual_document-curator_example = create_manual_document-curator queries "note" 7 none

build_qdrant_filter-search_scope_example :
    meanings.holds (build_qdrant_filter meanings curator_7) (payload_of contract edition)
    ≡ is_in_search_scope contract curator_7
build_qdrant_filter-search_scope_example =
    build_qdrant_filter-search_scope meanings contract edition curator_7

with_temporal_filter-in_force_example :
    meanings.holds
      (with_temporal_filter meanings (some (build_qdrant_filter meanings curator_7)) none 20)
      (payload_of contract edition)
    ≡ (meanings.holds (build_qdrant_filter meanings curator_7) (payload_of contract edition)
        && in_force edition 20)
with_temporal_filter-in_force_example =
    with_temporal_filter-in_force meanings contract edition (build_qdrant_filter meanings curator_7)
      none 20
