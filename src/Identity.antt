-- ===== src/Identity.antt =====
-- server/app/domain/identity: roles, kinds and the snapshot of the authenticated user, and
-- server/app/application/identity/user_context_factory.py, which builds that snapshot.
-- Ids are database keys, which the program only compares.
use rag_assistant.Prelude.{ℕ, Bool, true, false, List, [], if◌then◌else◌}

pub data UserRole : Type 0 where
  admin curator user : UserRole

pub data UserKind : Type 0 where
  internal client : UserKind

pub record UserContext : Type 0 where
  pub user_id : ℕ
  pub user_kind : UserKind
  pub user_role : UserRole
  pub group_ids : List ℕ
  pub managed_client_ids : List ℕ
  pub managed_internal_ids : List ℕ
  pub managed_group_ids : List ℕ

abbrev pub is_client_kind : UserKind → Bool
is_client_kind client = true
is_client_kind internal = false

abbrev pub is_admin_role : UserRole → Bool
is_admin_role admin = true
is_admin_role _ = false

abbrev pub is_curator_role : UserRole → Bool
is_curator_role curator = true
is_curator_role _ = false

-- The three properties of `UserContext`.
abbrev pub is_client : UserContext → Bool
is_client ctx = is_client_kind ctx.user_kind

abbrev pub is_admin : UserContext → Bool
is_admin ctx = is_admin_role ctx.user_role

abbrev pub is_curator : UserContext → Bool
is_curator ctx = is_curator_role ctx.user_role

-- The queries on the unit of work that the factory makes, by user id: answers of the database.
pub record IdentityQueries : Type 0 where
  pub get_user_group_ids : ℕ → List ℕ
  pub get_managed_client_ids : ℕ → List ℕ
  pub get_managed_internal_ids : ℕ → List ℕ
  pub get_managed_group_ids : ℕ → List ℕ

unfoldable pub build_context : IdentityQueries → ℕ → UserKind → UserRole → UserContext
build_context uow user_id kind role = record {
  user_id = user_id;
  user_kind = kind;
  user_role = role;
  group_ids = if is_client_kind kind then [] else uow.get_user_group_ids user_id;
  managed_client_ids = if is_curator_role role then uow.get_managed_client_ids user_id else [];
  managed_internal_ids = if is_curator_role role then uow.get_managed_internal_ids user_id else [];
  managed_group_ids = if is_curator_role role then uow.get_managed_group_ids user_id else [];
}
