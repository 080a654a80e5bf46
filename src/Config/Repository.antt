-- ===== src/Config/Repository.antt =====
-- server/app/infrastructure/repositories/config/sqlalchemy_config_parameter_repository.py: the table of
-- the parameters as its rows. `scalar_one_or_none` raises where a statement finds several rows, and
-- the unique index on the key and the domain refuses a second row of a pair. The order of `get_all`
-- is used for nothing but showing.
use rag_assistant.Prelude.{
  Bool, List, Option, Result, [], any, err, if◌then◌else◌, integrity_error, none, not, ok,
  multiple_results_found, select, some, ◌&&◌, ◌++◌, ◌>>=◌, ◌∷◌,
}
use rag_assistant.Config.Text.{Text, text_eq, option_text_eq}
use rag_assistant.Config.Parameter.{ConfigParameter}

-- `(row.key, row.domain_key) == (key, domain_key)`
abbrev pub is_row : {F : Type 0} → Text → Option Text → ConfigParameter F → Bool
is_row key domain_key row = text_eq row.key key && option_text_eq row.domain_key domain_key

abbrev pub with_value : {F : Type 0} → Text → ConfigParameter F → ConfigParameter F
with_value value row = record row { value = value }

abbrev pub set_value :
    {F : Type 0} → Text → Text → Option Text → List (ConfigParameter F) → List (ConfigParameter F)
set_value key value domain_key [] = []
set_value key value domain_key (r ∷ rows) =
    (if is_row key domain_key r then with_value value r else r)
    ∷ set_value key value domain_key rows

abbrev pub set_category :
    {F : Type 0} → Text → Text → Option Text → List (ConfigParameter F) → List (ConfigParameter F)
set_category key category domain_key [] = []
set_category key category domain_key (r ∷ rows) =
    (if is_row key domain_key r then record r { category = category } else r)
    ∷ set_category key category domain_key rows

abbrev pub scalar_one_or_none {ℓ} : {A : Type ℓ} → List A → Result (Option A)
scalar_one_or_none [] = ok none
scalar_one_or_none (r ∷ []) = ok (some r)
scalar_one_or_none (r ∷ s ∷ rows) = err multiple_results_found

unfoldable pub get_by_key_and_domain :
    {F : Type 0}
    → Text
    → Option Text
    → List (ConfigParameter F)
    → Result (Option (ConfigParameter F))
get_by_key_and_domain key domain_key rows = scalar_one_or_none (select (is_row key domain_key) rows)

abbrev when_found {ℓ} : {A : Type ℓ} {B : Type ℓ} → Option A → B → B → B
when_found none found missing = missing
when_found (some a) found missing = found

unfoldable pub update_value :
    {F : Type 0}
    → Text
    → Text
    → Option Text
    → List (ConfigParameter F)
    → Result (List (ConfigParameter F))
unfolding get_by_key_and_domain
update_value key value domain_key rows =
    get_by_key_and_domain key domain_key rows
    >>= (λ orm. ok (when_found orm (set_value key value domain_key rows) rows))

-- A category that is the same is written again here, which changes nothing.
unfoldable pub update_category :
    {F : Type 0}
    → Text
    → Text
    → Option Text
    → List (ConfigParameter F)
    → Result (List (ConfigParameter F))
unfolding get_by_key_and_domain
update_category key category domain_key rows =
    get_by_key_and_domain key domain_key rows
    >>= (λ orm. ok (when_found orm (set_category key category domain_key rows) rows))

unfoldable pub delete_by_key_and_domain :
    {F : Type 0} → Text → Option Text → List (ConfigParameter F) → Result (List (ConfigParameter F))
unfolding get_by_key_and_domain
delete_by_key_and_domain {F = F} key domain_key rows =
    get_by_key_and_domain key domain_key rows >>= (λ orm. ok (
      when_found orm (select (λ (r : ConfigParameter F). not (is_row key domain_key r)) rows) rows))

-- `{"values": allowed} if allowed else None`
abbrev pub stored_values : Option (List Text) → Option (List Text)
stored_values none = none
stored_values (some []) = none
stored_values (some (t ∷ texts)) = some (t ∷ texts)

unfoldable pub save :
    {F : Type 0} → ConfigParameter F → List (ConfigParameter F) → Result (List (ConfigParameter F))
save entity rows =
    if any (is_row entity.key entity.domain_key) rows
    then err integrity_error
    else ok (rows ++ record entity { allowed_values = stored_values entity.allowed_values } ∷ [])

unfoldable pub upsert :
    {F : Type 0} → ConfigParameter F → List (ConfigParameter F) → Result (List (ConfigParameter F))
unfolding get_by_key_and_domain update_value save
upsert entity rows = get_by_key_and_domain entity.key entity.domain_key rows >>= (λ existing.
    when_found existing (update_value entity.key entity.value entity.domain_key rows)
      (save entity rows))
