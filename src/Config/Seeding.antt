-- ===== src/Config/Seeding.antt =====
-- server/app/infrastructure/initialization.py: the seeds of the configuration. The default of a
-- parameter, as the text that is stored, is what the settings of the deployment say: it is an argument.
use rag_assistant.Prelude.{
  Bool, List, Option, Result, [], any, if◌then◌else◌, is_none, map, none, not, ok, some, ◌&&◌,
  ◌>>=◌, ◌∷◌,
}
use rag_assistant.Config.Text.{Text, text_eq}
use rag_assistant.Config.Parameter.{Numbers, ConfigParameter, category_text}
use rag_assistant.Config.Params.{DynamicParam, dynamic_params}
use rag_assistant.Config.Repository.{is_row, upsert, update_category, delete_by_key_and_domain}

module _ {F : Type 0} where
  abbrev pub default_row : (DynamicParam F → Text) → DynamicParam F → ConfigParameter F
  default_row default_text declaration = record {
    key = declaration.key;
    value = default_text declaration;
    value_type = declaration.type;
    category = category_text declaration.category;
    min_value = declaration.min_val;
    max_value = declaration.max_val;
    allowed_values = declaration.allowed;
    domain_key = declaration.domain_key;
  }

  -- `{row.key for row in defaults if row.domain_key is not None}`, as a test
  abbrev pub in_domain_keys : List (ConfigParameter F) → Text → Bool
  in_domain_keys defaults key =
      any (λ (d : ConfigParameter F). not (is_none d.domain_key) && text_eq key d.key) defaults

  -- A global row of a key that is now declared of domains.
  abbrev pub is_outdated : List (ConfigParameter F) → ConfigParameter F → Bool
  is_outdated defaults row = is_none row.domain_key && in_domain_keys defaults row.key

  unfoldable pub delete_outdated :
      (defaults existing rows : List (ConfigParameter F)) → Result (List (ConfigParameter F))
  delete_outdated defaults [] rows = ok rows
  delete_outdated defaults (row ∷ existing) rows =
      (if is_outdated defaults row then delete_by_key_and_domain row.key none rows else ok rows)
      >>= delete_outdated defaults existing

  -- `pairs.get((key, domain_key))` of the dictionary of the rows: the last row of a pair
  abbrev pub find_row : Text → Option Text → List (ConfigParameter F) → Option (ConfigParameter F)
  find_row key domain_key [] = none
  find_row key domain_key (r ∷ rows) =
      let rest = find_row key domain_key rows in
      if is_none rest && is_row key domain_key r then some r else rest

  unfoldable pub seed_row :
      ConfigParameter F
      → Option (ConfigParameter F)
      → List (ConfigParameter F)
      → Result (List (ConfigParameter F))
  seed_row entity none rows = upsert entity rows
  seed_row entity (some previous) rows =
      if text_eq previous.category entity.category
      then ok rows
      else update_category entity.key entity.category entity.domain_key rows

  unfoldable pub seed_rows :
      (existing defaults rows : List (ConfigParameter F)) → Result (List (ConfigParameter F))
  seed_rows existing [] rows = ok rows
  seed_rows existing (entity ∷ defaults) rows =
      seed_row entity (find_row entity.key entity.domain_key existing) rows
      >>= seed_rows existing defaults

  unfoldable pub seed_defaults :
      (defaults existing : List (ConfigParameter F)) → Result (List (ConfigParameter F))
  seed_defaults defaults existing =
      delete_outdated defaults existing existing >>= seed_rows existing defaults

module _ {F : Type 0} ⦃numbers : Numbers F⦄ where
  unfoldable pub build_defaults : (DynamicParam F → Text) → List (ConfigParameter F)
  build_defaults default_text = map (default_row default_text) dynamic_params

  unfoldable pub seed_config_defaults :
      (DynamicParam F → Text) → List (ConfigParameter F) → Result (List (ConfigParameter F))
  seed_config_defaults default_text existing = seed_defaults (build_defaults default_text) existing
