-- ===== src/Config/Service.antt =====
-- server/app/application/admin/config_service.py: the operations of the administrators on the
-- configuration. `ProviderConfigurationPort` is an interface, whose version of a snapshot of the
-- rows is `status_for(rows).saved_version`. An update reads the table twice, first to prepare and
-- then under the lock of the configuration: the two readings are arguments.
use rag_assistant.Prelude.{
  Bool, Result, [], any, entity_not_found, err, false, if◌then◌else◌, is_none, none, not, ok, some,
  true, validation_error, ℕ, ◌&&◌, ◌++◌, ◌>>=◌, ◌>>◌, ◌||◌, ◌∷◌, List, Option, map,
}
use rag_assistant.Config.Text.{Text, codes, lower, member, option_text_eq, ends_with, has_part}
use rag_assistant.Config.Keys.{secret_setting_keys, static_setting_keys, metadata_setting_keys}
use rag_assistant.Config.Parameter.{
  Numbers, ConfigParameter, ConfigParameterChanged, validate, normalize, category_text,
}
use rag_assistant.Config.Params.{
  DynamicParam, dynamic_params, in_dynamic_fields_map, find_declaration,
}
use rag_assistant.Config.Repository.{is_row, get_by_key_and_domain, update_value}

pub record ProviderConfiguration (F : Type 0) : Type 0 where
  pub saved_version : List (ConfigParameter F) → Option Text
  pub validate_snapshot_change :
      List (ConfigParameter F) → Text → Text → Option Text → Result (Unit {0})

-- What an update returns, writes and publishes.
pub record Updated (F : Type 0) : Type 0 where
  pub param : ConfigParameter F
  pub rows : List (ConfigParameter F)
  pub event : ConfigParameterChanged

unfoldable pub corpus_keys : List Text
corpus_keys = map codes ("qdrant_url" ∷ "collection_name" ∷ [])

unfoldable pub validate_corpus_update_key : Text → Result (Unit {0})
unfolding corpus_keys
validate_corpus_update_key key = if member key corpus_keys then err validation_error else ok tt

unfoldable pub is_hidden : Text → Bool
unfolding secret_setting_keys static_setting_keys
is_hidden key = member (lower key) (secret_setting_keys ++ static_setting_keys)

unfoldable pub is_deployed : Text → Bool
unfolding secret_setting_keys static_setting_keys metadata_setting_keys
is_deployed key =
    member (lower key) (secret_setting_keys ++ static_setting_keys ++ metadata_setting_keys)

unfoldable provider_keys : List Text
provider_keys =
    map codes
      ("ml_provider" ∷ "llm_provider" ∷ "deepinfra_embed_model" ∷ "deepinfra_rerank_model" ∷ [])

unfoldable endpoint_keys : List Text
endpoint_keys = map codes ("tei_embed_url" ∷ "tei_rerank_url" ∷ [])

-- The keys that are not changed without the configuration of the providers.
unfoldable pub needs_provider : Text → Bool
unfolding provider_keys endpoint_keys
needs_provider key =
    member key provider_keys
    || ends_with key (codes "_base_url")
    || member key endpoint_keys
    || has_part key (codes "_http_")

-- `domain_key or param.domain_key`
abbrev or_domain : Option Text → Option Text → Option Text
or_domain none other = other
or_domain (some []) other = other
or_domain (some (c ∷ s)) other = some (c ∷ s)

module _ {F : Type 0} (numbers : Numbers F) where
  abbrev pub is_declared : Text → Bool
  is_declared key = in_dynamic_fields_map (dynamic_params ⦃numbers = numbers⦄) key

  unfoldable pub validate_update_key : Text → Option Text → Result (Unit {0})
  unfolding validate_corpus_update_key
  validate_update_key key domain_key =
      validate_corpus_update_key key
      >> (if is_deployed key
          then err validation_error
          else if is_none domain_key && not (is_declared key)
          then err validation_error
          else ok tt)

module _ {F : Type 0} ⦃numbers : Numbers F⦄ where
  -- `replace(param, ...)` by what the declaration says.
  abbrev pub constrain : DynamicParam F → ConfigParameter F → ConfigParameter F
  constrain declaration param = record param {
    min_value = declaration.min_val;
    max_value = declaration.max_val;
    allowed_values = declaration.allowed;
  }

  abbrev pub redeclare : Option (DynamicParam F) → ConfigParameter F → ConfigParameter F
  redeclare none row = row
  redeclare (some declaration) row = record (constrain declaration row) {
    category = category_text declaration.category;
  }

  abbrev pub validate_declared :
      Option (DynamicParam F) → ConfigParameter F → Text → Result (Unit {0})
  validate_declared none param value = ok tt
  validate_declared (some declaration) param value = validate (constrain declaration param) value

  abbrev pub shown : ConfigParameter F → Bool
  shown row =
      if is_hidden row.key
      then false
      else if is_none row.domain_key && not (is_declared numbers row.key)
      then false
      else true

  unfoldable pub list_parameters : List (ConfigParameter F) → List (ConfigParameter F)
  list_parameters [] = []
  list_parameters (row ∷ rows) =
      let rest = list_parameters rows in
      if shown row
      then redeclare (find_declaration row.key row.domain_key dynamic_params) row ∷ rest
      else rest

  unfoldable pub prepare_update :
      Option (ProviderConfiguration F)
      → Text
      → Text
      → Option Text
      → List (ConfigParameter F)
      → Result (Option Text)
  prepare_update none key raw domain_key rows = ok none
  prepare_update (some p) key raw domain_key rows =
      if any (is_row key domain_key) rows
      then p.validate_snapshot_change rows key raw domain_key >> ok (p.saved_version rows)
      else err entity_not_found

  unfoldable pub normalize_parameter :
      Option (ProviderConfiguration F) → ConfigParameter F → Text → Text → Option Text → Result Text
  normalize_parameter provider param raw key domain_key =
      validate param (normalize param raw)
      >> (validate_declared (find_declaration key domain_key dynamic_params) param
            (normalize param raw)
          >> (if is_none provider && needs_provider key
              then err validation_error
              else ok (normalize param raw)))

  abbrev pub check_version :
      Option (ProviderConfiguration F) → Option Text → List (ConfigParameter F) → Result (Unit {0})
  check_version none version latest = ok tt
  check_version (some p) version latest =
      if option_text_eq (p.saved_version latest) version then ok tt else err validation_error

  abbrev pub changed :
      Text → Option ℕ → Option Text → ConfigParameter F → Text → ConfigParameterChanged
  changed key changed_by domain_key param normalized = record {
    key = key;
    old_value = some param.value;
    new_value = normalized;
    value_type = param.value_type;
    changed_by = changed_by;
    domain_key = or_domain domain_key param.domain_key;
  }

  abbrev pub write_update :
      Option (ProviderConfiguration F)
      → Text
      → Text
      → Option ℕ
      → Option Text
      → List (ConfigParameter F)
      → Option (ConfigParameter F)
      → Result (Updated F)
  write_update provider key raw changed_by domain_key latest none = err entity_not_found
  write_update provider key raw changed_by domain_key latest (some param) =
      normalize_parameter provider param raw key domain_key >>= (λ normalized.
        update_value key normalized domain_key latest >>= (λ rows. ok (record {
          param = record param { value = normalized };
          rows = rows;
          event = changed key changed_by domain_key param normalized;
        })))

  unfoldable pub update_parameter :
      Option (ProviderConfiguration F)
      → Text
      → Text
      → Option ℕ
      → Option Text
      → (before latest : List (ConfigParameter F)) → Result (Updated F)
  unfolding validate_update_key prepare_update get_by_key_and_domain normalize_parameter
      update_value
  update_parameter provider key raw changed_by domain_key before latest =
      validate_update_key numbers key domain_key
      >> (prepare_update provider key raw domain_key before >>= (λ version.
          check_version provider version latest
          >> (get_by_key_and_domain key domain_key latest
              >>= (λ found. write_update provider key raw changed_by domain_key latest found))))
