-- ===== src/Config/Tests.antt =====
-- The theorems on the configuration at concrete parameters, with whole and decimal numbers that are
-- read from ASCII digits.
use rag_assistant.Prelude.{
  All, Bool, List, Option, [], arith, err, false, if◌then◌else◌, leb, length, ltb, none, ok, refl,
  some, true, validation_error, ℕ, ◌&&◌, ◌*◌, ◌+◌, ◌-◌, ◌^◌, ◌↔◌, ◌∷◌, ◌≡◌,
}
use rag_assistant.Config.Text.{Text, codes, member, lower, strip, is_space, ends_with, has_part}
use rag_assistant.Config.Parameter.{
  ℤ, pos, negsuc, Number, whole, floating, Numbers, ConfigParameter, int_type, str_type, normalize,
  validate, validate_string,
}
use rag_assistant.Config.Params.{dynamic_params, DynamicParam}
use rag_assistant.Config.Keys.{llm_providers}
use rag_assistant.Config.Repository.{get_by_key_and_domain, update_value}
use rag_assistant.Config.Service.{
  ProviderConfiguration, Updated, update_parameter, validate_update_key, is_deployed, corpus_keys,
  is_declared, prepare_update, normalize_parameter, validate_corpus_update_key,
}
use rag_assistant.Config.Seeding.{build_defaults, seed_config_defaults}
use rag_assistant.Config.Typed.{IsTyped}
use rag_assistant.Config.Updates.{
  update_parameter-IsTyped, update_parameter-get_by_key_and_domain, update_parameter-saved_version,
}
use rag_assistant.Config.Managed.{validate_update_key-is_declared}
use rag_assistant.Config.Writes.{IsUnique}
use rag_assistant.Config.Seeded.{seed_config_defaults_lem}
use rag_assistant.Config.Kept.{HasRow, Keeps}

abbrev digits : ℕ → Text → Option ℤ
digits n [] = some (pos n)
digits n (c ∷ s) =
    let rest = digits (n * 10 + (c - b'0')) s in if leb b'0' c && leb c b'9' then rest else none

abbrev read_digits : Text → Option ℤ
read_digits [] = none
read_digits (c ∷ s) = digits 0 (c ∷ s)

-- in units of 10 ** -9
abbrev units : Number ℕ → ℤ
units (whole (pos n)) = pos (n * 10 ^ 9)
units (whole (negsuc n)) = negsuc n
units (floating n) = pos n

abbrev less : ℤ → ℤ → Bool
less (pos a) (pos b) = ltb a b
less (pos a) (negsuc b) = false
less (negsuc a) (pos b) = true
less (negsuc a) (negsuc b) = ltb b a

instance abbrev digit_numbers : Numbers ℕ
digit_numbers = record {
  read_int = read_digits;
  read_float = λ s. none;
  decimal = λ m e. m * 10 ^ (9 - e);
  below = λ a b. less (units a) (units b);
}

abbrev history_window : Text
history_window = codes "history_window"

abbrev bound : ℕ → Option (Number ℕ)
bound n = some (whole (pos n))

abbrev window_row : ConfigParameter ℕ
window_row = record {
  key = history_window;
  value = codes "10";
  value_type = int_type;
  category = codes "rag";
  min_value = bound 0;
  max_value = bound 50;
  allowed_values = none;
  domain_key = none;
}

abbrev provider_row : ConfigParameter ℕ
provider_row = record {
  key = codes "llm_provider";
  value = codes "ollama";
  value_type = str_type;
  category = codes "llm";
  min_value = none;
  max_value = none;
  allowed_values = some llm_providers;
  domain_key = none;
}

abbrev table : List (ConfigParameter ℕ)
table = window_row ∷ provider_row ∷ []

abbrev accepting : ProviderConfiguration ℕ
accepting = record {
  saved_version = λ rows. some (length rows ∷ []);
  validate_snapshot_change = λ rows key raw domain. ok tt;
}

abbrev updated : Updated ℕ
updated = record {
  param = record window_row { value = codes "12" };
  rows = record window_row { value = codes "12" } ∷ provider_row ∷ [];
  event = record {
    key = history_window;
    old_value = some (codes "10");
    new_value = codes "12";
    value_type = int_type;
    changed_by = some 7;
    domain_key = none;
  };
}

updates :
    update_parameter (some accepting) history_window (codes "12") (some 7) none table table
    ≡ ok updated
unfolding update_parameter validate_update_key is_deployed lower dynamic_params
    validate_corpus_update_key prepare_update get_by_key_and_domain normalize_parameter normalize
    validate update_value
updates = refl

-- Text, a number out of bounds and a key of the deployment are refused.
refusals :
    (update_parameter (some accepting) history_window (codes "x") (some 7) none table table
      ≡ err validation_error)
    × (update_parameter (some accepting) history_window (codes "51") (some 7) none table table
        ≡ err validation_error)
    × (update_parameter (some accepting) (codes "DB_host") (codes "x") (some 7) none table table
        ≡ err validation_error)
unfolding update_parameter validate_update_key is_deployed lower dynamic_params
    validate_corpus_update_key prepare_update get_by_key_and_domain normalize_parameter normalize
    validate update_value
refusals = (refl, refl, refl)

table-IsTyped : All (λ row. IsTyped row row.value) table
unfolding dynamic_params normalize strip is_space
table-IsTyped = (((pos 10, refl, (refl, refl)), (pos 10, refl, (refl, refl))), ((refl, refl), tt))

update_parameter-IsTyped_example : All (λ row. IsTyped row row.value) updated.rows
update_parameter-IsTyped_example =
    update_parameter-IsTyped (some accepting) history_window (codes "12") (some 7) none table table
      updated table-IsTyped updates

update_parameter-get_by_key_and_domain_example :
    get_by_key_and_domain history_window none updated.rows ≡ ok (some updated.param)
unfolding get_by_key_and_domain
update_parameter-get_by_key_and_domain_example =
    (update_parameter-get_by_key_and_domain (some accepting) history_window (codes "12") (some 7)
      none table table updated history_window none updates).0

update_parameter-saved_version_example : is_deployed history_window ≡ false
update_parameter-saved_version_example =
    (update_parameter-saved_version accepting history_window (codes "12") (some 7) none table table
      updated updates).2

validate_update_key-is_declared_example :
    (validate_update_key digit_numbers (codes "admin_email") none ≡ ok tt) ↔ (
      (is_declared digit_numbers (codes "admin_email") ≡ true)
      × (member (codes "admin_email") corpus_keys ≡ false))
validate_update_key-is_declared_example =
    validate_update_key-is_declared digit_numbers (codes "admin_email")

abbrev seeded_table : List (ConfigParameter ℕ)
seeded_table = window_row ∷ []

abbrev default_text : DynamicParam ℕ → Text
default_text declaration = codes "1"

seeded_table-IsUnique : IsUnique seeded_table
seeded_table-IsUnique k d = ground arith

seed_config_defaults_lem_example :
    (rows1 : List (ConfigParameter ℕ)) × (seed_config_defaults default_text seeded_table ≡ ok rows1)
    × IsUnique rows1
    × Keeps (build_defaults default_text) seeded_table rows1
    × All (HasRow rows1) (build_defaults default_text)
seed_config_defaults_lem_example =
    seed_config_defaults_lem default_text seeded_table seeded_table-IsUnique

-- Quotes inside of quotes are stored: the test of the allowed values takes them off once more.
quoted_stored :
    normalize_parameter
      (some accepting)
      provider_row
      (codes "'\"ollama\"'")
      (codes "llm_provider")
      none
    ≡ ok (codes "\"ollama\"")
unfolding normalize_parameter normalize validate validate_string strip is_space dynamic_params
quoted_stored = refl

text_operations :
    (strip is_space (codes " a b ") ≡ codes "a b")
    × (lower (codes "Db_Host") ≡ codes "db_host")
    × (ends_with (codes "ollama_base_url") (codes "_base_url") ≡ true)
    × (has_part (codes "embedding_http_max") (codes "_http_") ≡ true)
unfolding strip is_space lower
text_operations = (refl, refl, refl, refl)
