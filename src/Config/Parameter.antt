-- ===== src/Config/Parameter.antt =====
-- server/app/domain/runtime/config.py: a configuration parameter, what may be stored for it, and the
-- event of its change. Python's numbers are an interface: `read_int` and `read_float` are `int(s)`
-- and `float(s)`, with `none` where they raise, `decimal m e` is the literal `m * 10 ** -e`, and
-- `below` is `<`. Descriptions and messages are texts for people and are left out.
use rag_assistant.Prelude.{
  Bool, List, Option, Result, [], err, false, if◌then◌else◌, is_none, map, none, not, ok, some,
  true, validation_error, ℕ, ◌==◌, ◌∷◌, String,
}
use rag_assistant.Config.Text.{Text, codes, member, lower, strip, is_space}

pub data ℤ : Type 0 where
  pos : ℕ → ℤ
  negsuc : ℕ → ℤ

pub data Number (F : Type 0) : Type 0 where
  whole : ℤ → Number F
  floating : F → Number F

pub record Numbers (F : Type 0) : Type 0 where
  pub read_int : Text → Option ℤ
  pub read_float : Text → Option F
  pub decimal : ℕ → ℕ → F
  pub below : Number F → Number F → Bool

pub data ConfigValueType : Type 0 where
  bool_type int_type float_type str_type list_type : ConfigValueType
  unknown_type : Text → ConfigValueType

pub data DynamicParamCategory : Type 0 where
  corpus cost hybrid ingestion jobs llm ml ocr openrouter rag : DynamicParamCategory
  rate_limit reranker toggles : DynamicParamCategory

unfoldable category_name : DynamicParamCategory → String
category_name corpus = "corpus"
category_name cost = "cost"
category_name hybrid = "hybrid"
category_name ingestion = "ingestion"
category_name jobs = "jobs"
category_name llm = "llm"
category_name ml = "ml"
category_name ocr = "ocr"
category_name openrouter = "openrouter"
category_name rag = "rag"
category_name rate_limit = "rate_limit"
category_name reranker = "reranker"
category_name toggles = "toggles"

unfoldable pub category_text : DynamicParamCategory → Text
unfolding category_name
category_text c = codes (category_name c)

pub record ConfigParameter (F : Type 0) : Type 0 where
  pub key : Text
  pub value : Text
  pub value_type : ConfigValueType
  pub category : Text
  pub min_value : Option (Number F)
  pub max_value : Option (Number F)
  pub allowed_values : Option (List Text)
  pub domain_key : Option Text

pub record ConfigParameterChanged : Type 0 where
  pub key : Text
  pub old_value : Option Text
  pub new_value : Text
  pub value_type : ConfigValueType
  pub changed_by : Option ℕ
  pub domain_key : Option Text

abbrev pub true_words : List Text
true_words = map codes ("true" ∷ "1" ∷ "yes" ∷ "on" ∷ [])

abbrev pub false_words : List Text
false_words = map codes ("false" ∷ "0" ∷ "no" ∷ "off" ∷ [])

unfoldable pub parse_bool : Text → Option Bool
parse_bool value =
    if member (lower value) true_words
    then some true
    else if member (lower value) false_words
    then some false
    else none

abbrev pub normalize_as : ConfigValueType → Text → Text
normalize_as str_type raw = strip (λ c. c == b'\'') (strip (λ c. c == b'"') (strip is_space raw))
normalize_as _ raw = raw

-- `raw_value.strip().strip('"').strip("'")` of a text, and every other value as it is.
unfoldable pub normalize : {F : Type 0} → ConfigParameter F → Text → Text
normalize param raw = normalize_as param.value_type raw

abbrev pub refuse_unless : Bool → Result (Unit {0})
refuse_unless true = ok tt
refuse_unless false = err validation_error

abbrev pub is_allowed : Option (List Text) → Text → Bool
is_allowed none s = true
is_allowed (some texts) s = member s texts

unfoldable pub validate_string : {F : Type 0} → ConfigParameter F → Text → Result (Unit {0})
validate_string param raw = refuse_unless (is_allowed param.allowed_values (normalize param raw))

module _ {F : Type 0} ⦃numbers : Numbers F⦄ where
  open numbers use {read_int, read_float, below}

  -- `self.min_value is not None and val < self.min_value`, and the same of the maximum
  abbrev pub too_small : Option (Number F) → Number F → Bool
  too_small none v = false
  too_small (some low) v = below v low

  abbrev pub too_large : Option (Number F) → Number F → Bool
  too_large none v = false
  too_large (some high) v = below high v

  abbrev pub check_bounds : ConfigParameter F → Option (Number F) → Result (Unit {0})
  check_bounds param none = err validation_error
  check_bounds param (some v) =
      if too_small param.min_value v
      then err validation_error
      else if too_large param.max_value v
      then err validation_error
      else ok tt

  abbrev pub read_whole : Option ℤ → Option (Number F)
  read_whole none = none
  read_whole (some n) = some (whole n)

  abbrev pub read_floating : Option F → Option (Number F)
  read_floating none = none
  read_floating (some x) = some (floating x)

  abbrev pub validate_as : ConfigValueType → ConfigParameter F → Text → Result (Unit {0})
  validate_as bool_type param raw = refuse_unless (not (is_none (parse_bool raw)))
  validate_as str_type param raw = validate_string param raw
  validate_as int_type param raw = check_bounds param (read_whole (read_int raw))
  validate_as float_type param raw = check_bounds param (read_floating (read_float raw))
  validate_as list_type param raw = ok tt
  validate_as (unknown_type name) param raw = ok tt

  unfoldable pub validate : ConfigParameter F → Text → Result (Unit {0})
  validate param raw = validate_as param.value_type param raw
