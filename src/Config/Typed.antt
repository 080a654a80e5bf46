-- ===== src/Config/Typed.antt =====
-- server/app/application/admin/config_service.py: what a successful update went through, and the
-- types of the values that are stored.
use rag_assistant.Config.Repository.{with_value}
use rag_assistant.Prelude.{
  >>=-inversion, Bool, Option, arith, err, false, if◌then◌else◌, is_none, none, not, ok,
  ok-injective, refl, some, subst, sym, true, validation_error, ◌&&◌, ◌≡◌,
}
use rag_assistant.Config.Text.{Text}
use rag_assistant.Config.Parameter.{
  Numbers, Number, ℤ, whole, floating, ConfigParameter, ConfigValueType, bool_type, int_type,
  float_type, str_type, list_type, unknown_type, parse_bool, is_allowed, too_small, too_large,
  validate, validate_as, validate_string, normalize, read_whole, read_floating, check_bounds,
  refuse_unless,
}
use rag_assistant.Config.Params.{DynamicParam, dynamic_params, find_declaration}
use rag_assistant.Config.Service.{
  ProviderConfiguration, normalize_parameter, constrain, validate_declared, needs_provider,
}

refuse_unless-ok : (b : Bool) → refuse_unless b ≡ ok tt → b ≡ true
refuse_unless-ok true h = refl
refuse_unless-ok false h = cc

refuse_unless-some :
    (o : Option Bool) → refuse_unless (not (is_none o)) ≡ ok tt → (b : Bool) × (o ≡ some b)
refuse_unless-some none h = cc
refuse_unless-some (some b) h = (b, refl)

pub guarded-ok {ℓ} :
    {A : Type ℓ} (b : Bool) (v s : A) → (if b then err validation_error else ok v) ≡ ok s → s ≡ v
guarded-ok true v s h = cc
guarded-ok false v s h = sym (ok-injective h)

module _ {F : Type 0} ⦃numbers : Numbers F⦄ where
  open numbers use {read_int, read_float}

  abbrev pub Within : ConfigParameter F → Number F → Type 0
  Within param v = (too_small param.min_value v ≡ false) × (too_large param.max_value v ≡ false)

  abbrev HasTypeAs : ConfigValueType → ConfigParameter F → Text → Type 0
  HasTypeAs bool_type param s = (b : Bool) × (parse_bool s ≡ some b)
  HasTypeAs str_type param s = is_allowed param.allowed_values (normalize param s) ≡ true
  HasTypeAs int_type param s = (n : ℤ) × (read_int s ≡ some n) × Within param (whole n)
  HasTypeAs float_type param s = (x : F) × (read_float s ≡ some x) × Within param (floating x)
  HasTypeAs list_type param s = Unit
  HasTypeAs (unknown_type name) param s = Unit

  -- The text reads as a value of the parameter's type that keeps to its bounds and allowed values.
  abbrev pub HasType : ConfigParameter F → Text → Type 0
  HasType param s = HasTypeAs param.value_type param s

  abbrev FitsDeclaration : Option (DynamicParam F) → ConfigParameter F → Text → Type 0
  FitsDeclaration none param s = Unit
  FitsDeclaration (some declaration) param s = HasType (constrain declaration param) s

  -- A row whose value has the type of the row, and keeps to what the code declares of its pair.
  abbrev pub IsTyped : ConfigParameter F → Text → Type 0
  IsTyped row s =
      HasType row s × FitsDeclaration (find_declaration row.key row.domain_key dynamic_params) row s

  HasType-number :
      (param : ConfigParameter F) (v : Number F)
      → check_bounds param (some v) ≡ ok tt
      → Within param v
  HasType-number param v h = ground arith

  HasType-int :
      (param : ConfigParameter F) (o : Option ℤ)
      → check_bounds param (read_whole o) ≡ ok tt
      → (n : ℤ) × (o ≡ some n) × Within param (whole n)
  HasType-int param none h = cc
  HasType-int param (some n) h = (n, refl, HasType-number param (whole n) h)

  HasType-float :
      (param : ConfigParameter F) (o : Option F)
      → check_bounds param (read_floating o) ≡ ok tt
      → (x : F) × (o ≡ some x) × Within param (floating x)
  HasType-float param none h = cc
  HasType-float param (some x) h = (x, refl, HasType-number param (floating x) h)

  validate-HasTypeAs :
      (t : ConfigValueType) (param : ConfigParameter F) (s : Text)
      → validate_as t param s ≡ ok tt
      → HasTypeAs t param s
  unfolding validate_string
  validate-HasTypeAs bool_type param s h = refuse_unless-some (parse_bool s) h
  validate-HasTypeAs str_type param s h = refuse_unless-ok _ h
  validate-HasTypeAs int_type param s h = HasType-int param (read_int s) h
  validate-HasTypeAs float_type param s h = HasType-float param (read_float s) h
  validate-HasTypeAs list_type param s h = tt
  validate-HasTypeAs (unknown_type name) param s h = tt

  pub validate-HasType :
      (param : ConfigParameter F) (s : Text) → validate param s ≡ ok tt → HasType param s
  unfolding validate
  validate-HasType param s h = validate-HasTypeAs param.value_type param s h

  declared-Fits :
      (d : Option (DynamicParam F)) (param : ConfigParameter F) (s : Text)
      → validate_declared d param s ≡ ok tt
      → FitsDeclaration d param s
  declared-Fits none param s h = tt
  declared-Fits (some d) param s h = validate-HasType (constrain d param) s h

  -- A value that `normalize_parameter` returns is the normalized one and is checked.
  pub normalize_parameter_lem :
      (provider : Option (ProviderConfiguration F)) (param : ConfigParameter F) (raw key s : Text)
      (domain_key : Option Text)
      → normalize_parameter provider param raw key domain_key ≡ ok s
      → (s ≡ normalize param raw)
        × HasType param s
        × FitsDeclaration (find_declaration key domain_key dynamic_params) param s
  unfolding normalize_parameter
  normalize_parameter_lem provider param raw key s domain_key h =
      let v = normalize param raw in
      let d = find_declaration key domain_key dynamic_params in
      let (done, h1, valid) = >>=-inversion (validate param v) _ h in
      let (done2, h2, fits) = >>=-inversion (validate_declared d param v) _ h1 in
      let same : s ≡ v = guarded-ok (is_none provider && needs_provider key) v s h2 in
      (
        same,
        subst (λ u. HasType param u) (sym same) (validate-HasType param v valid),
        subst (λ u. FitsDeclaration d param u) (sym same) (declared-Fits d param v fits),
      )

  HasTypeAs-with_value :
      (t : ConfigValueType) (param : ConfigParameter F) (value s : Text)
      → HasTypeAs t param s
      → HasTypeAs t (with_value value param) s
  unfolding normalize
  HasTypeAs-with_value bool_type param value s h = h
  HasTypeAs-with_value str_type param value s h = h
  HasTypeAs-with_value int_type param value s h = h
  HasTypeAs-with_value float_type param value s h = h
  HasTypeAs-with_value list_type param value s h = tt
  HasTypeAs-with_value (unknown_type name) param value s h = tt

  FitsDeclaration-with_value :
      (d : Option (DynamicParam F)) (param : ConfigParameter F) (value s : Text)
      → FitsDeclaration d param s
      → FitsDeclaration d (with_value value param) s
  FitsDeclaration-with_value none param value s h = tt
  FitsDeclaration-with_value (some d) param value s h =
      HasTypeAs-with_value param.value_type (constrain d param) value s h

  -- The type of a row does not depend on the value that it has.
  pub IsTyped-with_value :
      (row : ConfigParameter F) (value s : Text) → IsTyped row s → IsTyped (with_value value row) s
  IsTyped-with_value row value s (h, fits) = (
    HasTypeAs-with_value row.value_type row value s h,
    FitsDeclaration-with_value (find_declaration row.key row.domain_key dynamic_params) row value s
        fits,
  )
