-- ===== src/Config/Managed.antt =====
-- server/app/application/admin/config_service.py and server/app/domain/runtime/dynamic_params.py: which
-- keys may be changed, and which rows are listed.
use rag_assistant.Prelude.{
  All, Bool, Bool-cases, List, Option, [], all, and-true, arith, false, if◌then◌else◌, inl, inr,
  none, not, ok, refl, some, subst, sym, true, ◌↔◌, ◌∷◌, ◌≡◌,
}
use rag_assistant.Config.Text.{Text, text_eq, text_eq-eq, member}
use rag_assistant.Config.Parameter.{Numbers, ConfigParameter}
use rag_assistant.Config.Params.{
  DynamicParam, dynamic_params, in_dynamic_fields_map, find_declaration,
}
use rag_assistant.Config.Service.{
  validate_update_key, validate_corpus_update_key, is_deployed, is_declared, corpus_keys, is_hidden,
  list_parameters, shown, redeclare,
}

module _ {F : Type 0} (numbers : Numbers F) where
  abbrev not_deployed : DynamicParam F → Bool
  not_deployed p = not (is_deployed p.key)

  declared_free : all not_deployed (dynamic_params ⦃numbers = numbers⦄) ≡ true
  unfolding dynamic_params is_deployed rag_assistant.Config.Text.lower
  declared_free = refl

  in_dynamic_fields_map-not_deployed :
      (params : List (DynamicParam F)) (key : Text)
      → all not_deployed params ≡ true
      → in_dynamic_fields_map params key ≡ true
      → is_deployed key ≡ false
  in_dynamic_fields_map-not_deployed [] key free h = cc
  in_dynamic_fields_map-not_deployed (p ∷ params) key free h =
      let (now, later) = and-true (not_deployed p) (all not_deployed params) free in
      elim (Bool-cases (text_eq key p.key)) [
        | inl same ↦
            subst (λ k. is_deployed k ≡ false) (sym (text_eq-eq key p.key same))
              (ground (arith, now))
        | inr other ↦ in_dynamic_fields_map-not_deployed params key later (ground (arith, h, other))
      ]

  -- A global key may be changed exactly when it is declared in the code and is none of the two of
  -- the corpus: no declared key is one that the deployment owns.
  pub validate_update_key-is_declared :
      (key : Text)
      → (validate_update_key numbers key none ≡ ok tt)
        ↔ ((is_declared numbers key ≡ true) × (member key corpus_keys ≡ false))
  unfolding validate_update_key validate_corpus_update_key
  validate_update_key-is_declared key = ground (
    arith,
    in_dynamic_fields_map-not_deployed (dynamic_params ⦃numbers = numbers⦄) key declared_free,
  )

module _ {F : Type 0} ⦃numbers : Numbers F⦄ where
  abbrev pub IsManaged : ConfigParameter F → Type 0
  IsManaged row =
      (is_hidden row.key ≡ false) × (row.domain_key ≡ none → is_declared numbers row.key ≡ true)

  shown-IsManaged : (row : ConfigParameter F) → shown row ≡ true → IsManaged row
  shown-IsManaged row h = (ground (arith, h), λ global. ground (arith, h, global))

  listed :
      (b : Bool) (d : Option (DynamicParam F)) (row : ConfigParameter F)
      (rest : List (ConfigParameter F))
      → (b ≡ true → IsManaged row)
      → All IsManaged rest
      → All IsManaged (if b then redeclare d row ∷ rest else rest)
  listed true none row rest h hs = (h refl, hs)
  listed true (some d) row rest h hs = (h refl, hs)
  listed false d row rest h hs = hs

  -- What the administrators see: no key of the deployment's, and no global key that is not declared.
  pub list_parameters-IsManaged :
      (rows : List (ConfigParameter F)) → All IsManaged (list_parameters rows)
  unfolding list_parameters
  list_parameters-IsManaged [] = tt
  list_parameters-IsManaged (row ∷ rows) =
      listed (shown row) (find_declaration row.key row.domain_key dynamic_params) row _
        (shown-IsManaged row) (list_parameters-IsManaged rows)
