-- ===== src/Config/Admission.antt =====
-- server/app/application/admin/config_service.py: what the tests before an update admit.
use rag_assistant.Prelude.{
  List, Option, ok, refl, some, sym, ◌≡◌, >>=-inversion, ok-injective, false, true, if◌then◌else◌,
  Bool, any, Result, err, validation_error, AppError, entity_not_found,
}
use rag_assistant.Config.Text.{Text, option_text_eq, option_text_eq-eq, member}
use rag_assistant.Config.Parameter.{Numbers, ConfigParameter}
use rag_assistant.Config.Repository.{is_row}
use rag_assistant.Config.Service.{
  ProviderConfiguration, validate_update_key, prepare_update, check_version, is_deployed,
  corpus_keys, validate_corpus_update_key,
}

guard-false :
    (b : Bool) (r : Result (Unit {0})) → (if b then err validation_error else r) ≡ ok tt → b ≡ false
guard-false true r h = cc
guard-false false r h = refl

guard-true {ℓ} :
    {A : Type ℓ} (b : Bool) (r : Result A) (e : AppError) (a : A)
    → (if b then r else err e) ≡ ok a
    → (b ≡ true) × (r ≡ ok a)
guard-true true r e a h = (refl, h)
guard-true false r e a h = cc

module _ {F : Type 0} (numbers : Numbers F) where
  pub validate_update_key-deployed :
      (key : Text) (domain_key : Option Text)
      → validate_update_key numbers key domain_key ≡ ok tt
      → (is_deployed key ≡ false) × (member key corpus_keys ≡ false)
  unfolding validate_update_key validate_corpus_update_key
  validate_update_key-deployed key domain_key h =
      let (done, rest, corpus) = >>=-inversion (validate_corpus_update_key key) _ h in
      (guard-false (is_deployed key) _ rest, guard-false (member key corpus_keys) (ok tt) corpus)

module _ {F : Type 0} ⦃numbers : Numbers F⦄ where
  pub prepare_update-some :
      (p : ProviderConfiguration F) (key raw : Text) (domain_key : Option Text)
      (before : List (ConfigParameter F)) (version : Option Text)
      → prepare_update (some p) key raw domain_key before ≡ ok version
      → (p.validate_snapshot_change before key raw domain_key ≡ ok tt)
        × (version ≡ p.saved_version before)
  unfolding prepare_update
  prepare_update-some p key raw domain_key before version h =
      let (there, going) =
        guard-true (any (is_row key domain_key) before) _ entity_not_found version h in
      let (done, rest, accepted) =
        >>=-inversion (p.validate_snapshot_change before key raw domain_key) _ going in
      (accepted, sym (ok-injective rest))

  pub check_version-same :
      (p : ProviderConfiguration F) (latest : List (ConfigParameter F)) (version : Option Text)
      → check_version (some p) version latest ≡ ok tt
      → p.saved_version latest ≡ version
  check_version-same p latest version h =
      option_text_eq-eq _ version
        (guard-true (option_text_eq (p.saved_version latest) version) (ok tt) validation_error tt
          h).0
