-- ===== src/Config/Updates.antt =====
-- server/app/application/admin/config_service.py: what an update of a parameter went through, and
-- that every stored value keeps the type of its row.
use rag_assistant.Config.Typed.{IsTyped, normalize_parameter_lem, IsTyped-with_value}
use rag_assistant.Prelude.{
  List, Option, ap, none, ok, refl, some, sym, ℕ, ◌∙◌, ◌≡◌, >>=-inversion, ok-injective, All, false,
  true, ◌∷◌, if◌then◌else◌, Bool, [], ◌&&◌, subst,
}
use rag_assistant.Config.Text.{Text, text_eq, option_text_eq, member}
use rag_assistant.Config.Parameter.{Numbers, ConfigParameter, normalize, ConfigParameterChanged}
use rag_assistant.Config.Repository.{
  set_value, get_by_key_and_domain, update_value, is_row, with_value,
}
use rag_assistant.Config.Service.{
  ProviderConfiguration, Updated, validate_update_key, prepare_update, normalize_parameter,
  update_parameter, check_version, changed, write_update, is_deployed, corpus_keys,
}
use rag_assistant.Config.Rows.{
  found-update_value, get_by_key_and_domain-row, get_by_key_and_domain-set_value, is_row-same,
  one_selected,
}
use rag_assistant.Config.Admission.{
  validate_update_key-deployed, prepare_update-some, check_version-same,
}

module _ {F : Type 0} ⦃numbers : Numbers F⦄ where
  -- What a successful update went through: the row that it found, and the value that it stored.
  pub record WentThrough (provider : Option (ProviderConfiguration F)) (key raw : Text)
      (changed_by : Option ℕ) (domain_key : Option Text) (before latest : List (ConfigParameter F))
      (out : Updated F) : Type 0 where
    pub old : ConfigParameter F
    pub version : Option Text
    pub allowed : validate_update_key numbers key domain_key ≡ ok tt
    pub prepared : prepare_update provider key raw domain_key before ≡ ok version
    pub unchanged : check_version provider version latest ≡ ok tt
    pub found : get_by_key_and_domain key domain_key latest ≡ ok (some old)
    pub normalized : normalize_parameter provider old raw key domain_key ≡ ok out.param.value
    pub written : out.rows ≡ set_value key out.param.value domain_key latest
    pub returned : out.param ≡ with_value out.param.value old
    pub published : out.event ≡ changed key changed_by domain_key old out.param.value

  write_update-some :
      (provider : Option (ProviderConfiguration F)) (key raw : Text) (changed_by : Option ℕ)
      (domain_key : Option Text) (latest : List (ConfigParameter F))
      (o : Option (ConfigParameter F)) (out : Updated F)
      → get_by_key_and_domain key domain_key latest ≡ ok o
      → write_update provider key raw changed_by domain_key latest o ≡ ok out
      → (old : ConfigParameter F) × (o ≡ some old)
        × (normalize_parameter provider old raw key domain_key ≡ ok out.param.value)
        × (out.rows ≡ set_value key out.param.value domain_key latest)
        × (out.param ≡ with_value out.param.value old)
        × (out.event ≡ changed key changed_by domain_key old out.param.value)
  write_update-some provider key raw changed_by domain_key latest none out found h = cc
  write_update-some provider key raw changed_by domain_key latest (some old) out found h =
      let (value, h1, normalized) =
        >>=-inversion (normalize_parameter provider old raw key domain_key) _ h in
      let (rows, h2, written) = >>=-inversion (update_value key value domain_key latest) _ h1 in
      let same = ok-injective h2 in
      let exact : rows ≡ set_value key value domain_key latest =
        ok-injective (sym written ∙ found-update_value key value domain_key latest old found) in
      rw (← same, exact) (old, refl, normalized, refl, refl, refl)

  pub update_parameter-WentThrough :
      (provider : Option (ProviderConfiguration F)) (key raw : Text) (changed_by : Option ℕ)
      (domain_key : Option Text) (before latest : List (ConfigParameter F)) (out : Updated F)
      → update_parameter provider key raw changed_by domain_key before latest ≡ ok out
      → WentThrough provider key raw changed_by domain_key before latest out
  unfolding update_parameter
  update_parameter-WentThrough provider key raw changed_by domain_key before latest out h =
      let (d1, h1, allowed) = >>=-inversion (validate_update_key numbers key domain_key) _ h in
      let (version, h2, prepared) =
        >>=-inversion (prepare_update provider key raw domain_key before) _ h1 in
      let (d2, h3, unchanged) = >>=-inversion (check_version provider version latest) _ h2 in
      let (o, h4, found) = >>=-inversion (get_by_key_and_domain key domain_key latest) _ h3 in
      let (old, is_some, normalized, written, returned, published) =
        write_update-some provider key raw changed_by domain_key latest o out found h4 in
      record {
        old = old;
        version = version;
        allowed = allowed;
        prepared = prepared;
        unchanged = unchanged;
        found = found ∙ ap ok is_some;
        normalized = normalized;
        written = written;
        returned = returned;
        published = published;
      }

  written-IsTyped :
      (b : Bool) (r : ConfigParameter F) (value : Text)
      → IsTyped r r.value
      → (b ≡ true → IsTyped r value)
      → let w = if b then with_value value r else r in IsTyped w w.value
  written-IsTyped true r value t new = IsTyped-with_value r value value (new refl)
  written-IsTyped false r value t new = t

  IsTyped-set_value :
      (key value : Text) (domain_key : Option Text) (old : ConfigParameter F)
      (rows : List (ConfigParameter F))
      → All (λ row. IsTyped row row.value) rows
      → All (λ row. is_row key domain_key row ≡ true → row ≡ old) rows
      → IsTyped old value
      → All (λ row. IsTyped row row.value) (set_value key value domain_key rows)
  IsTyped-set_value key value domain_key old [] typed one new = tt
  IsTyped-set_value key value domain_key old (r ∷ rows) (t, ts) (o, os) new = (
    written-IsTyped (is_row key domain_key r) r value t
        (λ hit. subst (λ w. IsTyped w value) (sym (o hit)) new),
    IsTyped-set_value key value domain_key old rows ts os new,
  )

  -- If every stored value reads as a value of its row's type within the bounds and the allowed
  -- values of the row and of the code's declaration of its key, where nothing is asked of a list,
  -- then so does every value after a successful update.
  pub update_parameter-IsTyped :
      (provider : Option (ProviderConfiguration F)) (key raw : Text) (changed_by : Option ℕ)
      (domain_key : Option Text) (before latest : List (ConfigParameter F)) (out : Updated F)
      → All (λ row. IsTyped row row.value) latest
      → update_parameter provider key raw changed_by domain_key before latest ≡ ok out
      → All (λ row. IsTyped row row.value) out.rows
  update_parameter-IsTyped provider key raw changed_by domain_key before latest out typed h =
      let went =
        update_parameter-WentThrough provider key raw changed_by domain_key before latest out h in
      let (one, is_one) = get_by_key_and_domain-row key domain_key latest went.old went.found in
      let (same_key, same_domain) = is_row-same key domain_key went.old is_one in
      let (exact, fits, declared) =
        normalize_parameter_lem provider went.old raw key out.param.value domain_key
          went.normalized in
      rw went.written (
        IsTyped-set_value key out.param.value domain_key went.old latest typed
          (one_selected (is_row key domain_key) went.old latest one)
          (fits, rw (same_key, same_domain) declared))

  -- After a successful update a reader of the same key and domain finds the returned parameter, whose
  -- value is the normalized text, a reader of any other pair finds what was there, and the published
  -- event has the value from before and the new one.
  pub update_parameter-get_by_key_and_domain :
      (provider : Option (ProviderConfiguration F)) (key raw : Text) (changed_by : Option ℕ)
      (domain_key : Option Text) (before latest : List (ConfigParameter F)) (out : Updated F)
      (k : Text) (d : Option Text)
      → update_parameter provider key raw changed_by domain_key before latest ≡ ok out
      → (get_by_key_and_domain k d out.rows ≡ (
          if text_eq key k && option_text_eq domain_key d
          then ok (some out.param)
          else get_by_key_and_domain k d latest))
        × (out.event.new_value ≡ out.param.value)
        × (old : ConfigParameter F) × (get_by_key_and_domain key domain_key latest ≡ ok (some old))
        × (out.param.value ≡ normalize old raw)
        × (out.event.old_value ≡ some old.value)
  update_parameter-get_by_key_and_domain provider key raw changed_by domain_key before latest out k
        d h =
      let went =
        update_parameter-WentThrough provider key raw changed_by domain_key before latest out h in
      let (exact, fits, declared) =
        normalize_parameter_lem provider went.old raw key out.param.value domain_key
          went.normalized in
      let read =
        get_by_key_and_domain-set_value key out.param.value k domain_key d latest went.old
          went.found in
      (
        (ap (get_by_key_and_domain k d) went.written
            ∙ read
            ∙ ap
                (λ (p : ConfigParameter F).
                  if text_eq key k && option_text_eq domain_key d
                  then ok (some p)
                  else get_by_key_and_domain k d latest)
                (sym went.returned)),
        ap (λ (e : ConfigParameterChanged). e.new_value) went.published,
        went.old,
        went.found,
        exact,
        ap (λ (e : ConfigParameterChanged). e.old_value) went.published,
      )

  -- With the configuration of the providers, an update goes through only if that configuration has
  -- accepted the change of the rows as they were read before, and their version is still the same
  -- under the lock; and never for a key that the deployment owns or one of the corpus.
  pub update_parameter-saved_version :
      (p : ProviderConfiguration F) (key raw : Text) (changed_by : Option ℕ)
      (domain_key : Option Text) (before latest : List (ConfigParameter F)) (out : Updated F)
      → update_parameter (some p) key raw changed_by domain_key before latest ≡ ok out
      → (p.validate_snapshot_change before key raw domain_key ≡ ok tt)
        × (p.saved_version latest ≡ p.saved_version before)
        × (is_deployed key ≡ false)
        × (member key corpus_keys ≡ false)
  update_parameter-saved_version p key raw changed_by domain_key before latest out h =
      let went =
        update_parameter-WentThrough (some p) key raw changed_by domain_key before latest out h in
      let (accepted, same) =
        prepare_update-some p key raw domain_key before went.version went.prepared in
      let (deployed, corpus) = validate_update_key-deployed numbers key domain_key went.allowed in
      (accepted, check_version-same p latest went.version went.unchanged ∙ same, deployed, corpus)
