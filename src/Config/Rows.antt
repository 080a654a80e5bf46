-- ===== src/Config/Rows.antt =====
-- server/app/infrastructure/repositories/config/sqlalchemy_config_parameter_repository.py: what a write
-- to the row of a pair changes for the readers of that pair and of the others.
use rag_assistant.Prelude.{
  All, Bool, Bool-cases, List, Option, [], and-true, arith, false, if◌then◌else◌, inl, inr, map, ok,
  refl, select, some, true, ◌&&◌, ◌∷◌, ◌≡◌,
}
use rag_assistant.Config.Text.{Text, text_eq, text_eq-eq, option_text_eq, option_text_eq-eq}
use rag_assistant.Config.Parameter.{ConfigParameter}
use rag_assistant.Config.Repository.{
  is_row, with_value, set_value, get_by_key_and_domain, update_value, scalar_one_or_none,
}

one_found :
    {A : Type 0} (found : List A) (a : A) → scalar_one_or_none found ≡ ok (some a) → found ≡ a ∷ []
one_found [] a h = cc
one_found (b ∷ []) a h = cc
one_found (b ∷ c ∷ found) a h = cc

none_selected {ℓ} :
    {A : Type ℓ} (p : A → Bool) (a : A) (rows : List A)
    → select p rows ≡ []
    → All (λ r. p r ≡ true → r ≡ a) rows
none_selected p a [] h = tt
none_selected p a (r ∷ rows) h = elim (Bool-cases (p r)) [
  | inl hit ↦ ground (arith, hit)
  | inr miss ↦ (λ y. ground (arith, y, miss), none_selected p a rows (ground (arith, miss, h)))
]

-- Where one element is selected, every element that satisfies the test is that one.
pub one_selected {ℓ} :
    {A : Type ℓ} (p : A → Bool) (a : A) (rows : List A)
    → select p rows ≡ a ∷ []
    → All (λ r. p r ≡ true → r ≡ a) rows
one_selected p a [] h = cc
one_selected p a (r ∷ rows) h = elim (Bool-cases (p r)) [
  | inl hit ↦ (λ y. ground (arith, hit, h), none_selected p a rows (ground (arith, hit, h)))
  | inr miss ↦ (λ y. ground (arith, y, miss), one_selected p a rows (ground (arith, miss, h)))
]

module _ {F : Type 0} where
  pub is_row-same :
      (key : Text) (domain_key : Option Text) (row : ConfigParameter F)
      → is_row key domain_key row ≡ true
      → (row.key ≡ key) × (row.domain_key ≡ domain_key)
  is_row-same key domain_key row h =
      let (k, d) = and-true (text_eq row.key key) (option_text_eq row.domain_key domain_key) h in
      (text_eq-eq row.key key k, option_text_eq-eq row.domain_key domain_key d)

  pub select-set_value_same :
      (key value : Text) (domain_key : Option Text) (rows : List (ConfigParameter F))
      → select (is_row key domain_key) (set_value key value domain_key rows)
        ≡ map (with_value value) (select (is_row key domain_key) rows)
  select-set_value_same key value domain_key [] = refl
  select-set_value_same key value domain_key (r ∷ rows) =
      ground (arith, select-set_value_same key value domain_key rows)

  pub is_row-other :
      (key k : Text) (domain_key d : Option Text) (row : ConfigParameter F)
      → is_row key domain_key row ≡ true
      → is_row k d row ≡ (text_eq key k && option_text_eq domain_key d)
  is_row-other key k domain_key d row h =
      let (e, f) = is_row-same key domain_key row h in rw (e, f) refl

  pub select-set_value_other :
      (key value k : Text) (domain_key d : Option Text) (rows : List (ConfigParameter F))
      → (text_eq key k && option_text_eq domain_key d) ≡ false
      → select (is_row k d) (set_value key value domain_key rows) ≡ select (is_row k d) rows
  select-set_value_other key value k domain_key d [] n = refl
  select-set_value_other key value k domain_key d (r ∷ rows) n = ground (
    arith,
    is_row-other key k domain_key d r,
    select-set_value_other key value k domain_key d rows n,
  )

  pub found-update_value :
      (key value : Text) (domain_key : Option Text) (rows : List (ConfigParameter F))
      (param : ConfigParameter F)
      → get_by_key_and_domain key domain_key rows ≡ ok (some param)
      → update_value key value domain_key rows ≡ ok (set_value key value domain_key rows)
  unfolding update_value
  found-update_value key value domain_key rows param h = rw h refl

  -- The one row of a pair, with its pair.
  pub only_row :
      (key : Text) (domain_key : Option Text) (rows : List (ConfigParameter F))
      (param : ConfigParameter F)
      → select (is_row key domain_key) rows ≡ param ∷ []
      → is_row key domain_key param ≡ true
  only_row key domain_key [] param h = cc
  only_row key domain_key (r ∷ rows) param h = ground (arith, only_row key domain_key rows param)

  pub get_by_key_and_domain-row :
      (key : Text) (domain_key : Option Text) (rows : List (ConfigParameter F))
      (param : ConfigParameter F)
      → get_by_key_and_domain key domain_key rows ≡ ok (some param)
      → (select (is_row key domain_key) rows ≡ param ∷ []) × (is_row key domain_key param ≡ true)
  unfolding get_by_key_and_domain
  get_by_key_and_domain-row key domain_key rows param h =
      let one = one_found (select (is_row key domain_key) rows) param h in
      (one, only_row key domain_key rows param one)

  pub get_by_key_and_domain-set_value :
      (key value k : Text) (domain_key d : Option Text) (rows : List (ConfigParameter F))
      (param : ConfigParameter F)
      → get_by_key_and_domain key domain_key rows ≡ ok (some param)
      → get_by_key_and_domain k d (set_value key value domain_key rows) ≡ (
          if text_eq key k && option_text_eq domain_key d
          then ok (some (with_value value param))
          else get_by_key_and_domain k d rows)
  unfolding get_by_key_and_domain
  get_by_key_and_domain-set_value key value k domain_key d rows param h =
      let one = one_found (select (is_row key domain_key) rows) param h in
      elim (Bool-cases (text_eq key k && option_text_eq domain_key d)) [
        | inl same ↦
            let (e, f) = and-true (text_eq key k) (option_text_eq domain_key d) same in
            rw same (
              rw (← text_eq-eq key k e, ← option_text_eq-eq domain_key d f)
                (rw (select-set_value_same key value domain_key rows, one) refl))
        | inr other ↦ rw (other, select-set_value_other key value k domain_key d rows other) refl
      ]
