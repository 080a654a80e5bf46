-- ===== src/Config/Writes.antt =====
-- server/app/infrastructure/repositories/config/sqlalchemy_config_parameter_repository.py: the writes of
-- the seeds on a table that has each pair at most once: they succeed, and change one pair only.
use rag_assistant.Prelude.{
  Bool, Bool-cases, List, Option, [], and-true, any, arith, false, if◌then◌else◌, inl, inr, length,
  map, none, not, ok, refl, select, some, true, ◌&&◌, ◌++◌, ◌∷◌, ◌≡◌, ◌≤◌, ◌⊎◌,
}
use rag_assistant.Config.Text.{
  Text, text_eq, option_text_eq, text_eq-eq, option_text_eq-eq, text_eq_refl, option_text_eq_refl,
}
use rag_assistant.Config.Parameter.{ConfigParameter}
use rag_assistant.Config.Repository.{
  is_row, with_value, set_value, set_category, update_value, update_category,
  delete_by_key_and_domain, save, upsert, scalar_one_or_none, stored_values,
}
use rag_assistant.Config.Rows.{is_row-other, select-set_value_same, select-set_value_other}

abbrev pub same_pair : Text → Option Text → Text → Option Text → Bool
same_pair key domain_key k d = text_eq key k && option_text_eq domain_key d

-- A lookup of a pair that has at most one row.
found_or_none :
    {A : Type 0} (found : List A)
    → length found ≤ 1
    → ((scalar_one_or_none found ≡ ok none) × (found ≡ []))
      ⊎ ((a : A) × (scalar_one_or_none found ≡ ok (some a)) × (found ≡ a ∷ []))
found_or_none [] h = inl (refl, refl)
found_or_none (a ∷ []) h = inr (a, refl, refl)
found_or_none (a ∷ b ∷ found) h = absurd (omega arith)

pub same_pair-eq :
    (key k : Text) (domain_key d : Option Text)
    → same_pair key domain_key k d ≡ true
    → (key ≡ k) × (domain_key ≡ d)
same_pair-eq key k domain_key d h =
    let (e, f) = and-true (text_eq key k) (option_text_eq domain_key d) h in
    (text_eq-eq key k e, option_text_eq-eq domain_key d f)

module _ {F : Type 0} where
  abbrev pub rows_of : Text → Option Text → List (ConfigParameter F) → List (ConfigParameter F)
  rows_of key domain_key rows = select (is_row key domain_key) rows

  -- Each pair has at most one row: the unique index of the table.
  abbrev pub IsUnique : List (ConfigParameter F) → Type 0
  IsUnique rows = (k : Text) (d : Option Text) → length (rows_of k d rows) ≤ 1

  -- Only the rows of one pair differ.
  abbrev pub Rest : Text → Option Text → (rows rows1 : List (ConfigParameter F)) → Type 0
  Rest key domain_key rows rows1 =
      (k : Text) (d : Option Text)
      → same_pair key domain_key k d ≡ false
      → rows_of k d rows1 ≡ rows_of k d rows

  abbrev pub with_category : Text → ConfigParameter F → ConfigParameter F
  with_category category row = record row { category = category }

  rows_of-set_category_same :
      (key category : Text) (domain_key : Option Text) (rows : List (ConfigParameter F))
      → rows_of key domain_key (set_category key category domain_key rows)
        ≡ map (with_category category) (rows_of key domain_key rows)
  rows_of-set_category_same key category domain_key [] = refl
  rows_of-set_category_same key category domain_key (r ∷ rows) =
      ground (arith, rows_of-set_category_same key category domain_key rows)

  set_category-Rest :
      (key category : Text) (domain_key : Option Text) (rows : List (ConfigParameter F))
      → Rest key domain_key rows (set_category key category domain_key rows)
  set_category-Rest key category domain_key [] k d n = refl
  set_category-Rest key category domain_key (r ∷ rows) k d n = ground (
    arith,
    is_row-other key k domain_key d r,
    set_category-Rest key category domain_key rows k d n,
  )

  abbrev is_kept : Text → Option Text → ConfigParameter F → Bool
  is_kept key domain_key r = not (is_row key domain_key r)

  rows_of-deleted :
      (key : Text) (domain_key : Option Text) (rows : List (ConfigParameter F))
      → rows_of key domain_key (select (is_kept key domain_key) rows) ≡ []
  rows_of-deleted key domain_key [] = refl
  rows_of-deleted key domain_key (r ∷ rows) = ground (arith, rows_of-deleted key domain_key rows)

  deleted-Rest :
      (key : Text) (domain_key : Option Text) (rows : List (ConfigParameter F))
      → Rest key domain_key rows (select (is_kept key domain_key) rows)
  deleted-Rest key domain_key [] k d n = refl
  deleted-Rest key domain_key (r ∷ rows) k d n =
      ground (arith, is_row-other key k domain_key d r, deleted-Rest key domain_key rows k d n)

  rows_of-append :
      (k : Text) (d : Option Text) (rows : List (ConfigParameter F)) (e : ConfigParameter F)
      → rows_of k d (rows ++ e ∷ []) ≡ rows_of k d rows ++ (if is_row k d e then e ∷ [] else [])
  rows_of-append k d [] e = ground arith
  rows_of-append k d (r ∷ rows) e = ground (arith, rows_of-append k d rows e)

  any-rows_of :
      (k : Text) (d : Option Text) (rows : List (ConfigParameter F))
      → rows_of k d rows ≡ []
      → any (is_row k d) rows ≡ false
  any-rows_of k d [] h = refl
  any-rows_of k d (r ∷ rows) h = ground (arith, any-rows_of k d rows, h)

  pub Rest-IsUnique :
      (key : Text) (domain_key : Option Text) (rows rows1 : List (ConfigParameter F))
      → IsUnique rows
      → Rest key domain_key rows rows1
      → length (rows_of key domain_key rows1) ≤ 1
      → IsUnique rows1
  Rest-IsUnique key domain_key rows rows1 unique rest one k d =
      elim (Bool-cases (same_pair key domain_key k d)) [
        | inl same ↦ let (e, f) = same_pair-eq key k domain_key d same in rw (← e, ← f) one
        | inr other ↦ rw (rest k d other) (unique k d)
      ]

  pub delete_by_key_and_domain_lem :
      (key : Text) (domain_key : Option Text) (rows : List (ConfigParameter F))
      → IsUnique rows
      → (rows1 : List (ConfigParameter F)) × (delete_by_key_and_domain key domain_key rows
          ≡ ok rows1)
        × Rest key domain_key rows rows1
        × (rows_of key domain_key rows1 ≡ [])
  unfolding delete_by_key_and_domain
  delete_by_key_and_domain_lem key domain_key rows unique =
      elim (found_or_none (rows_of key domain_key rows) (unique key domain_key)) [
        | inl (e, gone) ↦ (rows, rw e refl, λ k d other. refl, gone)
        | inr (a, e, one) ↦ (
          select (is_kept key domain_key) rows,
          rw e refl,
          deleted-Rest key domain_key rows,
          rows_of-deleted key domain_key rows,
        )
      ]

  pub update_category_lem :
      (key category : Text) (domain_key : Option Text) (rows : List (ConfigParameter F))
      → IsUnique rows
      → (rows1 : List (ConfigParameter F)) × (update_category key category domain_key rows
          ≡ ok rows1)
        × Rest key domain_key rows rows1
        × (rows_of key domain_key rows1
            ≡ map (with_category category) (rows_of key domain_key rows))
  unfolding update_category
  update_category_lem key category domain_key rows unique =
      elim (found_or_none (rows_of key domain_key rows) (unique key domain_key)) [
        | inl (e, gone) ↦ (rows, rw e refl, λ k d other. refl, rw gone refl)
        | inr (a, e, one) ↦ (
          set_category key category domain_key rows,
          rw e refl,
          set_category-Rest key category domain_key rows,
          rows_of-set_category_same key category domain_key rows,
        )
      ]

  is_row_self : (e : ConfigParameter F) → is_row e.key e.domain_key e ≡ true
  is_row_self e = rw (text_eq_refl e.key, option_text_eq_refl e.domain_key) refl

  save-Rest :
      (e : ConfigParameter F) (rows : List (ConfigParameter F))
      → Rest e.key e.domain_key rows (rows ++ e ∷ [])
  save-Rest e [] k d other = rw (is_row-other e.key k e.domain_key d e (is_row_self e), other) refl
  save-Rest e (r ∷ rows) k d other = ground (arith, save-Rest e rows k d other)

  pub upsert_lem :
      (e : ConfigParameter F) (rows : List (ConfigParameter F))
      → IsUnique rows
      → (rows1 : List (ConfigParameter F)) × (upsert e rows ≡ ok rows1)
        × Rest e.key e.domain_key rows rows1
        × (r : ConfigParameter F) × (rows_of e.key e.domain_key rows1 ≡ r ∷ [])
  unfolding upsert update_value save
  upsert_lem e rows unique =
      let key = e.key in
      let domain_key = e.domain_key in
      elim (found_or_none (rows_of key domain_key rows) (unique key domain_key)) [
        | inl (found, gone) ↦
            let stored = record e { allowed_values = stored_values e.allowed_values } in
            (
              rows ++ stored ∷ [],
              rw (found, any-rows_of e.key e.domain_key rows gone) refl,
              save-Rest stored rows,
              stored,
              rw
                  (
                    rows_of-append e.key e.domain_key rows stored,
                    gone,
                    text_eq_refl e.key,
                    option_text_eq_refl e.domain_key,
                  )
                  refl,
            )
        | inr (a, found, one) ↦ (
          set_value key e.value domain_key rows,
          rw found refl,
          (λ k d other. select-set_value_other key e.value k domain_key d rows other),
          with_value e.value a,
          rw (select-set_value_same e.key e.value e.domain_key rows, one) refl,
        )
      ]
