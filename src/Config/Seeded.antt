-- ===== src/Config/Seeded.antt =====
-- server/app/infrastructure/initialization.py: what the seeds do to a table that has each pair once.
use rag_assistant.Prelude.{
  All, Bool, Bool-cases, List, Option-cases, [], all, and-true, ap, arith, false, inl, inr, map,
  nonempty, not, ok, refl, sym, true, ◌∙◌, ◌∷◌, ◌≡◌,
}
use mathlib.Core.Bool.{false≢true}
use rag_assistant.Config.Text.{Text, text_eq}
use rag_assistant.Config.Parameter.{Numbers, ConfigParameter}
use rag_assistant.Config.Params.{DynamicParam, dynamic_params}
use rag_assistant.Config.Repository.{upsert, update_category}
use rag_assistant.Config.Rows.{is_row-same, only_row}
use rag_assistant.Config.Seeding.{
  build_defaults, is_outdated, find_row, seed_row, seed_rows, seed_defaults, seed_config_defaults,
}
use rag_assistant.Config.Writes.{
  same_pair, same_pair-eq, rows_of, IsUnique, Rest, with_category, Rest-IsUnique,
  update_category_lem, upsert_lem,
}
use rag_assistant.Config.Kept.{
  single, HasRow, Grows, find_row-none, find_row-some, Keeps, Good, delete_outdated-Good,
}

module _ {F : Type 0} where
  module _ (defaults existing : List (ConfigParameter F)) where
    -- A seed that leaves one row of its own pair, and with the value that the pair had.
    Rest-Keeps :
        (e : ConfigParameter F) (rows rows1 : List (ConfigParameter F))
        → Rest e.key e.domain_key rows rows1
        → ((row : ConfigParameter F)
            → rows_of e.key e.domain_key existing ≡ row ∷ []
            → is_outdated defaults row ≡ false
            → (r : ConfigParameter F) × (rows_of e.key e.domain_key rows1 ≡ r ∷ [])
              × (r.value ≡ row.value))
        → Keeps defaults existing rows
        → Keeps defaults existing rows1
    Rest-Keeps e rows rows1 rest own keeps k d row one kept =
        elim (Bool-cases (same_pair e.key e.domain_key k d)) [
          | inl same ↦
              let (f, g) = same_pair-eq e.key k e.domain_key d same in
              let (r, there, value) = own row (rw (f, g) one) kept in
              (r, rw (← f, ← g) there, value)
          | inr other ↦ rw (rest k d other) (keeps k d row one kept)
        ]

    Rest-Grows :
        (e : ConfigParameter F) (rows rows1 : List (ConfigParameter F))
        → Rest e.key e.domain_key rows rows1
        → HasRow rows1 e
        → Grows rows rows1
    Rest-Grows e rows rows1 rest own k d there =
        elim (Bool-cases (same_pair e.key e.domain_key k d)) [
          | inl same ↦ let (f, g) = same_pair-eq e.key k e.domain_key d same in rw (← f, ← g) own
          | inr other ↦ rw (rest k d other) there
        ]

    -- What the seed of one parameter does.
    record Seeds (e : ConfigParameter F) (rows rows1 : List (ConfigParameter F)) : Type 0 where
      good : Good defaults existing rows1
      grows : Grows rows rows1
      has : HasRow rows1 e

    upsert-Seeds :
        (e : ConfigParameter F) (rows : List (ConfigParameter F))
        → Good defaults existing rows
        → rows_of e.key e.domain_key existing ≡ []
        → (rows1 : List (ConfigParameter F)) × (upsert e rows ≡ ok rows1) × Seeds e rows rows1
    upsert-Seeds e rows (unique, keeps) missing =
        let (rows1, same, rest, r, one) = upsert_lem e rows unique in
        let has : HasRow rows1 e = rw one refl in
        (
          rows1,
          same,
          record {
            good = (
              Rest-IsUnique e.key e.domain_key rows rows1 unique rest (rw one (omega arith)),
              Rest-Keeps e rows rows1 rest
                  (λ row there kept. absurd (false≢true (ap nonempty (sym missing ∙ there)))) keeps,
            );
            grows = Rest-Grows e rows rows1 rest has;
            has = has;
          },
        )

    update_category-Seeds :
        (e : ConfigParameter F) (rows : List (ConfigParameter F))
        → Good defaults existing rows
        → HasRow rows e
        → (rows1 : List (ConfigParameter F)) × (update_category e.key e.category e.domain_key rows
            ≡ ok rows1)
          × Seeds e rows rows1
    update_category-Seeds e rows (unique, keeps) there =
        let (rows1, same, rest, written) =
          update_category_lem e.key e.category e.domain_key rows unique in
        let (r, one) = single (rows_of e.key e.domain_key rows) (unique e.key e.domain_key) there in
        let one1 = written ∙ ap (map (with_category e.category)) one in
        let has : HasRow rows1 e = rw one1 refl in
        (
          rows1,
          same,
          record {
            good = (
              Rest-IsUnique e.key e.domain_key rows rows1 unique rest (rw one1 (omega arith)),
              Rest-Keeps e rows rows1 rest
                  (λ row was kept.
                    let (r0, now, value) = keeps e.key e.domain_key row was kept in
                    (
                      with_category e.category r0,
                      written ∙ ap (map (with_category e.category)) now,
                      value,
                    ))
                  keeps,
            );
            grows = Rest-Grows e rows rows1 rest has;
            has = has;
          },
        )

    module _ (unique0 : IsUnique existing) where
      seed_row-Seeds :
          (e : ConfigParameter F) (rows : List (ConfigParameter F))
          → Good defaults existing rows
          → is_outdated defaults e ≡ false
          → (rows1 : List (ConfigParameter F)) × (seed_row e
                (find_row e.key e.domain_key existing)
                rows
              ≡ ok rows1)
            × Seeds e rows rows1
      unfolding seed_row
      seed_row-Seeds e rows (unique, keeps) kept =
          elim (Option-cases (find_row e.key e.domain_key existing)) [
            | inl new ↦
                let (rows1, same, seeds) =
                  upsert-Seeds e rows (unique, keeps)
                    (find_row-none e.key e.domain_key existing new) in
                (rows1, rw new same, seeds)
            | inr (p, old) ↦
                let (row, one) =
                  single (rows_of e.key e.domain_key existing) (unique0 e.key e.domain_key)
                    (find_row-some e.key e.domain_key existing p old) in
                let (f, g) =
                  is_row-same e.key e.domain_key row
                    (only_row e.key e.domain_key existing row one) in
                let (r, now, value) = keeps e.key e.domain_key row one (rw (f, g) kept) in
                let has : HasRow rows e = rw now refl in
                elim (Bool-cases (text_eq p.category e.category)) [
                  | inl same ↦ (
                    rows,
                    rw (old, same) refl,
                    record { good = (unique, keeps); grows = λ k d there. there; has = has },
                  )
                  | inr other ↦
                      let (rows1, same, seeds) = update_category-Seeds e rows (unique, keeps) has in
                      (rows1, rw (old, other) same, seeds)
                ]
          ]

      seed_rows-Good :
          (todo rows : List (ConfigParameter F))
          → Good defaults existing rows
          → All (λ e. is_outdated defaults e ≡ false) todo
          → (rows1 : List (ConfigParameter F)) × (seed_rows existing todo rows ≡ ok rows1)
            × Good defaults existing rows1
            × Grows rows rows1
            × All (HasRow rows1) todo
      unfolding seed_rows
      seed_rows-Good [] rows good kept = (rows, refl, good, (λ k d there. there), tt)
      seed_rows-Good (e ∷ todo) rows good (kept, later) =
          let (rows1, same1, seeds) = seed_row-Seeds e rows good kept in
          let (rows2, same2, good2, grows, all_there) =
            seed_rows-Good todo rows1 seeds.good later in
          (
            rows2,
            rw same1 same2,
            good2,
            (λ k d there. grows k d (seeds.grows k d there)),
            (grows e.key e.domain_key seeds.has, all_there),
          )

      seed_defaults_lem :
          All (λ e. is_outdated defaults e ≡ false) defaults
          → (rows1 : List (ConfigParameter F)) × (seed_defaults defaults existing ≡ ok rows1)
            × IsUnique rows1
            × Keeps defaults existing rows1
            × All (HasRow rows1) defaults
      unfolding seed_defaults
      seed_defaults_lem kept =
          let start : Good defaults existing existing =
            (unique0, λ k d row one fresh. (row, one, refl)) in
          let (rows1, same1, good1) =
            delete_outdated-Good defaults existing existing existing start in
          let (rows2, same2, good2, grows, all_there) = seed_rows-Good defaults rows1 good1 kept in
          (rows2, rw same1 same2, good2.0, good2.1, all_there)

module _ {F : Type 0} ⦃numbers : Numbers F⦄ where
  abbrev is_current : List (ConfigParameter F) → ConfigParameter F → Bool
  is_current defaults e = not (is_outdated defaults e)

  build_defaults-current :
      (default_text : DynamicParam F → Text)
      → let defaults = build_defaults default_text in all (is_current defaults) defaults ≡ true
  unfolding build_defaults dynamic_params
  build_defaults-current default_text = refl

  all-current :
      (defaults todo : List (ConfigParameter F))
      → all (is_current defaults) todo ≡ true
      → All (λ e. is_outdated defaults e ≡ false) todo
  all-current defaults [] h = tt
  all-current defaults (e ∷ todo) h =
      let (now, later) = and-true (is_current defaults e) (all (is_current defaults) todo) h in
      (ground (arith, now), all-current defaults todo later)

  -- Seeding a table that has each pair of a key and a domain once succeeds and leaves such a table.
  -- Every row from before keeps its value, but for the global rows of keys that are now declared of
  -- domains, and every declared parameter has a row.
  pub seed_config_defaults_lem :
      (default_text : DynamicParam F → Text) (existing : List (ConfigParameter F))
      → IsUnique existing
      → (rows1 : List (ConfigParameter F)) × (seed_config_defaults default_text existing ≡ ok rows1)
        × IsUnique rows1
        × Keeps (build_defaults default_text) existing rows1
        × All (HasRow rows1) (build_defaults default_text)
  unfolding seed_config_defaults
  seed_config_defaults_lem default_text existing unique =
      let defaults = build_defaults default_text in
      seed_defaults_lem defaults existing unique
        (all-current defaults defaults (build_defaults-current default_text))
