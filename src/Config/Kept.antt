-- ===== src/Config/Kept.antt =====
-- server/app/infrastructure/initialization.py: the rows that the seeds keep, and the deletion of the
-- outdated ones.
use rag_assistant.Prelude.{
  Bool-cases, List, Option, [], and-true, arith, false, inl, inr, is_none, length, none, nonempty,
  ok, refl, some, sym, true, ◌∙◌, ◌∷◌, ◌≡◌, ◌≤◌,
}
use mathlib.Core.Bool.{false≢true}
use rag_assistant.Config.Text.{Text}
use rag_assistant.Config.Parameter.{ConfigParameter}
use rag_assistant.Config.Rows.{is_row-same, only_row}
use rag_assistant.Config.Seeding.{is_outdated, in_domain_keys, delete_outdated, find_row}
use rag_assistant.Config.Writes.{
  same_pair, same_pair-eq, rows_of, IsUnique, Rest, Rest-IsUnique, delete_by_key_and_domain_lem,
}

pub single :
    {A : Type 0} (found : List A)
    → length found ≤ 1
    → nonempty found ≡ true
    → (a : A) × (found ≡ a ∷ [])
single [] one h = cc
single (a ∷ []) one h = (a, refl)
single (a ∷ b ∷ found) one h = absurd (omega arith)

module _ {F : Type 0} where
  abbrev pub HasRow : List (ConfigParameter F) → ConfigParameter F → Type 0
  HasRow rows e = nonempty (rows_of e.key e.domain_key rows) ≡ true

  abbrev pub Grows : (rows rows1 : List (ConfigParameter F)) → Type 0
  Grows rows rows1 =
      (k : Text) (d : Option Text)
      → nonempty (rows_of k d rows) ≡ true
      → nonempty (rows_of k d rows1) ≡ true

  pub find_row-none :
      (key : Text) (domain_key : Option Text) (rows : List (ConfigParameter F))
      → find_row key domain_key rows ≡ none
      → rows_of key domain_key rows ≡ []
  find_row-none key domain_key [] h = refl
  find_row-none key domain_key (r ∷ rows) h = ground (arith, find_row-none key domain_key rows, h)

  pub find_row-some :
      (key : Text) (domain_key : Option Text) (rows : List (ConfigParameter F))
      (p : ConfigParameter F)
      → find_row key domain_key rows ≡ some p
      → nonempty (rows_of key domain_key rows) ≡ true
  find_row-some key domain_key [] p h = cc
  find_row-some key domain_key (r ∷ rows) p h =
      ground (arith, find_row-some key domain_key rows p, h)

  module _ (defaults existing : List (ConfigParameter F)) where
    -- Every row from before that is not outdated is still the one row of its pair, with its value.
    abbrev pub Keeps : List (ConfigParameter F) → Type 0
    Keeps rows =
        (k : Text) (d : Option Text) (row : ConfigParameter F)
        → rows_of k d existing ≡ row ∷ []
        → is_outdated defaults row ≡ false
        → (r : ConfigParameter F) × (rows_of k d rows ≡ r ∷ []) × (r.value ≡ row.value)

    abbrev pub Good : List (ConfigParameter F) → Type 0
    Good rows = IsUnique rows × Keeps rows

    outdated_pair :
        (row row0 : ConfigParameter F) (k : Text) (d : Option Text)
        → is_outdated defaults row ≡ true
        → same_pair row.key none k d ≡ true
        → rows_of k d existing ≡ row0 ∷ []
        → is_outdated defaults row0 ≡ true
    outdated_pair row row0 k d out same one =
        let (e, f) = same_pair-eq row.key k none d same in
        let (g, h) = is_row-same k d row0 (only_row k d existing row0 one) in
        rw (g, h, ← e, ← f)
          ((and-true (is_none row.domain_key) (in_domain_keys defaults row.key) out).1)

    deleted-Keeps :
        (row : ConfigParameter F) (rows rows1 : List (ConfigParameter F))
        → is_outdated defaults row ≡ true
        → Rest row.key none rows rows1
        → Keeps rows
        → Keeps rows1
    deleted-Keeps row rows rows1 out rest keeps k d row0 one kept =
        elim (Bool-cases (same_pair row.key none k d)) [
          | inl same ↦ absurd (false≢true (sym kept ∙ outdated_pair row row0 k d out same one))
          | inr other ↦ rw (rest k d other) (keeps k d row0 one kept)
        ]

    pub delete_outdated-Good :
        (todo rows : List (ConfigParameter F))
        → Good rows
        → (rows1 : List (ConfigParameter F)) × (delete_outdated defaults todo rows ≡ ok rows1)
          × Good rows1
    unfolding delete_outdated
    delete_outdated-Good [] rows good = (rows, refl, good)
    delete_outdated-Good (row ∷ todo) rows (unique, keeps) =
        elim (Bool-cases (is_outdated defaults row)) [
          | inl out ↦
              let (rows1, e, rest, gone) = delete_by_key_and_domain_lem row.key none rows unique in
              let unique1 =
                Rest-IsUnique row.key none rows rows1 unique rest (rw gone (omega arith)) in
              let (rows2, e2, good) =
                delete_outdated-Good todo rows1
                  (unique1, deleted-Keeps row rows rows1 out rest keeps) in
              (rows2, rw (out, e) e2, good)
          | inr fresh ↦
              let (rows2, e2, good) = delete_outdated-Good todo rows (unique, keeps) in
              (rows2, rw fresh e2, good)
        ]
