-- ===== src/Retrieval/Stable.antt =====
-- What the two passes over provisions are, said without the set of provisions seen: the chunks
-- without an earlier one of their provision in their order, and then the others in theirs.
use rag_assistant.Prelude.{
  Bool, Bool-cases, List, Option, [], any, ap, arith, false, if◌then◌else◌, inl, inr, none, refl,
  some, true, ◌||◌, ◌∷◌, ◌≡◌, ◌∙◌,
}
use rag_assistant.Retrieval.{is_seen, note, two_passes}

module _ {A K : Type 0} (same : K → K → Bool) (key : A → Option K) where
  -- The two have a provision, and it is the same.
  abbrev pub shares : Option K → Option K → Bool
  shares (some j) (some k) = same k j
  shares _ _ = false

  abbrev pub repeats_one : (earlier : List A) → A → Bool
  repeats_one earlier x = any (λ e. shares (key e) (key x)) earlier

  -- Which of the elements have no earlier one of their provision, and which have; those in
  -- `earlier` come before the list.
  unfoldable pub leading : (earlier : List A) → List A → List A
  leading earlier [] = []
  leading earlier (x ∷ xs) =
      let rest = leading (x ∷ earlier) xs in if repeats_one earlier x then rest else x ∷ rest

  unfoldable pub repeating : (earlier : List A) → List A → List A
  repeating earlier [] = []
  repeating earlier (x ∷ xs) =
      let rest = repeating (x ∷ earlier) xs in if repeats_one earlier x then x ∷ rest else rest

  abbrev IsTransitive : Type 0
  IsTransitive = (i j k : K) → same i j ≡ true → same j k ≡ true → same i k ≡ true

  -- The provisions seen stand for the elements before.
  abbrev Stands : List K → List A → Type 0
  Stands seen earlier =
      (k : Option K) → is_seen same key seen k ≡ any (λ e. shares (key e) k) earlier

  any_seen :
      (trans : IsTransitive) (seen : List K) (j k : K)
      → same k j ≡ true
      → any (same j) seen ≡ true
      → any (same k) seen ≡ true
  any_seen trans [] j k h there = there
  any_seen trans (i ∷ seen) j k h there = elim (Bool-cases (same j i)) [
    | inl hit ↦ rw (trans k j i h hit) refl
    | inr miss ↦
        let below : any (same j) seen ≡ true = ground arith in
        let found = any_seen trans seen j k h below in ground arith
  ]

  noted :
      (trans : IsTransitive) (seen : List K) (j k : K)
      → is_seen same key (note same key seen (some j)) (some k) ≡ (same k j || any (same k) seen)
  noted trans seen j k = elim (Bool-cases (any (same j) seen)) [
    | inr new ↦ rw new refl
    | inl old ↦ rw old (elim (Bool-cases (same k j)) [
      | inr apart ↦ rw apart refl
      | inl one ↦ rw (one, any_seen trans seen j k one old) refl
    ])
  ]

  note-Stands :
      (trans : IsTransitive) (seen : List K) (earlier : List A) (x : A)
      → Stands seen earlier
      → Stands (note same key seen (key x)) (x ∷ earlier)
  note-Stands trans seen earlier x v = at (key x)
    where
      at :
          (o : Option K) (k : Option K)
          → is_seen same key (note same key seen o) k
            ≡ (shares o k || any (λ e. shares (key e) k) earlier)
      at none none = v none
      at none (some k) = v (some k)
      at (some j) none = v none
      at (some j) (some k) = noted trans seen j k ∙ ap (λ b. same k j || b) (v (some k))

  pub two_passes-first :
      (trans : IsTransitive) (seen : List K) (earlier : List A) (xs : List A)
      → Stands seen earlier
      → (two_passes same key seen xs).0 ≡ leading earlier xs
  unfolding two_passes leading
  two_passes-first trans seen earlier [] v = refl
  two_passes-first trans seen earlier (x ∷ xs) v =
      let below =
        two_passes-first trans (note same key seen (key x)) (x ∷ earlier) xs
          (note-Stands trans seen earlier x v) in
      rw (v (key x)) (elim (Bool-cases (repeats_one earlier x)) [
        | inl old ↦ rw old below
        | inr new ↦ rw new (ap (λ l. x ∷ l) below)
      ])

  pub two_passes-second :
      (trans : IsTransitive) (seen : List K) (earlier : List A) (xs : List A)
      → Stands seen earlier
      → (two_passes same key seen xs).1 ≡ repeating earlier xs
  unfolding two_passes repeating
  two_passes-second trans seen earlier [] v = refl
  two_passes-second trans seen earlier (x ∷ xs) v =
      let below =
        two_passes-second trans (note same key seen (key x)) (x ∷ earlier) xs
          (note-Stands trans seen earlier x v) in
      rw (v (key x)) (elim (Bool-cases (repeats_one earlier x)) [
        | inl old ↦ rw old (ap (λ l. x ∷ l) below)
        | inr new ↦ rw new below
      ])

  pub nothing_seen : Stands [] []
  nothing_seen none = refl
  nothing_seen (some k) = refl
