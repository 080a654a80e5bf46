-- ===== src/Context/Groups.antt =====
-- server/app/infrastructure/ml/rag/rag_postprocess.py: the dictionaries of lists that it builds.
use rag_assistant.Prelude.{
  ==_iff, All, Bool, Bool-cases, List, [], arith, false, if◌then◌else◌, inl, inr, nonempty, refl,
  select, subst, sym, true, ℕ, ◌++◌, ◌==◌, ◌||◌, ◌∙◌, ◌∷◌, ◌≡◌, append_nil, append_assoc,
}
use mathlib.Core.Bool.{false≢true}
use rag_assistant.Context.Temporal.{add_to, group_by}

module _ {A : Type 0} where
  abbrev pub group_of : ℕ → List (ℕ × List A) → List A
  group_of key [] = []
  group_of key ((k, xs) ∷ groups) = let rest = group_of key groups in if k == key then xs else rest

  abbrev pub has_key : ℕ → List (ℕ × List A) → Bool
  has_key key [] = false
  has_key key ((k, xs) ∷ groups) = (k == key) || has_key key groups

  abbrev pub keyed : (A → ℕ) → ℕ → List A → List A
  keyed key k xs = select (λ x. key x == k) xs

  -- Every group is the elements with its key, in their order, and no key has two groups.
  abbrev pub IsDictionary : List (ℕ × List A) → Type 0
  IsDictionary [] = Unit
  IsDictionary ((k, xs) ∷ groups) = (has_key k groups ≡ false) × IsDictionary groups

  group_of-add_to :
      (key k : ℕ) (x : A) (groups : List (ℕ × List A))
      → group_of k (add_to key x groups)
        ≡ (if key == k then group_of k groups ++ x ∷ [] else group_of k groups)
  unfolding add_to
  group_of-add_to key k x [] = ground arith
  group_of-add_to key k x ((j, xs) ∷ groups) = ground (arith, group_of-add_to key k x groups)

  has_key-add_to :
      (key k : ℕ) (x : A) (groups : List (ℕ × List A))
      → has_key k (add_to key x groups) ≡ ((key == k) || has_key k groups)
  unfolding add_to
  has_key-add_to key k x [] = ground arith
  has_key-add_to key k x ((j, xs) ∷ groups) = ground (arith, has_key-add_to key k x groups)

  add_to-IsDictionary :
      (key : ℕ) (x : A) (groups : List (ℕ × List A))
      → IsDictionary groups
      → IsDictionary (add_to key x groups)
  unfolding add_to
  add_to-IsDictionary key x [] h = (refl, tt)
  add_to-IsDictionary key x ((j, xs) ∷ groups) (new, rest) =
      ground
        (arith, new, rest, has_key-add_to key j x groups, add_to-IsDictionary key x groups rest)

  other_key :
      (k j : ℕ) (groups : List (ℕ × List A))
      → has_key k groups ≡ false
      → has_key j groups ≡ true
      → (k == j) ≡ false
  other_key k j groups new old = elim (Bool-cases (k == j)) [
    | inl same ↦ absurd (
        false≢true (sym new ∙ subst (λ l. has_key l groups ≡ true) (sym ((==_iff k j).0 same)) old))
    | inr other ↦ other
  ]

  -- The groups of a dictionary are what is found under their keys.
  pub found_groups :
      (f : ℕ → List A) (groups : List (ℕ × List A))
      → IsDictionary groups
      → ((k : ℕ) → has_key k groups ≡ true → group_of k groups ≡ f k)
      → All (λ (g : ℕ × List A). g.1 ≡ f g.0) groups
  found_groups f [] h found = tt
  found_groups f ((k, xs) ∷ groups) (new, rest) found =
      let self : (k == k) ≡ true = ground arith in
      (
        sym (rw self refl) ∙ found k (rw self refl),
        found_groups f groups rest λ j there.
            let other = other_key k j groups new there in
            sym (rw other refl) ∙ found j (rw other there),
      )

  module _ (key : A → ℕ) where
    pub group_of-group_by :
        (k : ℕ) (groups : List (ℕ × List A)) (xs : List A)
        → group_of k (group_by key groups xs) ≡ group_of k groups ++ keyed key k xs
    unfolding group_by
    group_of-group_by k groups [] = sym (append_nil (group_of k groups))
    group_of-group_by k groups (x ∷ xs) =
        group_of-group_by k (add_to (key x) x groups) xs
        ∙ rw (group_of-add_to (key x) k x groups) (elim (Bool-cases (key x == k)) [
          | inl same ↦ rw same (append_assoc (group_of k groups) (x ∷ []) (keyed key k xs))
          | inr other ↦ rw other refl
        ])

    pub has_key-group_by :
        (k : ℕ) (groups : List (ℕ × List A)) (xs : List A)
        → has_key k (group_by key groups xs) ≡ (has_key k groups || nonempty (keyed key k xs))
    unfolding group_by
    has_key-group_by k groups [] = ground arith
    has_key-group_by k groups (x ∷ xs) =
        ground (
          arith,
          has_key-group_by k (add_to (key x) x groups) xs,
          has_key-add_to (key x) k x groups,
        )

    pub group_by-IsDictionary :
        (groups : List (ℕ × List A)) (xs : List A)
        → IsDictionary groups
        → IsDictionary (group_by key groups xs)
    unfolding group_by
    group_by-IsDictionary groups [] h = h
    group_by-IsDictionary groups (x ∷ xs) h =
        group_by-IsDictionary (add_to (key x) x groups) xs (add_to-IsDictionary (key x) x groups h)
