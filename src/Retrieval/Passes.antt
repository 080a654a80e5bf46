-- ===== src/Retrieval/Passes.antt =====
-- The two passes of a list by a key that an element may have, as retrieval.py takes them.
use rag_assistant.Prelude.{
  All, Bool, Bool-cases, List, Option, [], arith, false, if◌then◌else◌, inl, inr, none, refl, some,
  suc, true, ℕ, ◌++◌, ◌+◌, ◌||◌, ◌∷◌, ◌≡◌, All-weaken,
}
use rag_assistant.Retrieval.{is_seen, note, two_passes}

-- How many elements of a list satisfy a test.
unfoldable pub count : {A : Type 0} → (A → Bool) → List A → ℕ
count p [] = 0
count p (x ∷ xs) = let n = count p xs in if p x then suc n else n

pub count-append :
    {A : Type 0} (p : A → Bool) (xs ys : List A) → count p (xs ++ ys) ≡ count p xs + count p ys
unfolding count
count-append p [] ys = omega arith
count-append p (x ∷ xs) ys = ground (arith, count-append p xs ys)

module _ {A K : Type 0} (same : K → K → Bool) (key : A → Option K) where
  pub count-two_passes :
      (p : A → Bool) (seen : List K) (xs : List A)
      → count p (two_passes same key seen xs).0 + count p (two_passes same key seen xs).1
        ≡ count p xs
  unfolding count two_passes
  count-two_passes p seen [] = omega arith
  count-two_passes p seen (x ∷ xs) =
      let below = count-two_passes p (note same key seen (key x)) xs in
      elim (Bool-cases (is_seen same key seen (key x))) [
        | inl old ↦ rw old (ground (arith, below))
        | inr new ↦ rw new (ground (arith, below))
      ]

  -- No element of a list belongs to the provision of an earlier one.
  abbrev pub IsLedOnce : List A → Type 0
  IsLedOnce [] = Unit
  IsLedOnce (x ∷ xs) =
      All (λ y. is_seen same key (note same key [] (key x)) (key y) ≡ false) xs × IsLedOnce xs

  abbrev prepend : Option K → List K → List K
  prepend none ps = ps
  prepend (some k) ps = k ∷ ps

  -- The provisions of a list.
  abbrev pub provisions : List A → List K
  provisions [] = []
  provisions (x ∷ xs) = prepend (key x) (provisions xs)

  is_seen-note :
      (seen : List K) (x y : Option K)
      → is_seen same key (note same key seen x) y ≡ false
      → is_seen same key seen y ≡ false
  is_seen-note seen none none g = refl
  is_seen-note seen none (some k) g = g
  is_seen-note seen (some j) none g = refl
  is_seen-note seen (some j) (some k) g = ground arith

  is_seen-note_new :
      (seen : List K) (x y : Option K)
      → is_seen same key seen x ≡ false
      → is_seen same key (note same key seen x) y ≡ false
      → is_seen same key (note same key [] x) y ≡ false
  is_seen-note_new seen none none h g = refl
  is_seen-note_new seen none (some k) h g = refl
  is_seen-note_new seen (some j) none h g = refl
  is_seen-note_new seen (some j) (some k) h g = ground arith

  first_unseen :
      (seen : List K) (xs : List A)
      → All (λ y. is_seen same key seen (key y) ≡ false) (two_passes same key seen xs).0
  unfolding two_passes
  first_unseen seen [] = tt
  first_unseen seen (x ∷ xs) =
      let below =
        All-weaken (λ y. is_seen same key (note same key seen (key x)) (key y) ≡ false)
          (λ y. is_seen same key seen (key y) ≡ false)
          (two_passes same key (note same key seen (key x)) xs).0
          (λ y g. is_seen-note seen (key x) (key y) g)
          (first_unseen (note same key seen (key x)) xs) in
      elim (Bool-cases (is_seen same key seen (key x))) [
        | inl old ↦ rw old below
        | inr new ↦ rw new (new, below)
      ]

  pub first-IsLedOnce : (seen : List K) (xs : List A) → IsLedOnce (two_passes same key seen xs).0
  unfolding two_passes
  first-IsLedOnce seen [] = tt
  first-IsLedOnce seen (x ∷ xs) =
      let later = note same key seen (key x) in
      let below = first-IsLedOnce later xs in
      elim (Bool-cases (is_seen same key seen (key x))) [
        | inl old ↦ rw old below
        | inr new ↦ rw new (
          All-weaken (λ y. is_seen same key later (key y) ≡ false)
              (λ y. is_seen same key (note same key [] (key x)) (key y) ≡ false)
              (two_passes same key later xs).0 (λ y g. is_seen-note_new seen (key x) (key y) new g)
              (first_unseen later xs),
          below,
        )
      ]

  is_seen-prepend :
      (seen ps : List K) (x y : Option K)
      → is_seen same key seen x ≡ false
      → (is_seen same key ps y || is_seen same key (note same key seen x) y) ≡ true
      → (is_seen same key (prepend x ps) y || is_seen same key seen y) ≡ true
  is_seen-prepend seen ps none y h g = g
  is_seen-prepend seen ps (some j) none h g = g
  is_seen-prepend seen ps (some j) (some k) h g = ground arith

  is_seen-note_old :
      (seen ps : List K) (x y : Option K)
      → is_seen same key seen x ≡ true
      → (is_seen same key ps y || is_seen same key (note same key seen x) y) ≡ true
      → (is_seen same key ps y || is_seen same key seen y) ≡ true
  is_seen-note_old seen ps none y h g = g
  is_seen-note_old seen ps (some j) y h g = ground arith

  pub remaining_seen :
      (seen : List K) (xs : List A)
      → let passes = two_passes same key seen xs in
        All
          (λ y.
            (is_seen same key (provisions passes.0) (key y) || is_seen same key seen (key y))
            ≡ true)
          passes.1
  unfolding two_passes
  remaining_seen seen [] = tt
  remaining_seen seen (x ∷ xs) =
      let later = note same key seen (key x) in
      let rest = two_passes same key later xs in
      let below = remaining_seen later xs in
      elim (Bool-cases (is_seen same key seen (key x))) [
        | inl old ↦ rw old (
          ground arith,
          All-weaken
              (λ y.
                (is_seen same key (provisions rest.0) (key y) || is_seen same key later (key y))
                ≡ true)
              (λ y.
                (is_seen same key (provisions rest.0) (key y) || is_seen same key seen (key y))
                ≡ true)
              rest.1 (λ y g. is_seen-note_old seen (provisions rest.0) (key x) (key y) old g) below,
        )
        | inr new ↦ rw new (
            All-weaken
              (λ y.
                (is_seen same key (provisions rest.0) (key y) || is_seen same key later (key y))
                ≡ true)
              (λ y.
                (is_seen same key (prepend (key x) (provisions rest.0)) (key y)
                  || is_seen same key seen (key y))
                ≡ true)
              rest.1 (λ y g. is_seen-prepend seen (provisions rest.0) (key x) (key y) new g) below)
      ]

  pub repeats :
      (ps : List K) (xs : List A)
      → All (λ y. (is_seen same key ps (key y) || is_seen same key [] (key y)) ≡ true) xs
      → All (λ y. is_seen same key ps (key y) ≡ true) xs
  repeats ps [] a = tt
  repeats ps (x ∷ xs) a = (strip (key x) a.0, repeats ps xs a.1)
    where
      strip :
          (y : Option K)
          → (is_seen same key ps y || is_seen same key [] y) ≡ true
          → is_seen same key ps y ≡ true
      strip none h = h
      strip (some k) h = ground arith
