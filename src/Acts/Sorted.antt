-- ===== src/Acts/Sorted.antt =====
-- What a sort keeps, and the order that `changed_versions` writes in.
use rag_assistant.Prelude.{
  Bool, Bool-cases, List, [], all, any, arith, if◌then◌else◌, inl, inr, not, refl, select, true,
  ◌++◌, ◌+◌, ◌||◌, ◌∙◌, ◌∷◌, ◌≡◌, ap, All, ◌&&◌,
}
use rag_assistant.Acts.{ActVersion}
use rag_assistant.Acts.Sort.{sort, insert_sorted}
use rag_assistant.Acts.Cover.{count_if}
use rag_assistant.Acts.Changes.{current_le}

module _ {A : Type 0} (le : A → A → Bool) where
  any-insert_sorted :
      (p : A → Bool) (x : A) (xs : List A) → any p (insert_sorted le x xs) ≡ (p x || any p xs)
  unfolding insert_sorted
  any-insert_sorted p x [] = refl
  any-insert_sorted p x (y ∷ ys) = ground (arith, any-insert_sorted p x ys)

  pub any-sort : (p : A → Bool) (xs : List A) → any p (sort le xs) ≡ any p xs
  unfolding sort
  any-sort p [] = refl
  any-sort p (x ∷ xs) = any-insert_sorted p x (sort le xs) ∙ ap (λ b. p x || b) (any-sort p xs)

  count_if-insert_sorted :
      (p : A → Bool) (x : A) (xs : List A)
      → count_if p (insert_sorted le x xs) ≡ count_if p (x ∷ xs)
  unfolding insert_sorted count_if
  count_if-insert_sorted p x [] = refl
  count_if-insert_sorted p x (y ∷ ys) = ground (arith, count_if-insert_sorted p x ys)

  pub count_if-sort : (p : A → Bool) (xs : List A) → count_if p (sort le xs) ≡ count_if p xs
  unfolding sort count_if
  count_if-sort p [] = refl
  count_if-sort p (x ∷ xs) =
      count_if-insert_sorted p x (sort le xs)
      ∙ ap (λ n. (if p x then 1 else 0) + n) (count_if-sort p xs)

  all-insert_sorted :
      (p : A → Bool) (x : A) (xs : List A) → all p (insert_sorted le x xs) ≡ (p x && all p xs)
  unfolding insert_sorted
  all-insert_sorted p x [] = refl
  all-insert_sorted p x (y ∷ ys) = ground (arith, all-insert_sorted p x ys)

  pub all-sort : (p : A → Bool) (xs : List A) → all p (sort le xs) ≡ all p xs
  unfolding sort
  all-sort p [] = refl
  all-sort p (x ∷ xs) = all-insert_sorted p x (sort le xs) ∙ ap (λ b. p x && b) (all-sort p xs)

  All-insert_sorted :
      (P : A → Type 0) (x : A) (xs : List A) → P x → All P xs → All P (insert_sorted le x xs)
  unfolding insert_sorted
  All-insert_sorted P x [] p ps = (p, tt)
  All-insert_sorted P x (y ∷ ys) p ps = elim (Bool-cases (le x y)) [
    | inl first ↦ rw first (p, ps)
    | inr later ↦ rw later (ps.0, All-insert_sorted P x ys p ps.1)
  ]

  pub All-sort : (P : A → Type 0) (xs : List A) → All P xs → All P (sort le xs)
  unfolding sort
  All-sort P [] ps = tt
  All-sort P (x ∷ xs) ps = All-insert_sorted P x (sort le xs) ps.0 (All-sort P xs ps.1)

abbrev pub is_noncurrent : ActVersion → Bool
is_noncurrent v = not v.is_current

abbrev pub is_flagged : ActVersion → Bool
is_flagged v = v.is_current

insert_sorted-current :
    (v : ActVersion) (ds us : List ActVersion)
    → all is_noncurrent ds ≡ true
    → all is_flagged us ≡ true
    → insert_sorted current_le v (ds ++ us) ≡ (if v.is_current then ds ++ v ∷ us else v ∷ ds ++ us)
unfolding insert_sorted
insert_sorted-current v [] [] h k = ground arith
insert_sorted-current v [] (u ∷ us) h k = ground arith
insert_sorted-current v (d ∷ ds) us h k = ground (arith, insert_sorted-current v ds us)

all-select : (p : ActVersion → Bool) (vs : List ActVersion) → all p (select p vs) ≡ true
all-select p [] = refl
all-select p (v ∷ vs) = ground (arith, all-select p vs)

-- Demotions come first.
pub sort-current :
    (vs : List ActVersion) → sort current_le vs ≡ select is_noncurrent vs ++ select is_flagged vs
unfolding sort
sort-current [] = refl
sort-current (v ∷ vs) =
    ap (insert_sorted current_le v) (sort-current vs)
    ∙ insert_sorted-current v (select is_noncurrent vs) (select is_flagged vs)
        (all-select is_noncurrent vs) (all-select is_flagged vs)
    ∙ elim (Bool-cases v.is_current) [ inl now ↦ rw now refl | inr past ↦ rw past refl ]

pub select-swap :
    (p q : ActVersion → Bool) (vs : List ActVersion)
    → select p (select q vs) ≡ select q (select p vs)
select-swap p q [] = refl
select-swap p q (v ∷ vs) = ground (arith, select-swap p q vs)
