-- ===== src/Acts/Cover.antt =====
-- The days that the versions of a timeline cover, by their half-open intervals.
use rag_assistant.Prelude.{ℕ, ◌+◌, Bool, ◌&&◌, List, [], ◌∷◌, ◌++◌, ◌≡◌, arith, if◌then◌else◌}
use rag_assistant.Acts.{ActVersion, starts_by, ends_after}

abbrev pub covers : ActVersion → ℕ → Bool
covers v t = starts_by v.effective_from t && ends_after v.effective_to t

-- How many elements pass a test.
unfoldable pub count_if {ℓ} : {A : Type ℓ} → (A → Bool) → List A → ℕ
count_if p [] = 0
count_if p (x ∷ xs) = (if p x then 1 else 0) + count_if p xs

pub count_if-append {ℓ} :
    {A : Type ℓ} (p : A → Bool) (xs ys : List A)
    → count_if p (xs ++ ys) ≡ count_if p xs + count_if p ys
unfolding count_if
count_if-append p [] ys = omega arith
count_if-append p (x ∷ xs) ys = omega (arith, count_if-append p xs ys)

-- How many versions are in force on a day, and how many are flagged current.
abbrev pub in_force_on : ℕ → List ActVersion → ℕ
in_force_on t = count_if (λ v. covers v t)

abbrev pub current_flags : List ActVersion → ℕ
current_flags = count_if (λ v. v.is_current)
