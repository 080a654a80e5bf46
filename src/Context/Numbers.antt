-- ===== src/Context/Numbers.antt =====
-- The arithmetic of floating point numbers that the selection of the context uses, as an interface,
-- and counts of the elements of a list.
use rag_assistant.Prelude.{Bool, List, [], arith, false, length, true, ℕ, ◌++◌, ◌+◌, ◌∷◌, ◌≡◌}

-- `ratio` is `/` of
-- two `int`s, `divide` that by an `int`, `sum` the function of that name, and `weight` is `CONTEXT_COVERAGE_WEIGHT`.
pub record Floats (F : Type 0) : Type 0 where
  pub zero_float : F
  pub weight : F
  pub ratio : ℕ → ℕ → F
  pub sum : List F → F
  pub add : F → F → F
  pub sub : F → F → F
  pub mul : F → F → F
  pub divide : F → ℕ → F
  pub less : F → F → Bool

abbrev pub bit : Bool → ℕ
bit true = 1
bit false = 0

-- The number of elements that satisfy a test.
abbrev pub count {ℓ} : {A : Type ℓ} → (A → Bool) → List A → ℕ
count p [] = 0
count p (x ∷ xs) = bit (p x) + count p xs

pub count-append {ℓ} :
    {A : Type ℓ} (p : A → Bool) (xs ys : List A) → count p (xs ++ ys) ≡ count p xs + count p ys
count-append p [] ys = omega arith
count-append p (x ∷ xs) ys = omega (arith, count-append p xs ys)

pub length-append {ℓ} : {A : Type ℓ} (xs ys : List A) → length (xs ++ ys) ≡ length xs + length ys
length-append [] ys = omega arith
length-append (x ∷ xs) ys = omega (arith, length-append xs ys)
