-- ===== src/Prelude/Sets.antt =====
-- Python's `in` on a sequence of ids, and the union of two sets of ids. The program uses such a
-- union only for membership and for its truth, so the order of the elements is not modelled.
use Prim.Native.Nat.{ℕ}
use mathlib.Core.Path.{◌≡◌, refl}
use mathlib.Core.Bool.{Bool, true, false, ◌||◌}
use mathlib.Core.List.{List, [], ◌∷◌}
use mathlib.Core.Option.{Option, none, some}
use native.Mathlib.Omega.{arith}
use rag_assistant.Prelude.Tests.{◌==◌, if◌then◌else◌, Bool-cases}
use rag_assistant.Prelude.Lists.{nonempty}
use mathlib.Core.Logic.{inl, inr}

abbrev pub contains : ℕ → List ℕ → Bool
contains a [] = false
contains a (x ∷ xs) = a == x || contains a xs

-- `x is not None and x in xs`
abbrev pub contains_some : Option ℕ → List ℕ → Bool
contains_some none xs = false
contains_some (some a) xs = contains a xs

-- `set(xs) | set(ys)`, each element once
pub set_union : List ℕ → List ℕ → List ℕ
set_union [] [] = []
set_union [] (y ∷ ys) = let rest = set_union [] ys in if contains y rest then rest else y ∷ rest
set_union (x ∷ xs) ys = let rest = set_union xs ys in if contains x rest then rest else x ∷ rest

contains_same : (a x : ℕ) (xs : List ℕ) → (a == x) ≡ true → contains a xs ≡ contains x xs
contains_same a x [] h = refl
contains_same a x (y ∷ xs) h = ground (arith, contains_same a x xs h)

contains-insert :
    (a x : ℕ) (xs : List ℕ)
    → contains a (if contains x xs then xs else x ∷ xs) ≡ ((a == x) || contains a xs)
contains-insert a x xs = elim (Bool-cases (contains x xs)) [
  | inl old ↦ ground (arith, contains_same a x xs)
  | inr new ↦ rw new
]

pub contains-set_union :
    (a : ℕ) (xs ys : List ℕ) → contains a (set_union xs ys) ≡ (contains a xs || contains a ys)
unfolding set_union
contains-set_union a [] [] = refl
contains-set_union a [] (y ∷ ys) =
    ground (arith, contains-insert a y (set_union [] ys), contains-set_union a [] ys)
contains-set_union a (x ∷ xs) ys =
    ground (arith, contains-insert a x (set_union xs ys), contains-set_union a xs ys)

contains-nonempty : (a : ℕ) (xs : List ℕ) → contains a xs ≡ true → nonempty xs ≡ true
contains-nonempty a [] h = h
contains-nonempty a (x ∷ xs) h = refl

pub contains_some-nonempty :
    (o : Option ℕ) (xs : List ℕ) → contains_some o xs ≡ true → nonempty xs ≡ true
contains_some-nonempty none xs h = ground arith
contains_some-nonempty (some a) xs h = contains-nonempty a xs h

pub contains_some-set_union :
    (o : Option ℕ) (xs ys : List ℕ)
    → contains_some o (set_union xs ys) ≡ (contains_some o xs || contains_some o ys)
contains_some-set_union none xs ys = refl
contains_some-set_union (some a) xs ys = contains-set_union a xs ys
