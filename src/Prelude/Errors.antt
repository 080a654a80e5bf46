-- ===== src/Prelude/Errors.antt =====
-- domain/shared/exceptions.py: the client errors that the modelled code raises, and results of code that
-- may raise. `integrity_error` is what the database raises when a write breaks a unique index,
-- `multiple_results_found` when a statement that expects at most one row finds several. Only the class
-- of an exception is kept; its message is text for people.
use mathlib.Core.Path.{◌≡◌, refl}
use mathlib.Core.Bool.{Bool, true, false}
use mathlib.Core.Logic.{◌⊎◌, inl, inr}

pub data AppError : Type 0 where
  validation_error business_rule_violation entity_not_found : AppError
  budget_error runtime_error llm_unavailable integrity_error : AppError
  value_error multiple_results_found : AppError

pub data Result {ℓ} (A : Type ℓ) : Type ℓ where
  ok : A → Result A
  err : AppError → Result A

infixl 12 ◌>>=◌
abbrev pub ◌>>=◌ {κ ℓ} : {B : Type κ} {A : Type ℓ} → Result A → (A → Result B) → Result B
err reason >>= next = err reason
ok value >>= next = next value

infixl 12 ◌>>◌
abbrev pub ◌>>◌ {κ} : {B : Type κ} → Result (Unit {0}) → Result B → Result B
step >> next = step >>= (λ done. next)

-- To split on a computed result and keep the equation.
pub Result-cases {ℓ} :
    {A : Type ℓ} (r : Result A) → ((a : A) × (r ≡ ok a)) ⊎ ((e : AppError) × (r ≡ err e))
Result-cases (ok a) = inl (a, refl)
Result-cases (err e) = inr (e, refl)

-- A chain that ends well: what its first step returned, that the rest went on from there, and that
-- the step returned it.
pub >>=-inversion {ℓ κ} :
    {A : Type ℓ} {B : Type κ} {out : B} (step : Result A) (next : A → Result B)
    → step >>= next ≡ ok out
    → (value : A) × (next value ≡ ok out) × (step ≡ ok value)
>>=-inversion (err reason) next chain = cc
>>=-inversion (ok value) next chain = (value, chain, refl)

pub ok-injective {ℓ} : {A : Type ℓ} {a b : A} → ok a ≡ ok b → a ≡ b
ok-injective h = cc

-- A result that satisfies a predicate, or an error that is not of the database's unique index.
abbrev pub is_integrity_error : AppError → Bool
is_integrity_error integrity_error = true
is_integrity_error _ = false

abbrev pub Safely {ℓ} : {A : Type ℓ} → (A → Type 0) → Result A → Type 0
Safely P (ok a) = P a
Safely P (err e) = is_integrity_error e ≡ false

pub Safely-bind {ℓ κ} :
    {A : Type ℓ} {B : Type κ} (P : A → Type 0) (Q : B → Type 0) (step : Result A)
    (next : A → Result B)
    → Safely P step
    → ((a : A) → P a → Safely Q (next a))
    → Safely Q (step >>= next)
Safely-bind P Q (ok a) next h k = k a h
Safely-bind P Q (err e) next h k = h

pub Safely-weaken {ℓ} :
    {A : Type ℓ} (P Q : A → Type 0) (r : Result A) → ((a : A) → P a → Q a) → Safely P r → Safely Q r
Safely-weaken P Q (ok a) k h = k a h
Safely-weaken P Q (err e) k h = h

-- A value that a safe step returns, with the equation.
pub Safely-found {ℓ} :
    {A : Type ℓ} (P : A → Type 0) (r : Result A)
    → Safely P r
    → ((a : A) × (r ≡ ok a) × P a) ⊎ ((e : AppError) × (r ≡ err e) × (is_integrity_error e ≡ false))
Safely-found P (ok a) h = inl (a, refl, h)
Safely-found P (err e) h = inr (e, refl, h)
