-- ===== src/Breaker/Registry.antt =====
-- The registry of circuit_breaker.py: `_breakers`, `init_breakers` and `get_breaker`.
use rag_assistant.Prelude.{
  ℕ, String, ◌≡◌, ◌||◌, Option, none, some, List, [], ◌∷◌, arith, if◌then◌else◌,
}
use text.Mathlib.Text.{◌==◌}
use rag_assistant.Breaker.{Breaker, new_breaker}

abbrev pub Registry : Type 0
Registry = List (String × Breaker)

-- A missing name is a `KeyError`.
pub get_breaker : Registry → String → Option Breaker
get_breaker [] name = none
get_breaker ((n, b) ∷ breakers) name = if n == name then some b else get_breaker breakers name

-- The old registry is cleared.
pub init_breakers : ℕ → ℕ → Registry → Registry
init_breakers fail_max timeout breakers =
    ("llm_generate", new_breaker fail_max timeout)
    ∷ ("llm_auxiliary", new_breaker fail_max timeout)
    ∷ []

-- After initialisation, whatever the registry held, each of the two standard names has a fresh
-- breaker with the given limits, and no other name has one.
pub get_breaker-init_breakers :
    (fail_max timeout : ℕ) (breakers : Registry) (name : String)
    → get_breaker (init_breakers fail_max timeout breakers) name ≡ (
        if "llm_generate" == name || "llm_auxiliary" == name
        then some (new_breaker fail_max timeout)
        else none)
unfolding get_breaker init_breakers
get_breaker-init_breakers fail_max timeout breakers name = ground arith
