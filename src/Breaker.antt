-- ===== src/Breaker.antt =====
-- server/app/infrastructure/resilience/circuit_breaker.py: the breaker, its registry, and what a
-- caller does with it. Times are readings of the monotonic clock, which each operation is given;
-- metrics and logs are left out. The lock of the source makes each report one step.
pub mod Reports
pub mod Window
pub mod Calls
pub mod Registry
mod Tests
use rag_assistant.Prelude.{
  ℕ, ◌+◌, ◌≤◌, Bool, true, false, Option, none, some, List, Result, ok, err, llm_unavailable, leb,
  ltb, ◌-◌, if◌then◌else◌, AppError,
}

pub data CbState : Type 0 where
  closed opened half_open : CbState

pub record Breaker : Type 0 where
  pub fail_max : ℕ
  pub timeout_duration : ℕ
  pub state : CbState
  pub failure_count : ℕ
  pub opened_at : ℕ

-- `LLMCircuitBreaker.__init__`
unfoldable pub new_breaker : ℕ → ℕ → Breaker
new_breaker fail_max timeout = record {
  fail_max = fail_max;
  timeout_duration = timeout;
  state = closed;
  failure_count = 0;
  opened_at = 0;
}

-- `time.monotonic() - self._opened_at >= self._timeout_duration`, with the subtraction moved over.
abbrev pub is_expired : ℕ → Breaker → Bool
is_expired now b = leb (b.opened_at + b.timeout_duration) now

-- `check_open`, by the state: it changes nothing, and raises or returns.
abbrev answer_in_state : CbState → Bool → Result (Unit {0})
answer_in_state opened false = err llm_unavailable
answer_in_state _ expired = ok tt

pub check_open : ℕ → Breaker → Result (Unit {0})
check_open now b = answer_in_state b.state (is_expired now b)

abbrev transition : CbState → Bool → CbState
transition opened true = half_open
transition s expired = s

-- `_transition_to_half_open_if_needed`
pub transition_to_half_open_if_needed : ℕ → Breaker → Breaker
transition_to_half_open_if_needed now b = record b { state = transition b.state (is_expired now b) }

abbrev settle_success : CbState → Breaker → Breaker
settle_success half_open b = record b { state = closed; failure_count = 0 }
settle_success closed b = record b { failure_count = 0 }
settle_success opened b = b

pub report_success : ℕ → Breaker → Breaker
unfolding transition_to_half_open_if_needed
report_success now b =
    let b' = transition_to_half_open_if_needed now b in settle_success b'.state b'

-- The `else` branch of `report_failure`.
abbrev count_failure : ℕ → Breaker → Breaker
count_failure now b =
    if leb b.fail_max (b.failure_count + 1)
    then record b { failure_count = b.failure_count + 1; state = opened; opened_at = now }
    else record b { failure_count = b.failure_count + 1 }

abbrev settle_failure : CbState → ℕ → Breaker → Breaker
settle_failure half_open now b = record b { state = opened; opened_at = now }
settle_failure _ now b = count_failure now b

-- The clock is read once for the test of the timeout and once more for `_opened_at`.
pub report_failure : ℕ → ℕ → Breaker → Breaker
unfolding transition_to_half_open_if_needed
report_failure now later b =
    let b' = transition_to_half_open_if_needed now b in settle_failure b'.state later b'

-- How the awaited function ended: it returned, it raised, or it raised a `CircuitBreakerError`.
pub data Outcome (A : Type 0) : Type 0 where
  returned : A → Outcome A
  raised : AppError → Outcome A
  broken : Outcome A

-- `call`: the function runs without the lock, so other calls may change the breaker while it runs.
-- `during` is what they did; `before` and `after` are the clock at the check and at the report.
abbrev finish : {A : Type 0} → Outcome A → ℕ → ℕ → Breaker → Result A × Breaker
finish (returned a) now later b = (ok a, report_success now b)
finish (raised e) now later b = (err e, report_failure now later b)
finish broken now later b = (err llm_unavailable, b)

abbrev proceed :
    {A : Type 0}
    → Result (Unit {0})
    → (Breaker → Breaker)
    → Outcome A
    → ℕ
    → ℕ
    → Breaker
    → Result A × Breaker
proceed (ok _) during outcome now later b = finish outcome now later (during b)
proceed (err e) during outcome now later b = (err e, b)

pub call : {A : Type 0} → ℕ → (Breaker → Breaker) → Outcome A → ℕ → ℕ → Breaker → Result A × Breaker
unfolding check_open report_success report_failure
call before during outcome now later b = proceed (check_open before b) during outcome now later b
