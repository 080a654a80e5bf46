-- ===== src/Breaker/Calls.antt =====
-- The wrapper `call` of circuit_breaker.py, on every branch.
use rag_assistant.Prelude.{ℕ, ◌+◌, ◌≤◌, ◌≡◌, arith, ok, err, llm_unavailable, AppError, Result}
use rag_assistant.Breaker.{
  Breaker, opened, closed, check_open, call, finish, proceed, Outcome, returned, raised, broken,
}
use rag_assistant.Breaker.Reports.{IsValid, report_success-IsValid, report_failure-IsValid}

-- The probe: the first call after the timeout of an open breaker, with no other call meanwhile,
-- runs the function and returns its outcome. A result closes the breaker and clears its count; an
-- exception reopens it and restarts the timeout; a nested breaker error leaves it as it was.
pub call_probe :
    {A : Type 0} (before now later : ℕ) (a : A) (e : AppError) (b : Breaker)
    → b.state ≡ opened
    → b.opened_at + b.timeout_duration ≤ before
    → before ≤ now
    → (call before (λ x. x) (returned a) now later b
        ≡ (ok a, record b { state = closed; failure_count = 0 }))
      × (call {A = A} before (λ x. x) (raised e) now later b
          ≡ (err e, record b { state = opened; opened_at = later }))
      × (call {A = A} before (λ x. x) broken now later b ≡ (err llm_unavailable, b))
unfolding call
call_probe before now later a e b o h k = ground arith

finish-IsValid :
    {A : Type 0} (outcome : Outcome A) (now later : ℕ) {b : Breaker}
    → IsValid b
    → IsValid (finish outcome now later b).1
finish-IsValid (returned a) now later v = report_success-IsValid now v
finish-IsValid (raised e) now later v = report_failure-IsValid now later v
finish-IsValid broken now later v = v

proceed-IsValid :
    {A : Type 0} (checked : Result (Unit {0})) (now later : ℕ) (during : Breaker → Breaker)
    (outcome : Outcome A) (b : Breaker)
    → ((c : Breaker) → IsValid c → IsValid (during c))
    → IsValid b
    → IsValid (proceed checked during outcome now later b).1
proceed-IsValid (ok u) now later during outcome b keep v =
    finish-IsValid outcome now later (keep b v)
proceed-IsValid (err e) now later during outcome b keep v = v

-- Whatever the function does, and whatever other calls do meanwhile as long as they keep the
-- breaker valid, a call keeps it valid.
pub call-IsValid :
    {A : Type 0} (before now later : ℕ) (during : Breaker → Breaker) (outcome : Outcome A)
    (b : Breaker)
    → ((c : Breaker) → IsValid c → IsValid (during c))
    → IsValid b
    → IsValid (call before during outcome now later b).1
unfolding call
call-IsValid before now later during outcome b keep v =
    proceed-IsValid (check_open before b) now later during outcome b keep v
