-- ===== src/Breaker/Tests.antt =====
-- A breaker with a limit of two failures and a timeout of 30, and the theorems applied to it.
use rag_assistant.Prelude.{ℕ, ◌≡◌, refl, List, [], ◌∷◌, err, llm_unavailable, runtime_error, arith}
use rag_assistant.Breaker.{Breaker, closed, opened, new_breaker, call, returned, raised, Outcome}
use rag_assistant.Breaker.Reports.{
  IsValid, Report, success, failure, apply_reports, new_breaker-reports-IsValid,
}
use rag_assistant.Breaker.Window.{call-rejected}

abbrev fresh : Breaker
fresh = record {
  fail_max = 2;
  timeout_duration = 30;
  state = closed;
  failure_count = 0;
  opened_at = 0;
}

abbrev tripped : Breaker
tripped = record {
  fail_max = 2;
  timeout_duration = 30;
  state = opened;
  failure_count = 2;
  opened_at = 7;
}

abbrev five : Outcome ℕ
five = returned 5

abbrev failing : Outcome ℕ
failing = raised runtime_error

abbrev late : List Report
late = success 9 ∷ failure 12 12 ∷ []

new_breaker-reports-IsValid_example : IsValid (apply_reports late (new_breaker 2 30))
new_breaker-reports-IsValid_example = new_breaker-reports-IsValid 2 30 late (omega arith)

call-rejected_example :
    call 36 (λ b. b) five 37 37 (apply_reports late tripped)
    ≡ (err llm_unavailable, apply_reports late tripped)
call-rejected_example =
    call-rejected tripped late 36 37 37 (λ b. b) five refl (omega arith) (omega arith)

tripped-IsValid : IsValid tripped
tripped-IsValid = ground arith
