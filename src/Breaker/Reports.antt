-- ===== src/Breaker/Reports.antt =====
-- Reports of circuit_breaker.py one at a time: the invariant, and when the breaker trips.
use rag_assistant.Prelude.{ℕ, ◌+◌, ◌≤◌, ◌<◌, List, [], ◌∷◌, ◌≡◌, ◌≢◌, arith, length, ap, ◌∙◌}
use rag_assistant.Breaker.{
  Breaker, closed, opened, half_open, new_breaker, report_success, report_failure,
}

-- Between reports the breaker is closed, with fewer failures than its limit, or open, with at least
-- as many; it is never left half-open.
pub record IsValid (b : Breaker) : Type 0 where
  pub positive : 0 < b.fail_max
  pub settled : b.state ≢ half_open
  pub below_limit : b.state ≡ closed → b.failure_count < b.fail_max
  pub at_limit : b.state ≡ opened → b.fail_max ≤ b.failure_count

-- A report, with the readings of the clock that it makes.
pub data Report : Type 0 where
  success : ℕ → Report
  failure : ℕ → ℕ → Report

abbrev pub apply_report : Report → Breaker → Breaker
apply_report (success now) b = report_success now b
apply_report (failure now later) b = report_failure now later b

unfoldable pub apply_reports : List Report → Breaker → Breaker
apply_reports [] b = b
apply_reports (r ∷ rs) b = apply_reports rs (apply_report r b)

pub report_success-IsValid : (now : ℕ) {b : Breaker} → IsValid b → IsValid (report_success now b)
unfolding report_success
report_success-IsValid now v = ground arith

pub report_failure-IsValid :
    (now later : ℕ) {b : Breaker} → IsValid b → IsValid (report_failure now later b)
unfolding report_failure
report_failure-IsValid now later v = ground arith

apply_report-IsValid : (r : Report) {b : Breaker} → IsValid b → IsValid (apply_report r b)
apply_report-IsValid (success now) v = report_success-IsValid now v
apply_report-IsValid (failure now later) v = report_failure-IsValid now later v

apply_reports-IsValid : (rs : List Report) {b : Breaker} → IsValid b → IsValid (apply_reports rs b)
unfolding apply_reports
apply_reports-IsValid [] v = v
apply_reports-IsValid (r ∷ rs) v = apply_reports-IsValid rs (apply_report-IsValid r v)

new_breaker-IsValid : (fail_max timeout : ℕ) → 0 < fail_max → IsValid (new_breaker fail_max timeout)
unfolding new_breaker
new_breaker-IsValid fail_max timeout h = ground arith

-- From a new breaker with a positive limit, after any reports at any times, the breaker is closed
-- with fewer failures counted than the limit, or open with at least as many, and never half-open.
pub new_breaker-reports-IsValid :
    (fail_max timeout : ℕ) (rs : List Report)
    → 0 < fail_max
    → IsValid (apply_reports rs (new_breaker fail_max timeout))
new_breaker-reports-IsValid fail_max timeout rs h =
    apply_reports-IsValid rs (new_breaker-IsValid fail_max timeout h)

-- Consecutive failures, each with its two readings of the clock.
pub fail_times : List (ℕ × ℕ) → Breaker → Breaker
fail_times [] b = b
fail_times ((now, later) ∷ ts) b = fail_times ts (report_failure now later b)

fail_once :
    (now later : ℕ) (b : Breaker)
    → b.state ≡ closed
    → b.failure_count + 1 < b.fail_max
    → report_failure now later b ≡ record b { failure_count = b.failure_count + 1 }
unfolding report_failure
fail_once now later b c h = ground arith

-- A closed breaker stays closed and counts while its consecutive failures are below the limit.
pub fail_times-below :
    (ts : List (ℕ × ℕ)) (b : Breaker)
    → b.state ≡ closed
    → b.failure_count + length ts < b.fail_max
    → fail_times ts b ≡ record b { failure_count = b.failure_count + length ts }
unfolding fail_times
fail_times-below [] b c h = ground arith
fail_times-below ((now, later) ∷ ts) b c h =
    let b' = record b { failure_count = b.failure_count + 1 } in
    rw (fail_once now later b c (omega arith)) (
      fail_times-below ts b' c (omega arith)
      ∙ ap (λ (n : ℕ). record b { failure_count = n }) (omega arith))

-- The failure that reaches the limit opens a closed breaker and stamps it with the clock.
pub fail_times-trip :
    (ts : List (ℕ × ℕ)) (now later : ℕ) (b : Breaker)
    → b.state ≡ closed
    → b.failure_count + length ts + 1 ≡ b.fail_max
    → let b' = report_failure now later (fail_times ts b) in
      (b'.state ≡ opened) × (b'.opened_at ≡ later)
unfolding report_failure
fail_times-trip ts now later b c h = rw (fail_times-below ts b c (omega arith)) (ground arith)
