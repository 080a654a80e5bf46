-- ===== src/Breaker/Window.antt =====
-- While the timeout of circuit_breaker.py runs: an open breaker rejects, whatever is reported.
use rag_assistant.Prelude.{
  ℕ, ◌+◌, ◌≤◌, ◌<◌, List, [], ◌∷◌, ◌≡◌, arith, err, llm_unavailable, All, refl,
}
use rag_assistant.Breaker.{Breaker, opened, report_success, report_failure, call, Outcome}
use rag_assistant.Breaker.Reports.{Report, success, failure, apply_report, apply_reports}

-- The readings of a report lie in a window of the clock.
abbrev pub Within : ℕ → ℕ → Report → Type 0
Within start end (success now) = (start ≤ now) × (now < end)
Within start end (failure now later) = (now < end) × (start ≤ later)

-- The breaker is open, was opened no earlier than `start`, and its timeout is `span`.
pub record IsOpenSince (start span : ℕ) (b : Breaker) : Type 0 where
  pub is_open : b.state ≡ opened
  pub since : start ≤ b.opened_at
  pub timeout : b.timeout_duration ≡ span

apply_report-IsOpenSince :
    (start span : ℕ) (r : Report) {b : Breaker}
    → IsOpenSince start span b
    → Within start (start + span) r
    → IsOpenSince start span (apply_report r b)
unfolding report_success report_failure
apply_report-IsOpenSince start span (success now) v w = ground arith
apply_report-IsOpenSince start span (failure now later) v w = ground arith

apply_reports-IsOpenSince :
    (start span : ℕ) (rs : List Report) {b : Breaker}
    → IsOpenSince start span b
    → All (Within start (start + span)) rs
    → IsOpenSince start span (apply_reports rs b)
unfolding apply_reports
apply_reports-IsOpenSince start span [] v w = v
apply_reports-IsOpenSince start span (r ∷ rs) v w =
    apply_reports-IsOpenSince start span rs (apply_report-IsOpenSince start span r v w.0) w.1

call-IsOpenSince :
    {A : Type 0} (start span before now later : ℕ) (during : Breaker → Breaker)
    (outcome : Outcome A) (b : Breaker)
    → IsOpenSince start span b
    → before < start + span
    → call before during outcome now later b ≡ (err llm_unavailable, b)
unfolding call
call-IsOpenSince start span before now later during outcome b v h = ground arith

-- An open breaker fails fast until its timeout has run out since it opened: whatever reports calls
-- in flight make before then, successes and failures in any order, a further call raises at once
-- and leaves the breaker as those reports left it.
pub call-rejected :
    {A : Type 0} (b : Breaker) (rs : List Report) (before now later : ℕ)
    (during : Breaker → Breaker) (outcome : Outcome A)
    → b.state ≡ opened
    → All (Within b.opened_at (b.opened_at + b.timeout_duration)) rs
    → before < b.opened_at + b.timeout_duration
    → call before during outcome now later (apply_reports rs b)
      ≡ (err llm_unavailable, apply_reports rs b)
call-rejected b rs before now later during outcome o w h =
    let start : IsOpenSince b.opened_at b.timeout_duration b = record {
      is_open = o;
      since = omega arith;
      timeout = refl;
    } in
    call-IsOpenSince b.opened_at b.timeout_duration before now later during outcome
      (apply_reports rs b) (apply_reports-IsOpenSince b.opened_at b.timeout_duration rs start w) h
