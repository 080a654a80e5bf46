-- ===== src/Retrieval/Limits.antt =====
-- Bounds on what retrieval.py hands to the model.
use rag_assistant.Prelude.{
  Bool, Bool-cases, arith, if◌then◌else◌, inl, inr, ltb, max, ℕ, ◌+◌, ◌-◌, ◌≡◌, ◌≤◌, ◌⊎◌,
}
use rag_assistant.Retrieval.{
  Breadth, ContextBudgetOptions, is_broad, reserved_tokens, compute_context_budget,
}

fits :
    (window answer kept least : ℕ)
    → let budget = max (window - answer - kept) least in
      (least ≤ budget) × ((budget ≡ least) ⊎ (budget + answer + kept ≤ window))
fits window answer kept least = elim (Bool-cases (ltb least (window - answer - kept))) [
  | inl room ↦ (ground arith, inr (ground arith))
  | inr tight ↦ (ground arith, inl (ground arith))
]

-- The budget of the context is at least the configured minimum, and unless it is that minimum, the
-- context, the answer, and what is reserved for the system, the history and the question fit
-- together into the window of the model. At least 1500 tokens are reserved.
pub compute_context_budget_lem :
    (breadth : Breadth) (enumerate_cases : Bool) (history question ctx_narrow ctx_broad : ℕ)
    (o : ContextBudgetOptions)
    → let budget =
        compute_context_budget breadth enumerate_cases history question ctx_narrow ctx_broad o in
      let wide = is_broad breadth enumerate_cases in
      (o.min_context_tokens ≤ budget)
      × (1500 ≤ reserved_tokens o history question)
      × ((budget ≡ o.min_context_tokens)
          ⊎ (budget
                + (if wide then o.num_predict_broad else o.num_predict_narrow)
                + reserved_tokens o history question
              ≤ (if wide then ctx_broad else ctx_narrow)))
unfolding compute_context_budget
compute_context_budget_lem breadth enumerate_cases history question ctx_narrow ctx_broad o =
    elim (Bool-cases (is_broad breadth enumerate_cases)) [
      | inl wide ↦ rw wide (
        (fits ctx_broad o.num_predict_broad (reserved_tokens o history question)
            o.min_context_tokens).0,
        omega arith,
        (fits ctx_broad o.num_predict_broad (reserved_tokens o history question)
            o.min_context_tokens).1,
      )
      | inr slim ↦ rw slim (
        (fits ctx_narrow o.num_predict_narrow (reserved_tokens o history question)
            o.min_context_tokens).0,
        omega arith,
        (fits ctx_narrow o.num_predict_narrow (reserved_tokens o history question)
            o.min_context_tokens).1,
      )
    ]
