-- ===== src/Jobs/Sweeps.antt =====
-- What the sweep of dead background jobs leaves.
use rag_assistant.Prelude.{All, Bool-cases, [], false, inl, inr, refl, ℕ, ◌∷◌, ◌≡◌}
use rag_assistant.Jobs.{
  BackgroundJob, Jobs, recover_orphaned, fail_stale_pending, sweep_jobs, is_orphaned, is_stale,
}

-- After a sweep no job is overdue by either timeout.
abbrev pub IsTimely : ℕ → ℕ → ℕ → BackgroundJob → Type 0
IsTimely now stuck stale j = (is_orphaned now stuck j ≡ false) × (is_stale now stale j ≡ false)

pub sweep_jobs-IsTimely :
    (now stuck stale : ℕ) (js : Jobs)
    → All (IsTimely now stuck stale) (sweep_jobs now stuck stale js)
unfolding sweep_jobs recover_orphaned fail_stale_pending
sweep_jobs-IsTimely now stuck stale [] = tt
sweep_jobs-IsTimely now stuck stale (j ∷ js) =
    let below = sweep_jobs-IsTimely now stuck stale js in
    elim (Bool-cases (is_orphaned now stuck j)) [
      | inl old ↦ rw old ((refl, refl), below)
      | inr fine ↦ rw fine (elim (Bool-cases (is_stale now stale j)) [
        | inl late ↦ rw late ((refl, refl), below)
        | inr fresh ↦ rw fresh ((fine, fresh), below)
      ])
    ]
