-- ===== src/Outbox/Retries.antt =====
-- The retries of an entry of the vector outbox: how long it waits, and when it is given up.
use rag_assistant.Prelude.{
  Bool, Bool-cases, List, String, [], ap, arith, false, if◌then◌else◌, inl, inr, leb, length, ltb,
  not, refl, subst, suc, zero, ℕ, ◌&&◌, ◌*◌, ◌++◌, ◌+◌, ◌-◌, ◌<◌, ◌^◌, ◌∙◌, ◌∷◌, ◌≡◌, ◌≤◌,
}
use rag_assistant.Outbox.Entry.{VectorOutboxEntry, entry_mark_failed, dead_letter, failed}
use rag_assistant.Outbox.{backoff_seconds}
use rag_assistant.Outbox.Table.{claimable, claim, fail}

power_le : (m n k : ℕ) → m + n ≡ k → 2 ^ n ≤ 2 ^ k
power_le zero n k e =
    let same : n ≡ k = omega arith in subst (λ x. 2 ^ n ≤ 2 ^ x) same (omega arith)
power_le (suc m) n zero e = omega arith
power_le (suc m) n (suc k) e = omega (arith, power_le m n k (omega arith))

power_small : (n : ℕ) → n < 8 → 2 ^ n ≤ 128
power_small n h = power_le (7 - n) n 7 (omega arith)

power_large : (n : ℕ) → ltb n 8 ≡ false → 256 ≤ 2 ^ n
power_large n h = power_le (n - 8) 8 n (ground arith)

-- The wait after an attempt is 5 seconds, doubled at every attempt; the cap of 900 is reached at
-- the attempt of number 8 and at none before it.
pub backoff_seconds_lem : (n : ℕ) → backoff_seconds n ≡ (if ltb n 8 then 5 * 2 ^ n else 900)
unfolding backoff_seconds
backoff_seconds_lem n = elim (Bool-cases (ltb n 8)) [
  | inl low ↦ rw low ground (arith, power_small n (ground arith))
  | inr high ↦ rw high ground (arith, power_large n high)
]

-- An entry that fails at every attempt, claimed again each time.
abbrev pub retries : List (ℕ × ℕ × String × ℕ) → VectorOutboxEntry → VectorOutboxEntry
retries [] e = e
retries ((worker, now, error, backoff) ∷ rest) e =
    retries rest (fail now error backoff (claim worker now e))

fail_lem :
    (now : ℕ) (error : String) (backoff : ℕ) (e : VectorOutboxEntry)
    → let e' = fail now error backoff e in
      (e'.attempts ≡ suc e.attempts)
      × (e'.max_attempts ≡ e.max_attempts)
      × (e'.status ≡ (if leb e.max_attempts (suc e.attempts) then dead_letter else failed))
unfolding entry_mark_failed
fail_lem now error backoff e = elim (Bool-cases (leb e.max_attempts (suc e.attempts))) [
  | inl out ↦ rw out (refl, refl, refl)
  | inr more ↦ rw more (refl, refl, refl)
]

-- After one failure or more in a row, an entry is given up if it has used up its attempts, and
-- waits for a retry otherwise.
pub retries-status :
    (fs : List (ℕ × ℕ × String × ℕ)) (worker now : ℕ) (error : String) (backoff : ℕ)
    (e : VectorOutboxEntry)
    → (retries (fs ++ ((worker, now, error, backoff) ∷ [])) e).status
      ≡ (if leb e.max_attempts (suc (e.attempts + length fs)) then dead_letter else failed)
unfolding entry_mark_failed
retries-status [] worker now error backoff e =
    let none_yet : e.attempts + 0 ≡ e.attempts = omega arith in
    rw none_yet (fail_lem now error backoff (claim worker now e)).2
retries-status ((worker', now', error', backoff') ∷ fs) worker now error backoff e =
    let e' = fail now' error' backoff' (claim worker' now' e) in
    let (attempts, limit, _) = fail_lem now' error' backoff' (claim worker' now' e) in
    let one : suc (e'.attempts + length fs) ≡ suc (e.attempts + suc (length fs)) = omega arith in
    retries-status fs worker now error backoff e'
    ∙ ap (λ n. if leb e'.max_attempts n then dead_letter else failed) one
    ∙ ap (λ n. if leb n (suc (e.attempts + suc (length fs))) then dead_letter else failed) limit

-- A failed entry can be claimed again exactly from the end of its wait on, if it has attempts left.
pub claimable-fail :
    (now t : ℕ) (skip : ℕ → Bool) (error : String) (backoff : ℕ) (e : VectorOutboxEntry)
    → claimable t skip (fail now error backoff e)
      ≡ (ltb (suc e.attempts) e.max_attempts && (leb (now + backoff) t && not (skip e.id)))
unfolding entry_mark_failed
claimable-fail now t skip error backoff e =
    elim (Bool-cases (leb e.max_attempts (suc e.attempts))) [
      | inl out ↦ rw out (ground arith)
      | inr more ↦ rw more (ground arith)
    ]
