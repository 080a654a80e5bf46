-- ===== src/Budget/Limits.antt =====
-- `reserve` of ledger.py against the rolling limits.
use rag_assistant.Prelude.{
  ℕ, ◌+◌, ◌≤◌, true, some, ◌∷◌, ◌≡◌, arith, ok, ◌==◌, Option-cases, inl, inr,
}
use rag_assistant.Budget.Table.{
  Usage, Ledger, find_usage, update_usage, total_units, sum_by, charge, hour, day,
}
use rag_assistant.Budget.{Request, reserve, admit, admitted, can_rearm, new_usage, rearm}
use rag_assistant.Budget.Totals.{IsUnique, sum_by-update_usage}

-- A new reservation, and one armed again, are charged in full.
charge-new_usage :
    (span t now : ℕ) (q : Request) → charge span t q.principal (new_usage now q) ≡ q.maximum_units
charge-new_usage span t now q = ground arith

charge-rearm :
    (span t now : ℕ) (q : Request) (r : Usage)
    → (r.principal == q.principal) ≡ true
    → charge span t q.principal (rearm now q r) ≡ q.maximum_units
charge-rearm span t now q r h = ground arith

-- What can be armed again was charged nothing.
charge-can_rearm :
    (span now : ℕ) (q : Request) (r : Usage)
    → can_rearm q r ≡ true
    → charge span now q.principal r ≡ 0
unfolding can_rearm
charge-can_rearm span now q r h = ground arith

-- A reservation adds its units to a rolling total of its principal.
total_units-rearm :
    (span t now : ℕ) (q : Request) (ledger : Ledger) (r : Usage)
    → IsUnique ledger
    → find_usage q.operation_id ledger ≡ some r
    → (r.principal == q.principal) ≡ true
    → can_rearm q r ≡ true
    → total_units span t q.principal (update_usage q.operation_id (rearm now q) ledger)
      ≡ total_units span t q.principal ledger + q.maximum_units
unfolding total_units
total_units-rearm span t now q ledger r u found own free = omega (
  arith,
  sum_by-update_usage (charge span t q.principal) q.operation_id (rearm now q) ledger r u found,
  charge-rearm span t now q r own,
  charge-can_rearm span t q r free,
)

total_units-new_usage :
    (span t now : ℕ) (q : Request) (ledger : Ledger)
    → total_units span t q.principal (new_usage now q ∷ ledger)
      ≡ total_units span t q.principal ledger + q.maximum_units
unfolding total_units sum_by
total_units-new_usage span t now q ledger = omega (arith, charge-new_usage span t now q)

-- A successful `reserve` has written exactly the charge that it was asked for.
pub reserve-total_units :
    (now : ℕ) (q : Request) (ledger : Ledger) (span t : ℕ)
    → IsUnique ledger
    → (reserve now q ledger).0 ≡ ok true
    → total_units span t q.principal (reserve now q ledger).1
      ≡ total_units span t q.principal ledger + q.maximum_units
unfolding reserve
reserve-total_units now q ledger span t u h =
    elim (Option-cases (find_usage q.operation_id ledger)) [
      | inl fresh ↦ ground (arith, total_units-new_usage span t now q ledger)
      | inr (r, found) ↦ ground (arith, total_units-rearm span t now q ledger r u found)
    ]

reserve-admitted :
    (now : ℕ) (q : Request) (ledger : Ledger)
    → (reserve now q ledger).0 ≡ ok true
    → admitted now q ledger ≡ true
unfolding reserve
reserve-admitted now q ledger h = ground arith

admitted-le :
    (now : ℕ) (q : Request) (ledger : Ledger)
    → admitted now q ledger ≡ true
    → q.enforce_limits ≡ true
    → (total_units hour now q.principal ledger + q.maximum_units ≤ q.hourly_units)
      × (total_units day now q.principal ledger + q.maximum_units ≤ q.daily_units)
unfolding admit
admitted-le now q ledger h e = ground arith

-- Where limits are enforced, a granted reservation leaves both rolling totals of its principal,
-- the new reservation included, within the limits that it was asked with.
pub reserve_within_limits :
    (now : ℕ) (q : Request) (ledger : Ledger)
    → IsUnique ledger
    → q.enforce_limits ≡ true
    → (reserve now q ledger).0 ≡ ok true
    → (total_units hour now q.principal (reserve now q ledger).1 ≤ q.hourly_units)
      × (total_units day now q.principal (reserve now q ledger).1 ≤ q.daily_units)
reserve_within_limits now q ledger u e h =
    let (in_hour, in_day) = admitted-le now q ledger (reserve-admitted now q ledger h) e in
    rw (reserve-total_units now q ledger hour now u h, reserve-total_units now q ledger day now u h)
      (in_hour, in_day)
