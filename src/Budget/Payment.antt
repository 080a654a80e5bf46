-- ===== src/Budget/Payment.antt =====
-- The methods of ledger.py after a reservation: dispatch, the provider's response id, and
-- reconciliation, with the release of transport.py.
use rag_assistant.Prelude.{
  ℕ, Bool, true, false, not, ◌||◌, Option, none, some, Result, ok, err, budget_error, option_eq,
  is_none, ltb, ◌==◌, if◌then◌else◌,
}
use rag_assistant.Budget.Table.{
  Usage, Ledger, CostSource, settled, sending, not_dispatched, provider_reported, administrative,
  source_is, is_reserved, find_usage, update_usage,
}

-- `WHERE operation_id=:id AND principal=:principal`
unfoldable pub find_own : ℕ → ℕ → Ledger → Option Usage
unfolding find_usage
find_own principal id ledger = elim (find_usage id ledger) [
  | none ↦ none
  | some r ↦ if r.principal == principal then some r else none
]

-- `x is not None and row[…] != x`
abbrev differs : Option ℕ → Option ℕ → Bool
differs none row = false
differs (some x) row = not (option_eq row (some x))

abbrev source_differs : Option CostSource → Option CostSource → Bool
source_differs none row = false
source_differs (some s) row = not (source_is s row)

-- `cost_source or ('administrative' if evidence else 'provider')`, for evidence that is no empty text.
abbrev source_or_default : Option CostSource → Option ℕ → CostSource
source_or_default (some s) evidence = s
source_or_default none none = provider_reported
source_or_default none (some e) = administrative

abbrev pub settle : ℕ → ℕ → Option ℕ → Option ℕ → Option CostSource → Usage → Usage
settle now actual evidence billable source r = record r {
  actual_units = some actual;
  settled_at = some now;
  evidence = evidence;
  billable_units = billable;
  cost_source = some (source_or_default source evidence);
  dispatch_state = settled;
}

-- The part of `reconcile` after the row has been read. A charge above the reservation is written
-- first and raised after the commit.
abbrev reconcile_row :
    ℕ
    → ℕ
    → ℕ
    → Option ℕ
    → Option ℕ
    → Option CostSource
    → Usage
    → Option ℕ
    → Ledger
    → Result (Unit {0}) × Ledger
reconcile_row now id actual evidence billable source r (some a) ledger =
    if not (a == actual)
      || (differs billable r.billable_units || source_differs source r.cost_source)
    then (err budget_error, ledger)
    else (ok tt, ledger)
reconcile_row now id actual evidence billable source r none ledger =
    let ledger' = update_usage id (settle now actual evidence billable source) ledger in
    if ltb r.reserved_units actual then (err budget_error, ledger') else (ok tt, ledger')

abbrev reconcile_found :
    ℕ
    → ℕ
    → ℕ
    → Option ℕ
    → Option ℕ
    → Option CostSource
    → Option Usage
    → Ledger
    → Result (Unit {0}) × Ledger
reconcile_found now id actual evidence billable source none ledger = (err budget_error, ledger)
reconcile_found now id actual evidence billable source (some r) ledger =
    reconcile_row now id actual evidence billable source r r.actual_units ledger

unfoldable pub reconcile :
    ℕ → ℕ → ℕ → ℕ → Option ℕ → Option ℕ → Option CostSource → Ledger → Result (Unit {0}) × Ledger
unfolding find_own update_usage
reconcile now principal id actual evidence billable source ledger =
    reconcile_found now id actual evidence billable source (find_own principal id ledger) ledger

-- An UPDATE whose RETURNING yields no row raises.
abbrev update_if : Bool → ℕ → (Usage → Usage) → Ledger → Result (Unit {0}) × Ledger
update_if false id f ledger = (err budget_error, ledger)
update_if true id f ledger = (ok tt, update_usage id f ledger)

abbrev is_dispatchable : Option Usage → Bool
is_dispatchable none = false
is_dispatchable (some r) = is_reserved r.dispatch_state

unfoldable pub mark_dispatch : ℕ → ℕ → Ledger → Result (Unit {0}) × Ledger
unfolding find_own update_usage
mark_dispatch principal id ledger =
    update_if (is_dispatchable (find_own principal id ledger)) id
      (λ r. record r { dispatch_state = sending }) ledger

abbrev pub accepts_response : ℕ → Option Usage → Bool
accepts_response response none = false
accepts_response response (some r) =
    is_none r.provider_response_id || option_eq r.provider_response_id (some response)

unfoldable pub remember_response : ℕ → ℕ → ℕ → Ledger → Result (Unit {0}) × Ledger
unfolding find_own update_usage
remember_response principal id response ledger =
    update_if (accepts_response response (find_own principal id ledger)) id
      (λ r. record r { provider_response_id = some response }) ledger

unfoldable pub reconcile_pending : ℕ → ℕ → ℕ → Option ℕ → Ledger → Result (Unit {0}) × Ledger
unfolding reconcile find_usage
reconcile_pending now id actual evidence ledger = elim (find_usage id ledger) [
  | none ↦ (err budget_error, ledger)
  | some r ↦ reconcile now r.principal id actual evidence none none ledger
]

-- `PhysicalAttempt.release_before_dispatch`
unfoldable pub release_before_dispatch : ℕ → ℕ → ℕ → Ledger → Result (Unit {0}) × Ledger
unfolding reconcile
release_before_dispatch now principal id ledger =
    reconcile now principal id 0 none none (some not_dispatched) ledger
