-- ===== src/Budget/Release.antt =====
-- A reservation of ledger.py that is released before dispatch, as transport.py does it.
use rag_assistant.Budget.Limits.{reserve-total_units}
use rag_assistant.Budget.Payment.{release_before_dispatch, settle}
use rag_assistant.Prelude.{
  ℕ, Option, Option-cases, arith, inl, inr, none, ok, refl, some, true, ◌∷◌, ◌≡◌,
}
use rag_assistant.Budget.Table.{
  Usage, Ledger, find_usage, is_reserved, update_usage, total_units, charge, not_dispatched,
}
use rag_assistant.Budget.{Request, reserve, new_usage, rearm}
use rag_assistant.Budget.Totals.{
  find_usage-update_usage_self, IsUnique, update_usage-IsUnique, total_units-update_usage,
}

-- The row that a granted reservation has written.
pub record IsReservedFor (q : Request) (r : Usage) : Type 0 where
  pub own : r.principal ≡ q.principal
  pub units : r.reserved_units ≡ q.maximum_units
  pub unpaid : r.actual_units ≡ none
  pub unsettled : r.settled_at ≡ none
  pub undispatched : is_reserved r.dispatch_state ≡ true

abbrev written : ℕ → Request → Option Usage → Usage
written now q none = new_usage now q
written now q (some r) = rearm now q r

find_usage-cons_new :
    (now : ℕ) (q : Request) (ledger : Ledger)
    → find_usage q.operation_id (new_usage now q ∷ ledger) ≡ some (new_usage now q)
unfolding find_usage
find_usage-cons_new now q ledger = ground arith

-- After a granted reservation its row is found under the operation id.
pub find_usage-reserve :
    (now : ℕ) (q : Request) (ledger : Ledger)
    → (reserve now q ledger).0 ≡ ok true
    → let r = written now q (find_usage q.operation_id ledger) in
      (find_usage q.operation_id (reserve now q ledger).1 ≡ some r) × IsReservedFor q r
unfolding reserve
find_usage-reserve now q ledger h = elim (Option-cases (find_usage q.operation_id ledger)) [
  | inl fresh ↦ rw fresh (ground (arith, find_usage-cons_new now q ledger))
  | inr (r, found) ↦ rw found (
      ground (
        arith,
        find_usage-update_usage_self q.operation_id (rearm now q) ledger r (λ x. refl) found,
      ))
]

reserve-IsUnique :
    (now : ℕ) (q : Request) (ledger : Ledger) → IsUnique ledger → IsUnique (reserve now q ledger).1
unfolding reserve
reserve-IsUnique now q ledger u = elim (Option-cases (find_usage q.operation_id ledger)) [
  | inl fresh ↦ ground arith
  | inr (r, found) ↦
      ground (arith, update_usage-IsUnique q.operation_id (rearm now q) ledger (λ x. refl) u)
]

-- Releasing an unpaid row settles it at nothing.
release-eq-settle :
    (now principal id : ℕ) (ledger : Ledger) (r : Usage)
    → find_usage id ledger ≡ some r
    → r.principal ≡ principal
    → r.actual_units ≡ none
    → release_before_dispatch now principal id ledger
      ≡ (ok tt, update_usage id (settle now 0 none none (some not_dispatched)) ledger)
unfolding release_before_dispatch
release-eq-settle now principal id ledger r found own unpaid = ground arith

charge-IsReservedFor :
    (span t : ℕ) (q : Request) (r : Usage)
    → IsReservedFor q r
    → charge span t q.principal r ≡ q.maximum_units
charge-IsReservedFor span t q r v = ground arith

charge-settle_nothing :
    (span t principal now : ℕ) (r : Usage)
    → charge span t principal (settle now 0 none none (some not_dispatched) r) ≡ 0
charge-settle_nothing span t principal now r = ground arith

-- A granted reservation that is released before dispatch leaves no trace in the totals: the
-- release succeeds, and at every time each rolling total of the principal is what it was before.
pub reserve-release :
    (now later : ℕ) (q : Request) (ledger : Ledger)
    → IsUnique ledger
    → (reserve now q ledger).0 ≡ ok true
    → let released =
        release_before_dispatch later q.principal q.operation_id (reserve now q ledger).1 in
      (released.0 ≡ ok tt)
      × ((span t : ℕ)
          → total_units span t q.principal released.1 ≡ total_units span t q.principal ledger)
reserve-release now later q ledger u h =
    let ledger' = (reserve now q ledger).1 in
    let (found, v) = find_usage-reserve now q ledger h in
    let r = written now q (find_usage q.operation_id ledger) in
    let done = release-eq-settle later q.principal q.operation_id ledger' r found v.own v.unpaid in
    rw done (
      refl,
      λ span t. omega (
        arith,
        total_units-update_usage span t q.principal q.operation_id
            (settle later 0 none none (some not_dispatched)) ledger' r
            (reserve-IsUnique now q ledger u) found,
        charge-IsReservedFor span t q r v,
        charge-settle_nothing span t q.principal later r,
        reserve-total_units now q ledger span t u h,
      ),
    )
