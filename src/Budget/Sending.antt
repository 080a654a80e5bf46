-- ===== src/Budget/Sending.antt =====
-- `mark_dispatch` and `reserve` of ledger.py, on an operation that has been marked as sent: until a
-- reconciliation of the operation, of which the release before dispatch of transport.py is one.
use rag_assistant.Prelude.{
  All, Bool, Bool-cases, List, Option-cases, [], arith, budget_error, err, false, inl, inr, ok,
  refl, some, true, ℕ, ◌==◌, ◌∙◌, ◌∷◌, ◌≡◌, ◌≢◌, ◌⊎◌, Option, Option,
}
use rag_assistant.Budget.Table.{Usage, Ledger, CostSource, find_usage, update_usage, sending}
use rag_assistant.Budget.{Request, reserve, rearm}
use rag_assistant.Budget.Payment.{
  accepts_response, find_own, mark_dispatch, remember_response, reconcile, settle,
}
use rag_assistant.Budget.Totals.{KeepsId, find_usage-update_usage_self}
use rag_assistant.Budget.Rows.{Call, reserving, reconciling, dispatching, responding, apply_calls}

-- A call that may settle the row of the operation.
abbrev pub reconciles : ℕ → Call → Bool
reconciles id (reserving now q) = false
reconciles id (reconciling now principal other actual evidence billable source) = other == id
reconciles id (dispatching principal other) = false
reconciles id (responding principal other response) = false

abbrev IsSent : ℕ → Ledger → Type 0
IsSent id ledger = (r : Usage) × (find_usage id ledger ≡ some r) × (r.dispatch_state ≡ sending)

find_usage-update_usage_other :
    (id other : ℕ) (f : Usage → Usage) (rs : Ledger)
    → KeepsId f
    → (other == id) ≡ false
    → find_usage id (update_usage other f rs) ≡ find_usage id rs
unfolding find_usage update_usage
find_usage-update_usage_other id other f [] k apart = refl
find_usage-update_usage_other id other f (x ∷ rs) k apart =
    ground (arith, k x, find_usage-update_usage_other id other f rs k apart)

update_usage-IsSent :
    (id other : ℕ) (f : Usage → Usage) (rs : Ledger)
    → KeepsId f
    → ((other == id) ≡ true → (r : Usage) → (f r).dispatch_state ≡ r.dispatch_state)
    → IsSent id rs
    → IsSent id (update_usage other f rs)
update_usage-IsSent id other f rs k kept (r, found, sent) = elim (Bool-cases (other == id)) [
  | inr apart ↦ (r, rw (find_usage-update_usage_other id other f rs k apart) found, sent)
  | inl same ↦
      let e : other ≡ id = ground arith in
      (f r, rw e (find_usage-update_usage_self id f rs r k found), kept same r ∙ sent)
]

reserve_sent :
    (now : ℕ) (q : Request) (ledger : Ledger) (r : Usage)
    → find_usage q.operation_id ledger ≡ some r
    → r.dispatch_state ≡ sending
    → ((reserve now q ledger).0 ≢ ok true) × ((reserve now q ledger).1 ≡ ledger)
unfolding reserve
reserve_sent now q ledger r found sent = (ground arith, ground arith)

reserve_other :
    (now id : ℕ) (q : Request) (ledger : Ledger)
    → (q.operation_id == id) ≡ false
    → find_usage id (reserve now q ledger).1 ≡ find_usage id ledger
unfolding reserve find_usage
reserve_other now id q ledger apart =
    let rearmed =
      find_usage-update_usage_other id q.operation_id (rearm now q) ledger (λ x. refl) apart in
    elim (Option-cases (find_usage q.operation_id ledger)) [
      | inl fresh ↦ ground arith
      | inr (r, found) ↦ ground (arith, rearmed)
    ]

reserve-IsSent :
    (now id : ℕ) (q : Request) (ledger : Ledger)
    → IsSent id ledger
    → IsSent id (reserve now q ledger).1
reserve-IsSent now id q ledger (r, found, sent) = elim (Bool-cases (q.operation_id == id)) [
  | inr apart ↦ (r, rw (reserve_other now id q ledger apart) found, sent)
  | inl same ↦
      let e : q.operation_id ≡ id = ground arith in
      let kept = (reserve_sent now q ledger r (rw e found) sent).1 in (r, rw kept found, sent)
]

-- What a conditional UPDATE that may leave the state of the row alone keeps.
mark_dispatch-IsSent :
    (id principal other : ℕ) (ledger : Ledger)
    → IsSent id ledger
    → IsSent id (mark_dispatch principal other ledger).1
unfolding mark_dispatch
mark_dispatch-IsSent id principal other ledger (r, found, sent) =
    let f : Usage → Usage = λ x. record x { dispatch_state = sending } in
    elim (Bool-cases (other == id)) [
      | inr apart ↦
          let there = find_usage-update_usage_other id other f ledger (λ x. refl) apart in
          (r, ground (arith, there), sent)
      | inl same ↦ let e : other ≡ id = ground arith in (r, ground arith, sent)
    ]

unfoldable respond : ℕ → Usage → Usage
respond response r = record r { provider_response_id = some response }

remember_response_writes :
    (principal other response : ℕ) (ledger : Ledger)
    → ((remember_response principal other response ledger).1 ≡ ledger)
      ⊎ ((remember_response principal other response ledger).1
          ≡ update_usage other (respond response) ledger)
unfolding remember_response respond
remember_response_writes principal other response ledger =
    elim (Bool-cases (accepts_response response (find_own principal other ledger))) [
      | inl accepted ↦ inr (rw accepted refl)
      | inr refused ↦ inl (rw refused refl)
    ]

remember_response-IsSent :
    (id principal other response : ℕ) (ledger : Ledger)
    → IsSent id ledger
    → IsSent id (remember_response principal other response ledger).1
unfolding respond
remember_response-IsSent id principal other response ledger v =
    elim (remember_response_writes principal other response ledger) [
      | inl same ↦ rw same v
      | inr written ↦
          rw written
            (update_usage-IsSent id other (respond response) ledger (λ x. refl) (λ same r. refl) v)
    ]

reconcile_other :
    (now id principal other actual : ℕ) (evidence billable : Option ℕ) (source : Option CostSource)
    (ledger : Ledger)
    → (other == id) ≡ false
    → find_usage id (reconcile now principal other actual evidence billable source ledger).1
      ≡ find_usage id ledger
unfolding reconcile
reconcile_other now id principal other actual evidence billable source ledger apart =
    let settled =
      find_usage-update_usage_other id other (settle now actual evidence billable source) ledger
        (λ x. refl) apart in
    elim (Option-cases (find_usage other ledger)) [
      | inl absent ↦ ground arith
      | inr (r, found) ↦ ground (arith, settled)
    ]

apply_calls-IsSent :
    (id : ℕ) (cs : List Call) (ledger : Ledger)
    → All (λ c. reconciles id c ≡ false) cs
    → IsSent id ledger
    → IsSent id (apply_calls cs ledger)
unfolding apply_calls
apply_calls-IsSent id [] ledger a v = v
apply_calls-IsSent id (reserving now q ∷ cs) ledger a v =
    apply_calls-IsSent id cs _ a.1 (reserve-IsSent now id q ledger v)
apply_calls-IsSent id (reconciling now principal other actual evidence billable source ∷ cs) ledger
      a (r, found, sent) =
    apply_calls-IsSent id cs _ a.1 (
      r,
      rw (reconcile_other now id principal other actual evidence billable source ledger a.0) found,
      sent,
    )
apply_calls-IsSent id (dispatching principal other ∷ cs) ledger a v =
    apply_calls-IsSent id cs _ a.1 (mark_dispatch-IsSent id principal other ledger v)
apply_calls-IsSent id (responding principal other response ∷ cs) ledger a v =
    apply_calls-IsSent id cs _ a.1 (remember_response-IsSent id principal other response ledger v)

mark_dispatch-ok :
    (principal id : ℕ) (ledger : Ledger)
    → (mark_dispatch principal id ledger).0 ≡ ok tt
    → IsSent id (mark_dispatch principal id ledger).1
unfolding mark_dispatch
mark_dispatch-ok principal id ledger h = elim (Option-cases (find_usage id ledger)) [
  | inl absent ↦ absurd (ground arith)
  | inr (r, found) ↦
      let f : Usage → Usage = λ x. record x { dispatch_state = sending } in
      let there = find_usage-update_usage_self id f ledger r (λ x. refl) found in
      (f r, ground (arith, there), refl)
]

mark_dispatch_sent :
    (principal id : ℕ) (ledger : Ledger) (r : Usage)
    → find_usage id ledger ≡ some r
    → r.dispatch_state ≡ sending
    → mark_dispatch principal id ledger ≡ (err budget_error, ledger)
unfolding mark_dispatch
mark_dispatch_sent principal id ledger r found sent = ground arith

-- Once an operation has been marked as sent, and until its row is reconciled, of which a release
-- before dispatch is one: after any calls that reserve, dispatch, remember a response or reconcile
-- other operations, whoever makes them, marking it again is refused, and no reservation for it
-- succeeds as a new one; neither changes the table.
pub dispatch_once :
    (now principal other : ℕ) (q : Request) (ledger : Ledger) (cs : List Call)
    → (mark_dispatch principal q.operation_id ledger).0 ≡ ok tt
    → All (λ c. reconciles q.operation_id c ≡ false) cs
    → let later = apply_calls cs (mark_dispatch principal q.operation_id ledger).1 in
      (mark_dispatch other q.operation_id later ≡ (err budget_error, later))
      × ((reserve now q later).0 ≢ ok true)
      × ((reserve now q later).1 ≡ later)
dispatch_once now principal other q ledger cs h unsettled =
    let (r, found, sent) =
      apply_calls-IsSent q.operation_id cs (mark_dispatch principal q.operation_id ledger).1
        unsettled (mark_dispatch-ok principal q.operation_id ledger h) in
    let later = apply_calls cs (mark_dispatch principal q.operation_id ledger).1 in
    let again = reserve_sent now q later r found sent in
    (mark_dispatch_sent other q.operation_id later r found sent, again.0, again.1)
