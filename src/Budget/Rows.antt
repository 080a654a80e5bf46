-- ===== src/Budget/Rows.antt =====
-- What every method of ledger.py keeps: the keys are unique, and a row is settled exactly if it has
-- an actual charge and a time of settlement, as the check constraints of the table demand.
use rag_assistant.Budget.Payment.{settle, reconcile, mark_dispatch, remember_response}
use rag_assistant.Prelude.{
  ℕ, not, none, some, [], ◌∷◌, ◌≡◌, refl, arith, All, ◌==◌, is_none, Bool-cases, Option-cases, inl,
  inr, List, Option, true,
}
use rag_assistant.Budget.Table.{
  Usage, Ledger, find_usage, update_usage, is_settled, CostSource, is_reserved, sending,
}
use rag_assistant.Budget.{Request, reserve, rearm, new_usage}
use rag_assistant.Budget.Totals.{
  IsUnique, KeepsId, update_usage-IsUnique, update_usage_absent, same_key_absent,
}

pub record IsConsistent (r : Usage) : Type 0 where
  pub timed : is_none r.settled_at ≡ is_none r.actual_units
  pub state : is_settled r.dispatch_state ≡ not (is_none r.actual_units)

pub record IsValid (ledger : Ledger) : Type 0 where
  pub unique : IsUnique ledger
  pub consistent : All IsConsistent ledger

pub All-update_usage :
    (P : Usage → Type 0) (id : ℕ) (f : Usage → Usage) (rs : Ledger)
    → ((r : Usage) → find_usage id rs ≡ some r → P r → P (f r))
    → IsUnique rs
    → All P rs
    → All P (update_usage id f rs)
unfolding update_usage find_usage
All-update_usage P id f [] h u a = tt
All-update_usage P id f (x ∷ rs) h u a = elim (Bool-cases (x.operation_id == id)) [
  | inl same ↦
      rw (same, update_usage_absent id f rs (same_key_absent id x rs same u.0))
        (h x (ground arith) a.0, a.1)
  | inr other ↦ rw other (a.0, All-update_usage P id f rs (λ r found. h r (ground arith)) u.1 a.1)
]

update_usage-IsValid :
    (id : ℕ) (f : Usage → Usage) (ledger : Ledger)
    → KeepsId f
    → ((r : Usage) → find_usage id ledger ≡ some r → IsConsistent r → IsConsistent (f r))
    → IsValid ledger
    → IsValid (update_usage id f ledger)
update_usage-IsValid id f ledger k h v = record {
  unique = update_usage-IsUnique id f ledger k v.unique;
  consistent = All-update_usage IsConsistent id f ledger h v.unique v.consistent;
}

insert-IsValid :
    (now : ℕ) (q : Request) (ledger : Ledger)
    → find_usage q.operation_id ledger ≡ none
    → IsValid ledger
    → IsValid (new_usage now q ∷ ledger)
insert-IsValid now q ledger fresh v = record {
  unique = (fresh, v.unique);
  consistent = (record { timed = refl; state = refl }, v.consistent);
}

rearm-IsValid :
    (now : ℕ) (q : Request) (ledger : Ledger)
    → IsValid ledger
    → IsValid (update_usage q.operation_id (rearm now q) ledger)
rearm-IsValid now q ledger =
    update_usage-IsValid q.operation_id (rearm now q) ledger (λ r. refl)
      (λ r found c. record { timed = refl; state = refl })

pub reserve-IsValid :
    (now : ℕ) (q : Request) (ledger : Ledger) → IsValid ledger → IsValid (reserve now q ledger).1
unfolding reserve
reserve-IsValid now q ledger v = elim (Option-cases (find_usage q.operation_id ledger)) [
  | inl fresh ↦ ground (arith, insert-IsValid now q ledger fresh v)
  | inr (r, found) ↦ ground (arith, rearm-IsValid now q ledger v)
]

pub settle-IsValid :
    (now id actual : ℕ) (evidence billable : Option ℕ) (source : Option CostSource)
    (ledger : Ledger)
    → IsValid ledger
    → IsValid (update_usage id (settle now actual evidence billable source) ledger)
settle-IsValid now id actual evidence billable source ledger =
    update_usage-IsValid id (settle now actual evidence billable source) ledger (λ r. refl)
      (λ r found c. record { timed = refl; state = refl })

reconcile-IsValid :
    (now principal id actual : ℕ) (evidence billable : Option ℕ) (source : Option CostSource)
    (ledger : Ledger)
    → IsValid ledger
    → IsValid (reconcile now principal id actual evidence billable source ledger).1
unfolding reconcile
reconcile-IsValid now principal id actual evidence billable source ledger v =
    elim (Option-cases (find_usage id ledger)) [
      | inl absent ↦ ground arith
      | inr (r, found) ↦
          ground (arith, settle-IsValid now id actual evidence billable source ledger v)
    ]

-- Only a reserved row is sent, and such a row has no charge yet.
send-IsValid :
    (id : ℕ) (ledger : Ledger) (r : Usage)
    → find_usage id ledger ≡ some r
    → is_reserved r.dispatch_state ≡ true
    → IsValid ledger
    → IsValid (update_usage id (λ x. record x { dispatch_state = sending }) ledger)
send-IsValid id ledger r found open_row =
    update_usage-IsValid id (λ x. record x { dispatch_state = sending }) ledger (λ x. refl)
      (λ x same c. ground arith)

mark_dispatch-IsValid :
    (principal id : ℕ) (ledger : Ledger)
    → IsValid ledger
    → IsValid (mark_dispatch principal id ledger).1
unfolding mark_dispatch
mark_dispatch-IsValid principal id ledger v = elim (Option-cases (find_usage id ledger)) [
  | inl absent ↦ ground arith
  | inr (r, found) ↦ ground (arith, send-IsValid id ledger r found)
]

respond-IsValid :
    (id response : ℕ) (ledger : Ledger)
    → IsValid ledger
    → IsValid (update_usage id (λ x. record x { provider_response_id = some response }) ledger)
respond-IsValid id response ledger =
    update_usage-IsValid id (λ x. record x { provider_response_id = some response }) ledger
      (λ x. refl) (λ x found c. record { timed = c.timed; state = c.state })

remember_response-IsValid :
    (principal id response : ℕ) (ledger : Ledger)
    → IsValid ledger
    → IsValid (remember_response principal id response ledger).1
unfolding remember_response
remember_response-IsValid principal id response ledger v =
    elim (Option-cases (find_usage id ledger)) [
      | inl absent ↦ ground arith
      | inr (r, found) ↦ ground (arith, respond-IsValid id response ledger v)
    ]

-- A call of a method of the ledger that writes.
pub data Call : Type 0 where
  reserving : ℕ → Request → Call
  reconciling : ℕ → ℕ → ℕ → ℕ → Option ℕ → Option ℕ → Option CostSource → Call
  dispatching : ℕ → ℕ → Call
  responding : ℕ → ℕ → ℕ → Call

abbrev pub apply_call : Call → Ledger → Ledger
apply_call (reserving now q) ledger = (reserve now q ledger).1
apply_call (reconciling now principal id actual evidence billable source) ledger =
    (reconcile now principal id actual evidence billable source ledger).1
apply_call (dispatching principal id) ledger = (mark_dispatch principal id ledger).1
apply_call (responding principal id response) ledger =
    (remember_response principal id response ledger).1

unfoldable pub apply_calls : List Call → Ledger → Ledger
apply_calls [] ledger = ledger
apply_calls (c ∷ cs) ledger = apply_calls cs (apply_call c ledger)

apply_call-IsValid : (c : Call) (ledger : Ledger) → IsValid ledger → IsValid (apply_call c ledger)
apply_call-IsValid (reserving now q) ledger v = reserve-IsValid now q ledger v
apply_call-IsValid (reconciling now principal id actual evidence billable source) ledger v =
    reconcile-IsValid now principal id actual evidence billable source ledger v
apply_call-IsValid (dispatching principal id) ledger v = mark_dispatch-IsValid principal id ledger v
apply_call-IsValid (responding principal id response) ledger v =
    remember_response-IsValid principal id response ledger v

-- From a valid table, after any calls that reserve, dispatch, remember a response or reconcile, in
-- any order and whether they raise or not, the operation ids are unique, and a row is settled
-- exactly if it has an actual charge and exactly if it has a time of settlement.
pub apply_calls-IsValid :
    (cs : List Call) (ledger : Ledger) → IsValid ledger → IsValid (apply_calls cs ledger)
unfolding apply_calls
apply_calls-IsValid [] ledger v = v
apply_calls-IsValid (c ∷ cs) ledger v =
    apply_calls-IsValid cs (apply_call c ledger) (apply_call-IsValid c ledger v)
