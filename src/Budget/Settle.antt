-- ===== src/Budget/Settle.antt =====
-- Reconciliation of ledger.py: what can happen once, and what an overcharge blocks.
use rag_assistant.Prelude.{
  Bool, Option, [], any, arith, budget_error, err, if◌then◌else◌, ltb, none, ok, refl, some, sym,
  true, ℕ, ◌&&◌, ◌<◌, ◌∷◌, ◌≡◌, ◌≢◌,
}
use rag_assistant.Budget.Table.{
  Usage, Ledger, CostSource, find_usage, update_usage, rate_violated, overcharged, of_tariff,
}
use rag_assistant.Budget.{Request, reserve}
use rag_assistant.Budget.Payment.{settle, reconcile}
use rag_assistant.Budget.Totals.{find_usage-update_usage_self}

-- The one row of the principal and the operation.
abbrev IsOwn : ℕ → ℕ → Ledger → Usage → Type 0
IsOwn principal id ledger r = (find_usage id ledger ≡ some r) × (r.principal ≡ principal)

reconcile_unpaid :
    (now principal id actual : ℕ) (evidence billable : Option ℕ) (source : Option CostSource)
    (ledger : Ledger) (r : Usage)
    → IsOwn principal id ledger r
    → r.actual_units ≡ none
    → reconcile now principal id actual evidence billable source ledger ≡ (
      if ltb r.reserved_units actual then err budget_error else ok tt,
      update_usage id (settle now actual evidence billable source) ledger,
    )
unfolding reconcile
reconcile_unpaid now principal id actual evidence billable source ledger r own unpaid = ground arith

reconcile_paid :
    (now principal id actual : ℕ) (evidence billable : Option ℕ) (source : Option CostSource)
    (ledger : Ledger) (r : Usage) {paid : ℕ}
    → IsOwn principal id ledger r
    → r.actual_units ≡ some paid
    → paid ≢ actual
    → reconcile now principal id actual evidence billable source ledger ≡ (err budget_error, ledger)
unfolding reconcile
reconcile_paid now principal id actual evidence billable source ledger r own paid differ =
    ground arith

reconcile_same :
    (now later principal id actual : ℕ) (evidence evidence' billable : Option ℕ)
    (source : Option CostSource) (ledger : Ledger) (r : Usage)
    → IsOwn principal id ledger (settle now actual evidence billable source r)
    → reconcile later principal id actual evidence' billable source ledger ≡ (ok tt, ledger)
unfolding reconcile
reconcile_same now later principal id actual evidence evidence' billable source ledger r own =
    ground arith

-- The first reconciliation of an unpaid row of the principal writes it. A repeated one, at any time
-- and with any evidence, succeeds and writes nothing, and one with another charge is refused and
-- writes nothing.
pub reconcile_once :
    (now later principal id actual other : ℕ) (evidence evidence' billable : Option ℕ)
    (source : Option CostSource) (ledger : Ledger) (r : Usage)
    → find_usage id ledger ≡ some r
    → r.principal ≡ principal
    → r.actual_units ≡ none
    → other ≢ actual
    → let ledger' = (reconcile now principal id actual evidence billable source ledger).1 in
      (find_usage id ledger' ≡ some (settle now actual evidence billable source r))
      × (reconcile later principal id actual evidence' billable source ledger' ≡ (ok tt, ledger'))
      × (reconcile later principal id other evidence' billable source ledger'
          ≡ (err budget_error, ledger'))
reconcile_once now later principal id actual other evidence evidence' billable source ledger r found
      own unpaid differ =
    let f = settle now actual evidence billable source in
    let there = find_usage-update_usage_self id f ledger r (λ x. refl) found in
    let paid = update_usage id f ledger in
    rw
      (reconcile_unpaid now principal id actual evidence billable source ledger r (found, own)
        unpaid)
      (
        there,
        reconcile_same now later principal id actual evidence evidence' billable source paid r
            (there, own),
        reconcile_paid later principal id other evidence' billable source paid (f r) (there, own)
            refl (λ e. differ (sym e)),
      )

any-update_usage :
    (p : Usage → Bool) (id : ℕ) (f : Usage → Usage) (rs : Ledger) (r : Usage)
    → find_usage id rs ≡ some r
    → p (f r) ≡ true
    → any p (update_usage id f rs) ≡ true
unfolding find_usage update_usage
any-update_usage p id f [] r found h = ground arith
any-update_usage p id f (x ∷ rs) r found h = ground (arith, any-update_usage p id f rs r)

rate_violated-settle :
    (now id actual : ℕ) (evidence billable : Option ℕ) (source : Option CostSource)
    (ledger : Ledger) (r : Usage)
    → find_usage id ledger ≡ some r
    → r.reserved_units < actual
    → rate_violated r.provider r.model r.rate_version
        (update_usage id (settle now actual evidence billable source) ledger)
      ≡ true
unfolding rate_violated
rate_violated-settle now id actual evidence billable source ledger r found above =
    any-update_usage (λ x. of_tariff r.provider r.model r.rate_version x && overcharged x) id
      (settle now actual evidence billable source) ledger r found (ground arith)

reserve_violated :
    (now : ℕ) (q : Request) (ledger : Ledger)
    → rate_violated q.provider q.model q.rate_version ledger ≡ true
    → reserve now q ledger ≡ (err budget_error, ledger)
unfolding reserve
reserve_violated now q ledger h = ground arith

-- A charge above its reservation is recorded although the reconciliation raises, and from then on
-- every reservation on the same version of the tariff is refused, whoever asks for it.
pub overcharge_blocks_tariff :
    (now later principal id actual : ℕ) (evidence billable : Option ℕ) (source : Option CostSource)
    (ledger : Ledger) (r : Usage) (q : Request)
    → find_usage id ledger ≡ some r
    → r.principal ≡ principal
    → r.actual_units ≡ none
    → r.reserved_units < actual
    → q.provider ≡ r.provider
    → q.model ≡ r.model
    → q.rate_version ≡ r.rate_version
    → let paid = reconcile now principal id actual evidence billable source ledger in
      (paid.0 ≡ err budget_error)
      × (find_usage id paid.1 ≡ some (settle now actual evidence billable source r))
      × (reserve later q paid.1 ≡ (err budget_error, paid.1))
overcharge_blocks_tariff now later principal id actual evidence billable source ledger r q found own
      unpaid above p m v =
    let f = settle now actual evidence billable source in
    rw
      (reconcile_unpaid now principal id actual evidence billable source ledger r (found, own)
        unpaid)
      (
        ground arith,
        find_usage-update_usage_self id f ledger r (λ x. refl) found,
        reserve_violated later q (update_usage id f ledger) (
            rw (p, m, v)
              (rate_violated-settle now id actual evidence billable source ledger r found above)),
      )
