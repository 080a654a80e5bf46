-- ===== src/Budget/Totals.antt =====
-- Rows of the table by operation id, and the rolling totals under an insert or an update.
use rag_assistant.Prelude.{
  ℕ, ◌+◌, true, false, none, some, [], ◌∷◌, ◌≡◌, refl, arith, ◌==◌, Bool-cases, inl, inr, subst,
  ==_iff, Option-cases,
}
use rag_assistant.Budget.Table.{
  Usage, Ledger, find_usage, update_usage, sum_by, total_units, charge,
}

-- Operation ids are a primary key.
abbrev pub IsUnique : Ledger → Type 0
IsUnique [] = Unit
IsUnique (r ∷ rs) = (find_usage r.operation_id rs ≡ none) × IsUnique rs

-- An update that leaves the key alone.
abbrev pub KeepsId : (Usage → Usage) → Type 0
KeepsId f = (r : Usage) → (f r).operation_id ≡ r.operation_id

pub find_usage-id :
    (id : ℕ) (rs : Ledger) (r : Usage) → find_usage id rs ≡ some r → r.operation_id ≡ id
unfolding find_usage
find_usage-id id [] r h = ground arith
find_usage-id id (x ∷ rs) r h = ground (arith, find_usage-id id rs r)

pub update_usage_absent :
    (id : ℕ) (f : Usage → Usage) (rs : Ledger) → find_usage id rs ≡ none → update_usage id f rs ≡ rs
unfolding find_usage update_usage
update_usage_absent id f [] h = refl
update_usage_absent id f (x ∷ rs) h = ground (arith, update_usage_absent id f rs)

pub find_usage-update_usage_self :
    (id : ℕ) (f : Usage → Usage) (rs : Ledger) (r : Usage)
    → KeepsId f
    → find_usage id rs ≡ some r
    → find_usage id (update_usage id f rs) ≡ some (f r)
unfolding find_usage update_usage
find_usage-update_usage_self id f [] r k h = ground arith
find_usage-update_usage_self id f (x ∷ rs) r k h =
    ground (arith, k x, find_usage-update_usage_self id f rs r k)

pub find_usage-update_usage-none :
    (id j : ℕ) (f : Usage → Usage) (rs : Ledger)
    → KeepsId f
    → find_usage j rs ≡ none
    → find_usage j (update_usage id f rs) ≡ none
unfolding find_usage update_usage
find_usage-update_usage-none id j f [] k h = refl
find_usage-update_usage-none id j f (x ∷ rs) k h =
    ground (arith, k x, find_usage-update_usage-none id j f rs k)

pub update_usage-IsUnique :
    (id : ℕ) (f : Usage → Usage) (rs : Ledger)
    → KeepsId f
    → IsUnique rs
    → IsUnique (update_usage id f rs)
unfolding update_usage
update_usage-IsUnique id f [] k u = tt
update_usage-IsUnique id f (x ∷ rs) k u = elim (Bool-cases (x.operation_id == id)) [
  | inl same ↦
      rw (same, k x)
        (
          find_usage-update_usage-none id x.operation_id f rs k u.0,
          update_usage-IsUnique id f rs k u.1,
        )
  | inr other ↦ rw other (
    find_usage-update_usage-none id x.operation_id f rs k u.0,
    update_usage-IsUnique id f rs k u.1,
  )
]

find_usage-cons_self :
    (id : ℕ) (x r : Usage) (rs : Ledger)
    → (x.operation_id == id) ≡ true
    → find_usage id (x ∷ rs) ≡ some r
    → r ≡ x
unfolding find_usage
find_usage-cons_self id x r rs same h = ground arith

pub find_usage-cons_other :
    (id : ℕ) (x r : Usage) (rs : Ledger)
    → (x.operation_id == id) ≡ false
    → find_usage id (x ∷ rs) ≡ some r
    → find_usage id rs ≡ some r
unfolding find_usage
find_usage-cons_other id x r rs other h = ground arith

pub same_key_absent :
    (id : ℕ) (x : Usage) (rs : Ledger)
    → (x.operation_id == id) ≡ true
    → find_usage x.operation_id rs ≡ none
    → find_usage id rs ≡ none
same_key_absent id x rs same h =
    subst (λ j. find_usage j rs ≡ none) ((==_iff x.operation_id id).0 same) h

-- An update of the row of an operation changes a sum by the difference of the row's parts.
pub sum_by-update_usage :
    (c : Usage → ℕ) (id : ℕ) (f : Usage → Usage) (rs : Ledger) (r : Usage)
    → IsUnique rs
    → find_usage id rs ≡ some r
    → sum_by c (update_usage id f rs) + c r ≡ sum_by c rs + c (f r)
unfolding update_usage sum_by
sum_by-update_usage c id f [] r u h = unfold find_usage in ground arith
sum_by-update_usage c id f (x ∷ rs) r u h = elim (Bool-cases (x.operation_id == id)) [
  | inl same ↦
      (let e = find_usage-cons_self id x r rs same h in
        rw (same, e, update_usage_absent id f rs (same_key_absent id x rs same u.0)) (omega arith))
  | inr other ↦
      rw other (
        omega
          (arith, sum_by-update_usage c id f rs r u.1 (find_usage-cons_other id x r rs other h)))
]

-- An update by one row's key leaves the sum alone where it leaves every row's part alone.
pub sum_by-update_usage_same :
    (c : Usage → ℕ) (id : ℕ) (f : Usage → Usage) (rs : Ledger)
    → ((r : Usage) → find_usage id rs ≡ some r → c (f r) ≡ c r)
    → IsUnique rs
    → sum_by c (update_usage id f rs) ≡ sum_by c rs
sum_by-update_usage_same c id f rs h u = elim (Option-cases (find_usage id rs)) [
  | inl absent ↦ rw (update_usage_absent id f rs absent)
  | inr (r, found) ↦ omega (arith, sum_by-update_usage c id f rs r u found, h r found)
]

pub total_units-update_usage :
    (span t principal id : ℕ) (f : Usage → Usage) (rs : Ledger) (r : Usage)
    → IsUnique rs
    → find_usage id rs ≡ some r
    → total_units span t principal (update_usage id f rs) + charge span t principal r
      ≡ total_units span t principal rs + charge span t principal (f r)
unfolding total_units
total_units-update_usage span t principal = sum_by-update_usage (charge span t principal)
