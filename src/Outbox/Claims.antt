-- ===== src/Outbox/Claims.antt =====
-- Claiming a batch of the outbox: which entries it takes, and that no two dispatchers hold the same.
use rag_assistant.Prelude.{
  ==_iff, Bool, Bool-cases, [], ap, arith, false, if◌then◌else◌, inl, inr, ltb, map, refl, select,
  subst, sym, true, ℕ, ◌&&◌, ◌-◌, ◌==◌, ◌||◌, ◌∙◌, ◌∷◌, ◌≡◌,
}
use rag_assistant.Outbox.Entry.{VectorOutboxEntry}
use rag_assistant.Outbox.Table.{Outbox, claimable, claim, claim_batch}

abbrev pub has_id : ℕ → Outbox → Bool
has_id id [] = false
has_id id (e ∷ es) = e.id == id || has_id id es

abbrev pub IsUnique : Outbox → Type 0
IsUnique [] = Unit
IsUnique (e ∷ es) = (has_id e.id es ≡ false) × IsUnique es

abbrev pub first : ℕ → Outbox → Outbox
first n [] = []
first n (e ∷ es) = let rest = first (n - 1) es in if n == 0 then [] else e ∷ rest

claim_batch_full :
    (worker now : ℕ) (skip : ℕ → Bool) (limit : ℕ) (rows : Outbox)
    → ltb 0 limit ≡ false
    → (claim_batch worker now skip limit rows).1 ≡ []
unfolding claim_batch
claim_batch_full worker now skip limit [] full = refl
claim_batch_full worker now skip limit (e ∷ es) full = elim (Bool-cases (claimable now skip e)) [
  | inl due ↦ rw (due, full) (claim_batch_full worker now skip limit es full)
  | inr other ↦ rw other (claim_batch_full worker now skip limit es full)
]

first_full : (limit : ℕ) (rows : Outbox) → ltb 0 limit ≡ false → first limit rows ≡ []
first_full limit [] full = refl
first_full limit (e ∷ es) full = ground arith

-- A batch consists of the first entries, in the order of their ids and up to the limit, that wait,
-- are due and are not locked by another transaction, each marked as in progress by the worker.
pub claim_batch_lem :
    (worker now : ℕ) (skip : ℕ → Bool) (limit : ℕ) (rows : Outbox)
    → (claim_batch worker now skip limit rows).1
      ≡ map (claim worker now) (first limit (select (claimable now skip) rows))
unfolding claim_batch
claim_batch_lem worker now skip limit [] = refl
claim_batch_lem worker now skip limit (e ∷ es) = elim (Bool-cases (claimable now skip e)) [
  | inr other ↦ rw other (claim_batch_lem worker now skip limit es)
  | inl due ↦ elim (Bool-cases (ltb 0 limit)) [
    | inl room ↦ rw (due, room) (ground (arith, claim_batch_lem worker now skip (limit - 1) es))
    | inr full ↦
        rw (due, full)
          (claim_batch_full worker now skip limit es full
            ∙ ap (map (claim worker now))
                (sym (first_full limit (e ∷ select (claimable now skip) es) full)))
  ]
]

pub claim_batch_absent :
    (worker now : ℕ) (skip : ℕ → Bool) (limit id : ℕ) (rows : Outbox)
    → has_id id rows ≡ false
    → (has_id id (claim_batch worker now skip limit rows).0 ≡ false)
      × (has_id id (claim_batch worker now skip limit rows).1 ≡ false)
unfolding claim_batch
claim_batch_absent worker now skip limit id [] h = (refl, refl)
claim_batch_absent worker now skip limit id (e ∷ es) h =
    elim (Bool-cases (claimable now skip e && ltb 0 limit)) [
      | inl taken ↦
          rw taken
            (ground (arith, claim_batch_absent worker now skip (limit - 1) id es (ground arith)))
      | inr kept ↦
          rw kept (ground (arith, claim_batch_absent worker now skip limit id es (ground arith)))
    ]

claim_batch_again :
    (worker now : ℕ) (skip : ℕ → Bool) (limit : ℕ) (e : VectorOutboxEntry) (es : Outbox) (id : ℕ)
    → ((n : ℕ) → has_id id (claim_batch worker now skip n es).1 ≡ false)
    → e.id == id ≡ false
    → has_id id (claim_batch worker now skip limit (e ∷ es)).1 ≡ false
unfolding claim_batch
claim_batch_again worker now skip limit e es id h other =
    elim (Bool-cases (claimable now skip e && ltb 0 limit)) [
      | inl taken ↦ rw taken (ground (arith, h (limit - 1)))
      | inr kept ↦ rw kept (h limit)
    ]

-- Two batches that are claimed one after the other, by any workers, at any times and with any
-- limits, have no entry in common, if the ids of the table are unique and nothing happens between.
pub claim_batch-disjoint :
    (worker worker' now now' : ℕ) (skip skip' : ℕ → Bool) (limit limit' id : ℕ) (rows : Outbox)
    → IsUnique rows
    → has_id id (claim_batch worker now skip limit rows).1 ≡ true
    → has_id id (claim_batch worker' now' skip' limit' (claim_batch worker now skip limit rows).0).1
      ≡ false
unfolding claim_batch
claim_batch-disjoint worker worker' now now' skip skip' limit limit' id [] u h = ground arith
claim_batch-disjoint worker worker' now now' skip skip' limit limit' id (e ∷ es) u h =
    elim (Bool-cases (e.id == id)) [
      | inl same ↦
          let gone = subst (λ x. has_id x es ≡ false) ((==_iff e.id id).0 same) u.0 in
          elim (Bool-cases (claimable now skip e && ltb 0 limit)) [
            | inl taken ↦
                let (kept, more) = claim_batch_absent worker now skip (limit - 1) id es gone in
                rw taken
                  (claim_batch_absent worker' now' skip' limit' id
                    (claim_batch worker now skip (limit - 1) es).0 kept).1
            | inr kept ↦
                let gone' = (claim_batch_absent worker now skip limit id es gone).1 in ground arith
          ]
      | inr other ↦ elim (Bool-cases (claimable now skip e && ltb 0 limit)) [
        | inl taken ↦ rw taken (
            claim_batch-disjoint worker worker' now now' skip skip' (limit - 1) limit' id es u.1
              (ground arith))
        | inr kept ↦ rw kept (
            claim_batch_again worker' now' skip' limit' e (claim_batch worker now skip limit es).0
              id
              (λ n.
                claim_batch-disjoint worker worker' now now' skip skip' limit n id es u.1
                  (ground arith))
              other)
      ]
    ]
