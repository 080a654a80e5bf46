-- ===== src/Outbox/Completes.antt =====
-- When applying an outbox entry completes the indexing of its document.
use rag_assistant.Prelude.{
  Bool, Bool-cases, List, Option, String, [], ap, arith, if◌then◌else◌, inl, inr, none, not, refl,
  some, suc, true, ℕ, ◌&&◌, ◌==◌, ◌||◌, ◌∙◌, ◌∷◌, ◌≡◌, ◌⊎◌, all,
}
use rag_assistant.Documents.{DocumentStatus, indexing}
use rag_assistant.Documents
use rag_assistant.Outbox.Entry.{
  VectorOutboxEntry, OutboxStatus, pending, in_progress, done, failed, dead_letter, is_document,
  is_done, is_unfinished, is_failed,
}
use rag_assistant.Outbox.{
  Store, DocumentRow, all_applied, apply_one, mark_done_if_indexing, is_indexing, complete,
}
use rag_assistant.Outbox.Table.{Outbox, update_entry, mark_done, finish, count_by_document}

-- The status of a document, if it has a row.
unfoldable pub find_status : ℕ → List DocumentRow → Option DocumentStatus
find_status id [] = none
find_status id (d ∷ ds) = if d.document_id == id then some d.document_status else find_status id ds

-- Every entry of an aggregate id, but the one entry, has been applied.
abbrev pub others_done : ℕ → ℕ → Outbox → Bool
others_done aggregate id rows =
    all (λ e. not (e.aggregate_id == aggregate) || (e.id == id || is_done e.status)) rows

done_iff :
    (s : OutboxStatus) (n m : ℕ)
    → (((if is_unfinished s then suc n else n) == 0) && ((if is_failed s then suc m else m) == 0))
      ≡ (is_done s && (n == 0 && m == 0))
done_iff pending n m = ground arith
done_iff in_progress n m = ground arith
done_iff done n m = ground arith
done_iff failed n m = ground arith
done_iff dead_letter n m = ground arith

all_applied-cons :
    (id : ℕ) (e : VectorOutboxEntry) (es : Outbox)
    → all_applied id (e ∷ es)
      ≡ ((not (e.aggregate_id == id) || is_done e.status) && all_applied id es)
unfolding count_by_document
all_applied-cons id e es = elim (Bool-cases (e.aggregate_id == id)) [
  | inl own ↦ rw own (done_iff e.status (count_by_document id es).0 (count_by_document id es).1)
  | inr other ↦ rw other refl
]

all_applied-none : (id : ℕ) → all_applied id [] ≡ true
unfolding count_by_document
all_applied-none id = refl

all_applied-mark_done :
    (now aggregate id : ℕ) (rows : Outbox)
    → all_applied aggregate (mark_done now id rows) ≡ others_done aggregate id rows
unfolding mark_done update_entry
all_applied-mark_done now aggregate id [] = all_applied-none aggregate
all_applied-mark_done now aggregate id (e ∷ es) =
    let below = all_applied-mark_done now aggregate id es in
    elim (Bool-cases (e.id == id)) [
      | inl same ↦ rw same (
          all_applied-cons aggregate (finish now e) (update_entry id (finish now) es)
          ∙ ap (λ b. (not (e.aggregate_id == aggregate) || true) && b) below)
      | inr other ↦
          rw other
            (ground (arith, all_applied-cons aggregate e (update_entry id (finish now) es), below))
    ]

find_status-mark_done_if_indexing :
    (now id : ℕ) (ds : List DocumentRow)
    → find_status id ds ≡ some indexing
    → find_status id (mark_done_if_indexing now id ds) ≡ some Documents.done
unfolding find_status mark_done_if_indexing
find_status-mark_done_if_indexing now id [] h = ground arith
find_status-mark_done_if_indexing now id (d ∷ ds) h = elim (Bool-cases (d.document_id == id)) [
  | inl same ↦
      rw same (let is : is_indexing d.document_status ≡ true = ground arith in rw is (ground arith))
  | inr other ↦ rw other (rw other (find_status-mark_done_if_indexing now id ds (ground arith)))
]

-- An entry of a document that is being indexed, once applied, completes the document if every other
-- entry with the same aggregate id, of whatever type, has been applied, and leaves it as it is
-- otherwise.
pub apply_one-completes :
    (now : ℕ) (e : VectorOutboxEntry) (s : Store)
    → is_document e.aggregate_type ≡ true
    → find_status e.aggregate_id s.documents ≡ some indexing
    → find_status e.aggregate_id (apply_one now none e s).documents
      ≡ some (if others_done e.aggregate_id e.id s.outbox then Documents.done else indexing)
unfolding apply_one
apply_one-completes now e s h i =
    let counted = all_applied-mark_done now e.aggregate_id e.id s.outbox in
    elim (Bool-cases (others_done e.aggregate_id e.id s.outbox)) [
      | inl all_done ↦
          rw (h, counted, all_done)
            (find_status-mark_done_if_indexing now e.aggregate_id s.documents i)
      | inr waits ↦ rw (h, counted, waits) i
    ]

mark_done_if_indexing-moves :
    (now id key : ℕ) (ds : List DocumentRow)
    → (find_status key (mark_done_if_indexing now id ds) ≡ find_status key ds)
      ⊎ ((find_status key ds ≡ some indexing)
          × (find_status key (mark_done_if_indexing now id ds) ≡ some Documents.done))
unfolding find_status mark_done_if_indexing
mark_done_if_indexing-moves now id key [] = inl refl
mark_done_if_indexing-moves now id key (d ∷ ds) =
    elim (Bool-cases (d.document_id == id && is_indexing d.document_status)) [
      | inl hit ↦ rw hit (elim (Bool-cases (d.document_id == key)) [
        | inl same ↦ rw same (inr (ground arith, refl))
        | inr other ↦ rw other (mark_done_if_indexing-moves now id key ds)
      ])
      | inr miss ↦ rw miss (elim (Bool-cases (d.document_id == key)) [
        | inl same ↦ rw same (inl refl)
        | inr other ↦ rw other (mark_done_if_indexing-moves now id key ds)
      ])
    ]

-- Whatever the outcome of applying an entry, a document keeps its status, or it was being indexed
-- and is now done.
pub apply_one-moves :
    (now key : ℕ) (outcome : Option String) (e : VectorOutboxEntry) (s : Store)
    → let s' = apply_one now outcome e s in
      (find_status key s'.documents ≡ find_status key s.documents)
      ⊎ ((find_status key s.documents ≡ some indexing)
          × (find_status key s'.documents ≡ some Documents.done))
unfolding apply_one
apply_one-moves now key (some error) e s = inl refl
apply_one-moves now key none e s =
    elim (Bool-cases
      (is_document e.aggregate_type && all_applied e.aggregate_id (mark_done now e.id s.outbox))) [
        | inl complete ↦
            rw complete (mark_done_if_indexing-moves now e.aggregate_id key s.documents)
        | inr waits ↦ rw waits (inl refl)
      ]
