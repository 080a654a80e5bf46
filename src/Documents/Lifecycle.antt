-- ===== src/Documents/Lifecycle.antt =====
-- The lifecycle of server/app/domain/knowledge/document.py: `mark_done` and `mark_failed`.
use rag_assistant.Prelude.{
  ℕ, String, true, false, Option, some, ok, err, Result, ◌≡◌, business_rule_violation, refl, ◌⊎◌,
  Bool-cases, inl, inr,
}
use rag_assistant.Documents.{
  Document, DocumentStatus, is_active, is_terminal, done, failed, mark_done, mark_failed,
}

-- A call of a lifecycle method, with what it is given.
pub data Transition : Type 0 where
  to_done : ℕ → ℕ → ℕ → Option String → Option String → Transition
  to_failed : String → Transition

abbrev pub apply_transition : Transition → Document → Result Document
apply_transition (to_done now n m w q) doc = mark_done now n m w q doc
apply_transition (to_failed error) doc = mark_failed error doc

-- The status that a call leads to, and what it leaves in the fields that only one of them writes.
abbrev pub target : Transition → DocumentStatus
target (to_done now n m w q) = done
target (to_failed error) = failed

abbrev pub error_after : Transition → Document → Option String
error_after (to_done now n m w q) doc = doc.error_message
error_after (to_failed error) doc = some error

abbrev pub chunks_after : Transition → Document → Option ℕ
chunks_after (to_done now n m w q) doc = some n
chunks_after (to_failed error) doc = doc.chunks

abbrev pub indexed_after : Transition → Document → Option ℕ
indexed_after (to_done now n m w q) doc = some now
indexed_after (to_failed error) doc = doc.indexed_at

refused :
    (t : Transition) (doc : Document)
    → is_active doc.status ≡ false
    → apply_transition t doc ≡ err business_rule_violation
unfolding mark_done mark_failed
refused (to_done now n m w q) doc h = rw h refl
refused (to_failed error) doc h = rw h refl

-- The first lifecycle call on an active document decides: it succeeds, leads to the status of the
-- call, which is terminal, with its error text, its number of chunks and its time of indexing, keeps
-- the identity, the name, the owner, the group and the visibility, and every later call raises a
-- business rule violation, whichever it is. On a document that is not active every call raises it.
pub apply_transition-lifecycle :
    (t : Transition) (doc : Document)
    → ((is_active doc.status ≡ true)
        × (doc' : Document) × (apply_transition t doc ≡ ok doc')
        × (doc'.status ≡ target t)
        × (is_terminal doc'.status ≡ true)
        × (doc'.error_message ≡ error_after t doc)
        × (doc'.chunks ≡ chunks_after t doc)
        × (doc'.indexed_at ≡ indexed_after t doc)
        × (doc'.id ≡ doc.id)
        × (doc'.filename ≡ doc.filename)
        × (doc'.owner_id ≡ doc.owner_id)
        × (doc'.group_id ≡ doc.group_id)
        × (doc'.visibility ≡ doc.visibility)
        × ((u : Transition) → apply_transition u doc' ≡ err business_rule_violation))
      ⊎ ((is_active doc.status ≡ false) × (apply_transition t doc ≡ err business_rule_violation))
unfolding mark_done mark_failed
apply_transition-lifecycle t doc = elim (Bool-cases (is_active doc.status)) [
  | inr h ↦ inr (h, refused t doc h)
  | inl h ↦ inl (decided t h)
]
  where
    decided :
        (t : Transition)
        → is_active doc.status ≡ true
        → (is_active doc.status ≡ true)
          × (doc' : Document) × (apply_transition t doc ≡ ok doc')
          × (doc'.status ≡ target t)
          × (is_terminal doc'.status ≡ true)
          × (doc'.error_message ≡ error_after t doc)
          × (doc'.chunks ≡ chunks_after t doc)
          × (doc'.indexed_at ≡ indexed_after t doc)
          × (doc'.id ≡ doc.id)
          × (doc'.filename ≡ doc.filename)
          × (doc'.owner_id ≡ doc.owner_id)
          × (doc'.group_id ≡ doc.group_id)
          × (doc'.visibility ≡ doc.visibility)
          × ((u : Transition) → apply_transition u doc' ≡ err business_rule_violation)
    decided (to_done now n m w q) h =
        let doc' : Document = record doc {
          status = done;
          chunks = some n;
          chars = some m;
          indexed_at = some now;
          warning_message = w;
          quality_score = q;
        } in
        (
          h,
          doc',
          rw h refl,
          refl,
          refl,
          refl,
          refl,
          refl,
          refl,
          refl,
          refl,
          refl,
          refl,
          λ u. refused u doc' refl,
        )
    decided (to_failed error) h =
        let doc' : Document = record doc { status = failed; error_message = some error } in
        (
          h,
          doc',
          rw h refl,
          refl,
          refl,
          refl,
          refl,
          refl,
          refl,
          refl,
          refl,
          refl,
          refl,
          λ u. refused u doc' refl,
        )
