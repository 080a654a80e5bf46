-- ===== src/Documents/Tests.antt =====
-- A group document under processing, and the theorems on documents applied to it.
use rag_assistant.Prelude.{true, false, none, some, ok, err, business_rule_violation, ◌≡◌, ◌⊎◌}
use rag_assistant.Documents.{Document, internal_group, processing, is_active, is_terminal, failed}
use rag_assistant.Documents.Lifecycle.{
  Transition, to_failed, apply_transition, apply_transition-lifecycle,
}

abbrev statute : Document
statute = record {
  id = some 4;
  filename = "statute.docx";
  visibility = internal_group;
  owner_id = none;
  group_id = some 1;
  status = processing;
  error_message = none;
  warning_message = none;
  quality_score = none;
  chunks = none;
  chars = none;
  indexed_at = none;
}

apply_transition-lifecycle_example :
    ((is_active statute.status ≡ true)
      × (doc : Document) × (apply_transition (to_failed "no text") statute ≡ ok doc)
      × (doc.status ≡ failed)
      × (is_terminal doc.status ≡ true)
      × (doc.error_message ≡ some "no text")
      × (doc.chunks ≡ none)
      × (doc.indexed_at ≡ none)
      × (doc.id ≡ some 4)
      × (doc.filename ≡ "statute.docx")
      × (doc.owner_id ≡ none)
      × (doc.group_id ≡ some 1)
      × (doc.visibility ≡ internal_group)
      × ((u : Transition) → apply_transition u doc ≡ err business_rule_violation))
    ⊎ ((is_active statute.status ≡ false)
        × (apply_transition (to_failed "no text") statute ≡ err business_rule_violation))
apply_transition-lifecycle_example = apply_transition-lifecycle (to_failed "no text") statute
