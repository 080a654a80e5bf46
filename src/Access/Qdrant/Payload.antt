-- ===== src/Access/Qdrant/Payload.antt =====
-- The metadata of a point: what server/app/domain/knowledge/chunk.py carries of a chunk's document
-- and act version, as acl.py addresses it.
use rag_assistant.Prelude.{ℕ, Bool, Option, none, some}
use rag_assistant.Documents.{Document}
use rag_assistant.Access.Qdrant.Language.{
  Value, null, number, text, date, visibility_of, flag, visibility, owner_id, group_id, doc_domain,
  effective_from, effective_to, is_current, Payload,
}

-- The metadata of a chunk's act version and domain.
pub record Edition : Type 0 where
  pub domain : ℕ
  pub starts : Option ℕ
  pub ends : Option ℕ
  pub current : Bool

abbrev or_null : (ℕ → Value) → Option ℕ → Value
or_null f none = null
or_null f (some n) = f n

-- The payload of a point of the document.
abbrev pub payload_of : Document → Edition → Payload
payload_of doc e visibility = visibility_of doc.visibility
payload_of doc e owner_id = or_null number doc.owner_id
payload_of doc e group_id = or_null number doc.group_id
payload_of doc e doc_domain = text e.domain
payload_of doc e effective_from = or_null date e.starts
payload_of doc e effective_to = or_null date e.ends
payload_of doc e is_current = flag e.current
