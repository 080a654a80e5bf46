-- ===== src/Access/Qdrant/Language.antt =====
-- The part of Qdrant's filter language that acl.py uses, and its documented meaning. A point's
-- payload is given by the metadata of the chunk: the fields of its document and of its act version.
use rag_assistant.Prelude.{
  ℕ, Bool, true, false, not, List, ◌∷◌, ◌≡◌, ◌==◌, any, all, contains, ltb, leb,
}
use rag_assistant.Documents.{DocumentVisibility, same_visibility}

-- The payload keys `metadata.visibility`, `metadata.owner_id` and so on.
pub data Key : Type 0 where
  visibility owner_id group_id doc_domain effective_from effective_to is_current : Key

-- A payload value. A domain is one of finitely many strings, given by a number; a date is a number
-- of days. `null` is also a key that the payload leaves out.
pub data Value : Type 0 where
  null : Value
  number text date : ℕ → Value
  visibility_of : DocumentVisibility → Value
  flag : Bool → Value

abbrev pub same_flag : Bool → Bool → Bool
same_flag true b = b
same_flag false b = not b

abbrev pub same_value : Value → Value → Bool
same_value (number a) (number b) = a == b
same_value (text a) (text b) = a == b
same_value (date a) (date b) = a == b
same_value (visibility_of v) (visibility_of w) = same_visibility v w
same_value (flag a) (flag b) = same_flag a b
same_value _ _ = false

abbrev pub one_of : Value → List ℕ → Bool
one_of (number a) ids = contains a ids
one_of _ ids = false

abbrev pub at_most : Value → ℕ → Bool
at_most (date a) d = leb a d
at_most _ d = false

abbrev pub later_than : Value → ℕ → Bool
later_than (date a) d = ltb d a
later_than _ d = false

abbrev pub is_null : Value → Bool
is_null null = true
is_null _ = false

abbrev pub Payload : Type 0
Payload = Key → Value

pub record FilterLanguage : Type 1 where
  pub Condition : Type 0
  pub match_value : Key → Value → Condition
  pub match_any : Key → List ℕ → Condition
  pub lte : Key → ℕ → Condition
  pub gt : Key → ℕ → Condition
  pub is_empty : Key → Condition
  pub must : List Condition → Condition
  pub should : List Condition → Condition
  pub must_not : List Condition → Condition
  -- whether a point with this payload passes the condition
  pub holds : Condition → Payload → Bool
  pub holds-match_value :
      (k : Key) (v : Value) (p : Payload) → holds (match_value k v) p ≡ same_value v (p k)
  pub holds-match_any :
      (k : Key) (ids : List ℕ) (p : Payload) → holds (match_any k ids) p ≡ one_of (p k) ids
  pub holds-lte : (k : Key) (d : ℕ) (p : Payload) → holds (lte k d) p ≡ at_most (p k) d
  pub holds-gt : (k : Key) (d : ℕ) (p : Payload) → holds (gt k d) p ≡ later_than (p k) d
  pub holds-is_empty : (k : Key) (p : Payload) → holds (is_empty k) p ≡ is_null (p k)
  pub holds-must : (cs : List Condition) (p : Payload) → holds (must cs) p ≡ all (λ c. holds c p) cs
  -- an empty `should` is no constraint, so the law speaks of a list that has an element
  pub holds-should :
      (c : Condition) (cs : List Condition) (p : Payload)
      → holds (should (c ∷ cs)) p ≡ any (λ d. holds d p) (c ∷ cs)
  pub holds-must_not :
      (cs : List Condition) (p : Payload) → holds (must_not cs) p ≡ all (λ c. not (holds c p)) cs
