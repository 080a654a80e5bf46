-- ===== src/Access/Qdrant/Temporal.antt =====
-- The temporal filter of acl.py against the half-open interval of an edition.
use rag_assistant.Prelude.{
  ℕ, Bool, true, not, ◌&&◌, ◌||◌, Option, none, some, ◌≡◌, arith, get_or, ltb, leb, is_none,
}
use rag_assistant.Documents.{Document}
use rag_assistant.Access.Qdrant.Language.{FilterLanguage}
use rag_assistant.Access.Qdrant.Payload.{Edition, payload_of}
use rag_assistant.Access.Qdrant.{with_temporal_filter}

abbrev starts_by : Option ℕ → ℕ → Bool
starts_by none d = true
starts_by (some a) d = leb a d

abbrev ends_after : Option ℕ → ℕ → Bool
ends_after none d = true
ends_after (some b) d = ltb d b

-- Whether the edition is in force on a day: its half-open interval holds the day, an open end being
-- no bound, and an edition with no date at all must be flagged current.
abbrev pub in_force : Edition → ℕ → Bool
in_force e d =
    starts_by e.starts d
    && (ends_after e.ends d && (e.current || (not (is_none e.starts) || not (is_none e.ends))))

module _ (q : FilterLanguage) (doc : Document) (e : Edition) where
  open q use {
    holds, holds-match_value, holds-lte, holds-gt, holds-is_empty, holds-must, holds-should,
    holds-must_not,
  }

  -- A temporal filter over an access filter lets a point through exactly if the access filter does
  -- and the edition is in force on the requested date, which is today's if none is requested.
  pub with_temporal_filter-in_force :
      (access : q.Condition) (as_of_date : Option ℕ) (today : ℕ)
      → holds (with_temporal_filter q (some access) as_of_date today) (payload_of doc e)
        ≡ (holds access (payload_of doc e) && in_force e (get_or as_of_date today))
  unfolding with_temporal_filter
  with_temporal_filter-in_force access as_of_date today =
      simp
        (
          holds-must, holds-should, holds-must_not, holds-is_empty, holds-lte, holds-gt,
          holds-match_value,
        )
        (ground arith)
