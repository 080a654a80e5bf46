-- ===== src/Acts/Changes.antt =====
-- `changed_versions` of timeline.py: what has to be written, demotions first.
use rag_assistant.Prelude.{
  Bool, Option, String, [], false, if◌then◌else◌, none, not, select, some, true, ℕ, ◌&&◌, ◌==◌,
  ◌||◌, ◌∷◌, List, option_eq,
}
use text.Mathlib.Text.{◌==◌ as str_eq}
use rag_assistant.Acts.{ActVersion}
use rag_assistant.Acts.Sort.{sort}

abbrev same_bool : Bool → Bool → Bool
same_bool true b = b
same_bool false b = not b

abbrev same_text : Option String → Option String → Bool
same_text none none = true
same_text (some a) (some b) = str_eq a b
same_text _ _ = false

-- The dataclass compares its fields.
abbrev pub same_version : ActVersion → ActVersion → Bool
same_version v w =
    (option_eq v.id w.id && (option_eq v.act_id w.act_id && v.document_id == w.document_id))
    && ((option_eq v.effective_from w.effective_from && option_eq v.effective_to w.effective_to)
        && ((same_bool v.is_current w.is_current && str_eq v.date_source w.date_source)
            && (same_text v.date_confidence w.date_confidence
                && (option_eq v.verified_by w.verified_by
                    && option_eq v.verified_at w.verified_at))))

-- `{version.id: version for version in self.versions}.get(id)`: the last of the id.
abbrev pub later_or : Option ActVersion → Option ℕ → ActVersion → Option ActVersion
later_or (some w) id v = some w
later_or none id v = if option_eq v.id id then some v else none

abbrev pub find_last : Option ℕ → List ActVersion → Option ActVersion
find_last id [] = none
find_last id (v ∷ vs) = later_or (find_last id vs) id v

abbrev pub differs : ActVersion → Option ActVersion → Bool
differs v none = true
differs v (some w) = not (same_version v w)

abbrev pub is_changed : List ActVersion → Option ℕ → ActVersion → Bool
is_changed versions edited_id v = option_eq v.id edited_id || differs v (find_last v.id versions)

-- `False` before `True`.
abbrev pub current_le : ActVersion → ActVersion → Bool
current_le v w = not v.is_current || w.is_current

unfoldable pub changed_versions : List ActVersion → List ActVersion → Option ℕ → List ActVersion
changed_versions versions candidates edited_id =
    sort current_le (select (is_changed versions edited_id) candidates)
