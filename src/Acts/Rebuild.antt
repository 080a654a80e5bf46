-- ===== src/Acts/Rebuild.antt =====
-- `rebuild`, `remove` and `correct` of timeline.py.
pub mod Ordered
pub mod Disjoint
pub mod Single
use rag_assistant.Prelude.{
  ℕ, Bool, true, false, not, ◌&&◌, ◌||◌, Option, none, some, List, [], ◌∷◌, Result, ok, err, ◌>>=◌,
  ◌>>◌, option_eq, select, any, min, if◌then◌else◌,
}
use text.Mathlib.Text.{◌==◌ as str_eq}
use rag_assistant.Prelude.{String}
use rag_assistant.Acts.{
  ActVersion, Ends, validate_dates, get_version, starts_by, ends_after, key_le, next_start,
  lookup_end, explicit_ends,
}
use rag_assistant.Acts.Sort.{sort}

-- `min(expiry, boundary) if expiry and boundary else expiry or boundary`
abbrev pub earlier : Option ℕ → Option ℕ → Option ℕ
earlier none boundary = boundary
earlier (some e) none = some e
earlier (some e) (some b) = some (min e b)

-- One round of the loop in `rebuild`: the version with its new end, checked, and not current.
unfoldable pub rebuild_version : Ends → Option ℕ → ActVersion → Result ActVersion
unfolding validate_dates
rebuild_version ends boundary v = do
  expiry ← lookup_end ends v.id
  let v' = record v { effective_to = earlier expiry boundary; is_current = false }
  validate_dates none v'
  ok v'

unfoldable pub rebuild_versions : Ends → List ActVersion → Result (List ActVersion)
rebuild_versions ends [] = ok []
rebuild_versions ends (v ∷ vs) = do
  v' ← rebuild_version ends (next_start vs) v
  vs' ← rebuild_versions ends vs
  ok (v' ∷ vs')

abbrev pub is_eligible : ℕ → ActVersion → Bool
is_eligible today v = starts_by v.effective_from today && ends_after v.effective_to today

-- `if eligible: eligible[-1].is_current = True`
unfoldable pub mark_last_eligible : ℕ → List ActVersion → List ActVersion
mark_last_eligible today [] = []
mark_last_eligible today (v ∷ vs) =
    let rest = mark_last_eligible today vs in
    if any (is_eligible today) vs
    then v ∷ rest
    else if is_eligible today v
    then record v { is_current = true } ∷ vs
    else v ∷ vs

unfoldable pub rebuild : List ActVersion → Ends → ℕ → Result (List ActVersion)
unfolding rebuild_versions mark_last_eligible
rebuild versions ends today = do
  ordered ← rebuild_versions ends (sort key_le versions)
  ok (mark_last_eligible today ordered)

unfoldable pub remove : List ActVersion → ℕ → ℕ → Result (List ActVersion)
unfolding get_version explicit_ends rebuild
remove versions version_id today = do
  found ← get_version (some version_id) versions
  rebuild (select (λ v. not (option_eq v.id (some version_id))) versions) (explicit_ends versions)
      today

-- `edited if version.id == edited.id else version`
unfoldable pub replace_version : ActVersion → List ActVersion → List ActVersion
replace_version edited [] = []
replace_version edited (v ∷ vs) =
    (if option_eq v.id edited.id then edited else v) ∷ replace_version edited vs

abbrev pub check_end : Bool → ActVersion → Result (Unit {0})
check_end false edited = ok tt
check_end true edited = validate_dates edited.effective_to edited

abbrev pub edited_ends : Bool → ActVersion → Ends → Ends
edited_ends false edited ends = ends
edited_ends true edited ends = (edited.id, edited.effective_to) ∷ ends

unfoldable pub correct : List ActVersion → ActVersion → Bool → ℕ → Result (List ActVersion)
unfolding get_version validate_dates explicit_ends replace_version rebuild
correct versions edited end_provided today = do
  found ← get_version edited.id versions
  check_end end_provided edited
  rebuild (replace_version edited versions)
      (edited_ends end_provided edited (explicit_ends versions)) today
