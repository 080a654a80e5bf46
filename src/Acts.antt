-- ===== src/Acts.antt =====
-- server/app/domain/knowledge/acts: models.py (an act's version and its date checks), policy.py (the
-- scope of a document) and timeline.py (the interval rules). A date is its ordinal, so that
-- `date.min` is 1; confidence is a float that is only stored, kept as text. A timeline is the list
-- of its versions; the copies that the source makes need no counterpart.
pub mod Sort
pub mod Cover
pub mod Insert
pub mod Rebuild
pub mod Changes
pub mod Persistence
pub mod Commands
pub mod Writes
pub mod Sorted
pub mod Saving
pub mod Consistent
pub mod Corrections
pub mod Edits
pub mod Loading
pub mod Relinking
pub mod Joining
pub mod Items
pub mod Updating
pub mod Scope
mod Tests
use rag_assistant.Prelude.{
  ℕ, String, Bool, true, false, not, ◌&&◌, ◌||◌, Option, none, some, List, [], ◌∷◌, map, Result, ok,
  err, ◌>>=◌, ◌>>◌, validation_error, entity_not_found, runtime_error, option_eq, is_none, get_or,
  any, select, nonempty, ltb, leb, ◌==◌, if◌then◌else◌, max, min,
}
use Sort.{sort}

pub record ActVersion : Type 0 where
  pub id : Option ℕ
  pub act_id : Option ℕ
  pub document_id : ℕ
  pub effective_from : Option ℕ
  pub effective_to : Option ℕ
  pub is_current : Bool
  pub date_source : String
  pub date_confidence : Option String
  pub verified_by : Option ℕ
  pub verified_at : Option ℕ

abbrev pub date_min : ℕ
date_min = 1

-- `a is not None and a <= b`, and the like with `<`, for optional dates.
abbrev pub some_le : Option ℕ → Option ℕ → Bool
some_le (some a) (some b) = leb a b
some_le _ _ = false

abbrev pub some_lt : Option ℕ → Option ℕ → Bool
some_lt (some a) (some b) = ltb a b
some_lt _ _ = false

-- `validate_dates(explicit_end=…)`
unfoldable pub validate_dates : Option ℕ → ActVersion → Result (Unit {0})
validate_dates explicit_end v =
    if some_le explicit_end v.effective_from
    then err validation_error
    else if some_lt v.effective_to v.effective_from
    then err validation_error
    else ok tt

unfoldable pub get_version : Option ℕ → List ActVersion → Result ActVersion
get_version version_id [] = err entity_not_found
get_version version_id (v ∷ vs) =
    if option_eq v.id version_id then ok v else get_version version_id vs

-- `x is None or x <= d`, and `x is None or d < x`
abbrev pub starts_by : Option ℕ → ℕ → Bool
starts_by none d = true
starts_by (some a) d = leb a d

abbrev pub ends_after : Option ℕ → ℕ → Bool
ends_after none d = true
ends_after (some b) d = ltb d b

-- The dates `f(version.effective_from)` keeps; the list comprehensions of `is_latest` and
-- `successor_date`.
pub dates_where : (ℕ → Bool) → List ActVersion → List ℕ
dates_where keep [] = []
dates_where keep (v ∷ vs) =
    let rest = dates_where keep vs in
    elim v.effective_from [ none ↦ rest | some d ↦ if keep d then d ∷ rest else rest ]

abbrev pub max_of : ℕ → List ℕ → ℕ
max_of d [] = d
max_of d (e ∷ ds) = max d (max_of e ds)

abbrev pub min_of : ℕ → List ℕ → ℕ
min_of d [] = d
min_of d (e ∷ ds) = min d (min_of e ds)

-- `not current_dates or effective_date >= max(current_dates)`
abbrev at_least_all : ℕ → List ℕ → Bool
at_least_all d [] = true
at_least_all d (e ∷ ds) = leb (max_of e ds) d

unfoldable pub is_latest : List ActVersion → Option ℕ → ℕ → Bool
unfolding dates_where
is_latest versions none today = not (any (λ v. v.is_current) versions)
is_latest versions (some d) today =
    if ltb today d then false else at_least_all d (dates_where (λ e. leb e today) versions)

-- `min(later_dates) if later_dates else None`
abbrev earliest : List ℕ → Option ℕ
earliest [] = none
earliest (d ∷ ds) = some (min_of d ds)

unfoldable pub successor_date : List ActVersion → Option ℕ → Option ℕ
unfolding dates_where
successor_date versions none = none
successor_date versions (some d) = earliest (dates_where (λ e. ltb d e) versions)

-- The two assignments of the loop in `insert_boundary`.
unfoldable pub close_at : ℕ → Bool → ActVersion → ActVersion
close_at d new_is_current v = record v {
  effective_to =
      if starts_by v.effective_from d && ends_after v.effective_to d
      then some d
      else v.effective_to;
  is_current = if new_is_current && v.is_current then false else v.is_current;
}

unfoldable pub insert_boundary : List ActVersion → Option ℕ → ℕ → List ActVersion
unfolding is_latest close_at
insert_boundary versions none today = versions
insert_boundary versions (some d) today =
    map (close_at d (is_latest versions (some d) today)) versions

-- `order_key` compared: pairs, first component first.
abbrev key_date : ActVersion → ℕ
key_date v = get_or v.effective_from date_min

abbrev key_id : ActVersion → ℕ
key_id v = get_or v.id 0

abbrev pub key_le : ActVersion → ActVersion → Bool
key_le v w =
    ltb (key_date v) (key_date w) || (key_date v == key_date w && leb (key_id v) (key_id w))

-- The dictionary of explicit ends, by version id; a later assignment replaces an earlier one.
abbrev pub Ends : Type 0
Ends = List (Option ℕ × Option ℕ)

pub lookup_end : Ends → Option ℕ → Result (Option ℕ)
lookup_end [] id = err runtime_error
lookup_end ((k, e) ∷ ends) id = if option_eq k id then ok e else lookup_end ends id

-- `successor.effective_from` where there is a successor, and `None` where there is none.
abbrev pub next_start : List ActVersion → Option ℕ
next_start [] = none
next_start (w ∷ ws) = w.effective_from

abbrev is_derived : ActVersion → List ActVersion → Bool
is_derived v [] = false
is_derived v (w ∷ ws) = option_eq v.effective_to w.effective_from

collect_ends : Ends → List ActVersion → Ends
collect_ends ends [] = ends
collect_ends ends (v ∷ vs) =
    collect_ends ((v.id, if is_derived v vs then none else v.effective_to) ∷ ends) vs

unfoldable pub explicit_ends : List ActVersion → Ends
unfolding collect_ends
explicit_ends versions = collect_ends [] (sort key_le versions)
