-- ===== src/Acts/Insert.antt =====
-- A new edition: `insert_boundary`, `successor_date` and `is_latest` of timeline.py, used as
-- server/app/application/act_versioning/commands.py uses them in `create_version_in_uow`.
use rag_assistant.Prelude.{
  ℕ, String, ◌+◌, ◌≤◌, ◌<◌, Bool, true, false, not, ◌&&◌, ◌||◌, Option, none, some, List, [], ◌∷◌,
  ◌++◌, map, ◌≡◌, refl, arith, ltb, leb, any, all, if◌then◌else◌, subst,
}
use rag_assistant.Acts.{
  ActVersion, is_latest, successor_date, insert_boundary, close_at, ends_after, dates_where, min_of,
  earliest,
}
use rag_assistant.Acts.Cover.{covers, count_if, count_if-append, in_force_on, current_flags}

-- The version that `create_version_in_uow` builds for an upload with the linked act's versions.
unfoldable pub new_version :
    ℕ → ℕ → Option ℕ → String → Option String → List ActVersion → ℕ → ActVersion
new_version act_id document_id effective_date source confidence previous today = record {
  id = none;
  act_id = some act_id;
  document_id = document_id;
  effective_from = effective_date;
  effective_to = successor_date previous effective_date;
  is_current = is_latest previous effective_date today;
  date_source = source;
  date_confidence = confidence;
  verified_by = none;
  verified_at = none;
}

-- The versions of the act after the upload: the closed predecessors and the new version. `today` is
-- the reading of the clock for the boundary, and `later` the one for the new version's flag.
unfoldable pub upload_version :
    ℕ → ℕ → Option ℕ → String → Option String → List ActVersion → ℕ → ℕ → List ActVersion
unfolding new_version insert_boundary successor_date
upload_version act_id document_id effective_date source confidence previous today later =
    insert_boundary previous effective_date today
    ++ new_version act_id document_id effective_date source confidence previous later ∷ []

-- Closing at a day keeps the days before it, and the days of a version that did not cover it.
close_at-covers :
    (d : ℕ) (c : Bool) (v : ActVersion) (t : ℕ)
    → covers (close_at d c v) t ≡ (covers v t && (ltb t d || not (covers v d)))
unfolding close_at
close_at-covers d c v t = ground arith

min_of-after : (t d : ℕ) (ds : List ℕ) → ltb t (min_of d ds) ≡ (ltb t d && all (λ e. ltb t e) ds)
min_of-after t d [] = ground arith
min_of-after t d (e ∷ ds) = ground (arith, min_of-after t e ds)

earliest-after : (t : ℕ) (ds : List ℕ) → ends_after (earliest ds) t ≡ all (λ e. ltb t e) ds
earliest-after t [] = refl
earliest-after t (d ∷ ds) = min_of-after t d ds

-- Whether a version starts after `d` and no later than `t`.
abbrev starts_between : ℕ → ℕ → Option ℕ → Bool
starts_between d t none = false
starts_between d t (some a) = ltb d a && leb a t

all-dates_where :
    (d t : ℕ) (v : ActVersion) (vs : List ActVersion)
    → all (λ e. ltb t e) (dates_where (λ e. ltb d e) (v ∷ vs)) ≡ (
        not (starts_between d t v.effective_from)
        && all (λ e. ltb t e) (dates_where (λ e. ltb d e) vs))
unfolding dates_where
all-dates_where d t v vs = ground arith

in_force_on-map_before :
    (d t : ℕ) (c : Bool) (vs : List ActVersion)
    → t < d
    → in_force_on t (map (close_at d c) vs) ≡ in_force_on t vs
unfolding count_if
in_force_on-map_before d t c [] h = refl
in_force_on-map_before d t c (v ∷ vs) h =
    ground (arith, close_at-covers d c v t, in_force_on-map_before d t c vs h)

in_force_on-map_le :
    (d t : ℕ) (c : Bool) (vs : List ActVersion)
    → in_force_on t (map (close_at d c) vs) ≤ in_force_on t vs
unfolding count_if
in_force_on-map_le d t c [] = omega arith
in_force_on-map_le d t c (v ∷ vs) =
    ground (arith, close_at-covers d c v t, in_force_on-map_le d t c vs)

in_force_on-map_after :
    (d t : ℕ) (c : Bool) (vs : List ActVersion)
    → d ≤ t
    → all (λ e. ltb t e) (dates_where (λ e. ltb d e) vs) ≡ true
    → in_force_on t (map (close_at d c) vs) ≡ 0
unfolding count_if
in_force_on-map_after d t c [] h s = refl
in_force_on-map_after d t c (v ∷ vs) h s =
    ground
      (arith, close_at-covers d c v t, all-dates_where d t v vs, in_force_on-map_after d t c vs h)

-- The closed predecessors with a version that runs from `d` to the successor date.
in_force_on-boundary :
    (d t : ℕ) (c : Bool) (vs : List ActVersion) (new : ActVersion)
    → new.effective_from ≡ some d
    → new.effective_to ≡ earliest (dates_where (λ e. ltb d e) vs)
    → in_force_on t vs ≤ 1
    → in_force_on t (map (close_at d c) vs) + in_force_on t (new ∷ []) ≤ 1
unfolding count_if
in_force_on-boundary d t c vs new f e h = ground (
  arith,
  earliest-after t (dates_where (λ e. ltb d e) vs),
  in_force_on-map_before d t c vs,
  in_force_on-map_le d t c vs,
  in_force_on-map_after d t c vs,
)

-- If at most one edition of an act is in force on a day, then so it is after the upload of an
-- edition that has a date of its own, past or future.
pub upload_version-in_force_on :
    (act_id document_id d : ℕ) (source : String) (confidence : Option String)
    (previous : List ActVersion) (today later t : ℕ)
    → in_force_on t previous ≤ 1
    → in_force_on t
        (upload_version act_id document_id (some d) source confidence previous today later)
      ≤ 1
unfolding upload_version
upload_version-in_force_on act_id document_id d source confidence previous today later t h =
    let new = new_version act_id document_id (some d) source confidence previous later in
    let closed = map (close_at d (is_latest previous (some d) today)) previous in
    rw (count_if-append (λ (v : ActVersion). covers v t) closed (new ∷ []))
      (in_force_on-boundary d t (is_latest previous (some d) today) previous new refl refl h)

pub current_flags-map :
    (d : ℕ) (c : Bool) (vs : List ActVersion)
    → current_flags (map (close_at d c) vs) ≡ (if c then 0 else current_flags vs)
unfolding count_if close_at
current_flags-map d c [] = ground arith
current_flags-map d c (v ∷ vs) = ground (arith, current_flags-map d c vs)

pub no_current_flags :
    (vs : List ActVersion) → any (λ v. v.is_current) vs ≡ false → current_flags vs ≡ 0
unfolding count_if
no_current_flags [] h = refl
no_current_flags (v ∷ vs) h = ground (arith, no_current_flags vs)

one_day_flags :
    (act_id document_id : ℕ) (effective_date : Option ℕ) (source : String)
    (confidence : Option String) (previous : List ActVersion) (today : ℕ)
    → current_flags previous ≤ 1
    → current_flags
        (upload_version act_id document_id effective_date source confidence previous today today)
      ≤ 1
unfolding upload_version count_if
one_day_flags act_id document_id none source confidence previous today h =
    let new = new_version act_id document_id none source confidence previous today in
    rw (count_if-append (λ (v : ActVersion). v.is_current) previous (new ∷ []))
      (ground (arith, no_current_flags previous))
one_day_flags act_id document_id (some d) source confidence previous today h =
    let new = new_version act_id document_id (some d) source confidence previous today in
    let c = is_latest previous (some d) today in
    rw (count_if-append (λ (v : ActVersion). v.is_current) (map (close_at d c) previous) (new ∷ []))
      (ground (arith, current_flags-map d c previous))

-- If at most one edition is flagged current, then so it is after an upload, dated or not, if the
-- boundary and the flag of the new edition are set on the same day.
pub upload_version-current_flags :
    (act_id document_id : ℕ) (effective_date : Option ℕ) (source : String)
    (confidence : Option String) (previous : List ActVersion) (today later : ℕ)
    → today ≡ later
    → current_flags previous ≤ 1
    → current_flags
        (upload_version act_id document_id effective_date source confidence previous today later)
      ≤ 1
upload_version-current_flags act_id document_id effective_date source confidence previous today
      later same_day h =
    subst
      (λ day.
        current_flags
          (upload_version act_id document_id effective_date source confidence previous today day)
        ≤ 1)
      same_day (one_day_flags act_id document_id effective_date source confidence previous today h)
