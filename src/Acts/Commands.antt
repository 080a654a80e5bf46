-- ===== src/Acts/Commands.antt =====
-- `update_version` of server/app/application/act_versioning/commands.py, with the methods that it
-- calls. The source edits version objects in place; here each step returns the edited version.
use rag_assistant.Prelude.{
  Bool, Result, [], all, any, entity_not_found, err, false, if◌then◌else◌, is_none, none, not, ok,
  option_eq, runtime_error, select, some, true, validation_error, ◌&&◌, ◌==◌, ◌>>=◌, ◌>>◌, ◌||◌,
  ◌∷◌, List, Option, ℕ,
}
use rag_assistant.Documents.{Document}
use rag_assistant.Acts.{
  ActVersion, validate_dates, get_version, is_latest, successor_date, insert_boundary, lookup_end,
  explicit_ends,
}
use rag_assistant.Acts.Scope.{same_document_scope}
use rag_assistant.Acts.Rebuild.{remove, correct}
use rag_assistant.Acts.Persistence.{ActStore, list_by_act, save_changes, load}

-- A key that is missing from the options reads as `None` or `False`.
pub record VersionUpdateOptions : Type 0 where
  pub effective_from : Option ℕ
  pub effective_to : Option ℕ
  pub act_id : Option ℕ
  pub verified_by : Option ℕ
  pub effective_from_provided : Bool
  pub effective_to_provided : Bool
  pub act_id_provided : Bool

-- `x_provided or x is not None`
abbrev pub given : Bool → Option ℕ → Bool
given provided x = provided || not (is_none x)

abbrev pub apply_options : VersionUpdateOptions → ActVersion → ActVersion
apply_options o v = record v {
  effective_from =
      if given o.effective_from_provided o.effective_from
      then o.effective_from
      else v.effective_from;
  effective_to =
      if given o.effective_to_provided o.effective_to then o.effective_to else v.effective_to;
  act_id = if given o.act_id_provided o.act_id then o.act_id else v.act_id;
}

abbrev pub end_given : VersionUpdateOptions → Bool
end_given o = given o.effective_to_provided o.effective_to

abbrev pub dates_changed : VersionUpdateOptions → Bool
dates_changed o = given o.effective_from_provided o.effective_from || end_given o

-- The corrected versions, and what remains of the timeline that the version has left.
abbrev pub Corrected : Type 0
Corrected = List ActVersion × Option (List ActVersion)

-- `version.effective_to = timeline.explicit_ends()[version.id]`, unless the end was given.
abbrev pub restore_end : Bool → List ActVersion → ActVersion → Result ActVersion
restore_end true timeline v = ok v
restore_end false timeline v =
    lookup_end (explicit_ends timeline) v.id >>= λ e. ok (record v { effective_to = e })

-- `remove_from_timeline`, with the version that it may edit.
abbrev pub leave : Option ℕ → Option ℕ → List ActVersion → ActVersion → Bool → ℕ → Result Corrected
leave none id timeline v end_provided today = ok (v ∷ [], none)
leave (some a) none timeline v end_provided today = err runtime_error
leave (some a) (some id) timeline v end_provided today = remove timeline id today >>= λ remaining.
    restore_end end_provided timeline v >>= λ v'. ok (v' ∷ [], some remaining)

unfoldable pub remove_from_timeline :
    Option ℕ → List ActVersion → ActVersion → Bool → ℕ → Result Corrected
unfolding remove explicit_ends lookup_end
remove_from_timeline old_act_id timeline v end_provided today =
    leave old_act_id v.id timeline v end_provided today

-- `edited` is the version with the options applied.
abbrev pub correct_edited :
    ActVersion → ActVersion → List ActVersion → VersionUpdateOptions → ℕ → Result Corrected
correct_edited v edited timeline o today =
    if not (option_eq v.act_id edited.act_id)
    then remove_from_timeline v.act_id timeline edited (end_given o) today
    else if not (is_none edited.act_id) && dates_changed o
    then (correct timeline edited (end_given o) today >>= λ versions. ok (versions, none))
    else ok (edited ∷ [], none)

unfoldable pub correct_version :
    ActVersion → List ActVersion → VersionUpdateOptions → ℕ → Result Corrected
unfolding correct remove_from_timeline
correct_version v timeline o today = correct_edited v (apply_options o v) timeline o today

abbrev pub find_document : ℕ → List Document → Option Document
find_document id [] = none
find_document id (d ∷ ds) = if option_eq d.id (some id) then some d else find_document id ds

abbrev pub in_one_scope : Option Document → Option Document → Bool
in_one_scope (some d) (some e) = same_document_scope d e
in_one_scope _ _ = false

-- The version that joins a timeline: its flag, and its end if it has none.
abbrev pub join_timeline : List ActVersion → ℕ → ActVersion → ActVersion
join_timeline previous today v = record v {
  is_current = is_latest previous v.effective_from today;
  effective_to =
      if is_none v.effective_to then successor_date previous v.effective_from else v.effective_to;
}

abbrev pub versions_besides : Option ℕ → List ActVersion → List ActVersion
versions_besides id vs = select (λ w. not (option_eq w.id id)) vs

abbrev pub relink_to : Option ℕ → ActVersion → ℕ → ℕ → ActStore → Result (ActStore × ActVersion)
relink_to none v today later s = correct (v ∷ []) v false today >>= get_version v.id >>= λ w.
    ok (s, record v { is_current = w.is_current })
relink_to (some act) v today later s =
    let previous = versions_besides v.id (list_by_act act s.versions) in
    let document = find_document v.document_id s.documents in
    if not (any (λ a. a == act) s.acts)
    then err entity_not_found
    else if not
        (all (λ w. in_one_scope document (find_document w.document_id s.documents)) previous)
    then err validation_error
    else save_changes previous (insert_boundary previous v.effective_from today) none s >>= λ s'.
        ok (s', join_timeline previous later v)

-- `today` is the reading of the clock for the boundary, and `later` the one for the flag.
unfoldable pub relink_version : ActVersion → ℕ → ℕ → ActStore → Result (ActStore × ActVersion)
unfolding save_changes list_by_act
relink_version v today later s = relink_to v.act_id v today later s

-- `next(item for item in corrected if item.id == version_id)`, and the corrected versions when that
-- item has been edited.
abbrev pub next_item : ℕ → List ActVersion → Result ActVersion
next_item id [] = err runtime_error
next_item id (v ∷ vs) = if option_eq v.id (some id) then ok v else next_item id vs

abbrev pub edit_item : ℕ → ActVersion → List ActVersion → List ActVersion
edit_item id v' [] = []
edit_item id v' (v ∷ vs) =
    let rest = edit_item id v' vs in if option_eq v.id (some id) then v' ∷ vs else v ∷ rest

abbrev pub relink_if : Bool → ActVersion → ℕ → ℕ → ActStore → Result (ActStore × ActVersion)
relink_if false v today later s = ok (s, v)
relink_if true v today later s = relink_version v today later s

abbrev pub verify : VersionUpdateOptions → ℕ → ActVersion → ActVersion
verify o now v = record v {
  date_source = "manual";
  verified_by = o.verified_by;
  verified_at = some now;
}

abbrev pub save_remaining : List ActVersion → Option (List ActVersion) → ActStore → Result ActStore
save_remaining timeline none s = ok s
save_remaining timeline (some remaining) s = save_changes timeline remaining none s

-- From the relinked version on.
abbrev pub write_all :
    ℕ
    → VersionUpdateOptions
    → ℕ
    → List ActVersion
    → Corrected
    → ActStore × ActVersion
    → Result ActStore
write_all version_id o now timeline c (s, v) =
    validate_dates o.effective_to v
    >> (save_changes timeline (edit_item version_id (verify o now v) c.0) (some version_id) s
        >>= save_remaining timeline c.1)

abbrev pub update_loaded :
    ℕ
    → VersionUpdateOptions
    → ℕ
    → ℕ
    → ℕ
    → ℕ
    → ActStore
    → ActVersion × List ActVersion
    → Result ActStore
update_loaded version_id o now today joined flagged s (old, timeline) =
    correct_version old timeline o today >>= λ c. next_item version_id c.0 >>= λ v.
    relink_if (not (option_eq old.act_id v.act_id)) v joined flagged s
    >>= write_all version_id o now timeline c

-- The transaction of `update_version`. An error rolls it back. The day is read up to three times:
-- for the timeline that is corrected or left, for the boundary in the one that is joined, and for
-- the flag there.
unfoldable pub update_version :
    ℕ → VersionUpdateOptions → ℕ → ℕ → ℕ → ℕ → ActStore → Result ActStore
unfolding load correct_version relink_version validate_dates save_changes
update_version version_id o now today joined flagged s =
    load version_id s.versions >>= update_loaded version_id o now today joined flagged s
