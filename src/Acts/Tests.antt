-- ===== src/Acts/Tests.antt =====
-- A timeline of two editions, and the theorems on timelines applied to it.
use rag_assistant.Prelude.{
  ℕ, ◌≤◌, Bool, true, false, Option, none, some, List, [], ◌∷◌, map, ◌≡◌, refl, ok, arith, All,
  Result, err, Safely, integrity_error,
}
use rag_assistant.Acts.Scope.{same_document_scope}
use rag_assistant.Acts.{insert_boundary, successor_date, ActVersion, explicit_ends, lookup_end}
use rag_assistant.Acts.Sort.{sort}
use rag_assistant.Acts.Cover.{covers, count_if, in_force_on, current_flags}
use rag_assistant.Acts.Insert.{
  upload_version, upload_version-in_force_on, upload_version-current_flags,
}
use rag_assistant.Acts.Rebuild.{rebuild, rebuild_version}
use rag_assistant.Documents.{Document, internal_public, done}
use rag_assistant.Acts.Persistence.{ActStore}
use rag_assistant.Acts.Commands.{VersionUpdateOptions, update_version}
use rag_assistant.Acts.Consistent.{IsConsistent}
use rag_assistant.Acts.Updating.{update_version-Safely}
use rag_assistant.Acts.Rebuild.Disjoint.{rebuild-in_force_on}
use rag_assistant.Acts.Rebuild.Single.{rebuild-flags}

abbrev version : ℕ → ℕ → Option ℕ → Bool → ActVersion
version id start end current = record {
  id = some id;
  act_id = some 1;
  document_id = id;
  effective_from = some start;
  effective_to = end;
  is_current = current;
  date_source = "extracted";
  date_confidence = none;
  verified_by = none;
  verified_at = none;
}

abbrev editions : List ActVersion
editions = version 1 100 (some 200) false ∷ version 2 200 none true ∷ []

-- An upload dated between the two.
upload_version-in_force_on_example :
    in_force_on 170 (upload_version 1 3 (some 150) "manual" none editions 300 301) ≤ 1
unfolding count_if
upload_version-in_force_on_example =
    upload_version-in_force_on 1 3 150 "manual" none editions 300 301 170 (omega arith)

upload_version-current_flags_example :
    current_flags (upload_version 1 3 (some 250) "manual" none editions 300 300) ≤ 1
unfolding count_if
upload_version-current_flags_example =
    upload_version-current_flags 1 3 (some 250) "manual" none editions 300 300 refl (omega arith)

-- The upload closes the edition that it follows, and runs to the one that follows it.
upload_between :
    map (λ v. v.effective_to) (upload_version 1 3 (some 150) "manual" none editions 300 300)
    ≡ some 150 ∷ none ∷ some 200 ∷ []
unfolding upload_version
upload_between = refl

abbrev rebuilt : List ActVersion
rebuilt = version 1 100 (some 200) true ∷ version 2 200 none false ∷ []

rebuild-editions :
    rebuild (version 2 200 none true ∷ version 1 100 none false ∷ []) (explicit_ends editions) 150
    ≡ ok rebuilt
unfolding rebuild rebuild_version explicit_ends lookup_end sort
rebuild-editions = refl

rebuild-in_force_on_example : in_force_on 200 rebuilt ≤ 1
rebuild-in_force_on_example =
    rebuild-in_force_on (version 2 200 none true ∷ version 1 100 none false ∷ []) rebuilt
      (explicit_ends editions) 150 200 (refl, (refl, tt)) rebuild-editions

rebuild-flags_example : All (λ v. v.is_current ≡ covers v 150) rebuilt
rebuild-flags_example =
    rebuild-flags (version 2 200 none true ∷ version 1 100 none false ∷ []) rebuilt
      (explicit_ends editions) 150 (refl, (refl, tt)) rebuild-editions

abbrev document : ℕ → Document
document id = record {
  id = some id;
  filename = "act.pdf";
  visibility = internal_public;
  owner_id = none;
  group_id = none;
  status = done;
  error_message = none;
  warning_message = none;
  quality_score = none;
  chunks = none;
  chars = none;
  indexed_at = none;
}

-- Version 2, current in act 1, is moved to act 2, of which version 3 is current.
abbrev store : ActStore
store = record {
  versions =
      version 1 100 (some 200) false
      ∷ version 2 200 none true
      ∷ record (version 3 120 none true) { act_id = some 2 }
      ∷ [];
  acts = 1 ∷ 2 ∷ [];
  documents = document 1 ∷ document 2 ∷ document 3 ∷ [];
  chunks = [];
  outbox = [];
}

abbrev move_to : ℕ → VersionUpdateOptions
move_to a = record {
  effective_from = none;
  effective_to = none;
  act_id = some a;
  verified_by = some 9;
  effective_from_provided = false;
  effective_to_provided = false;
  act_id_provided = true;
}

abbrev flags : Result ActStore → List (Option ℕ × Option ℕ × Bool)
flags (err e) = []
flags (ok s) = map (λ v. (v.id, v.act_id, v.is_current)) s.versions

update_version-moves :
    flags (update_version 2 (move_to 2) 900 300 300 300 store)
    ≡ (some 1, some 1, true) ∷ (some 2, some 2, true) ∷ (some 3, some 2, false) ∷ []
unfolding update_version sort rebuild_version same_document_scope insert_boundary successor_date
update_version-moves = refl

-- The version is moved and dated to the next day, and midnight falls between the two readings.
update_version_midnight :
    update_version 2
      (record (move_to 2) { effective_from = some 301; effective_from_provided = true })
      900
      300
      300
      301
      store
    ≡ err integrity_error
unfolding update_version sort rebuild_version same_document_scope insert_boundary successor_date
update_version_midnight = refl

store-IsConsistent : IsConsistent store.versions
unfolding count_if
store-IsConsistent = record {
  unique = ((refl, (refl, tt)), ((refl, tt), (tt, tt)));
  one_current = λ a. ground arith;
}

update_version-Safely_example :
    Safely (λ s. IsConsistent s.versions) (update_version 2 (move_to 2) 900 300 301 301 store)
update_version-Safely_example =
    update_version-Safely 2 900 300 301 301 (move_to 2) store store-IsConsistent refl
