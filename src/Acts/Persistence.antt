-- ===== src/Acts/Persistence.antt =====
-- server/app/application/act_versioning/persistence.py, with the statements that it issues through
-- server/app/infrastructure/repositories/misc/sqlalchemy_act_version_repository.py and
-- server/app/infrastructure/repositories/chunk/chunk_versioning.py.
use rag_assistant.Prelude.{
  Bool, Option, Result, [], err, false, get_or, if◌then◌else◌, integrity_error, leb, map, none, not,
  ok, option_eq, runtime_error, select, some, ◌&&◌, ◌++◌, ◌>>=◌, ◌∷◌, List, ℕ, any,
}
use rag_assistant.Documents.{Document}
use rag_assistant.Acts.{ActVersion, get_version}
use rag_assistant.Acts.Sort.{sort}
use rag_assistant.Acts.Changes.{changed_versions}

-- The columns of a chunk that its act version determines.
pub record ChunkProjection : Type 0 where
  pub act_version_id : Option ℕ
  pub is_current : Bool
  pub effective_from : Option ℕ
  pub effective_to : Option ℕ

-- The UPDATE_METADATA entry of the outbox, for the aggregate "act_version".
pub record MetadataUpdate : Type 0 where
  pub aggregate_id : ℕ
  pub act_id : Option ℕ
  pub is_current : Bool
  pub effective_from : Option ℕ
  pub effective_to : Option ℕ

-- The tables of the transaction; of the acts, their ids.
pub record ActStore : Type 0 where
  pub versions : List ActVersion
  pub acts : List ℕ
  pub documents : List Document
  pub chunks : List ChunkProjection
  pub outbox : List MetadataUpdate

-- `act_versions.update`: the columns that it sets, and the unique index of models.py on `act_id`
-- where `is_current`, in which NULL equals nothing.
abbrev pub write_version : ActVersion → ActVersion → ActVersion
write_version v r =
    if option_eq r.id v.id
    then record r {
      act_id = v.act_id;
      effective_from = v.effective_from;
      effective_to = v.effective_to;
      is_current = v.is_current;
      date_source = v.date_source;
      date_confidence = v.date_confidence;
      verified_by = v.verified_by;
      verified_at = v.verified_at;
    }
    else r

abbrev pub is_of : ℕ → ActVersion → Bool
is_of a r = option_eq r.act_id (some a)

abbrev pub current_in : ℕ → ActVersion → Bool
current_in a r = is_of a r && r.is_current

abbrev other_current : ActVersion → Option ℕ → List ActVersion → Bool
other_current v none rows = false
other_current v (some a) rows = any (λ r. current_in a r && not (option_eq r.id v.id)) rows

abbrev pub breaks_index : ActVersion → List ActVersion → Bool
breaks_index v rows =
    any (λ r. option_eq r.id v.id) rows && (v.is_current && other_current v v.act_id rows)

unfoldable pub update : ActVersion → List ActVersion → Result (List ActVersion)
update v rows = if breaks_index v rows then err integrity_error else ok (map (write_version v) rows)

-- `list_by_act`, in the order of the ids.
abbrev pub id_le : ActVersion → ActVersion → Bool
id_le v w = leb (get_or v.id 0) (get_or w.id 0)

unfoldable pub list_by_act : ℕ → List ActVersion → List ActVersion
list_by_act a rows = sort id_le (select (is_of a) rows)

abbrev project : ℕ → ActVersion → ChunkProjection → ChunkProjection
project id v c =
    if option_eq c.act_version_id (some id)
    then record c {
      is_current = v.is_current;
      effective_from = v.effective_from;
      effective_to = v.effective_to;
    }
    else c

abbrev pub save_as : Option ℕ → ActVersion → ActStore → Result ActStore
save_as none v s = err runtime_error
save_as (some id) v s = update v s.versions >>= λ rows. ok (record s {
  versions = rows;
  chunks = map (project id v) s.chunks;
  outbox =
      s.outbox
      ++ (record {
        aggregate_id = id;
        act_id = v.act_id;
        is_current = v.is_current;
        effective_from = v.effective_from;
        effective_to = v.effective_to;
      }
          ∷ []);
})

unfoldable pub save : ActVersion → ActStore → Result ActStore
unfolding update
save v s = save_as v.id v s

unfoldable pub save_all : List ActVersion → ActStore → Result ActStore
unfolding save
save_all [] s = ok s
save_all (v ∷ vs) s = save v s >>= save_all vs

unfoldable pub save_changes :
    List ActVersion → List ActVersion → Option ℕ → ActStore → Result ActStore
unfolding changed_versions save_all
save_changes timeline versions edited_id s =
    save_all (changed_versions timeline versions edited_id) s

abbrev pub load_timeline :
    ℕ → ActVersion → Option ℕ → List ActVersion → Result (ActVersion × List ActVersion)
load_timeline version_id v none rows = ok (v, [])
load_timeline version_id v (some a) rows =
    get_version (some version_id) (list_by_act a rows) >>= λ v'. ok (v', list_by_act a rows)

-- A version with the timeline of its act, if it has one; `get_by_id` finds the row of the id.
unfoldable pub load : ℕ → List ActVersion → Result (ActVersion × List ActVersion)
unfolding get_version list_by_act
load version_id rows =
    get_version (some version_id) rows >>= λ v. load_timeline version_id v v.act_id rows
