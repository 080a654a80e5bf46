-- ===== src/Corpus/Repository.antt =====
-- server/app/infrastructure/corpus/repository.py: the journal of the corpus, its one row, and the
-- table of the serving processes. Every method is one transaction. Process ids, generations,
-- endpoints, names, digests and texts of errors are only compared or stored: numbers stand for them.
use rag_assistant.Prelude.{
  Bool, List, Option, Result, any, err, false, if◌then◌else◌, ltb, none, not, ok, option_eq, select,
  some, true, validation_error, ◌&&◌, ◌+◌, ◌==◌, ◌>>◌, ◌||◌, ◌∷◌, ℕ, map,
}
use rag_assistant.Documents.{DocumentStatus, is_active}
use rag_assistant.Outbox.Entry.{is_done}
use rag_assistant.Outbox.Table.{Outbox}

pub data CorpusPhase : Type 0 where
  active failed preparing committing : CorpusPhase

-- snapshot.py
pub record CorpusSnapshot : Type 0 where
  pub endpoint : ℕ
  pub alias : ℕ
  pub physical_collection : ℕ
  pub embedding_identity : ℕ
  pub generation : ℕ

-- The dataclass compares its fields.
abbrev pub same_snapshot : CorpusSnapshot → CorpusSnapshot → Bool
same_snapshot s t =
    s.endpoint == t.endpoint
    && (s.alias == t.alias
        && (s.physical_collection == t.physical_collection
            && (s.embedding_identity == t.embedding_identity && s.generation == t.generation)))

-- The row of `corpus_control`; `installed` is its column `active`.
pub record Journal : Type 0 where
  pub phase : CorpusPhase
  pub write_epoch : ℕ
  pub installed : CorpusSnapshot
  pub candidate : Option CorpusSnapshot
  pub digest : Option ℕ
  pub owner : Option ℕ
  pub error : Option ℕ

abbrev pub is_preparing : CorpusPhase → Bool
is_preparing preparing = true
is_preparing _ = false

abbrev pub is_committing : CorpusPhase → Bool
is_committing committing = true
is_committing _ = false

-- `phase in {ACTIVE, FAILED}`
abbrev pub is_settled : CorpusPhase → Bool
is_settled active = true
is_settled failed = true
is_settled _ = false

-- `INSERT … ON CONFLICT DO NOTHING`
unfoldable pub initialize : CorpusSnapshot → Option Journal → Option Journal
initialize s (some j) = some j
initialize s none = some (record {
  phase = active;
  write_epoch = 0;
  installed = s;
  candidate = none;
  digest = none;
  owner = none;
  error = none;
})

-- The UPDATE names the row only: the caller has tested the phase.
unfoldable pub begin_prepare : CorpusSnapshot → ℕ → ℕ → Journal → Journal
begin_prepare s digest owner j = record j {
  phase = preparing;
  candidate = some s;
  digest = some digest;
  owner = some owner;
  error = none;
}

unfoldable pub fail_prepare : ℕ → ℕ → Journal → Journal
fail_prepare owner error j =
    if is_preparing j.phase && option_eq j.owner (some owner)
    then record j { phase = failed; candidate = none; error = some error }
    else j

unfoldable pub finish_commit : ℕ → Journal → Journal
finish_commit generation j =
    if is_committing j.phase && j.installed.generation == generation
    then record j { phase = active; candidate = none; error = none }
    else j

-- `quiescent`: unfinished documents, or outbox entries that are not done.
unfoldable pub quiescent : List DocumentStatus → Outbox → Result (Unit {0})
quiescent documents outbox =
    if any is_active documents || any (λ e. not (is_done e.status)) outbox
    then err validation_error
    else ok tt

-- The test on the journal at the head of `commit_switch`.
abbrev pub is_prepared : CorpusSnapshot → ℕ → Journal → Bool
is_prepared s owner j =
    is_preparing j.phase
    && (option_eq j.owner (some owner)
        && elim j.candidate [ none ↦ false | some c ↦ c.generation == s.generation ])

-- `active=candidate`; the column admits no NULL, but a prepared journal has a candidate.
abbrev pub commit_row : Option CorpusSnapshot → Journal → Journal
commit_row none j = record j { phase = committing }
commit_row (some c) j = record j { phase = committing; installed = c }

-- What the final transaction of `commit_switch` reads of the other tables: the documents and the
-- outbox, the digest of the chunks, whether the configuration is still the one that was read, and
-- whether both of its parameters have their row.
pub record Latest : Type 0 where
  pub documents : List DocumentStatus
  pub outbox : Outbox
  pub digest : ℕ
  pub same_config : Bool
  pub has_config : Bool

-- An exception rolls the transaction back.
unfoldable pub commit_switch : CorpusSnapshot → ℕ → ℕ → Latest → Journal → Result Journal
unfolding quiescent
commit_switch s digest owner latest j =
    if not (is_prepared s owner j)
    then err validation_error
    else quiescent latest.documents latest.outbox
      >> (if not (latest.digest == digest && latest.same_config)
          then err validation_error
          else if not latest.has_config
          then err validation_error
          else ok (commit_row j.candidate j))

pub data Role : Type 0 where
  api worker cli : Role

-- A row of `corpus_processes`.
pub record ProcessRow : Type 0 where
  pub process_id : ℕ
  pub role : Role
  pub prepared_generation : Option ℕ
  pub applied_generation : Option ℕ
  pub error : Option ℕ
  pub heartbeat_at : ℕ

abbrev pub generation_of : Option CorpusSnapshot → Option ℕ
generation_of none = none
generation_of (some s) = some s.generation

-- `INSERT … ON CONFLICT (process_id) DO UPDATE`, which leaves the role of an existing row.
abbrev pub beat : ℕ → ℕ → Option CorpusSnapshot → Option ℕ → Option ℕ → ProcessRow → ProcessRow
beat now id snapshot prepared error p =
    if p.process_id == id
    then record p {
      prepared_generation = prepared;
      applied_generation = generation_of snapshot;
      error = error;
      heartbeat_at = now;
    }
    else p

unfoldable pub heartbeat :
    ℕ → ℕ → Role → Option CorpusSnapshot → Option ℕ → Option ℕ → List ProcessRow → List ProcessRow
heartbeat now id role snapshot prepared error ps =
    if any (λ p. p.process_id == id) ps
    then map (beat now id snapshot prepared error) ps
    else record {
      process_id = id;
      role = role;
      prepared_generation = prepared;
      applied_generation = generation_of snapshot;
      error = error;
      heartbeat_at = now;
    }
      ∷ ps

unfoldable pub remove_process : ℕ → List ProcessRow → List ProcessRow
remove_process id ps = select (λ p. not (p.process_id == id)) ps

-- `heartbeat_at > now() - interval '15 seconds'`, among the serving roles.
abbrev pub is_serving : Role → Bool
is_serving cli = false
is_serving _ = true

abbrev pub is_alive : ℕ → ProcessRow → Bool
is_alive now p = is_serving p.role && ltb now (p.heartbeat_at + 15)

unfoldable pub live_participants : ℕ → List ProcessRow → List ProcessRow
live_participants now ps = select (is_alive now) ps
