-- ===== src/Corpus.antt =====
-- server/app/infrastructure/corpus/control.py: the switch of the corpus between two generations of
-- the index, as its owner and the serving processes carry it out. What Qdrant, the configuration's
-- listener and the clock answer are arguments.
pub mod Repository
pub mod Guards
pub mod Steps
pub mod Switching
pub mod Phases
pub mod Fencing
pub mod Ready
pub mod Rows
pub mod Progress
pub mod Clients
mod Tests
use rag_assistant.Prelude.{
  Bool, List, Option, Result, [], all, err, false, if◌then◌else◌, is_none, none, not, ok, option_eq,
  true, validation_error, ◌&&◌, ◌==◌, ◌>>=◌, ◌>>◌, ◌||◌, ◌∷◌, ℕ, any, some,
}
use rag_assistant.Corpus.Repository.{
  CorpusSnapshot, same_snapshot, Journal, CorpusPhase, committing, is_preparing, is_committing,
  is_settled, begin_prepare, fail_prepare, finish_commit, ProcessRow, Role, api, worker, heartbeat,
  live_participants,
}
use rag_assistant.Corpus.Guards.{validate_switch_version}

abbrev is_api : Role → Bool
is_api api = true
is_api _ = false

abbrev is_worker : Role → Bool
is_worker worker = true
is_worker _ = false

-- `{p["role"] for p in live} == {"api", "worker"}` for serving participants, and all of them have
-- applied the generation without an error.
unfoldable pub all_applied : ℕ → List ProcessRow → Bool
all_applied generation live =
    any (λ p. is_api p.role) live
    && (any (λ p. is_worker p.role) live
        && all (λ p. option_eq p.applied_generation (some generation) && is_none p.error) live)

-- The constants that stand for the texts of the two failures and of the local error.
abbrev switch_failed : ℕ
switch_failed = 1

abbrev owner_unavailable : ℕ
owner_unavailable = 2

abbrev apply_failed : ℕ
apply_failed = 3

-- The tests of `switch` before it probes the candidate.
unfoldable pub check_switch : ℕ → Journal → List ProcessRow → Result (Unit {0})
unfolding all_applied
check_switch expected state live =
    if not (is_settled state.phase)
    then err validation_error
    else if not (state.installed.generation == expected)
    then err validation_error
    else if not (all_applied expected live)
    then err validation_error
    else ok tt

-- The snapshot that `switch` would prepare, or the exception on the way to it.
abbrev switch_snapshot :
    ℕ → Journal → List ProcessRow → Result CorpusSnapshot → Journal → Result CorpusSnapshot
switch_snapshot expected state live probe latest =
    check_switch expected state live
    >> (probe >>= λ s. validate_switch_version latest state expected >> ok s)

-- The end of that part: the preparation begins, or the handler fails it.
abbrev settle_start : ℕ → ℕ → Journal → Result CorpusSnapshot → Result (Unit {0}) × Journal
settle_start pid digest latest (ok s) = (ok tt, begin_prepare s digest pid latest)
settle_start pid digest latest (err e) = (err e, fail_prepare pid switch_failed latest)

-- `switch` up to the wait: the state that it has read, the answers of the probe and of the fence, and
-- the journal as it is under the fence. A failure anywhere runs the handler on the journal.
unfoldable pub start_switch :
    ℕ
    → ℕ
    → Journal
    → List ProcessRow
    → Result CorpusSnapshot
    → ℕ
    → Journal
    → Result (Unit {0}) × Journal
unfolding check_switch validate_switch_version begin_prepare fail_prepare
start_switch pid expected state live probe digest latest =
    settle_start pid digest latest (switch_snapshot expected state live probe latest)

-- One round of `wait_prepared`: an error, or whether every required process has prepared.
abbrev find_process : ℕ → List ProcessRow → Option ProcessRow
find_process id [] = none
find_process id (p ∷ ps) = if p.process_id == id then some p else find_process id ps

abbrev is_ready_for : ℕ → List ProcessRow → ℕ → Bool
is_ready_for generation live id = elim (find_process id live) [
  | none ↦ false
  | some p ↦ option_eq p.prepared_generation (some generation)
]

abbrev is_lost : List ProcessRow → ℕ → Bool
is_lost live id = elim (find_process id live) [ none ↦ true | some p ↦ not (is_none p.error) ]

unfoldable pub wait_prepared_round : ℕ → List ℕ → List ProcessRow → Result Bool
wait_prepared_round generation required live =
    if any (is_lost live) required
    then err validation_error
    else ok (all (is_ready_for generation live) required)

-- The rounds of `wait_prepared`, each with the processes that are alive by then; a round that is not
-- ready is followed by another, and the last by an error.
unfoldable pub wait_prepared : ℕ → List ℕ → List (List ProcessRow) → Result (Unit {0})
unfolding wait_prepared_round
wait_prepared generation required [] = err validation_error
wait_prepared generation required (live ∷ rounds) =
    let rest = wait_prepared generation required rounds in
    wait_prepared_round generation required live >>= λ ready. if ready then ok tt else rest

-- What a serving process holds: the snapshot of its installed client, that of the prepared one, and
-- its error.
pub record Local : Type 0 where
  pub process_id : ℕ
  pub role : Role
  pub resource : CorpusSnapshot
  pub prepared : Option CorpusSnapshot
  pub error : Option ℕ

-- Whether the client of the candidate was built, or prepared, and whether the listener, if there is
-- one, has synchronized.
pub record Answers : Type 0 where
  pub built : Bool
  pub synchronized : Bool

abbrev holds : Option CorpusSnapshot → CorpusSnapshot → Bool
holds none c = false
holds (some s) c = same_snapshot s c

abbrev failed_with : Local → Option ℕ × Local
failed_with l = (none, record l { error = some apply_failed })

-- `apply_candidate` once a client of the candidate is held.
abbrev use_prepared : Bool → CorpusSnapshot → Answers → Local → Option ℕ × Local
use_prepared false c a l = (some c.generation, record l { prepared = some c; error = none })
use_prepared true c a l =
    let l' = record l { resource = c; prepared = none } in
    (some c.generation, record l' { error = if a.synchronized then none else some apply_failed })

-- `apply_candidate`; its first argument says whether the phase is committing.
unfoldable pub apply_candidate : Bool → CorpusSnapshot → Answers → Local → Option ℕ × Local
apply_candidate commit c a l =
    if l.resource.generation == c.generation
    then (
      some c.generation,
      record l { error = if is_none l.error || a.synchronized then none else some apply_failed },
    )
    else if holds l.prepared c || a.built
    then use_prepared commit c a l
    else failed_with (record l { prepared = none })

-- The branch of `recover` for an orphaned preparation, of the owner in the state that was read.
abbrev recover_preparing : Option ℕ → Journal → List ProcessRow → Journal → Journal
recover_preparing none state live j = j
recover_preparing (some owner) state live j =
    if is_preparing state.phase && not (any (λ p. p.process_id == owner) live)
    then fail_prepare owner owner_unavailable j
    else j

abbrev recover_pending : Option CorpusSnapshot → Journal → List ProcessRow → Journal → Journal
recover_pending none state live j = recover_preparing state.owner state live j
recover_pending (some c) state live j =
    if is_committing state.phase
    then if all_applied c.generation live then finish_commit c.generation j else j
    else recover_preparing state.owner state live j

-- `recover`, on the state that the tick has read and the journal as it is.
unfoldable pub recover : Journal → List ProcessRow → Journal → Journal
unfolding all_applied finish_commit fail_prepare
recover state live j = recover_pending state.candidate state live j

-- The part of `tick` for the candidate.
abbrev apply_pending : Option CorpusSnapshot → CorpusPhase → Answers → Local → Option ℕ × Local
apply_pending none phase a l = (none, record l { error = none; prepared = none })
apply_pending (some c) phase a l =
    if is_preparing phase || is_committing phase
    then apply_candidate (is_committing phase) c a l
    else (none, record l { error = none; prepared = none })

-- The first part of `tick`: a process that has missed a switch, or has an error, installs the active
-- corpus.
unfoldable pub catch_up : Journal → Answers → Local → Local
unfolding apply_candidate
catch_up state a l =
    if not (l.resource.generation == state.installed.generation) || not (is_none l.error)
    then (apply_candidate true state.installed a l).1
    else l

-- `heartbeat` of control.py.
abbrev pub report : ℕ → Local → Option ℕ → List ProcessRow → List ProcessRow
report now l prepared ps = heartbeat now l.process_id l.role (some l.resource) prepared l.error ps

-- The end of a tick: after a failure to catch up it only reports.
abbrev end_tick : ℕ → Local → Option ℕ → Local → List ProcessRow → Local × List ProcessRow × Bool
end_tick now caught prepared l ps =
    if is_none caught.error
    then (l, report now l prepared ps, true)
    else (caught, report now caught none ps, false)

-- `tick` at the time `now`, on the state that it has read, up to its heartbeat: the local state and
-- the table of processes, and whether the tick goes on to `recover`.
unfoldable pub tick_local :
    ℕ → Journal → Answers → Answers → Local → List ProcessRow → Local × List ProcessRow × Bool
unfolding catch_up apply_candidate heartbeat
tick_local now state a b l ps =
    let caught = catch_up state a l in
    let applied = apply_pending state.candidate state.phase b caught in
    end_tick now caught applied.0 applied.1 ps

-- The whole of `tick`, where nothing else touches the tables meanwhile.
unfoldable pub tick :
    ℕ → Answers → Answers → Local → List ProcessRow → Journal → Local × List ProcessRow × Journal
unfolding tick_local live_participants recover
tick now a b l ps j =
    let (l', ps', goes_on) = tick_local now j a b l ps in
    (l', ps', if goes_on then recover j (live_participants now ps') j else j)
