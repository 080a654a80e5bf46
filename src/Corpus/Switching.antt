-- ===== src/Corpus/Switching.antt =====
-- What the operations on the journal do when they go through, and when they are refused.
use rag_assistant.Prelude.{
  >>=-inversion, AppError, Bool-cases, List, Option, Option-cases, Result, Result-cases, any, ap,
  arith, err, false, if◌then◌else◌, inl, inr, is_none, none, not, ok, refl, some, sym, true,
  validation_error, ℕ, ◌&&◌, ◌==◌, ◌>>=◌, ◌>>◌, ◌∙◌, ◌≡◌, ◌⊎◌,
}
use rag_assistant.Corpus.Repository.{
  CorpusSnapshot, Journal, CorpusPhase, active, failed, preparing, committing, ProcessRow, Latest,
  is_preparing, is_committing, is_settled, begin_prepare, fail_prepare, finish_commit,
  commit_switch, quiescent, is_prepared, commit_row,
}
use rag_assistant.Corpus.Guards.{namespace, validate_write_admission, validate_switch_version}
use rag_assistant.Corpus.{
  start_switch, recover, recover_preparing, recover_pending, switch_failed, owner_unavailable,
  check_switch, all_applied, switch_snapshot, settle_start,
}

-- The candidate of each phase.
abbrev pub CandidateOf : CorpusPhase → CorpusSnapshot → Option CorpusSnapshot → Type 0
CandidateOf active installed c = c ≡ none
CandidateOf failed installed c = c ≡ none
CandidateOf preparing installed c = is_none c ≡ false
CandidateOf committing installed c = c ≡ some installed

pub validate_write_admission-ok :
    (digest : ℕ × ℕ × ℕ × ℕ → ℕ) (j : Journal) (w : CorpusSnapshot)
    → validate_write_admission digest (some j) w ≡ ok tt
    → (is_settled j.phase ≡ true) × (namespace digest j.installed ≡ namespace digest w)
unfolding validate_write_admission
validate_write_admission-ok digest j w h = (ground arith, ground arith)

validate_switch_version-ok :
    (latest previous : Journal) (expected : ℕ) (u : Unit {0})
    → validate_switch_version latest previous expected ≡ ok u
    → (latest.installed.generation ≡ expected)
      × (is_settled latest.phase ≡ true)
      × (latest.write_epoch ≡ previous.write_epoch)
unfolding validate_switch_version
validate_switch_version-ok latest previous expected u h = (ground arith, ground arith, ground arith)

-- A switch that starts has found the journal settled, with the epoch that it had read.
pub start_switch-ok :
    (pid expected : ℕ) (state : Journal) (live : List ProcessRow) (probe : Result CorpusSnapshot)
    (corpus : ℕ) (latest : Journal)
    → (start_switch pid expected state live probe corpus latest).0 ≡ ok tt
    → (c : CorpusSnapshot) × ((start_switch pid expected state live probe corpus latest).1
        ≡ begin_prepare c corpus pid latest)
      × (is_settled latest.phase ≡ true)
      × (latest.write_epoch ≡ state.write_epoch)
unfolding start_switch
start_switch-ok pid expected state live probe corpus latest h =
    elim (Result-cases (switch_snapshot expected state live probe latest)) [
      | inl (c, e) ↦
          let (_, probed, _) =
            >>=-inversion (check_switch expected state live)
              (λ done. probe >>= λ c'. validate_switch_version latest state expected >> ok c') e in
          let (c', fenced, _) =
            >>=-inversion probe (λ c'. validate_switch_version latest state expected >> ok c')
              probed in
          let (u, same, valid) =
            >>=-inversion (validate_switch_version latest state expected) (λ done. ok c') fenced in
          let (_, settled, epoch) = validate_switch_version-ok latest state expected u valid in
          (c, ap (λ r. (settle_start pid corpus latest r).1) e, settled, epoch)
      | inr (r, e) ↦ absurd (ground arith)
    ]

pub start_switch-err :
    (pid expected : ℕ) (state : Journal) (live : List ProcessRow) (probe : Result CorpusSnapshot)
    (corpus : ℕ) (latest : Journal) (r : AppError)
    → (start_switch pid expected state live probe corpus latest).0 ≡ err r
    → (start_switch pid expected state live probe corpus latest).1
      ≡ fail_prepare pid switch_failed latest
unfolding start_switch
start_switch-err pid expected state live probe corpus latest r h =
    elim (Result-cases (switch_snapshot expected state live probe latest)) [
      | inl (c, e) ↦ absurd (ground arith)
      | inr (_, e) ↦ ap (λ r. (settle_start pid corpus latest r).1) e
    ]

commit_switch-inversion :
    (c : CorpusSnapshot) (corpus pid : ℕ) (latest : Latest) (j j' : Journal)
    → commit_switch c corpus pid latest j ≡ ok j'
    → (is_prepared c pid j ≡ true) × (commit_row j.candidate j ≡ j')
unfolding commit_switch
commit_switch-inversion c corpus pid latest j j' h = elim (Bool-cases (is_prepared c pid j)) [
  | inl prepared ↦
      let (_, rest, _) =
        >>=-inversion (quiescent latest.documents latest.outbox)
          (λ done.
            if not (latest.digest == corpus && latest.same_config)
            then err validation_error
            else if not latest.has_config
            then err validation_error
            else ok (commit_row j.candidate j))
          (rw prepared at h) in
      (prepared, ground arith)
  | inr other ↦ absurd (ground arith)
]

-- A commit that goes through has found the preparation of its owner, and installs the candidate.
pub commit_switch-ok :
    (c : CorpusSnapshot) (corpus pid : ℕ) (latest : Latest) (j j' : Journal)
    → CandidateOf j.phase j.installed j.candidate
    → commit_switch c corpus pid latest j ≡ ok j'
    → (is_preparing j.phase ≡ true)
      × (j.owner ≡ some pid)
      × (j.candidate ≡ some j'.installed)
      × (j'.installed.generation ≡ c.generation)
      × (j' ≡ record j { phase = committing; installed = j'.installed })
unfolding commit_switch
commit_switch-ok c corpus pid latest j j' v h =
    let (prepared, e) = commit_switch-inversion c corpus pid latest j j' h in
    elim (Option-cases j.candidate) [
      | inl nothing ↦ absurd (ground arith)
      | inr (k, there) ↦
          let e' : record j { phase = committing; installed = k } ≡ j' =
            sym (ap (λ o. commit_row o j) there) ∙ e in
          rw (← e') (ground arith, ground arith, ground arith, ground arith, refl)
    ]

-- What a recovery may do to the journal.
abbrev pub Recovered : Journal → Journal → Type 0
Recovered j j' =
    (j' ≡ j)
    ⊎ ((g : ℕ) × (j' ≡ finish_commit g j))
    ⊎ ((owner : ℕ) × (j' ≡ fail_prepare owner owner_unavailable j))

recover_preparing-Recovered :
    (o : Option ℕ) (state : Journal) (live : List ProcessRow) (j : Journal)
    → Recovered j (recover_preparing o state live j)
recover_preparing-Recovered none state live j = inl refl
recover_preparing-Recovered (some owner) state live j =
    elim (Bool-cases (is_preparing state.phase && not (any (λ p. p.process_id == owner) live))) [
      | inl lost ↦ rw lost (inr (inr (owner, refl)))
      | inr there ↦ rw there (inl refl)
    ]

recover_pending-Recovered :
    (c : Option CorpusSnapshot) (state : Journal) (live : List ProcessRow) (j : Journal)
    → Recovered j (recover_pending c state live j)
recover_pending-Recovered none state live j = recover_preparing-Recovered state.owner state live j
recover_pending-Recovered (some c) state live j = elim (Bool-cases (is_committing state.phase)) [
  | inr other ↦ rw other (recover_preparing-Recovered state.owner state live j)
  | inl commits ↦ rw commits (elim (Bool-cases (all_applied c.generation live)) [
    | inl ready ↦ rw ready (inr (inl (c.generation, refl)))
    | inr waits ↦ rw waits (inl refl)
  ])
]

pub recover-Recovered :
    (state : Journal) (live : List ProcessRow) (j : Journal) → Recovered j (recover state live j)
unfolding recover
recover-Recovered state live j = recover_pending-Recovered state.candidate state live j
