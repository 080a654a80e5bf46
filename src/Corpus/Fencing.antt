-- ===== src/Corpus/Fencing.antt =====
-- What the fence of the corpus gives: what a commit installs, and what a rejected switch does to one
-- that is pending.
use rag_assistant.Prelude.{
  List, Result, arith, false, if◌then◌else◌, none, ok, some, true, validation_error, ℕ, ◌==◌, ◌>>=◌,
  ◌>>◌, ◌∙◌, ◌≡◌, ap, err,
}
use rag_assistant.Corpus.Repository.{
  CorpusSnapshot, Journal, failed, committing, ProcessRow, Latest, is_preparing, is_settled,
  fail_prepare, commit_switch,
}
use rag_assistant.Corpus.Guards.{validate_switch_version}
use rag_assistant.Corpus.{start_switch, check_switch, switch_failed, settle_start}
use rag_assistant.Corpus.Steps.{System, Reach}
use rag_assistant.Corpus.Switching.{commit_switch-ok}
use rag_assistant.Corpus.Phases.{Reach-IsSound}

-- A commit, in any system that can be reached, installs exactly the candidate that was prepared
-- under the owner's name, and no write has been counted since its owner had read the epoch, before
-- it probed the candidate.
pub commit_switch-Reach :
    (digest : ℕ × ℕ × ℕ × ℕ → ℕ) (s : System) (c : CorpusSnapshot) (corpus pid : ℕ)
    (latest : Latest) (j : Journal)
    → Reach digest s
    → commit_switch c corpus pid latest s.journal ≡ ok j
    → (s.journal.owner ≡ some pid)
      × (s.journal.candidate ≡ some j.installed)
      × (j.installed.generation ≡ c.generation)
      × (j.phase ≡ committing)
      × (j.write_epoch ≡ s.validated)
commit_switch-Reach digest s c corpus pid latest j r h =
    let v = Reach-IsSound digest r in
    let (phase, own, candidate, same, e) =
      commit_switch-ok c corpus pid latest s.journal j v.candidate h in
    (own, candidate, same, ap (λ x. x.phase) e, ap (λ x. x.write_epoch) e ∙ v.epoch (ground arith))

-- A switch that finds one pending is refused; but its handler fails the pending preparation, if that
-- is of the same process, and leaves the journal alone only if it is another's.
pub start_switch-pending :
    (pid expected owner : ℕ) (live : List ProcessRow) (probe : Result CorpusSnapshot) (corpus : ℕ)
    (j : Journal)
    → is_preparing j.phase ≡ true
    → j.owner ≡ some owner
    → start_switch pid expected j live probe corpus j ≡ (
      err validation_error,
      if owner == pid
          then record j { phase = failed; candidate = none; error = some switch_failed }
          else j,
    )
unfolding start_switch fail_prepare check_switch
start_switch-pending pid expected owner live probe corpus j h own =
    let settled : is_settled j.phase ≡ false = ground arith in
    let refused : check_switch expected j live ≡ err validation_error = rw settled in
    ap
      (λ r.
        settle_start pid corpus j
          (r >> (probe >>= λ s. validate_switch_version j j expected >> ok s)))
      refused
    ∙ rw (h, own)
