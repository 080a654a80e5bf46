-- ===== src/Corpus/Phases.antt =====
-- The journal of the corpus under any interleaving of writers, switches and recoveries.
use rag_assistant.Prelude.{
  Bool-cases, List, Option, arith, false, inl, inr, none, option_eq, refl, some, ℕ, ◌&&◌, ◌==◌, ◌≡◌,
}
use rag_assistant.Corpus.Repository.{
  Journal, active, ProcessRow, is_preparing, is_committing, is_settled, initialize, begin_prepare,
  fail_prepare, finish_commit,
}
use rag_assistant.Corpus.{recover, switch_failed, owner_unavailable}
use rag_assistant.Corpus.Switching.{
  CandidateOf, validate_write_admission-ok, start_switch-ok, start_switch-err, commit_switch-ok,
  recover-Recovered,
}
use rag_assistant.Corpus.Steps.{
  System, Step, written, begun, rejected, committed, abandoned, released, recovered, Reach, initial,
  later,
}

-- While a switch is pending, the epoch is the one from before its probe.
pub record IsSound (s : System) : Type 0 where
  pub candidate : CandidateOf s.journal.phase s.journal.installed s.journal.candidate
  pub epoch : is_settled s.journal.phase ≡ false → s.journal.write_epoch ≡ s.validated

fail_prepare-IsSound :
    (pid error : ℕ) (holder : Option ℕ) (s : System)
    → IsSound s
    → IsSound (record s { journal = fail_prepare pid error s.journal; holder = holder })
unfolding fail_prepare
fail_prepare-IsSound pid error holder s v =
    elim (Bool-cases (is_preparing s.journal.phase && option_eq s.journal.owner (some pid))) [
      | inl own ↦ rw own (record { candidate = refl; epoch = λ x. ground arith })
      | inr other ↦ rw other (record { candidate = v.candidate; epoch = v.epoch })
    ]

finish_commit-IsSound :
    (g : ℕ) (s : System) → IsSound s → IsSound (record s { journal = finish_commit g s.journal })
unfolding finish_commit
finish_commit-IsSound g s v =
    elim (Bool-cases (is_committing s.journal.phase && s.journal.installed.generation == g)) [
      | inl own ↦ rw own (record { candidate = refl; epoch = λ x. ground arith })
      | inr other ↦ rw other (record { candidate = v.candidate; epoch = v.epoch })
    ]

recover-IsSound :
    (state : Journal) (live : List ProcessRow) (s : System)
    → IsSound s
    → IsSound (record s { journal = recover state live s.journal })
recover-IsSound state live s v = elim (recover-Recovered state live s.journal) [
  | inl e ↦ rw e (record { candidate = v.candidate; epoch = v.epoch })
  | inr (inl (g, e)) ↦ rw e (finish_commit-IsSound g s v)
  | inr (inr (owner, e)) ↦ rw e (fail_prepare-IsSound owner owner_unavailable s.holder s v)
]

Step-IsSound : (digest : ℕ × ℕ × ℕ × ℕ → ℕ) {s t : System} → Step digest s t → IsSound s → IsSound t
Step-IsSound digest {s} (written w free admitted) v =
    let settled = validate_write_admission-ok digest s.journal w admitted in
    record { candidate = v.candidate; epoch = λ x. ground arith }
Step-IsSound digest {s} (begun pid expected state live probe corpus free h) v =
    let (c, e, settled, epoch) = start_switch-ok pid expected state live probe corpus s.journal h in
    rw e (unfold begin_prepare in record { candidate = refl; epoch = λ x. epoch })
Step-IsSound digest {s} (rejected pid expected state live probe corpus r h) v =
    rw (start_switch-err pid expected state live probe corpus s.journal r h)
      (fail_prepare-IsSound pid switch_failed s.holder s v)
Step-IsSound digest {s} (committed pid corpus c latest j h) v =
    let (phase, own, candidate, _, e) =
      commit_switch-ok c corpus pid latest s.journal j v.candidate h in
    rw e (record { candidate = candidate; epoch = λ x. v.epoch (ground arith) })
Step-IsSound digest {s} (abandoned pid error) v = fail_prepare-IsSound pid error s.holder s v
Step-IsSound digest {s} released v = record { candidate = v.candidate; epoch = v.epoch }
Step-IsSound digest {s} (recovered state live) v = recover-IsSound state live s v

-- Under any interleaving of writes, switches of any processes, their commits and failures, and
-- recoveries, the candidate fits the phase: none while the corpus is active or a switch has failed,
-- some while one prepares, and the active corpus itself while a switch is committing; and while a
-- switch is pending, the epoch of the writes is the one that it had read before its probe.
pub Reach-IsSound : (digest : ℕ × ℕ × ℕ × ℕ → ℕ) {s : System} → Reach digest s → IsSound s
unfolding initialize
Reach-IsSound digest (initial c j h) =
    let e : record {
      phase = active;
      write_epoch = 0;
      installed = c;
      candidate = none;
      digest = none;
      owner = none;
      error = none;
    }
        ≡ j =
      cc in
    rw (← e) (record { candidate = refl; epoch = λ x. ground arith })
Reach-IsSound digest (later r t) = Step-IsSound digest t (Reach-IsSound digest r)
