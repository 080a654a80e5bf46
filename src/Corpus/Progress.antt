-- ===== src/Corpus/Progress.antt =====
-- After a commit, the ticks of the serving processes end the switch.
use rag_assistant.Prelude.{
  All, Bool-cases, Option, [], any, ap, arith, if◌then◌else◌, inl, inr, none, refl, some, subst,
  sym, true, ℕ, ◌&&◌, ◌+◌, ◌<◌, ◌==◌, ◌∙◌, ◌∷◌, ◌≡◌, ◌≤◌, List,
}
use rag_assistant.Corpus.Repository.{
  CorpusSnapshot, Journal, active, committing, ProcessRow, heartbeat, live_participants,
  finish_commit, is_committing,
}
use rag_assistant.Corpus.{
  Local, all_applied, is_api, is_worker, tick, recover, recover_pending, recover_preparing,
}
use rag_assistant.Corpus.Ready.{well, IsCommitted, pending, finished, tick-IsReady}
use rag_assistant.Corpus.Rows.{is_expected, expected-heartbeat, roles-heartbeat, all_applied-live}

-- One tick after the other, each of a process of its own and at a time of its own.
unfoldable pub run_ticks : List (ℕ × Local) → List ProcessRow → Journal → List ProcessRow × Journal
unfolding tick
run_ticks [] ps j = (ps, j)
run_ticks ((now, l) ∷ ls) ps j =
    let (l', ps', j') = tick now well well l ps j in run_ticks ls ps' j'

recover_preparing-active :
    (o : Option ℕ) (state : Journal) (live : List ProcessRow) (j : Journal)
    → state.phase ≡ active
    → recover_preparing o state live j ≡ j
recover_preparing-active none state live j e = refl
recover_preparing-active (some owner) state live j e = rw e refl

finish_commit-committing :
    (j : Journal)
    → j.phase ≡ committing
    → finish_commit j.installed.generation j
      ≡ record j { phase = active; candidate = none; error = none }
unfolding finish_commit
finish_commit-committing j e =
    let both : (is_committing j.phase && j.installed.generation == j.installed.generation) ≡ true =
      ground arith in
    rw both refl

recover-committing :
    (c : CorpusSnapshot) (live : List ProcessRow) (j : Journal)
    → j.phase ≡ committing
    → j.candidate ≡ some c
    → j.installed ≡ c
    → recover j live j ≡ (
        if all_applied c.generation live
        then record j { phase = active; candidate = none; error = none }
        else j)
unfolding recover
recover-committing c live j p k i =
    let phase : is_committing j.phase ≡ true = ground arith in
    ap (λ o. recover_pending o j live j) k
    ∙ ap
        (λ b.
          if b
          then if all_applied c.generation live then finish_commit c.generation j else j
          else recover_preparing j.owner j live j)
        phase
    ∙ ap (λ x. if all_applied c.generation live then x else j)
        (ap (λ s. finish_commit s.generation j) (sym i) ∙ finish_commit-committing j p)

recover-IsCommitted :
    (c : CorpusSnapshot) (live : List ProcessRow) (j : Journal)
    → IsCommitted c j
    → IsCommitted c (recover j live j)
      × (all_applied c.generation live ≡ true → (recover j live j).phase ≡ active)
recover-IsCommitted c live j (pending p k i) =
    rw (recover-committing c live j p k i) (elim (Bool-cases (all_applied c.generation live)) [
      | inl ready ↦ rw ready (finished refl refl i, λ e. refl)
      | inr waits ↦ rw waits (pending p k i, λ e. absurd (ground arith))
    ])
recover-IsCommitted c live j (finished p k i) =
    let same : recover j live j ≡ j =
      unfold recover in
      (ap (λ o. recover_pending o j live j) k ∙ recover_preparing-active j.owner j live j p) in
    rw same (finished p k i, λ e. p)

tick-advances :
    (t0 now : ℕ) (c : CorpusSnapshot) (l : Local) (ls : List (ℕ × Local)) (ps : List ProcessRow)
    (j : Journal)
    → IsCommitted c j
    → t0 ≤ now
    → All (λ p. is_expected t0 c.generation ((now, l) ∷ ls) p ≡ true) ps
    → any (λ p. is_api p.role) ps ≡ true
    → any (λ p. is_worker p.role) ps ≡ true
    → let (l', ps', j') = tick now well well l ps j in
      IsCommitted c j'
      × All (λ p. is_expected t0 c.generation ls p ≡ true) ps'
      × (any (λ p. is_api p.role) ps' ≡ true)
      × (any (λ p. is_worker p.role) ps' ≡ true)
      × (all_applied c.generation (live_participants now ps') ≡ true → j'.phase ≡ active)
tick-advances t0 now c l ls ps j v t a x y =
    let r = tick now well well l ps j in
    let (p, ready, rows, journal) = tick-IsReady now c j l ps v in
    let (kept, ends) = recover-IsCommitted c (live_participants now r.1) j v in
    let l' = r.0 in
    let e : r.1 ≡ heartbeat now l'.process_id l'.role (some l'.resource) p none ps =
      rows ∙ ap (λ o. heartbeat now l'.process_id l'.role (some l'.resource) p o ps) ready.fine in
    (
      subst (IsCommitted c) (sym journal) kept,
      subst (All (λ p. is_expected t0 c.generation ls p ≡ true)) (sym e) (
          expected-heartbeat t0 now l'.process_id l'.role l'.resource p c.generation (now, l) ls ps
            ready.installed (sym ready.same_id) t a),
      subst (λ qs. any (λ p. is_api p.role) qs ≡ true) (sym e)
          (roles-heartbeat is_api now l'.process_id l'.role (some l'.resource) p none ps x),
      subst (λ qs. any (λ p. is_worker p.role) qs ≡ true) (sym e)
          (roles-heartbeat is_worker now l'.process_id l'.role (some l'.resource) p none ps y),
      λ all. ap (λ k. k.phase) journal ∙ ends all,
    )

abbrev IsTimely : ℕ → List (ℕ × Local) → Type 0
IsTimely t0 ls = All (λ l. (t0 ≤ l.0) × (l.0 < t0 + 15)) ls

-- Some ticks after a commit, one for every serving process, all within 15 seconds and with every
-- client built and every listener synchronized, make the corpus active, whatever the processes had
-- missed, if an API process and a worker are known and every serving process that has not reported
-- the generation yet has its tick among them.
pub run_ticks-active :
    (t0 : ℕ) (c : CorpusSnapshot) (l : ℕ × Local) (ls : List (ℕ × Local)) (ps : List ProcessRow)
    (j : Journal)
    → IsCommitted c j
    → IsTimely t0 (l ∷ ls)
    → All (λ p. is_expected t0 c.generation (l ∷ ls) p ≡ true) ps
    → any (λ p. is_api p.role) ps ≡ true
    → any (λ p. is_worker p.role) ps ≡ true
    → (run_ticks (l ∷ ls) ps j).1.phase ≡ active
unfolding run_ticks
run_ticks-active t0 c (now, l) [] ps j v t a x y =
    let r = tick now well well l ps j in
    let (_, rows, apis, workers, ends) = tick-advances t0 now c l [] ps j v t.0.0 a x y in
    ends (all_applied-live t0 now c.generation r.1 t.0.1 rows apis workers)
run_ticks-active t0 c (now, l) (m ∷ ls) ps j v t a x y =
    let r = tick now well well l ps j in
    let (v', rows, apis, workers, _) = tick-advances t0 now c l (m ∷ ls) ps j v t.0.0 a x y in
    run_ticks-active t0 c m ls r.1 r.2 v' t.1 rows apis workers
