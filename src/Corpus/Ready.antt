-- ===== src/Corpus/Ready.antt =====
-- A tick after a commit brings its process to the committed generation.
use rag_assistant.Prelude.{
  Bool-cases, Option, arith, inl, inr, is_none, none, not, refl, some, true, ℕ, ◌==◌, ◌||◌, ◌∙◌,
  ◌≡◌, List,
}
use rag_assistant.Corpus.Repository.{
  CorpusSnapshot, Journal, active, committing, ProcessRow, live_participants,
}
use rag_assistant.Corpus.{
  Local, Answers, apply_candidate, catch_up, apply_pending, tick_local, tick, recover, report,
  holds,
}

-- The client is built and the listener synchronizes.
abbrev pub well : Answers
well = record { built = true; synchronized = true }

-- A journal after a commit: still committing, or active again.
pub data IsCommitted (c : CorpusSnapshot) (j : Journal) : Type 0 where
  pending : j.phase ≡ committing → j.candidate ≡ some c → j.installed ≡ c → IsCommitted c j
  finished : j.phase ≡ active → j.candidate ≡ none → j.installed ≡ c → IsCommitted c j

-- A process that has the generation installed, without an error.
pub record IsReady (c : CorpusSnapshot) (l l' : Local) : Type 0 where
  pub installed : l'.resource.generation ≡ c.generation
  pub fine : l'.error ≡ none
  pub same_id : l'.process_id ≡ l.process_id
  pub same_role : l'.role ≡ l.role

apply_candidate-IsReady :
    (c : CorpusSnapshot) (l : Local) → IsReady c l (apply_candidate true c well l).1
unfolding apply_candidate
apply_candidate-IsReady c l = elim (Bool-cases (l.resource.generation == c.generation)) [
  | inr other ↦ rw other (elim (Bool-cases (holds l.prepared c)) [
    | inl held ↦
        rw held (record { installed = refl; fine = refl; same_id = refl; same_role = refl })
    | inr new ↦ rw new (record { installed = refl; fine = refl; same_id = refl; same_role = refl })
  ])
  | inl same ↦
      rw same
        (record { installed = ground arith; fine = ground arith; same_id = refl; same_role = refl })
]

catch_up-IsReady :
    (c : CorpusSnapshot) (j : Journal) (l : Local)
    → j.installed ≡ c
    → IsReady c l (catch_up j well l)
unfolding catch_up
catch_up-IsReady c j l e =
    elim (Bool-cases
      (not (l.resource.generation == j.installed.generation) || not (is_none l.error))) [
        | inl behind ↦ rw (behind, e) (apply_candidate-IsReady c l)
        | inr fresh ↦ rw fresh (record {
          installed = ground arith;
          fine = ground arith;
          same_id = refl;
          same_role = refl;
        })
      ]

IsReady-trans :
    (c : CorpusSnapshot) (l l' l'' : Local) → IsReady c l l' → IsReady c l' l'' → IsReady c l l''
IsReady-trans c l l' l'' r r' = record {
  installed = r'.installed;
  fine = r'.fine;
  same_id = r'.same_id ∙ r.same_id;
  same_role = r'.same_role ∙ r.same_role;
}

apply_pending-IsReady :
    (c : CorpusSnapshot) (j : Journal) (l l' : Local)
    → IsCommitted c j
    → IsReady c l l'
    → IsReady c l (apply_pending j.candidate j.phase well l').1
apply_pending-IsReady c j l l' (pending p k i) r =
    rw (p, k)
      (IsReady-trans c l l' (apply_candidate true c well l').1 r (apply_candidate-IsReady c l'))
apply_pending-IsReady c j l l' (finished p k i) r =
    rw (p, k)
      (record {
        installed = r.installed;
        fine = refl;
        same_id = r.same_id;
        same_role = r.same_role;
      })

IsCommitted-installed : (c : CorpusSnapshot) (j : Journal) → IsCommitted c j → j.installed ≡ c
IsCommitted-installed c j (pending p k i) = i
IsCommitted-installed c j (finished p k i) = i

pub tick-IsReady :
    (now : ℕ) (c : CorpusSnapshot) (j : Journal) (l : Local) (ps : List ProcessRow)
    → IsCommitted c j
    → let (l', ps', j') = tick now well well l ps j in
      (p : Option ℕ) × IsReady c l l'
      × (ps' ≡ report now l' p ps)
      × (j' ≡ recover j (live_participants now ps') j)
unfolding tick tick_local
tick-IsReady now c j l ps v =
    let caught = catch_up j well l in
    let ready = catch_up-IsReady c j l (IsCommitted-installed c j v) in
    let applied = apply_pending j.candidate j.phase well caught in
    let done = apply_pending-IsReady c j l caught v ready in
    rw ready.fine (applied.0, done, refl, refl)
