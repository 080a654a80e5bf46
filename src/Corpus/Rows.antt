-- ===== src/Corpus/Rows.antt =====
-- What the heartbeats of the ticks make of the table of processes.
use rag_assistant.Prelude.{
  All, Bool, Bool-cases, Option, [], all, any, arith, false, inl, inr, is_none, map, none, not,
  option_eq, refl, some, true, ℕ, ◌&&◌, ◌+◌, ◌<◌, ◌==◌, ◌||◌, ◌∷◌, ◌≡◌, ◌≤◌, List, leb,
}
use rag_assistant.Corpus.Repository.{
  CorpusSnapshot, ProcessRow, Role, heartbeat, live_participants, is_alive, is_serving, beat,
}
use rag_assistant.Corpus.{Local, all_applied, is_api, is_worker}

-- A row that reports the generation, without an error, from a time on.
abbrev pub is_current : ℕ → ℕ → ProcessRow → Bool
is_current t0 generation p =
    leb t0 p.heartbeat_at && (option_eq p.applied_generation (some generation) && is_none p.error)

-- A row of a serving process is current, or its process has its tick ahead.
abbrev pub is_expected : ℕ → ℕ → List (ℕ × Local) → ProcessRow → Bool
is_expected t0 generation ls p =
    not (is_serving p.role)
    || (is_current t0 generation p || any (λ l. l.1.process_id == p.process_id) ls)

expected-beat :
    (t0 now id : ℕ) (c : CorpusSnapshot) (prepared : Option ℕ) (g : ℕ) (l : ℕ × Local)
    (ls : List (ℕ × Local)) (ps : List ProcessRow)
    → c.generation ≡ g
    → l.1.process_id ≡ id
    → t0 ≤ now
    → All (λ p. is_expected t0 g (l ∷ ls) p ≡ true) ps
    → All (λ p. is_expected t0 g ls p ≡ true) (map (beat now id (some c) prepared none) ps)
expected-beat t0 now id c prepared g l ls [] e same h a = tt
expected-beat t0 now id c prepared g l ls (p ∷ ps) e same h a =
    let below = expected-beat t0 now id c prepared g l ls ps e same h a.1 in
    elim (Bool-cases (p.process_id == id)) [
      | inl own ↦ rw own (ground arith, below)
      | inr other ↦ rw other (ground arith, below)
    ]

expected-skip :
    (t0 id g : ℕ) (l : ℕ × Local) (ls : List (ℕ × Local)) (ps : List ProcessRow)
    → l.1.process_id ≡ id
    → any (λ p. p.process_id == id) ps ≡ false
    → All (λ p. is_expected t0 g (l ∷ ls) p ≡ true) ps
    → All (λ p. is_expected t0 g ls p ≡ true) ps
expected-skip t0 id g l ls [] same new a = tt
expected-skip t0 id g l ls (p ∷ ps) same new a =
    (ground arith, expected-skip t0 id g l ls ps same (ground arith) a.1)

pub expected-heartbeat :
    (t0 now id : ℕ) (role : Role) (c : CorpusSnapshot) (prepared : Option ℕ) (g : ℕ) (l : ℕ × Local)
    (ls : List (ℕ × Local)) (ps : List ProcessRow)
    → c.generation ≡ g
    → l.1.process_id ≡ id
    → t0 ≤ now
    → All (λ p. is_expected t0 g (l ∷ ls) p ≡ true) ps
    → All (λ p. is_expected t0 g ls p ≡ true) (heartbeat now id role (some c) prepared none ps)
unfolding heartbeat
expected-heartbeat t0 now id role c prepared g l ls ps e same h a =
    elim (Bool-cases (any (λ p. p.process_id == id) ps)) [
      | inl known ↦ rw known (expected-beat t0 now id c prepared g l ls ps e same h a)
      | inr new ↦ rw new (ground arith, expected-skip t0 id g l ls ps same new a)
    ]

beat-role :
    (now id : ℕ) (c : Option CorpusSnapshot) (prepared error : Option ℕ) (p : ProcessRow)
    → (beat now id c prepared error p).role ≡ p.role
beat-role now id c prepared error p = ground arith

roles-beat :
    (f : Role → Bool) (now id : ℕ) (c : Option CorpusSnapshot) (prepared error : Option ℕ)
    (ps : List ProcessRow)
    → any (λ p. f p.role) ps ≡ true
    → any (λ p. f p.role) (map (beat now id c prepared error) ps) ≡ true
roles-beat f now id c prepared error [] h = h
roles-beat f now id c prepared error (p ∷ ps) h =
    rw (beat-role now id c prepared error p) (elim (Bool-cases (f p.role)) [
      | inl hit ↦ rw hit refl
      | inr miss ↦ rw miss (roles-beat f now id c prepared error ps (ground arith))
    ])

-- A heartbeat keeps the roles of the table.
pub roles-heartbeat :
    (f : Role → Bool) (now id : ℕ) (role : Role) (c : Option CorpusSnapshot)
    (prepared error : Option ℕ) (ps : List ProcessRow)
    → any (λ p. f p.role) ps ≡ true
    → any (λ p. f p.role) (heartbeat now id role c prepared error ps) ≡ true
unfolding heartbeat
roles-heartbeat f now id role c prepared error ps h =
    elim (Bool-cases (any (λ p. p.process_id == id) ps)) [
      | inl known ↦ rw known (roles-beat f now id c prepared error ps h)
      | inr new ↦ rw new (ground arith)
    ]

any-live :
    (f : Role → Bool) (t0 now g : ℕ) (ps : List ProcessRow)
    → ((r : Role) → f r ≡ true → is_serving r ≡ true)
    → now < t0 + 15
    → All (λ p. is_expected t0 g [] p ≡ true) ps
    → any (λ p. f p.role) ps ≡ true
    → any (λ p. f p.role) (live_participants now ps) ≡ true
unfolding live_participants
any-live f t0 now g [] k h a x = ground arith
any-live f t0 now g (p ∷ ps) k h a x = elim (Bool-cases (is_alive now p)) [
  | inl alive ↦ rw alive (elim (Bool-cases (f p.role)) [
    | inl hit ↦ rw hit refl
    | inr miss ↦ rw miss (any-live f t0 now g ps k h a.1 (ground arith))
  ])
  | inr dead ↦ rw dead (elim (Bool-cases (f p.role)) [
    | inl hit ↦ absurd (let serving = k p.role hit in ground arith)
    | inr miss ↦ any-live f t0 now g ps k h a.1 (ground arith)
  ])
]

all-live :
    (t0 now g : ℕ) (ps : List ProcessRow)
    → All (λ p. is_expected t0 g [] p ≡ true) ps
    → all
        (λ p. option_eq p.applied_generation (some g) && is_none p.error)
        (live_participants now ps)
      ≡ true
unfolding live_participants
all-live t0 now g [] a = refl
all-live t0 now g (p ∷ ps) a = elim (Bool-cases (is_alive now p)) [
  | inl alive ↦ rw alive (ground (arith, all-live t0 now g ps a.1))
  | inr dead ↦ rw dead (all-live t0 now g ps a.1)
]

pub all_applied-live :
    (t0 now g : ℕ) (ps : List ProcessRow)
    → now < t0 + 15
    → All (λ p. is_expected t0 g [] p ≡ true) ps
    → any (λ p. is_api p.role) ps ≡ true
    → any (λ p. is_worker p.role) ps ≡ true
    → all_applied g (live_participants now ps) ≡ true
unfolding all_applied
all_applied-live t0 now g ps h a x y =
    rw
      (
        any-live is_api t0 now g ps (λ r e. ground arith) h a x,
        any-live is_worker t0 now g ps (λ r e. ground arith) h a y,
        all-live t0 now g ps a,
      )
      refl
