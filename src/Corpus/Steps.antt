-- ===== src/Corpus/Steps.antt =====
-- The steps of the corpus' journal: writes, switches of any processes, commits, failures and
-- recoveries, in any order.
use rag_assistant.Prelude.{AppError, List, Option, Result, err, none, ok, some, ℕ, ◌+◌, ◌≡◌}
use rag_assistant.Corpus.Repository.{
  CorpusSnapshot, Journal, ProcessRow, Latest, initialize, fail_prepare, commit_switch,
}
use rag_assistant.Corpus.Guards.{validate_write_admission}
use rag_assistant.Corpus.{start_switch, recover}

-- The journal, the holder of the exclusive lock, and the epoch that the last admitted switch had read
-- before it probed the candidate.
pub record System : Type 0 where
  pub journal : Journal
  pub holder : Option ℕ
  pub validated : ℕ

-- A write is one step, since it holds the shared lock from its admission to its count. The state and
-- the participants that a switch or a recovery has read may be of any age. A lock may be lost at any
-- time, and its former holder may still commit or fail: only the journal is checked then.
pub data Step (digest : ℕ × ℕ × ℕ × ℕ → ℕ) (s : System) : System → Type 0 where
  written :
      (w : CorpusSnapshot)
      → s.holder ≡ none
      → validate_write_admission digest (some s.journal) w ≡ ok tt
      → Step digest s
          (record s { journal = record s.journal { write_epoch = s.journal.write_epoch + 1 } })
  begun :
      (pid expected : ℕ) (state : Journal) (live : List ProcessRow) (probe : Result CorpusSnapshot)
      (corpus : ℕ)
      → s.holder ≡ none
      → (start_switch pid expected state live probe corpus s.journal).0 ≡ ok tt
      → Step digest s (record {
        journal = (start_switch pid expected state live probe corpus s.journal).1;
        holder = some pid;
        validated = state.write_epoch;
      })
  rejected :
      (pid expected : ℕ) (state : Journal) (live : List ProcessRow) (probe : Result CorpusSnapshot)
      (corpus : ℕ) (e : AppError)
      → (start_switch pid expected state live probe corpus s.journal).0 ≡ err e
      → Step digest s
          (record s { journal = (start_switch pid expected state live probe corpus s.journal).1 })
  committed :
      (pid corpus : ℕ) (c : CorpusSnapshot) (latest : Latest) (j : Journal)
      → commit_switch c corpus pid latest s.journal ≡ ok j
      → Step digest s (record s { journal = j })
  abandoned :
      (pid error : ℕ) → Step digest s (record s { journal = fail_prepare pid error s.journal })
  released : Step digest s (record s { holder = none })
  recovered :
      (state : Journal) (live : List ProcessRow)
      → Step digest s (record s { journal = recover state live s.journal })

pub data Reach (digest : ℕ × ℕ × ℕ × ℕ → ℕ) : System → Type 0 where
  initial :
      (c : CorpusSnapshot) (j : Journal)
      → initialize c none ≡ some j
      → Reach digest (record { journal = j; holder = none; validated = 0 })
  later : {s t : System} → Reach digest s → Step digest s t → Reach digest t
