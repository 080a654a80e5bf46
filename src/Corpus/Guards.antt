-- ===== src/Corpus/Guards.antt =====
-- server/app/infrastructure/corpus/locks.py: the tests under the advisory lock, and a guarded write.
use rag_assistant.Prelude.{
  Option, Result, err, if◌then◌else◌, none, not, ok, some, validation_error, ℕ, ◌+◌, ◌==◌, ◌||◌,
}
use rag_assistant.Corpus.Repository.{CorpusSnapshot, Journal, is_settled}

-- `digest` is SHA-256 of the printed fields, which is not the program's own.
module _ (digest : ℕ × ℕ × ℕ × ℕ → ℕ) where
  abbrev pub namespace : CorpusSnapshot → ℕ
  namespace s = digest (s.endpoint, s.physical_collection, s.embedding_identity, s.generation)

  unfoldable pub validate_write_admission : Option Journal → CorpusSnapshot → Result (Unit {0})
  validate_write_admission none s = err validation_error
  validate_write_admission (some j) s =
      if not (is_settled j.phase)
      then err validation_error
      else if not (namespace j.installed == namespace s)
      then err validation_error
      else ok tt

  -- `UPDATE corpus_control SET write_epoch=write_epoch+1 WHERE id=1`.
  abbrev count_write : Option Journal → Option Journal
  count_write none = none
  count_write (some j) = some (record j { write_epoch = j.write_epoch + 1 })

  -- A write under the guard, given the answer of the admission.
  abbrev guarded :
      {Index A : Type 0}
      → (Index → Result A × Index)
      → Index
      → Option Journal
      → Result (Unit {0})
      → Result A × Index × Option Journal
  guarded write index row (err e) = (err e, index, row)
  guarded write index row (ok done) = ((write index).0, (write index).1, count_write row)

  -- `corpus_write_guard` around a write: `write` is run on the index only if it is admitted, and its
  -- exception leaves the guard, which has counted the write by then. The row may be missing.
  unfoldable pub corpus_write_guard :
      {Index A : Type 0}
      → CorpusSnapshot
      → (Index → Result A × Index)
      → Index
      → Option Journal
      → Result A × Index × Option Journal
  unfolding validate_write_admission
  corpus_write_guard s write index row = guarded write index row (validate_write_admission row s)

unfoldable pub validate_switch_version : Journal → Journal → ℕ → Result (Unit {0})
validate_switch_version latest previous expected =
    if not (latest.installed.generation == expected)
      || (not (is_settled latest.phase) || not (latest.write_epoch == previous.write_epoch))
    then err validation_error
    else ok tt
