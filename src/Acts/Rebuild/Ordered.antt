-- ===== src/Acts/Rebuild/Ordered.antt =====
-- The order that `rebuild` puts the versions in.
use rag_assistant.Prelude.{
  ℕ, Bool, true, false, Option, some, List, [], ◌∷◌, ◌≡◌, arith, All, Bool-cases, inl, inr, is_none,
  leb,
}
use rag_assistant.Acts.{ActVersion, key_le}
use rag_assistant.Acts.Sort.{sort, insert_sorted}
use rag_assistant.Acts.Sorted.{All-sort}

-- Every version has a start date, and the starts do not decrease.
abbrev pub IsDated : ActVersion → Type 0
IsDated v = is_none v.effective_from ≡ false

abbrev pub starts_le : Option ℕ → Option ℕ → Bool
starts_le (some a) (some b) = leb a b
starts_le _ _ = false

-- `v` starts no later than any of the list.
abbrev pub StartsBefore : ActVersion → List ActVersion → Type 0
StartsBefore v = All (λ w. starts_le v.effective_from w.effective_from ≡ true)

abbrev pub IsOrdered : List ActVersion → Type 0
IsOrdered [] = Unit
IsOrdered (v ∷ vs) = StartsBefore v vs × IsOrdered vs

starts_le-key_le :
    (v w : ActVersion)
    → IsDated v
    → IsDated w
    → key_le v w ≡ true
    → starts_le v.effective_from w.effective_from ≡ true
starts_le-key_le v w hv hw h = ground arith

starts_le-not_key_le :
    (v w : ActVersion)
    → IsDated v
    → IsDated w
    → key_le v w ≡ false
    → starts_le w.effective_from v.effective_from ≡ true
starts_le-not_key_le v w hv hw h = ground arith

starts_le_trans :
    (a b c : Option ℕ) → starts_le a b ≡ true → starts_le b c ≡ true → starts_le a c ≡ true
starts_le_trans a b c h k = ground arith

StartsBefore-trans :
    (v w : ActVersion) (ws : List ActVersion)
    → starts_le v.effective_from w.effective_from ≡ true
    → StartsBefore w ws
    → StartsBefore v ws
StartsBefore-trans v w [] h k = tt
StartsBefore-trans v w (x ∷ ws) h k = (
  starts_le_trans v.effective_from w.effective_from x.effective_from h k.0,
  StartsBefore-trans v w ws h k.1,
)

StartsBefore-insert_sorted :
    (v w : ActVersion) (ws : List ActVersion)
    → starts_le v.effective_from w.effective_from ≡ true
    → StartsBefore v ws
    → StartsBefore v (insert_sorted key_le w ws)
unfolding insert_sorted
StartsBefore-insert_sorted v w [] h k = (h, tt)
StartsBefore-insert_sorted v w (x ∷ ws) h k = elim (Bool-cases (key_le w x)) [
  | inl le ↦ rw le (h, k)
  | inr gt ↦ rw gt (k.0, StartsBefore-insert_sorted v w ws h k.1)
]

insert_sorted-IsOrdered :
    (w : ActVersion) (ws : List ActVersion)
    → IsDated w
    → All IsDated ws
    → IsOrdered ws
    → IsOrdered (insert_sorted key_le w ws)
unfolding insert_sorted
insert_sorted-IsOrdered w [] d ds o = (tt, tt)
insert_sorted-IsOrdered w (x ∷ ws) d ds o = elim (Bool-cases (key_le w x)) [
  | inl le ↦
      (let s = starts_le-key_le w x d ds.0 le in rw le ((s, StartsBefore-trans w x ws s o.0), o))
  | inr gt ↦ rw gt (
    StartsBefore-insert_sorted x w ws (starts_le-not_key_le w x d ds.0 gt) o.0,
    insert_sorted-IsOrdered w ws d ds.1 o.1,
  )
]

-- Dated versions come out of the sort in the order of their starts.
pub sort-IsOrdered : (ws : List ActVersion) → All IsDated ws → IsOrdered (sort key_le ws)
unfolding sort
sort-IsOrdered [] ds = tt
sort-IsOrdered (w ∷ ws) ds =
    insert_sorted-IsOrdered w (sort key_le ws) ds.0 (All-sort key_le IsDated ws ds.1)
      (sort-IsOrdered ws ds.1)
