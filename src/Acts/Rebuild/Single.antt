-- ===== src/Acts/Rebuild/Single.antt =====
-- Which edition `rebuild` flags as current.
use rag_assistant.Prelude.{
  ℕ, ◌≤◌, true, false, List, [], ◌∷◌, ◌≡◌, sym, subst, arith, All, any, ok, >>=-inversion,
  ok-injective, Bool-cases, inl, inr,
}
use rag_assistant.Acts.{ActVersion, Ends, key_le}
use rag_assistant.Acts.Sort.{sort}
use rag_assistant.Acts.Sorted.{All-sort}
use rag_assistant.Acts.Cover.{covers, count_if, in_force_on}
use rag_assistant.Acts.Rebuild.{rebuild_versions, mark_last_eligible, is_eligible, rebuild}
use rag_assistant.Acts.Rebuild.Ordered.{IsDated, sort-IsOrdered}
use rag_assistant.Acts.Rebuild.Disjoint.{rebuild_versions-IsCons, rebuild_versions-in_force_on}

abbrev IsUnflagged : ActVersion → Type 0
IsUnflagged v = v.is_current ≡ false

abbrev IsFlaggedToday : ℕ → ActVersion → Type 0
IsFlaggedToday today v = v.is_current ≡ covers v today

rebuild_versions-IsUnflagged :
    (ends : Ends) (vs r : List ActVersion) → rebuild_versions ends vs ≡ ok r → All IsUnflagged r
unfolding rebuild_versions
rebuild_versions-IsUnflagged ends [] r h = subst (All IsUnflagged) (ok-injective h) tt
rebuild_versions-IsUnflagged ends (v ∷ vs) r h =
    let c = rebuild_versions-IsCons ends v vs r h in
    subst (All IsUnflagged) (sym c.splits)
      (c.first_cut.not_current, rebuild_versions-IsUnflagged ends vs c.rest c.rest_built)

none_eligible :
    (today : ℕ) (vs : List ActVersion)
    → any (is_eligible today) vs ≡ false
    → All IsUnflagged vs
    → All (IsFlaggedToday today) vs
none_eligible today [] h u = tt
none_eligible today (v ∷ vs) h u = (ground arith, none_eligible today vs (ground arith) u.1)

some_eligible :
    (today : ℕ) (vs : List ActVersion)
    → any (is_eligible today) vs ≡ true
    → 1 ≤ in_force_on today vs
unfolding count_if
some_eligible today [] h = ground arith
some_eligible today (v ∷ vs) h = ground (arith, some_eligible today vs)

mark_last_eligible-flags :
    (today : ℕ) (vs : List ActVersion)
    → All IsUnflagged vs
    → in_force_on today vs ≤ 1
    → All (IsFlaggedToday today) (mark_last_eligible today vs)
unfolding mark_last_eligible count_if
mark_last_eligible-flags today [] u h = tt
mark_last_eligible-flags today (v ∷ vs) u h = elim (Bool-cases (any (is_eligible today) vs)) [
  | inl later ↦ rw later (
    ground (arith, some_eligible today vs later),
    mark_last_eligible-flags today vs u.1 (omega arith),
  )
  | inr none_later ↦ elim (Bool-cases (is_eligible today v)) [
    | inl now ↦ rw (none_later, now) (sym now, none_eligible today vs none_later u.1)
    | inr never ↦ rw (none_later, never) (ground arith, none_eligible today vs none_later u.1)
  ]
]

-- After a rebuild of dated editions, an edition is flagged current exactly if it is in force today.
pub rebuild-flags :
    (versions r : List ActVersion) (ends : Ends) (today : ℕ)
    → All IsDated versions
    → rebuild versions ends today ≡ ok r
    → All (λ v. v.is_current ≡ covers v today) r
unfolding rebuild
rebuild-flags versions r ends today d h =
    let (ordered, same, built) =
      >>=-inversion (rebuild_versions ends (sort key_le versions))
        (λ ordered. ok (mark_last_eligible today ordered)) h in
    subst (All (IsFlaggedToday today)) (ok-injective same) (
      mark_last_eligible-flags today ordered
        (rebuild_versions-IsUnflagged ends (sort key_le versions) ordered built)
        (rebuild_versions-in_force_on ends today (sort key_le versions) ordered built
          (All-sort key_le IsDated versions d) (sort-IsOrdered versions d)))
