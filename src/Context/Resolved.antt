-- ===== src/Context/Resolved.antt =====
-- server/app/infrastructure/ml/rag/rag_postprocess.py: what resolve_temporal_conflicts keeps of the
-- retrieved documents.
use rag_assistant.Prelude.{
  ==_iff, All, Bool, Bool-cases, List, [], ap, arith, false, if◌then◌else◌, inl, inr, not, refl,
  select, sym, true, ℕ, ◌++◌, ◌==◌, ◌∙◌, ◌∷◌, ◌≡◌, subst, All-append, All-select, All-weaken,
  append_nil,
}
use rag_assistant.Context.Temporal.{
  Retrieved, group_by, resolve_act, resolve_acts, is_versioned, act_of, version_of, start_of,
  resolve_temporal_conflicts,
}
use rag_assistant.Context.Groups.{
  keyed, has_key, group_of, IsDictionary, found_groups, group_of-group_by, group_by-IsDictionary,
}
use rag_assistant.Context.Newest.{IsNewest, resolve_act-IsNewest}

module _ {A : Type 0} where
  select-append : (p : A → Bool) (xs ys : List A) → select p (xs ++ ys) ≡ select p xs ++ select p ys
  select-append p [] ys = refl
  select-append p (x ∷ xs) ys = ground (arith, select-append p xs ys)

  -- What a test selects satisfies it.
  selected : (p : A → Bool) (xs : List A) → All (λ x. p x ≡ true) (select p xs)
  selected p [] = tt
  selected p (x ∷ xs) = elim (Bool-cases (p x)) [
    | inl hit ↦ rw hit (hit, selected p xs)
    | inr miss ↦ rw miss (selected p xs)
  ]

  select_whole : (p : A → Bool) (xs : List A) → All (λ x. p x ≡ true) xs → select p xs ≡ xs
  select_whole p [] h = refl
  select_whole p (x ∷ xs) (hit, h) = rw (hit, select_whole p xs h) refl

  select_nothing : (p : A → Bool) (xs : List A) → All (λ x. p x ≡ false) xs → select p xs ≡ []
  select_nothing p [] h = refl
  select_nothing p (x ∷ xs) (miss, h) = rw (miss, select_nothing p xs h) refl

  module _ (act version start : A → ℕ) where
    -- The groups of a dictionary by the act.
    abbrev IsByAct : ℕ × List A → Type 0
    IsByAct g = All (λ x. act x ≡ g.0) g.1

    resolve_act-All :
        (P : A → Type 0) (xs : List A) → All P xs → All P (resolve_act version start xs)
    resolve_act-All P xs h =
        let (v, same, newest) = resolve_act-IsNewest version start xs in
        subst (All P) (sym same) (All-select P (λ x. version x == v) xs h)

    resolve_acts-All :
        (P : A → Type 0) (groups : List (ℕ × List A))
        → All (λ (g : ℕ × List A). All P g.1) groups
        → All P (resolve_acts version start groups)
    unfolding resolve_acts
    resolve_acts-All P [] h = tt
    resolve_acts-All P ((k, xs) ∷ groups) (h, hs) =
        All-append P (resolve_act version start xs) (resolve_acts version start groups)
          (resolve_act-All P xs h) (resolve_acts-All P groups hs)

    keyed-resolve_act :
        (k a : ℕ) (xs : List A)
        → IsByAct (k, xs)
        → keyed act a (resolve_act version start xs)
          ≡ (if k == a then resolve_act version start xs else [])
    keyed-resolve_act k a xs h =
        let kept = resolve_act-All (λ x. act x ≡ k) xs h in
        elim (Bool-cases (k == a)) [
          | inl same ↦ rw same (
              select_whole (λ x. act x == a) (resolve_act version start xs)
                (All-weaken (λ x. act x ≡ k) (λ x. (act x == a) ≡ true) _ (λ x e. rw (e, same) refl)
                  kept))
          | inr other ↦ rw other (
              select_nothing (λ x. act x == a) (resolve_act version start xs)
                (All-weaken (λ x. act x ≡ k) (λ x. (act x == a) ≡ false) _
                  (λ x e. rw (e, other) refl) kept))
        ]

    group_of_none :
        (a : ℕ) (groups : List (ℕ × List A)) → has_key a groups ≡ false → group_of a groups ≡ []
    group_of_none a [] h = refl
    group_of_none a ((k, xs) ∷ groups) h = ground (arith, h, group_of_none a groups)

    keyed-resolve_acts :
        (a : ℕ) (groups : List (ℕ × List A))
        → IsDictionary groups
        → All IsByAct groups
        → keyed act a (resolve_acts version start groups)
          ≡ resolve_act version start (group_of a groups)
    unfolding resolve_acts
    keyed-resolve_acts a [] h hs = refl
    keyed-resolve_acts a ((k, xs) ∷ groups) (new, h) (x, hs) =
        select-append (λ y. act y == a) (resolve_act version start xs)
          (resolve_acts version start groups)
        ∙ rw (keyed-resolve_act k a xs x, keyed-resolve_acts a groups h hs)
            (elim (Bool-cases (k == a)) [
              | inl same ↦ rw same (
                  rw
                    (group_of_none a groups
                      (subst (λ j. has_key j groups ≡ false) ((==_iff k a).0 same) new))
                    (append_nil (resolve_act version start xs)))
              | inr other ↦ rw other refl
            ])

    by_act : (docs : List A) → All IsByAct (group_by act [] docs)
    by_act docs =
        All-weaken (λ (g : ℕ × List A). g.1 ≡ keyed act g.0 docs) IsByAct (group_by act [] docs)
          (λ (g : ℕ × List A) same. subst (All λ x. act x ≡ g.0) (sym same) (
            All-weaken (λ x. (act x == g.0) ≡ true) (λ x. act x ≡ g.0) (keyed act g.0 docs)
              (λ x e. (==_iff (act x) g.0).0 e) (selected (λ x. act x == g.0) docs)))
          (found_groups (λ k. keyed act k docs) (group_by act [] docs)
            (group_by-IsDictionary act [] docs tt) (λ k there. group_of-group_by act k [] docs))

    pub resolve_acts_lem :
        (a : ℕ) (docs : List A)
        → keyed act a (resolve_acts version start (group_by act [] docs))
          ≡ resolve_act version start (keyed act a docs)
    resolve_acts_lem a docs =
        keyed-resolve_acts a (group_by act [] docs) (group_by-IsDictionary act [] docs tt)
          (by_act docs)
        ∙ ap (resolve_act version start) (group_of-group_by act a [] docs)

    pub resolve_acts-kept :
        (P : A → Type 0) (docs : List A)
        → All P docs
        → All P (resolve_acts version start (group_by act [] docs))
    resolve_acts-kept P docs h = resolve_acts-All P (group_by act [] docs) (
        All-weaken (λ (g : ℕ × List A). g.1 ≡ keyed act g.0 docs) (λ (g : ℕ × List A). All P g.1)
          (group_by act [] docs)
          (λ (g : ℕ × List A) same.
            subst (All P) (sym same) (All-select P (λ x. act x == g.0) docs h))
          (found_groups (λ k. keyed act k docs) (group_by act [] docs)
            (group_by-IsDictionary act [] docs tt) (λ k there. group_of-group_by act k [] docs)))

module _ {D : Type 0} where
  -- The documents that carry a version of the act.
  abbrev pub of_act : ℕ → List (Retrieved D) → List (Retrieved D)
  of_act a docs = keyed act_of a (select is_versioned docs)

  abbrev pub unversioned : List (Retrieved D) → List (Retrieved D)
  unversioned docs = select (λ (d : Retrieved D). not (is_versioned d)) docs

  -- The documents without a version of an act are all kept. Of each act exactly the documents of one
  -- version are kept, all of them, and by the date of its first chunk, and then by its id, no version
  -- of the act among the documents is newer.
  pub resolve_temporal_conflicts_lem :
      (docs : List (Retrieved D))
      → (unversioned (resolve_temporal_conflicts docs) ≡ unversioned docs)
        × ((a : ℕ)
            → IsNewest version_of start_of
                (of_act a docs)
                (of_act a (resolve_temporal_conflicts docs)))
  unfolding resolve_temporal_conflicts
  resolve_temporal_conflicts_lem docs =
      let versioned = select is_versioned docs in
      let kept = resolve_acts version_of start_of (group_by act_of [] versioned) in
      let all_versioned : All (λ (d : Retrieved D). is_versioned d ≡ true) kept =
        resolve_acts-kept act_of version_of start_of (λ (d : Retrieved D). is_versioned d ≡ true)
          versioned (selected is_versioned docs) in
      let plain : Retrieved D → Bool = λ d. not (is_versioned d) in
      let none_plain : select plain kept ≡ [] = select_nothing plain kept (
        All-weaken _ (λ (d : Retrieved D). plain d ≡ false) kept (λ d h. rw h refl)
          all_versioned) in
      let plain_only : select plain (select plain docs) ≡ select plain docs =
        select_whole plain (select plain docs) (selected plain docs) in
      let no_versioned : select is_versioned (select plain docs) ≡ [] =
        select_nothing is_versioned (select plain docs) (
          All-weaken _ (λ (d : Retrieved D). is_versioned d ≡ false) (select plain docs)
            (λ d h. ground (arith, h)) (selected plain docs)) in
      let versioned_only : select is_versioned (select plain docs ++ kept) ≡ kept =
        select-append is_versioned (select plain docs) kept
        ∙ rw (no_versioned, select_whole is_versioned kept all_versioned) refl in
      (
        select-append plain (select plain docs) kept
            ∙ rw (plain_only, none_plain) (append_nil (select plain docs)),
        λ a.
            subst (IsNewest version_of start_of (of_act a docs))
              (sym (
                ap (keyed act_of a) versioned_only
                ∙ resolve_acts_lem act_of version_of start_of a versioned))
              (resolve_act-IsNewest version_of start_of (of_act a docs)),
      )
