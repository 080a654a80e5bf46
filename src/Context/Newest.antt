-- ===== src/Context/Newest.antt =====
-- server/app/infrastructure/ml/rag/rag_postprocess.py: the version of an act that is kept is the newest,
-- with all its chunks.
use rag_assistant.Prelude.{
  All, Bool, Bool-cases, List, [], ap, arith, false, if◌then◌else◌, inl, inr, nonempty, refl, sym,
  true, ℕ, ◌==◌, ◌∙◌, ◌∷◌, ◌≡◌, subst, ◌<◌, ◌≤◌, ◌⊎◌, All-weaken,
}
use mathlib.Core.Bool.{false≢true}
use rag_assistant.Context.Temporal.{group_by, is_newer, newest_from, newest_of, resolve_act}
use rag_assistant.Context.Groups.{
  keyed, has_key, group_of, found_groups, group_of-group_by, has_key-group_by,
  group_by-IsDictionary,
}

module _ {A : Type 0} (version start : A → ℕ) where
  is_newer_irrefl : (xs : List A) → is_newer version start xs xs ≡ false
  is_newer_irrefl [] = refl
  is_newer_irrefl (x ∷ xs) = ground arith

  -- What is not newer than the best so far is not newer than a newer one.
  is_newer_keeps :
      (a best c : List A)
      → is_newer version start a best ≡ false
      → is_newer version start c best ≡ true
      → is_newer version start a c ≡ false
  is_newer_keeps [] best c h k = refl
  is_newer_keeps (a ∷ more) [] c h k = cc
  is_newer_keeps (a ∷ more) (b ∷ best) [] h k = cc
  is_newer_keeps (a ∷ more) (b ∷ best) (c ∷ cs) h k = ground (arith, h, k)

  -- The best of the groups, and what was not newer than the best so far.
  newest_from-keeps :
      (a best : List A) (groups : List (ℕ × List A))
      → is_newer version start a best ≡ false
      → is_newer version start a (newest_from version start best groups) ≡ false
  newest_from-keeps a best [] h = h
  newest_from-keeps a best ((k, xs) ∷ groups) h =
      elim (Bool-cases (is_newer version start xs best)) [
        | inl newer ↦ rw newer (newest_from-keeps a xs groups (is_newer_keeps a best xs h newer))
        | inr older ↦ rw older (newest_from-keeps a best groups h)
      ]

  older_next :
      (xs best : List A)
      → is_newer version start xs (if is_newer version start xs best then xs else best) ≡ false
  older_next xs best = elim (Bool-cases (is_newer version start xs best)) [
    | inl newer ↦ rw newer (is_newer_irrefl xs)
    | inr older ↦ rw older older
  ]

  newest_from-best :
      (best : List A) (groups : List (ℕ × List A))
      → All
          (λ (g : ℕ × List A).
            is_newer version start g.1 (newest_from version start best groups) ≡ false)
          groups
  newest_from-best best [] = tt
  newest_from-best best ((k, xs) ∷ groups) =
      let next = if is_newer version start xs best then xs else best in
      (newest_from-keeps xs next groups (older_next xs best), newest_from-best next groups)

  newest_from-among :
      (P : List A → Type 0) (best : List A) (groups : List (ℕ × List A))
      → P best
      → All (λ (g : ℕ × List A). P g.1) groups
      → P (newest_from version start best groups)
  newest_from-among P best [] h hs = h
  newest_from-among P best ((k, xs) ∷ groups) h (x, hs) =
      elim (Bool-cases (is_newer version start xs best)) [
        | inl newer ↦ rw newer (newest_from-among P xs groups x hs)
        | inr older ↦ rw older (newest_from-among P best groups h hs)
      ]

  group_of-older :
      (r : List A) (k : ℕ) (groups : List (ℕ × List A))
      → All (λ (g : ℕ × List A). is_newer version start g.1 r ≡ false) groups
      → is_newer version start (group_of k groups) r ≡ false
  group_of-older r k [] h = refl
  group_of-older r k ((j, xs) ∷ groups) (x, h) = elim (Bool-cases (j == k)) [
    | inl same ↦ rw same x
    | inr other ↦ rw other (group_of-older r k groups h)
  ]

  abbrev IsBest : List A → List A → Type 0
  IsBest xs r =
      (v : ℕ) × (r ≡ keyed version v xs)
      × ((w : ℕ) → is_newer version start (keyed version w xs) r ≡ false)

  -- The first document of one list is not dated after that of the other, and if their dates agree its
  -- version has no larger id.
  abbrev NotAfter : List A → List A → Type 0
  NotAfter [] ys = Unit
  NotAfter (x ∷ xs) [] = ⊥
  NotAfter (x ∷ xs) (y ∷ ys) = (start x < start y) ⊎ ((start x ≡ start y) × (version x ≤ version y))

  is_newer-NotAfter : (xs ys : List A) → is_newer version start xs ys ≡ false → NotAfter xs ys
  is_newer-NotAfter [] ys h = tt
  is_newer-NotAfter (x ∷ xs) [] h = cc
  is_newer-NotAfter (x ∷ xs) (y ∷ ys) h = ground (arith, h)

  -- The documents of the version that is kept are all the documents of one version, and the documents
  -- of no other version come after them.
  abbrev pub IsNewest : List A → List A → Type 0
  IsNewest xs r = (v : ℕ) × (r ≡ keyed version v xs) × ((w : ℕ) → NotAfter (keyed version w xs) r)

  abbrev OfKey : List A → ℕ × List A → Type 0
  OfKey xs g = g.1 ≡ keyed version g.0 xs

  found_keyed :
      (xs : List A) (groups : List (ℕ × List A))
      → group_by version [] xs ≡ groups
      → All (OfKey xs) groups
  found_keyed xs groups e = subst (All (OfKey xs)) e (
      found_groups (λ j. keyed version j xs) (group_by version [] xs)
        (group_by-IsDictionary version [] xs tt) (λ j there. group_of-group_by version j [] xs))

  grouped-IsBest :
      (xs best : List A) (k : ℕ) (groups : List (ℕ × List A))
      → group_by version [] xs ≡ (k, best) ∷ groups
      → IsBest xs (newest_from version start best groups)
  grouped-IsBest xs best k groups e =
      let r = newest_from version start best groups in
      let found = found_keyed xs ((k, best) ∷ groups) e in
      let (v, same) =
        newest_from-among (λ l. (v : ℕ) × (l ≡ keyed version v xs)) best groups (k, found.0)
          (All-weaken _ _ groups (λ (g : ℕ × List A) same. (g.0, same)) found.1) in
      let older : All (λ (g : ℕ × List A). is_newer version start g.1 r ≡ false)
          ((k, best) ∷ groups) =
        (newest_from-keeps best best groups (is_newer_irrefl best), newest_from-best best groups) in
      (
        v,
        same,
        λ w.
            subst (λ l. is_newer version start l r ≡ false)
              (ap (group_of w) (sym e) ∙ group_of-group_by version w [] xs)
              (group_of-older r w ((k, best) ∷ groups) older),
      )

  -- The elements of one key, where they are all of them.
  keyed_whole :
      (v : ℕ) (xs : List A) → All (λ x. (version x == v) ≡ true) xs → keyed version v xs ≡ xs
  keyed_whole v [] h = refl
  keyed_whole v (x ∷ xs) (same, h) = rw (same, keyed_whole v xs h) refl

  -- Every element is among those of its key.
  among_own : (xs : List A) → All (λ x. nonempty (keyed version (version x) xs) ≡ true) xs
  among_own [] = tt
  among_own (x ∷ xs) = (
    ground arith,
    All-weaken (λ y. nonempty (keyed version (version y) xs) ≡ true)
        (λ y. nonempty (keyed version (version y) (x ∷ xs)) ≡ true) xs
        (λ y there. ground (arith, there)) (among_own xs),
  )

  newest_of-newest_from :
      (xs best : List A) (k : ℕ) (groups : List (ℕ × List A))
      → group_by version [] xs ≡ (k, best) ∷ groups
      → newest_of version start xs ((k, best) ∷ groups) ≡ newest_from version start best groups
  newest_of-newest_from xs best k [] e =
      let own : All (λ x. (version x == k) ≡ true) xs =
        All-weaken _ (λ x. (version x == k) ≡ true) xs
          (λ x there.
            let listed : has_key (version x) ((k, best) ∷ []) ≡ true =
              ap (has_key (version x)) (sym e)
              ∙ has_key-group_by version (version x) [] xs
              ∙ there in
            ground (arith, listed))
          (among_own xs) in
      sym ((found_keyed xs ((k, best) ∷ []) e).0 ∙ keyed_whole k xs own)
  newest_of-newest_from xs best k (g ∷ groups) e = refl

  newest_of-IsBest :
      (x : A) (xs : List A) (groups : List (ℕ × List A))
      → group_by version [] (x ∷ xs) ≡ groups
      → IsBest (x ∷ xs) (newest_of version start (x ∷ xs) groups)
  newest_of-IsBest x xs [] e =
      let listed =
        ap (has_key (version x)) (sym e) ∙ has_key-group_by version (version x) [] (x ∷ xs) in
      absurd (false≢true (listed ∙ (among_own (x ∷ xs)).0))
  newest_of-IsBest x xs ((k, best) ∷ groups) e =
      subst (IsBest (x ∷ xs)) (sym (newest_of-newest_from (x ∷ xs) best k groups e))
        (grouped-IsBest (x ∷ xs) best k groups e)

  one_older :
      (b : Bool) (x : A) → is_newer version start (if b then x ∷ [] else []) (x ∷ []) ≡ false
  one_older true x = is_newer_irrefl (x ∷ [])
  one_older false x = refl

  resolve_act-IsBest : (xs : List A) → IsBest xs (resolve_act version start xs)
  unfolding resolve_act
  resolve_act-IsBest [] = (0, refl, λ w. refl)
  resolve_act-IsBest (x ∷ []) =
      let self : (version x == version x) ≡ true = ground arith in
      (version x, rw self refl, λ w. one_older (version x == w) x)
  resolve_act-IsBest (x ∷ y ∷ xs) = newest_of-IsBest x (y ∷ xs) _ refl

  pub resolve_act-IsNewest : (xs : List A) → IsNewest xs (resolve_act version start xs)
  resolve_act-IsNewest xs =
      let (v, same, best) = resolve_act-IsBest xs in
      (v, same, λ w. is_newer-NotAfter (keyed version w xs) (resolve_act version start xs) (best w))
