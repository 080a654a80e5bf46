-- ===== src/Context/Temporal.antt =====
-- server/app/infrastructure/ml/rag/rag_postprocess.py, resolve_temporal_conflicts: of each act only the
-- chunks of its newest version are kept. A dictionary is the list of its entries in their order. A date
-- is a number above 0, which stands for `date.min`.
use rag_assistant.Prelude.{
  Bool, List, Option, [], false, get_or, if◌then◌else◌, is_none, not, true, ℕ, ◌&&◌, ◌++◌, ◌==◌,
  ◌||◌, ◌∷◌, ltb, select,
}

-- A document with its score, and its metadata as the function reads them: `effective_from` is `none`
-- where it is missing or unreadable.
pub record Retrieved (D : Type 0) : Type 0 where
  pub doc : D
  pub act_id : Option ℕ
  pub act_version_id : Option ℕ
  pub effective_from : Option ℕ

module _ {A : Type 0} where
  -- `groups.setdefault(key, []).append(x)`
  unfoldable pub add_to : ℕ → A → List (ℕ × List A) → List (ℕ × List A)
  add_to key x [] = (key, x ∷ []) ∷ []
  add_to key x ((k, xs) ∷ groups) =
      let rest = add_to key x groups in
      if k == key then (k, xs ++ x ∷ []) ∷ groups else (k, xs) ∷ rest

  unfoldable pub group_by : (A → ℕ) → List (ℕ × List A) → List A → List (ℕ × List A)
  unfolding add_to
  group_by key groups [] = groups
  group_by key groups (x ∷ xs) = group_by key (add_to (key x) x groups) xs

  module _ (version start : A → ℕ) where
    -- The key of `max`: the date and the id of the version of the first chunk.
    abbrev pub is_newer : List A → List A → Bool
    is_newer [] ys = false
    is_newer (x ∷ xs) [] = true
    is_newer (x ∷ xs) (y ∷ ys) =
        ltb (start y) (start x) || ((start x == start y) && ltb (version y) (version x))

    abbrev pub newest_from : List A → List (ℕ × List A) → List A
    newest_from best [] = best
    newest_from best ((k, xs) ∷ groups) = newest_from (if is_newer xs best then xs else best) groups

    abbrev pub newest_of : List A → List (ℕ × List A) → List A
    newest_of versions [] = []
    newest_of versions (g ∷ []) = versions
    newest_of versions (g ∷ h ∷ groups) = newest_from g.1 (h ∷ groups)

    unfoldable pub resolve_act : List A → List A
    unfolding group_by
    resolve_act [] = []
    resolve_act (x ∷ []) = x ∷ []
    resolve_act (x ∷ y ∷ versions) =
        newest_of (x ∷ y ∷ versions) (group_by version [] (x ∷ y ∷ versions))

    unfoldable pub resolve_acts : List (ℕ × List A) → List A
    unfolding resolve_act
    resolve_acts [] = []
    resolve_acts ((act, versions) ∷ groups) = resolve_act versions ++ resolve_acts groups

module _ {D : Type 0} where
  abbrev pub is_versioned : Retrieved D → Bool
  is_versioned d = not (is_none d.act_id) && not (is_none d.act_version_id)

  abbrev pub act_of : Retrieved D → ℕ
  act_of d = get_or d.act_id 0

  abbrev pub version_of : Retrieved D → ℕ
  version_of d = get_or d.act_version_id 0

  abbrev pub start_of : Retrieved D → ℕ
  start_of d = get_or d.effective_from 0

  unfoldable pub resolve_temporal_conflicts : List (Retrieved D) → List (Retrieved D)
  unfolding group_by resolve_acts
  resolve_temporal_conflicts docs =
      select (λ (d : Retrieved D). not (is_versioned d)) docs
      ++ resolve_acts version_of start_of (group_by act_of [] (select is_versioned docs))
