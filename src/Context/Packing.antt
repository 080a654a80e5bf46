-- ===== src/Context/Packing.antt =====
-- server/app/infrastructure/ml/rag/context_selection.py: every document is chosen or recorded as left
-- out, within the budget and for the reason that is given.
use rag_assistant.Prelude.{
  Bool, Bool-cases, List, [], any, ap, arith, false, if◌then◌else◌, inl, inr, leb, length, refl,
  suc, true, zero, ℕ, ◌++◌, ◌+◌, ◌∙◌, ◌∷◌, ◌≡◌, ◌≤◌, ok, select, nonempty, AppError, err,
  ok-injective, ◌==◌, value_error,
}
use rag_assistant.Context.Numbers.{Floats, bit, count, count-append, length-append}
use rag_assistant.Context.Selection.{
  Entry, Exclusion, Selection, Documents, enumerate_items, insert_ranked, sort_ranked, unseen,
  is_prior, take_best, try_entry, pack, exclude, reason_of, select_context, coverage_weight,
  candidates, pack_all,
}

guarded {ℓ} :
    {A : Type ℓ} (b : Bool) (e : AppError) (a out : A)
    → (if b then err e else ok a) ≡ ok out
    → a ≡ out
guarded true e a out h = cc
guarded false e a out h = ok-injective h

module _ {F D : Type 0} (p : D → Bool) where
  abbrev of_entry : Entry F D → Bool
  of_entry e = p e.item

abbrev of_exclusion : {D : Type 0} → (D → Bool) → Exclusion D → Bool
of_exclusion p x = p x.item

module _ {F D : Type 0} ⦃floats : Floats F⦄ (p : D → Bool) where
  count-insert_ranked :
      (e : Entry F D) (entries : List (Entry F D))
      → count (of_entry p) (insert_ranked e entries) ≡ bit (p e.item) + count (of_entry p) entries
  count-insert_ranked e [] = refl
  count-insert_ranked e (x ∷ entries) = ground (arith, count-insert_ranked e entries)

  count-sort_ranked :
      (entries : List (Entry F D))
      → count (of_entry p) (sort_ranked entries) ≡ count (of_entry p) entries
  count-sort_ranked [] = refl
  count-sort_ranked (e ∷ entries) =
      count-insert_ranked e (sort_ranked entries)
      ∙ ap (λ n. bit (p e.item) + n) (count-sort_ranked entries)

module _ {F D : Type 0} (p : D → Bool) where
  moved :
      (new : Bool) (front : List (Entry F D)) (best : Entry F D) (middle : List (Entry F D))
      (e : Entry F D)
      → let front1 = if new then front ++ best ∷ middle else front in
        let best1 = if new then e else best in
        let middle1 : List (Entry F D) = if new then [] else middle ++ e ∷ [] in
        (count (of_entry p) front1 + bit (p best1.item) + count (of_entry p) middle1
          ≡ count (of_entry p) front
            + bit (p best.item)
            + count (of_entry p) middle
            + bit (p e.item))
        × (length front1 + length middle1 ≡ suc (length front + length middle))
  moved true front best middle e = (
    omega (arith, count-append (of_entry p) front (best ∷ middle)),
    omega (arith, length-append front (best ∷ middle)),
  )
  moved false front best middle e = (
    omega (arith, count-append (of_entry p) middle (e ∷ [])),
    omega (arith, length-append middle (e ∷ [])),
  )

  count-take_best :
      (prior : Entry F D → Entry F D → Bool) (front : List (Entry F D)) (best : Entry F D)
      (middle rest : List (Entry F D))
      → let out = take_best prior front best middle rest in
        (bit (p out.0.item) + count (of_entry p) out.1
          ≡ count (of_entry p) front
            + bit (p best.item)
            + count (of_entry p) middle
            + count (of_entry p) rest)
        × (length out.1 ≡ length front + length middle + length rest)
  count-take_best prior front best middle [] = (
    omega (arith, count-append (of_entry p) front middle),
    omega (arith, length-append front middle),
  )
  count-take_best prior front best middle (e ∷ rest) =
      let new = prior e best in
      let (counts, lengths) = moved new front best middle e in
      let (counts1, lengths1) =
        count-take_best prior (if new then front ++ best ∷ middle else front)
          (if new then e else best) (if new then [] else middle ++ e ∷ []) rest in
      (omega (arith, counts, counts1), omega (arith, lengths, lengths1))

module _ {F D C S : Type 0} ⦃floats : Floats F⦄ (docs : Documents F D C S) (p : D → Bool) where
  count-enumerate_items :
      (i : ℕ) (items : List D) → count (of_entry p) (enumerate_items docs i items) ≡ count p items
  count-enumerate_items i [] = refl
  count-enumerate_items i (d ∷ items) = omega (arith, count-enumerate_items (i + 1) items)

  count-unseen :
      (seen : List D) (entries : List (Entry F D))
      → let out = unseen docs seen entries in
        count (of_entry p) out.0 + count (of_exclusion p) out.1 ≡ count (of_entry p) entries
  count-unseen seen [] = refl
  count-unseen seen (e ∷ entries) = elim (Bool-cases (any (docs.same_block e.item) seen)) [
    | inl old ↦ rw old (omega (arith, count-unseen seen entries))
    | inr new ↦ rw new (omega (arith, count-unseen (e.item ∷ seen) entries))
  ]

  -- The chosen items and the ones left out that satisfy the test.
  abbrev handled : Selection D C S → ℕ
  handled s = count p s.chosen + count (of_exclusion p) s.exclusions

  handled-try_entry :
      (budget : ℕ) (s : Selection D C S) (e : Entry F D)
      → handled (try_entry docs budget s e) ≡ handled s + bit (p e.item)
  handled-try_entry budget s e =
      elim (Bool-cases (leb (docs.count_tokens (docs.render (s.chosen ++ e.item ∷ [])).0) budget)) [
        | inl fits ↦ rw fits (omega (arith, count-append p s.chosen (e.item ∷ [])))
        | inr over ↦ rw over (
            omega (
              arith,
              count-append (of_exclusion p) s.exclusions
                  (exclude e.item (reason_of docs budget e) ∷ []),
            ))
      ]

  handled-pack :
      (parts : List (List ℕ)) (factor : F) (budget fuel : ℕ) (remaining : List (Entry F D))
      (s : Selection D C S)
      → length remaining ≤ fuel
      → handled (pack docs parts factor budget fuel remaining s)
        ≡ handled s + count (of_entry p) remaining
  unfolding pack
  handled-pack parts factor budget zero [] s enough = omega arith
  handled-pack parts factor budget zero (e ∷ remaining) s enough = absurd (omega arith)
  handled-pack parts factor budget (suc fuel) [] s enough = omega arith
  handled-pack parts factor budget (suc fuel) (e ∷ remaining) s enough =
      let prior = is_prior parts factor s in
      let (best, rest) = take_best prior [] e [] remaining in
      let (counts, shorter) = count-take_best p prior [] e [] remaining in
      omega (
        arith,
        counts,
        shorter,
        handled-try_entry budget s best,
        handled-pack parts factor budget fuel rest (try_entry docs budget s best)
            (omega (arith, shorter, enough)),
      )

  handled-pack_all :
      (items : List D) (budget : ℕ) (query_parts : List (List ℕ))
      → handled (pack_all docs items budget query_parts) ≡ count p items
  unfolding pack_all
  handled-pack_all items budget query_parts =
      let (remaining, records) = candidates docs items in
      let ranked = sort_ranked (enumerate_items docs 0 items) in
      let packed =
        handled-pack (select nonempty query_parts) (coverage_weight remaining) budget
          (length remaining) remaining _ (omega arith) in
      let counted =
        count-unseen [] ranked
        ∙ count-sort_ranked p (enumerate_items docs 0 items)
        ∙ count-enumerate_items 0 items in
      packed ∙ omega (arith, counted)

  -- A selection chooses or records as left out every document that was given, each as often as it was
  -- given.
  pub select_context-count :
      (items : List D) (budget : ℕ) (query_parts : List (List ℕ)) (out : Selection D C S)
      → select_context docs items budget query_parts ≡ ok out
      → count p out.chosen + count (of_exclusion p) out.exclusions ≡ count p items
  unfolding select_context
  select_context-count items budget query_parts out h =
      rw (← guarded (budget == 0) value_error (pack_all docs items budget query_parts) out h)
        (handled-pack_all items budget query_parts)
