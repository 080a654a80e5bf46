-- ===== src/Context/Fitting.antt =====
-- server/app/infrastructure/ml/rag/context_selection.py: the prompt keeps to the budget, and a document is
-- left out for want of room only if it would not fit.
use rag_assistant.Prelude.{
  All, Bool-cases, List, [], any, arith, false, inl, inr, leb, leb→le, length, ltb, ltb→lt,
  nonempty, ok, refl, select, suc, sym, true, zero, ℕ, ◌++◌, ◌<◌, ◌==◌, ◌∷◌, ◌≡◌, ◌≤◌, ◌⊎◌, ◌∙◌,
  All-weaken, All-append, append_nil, append_assoc, ap,
}
use rag_assistant.Context.Numbers.{Floats}
use rag_assistant.Context.Selection.{
  ExclusionReason, duplicate, over_budget, oversized_block, Entry, Exclusion, Selection, Documents,
  enumerate_items, sort_ranked, unseen, is_prior, take_best, try_entry, reason_of, pack,
  select_context, coverage_weight, exclude, candidates, pack_all,
}

module _ {F D C S : Type 0} (docs : Documents F D C S) (budget : ℕ) where
  abbrev tokens_of : List D → ℕ
  tokens_of items = docs.count_tokens (docs.render items).0

  -- Either nothing was chosen and the prompt is empty, or the prompt is what the chosen documents
  -- render to and is within the budget.
  abbrev pub IsFitting : Selection D C S → Type 0
  IsFitting s =
      ((s.chosen ≡ []) × (s.context ≡ docs.empty) × (s.selected ≡ []))
      ⊎ ((docs.render s.chosen ≡ (s.context, s.selected)) × (docs.count_tokens s.context ≤ budget))

  -- A document that is larger than the budget by itself, or one that fits by itself, but not behind
  -- the documents that had been chosen before it.
  abbrev JustifiedBy : ExclusionReason → List D → D → Type 0
  JustifiedBy duplicate chosen item = Unit
  JustifiedBy oversized_block chosen item = budget < tokens_of (item ∷ [])
  JustifiedBy over_budget chosen item =
      (tokens_of (item ∷ []) ≤ budget)
      × (before : List D) × (after : List D) × (before ++ after ≡ chosen)
      × (nonempty before ≡ true)
      × (budget < tokens_of (before ++ item ∷ []))

  abbrev pub IsJustified : List D → Exclusion D → Type 0
  IsJustified chosen x = JustifiedBy x.reason chosen x.item

  abbrev IsSound : Selection D C S → Type 0
  IsSound s = IsFitting s × All (IsJustified s.chosen) s.exclusions

  -- What is chosen later does not matter.
  JustifiedBy-append :
      (reason : ExclusionReason) (chosen more : List D) (item : D)
      → JustifiedBy reason chosen item
      → JustifiedBy reason (chosen ++ more) item
  JustifiedBy-append duplicate chosen more item h = h
  JustifiedBy-append oversized_block chosen more item h = h
  JustifiedBy-append over_budget chosen more item (alone, before, after, split, some_before, over) =
      (
        alone,
        before,
        after ++ more,
        sym (append_assoc before after more) ∙ ap (λ l. l ++ more) split,
        some_before,
        over,
      )

  left_out_of :
      (chosen : List D) (item : D)
      → ltb budget (tokens_of (item ∷ [])) ≡ false
      → leb (tokens_of (chosen ++ item ∷ [])) budget ≡ false
      → nonempty chosen ≡ true
  left_out_of [] item small over = absurd (ground arith)
  left_out_of (c ∷ chosen) item small over = refl

  left_out :
      (s : Selection D C S) (e : Entry F D)
      → leb (tokens_of (s.chosen ++ e.item ∷ [])) budget ≡ false
      → IsJustified s.chosen (exclude e.item (reason_of docs budget e))
  left_out s e over = elim (Bool-cases (ltb budget (tokens_of (e.item ∷ [])))) [
    | inl large ↦ rw large (ltb→lt budget _ large)
    | inr small ↦ rw small (
      ground arith,
      s.chosen,
      [],
      append_nil s.chosen,
      left_out_of s.chosen e.item small over,
      ground arith,
    )
  ]

  try_entry-IsSound :
      (s : Selection D C S) (e : Entry F D) → IsSound s → IsSound (try_entry docs budget s e)
  try_entry-IsSound s e (fitting, justified) =
      elim (Bool-cases (leb (tokens_of (s.chosen ++ e.item ∷ [])) budget)) [
        | inl fits ↦ rw fits (
          inr (refl, leb→le _ budget fits),
          All-weaken (IsJustified s.chosen) (IsJustified (s.chosen ++ e.item ∷ [])) s.exclusions
              (λ (x : Exclusion D) old.
                JustifiedBy-append x.reason s.chosen (e.item ∷ []) x.item old)
              justified,
        )
        | inr over ↦ rw over (
          fitting,
          All-append (IsJustified s.chosen) s.exclusions
              (exclude e.item (reason_of docs budget e) ∷ []) justified (left_out s e over, tt),
        )
      ]

module _ {F D C S : Type 0} ⦃floats : Floats F⦄ (docs : Documents F D C S) (budget : ℕ) where
  pack-IsSound :
      (parts : List (List ℕ)) (factor : F) (fuel : ℕ) (remaining : List (Entry F D))
      (s : Selection D C S)
      → IsSound docs budget s
      → IsSound docs budget (pack docs parts factor budget fuel remaining s)
  unfolding pack
  pack-IsSound parts factor zero remaining s sound = sound
  pack-IsSound parts factor (suc fuel) [] s sound = sound
  pack-IsSound parts factor (suc fuel) (e ∷ remaining) s sound =
      let (best, rest) = take_best (is_prior parts factor s) [] e [] remaining in
      pack-IsSound parts factor fuel rest (try_entry docs budget s best)
        (try_entry-IsSound docs budget s best sound)

  unseen-IsJustified :
      (seen : List D) (entries : List (Entry F D))
      → All (IsJustified docs budget []) (unseen docs seen entries).1
  unseen-IsJustified seen [] = tt
  unseen-IsJustified seen (e ∷ entries) = elim (Bool-cases (any (docs.same_block e.item) seen)) [
    | inl old ↦ rw old (tt, unseen-IsJustified seen entries)
    | inr new ↦ rw new (unseen-IsJustified (e.item ∷ seen) entries)
  ]

  pack_all-IsSound :
      (items : List D) (query_parts : List (List ℕ))
      → IsSound docs budget (pack_all docs items budget query_parts)
  unfolding pack_all
  pack_all-IsSound items query_parts =
      let (remaining, records) = candidates docs items in
      pack-IsSound (select nonempty query_parts) (coverage_weight remaining) (length remaining)
        remaining _
        (inl (refl, refl, refl), unseen-IsJustified [] (sort_ranked (enumerate_items docs 0 items)))

  -- With a positive budget there is always a selection. Its prompt is empty, or it is what the chosen
  -- documents render to and within the budget; and a document is recorded as too large only if it is
  -- larger than the budget alone, as left out for the budget only if it fits alone, but is over the
  -- budget with the first documents of the chosen ones, one at least, in front of it.
  pub select_context-IsFitting :
      (items : List D) (query_parts : List (List ℕ))
      → 0 < budget
      → (out : Selection D C S) × (select_context docs items budget query_parts ≡ ok out)
        × IsFitting docs budget out
        × All (IsJustified docs budget out.chosen) out.exclusions
  unfolding select_context
  select_context-IsFitting items query_parts positive =
      let nonzero : (budget == 0) ≡ false = ground arith in
      let out = pack_all docs items budget query_parts in
      let sound = pack_all-IsSound items query_parts in (out, rw nonzero refl, sound.0, sound.1)
