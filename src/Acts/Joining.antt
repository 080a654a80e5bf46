-- ===== src/Acts/Joining.antt =====
-- `relink_version` does not meet the unique index within a day.
use rag_assistant.Prelude.{
  Bool-cases, List, Option, [], all, any, arith, false, inl, inr, none, not, ok, option_eq, refl,
  select, some, sym, ℕ, ◌&&◌, ◌==◌, ◌>>=◌, ◌∷◌, ◌≡◌, ◌≤◌, Safely, Safely-bind, subst, All-select,
}
use rag_assistant.Acts.{ActVersion, get_version, insert_boundary}
use rag_assistant.Acts.Cover.{count_if}
use rag_assistant.Acts.Rebuild.{correct, replace_version}
use rag_assistant.Acts.Commands.{
  versions_besides, relink_to, relink_version, join_timeline, in_one_scope, find_document,
}
use rag_assistant.Acts.Persistence.{ActStore, list_by_act, save_changes}
use rag_assistant.Acts.Sorted.{is_flagged}
use rag_assistant.Acts.Writes.{CurrentIn, CurrentIn-weaken, IsFramed, IsFramed-refl}
use rag_assistant.Acts.Saving.{has_id, only_current, IsSaved, save_changes-Safely}
use rag_assistant.Acts.Corrections.{get_version-Safely, IsRebuilt}
use rag_assistant.Acts.Edits.{correct-IsRebuilt, has_id-versions_besides}
use rag_assistant.Acts.Consistent.{
  IsConsistent, list_by_act-CurrentIn, list_by_act-is_of, list_by_act-count,
}
use rag_assistant.Acts.Loading.{OneIn, OneIn-flagged, IsConsistent-framed}
use rag_assistant.Acts.Relinking.{
  IsRelinked, insert_boundary-IsClosed, CurrentIn-both, only_current-besides, count_flagged-besides,
}

relink_none-Safely :
    (v : ActVersion) (today : ℕ) (s : ActStore)
    → v.act_id ≡ none
    → IsConsistent s.versions
    → Safely (λ p. IsRelinked v s.versions p.1 p.0.versions) (relink_to none v today today s)
relink_none-Safely v today s h k =
    let done = λ (p : ActStore × ActVersion). IsRelinked v s.versions p.1 p.0.versions in
    Safely-bind (λ w. Unit {0}) done
      (correct (v ∷ []) v false today >>= (λ versions. get_version v.id versions))
      (λ w. ok (s, record v { is_current = w.is_current }))
      (Safely-bind (λ r. IsRebuilt 1 (replace_version v (v ∷ [])) r) (λ w. Unit {0})
        (correct (v ∷ []) v false today) (λ versions. get_version v.id versions)
        (correct-IsRebuilt (v ∷ []) v false today) (λ r b. get_version-Safely v.id r))
      (λ w u. record {
        same_id = refl;
        same_act = refl;
        framed = IsFramed-refl v.act_id s.versions;
        consistent = k;
        room = record {
          one = λ a e. absurd (ground arith);
          own = λ a e now. absurd (ground arith);
        };
      })

none_flagged :
    (vs : List ActVersion) (x : Option ℕ)
    → count_if is_flagged vs ≡ 0
    → has_id (select is_flagged vs) x ≡ false
unfolding count_if
none_flagged [] x h = refl
none_flagged (v ∷ vs) x h = ground (arith, none_flagged vs x)

-- The act's other versions, as they are listed, cover its current rows.
besides-CurrentIn :
    (b : ℕ) (id : Option ℕ) (rows : List ActVersion)
    → IsConsistent rows
    → CurrentIn b (λ x. not (option_eq x id)) rows
    → CurrentIn b
        (λ x.
          has_id (versions_besides id (list_by_act b rows)) x
          && only_current (versions_besides id (list_by_act b rows)) x)
        rows
besides-CurrentIn b id rows k other =
    let tl = list_by_act b rows in
    CurrentIn-weaken b (λ x. (has_id tl x && only_current tl x) && not (option_eq x id))
      (λ x. has_id (versions_besides id tl) x && only_current (versions_besides id tl) x) rows
      (λ x e. ground (arith, has_id-versions_besides id tl x, only_current-besides id tl x))
      (CurrentIn-both b (λ x. has_id tl x && only_current tl x) (λ x. not (option_eq x id)) rows
        (list_by_act-CurrentIn b rows k.unique) other)

join-Safely :
    (b : ℕ) (v : ActVersion) (today : ℕ) (s : ActStore)
    → v.act_id ≡ some b
    → IsConsistent s.versions
    → CurrentIn b (λ x. not (option_eq x v.id)) s.versions
    → let previous = versions_besides v.id (list_by_act b s.versions) in
      Safely
        (λ (p : ActStore × ActVersion). IsRelinked v s.versions p.1 p.0.versions)
        (save_changes previous (insert_boundary previous v.effective_from today) none s >>= λ s'.
          ok (s', join_timeline previous today v))
join-Safely b v today s h k other =
    let done = λ (p : ActStore × ActVersion). IsRelinked v s.versions p.1 p.0.versions in
    let tl = list_by_act b s.versions in
    let previous = versions_besides v.id tl in
    let closed = insert_boundary previous v.effective_from today in
    let c = insert_boundary-IsClosed b v.effective_from today previous (
      All-select (λ w. w.act_id ≡ some b) (λ w. not (option_eq w.id v.id)) tl
        (list_by_act-is_of b s.versions)) in
    let few : count_if is_flagged closed ≤ 1 =
      let listed = list_by_act-count b s.versions in
      let one = k.one_current b in
      let fewer = count_flagged-besides v.id tl in let current = c.current in omega arith in
    Safely-bind (λ s'. IsSaved b closed s.versions s'.versions) done
      (save_changes previous closed none s) (λ s'. ok (s', join_timeline previous today v))
      (save_changes-Safely b previous closed none s c.acts few (
        CurrentIn-weaken b (λ x. has_id previous x && only_current previous x)
          (λ x. has_id closed x && only_current previous x) s.versions (λ x e. rw (c.has x) e)
          (besides-CurrentIn b v.id s.versions k other)))
      (λ s' saved.
        let framed = subst (λ o. IsFramed o s.versions s'.versions) (sym h) saved.framed in
        let one = λ (a : ℕ) (e : v.act_id ≡ some a).
          subst (λ n. OneIn n s'.versions) (ground arith)
            (OneIn-flagged b closed s'.versions few saved.current) in
        record {
          same_id = refl;
          same_act = refl;
          framed = framed;
          consistent = IsConsistent-framed v.act_id s.versions s'.versions k framed one;
          room = record {
            one = one;
            own = λ a e now.
                subst (λ n. CurrentIn n (λ x. option_eq x v.id) s'.versions) (ground arith)
                  (CurrentIn-weaken b (has_id (select is_flagged closed)) (λ x. option_eq x v.id)
                    s'.versions
                    (λ x hit.
                      absurd (let none = none_flagged closed x (c.replaced now) in ground arith))
                    saved.current);
          };
        })

relink_to-Safely :
    (act : Option ℕ) (v : ActVersion) (today : ℕ) (s : ActStore)
    → v.act_id ≡ act
    → IsConsistent s.versions
    → ((b : ℕ) → v.act_id ≡ some b → CurrentIn b (λ x. not (option_eq x v.id)) s.versions)
    → Safely (λ p. IsRelinked v s.versions p.1 p.0.versions) (relink_to act v today today s)
relink_to-Safely none v today s h k other = relink_none-Safely v today s h k
relink_to-Safely (some b) v today s h k other =
    let previous = versions_besides v.id (list_by_act b s.versions) in
    let document = find_document v.document_id s.documents in
    elim (Bool-cases (any (λ a. a == b) s.acts)) [
      | inr unknown ↦ rw unknown refl
      | inl known ↦
          elim (Bool-cases
            (all (λ w. in_one_scope document (find_document w.document_id s.documents)) previous)) [
              | inr apart ↦ rw (known, apart) refl
              | inl together ↦ rw (known, together) (join-Safely b v today s h k (other b h))
            ]
    ]

-- A version that was not of the act before joins it without breaking the index, and can be written,
-- if the day does not change meanwhile.
pub relink_version-Safely :
    (v : ActVersion) (today : ℕ) (s : ActStore)
    → IsConsistent s.versions
    → ((b : ℕ) → v.act_id ≡ some b → CurrentIn b (λ x. not (option_eq x v.id)) s.versions)
    → Safely (λ p. IsRelinked v s.versions p.1 p.0.versions) (relink_version v today today s)
unfolding relink_version
relink_version-Safely v today s k other = relink_to-Safely v.act_id v today s refl k other
