-- ===== src/Acts/Updating.antt =====
-- `update_version` does not meet the unique index within a day, and keeps the table consistent.
use rag_assistant.Prelude.{
  Bool, Bool-cases, List, Option, Safely, Safely-bind, Safely-weaken, Safely-found, [], arith,
  false, inl, inr, map, none, not, ok, option_eq, refl, some, subst, sym, true, ℕ, ◌&&◌, ◌>>=◌,
  ◌||◌, ◌∙◌, ◌∷◌, ◌≡◌, ◌≤◌,
}
use rag_assistant.Acts.{ActVersion, validate_dates}
use rag_assistant.Acts.Cover.{count_if}
use rag_assistant.Acts.Commands.{
  VersionUpdateOptions, Corrected, correct_version, next_item, edit_item, relink_if, relink_version,
  verify, save_remaining, write_all, update_loaded, update_version,
}
use rag_assistant.Acts.Persistence.{ActStore, write_version, list_by_act, save_changes, load}
use rag_assistant.Acts.Sorted.{is_flagged}
use rag_assistant.Acts.Writes.{
  CurrentIn, CurrentIn-weaken, CurrentIn-demote, IsFramed, option_eq_refl,
}
use rag_assistant.Acts.Saving.{has_id, only_current, IsSaved, save_changes-Safely}
use rag_assistant.Acts.Corrections.{validate_dates-Safely}
use rag_assistant.Acts.Edits.{
  IsTimeline, IsCorrected, kept, rebuilt, joined, left, correct_version-Safely,
}
use rag_assistant.Acts.Consistent.{IsConsistent, list_by_act-CurrentIn, list_by_act-is_of}
use rag_assistant.Acts.Loading.{
  IsLoaded, load-Safely, OneIn, OneIn-count, OneIn-flagged, IsConsistent-framed,
}
use rag_assistant.Acts.Relinking.{option_eq_sym, HasRoom, IsWritten, save_edited-Safely, IsRelinked}
use rag_assistant.Acts.Joining.{relink_version-Safely}
use rag_assistant.Acts.Items.{next_item-IsEdit, next_item-Safely, All-next_item}

-- The store after a whole command.
abbrev Keeps : ActStore → Type 0
Keeps s = IsConsistent s.versions

IsSaved-IsConsistent :
    (a : ℕ) (vs : List ActVersion) (s s' : ActStore)
    → IsConsistent s.versions
    → count_if is_flagged vs ≤ 1
    → IsSaved a vs s.versions s'.versions
    → Keeps s'
IsSaved-IsConsistent a vs s s' k one saved =
    IsConsistent-framed (some a) s.versions s'.versions k saved.framed (λ b e.
      subst (λ n. OneIn n s'.versions) (ground arith)
        (OneIn-flagged a vs s'.versions one saved.current))

-- The timeline of an act, corrected.
rebuilt-Safely :
    (a id now : ℕ) (o : VersionUpdateOptions) (tl r : List ActVersion) (s : ActStore)
    (w : ActVersion)
    → IsConsistent s.versions
    → tl ≡ list_by_act a s.versions
    → IsTimeline a (has_id tl) r
    → next_item id r ≡ ok w
    → Safely Keeps (write_all id o now tl (r, none) (s, w))
rebuilt-Safely a id now o tl r s w k e t found =
    let edit = next_item-IsEdit id r w (verify o now w) found refl refl refl in
    let versions = edit_item id (verify o now w) r in
    let few : count_if is_flagged versions ≤ 1 = rw edit.current t.current in
    Safely-bind (λ u. Unit {0}) Keeps (validate_dates o.effective_to w)
      (λ done. save_changes tl versions (some id) s >>= save_remaining tl none)
      (validate_dates-Safely o.effective_to w)
      (λ done u.
        Safely-bind (λ s'. IsSaved a versions s.versions s'.versions) Keeps
          (save_changes tl versions (some id) s) (save_remaining tl none)
          (save_changes-Safely a tl versions (some id) s (edit.acts a t.acts) few (
            CurrentIn-weaken a (λ x. has_id tl x && only_current tl x)
              (λ x. has_id versions x && only_current tl x) s.versions
              (λ x h. rw (edit.has x, t.has x) h)
              (rw e (list_by_act-CurrentIn a s.versions k.unique))))
          (λ s' saved. IsSaved-IsConsistent a versions s s' k few saved))

-- One version, and then what remains of a timeline.
single-Safely :
    (id now : ℕ) (o : VersionUpdateOptions) (tl : List ActVersion) (rest : Option (List ActVersion))
    (s : ActStore) (e e' : ActVersion)
    → e.id ≡ some id
    → e'.id ≡ some id
    → IsConsistent s.versions
    → HasRoom e' s.versions
    → ((s' : ActStore)
        → IsWritten (verify o now e') s.versions s'.versions
        → Safely Keeps (save_remaining tl rest s'))
    → Safely Keeps (write_all id o now tl (e ∷ [], rest) (s, e'))
single-Safely id now o tl rest s e e' own own' k room after =
    let hit : option_eq e.id (some id) ≡ true = ground arith in
    let v = verify o now e' in
    Safely-bind (λ u. Unit {0}) Keeps (validate_dates o.effective_to e')
      (λ done. save_changes tl (edit_item id v (e ∷ [])) (some id) s >>= save_remaining tl rest)
      (validate_dates-Safely o.effective_to e')
      (λ done u.
        Safely-bind (λ s'. IsWritten v s.versions s'.versions) Keeps
          (save_changes tl (edit_item id v (e ∷ [])) (some id) s) (save_remaining tl rest)
          (rw hit (
            save_edited-Safely tl id v s own' k
              (record { one = λ a h. room.one a h; own = λ a h now. room.own a h now })))
          after)

left_or_same :
    (x id : Option ℕ) (has only : Bool)
    → (has && only) ≡ true
    → ((has && not (option_eq x id)) && only || option_eq id x) ≡ true
left_or_same x id has only h = elim (Bool-cases (option_eq x id)) [
  | inl same ↦ let back = option_eq_sym x id same in ground arith
  | inr apart ↦ ground arith
]

-- What remains of the timeline that a version has left, after it was written elsewhere.
remaining-Safely :
    (a : ℕ) (id : Option ℕ) (tl r : List ActVersion) (v : ActVersion) (rows : List ActVersion)
    (s s' : ActStore)
    → IsConsistent rows
    → tl ≡ list_by_act a rows
    → IsTimeline a (λ x. has_id tl x && not (option_eq x id)) r
    → v.id ≡ id
    → option_eq v.act_id (some a) ≡ false
    → IsFramed v.act_id rows s.versions
    → IsWritten v s.versions s'.versions
    → Safely Keeps (save_remaining tl (some r) s')
remaining-Safely a id tl r v rows s s' k e t own away f w =
    let listed = λ (x : Option ℕ). has_id tl x && only_current tl x in
    let before : CurrentIn a listed rows = rw e (list_by_act-CurrentIn a rows k.unique) in
    let joined = f.keeps a listed away before in
    let here = λ (x : Option ℕ). has_id r x && only_current tl x in
    let written : CurrentIn a here (map (write_version v) s.versions) =
      CurrentIn-demote a here v s.versions (ground arith) (
        CurrentIn-weaken a listed (λ x. here x || option_eq v.id x) s.versions
          (λ x h. rw (t.has x, own) (left_or_same x id (has_id tl x) (only_current tl x) h))
          joined) in
    Safely-weaken (λ s''. IsSaved a r s'.versions s''.versions) Keeps (save_changes tl r none s')
      (λ s'' saved. IsSaved-IsConsistent a r s' s'' w.consistent t.current saved)
      (save_changes-Safely a tl r none s' t.acts t.current
        (subst (CurrentIn a here) (sym w.rows_written) written))

-- A version that moves to another act, or to none: it is relinked, and then written.
moved-Safely :
    (id now today : ℕ) (o : VersionUpdateOptions) (tl : List ActVersion)
    (rest : Option (List ActVersion)) (s : ActStore) (old e : ActVersion)
    → IsConsistent s.versions
    → IsLoaded id s.versions old tl
    → e.id ≡ old.id
    → option_eq old.act_id e.act_id ≡ false
    → ((e' : ActVersion) (s' s'' : ActStore)
        → IsRelinked e s.versions e' s'.versions
        → IsWritten (verify o now e') s'.versions s''.versions
        → Safely Keeps (save_remaining tl rest s''))
    → Safely Keeps (relink_version e today today s >>= write_all id o now tl (e ∷ [], rest))
moved-Safely id now today o tl rest s old e k l i moved after =
    Safely-bind (λ (p : ActStore × ActVersion). IsRelinked e s.versions p.1 p.0.versions) Keeps
      (relink_version e today today s) (write_all id o now tl (e ∷ [], rest))
      (relink_version-Safely e today s k (λ b h.
        subst (λ y. CurrentIn b (λ x. not (option_eq x y)) s.versions) (sym i)
          (l.elsewhere b (subst (λ y. option_eq old.act_id y ≡ false) h moved))))
      (λ (s', e') rel.
        single-Safely id now o tl rest s' e e' (i ∙ l.same_id) (rel.same_id ∙ i ∙ l.same_id)
          rel.consistent rel.room (λ s'' w. after e' s' s'' rel w))

corrected-Safely :
    (id now today : ℕ) (o : VersionUpdateOptions) (s : ActStore) (old : ActVersion)
    (tl : List ActVersion) (c : Corrected)
    → IsConsistent s.versions
    → IsLoaded id s.versions old tl
    → IsCorrected old tl c
    → Safely Keeps (
        next_item id c.0 >>= λ v.
        relink_if (not (option_eq old.act_id v.act_id)) v today today s >>= write_all id o now tl c)
corrected-Safely id now today o s old tl c k l (kept e i h f) =
    let hit : option_eq e.id (some id) ≡ true = rw (i, l.same_id) (option_eq_refl (some id)) in
    let same : option_eq old.act_id e.act_id ≡ true = rw h (option_eq_refl old.act_id) in
    rw (hit, same)
      (single-Safely id now o tl none s e e (i ∙ l.same_id) (i ∙ l.same_id) k
        (record {
          one = λ a there. OneIn-count a s.versions (k.one_current a);
          own = λ a there now.
              subst (λ y. CurrentIn a (λ x. option_eq x y) s.versions) (sym i)
                (l.only a (sym h ∙ there) (sym f ∙ now));
        })
        (λ s' w. w.consistent))
corrected-Safely id now today o s old tl c k l (rebuilt a r h t) =
    elim (Safely-found (λ u. Unit {0}) (next_item id r) (next_item-Safely id r)) [
      | inr (e, failed, fine) ↦ rw failed fine
      | inl (w, found, u) ↦
          let act = All-next_item (λ v. v.act_id ≡ some a) id r w t.acts found in
          let same : option_eq old.act_id w.act_id ≡ true = rw (h, act) (option_eq_refl (some a)) in
          rw (found, same) (rebuilt-Safely a id now o tl r s w k (l.timeline a h) t found)
    ]
corrected-Safely id now today o s old tl c k l (joined e i h moved) =
    let hit : option_eq e.id (some id) ≡ true = rw (i, l.same_id) (option_eq_refl (some id)) in
    rw (hit, moved)
      (moved-Safely id now today o tl none s old e k l i moved (λ e' s' s'' rel w. w.consistent))
corrected-Safely id now today o s old tl c k l (left a e r i h moved t) =
    let hit : option_eq e.id (some id) ≡ true = rw (i, l.same_id) (option_eq_refl (some id)) in
    rw (hit, moved)
      (moved-Safely id now today o tl (some r) s old e k l i moved (λ e' s' s'' rel w.
        remaining-Safely a old.id tl r (verify o now e') s.versions s' s'' k (l.timeline a h) t
          (rel.same_id ∙ i) (rw rel.same_act (ground arith))
          (subst (λ y. IsFramed y s.versions s'.versions) (sym rel.same_act) rel.framed) w))

one_day-Safely :
    (id now today day : ℕ) (o : VersionUpdateOptions) (s : ActStore)
    → IsConsistent s.versions
    → Safely Keeps (update_version id o now today day day s)
unfolding update_version
one_day-Safely id now today day o s k =
    Safely-bind (λ (l : ActVersion × List ActVersion). IsLoaded id s.versions l.0 l.1) Keeps
      (load id s.versions) (update_loaded id o now today day day s) (load-Safely id s.versions k)
      (λ (old, tl) l.
        Safely-bind (λ c. IsCorrected old tl c) Keeps (correct_version old tl o today)
          (λ c. next_item id c.0 >>= λ v.
            relink_if (not (option_eq old.act_id v.act_id)) v day day s >>= write_all id o now tl c)
          (correct_version-Safely old tl o today
            (λ a h. rw (l.timeline a h) (list_by_act-is_of a s.versions)))
          (λ c corrected. corrected-Safely id now day o s old tl c k l corrected))

-- Whatever is corrected, moved or unlinked, `update_version` does not meet the unique index on the
-- current versions of an act, if the table is consistent before, and if the two readings of the day
-- in `relink_version`, for the boundary and for the flag, are of the same day; and if it ends without
-- another error, the ids are still unique and every act has one current version at most.
pub update_version-Safely :
    (id now today day flagged : ℕ) (o : VersionUpdateOptions) (s : ActStore)
    → IsConsistent s.versions
    → day ≡ flagged
    → Safely (λ s'. IsConsistent s'.versions) (update_version id o now today day flagged s)
update_version-Safely id now today day flagged o s k same_day =
    subst (λ later. Safely Keeps (update_version id o now today day later s)) same_day
      (one_day-Safely id now today day o s k)
