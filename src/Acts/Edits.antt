-- ===== src/Acts/Edits.antt =====
-- What `correct_version` returns: the versions to write, and the timeline that has been left.
use rag_assistant.Prelude.{
  All, Bool, Bool-cases, List, Option, Option-cases, Safely, [], ap, arith, false, inl, inr,
  is_none, none, not, ok, option_eq, refl, some, subst, sym, true, ℕ, ◌&&◌, ◌>>=◌, ◌||◌, ◌∙◌, ◌∷◌,
  ◌≡◌, ◌≤◌, Safely-bind, Safely-weaken, All-select,
}
use rag_assistant.Acts.{ActVersion, Ends, get_version, lookup_end, explicit_ends}
use rag_assistant.Acts.Cover.{count_if}
use rag_assistant.Acts.Rebuild.{rebuild, remove, replace_version, correct, check_end, edited_ends}
use rag_assistant.Acts.Commands.{
  VersionUpdateOptions, Corrected, apply_options, end_given, dates_changed, restore_end, leave,
  versions_besides, remove_from_timeline, correct_version,
}
use rag_assistant.Acts.Sorted.{is_flagged}
use rag_assistant.Acts.Writes.{option_eq→≡}
use rag_assistant.Acts.Saving.{has_id}
use rag_assistant.Acts.Corrections.{
  IsRebuilt, rebuild-Safely, validate_dates-Safely, get_version-Safely, lookup_end-Safely,
}

-- Versions of the act, whose ids are those that pass the test, and of which at most one is current.
pub record IsTimeline (a : ℕ) (k : Option ℕ → Bool) (r : List ActVersion) : Type 0 where
  pub has : (x : Option ℕ) → has_id r x ≡ k x
  pub acts : All (λ v. v.act_id ≡ some a) r
  pub current : count_if is_flagged r ≤ 1

rebuild-IsTimeline :
    (a : ℕ) (k : Option ℕ → Bool) (versions : List ActVersion) (ends : Ends) (today : ℕ)
    → ((x : Option ℕ) → has_id versions x ≡ k x)
    → All (λ v. v.act_id ≡ some a) versions
    → Safely (λ r. IsTimeline a k r) (rebuild versions ends today)
rebuild-IsTimeline a k versions ends today h o =
    Safely-weaken (λ r. IsRebuilt 1 versions r) (λ r. IsTimeline a k r)
      (rebuild versions ends today)
      (λ r b. record { has = λ x. b.has x ∙ h x; acts = b.acts a o; current = b.current })
      (rebuild-Safely versions ends today)

has_id-replace_version :
    (e : ActVersion) (vs : List ActVersion) (x : Option ℕ)
    → has_id (replace_version e vs) x ≡ has_id vs x
unfolding replace_version
has_id-replace_version e [] x = refl
has_id-replace_version e (v ∷ vs) x = elim (Bool-cases (option_eq v.id e.id)) [
  | inl own ↦
      rw (own, option_eq→≡ v.id e.id own)
        (ap (λ b. option_eq e.id x || b) (has_id-replace_version e vs x))
  | inr other ↦ rw other (ap (λ b. option_eq v.id x || b) (has_id-replace_version e vs x))
]

replace_version-acts :
    (a : ℕ) (e : ActVersion) (vs : List ActVersion)
    → e.act_id ≡ some a
    → All (λ v. v.act_id ≡ some a) vs
    → All (λ v. v.act_id ≡ some a) (replace_version e vs)
unfolding replace_version
replace_version-acts a e [] h o = tt
replace_version-acts a e (v ∷ vs) h o = elim (Bool-cases (option_eq v.id e.id)) [
  | inl own ↦ rw own (h, replace_version-acts a e vs h o.1)
  | inr other ↦ rw other (o.0, replace_version-acts a e vs h o.1)
]

check_end-Safely : (b : Bool) (e : ActVersion) → Safely (λ u. Unit {0}) (check_end b e)
check_end-Safely true e = validate_dates-Safely e.effective_to e
check_end-Safely false e = tt

pub correct-IsRebuilt :
    (tl : List ActVersion) (e : ActVersion) (end_provided : Bool) (today : ℕ)
    → Safely (λ r. IsRebuilt 1 (replace_version e tl) r) (correct tl e end_provided today)
unfolding correct
correct-IsRebuilt tl e end_provided today =
    let versions = replace_version e tl in
    let ends = edited_ends end_provided e (explicit_ends tl) in
    Safely-bind (λ u. Unit {0}) (λ r. IsRebuilt 1 versions r) (get_version e.id tl)
      (λ found. check_end end_provided e >>= λ done. rebuild versions ends today)
      (get_version-Safely e.id tl)
      (λ found u.
        Safely-bind (λ x. Unit {0}) (λ r. IsRebuilt 1 versions r) (check_end end_provided e)
          (λ done. rebuild versions ends today) (check_end-Safely end_provided e)
          (λ done x. rebuild-Safely versions ends today))

-- A timeline in which one version of the act is corrected keeps its ids.
correct-Safely :
    (a : ℕ) (tl : List ActVersion) (e : ActVersion) (end_provided : Bool) (today : ℕ)
    → e.act_id ≡ some a
    → All (λ v. v.act_id ≡ some a) tl
    → Safely (λ r. IsTimeline a (has_id tl) r) (correct tl e end_provided today)
correct-Safely a tl e end_provided today h o =
    Safely-weaken (λ r. IsRebuilt 1 (replace_version e tl) r) (λ r. IsTimeline a (has_id tl) r)
      (correct tl e end_provided today)
      (λ r b. record {
        has = λ x. b.has x ∙ has_id-replace_version e tl x;
        acts = b.acts a (replace_version-acts a e tl h o);
        current = b.current;
      })
      (correct-IsRebuilt tl e end_provided today)

pub has_id-versions_besides :
    (id : Option ℕ) (tl : List ActVersion) (x : Option ℕ)
    → has_id (versions_besides id tl) x ≡ (has_id tl x && not (option_eq x id))
has_id-versions_besides id [] x = refl
has_id-versions_besides id (v ∷ vs) x = elim (Bool-cases (option_eq v.id x)) [
  | inr miss ↦ elim (Bool-cases (option_eq v.id id)) [
    | inl own ↦ rw (own, miss) (has_id-versions_besides id vs x)
    | inr other ↦ rw (other, miss) (has_id-versions_besides id vs x)
  ]
  | inl hit ↦ elim (Bool-cases (option_eq v.id id)) [
    | inl own ↦
        let same : option_eq x id ≡ true =
          subst (λ y. option_eq y id ≡ true) (option_eq→≡ v.id x hit) own in
        rw own (has_id-versions_besides id vs x ∙ ground (arith, has_id-versions_besides id vs x))
    | inr other ↦
        let apart : option_eq x id ≡ false =
          subst (λ y. option_eq y id ≡ false) (option_eq→≡ v.id x hit) other in
        rw (other, hit, apart) refl
  ]
]

-- What a version was before, and what is to be written for it.
pub data IsCorrected (v : ActVersion) (tl : List ActVersion) : Corrected → Type 0 where
  kept :
      (e : ActVersion)
      → e.id ≡ v.id
      → e.act_id ≡ v.act_id
      → e.is_current ≡ v.is_current
      → IsCorrected v tl (e ∷ [], none)
  rebuilt :
      (a : ℕ) (r : List ActVersion)
      → v.act_id ≡ some a
      → IsTimeline a (has_id tl) r
      → IsCorrected v tl (r, none)
  joined :
      (e : ActVersion)
      → e.id ≡ v.id
      → v.act_id ≡ none
      → option_eq v.act_id e.act_id ≡ false
      → IsCorrected v tl (e ∷ [], none)
  left :
      (a : ℕ) (e : ActVersion) (r : List ActVersion)
      → e.id ≡ v.id
      → v.act_id ≡ some a
      → option_eq v.act_id e.act_id ≡ false
      → IsTimeline a (λ x. has_id tl x && not (option_eq x v.id)) r
      → IsCorrected v tl (e ∷ [], some r)

remove-Safely :
    (a id : ℕ) (tl : List ActVersion) (today : ℕ)
    → All (λ v. v.act_id ≡ some a) tl
    → Safely
        (λ r. IsTimeline a (λ x. has_id tl x && not (option_eq x (some id))) r)
        (remove tl id today)
unfolding remove
remove-Safely a id tl today o =
    let k = λ (x : Option ℕ). has_id tl x && not (option_eq x (some id)) in
    let rest = versions_besides (some id) tl in
    Safely-bind (λ u. Unit {0}) (λ r. IsTimeline a k r) (get_version (some id) tl)
      (λ found. rebuild rest (explicit_ends tl) today) (get_version-Safely (some id) tl)
      (λ found u.
        rebuild-IsTimeline a k rest (explicit_ends tl) today (has_id-versions_besides (some id) tl)
          (All-select (λ v. v.act_id ≡ some a) (λ v. not (option_eq v.id (some id))) tl o))

restore_end-Safely :
    (b : Bool) (tl : List ActVersion) (e : ActVersion)
    → Safely (λ e'. (e'.id ≡ e.id) × (e'.act_id ≡ e.act_id)) (restore_end b tl e)
restore_end-Safely true tl e = (refl, refl)
restore_end-Safely false tl e =
    Safely-bind (λ u. Unit {0}) (λ e'. (e'.id ≡ e.id) × (e'.act_id ≡ e.act_id))
      (lookup_end (explicit_ends tl) e.id) (λ end. ok (record e { effective_to = end }))
      (lookup_end-Safely (explicit_ends tl) e.id) (λ end u. (refl, refl))

leave-Safely :
    (old id : Option ℕ) (v e : ActVersion) (tl : List ActVersion) (b : Bool) (today : ℕ)
    → v.act_id ≡ old
    → e.id ≡ id
    → e.id ≡ v.id
    → option_eq v.act_id e.act_id ≡ false
    → ((a : ℕ) → v.act_id ≡ some a → All (λ w. w.act_id ≡ some a) tl)
    → Safely (λ c. IsCorrected v tl c) (leave old id tl e b today)
leave-Safely none id v e tl b today h i same moved o = joined e same h moved
leave-Safely (some a) none v e tl b today h i same moved o = refl
leave-Safely (some a) (some id) v e tl b today h i same moved o =
    let k = λ (x : Option ℕ). has_id tl x && not (option_eq x (some id)) in
    Safely-bind (λ r. IsTimeline a k r) (λ c. IsCorrected v tl c) (remove tl id today)
      (λ r. restore_end b tl e >>= λ e'. ok (e' ∷ [], some r)) (remove-Safely a id tl today (o a h))
      (λ r t.
        Safely-bind (λ e'. (e'.id ≡ e.id) × (e'.act_id ≡ e.act_id)) (λ c. IsCorrected v tl c)
          (restore_end b tl e) (λ e'. ok (e' ∷ [], some r)) (restore_end-Safely b tl e)
          (λ e' (f, g). left a e' r (f ∙ same) h (rw g moved) (
            subst (λ y. IsTimeline a (λ x. has_id tl x && not (option_eq x y)) r) (sym i ∙ same)
              t)))

-- The correction of a version that was loaded with the timeline of its act.
pub correct_version-Safely :
    (v : ActVersion) (tl : List ActVersion) (o : VersionUpdateOptions) (today : ℕ)
    → ((a : ℕ) → v.act_id ≡ some a → All (λ w. w.act_id ≡ some a) tl)
    → Safely (λ c. IsCorrected v tl c) (correct_version v tl o today)
unfolding correct_version remove_from_timeline
correct_version-Safely v tl o today own =
    let e = apply_options o v in
    elim (Bool-cases (option_eq v.act_id e.act_id)) [
      | inr moved ↦
          rw moved (leave-Safely v.act_id e.id v e tl (end_given o) today refl refl refl moved own)
      | inl same ↦
          let act = option_eq→≡ v.act_id e.act_id same in
          elim (Bool-cases (not (is_none e.act_id) && dates_changed o)) [
            | inr settled ↦ rw (same, settled) (kept e refl (sym act) refl)
            | inl dated ↦ elim (Option-cases e.act_id) [
              | inl nothing ↦ absurd (ground arith)
              | inr (a, there) ↦
                  rw (same, dated)
                    (Safely-bind (λ r. IsTimeline a (has_id tl) r) (λ c. IsCorrected v tl c)
                      (correct tl e (end_given o) today) (λ versions. ok (versions, none))
                      (correct-Safely a tl e (end_given o) today there (own a (act ∙ there)))
                      (λ r t. rebuilt a r (act ∙ there) t))
            ]
          ]
    ]
