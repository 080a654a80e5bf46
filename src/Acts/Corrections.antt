-- ===== src/Acts/Corrections.antt =====
-- What the corrections of a timeline keep, and that they raise errors of their own only.
use rag_assistant.Prelude.{
  All, Bool-cases, List, Option, Safely, [], any, arith, false, inl, inr, none, ok, option_eq, refl,
  some, ℕ, ◌∙◌, ◌∷◌, ◌≡◌, ◌≤◌, Safely-bind,
}
use rag_assistant.Acts.{
  ActVersion, Ends, validate_dates, get_version, key_le, next_start, lookup_end,
}
use rag_assistant.Acts.Sort.{sort}
use rag_assistant.Acts.Cover.{count_if}
use rag_assistant.Acts.Rebuild.{
  rebuild_version, rebuild_versions, mark_last_eligible, is_eligible, rebuild,
}
use rag_assistant.Acts.Rebuild.Disjoint.{cut, cut_checked, more}
use rag_assistant.Acts.Sorted.{is_flagged, any-sort, All-sort}
use rag_assistant.Acts.Saving.{has_id}

abbrev Always : {A : Type 0} → A → Type 0
Always a = Unit

pub lookup_end-Safely : (ends : Ends) (id : Option ℕ) → Safely (λ e. Unit {0}) (lookup_end ends id)
unfolding lookup_end
lookup_end-Safely [] id = refl
lookup_end-Safely ((k, e) ∷ ends) id = elim (Bool-cases (option_eq k id)) [
  | inl hit ↦ rw hit tt
  | inr miss ↦ rw miss (lookup_end-Safely ends id)
]

pub validate_dates-Safely :
    (end : Option ℕ) (v : ActVersion) → Safely (λ u. Unit {0}) (validate_dates end v)
unfolding validate_dates
validate_dates-Safely end v = ground arith

pub get_version-Safely :
    (id : Option ℕ) (vs : List ActVersion) → Safely (λ u. Unit {0}) (get_version id vs)
unfolding get_version
get_version-Safely id [] = refl
get_version-Safely id (v ∷ vs) = elim (Bool-cases (option_eq v.id id)) [
  | inl hit ↦ rw hit tt
  | inr miss ↦ rw miss (get_version-Safely id vs)
]

-- The ids and the act of a version are kept.
pub record IsKept (v v' : ActVersion) : Type 0 where
  pub id : v'.id ≡ v.id
  pub act_id : v'.act_id ≡ v.act_id
  pub not_current : v'.is_current ≡ false

rebuild_version-Safely :
    (ends : Ends) (boundary : Option ℕ) (v : ActVersion)
    → Safely (λ v'. IsKept v v') (rebuild_version ends boundary v)
unfolding rebuild_version
rebuild_version-Safely ends boundary v =
    Safely-bind (λ e. Unit {0}) (λ v'. IsKept v v') (lookup_end ends v.id) (cut_checked boundary v)
      (lookup_end-Safely ends v.id)
      (λ e u.
        Safely-bind (λ x. Unit {0}) (λ v'. IsKept v v') (validate_dates none (cut boundary v e))
          (λ x. ok (cut boundary v e)) (validate_dates-Safely none (cut boundary v e))
          (λ x y. record { id = refl; act_id = refl; not_current = refl }))

-- The versions that a rebuild returns: those that it was given, with at most one current.
pub record IsRebuilt (n : ℕ) (versions r : List ActVersion) : Type 0 where
  pub has : (x : Option ℕ) → has_id r x ≡ has_id versions x
  pub acts : (a : ℕ) → All (λ v. v.act_id ≡ some a) versions → All (λ v. v.act_id ≡ some a) r
  pub current : count_if is_flagged r ≤ n

IsRebuilt-cons :
    (v v' : ActVersion) (vs vs' : List ActVersion)
    → IsKept v v'
    → IsRebuilt 0 vs vs'
    → IsRebuilt 0 (v ∷ vs) (v' ∷ vs')
unfolding count_if
IsRebuilt-cons v v' vs vs' k r = record {
  has = λ x. rw (k.id, r.has x) refl;
  acts = λ a o. (k.act_id ∙ o.0, r.acts a o.1);
  current = ground (arith, k.not_current, r.current);
}

rebuild_versions-Safely :
    (ends : Ends) (vs : List ActVersion) → Safely (λ r. IsRebuilt 0 vs r) (rebuild_versions ends vs)
unfolding rebuild_versions count_if
rebuild_versions-Safely ends [] = record {
  has = λ x. refl;
  acts = λ a o. tt;
  current = ground arith;
}
rebuild_versions-Safely ends (v ∷ vs) =
    Safely-bind (λ v'. IsKept v v') (λ r. IsRebuilt 0 (v ∷ vs) r)
      (rebuild_version ends (next_start vs) v) (more ends vs)
      (rebuild_version-Safely ends (next_start vs) v)
      (λ v' k.
        Safely-bind (λ r. IsRebuilt 0 vs r) (λ r. IsRebuilt 0 (v ∷ vs) r) (rebuild_versions ends vs)
          (λ vs'. ok (v' ∷ vs')) (rebuild_versions-Safely ends vs)
          (λ vs' r. IsRebuilt-cons v v' vs vs' k r))

mark_last_eligible-has :
    (today : ℕ) (vs : List ActVersion) (x : Option ℕ)
    → has_id (mark_last_eligible today vs) x ≡ has_id vs x
unfolding mark_last_eligible
mark_last_eligible-has today [] x = refl
mark_last_eligible-has today (v ∷ vs) x = ground (arith, mark_last_eligible-has today vs x)

mark_last_eligible-acts :
    (today a : ℕ) (vs : List ActVersion)
    → All (λ v. v.act_id ≡ some a) vs
    → All (λ v. v.act_id ≡ some a) (mark_last_eligible today vs)
unfolding mark_last_eligible
mark_last_eligible-acts today a [] o = tt
mark_last_eligible-acts today a (v ∷ vs) o =
    let below = mark_last_eligible-acts today a vs o.1 in
    elim (Bool-cases (any (is_eligible today) vs)) [
      | inl later ↦ rw later (o.0, below)
      | inr none_later ↦ elim (Bool-cases (is_eligible today v)) [
        | inl now ↦ rw (none_later, now) (o.0, o.1)
        | inr never ↦ rw (none_later, never) (o.0, o.1)
      ]
    ]

mark_last_eligible-current :
    (today : ℕ) (vs : List ActVersion)
    → count_if is_flagged vs ≤ 0
    → count_if is_flagged (mark_last_eligible today vs) ≤ 1
unfolding mark_last_eligible count_if
mark_last_eligible-current today [] h = ground arith
mark_last_eligible-current today (v ∷ vs) h = ground (arith, mark_last_eligible-current today vs)

pub rebuild-Safely :
    (versions : List ActVersion) (ends : Ends) (today : ℕ)
    → Safely (λ r. IsRebuilt 1 versions r) (rebuild versions ends today)
unfolding rebuild
rebuild-Safely versions ends today =
    Safely-bind (λ r. IsRebuilt 0 (sort key_le versions) r) (λ r. IsRebuilt 1 versions r)
      (rebuild_versions ends (sort key_le versions)) (λ o. ok (mark_last_eligible today o))
      (rebuild_versions-Safely ends (sort key_le versions))
      (λ o r. record {
        has = λ x.
            mark_last_eligible-has today o x
            ∙ r.has x
            ∙ any-sort key_le (λ v. option_eq v.id x) versions;
        acts = λ a h.
            mark_last_eligible-acts today a o
              (r.acts a (All-sort key_le (λ v. v.act_id ≡ some a) versions h));
        current = mark_last_eligible-current today o r.current;
      })
