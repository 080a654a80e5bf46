-- ===== src/Acts/Saving.antt =====
-- `save_changes` never meets the unique index, if its versions cover the current rows of their act
-- and at most one of them is current.
use rag_assistant.Prelude.{
  All, Bool, Bool-cases, List, Option, Result-cases, Safely, Safely-bind, [], all, any, ap, arith,
  false, inl, inr, length, map, none, not, option_eq, refl, select, some, subst, sym, true, ℕ, ◌&&◌,
  ◌++◌, ◌>>=◌, ◌||◌, ◌∙◌, ◌∷◌, ◌≡◌, ◌≤◌, ◌⊎◌, Safely-weaken, All-select,
}
use rag_assistant.Acts.{ActVersion}
use rag_assistant.Acts.Cover.{count_if}
use rag_assistant.Acts.Changes.{changed_versions, is_changed, find_last}
use rag_assistant.Acts.Persistence.{ActStore, write_version, save, save_all, save_changes}
use rag_assistant.Acts.Sorted.{is_noncurrent, is_flagged, sort-current, select-swap}
use rag_assistant.Acts.Writes.{
  CurrentIn, CurrentIn-weaken, CurrentIn-write, CurrentIn-demote, IsFramed, IsFramed-refl,
  IsFramed-trans, CanSave, save-Safely, option_eq→≡, option_eq_refl,
}

abbrev pub has_id : List ActVersion → Option ℕ → Bool
has_id vs x = any (λ v. option_eq v.id x) vs

-- Every version of the id is current.
abbrev pub only_current : List ActVersion → Option ℕ → Bool
only_current vs x = all (λ p. not (option_eq p.id x) || p.is_current) vs

-- What is left current in the act, and that nothing else has changed.
pub record IsSaved (a : ℕ) (versions rows rows' : List ActVersion) : Type 0 where
  pub current : CurrentIn a (has_id (select is_flagged versions)) rows'
  pub framed : IsFramed (some a) rows rows'

save_all-append :
    (vs ws : List ActVersion) (s : ActStore)
    → save_all (vs ++ ws) s ≡ (save_all vs s >>= λ s'. save_all ws s')
unfolding save_all
save_all-append [] ws s = refl
save_all-append (v ∷ vs) ws s = elim (Result-cases (save v s)) [
  | inl (s', e) ↦ rw e (save_all-append vs ws s')
  | inr (r, e) ↦ rw e refl
]

-- Demotions take the ids of their versions off, one after the other.
demotions-Safely :
    (a : ℕ) (k : Option ℕ → Bool) (ds : List ActVersion) (s : ActStore)
    → All (λ v. v.act_id ≡ some a) ds
    → All (λ v. v.is_current ≡ false) ds
    → CurrentIn a (λ x. k x || has_id ds x) s.versions
    → Safely
        (λ s'. CurrentIn a k s'.versions × IsFramed (some a) s.versions s'.versions)
        (save_all ds s)
unfolding save_all
demotions-Safely a k [] s o n c = (
  CurrentIn-weaken a (λ x. k x || false) k s.versions (λ x h. ground arith) c,
  IsFramed-refl (some a) s.versions,
)
demotions-Safely a k (d ∷ ds) s o n c =
    Safely-bind
      (λ s'.
        (s'.versions ≡ map (write_version d) s.versions) × IsFramed d.act_id s.versions s'.versions)
      (λ s'. CurrentIn a k s'.versions × IsFramed (some a) s.versions s'.versions) (save d s)
      (save_all ds) (save-Safely d s (λ e h now. absurd (ground arith)))
      (λ s' (e, f).
        Safely-weaken
          (λ s''. CurrentIn a k s''.versions × IsFramed (some a) s'.versions s''.versions)
          (λ s''. CurrentIn a k s''.versions × IsFramed (some a) s.versions s''.versions)
          (save_all ds s')
          (λ s'' (l, g). (
            l,
            IsFramed-trans (some a) s.versions s'.versions s''.versions
                (subst (λ o. IsFramed o s.versions s'.versions) o.0 f) g,
          ))
          (demotions-Safely a k ds s' o.1 n.1 (
            subst (CurrentIn a (λ x. k x || has_id ds x)) (sym e) (
              CurrentIn-demote a (λ x. k x || has_id ds x) d s.versions (ground arith)
                (CurrentIn-weaken a (λ x. k x || has_id (d ∷ ds) x)
                  (λ x. k x || has_id ds x || option_eq d.id x) s.versions (λ x h. ground arith)
                  c)))))

promotion-CanSave :
    (a : ℕ) (u : ActVersion) (rows : List ActVersion)
    → u.act_id ≡ some a
    → CurrentIn a (has_id (u ∷ [])) rows
    → CanSave u rows
promotion-CanSave a u rows own c b there now =
    let same : a ≡ b = ground arith in
    subst (λ e. CurrentIn e (λ x. option_eq x u.id) rows) same
      (CurrentIn-weaken a (has_id (u ∷ [])) (λ x. option_eq x u.id) rows
        (λ x h. rw (option_eq→≡ u.id x (ground arith)) (option_eq_refl x)) c)

-- The one version that becomes or stays current, if it is written at all.
promotion-Safely :
    (a : ℕ) (q : ActVersion → Bool) (us : List ActVersion) (s : ActStore)
    → length us ≤ 1
    → All (λ v. v.act_id ≡ some a) us
    → CurrentIn a (has_id us) s.versions
    → Safely
        (λ s'. CurrentIn a (has_id us) s'.versions × IsFramed (some a) s.versions s'.versions)
        (save_all (select q us) s)
unfolding save_all
promotion-Safely a q [] s one o c = (c, IsFramed-refl (some a) s.versions)
promotion-Safely a q (u ∷ v ∷ us) s one o c = absurd (ground arith)
promotion-Safely a q (u ∷ []) s one o c = elim (Bool-cases (q u)) [
  | inr kept ↦ rw kept (c, IsFramed-refl (some a) s.versions)
  | inl written ↦ rw written (
      Safely-bind
        (λ s'.
          (s'.versions ≡ map (write_version u) s.versions)
          × IsFramed u.act_id s.versions s'.versions)
        (λ s'. CurrentIn a (has_id (u ∷ [])) s'.versions × IsFramed (some a) s.versions s'.versions)
        (save u s) (save_all []) (save-Safely u s (promotion-CanSave a u s.versions o.0 c))
        (λ s' (e, f). (
          subst (CurrentIn a (has_id (u ∷ []))) (sym e) (
              CurrentIn-write a (has_id (u ∷ [])) u s.versions
                (rw (option_eq_refl u.id) (ground arith)) c),
          subst (λ o. IsFramed o s.versions s'.versions) o.0 f,
        )))
]

find_last-current :
    (x : Option ℕ) (tl : List ActVersion)
    → only_current tl x ≡ true
    → (find_last x tl ≡ none)
      ⊎ ((w : ActVersion) × (find_last x tl ≡ some w) × (w.is_current ≡ true))
find_last-current x [] h = inl refl
find_last-current x (p ∷ ps) h = elim (find_last-current x ps (ground arith)) [
  | inr (w, e, now) ↦ rw e (inr (w, refl, now))
  | inl e ↦ rw e (elim (Bool-cases (option_eq p.id x)) [
    | inl hit ↦ rw hit (inr (p, refl, ground arith))
    | inr miss ↦ rw miss (inl refl)
  ])
]

-- A version that is not current is written where the timeline has the id as current.
demoted-is_changed :
    (tl : List ActVersion) (edited : Option ℕ) (v : ActVersion)
    → only_current tl v.id ≡ true
    → v.is_current ≡ false
    → is_changed tl edited v ≡ true
demoted-is_changed tl edited v h n = elim (find_last-current v.id tl h) [
  | inl e ↦ rw e (ground arith)
  | inr (w, e, now) ↦ rw e (ground arith)
]

has_id-changed :
    (tl : List ActVersion) (edited : Option ℕ) (vs : List ActVersion) (x : Option ℕ)
    → (has_id vs x && only_current tl x) ≡ true
    → (has_id (select is_flagged vs) x
        || has_id (select is_noncurrent (select (is_changed tl edited) vs)) x)
      ≡ true
has_id-changed tl edited [] x h = absurd (ground arith)
has_id-changed tl edited (v ∷ vs) x h = elim (Bool-cases (option_eq v.id x)) [
  | inl hit ↦ elim (Bool-cases v.is_current) [
    | inl now ↦ rw (now, hit) refl
    | inr past ↦
        let only : only_current tl v.id ≡ true =
          subst (λ y. only_current tl y ≡ true) (sym (option_eq→≡ v.id x hit)) (ground arith) in
        rw (demoted-is_changed tl edited v only past, past, hit) (ground arith)
  ]
  | inr miss ↦
      let below = has_id-changed tl edited vs x (ground arith) in
      elim (Bool-cases v.is_current) [
        | inl now ↦ elim (Bool-cases (is_changed tl edited v)) [
          | inl written ↦ rw (written, now, miss) below
          | inr kept ↦ rw (kept, now, miss) below
        ]
        | inr past ↦ elim (Bool-cases (is_changed tl edited v)) [
          | inl written ↦ rw (written, past, miss) below
          | inr kept ↦ rw (kept, past) below
        ]
      ]
]

select-noncurrent :
    (vs : List ActVersion) → All (λ v. v.is_current ≡ false) (select is_noncurrent vs)
select-noncurrent [] = tt
select-noncurrent (v ∷ vs) = elim (Bool-cases v.is_current) [
  | inl now ↦ rw now (select-noncurrent vs)
  | inr past ↦ rw past (refl, select-noncurrent vs)
]

pub length-select : (vs : List ActVersion) → length (select is_flagged vs) ≡ count_if is_flagged vs
unfolding count_if
length-select [] = refl
length-select (v ∷ vs) = ground (arith, length-select vs)

-- The versions of an act can be saved, if its current rows are among them, were current in the
-- timeline, and at most one of the versions is current; then no other row of the act is.
pub save_changes-Safely :
    (a : ℕ) (timeline versions : List ActVersion) (edited : Option ℕ) (s : ActStore)
    → All (λ v. v.act_id ≡ some a) versions
    → count_if is_flagged versions ≤ 1
    → CurrentIn a (λ x. has_id versions x && only_current timeline x) s.versions
    → Safely
        (λ s'. IsSaved a versions s.versions s'.versions)
        (save_changes timeline versions edited s)
unfolding save_changes changed_versions
save_changes-Safely a timeline versions edited s o one c =
    let q = is_changed timeline edited in
    let us = select is_flagged versions in
    let ds = select is_noncurrent (select q versions) in
    let done = λ (s' : ActStore). IsSaved a versions s.versions s'.versions in
    let order : changed_versions timeline versions edited ≡ ds ++ select q us =
      sort-current (select q versions) ∙ ap (λ w. ds ++ w) (select-swap is_flagged q versions) in
    let both : save_all (changed_versions timeline versions edited) s
        ≡ (save_all ds s >>= λ s'. save_all (select q us) s') =
      ap (λ w. save_all w s) order ∙ save_all-append ds (select q us) s in
    subst (Safely done) (sym both) (
      Safely-bind
        (λ s'. CurrentIn a (has_id us) s'.versions × IsFramed (some a) s.versions s'.versions) done
        (save_all ds s) (λ s'. save_all (select q us) s')
        (demotions-Safely a (has_id us) ds s
          (All-select (λ v. v.act_id ≡ some a) is_noncurrent (select q versions)
            (All-select (λ v. v.act_id ≡ some a) q versions o))
          (select-noncurrent (select q versions))
          (CurrentIn-weaken a (λ x. has_id versions x && only_current timeline x)
            (λ x. has_id us x || has_id ds x) s.versions (has_id-changed timeline edited versions)
            c))
        (λ s' (l, f).
          Safely-weaken
            (λ s''.
              CurrentIn a (has_id us) s''.versions × IsFramed (some a) s'.versions s''.versions)
            done (save_all (select q us) s')
            (λ s'' (l', g). record {
              current = l';
              framed = IsFramed-trans (some a) s.versions s'.versions s''.versions f g;
            })
            (promotion-Safely a q us s' (rw (length-select versions) one)
              (All-select (λ v. v.act_id ≡ some a) is_flagged versions o) l)))
