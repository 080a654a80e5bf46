-- ===== src/Acts/Consistent.antt =====
-- A table of act versions in which the ids are unique and the unique index holds.
use rag_assistant.Prelude.{
  All, Bool, Bool-cases, List, Option, [], ap, arith, false, inl, inr, not, ok, ok-injective,
  option_eq, refl, select, some, subst, sym, true, ℕ, ◌&&◌, ◌||◌, ◌∙◌, ◌∷◌, ◌≡◌, ◌≤◌, All-select,
  All-weaken,
}
use rag_assistant.Acts.{ActVersion, get_version}
use rag_assistant.Acts.Cover.{count_if}
use rag_assistant.Acts.Persistence.{is_of, current_in, list_by_act, id_le}
use rag_assistant.Acts.Sorted.{All-sort, any-sort, all-sort, count_if-sort, is_flagged}
use rag_assistant.Acts.Writes.{CurrentIn, CurrentIn-weaken, ids, option_eq→≡, option_eq_refl}
use rag_assistant.Acts.Saving.{has_id, only_current}

abbrev pub IsUnique : List (Option ℕ) → Type 0
IsUnique [] = Unit
IsUnique (x ∷ xs) = All (λ y. option_eq x y ≡ false) xs × IsUnique xs

pub record IsConsistent (rows : List ActVersion) : Type 0 where
  pub unique : IsUnique (ids rows)
  pub one_current : (a : ℕ) → count_if (current_in a) rows ≤ 1

-- Rows whose current ones have one id: there is one of them at most.
count_current-none :
    (a : ℕ) (x : Option ℕ) (rows : List ActVersion)
    → CurrentIn a (λ y. option_eq x y) rows
    → All (λ y. option_eq x y ≡ false) (ids rows)
    → count_if (current_in a) rows ≡ 0
unfolding count_if
count_current-none a x [] c u = refl
count_current-none a x (r ∷ rows) c u = ground (arith, count_current-none a x rows c.1 u.1)

pub count_current-one :
    (a : ℕ) (x : Option ℕ) (rows : List ActVersion)
    → IsUnique (ids rows)
    → CurrentIn a (λ y. option_eq x y) rows
    → count_if (current_in a) rows ≤ 1
unfolding count_if
count_current-one a x [] u c = ground arith
count_current-one a x (r ∷ rows) u c = elim (Bool-cases (option_eq x r.id)) [
  | inl same ↦
      let e = option_eq→≡ x r.id same in
      let below =
        count_current-none a r.id rows (subst (λ y. CurrentIn a (λ z. option_eq y z) rows) e c.1)
          u.0 in
      ground arith
  | inr other ↦ ground (arith, count_current-one a x rows u.1 c.1)
]

-- The index, read for one current row.
pub CurrentIn-one :
    (a : ℕ) (rows : List ActVersion)
    → count_if (current_in a) rows ≡ 0
    → CurrentIn a (λ x. false) rows
unfolding count_if
CurrentIn-one a [] h = tt
CurrentIn-one a (r ∷ rows) h = (ground arith, CurrentIn-one a rows (ground arith))

pub All-get_version :
    (P : ActVersion → Type 0) (id : Option ℕ) (rows : List ActVersion) (v : ActVersion)
    → All P rows
    → get_version id rows ≡ ok v
    → P v
unfolding get_version
All-get_version P id [] v a h = absurd (ground arith)
All-get_version P id (r ∷ rows) v a h = elim (Bool-cases (option_eq r.id id)) [
  | inl hit ↦ subst P (ok-injective (rw hit at h)) a.0
  | inr miss ↦ All-get_version P id rows v a.1 (rw miss at h)
]

pub get_version-id :
    (id : Option ℕ) (rows : List ActVersion) (v : ActVersion)
    → get_version id rows ≡ ok v
    → v.id ≡ id
unfolding get_version
get_version-id id [] v h = absurd (ground arith)
get_version-id id (r ∷ rows) v h = elim (Bool-cases (option_eq r.id id)) [
  | inl hit ↦ ap (λ w. w.id) (sym (ok-injective (rw hit at h))) ∙ option_eq→≡ r.id id hit
  | inr miss ↦ get_version-id id rows v (rw miss at h)
]

no_current_id :
    (b : ℕ) (id : Option ℕ) (rows : List ActVersion)
    → All (λ y. option_eq id y ≡ false) (ids rows)
    → CurrentIn b (λ x. not (option_eq x id)) rows
no_current_id b id [] u = tt
no_current_id b id (r ∷ rows) u =
    let apart : option_eq r.id id ≡ false = ground arith in
    (ground arith, no_current_id b id rows u.1)

-- A row that is found is the only one of its id, so that no other act has the id.
pub get_version-elsewhere :
    (b : ℕ) (id : Option ℕ) (rows : List ActVersion) (v : ActVersion)
    → IsUnique (ids rows)
    → get_version id rows ≡ ok v
    → option_eq v.act_id (some b) ≡ false
    → CurrentIn b (λ x. not (option_eq x id)) rows
unfolding get_version
get_version-elsewhere b id [] v u h o = tt
get_version-elsewhere b id (r ∷ rows) v u h o = elim (Bool-cases (option_eq r.id id)) [
  | inr miss ↦ (ground arith, get_version-elsewhere b id rows v u.1 (rw miss at h) o)
  | inl hit ↦
      let e : r ≡ v = ok-injective (rw hit at h) in
      let own : option_eq r.act_id (some b) ≡ false = rw e o in
      let below =
        subst (λ y. All (λ z. option_eq y z ≡ false) (ids rows)) (option_eq→≡ r.id id hit) u.0 in
      (ground arith, no_current_id b id rows below)
]

-- A row that is current is counted, and is the only one.
abbrev IsOnly : ℕ → List ActVersion → ActVersion → Type 0
IsOnly a rows r =
    current_in a r ≡ true
    → (1 ≤ count_if (current_in a) rows) × CurrentIn a (λ x. option_eq x r.id) rows

pub one_current-IsOnly :
    (a : ℕ) (rows : List ActVersion) → count_if (current_in a) rows ≤ 1 → All (IsOnly a rows) rows
unfolding count_if
one_current-IsOnly a [] h = tt
one_current-IsOnly a (r ∷ rows) h = (
  λ now. (
    ground arith,
    (
      rw (option_eq_refl r.id) (ground arith),
      CurrentIn-weaken a (λ x. false) (λ x. option_eq x r.id) rows (λ x e. absurd (ground arith))
          (CurrentIn-one a rows (ground arith)),
    ),
  ),
  All-weaken (IsOnly a rows) (IsOnly a (r ∷ rows)) rows
      (λ r' only now. let (some_now, rest) = only now in (ground arith, (ground arith, rest)))
      (one_current-IsOnly a rows (ground arith)),
)

CurrentIn-apart :
    (a : ℕ) (k : Option ℕ → Bool) (x : Option ℕ) (rows : List ActVersion)
    → All (λ y. option_eq x y ≡ false) (ids rows)
    → CurrentIn a k rows
    → CurrentIn a (λ y. k y && not (option_eq x y)) rows
CurrentIn-apart a k x [] u c = tt
CurrentIn-apart a k x (r ∷ rows) u c = (ground arith, CurrentIn-apart a k x rows u.1 c.1)

only_current-apart :
    (a : ℕ) (x : Option ℕ) (rows : List ActVersion)
    → All (λ y. option_eq x y ≡ false) (ids rows)
    → only_current (select (is_of a) rows) x ≡ true
only_current-apart a x [] u = refl
only_current-apart a x (r ∷ rows) u =
    let apart : option_eq r.id x ≡ false = ground arith in
    ground (arith, only_current-apart a x rows u.1)

selected-CurrentIn :
    (a : ℕ) (rows : List ActVersion)
    → IsUnique (ids rows)
    → CurrentIn a
        (λ x. has_id (select (is_of a) rows) x && only_current (select (is_of a) rows) x)
        rows
selected-CurrentIn a [] u = tt
selected-CurrentIn a (r ∷ rows) u =
    let own = only_current-apart a r.id rows u.0 in
    let below = selected-CurrentIn a rows u.1 in
    let here =
      λ (l : List ActVersion). CurrentIn a (λ x. has_id l x && only_current l x) (r ∷ rows) in
    let l = select (is_of a) rows in
    elim (Bool-cases (is_of a r)) [
      | inr other ↦
          let e : select (is_of a) (r ∷ rows) ≡ l = rw other refl in
          subst here (sym e) (ground arith, below)
      | inl belongs ↦
          let e : select (is_of a) (r ∷ rows) ≡ r ∷ l = rw belongs refl in
          subst here (sym e) (
            ground (arith, option_eq_refl r.id),
            CurrentIn-weaken a (λ y. (has_id l y && only_current l y) && not (option_eq r.id y))
                (λ y. has_id (r ∷ l) y && only_current (r ∷ l) y) rows (λ y e. ground arith)
                (CurrentIn-apart a (λ y. has_id l y && only_current l y) r.id rows u.0 below),
          )
    ]

-- The timeline of an act lists its current rows, as they are.
pub list_by_act-CurrentIn :
    (a : ℕ) (rows : List ActVersion)
    → IsUnique (ids rows)
    → CurrentIn a (λ x. has_id (list_by_act a rows) x && only_current (list_by_act a rows) x) rows
unfolding list_by_act
list_by_act-CurrentIn a rows u =
    CurrentIn-weaken a
      (λ x. has_id (select (is_of a) rows) x && only_current (select (is_of a) rows) x)
      (λ x. has_id (list_by_act a rows) x && only_current (list_by_act a rows) x) rows
      (λ x e.
        rw
          (
            any-sort id_le (λ v. option_eq v.id x) (select (is_of a) rows),
            all-sort id_le (λ p. not (option_eq p.id x) || p.is_current) (select (is_of a) rows),
          )
          e)
      (selected-CurrentIn a rows u)

count_flagged-select :
    (a : ℕ) (rows : List ActVersion)
    → count_if is_flagged (select (is_of a) rows) ≡ count_if (current_in a) rows
unfolding count_if
count_flagged-select a [] = refl
count_flagged-select a (r ∷ rows) = ground (arith, count_flagged-select a rows)

pub list_by_act-count :
    (a : ℕ) (rows : List ActVersion)
    → count_if is_flagged (list_by_act a rows) ≡ count_if (current_in a) rows
unfolding list_by_act
list_by_act-count a rows =
    count_if-sort id_le is_flagged (select (is_of a) rows) ∙ count_flagged-select a rows

select-is_of :
    (a : ℕ) (rows : List ActVersion) → All (λ v. v.act_id ≡ some a) (select (is_of a) rows)
select-is_of a [] = tt
select-is_of a (r ∷ rows) = elim (Bool-cases (is_of a r)) [
  | inl here ↦ rw here (option_eq→≡ r.act_id (some a) here, select-is_of a rows)
  | inr other ↦ rw other (select-is_of a rows)
]

-- What holds of the rows holds of a timeline, and its versions are of its act.
pub All-list_by_act :
    (P : ActVersion → Type 0) (a : ℕ) (rows : List ActVersion)
    → All P rows
    → All P (list_by_act a rows)
unfolding list_by_act
All-list_by_act P a rows h =
    All-sort id_le P (select (is_of a) rows) (All-select P (is_of a) rows h)

pub list_by_act-is_of :
    (a : ℕ) (rows : List ActVersion) → All (λ v. v.act_id ≡ some a) (list_by_act a rows)
unfolding list_by_act
list_by_act-is_of a rows =
    All-sort id_le (λ v. v.act_id ≡ some a) (select (is_of a) rows) (select-is_of a rows)
