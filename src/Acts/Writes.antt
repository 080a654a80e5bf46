-- ===== src/Acts/Writes.antt =====
-- What writing versions does to the table: which rows are current, and their ids.
use rag_assistant.Prelude.{
  ==_iff, All, Bool, Bool-cases, List, Option, Option-cases, Safely, [], any, ap, arith, false, inl,
  inr, map, none, not, option_eq, refl, some, true, ℕ, ◌&&◌, ◌||◌, ◌∙◌, ◌∷◌, ◌≡◌, ◌≤◌,
}
use rag_assistant.Acts.{ActVersion}
use rag_assistant.Acts.Cover.{count_if}
use rag_assistant.Acts.Persistence.{
  save_as, ActStore, write_version, current_in, breaks_index, update, save,
}

-- Every current row of the act has an id that passes the test.
abbrev pub CurrentIn : ℕ → (Option ℕ → Bool) → List ActVersion → Type 0
CurrentIn a k = All (λ r. (not (current_in a r) || k r.id) ≡ true)

abbrev pub ids : List ActVersion → List (Option ℕ)
ids = map (λ r. r.id)

pub option_eq_refl : (a : Option ℕ) → option_eq a a ≡ true
option_eq_refl none = refl
option_eq_refl (some a) = ground arith

pub option_eq→≡ : (a b : Option ℕ) → option_eq a b ≡ true → a ≡ b
option_eq→≡ none none h = refl
option_eq→≡ none (some b) h = absurd (ground arith)
option_eq→≡ (some a) none h = absurd (ground arith)
option_eq→≡ (some a) (some b) h = ap some ((==_iff a b).0 h)

pub CurrentIn-weaken :
    (a : ℕ) (k k' : Option ℕ → Bool) (rows : List ActVersion)
    → ((x : Option ℕ) → k x ≡ true → k' x ≡ true)
    → CurrentIn a k rows
    → CurrentIn a k' rows
CurrentIn-weaken a k k' [] w h = tt
CurrentIn-weaken a k k' (r ∷ rows) w h =
    (ground (arith, w r.id), CurrentIn-weaken a k k' rows w h.1)

-- A write keeps such a test if what it writes passes it.
pub CurrentIn-write :
    (a : ℕ) (k : Option ℕ → Bool) (v : ActVersion) (rows : List ActVersion)
    → (not (current_in a v) || k v.id) ≡ true
    → CurrentIn a k rows
    → CurrentIn a k (map (write_version v) rows)
CurrentIn-write a k v [] h c = tt
CurrentIn-write a k v (r ∷ rows) h c =
    let below = CurrentIn-write a k v rows h c.1 in
    elim (Bool-cases (option_eq r.id v.id)) [
      | inl same ↦ let e = ap k (option_eq→≡ r.id v.id same) in rw same (ground arith, below)
      | inr other ↦ rw other (c.0, below)
    ]

-- A write that is not current in the act takes its id off.
pub CurrentIn-demote :
    (a : ℕ) (k : Option ℕ → Bool) (v : ActVersion) (rows : List ActVersion)
    → current_in a v ≡ false
    → CurrentIn a (λ x. k x || option_eq v.id x) rows
    → CurrentIn a k (map (write_version v) rows)
CurrentIn-demote a k v [] h c = tt
CurrentIn-demote a k v (r ∷ rows) h c =
    let below = CurrentIn-demote a k v rows h c.1 in
    elim (Bool-cases (option_eq r.id v.id)) [
      | inl same ↦ rw same (ground arith, below)
      | inr other ↦
          let apart : option_eq v.id r.id ≡ false = ground arith in rw other (ground arith, below)
    ]

ids-write : (v : ActVersion) (rows : List ActVersion) → ids (map (write_version v) rows) ≡ ids rows
ids-write v [] = refl
ids-write v (r ∷ rows) = elim (Bool-cases (option_eq r.id v.id)) [
  | inl same ↦ rw same (ap (λ xs. r.id ∷ xs) (ids-write v rows))
  | inr other ↦ rw other (ap (λ xs. r.id ∷ xs) (ids-write v rows))
]

count_if-write :
    (e : ℕ) (v : ActVersion) (rows : List ActVersion)
    → option_eq v.act_id (some e) ≡ false
    → count_if (current_in e) (map (write_version v) rows) ≤ count_if (current_in e) rows
unfolding count_if
count_if-write e v [] h = ground arith
count_if-write e v (r ∷ rows) h = ground (arith, count_if-write e v rows h)

-- The writes were all to versions of one act, or of none.
pub record IsFramed (a : Option ℕ) (rows rows' : List ActVersion) : Type 0 where
  pub same_ids : ids rows' ≡ ids rows
  pub keeps :
      (e : ℕ) (k : Option ℕ → Bool)
      → option_eq a (some e) ≡ false
      → CurrentIn e k rows
      → CurrentIn e k rows'
  pub counts :
      (e : ℕ)
      → option_eq a (some e) ≡ false
      → count_if (current_in e) rows' ≤ count_if (current_in e) rows

pub IsFramed-refl : (a : Option ℕ) (rows : List ActVersion) → IsFramed a rows rows
IsFramed-refl a rows = record {
  same_ids = refl;
  keeps = λ e k x c. c;
  counts = λ e x. ground arith;
}

pub IsFramed-trans :
    (a : Option ℕ) (rows rows' rows'' : List ActVersion)
    → IsFramed a rows rows'
    → IsFramed a rows' rows''
    → IsFramed a rows rows''
IsFramed-trans a rows rows' rows'' f g = record {
  same_ids = g.same_ids ∙ f.same_ids;
  keeps = λ e k x c. g.keeps e k x (f.keeps e k x c);
  counts = λ e x. ground (arith, f.counts e x, g.counts e x);
}

IsFramed-write :
    (v : ActVersion) (rows : List ActVersion) → IsFramed v.act_id rows (map (write_version v) rows)
IsFramed-write v rows = record {
  same_ids = ids-write v rows;
  keeps = λ e k x c. CurrentIn-write e k v rows (ground arith) c;
  counts = λ e x. count_if-write e v rows x;
}

no_other_current :
    (a : ℕ) (v : ActVersion) (rows : List ActVersion)
    → CurrentIn a (λ x. option_eq x v.id) rows
    → any (λ r. current_in a r && not (option_eq r.id v.id)) rows ≡ false
no_other_current a v [] c = refl
no_other_current a v (r ∷ rows) c = ground (arith, no_other_current a v rows c.1)

-- Nothing else is current in the act of the version, if the version is.
abbrev pub CanSave : ActVersion → List ActVersion → Type 0
CanSave v rows =
    (a : ℕ) → v.act_id ≡ some a → v.is_current ≡ true → CurrentIn a (λ x. option_eq x v.id) rows

breaks_index-CanSave :
    (v : ActVersion) (rows : List ActVersion) → CanSave v rows → breaks_index v rows ≡ false
breaks_index-CanSave v rows can = elim (Option-cases v.act_id) [
  | inl nothing ↦ rw nothing (ground arith)
  | inr (a, there) ↦ elim (Bool-cases v.is_current) [
    | inl now ↦ rw (there, no_other_current a v rows (can a there now)) (ground arith)
    | inr past ↦ rw past (ground arith)
  ]
]

save_as-Safely :
    (id : Option ℕ) (v : ActVersion) (s : ActStore)
    → breaks_index v s.versions ≡ false
    → Safely
        (λ s'.
          (s'.versions ≡ map (write_version v) s.versions)
          × IsFramed v.act_id s.versions s'.versions)
        (save_as id v s)
unfolding update
save_as-Safely none v s fine = refl
save_as-Safely (some id) v s fine = rw fine (refl, IsFramed-write v s.versions)

-- Such a version can be saved, and its row is all that a save changes of the table.
pub save-Safely :
    (v : ActVersion) (s : ActStore)
    → CanSave v s.versions
    → Safely
        (λ s'.
          (s'.versions ≡ map (write_version v) s.versions)
          × IsFramed v.act_id s.versions s'.versions)
        (save v s)
unfolding save
save-Safely v s can = save_as-Safely v.id v s (breaks_index-CanSave v s.versions can)
