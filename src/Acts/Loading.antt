-- ===== src/Acts/Loading.antt =====
-- What `load` reads from a consistent table, and what follows from one row being current.
use rag_assistant.Prelude.{
  Bool-cases, List, Option, Safely, Safely-found, [], ap, arith, false, inl, inr, length, none, not,
  ok, option_eq, refl, select, some, sym, true, ℕ, ◌∷◌, ◌≡◌, ◌≤◌, subst,
}
use rag_assistant.Acts.{ActVersion, get_version}
use rag_assistant.Acts.Cover.{count_if}
use rag_assistant.Acts.Persistence.{current_in, list_by_act, load, load_timeline}
use rag_assistant.Acts.Sorted.{is_flagged}
use rag_assistant.Acts.Writes.{CurrentIn, CurrentIn-weaken, IsFramed, option_eq→≡, option_eq_refl}
use rag_assistant.Acts.Saving.{has_id, length-select}
use rag_assistant.Acts.Corrections.{get_version-Safely}
use rag_assistant.Acts.Consistent.{
  IsConsistent, IsUnique, count_current-one, CurrentIn-one, All-get_version, get_version-id,
  get_version-elsewhere, one_current-IsOnly, All-list_by_act, list_by_act-is_of,
}

-- A version as it stands in the table, with the timeline of its act.
pub record IsLoaded (id : ℕ) (rows : List ActVersion) (v : ActVersion) (tl : List ActVersion)
    : Type 0 where
  pub same_id : v.id ≡ some id
  pub timeline : (a : ℕ) → v.act_id ≡ some a → tl ≡ list_by_act a rows
  pub only :
      (a : ℕ) → v.act_id ≡ some a → v.is_current ≡ true → CurrentIn a (λ x. option_eq x v.id) rows
  pub elsewhere :
      (b : ℕ) → option_eq v.act_id (some b) ≡ false → CurrentIn b (λ x. not (option_eq x v.id)) rows

load_timeline-Safely :
    (id : ℕ) (rows : List ActVersion) (v : ActVersion) (act : Option ℕ)
    → IsConsistent rows
    → get_version (some id) rows ≡ ok v
    → v.act_id ≡ act
    → Safely (λ l. IsLoaded id rows l.0 l.1) (load_timeline id v act rows)
load_timeline-Safely id rows v none k found h =
    let own = get_version-id (some id) rows v found in
    record {
      same_id = own;
      timeline = λ a e. absurd (ground arith);
      only = λ a e now. absurd (ground arith);
      elsewhere = λ b other.
          subst (λ y. CurrentIn b (λ x. not (option_eq x y)) rows) (sym own)
            (get_version-elsewhere b (some id) rows v k.unique found other);
    }
load_timeline-Safely id rows v (some a) k found h =
    let tl = list_by_act a rows in
    elim (Safely-found (λ u. Unit {0}) (get_version (some id) tl)
      (get_version-Safely (some id) tl)) [
        | inr (e, failed, fine) ↦ rw failed fine
        | inl (w, e, u) ↦
            let own = get_version-id (some id) tl w e in
            let act =
              All-get_version (λ x. x.act_id ≡ some a) (some id) tl w (list_by_act-is_of a rows)
                e in
            let here = λ (x : ActVersion).
              current_in a x ≡ true
              → (1 ≤ count_if (current_in a) rows) × CurrentIn a (λ y. option_eq y x.id) rows in
            let only =
              All-get_version here (some id) tl w
                (All-list_by_act here a rows (one_current-IsOnly a rows (k.one_current a))) e in
            rw e (record {
              same_id = own;
              timeline = λ b there. ap (λ n. list_by_act n rows) (ground arith);
              only = λ b there now.
                  subst (λ n. CurrentIn n (λ x. option_eq x w.id) rows) (ground arith)
                    (only (ground arith)).1;
              elsewhere = λ b other.
                  subst (λ y. CurrentIn b (λ x. not (option_eq x y)) rows) (sym own)
                    (get_version-elsewhere b (some id) rows v k.unique found (ground arith));
            })
      ]

pub load-Safely :
    (id : ℕ) (rows : List ActVersion)
    → IsConsistent rows
    → Safely (λ l. IsLoaded id rows l.0 l.1) (load id rows)
unfolding load
load-Safely id rows k =
    elim (Safely-found (λ u. Unit {0}) (get_version (some id) rows)
      (get_version-Safely (some id) rows)) [
        | inr (e, failed, fine) ↦ rw failed fine
        | inl (v, found, u) ↦ rw found (load_timeline-Safely id rows v v.act_id k found refl)
      ]

-- One id, if any, is current in the act.
abbrev pub OneIn : ℕ → List ActVersion → Type 0
OneIn a rows = (y : Option ℕ) × CurrentIn a (λ x. option_eq y x) rows

pub OneIn-count : (a : ℕ) (rows : List ActVersion) → count_if (current_in a) rows ≤ 1 → OneIn a rows
unfolding count_if
OneIn-count a [] h = (none, tt)
OneIn-count a (r ∷ rows) h = elim (Bool-cases (current_in a r)) [
  | inl now ↦ (
    r.id,
    (
      ground (arith, option_eq_refl r.id),
      CurrentIn-weaken a (λ x. false) (λ x. option_eq r.id x) rows (λ x e. absurd (ground arith))
          (CurrentIn-one a rows (ground arith)),
    ),
  )
  | inr past ↦ let (y, below) = OneIn-count a rows (ground arith) in (y, (ground arith, below))
]

one_id :
    (us : List ActVersion)
    → length us ≤ 1
    → (y : Option ℕ) × ((x : Option ℕ) → has_id us x ≡ true → option_eq y x ≡ true)
one_id [] h = (none, λ x e. absurd (ground arith))
one_id (u ∷ []) h = (u.id, λ x e. ground arith)
one_id (u ∷ v ∷ us) h = absurd (ground arith)

-- If at most one of the versions is current, then one id is left current.
pub OneIn-flagged :
    (a : ℕ) (vs rows : List ActVersion)
    → count_if is_flagged vs ≤ 1
    → CurrentIn a (has_id (select is_flagged vs)) rows
    → OneIn a rows
OneIn-flagged a vs rows h c =
    let (y, w) = one_id (select is_flagged vs) (rw (length-select vs) h) in
    (y, CurrentIn-weaken a (has_id (select is_flagged vs)) (λ x. option_eq y x) rows w c)

pub IsConsistent-framed :
    (act : Option ℕ) (rows rows' : List ActVersion)
    → IsConsistent rows
    → IsFramed act rows rows'
    → ((a : ℕ) → act ≡ some a → OneIn a rows')
    → IsConsistent rows'
IsConsistent-framed act rows rows' k f one =
    let unique = subst IsUnique (sym f.same_ids) k.unique in
    record {
      unique = unique;
      one_current = λ a. elim (Bool-cases (option_eq act (some a))) [
        | inl own ↦
            let (y, c) = one a (option_eq→≡ act (some a) own) in
            count_current-one a y rows' unique c
        | inr other ↦ let before = k.one_current a in ground (arith, f.counts a other)
      ];
    }
