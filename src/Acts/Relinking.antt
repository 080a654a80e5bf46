-- ===== src/Acts/Relinking.antt =====
-- A version that joins the timeline of another act, and the write of one version.
use rag_assistant.Prelude.{
  All, Bool, Bool-cases, List, Option, Safely, Safely-bind, [], ap, arith, inl, inr, map, none, ok,
  option_eq, refl, some, subst, sym, true, ℕ, ◌&&◌, ◌||◌, ◌∷◌, ◌≡◌, ◌≤◌,
}
use rag_assistant.Acts.{ActVersion, is_latest, insert_boundary, close_at}
use rag_assistant.Acts.Cover.{count_if}
use rag_assistant.Acts.Sort.{sort}
use rag_assistant.Acts.Insert.{current_flags-map, no_current_flags}
use rag_assistant.Acts.Changes.{changed_versions}
use rag_assistant.Acts.Commands.{versions_besides}
use rag_assistant.Acts.Persistence.{ActStore, write_version, save, save_all, save_changes}
use rag_assistant.Acts.Sorted.{is_flagged}
use rag_assistant.Acts.Writes.{
  CurrentIn, CurrentIn-weaken, CurrentIn-write, IsFramed, option_eq_refl, save-Safely,
}
use rag_assistant.Acts.Saving.{has_id, only_current}
use rag_assistant.Acts.Consistent.{IsConsistent}
use rag_assistant.Acts.Loading.{OneIn, IsConsistent-framed}

pub CurrentIn-both :
    (a : ℕ) (k k' : Option ℕ → Bool) (rows : List ActVersion)
    → CurrentIn a k rows
    → CurrentIn a k' rows
    → CurrentIn a (λ x. k x && k' x) rows
CurrentIn-both a k k' [] c d = tt
CurrentIn-both a k k' (r ∷ rows) c d = (ground arith, CurrentIn-both a k k' rows c.1 d.1)

pub only_current-besides :
    (id : Option ℕ) (tl : List ActVersion) (x : Option ℕ)
    → only_current tl x ≡ true
    → only_current (versions_besides id tl) x ≡ true
only_current-besides id [] x h = refl
only_current-besides id (v ∷ vs) x h = ground (arith, only_current-besides id vs x)

pub count_flagged-besides :
    (id : Option ℕ) (tl : List ActVersion)
    → count_if is_flagged (versions_besides id tl) ≤ count_if is_flagged tl
unfolding count_if
count_flagged-besides id [] = ground arith
count_flagged-besides id (v ∷ vs) = ground (arith, count_flagged-besides id vs)

has_id-close_at :
    (d : ℕ) (c : Bool) (vs : List ActVersion) (x : Option ℕ)
    → has_id (map (close_at d c) vs) x ≡ has_id vs x
unfolding close_at
has_id-close_at d c [] x = refl
has_id-close_at d c (v ∷ vs) x = ap (λ b. option_eq v.id x || b) (has_id-close_at d c vs x)

close_at-acts :
    (a d : ℕ) (c : Bool) (vs : List ActVersion)
    → All (λ v. v.act_id ≡ some a) vs
    → All (λ v. v.act_id ≡ some a) (map (close_at d c) vs)
unfolding close_at
close_at-acts a d c [] o = tt
close_at-acts a d c (v ∷ vs) o = (o.0, close_at-acts a d c vs o.1)

-- The versions that an insertion closes: of their act, with their ids, and none of them is current
-- if the new version is to be.
pub record IsClosed (a : ℕ) (d : Option ℕ) (today : ℕ) (vs : List ActVersion) : Type 0 where
  pub has : (x : Option ℕ) → has_id (insert_boundary vs d today) x ≡ has_id vs x
  pub acts : All (λ v. v.act_id ≡ some a) (insert_boundary vs d today)
  pub current : count_if is_flagged (insert_boundary vs d today) ≤ count_if is_flagged vs
  pub replaced : is_latest vs d today ≡ true → count_if is_flagged (insert_boundary vs d today) ≡ 0

pub insert_boundary-IsClosed :
    (a : ℕ) (d : Option ℕ) (today : ℕ) (vs : List ActVersion)
    → All (λ v. v.act_id ≡ some a) vs
    → IsClosed a d today vs
unfolding insert_boundary
insert_boundary-IsClosed a none today vs o = record {
  has = λ x. refl;
  acts = o;
  current = ground arith;
  replaced = λ h. no_current_flags vs (unfold is_latest in ground arith);
}
insert_boundary-IsClosed a (some d) today vs o =
    let c = is_latest vs (some d) today in
    record {
      has = has_id-close_at d c vs;
      acts = close_at-acts a d c vs o;
      current = ground (arith, current_flags-map d c vs);
      replaced = λ h. ground (arith, current_flags-map d c vs);
    }

-- What a version may be written into: its act has at most one id current, which is its own if the
-- version is current.
pub record HasRoom (v : ActVersion) (rows : List ActVersion) : Type 0 where
  pub one : (a : ℕ) → v.act_id ≡ some a → OneIn a rows
  pub own :
      (a : ℕ) → v.act_id ≡ some a → v.is_current ≡ true → CurrentIn a (λ x. option_eq x v.id) rows

pub option_eq_sym : (x y : Option ℕ) → option_eq x y ≡ true → option_eq y x ≡ true
option_eq_sym x y h = ground arith

write-OneIn :
    (v : ActVersion) (rows : List ActVersion) (a : ℕ)
    → HasRoom v rows
    → v.act_id ≡ some a
    → OneIn a (map (write_version v) rows)
write-OneIn v rows a room h = elim (Bool-cases v.is_current) [
  | inl now ↦ (
    v.id,
    CurrentIn-write a (λ x. option_eq v.id x) v rows (ground (arith, option_eq_refl v.id))
        (CurrentIn-weaken a (λ x. option_eq x v.id) (λ x. option_eq v.id x) rows
          (λ x e. option_eq_sym x v.id e) (room.own a h now)),
  )
  | inr past ↦
      let (y, c) = room.one a h in
      (y, CurrentIn-write a (λ x. option_eq y x) v rows (ground arith) c)
]

pub record IsWritten (v : ActVersion) (rows rows' : List ActVersion) : Type 0 where
  pub rows_written : rows' ≡ map (write_version v) rows
  pub framed : IsFramed v.act_id rows rows'
  pub consistent : IsConsistent rows'

-- The edited version is written whether or not it has changed.
pub save_edited-Safely :
    (tl : List ActVersion) (id : ℕ) (v : ActVersion) (s : ActStore)
    → v.id ≡ some id
    → IsConsistent s.versions
    → HasRoom v s.versions
    → Safely (λ s'. IsWritten v s.versions s'.versions) (save_changes tl (v ∷ []) (some id) s)
unfolding save_changes changed_versions save_all sort
save_edited-Safely tl id v s own k room =
    let edited : option_eq v.id (some id) ≡ true = ground arith in
    rw edited (
      Safely-bind
        (λ s'.
          (s'.versions ≡ map (write_version v) s.versions)
          × IsFramed v.act_id s.versions s'.versions)
        (λ s'. IsWritten v s.versions s'.versions) (save v s) (λ s'. ok s')
        (save-Safely v s (λ a h now. room.own a h now))
        (λ s' (e, f). record {
          rows_written = e;
          framed = f;
          consistent =
              IsConsistent-framed v.act_id s.versions s'.versions k f
                (λ a h. subst (OneIn a) (sym e) (write-OneIn v s.versions a room h));
        }))

-- A version after a relink, and the table.
pub record IsRelinked (v : ActVersion) (rows : List ActVersion) (v' : ActVersion)
    (rows' : List ActVersion) : Type 0 where
  pub same_id : v'.id ≡ v.id
  pub same_act : v'.act_id ≡ v.act_id
  pub framed : IsFramed v.act_id rows rows'
  pub consistent : IsConsistent rows'
  pub room : HasRoom v' rows'
