-- ===== src/Acts/Items.antt =====
-- The item of a corrected timeline that `update_version` picks and edits.
use rag_assistant.Prelude.{
  All, Bool-cases, List, Option, Safely, [], ap, arith, if◌then◌else◌, inl, inr, ok, ok-injective,
  option_eq, refl, some, subst, ℕ, ◌+◌, ◌||◌, ◌∙◌, ◌∷◌, ◌≡◌,
}
use rag_assistant.Acts.{ActVersion}
use rag_assistant.Acts.Cover.{count_if}
use rag_assistant.Acts.Commands.{next_item, edit_item}
use rag_assistant.Acts.Sorted.{is_flagged}
use rag_assistant.Acts.Saving.{has_id}

-- An item that keeps its id, its act and its flag can be edited in a timeline.
pub record IsEdit (r r' : List ActVersion) : Type 0 where
  pub has : (x : Option ℕ) → has_id r' x ≡ has_id r x
  pub acts : (a : ℕ) → All (λ v. v.act_id ≡ some a) r → All (λ v. v.act_id ≡ some a) r'
  pub current : count_if is_flagged r' ≡ count_if is_flagged r

pub next_item-IsEdit :
    (id : ℕ) (r : List ActVersion) (w w' : ActVersion)
    → next_item id r ≡ ok w
    → w'.id ≡ w.id
    → w'.act_id ≡ w.act_id
    → w'.is_current ≡ w.is_current
    → IsEdit r (edit_item id w' r)
unfolding count_if
next_item-IsEdit id [] w w' h i a c = absurd (ground arith)
next_item-IsEdit id (v ∷ vs) w w' h i a c = elim (Bool-cases (option_eq v.id (some id))) [
  | inl hit ↦
      let e : v ≡ w = ok-injective (rw hit at h) in
      rw (hit, e)
        (record {
          has = λ x. ap (λ y. option_eq y x || has_id vs x) i;
          acts = λ b o. (a ∙ o.0, o.1);
          current = ap (λ b. (if b then 1 else 0) + count_if is_flagged vs) c;
        })
  | inr miss ↦
      let below = next_item-IsEdit id vs w w' (rw miss at h) i a c in
      rw miss (record {
        has = λ x. ap (λ b. option_eq v.id x || b) (below.has x);
        acts = λ b o. (o.0, below.acts b o.1);
        current = ap (λ n. (if v.is_current then 1 else 0) + n) below.current;
      })
]

-- `next_item` finds an item of the list, or raises an error of its own.
pub next_item-Safely : (id : ℕ) (r : List ActVersion) → Safely (λ w. Unit {0}) (next_item id r)
next_item-Safely id [] = refl
next_item-Safely id (v ∷ vs) = elim (Bool-cases (option_eq v.id (some id))) [
  | inl hit ↦ rw hit tt
  | inr miss ↦ rw miss (next_item-Safely id vs)
]

pub All-next_item :
    (P : ActVersion → Type 0) (id : ℕ) (r : List ActVersion) (w : ActVersion)
    → All P r
    → next_item id r ≡ ok w
    → P w
All-next_item P id [] w a h = absurd (ground arith)
All-next_item P id (v ∷ vs) w a h = elim (Bool-cases (option_eq v.id (some id))) [
  | inl hit ↦ subst P (ok-injective (rw hit at h)) a.0
  | inr miss ↦ All-next_item P id vs w a.1 (rw miss at h)
]
