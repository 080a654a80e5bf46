-- ===== src/Acts/Rebuild/Disjoint.antt =====
-- After `rebuild` no two editions are in force on one day.
use rag_assistant.Prelude.{
  subst, ℕ, ◌≤◌, Bool, true, false, Option, none, some, List, [], ◌∷◌, ◌≡◌, refl, arith, All,
  Result, ok, ◌>>=◌, >>=-inversion, ok-injective, sym, ltb, Bool-cases, inl, inr,
}
use rag_assistant.Acts.{
  ActVersion, Ends, ends_after, next_start, lookup_end, validate_dates, key_le,
}
use rag_assistant.Acts.Sort.{sort}
use rag_assistant.Acts.Sorted.{All-sort}
use rag_assistant.Acts.Cover.{covers, count_if, in_force_on}
use rag_assistant.Acts.Rebuild.{
  rebuild_version, rebuild_versions, earlier, mark_last_eligible, rebuild,
}
use rag_assistant.Acts.Rebuild.Ordered.{IsDated, IsOrdered, StartsBefore, sort-IsOrdered}

abbrev pub cut : Option ℕ → ActVersion → Option ℕ → ActVersion
cut boundary v e = record v { effective_to = earlier e boundary; is_current = false }

abbrev pub cut_checked : Option ℕ → ActVersion → Option ℕ → Result ActVersion
cut_checked boundary v e = validate_dates none (cut boundary v e) >>= λ _. ok (cut boundary v e)

abbrev pub more : Ends → List ActVersion → ActVersion → Result (List ActVersion)
more ends vs v' = rebuild_versions ends vs >>= λ vs'. ok (v' ∷ vs')

abbrev starts_later : ℕ → Option ℕ → Bool
starts_later t none = false
starts_later t (some a) = ltb t a

-- What a round of the loop keeps and what it bounds.
pub record IsCut (boundary : Option ℕ) (v v' : ActVersion) : Type 0 where
  pub id : v'.id ≡ v.id
  pub start : v'.effective_from ≡ v.effective_from
  pub not_current : v'.is_current ≡ false
  pub bounded : (t : ℕ) → ends_after v'.effective_to t ≡ true → ends_after boundary t ≡ true

ends_after-earlier :
    (e b : Option ℕ) (t : ℕ) → ends_after (earlier e b) t ≡ true → ends_after b t ≡ true
ends_after-earlier e b t h = ground arith

IsCut-earlier :
    (e boundary : Option ℕ) (v : ActVersion)
    → IsCut boundary v (record v { effective_to = earlier e boundary; is_current = false })
IsCut-earlier e boundary v = record {
  id = refl;
  start = refl;
  not_current = refl;
  bounded = ends_after-earlier e boundary;
}

pub rebuild_version-IsCut :
    (ends : Ends) (boundary : Option ℕ) (v v' : ActVersion)
    → rebuild_version ends boundary v ≡ ok v'
    → IsCut boundary v v'
unfolding rebuild_version
rebuild_version-IsCut ends boundary v v' h =
    let (e, rest, found) =
      >>=-inversion (lookup_end ends v.id) (λ expiry. cut_checked boundary v expiry) h in
    let (u, same, checked) =
      >>=-inversion (validate_dates none (cut boundary v e)) (λ _. ok (cut boundary v e)) rest in
    subst (IsCut boundary v) (ok-injective same) (IsCut-earlier e boundary v)

-- The parts of a successful loop over a version and the versions behind it.
pub record IsCons (ends : Ends) (v : ActVersion) (vs r : List ActVersion) : Type 0 where
  pub first : ActVersion
  pub rest : List ActVersion
  pub splits : r ≡ first ∷ rest
  pub first_cut : IsCut (next_start vs) v first
  pub rest_built : rebuild_versions ends vs ≡ ok rest

pub rebuild_versions-IsCons :
    (ends : Ends) (v : ActVersion) (vs r : List ActVersion)
    → rebuild_versions ends (v ∷ vs) ≡ ok r
    → IsCons ends v vs r
unfolding rebuild_versions
rebuild_versions-IsCons ends v vs r h =
    let (v', h', one) =
      >>=-inversion (rebuild_version ends (next_start vs) v) (λ v'. more ends vs v') h in
    let (vs', same, others) = >>=-inversion (rebuild_versions ends vs) (λ vs'. ok (v' ∷ vs')) h' in
    record {
      first = v';
      rest = vs';
      splits = sym (ok-injective same);
      first_cut = rebuild_version-IsCut ends (next_start vs) v v' one;
      rest_built = others;
    }

-- Every version starts after the day.
abbrev StartsAfter : ℕ → ActVersion → Type 0
StartsAfter t v = starts_later t v.effective_from ≡ true

not_covers :
    (t : ℕ) (v v' : ActVersion)
    → v'.effective_from ≡ v.effective_from
    → StartsAfter t v
    → covers v' t ≡ false
not_covers t v v' e h = ground arith

rebuild_versions-none_before :
    (ends : Ends) (t : ℕ) (vs r : List ActVersion)
    → rebuild_versions ends vs ≡ ok r
    → All (StartsAfter t) vs
    → in_force_on t r ≡ 0
unfolding count_if rebuild_versions
rebuild_versions-none_before ends t [] r h late = rw (sym (ok-injective h))
rebuild_versions-none_before ends t (v ∷ vs) r h late =
    let c = rebuild_versions-IsCons ends v vs r h in
    rw (c.splits, not_covers t v c.first c.first_cut.start late.0)
      (omega (arith, rebuild_versions-none_before ends t vs c.rest c.rest_built late.1))

StartsAfter-All :
    (t : ℕ) (v : ActVersion) (vs : List ActVersion)
    → StartsAfter t v
    → StartsBefore v vs
    → All (StartsAfter t) vs
StartsAfter-All t v [] h o = tt
StartsAfter-All t v (w ∷ ws) h o = (ground arith, StartsAfter-All t v ws h o.1)

-- A cut version that covers a day ends before the next version starts.
next-StartsAfter :
    (t : ℕ) (v v' : ActVersion) (vs : List ActVersion)
    → IsCut (next_start vs) v v'
    → covers v' t ≡ true
    → All IsDated vs
    → IsOrdered vs
    → All (StartsAfter t) vs
next-StartsAfter t v v' [] c h d o = tt
next-StartsAfter t v v' (w ∷ ws) c h d o =
    let first : StartsAfter t w = ground (arith, c.bounded t) in
    (first, StartsAfter-All t w ws first o.0)

pub rebuild_versions-in_force_on :
    (ends : Ends) (t : ℕ) (vs r : List ActVersion)
    → rebuild_versions ends vs ≡ ok r
    → All IsDated vs
    → IsOrdered vs
    → in_force_on t r ≤ 1
unfolding count_if rebuild_versions
rebuild_versions-in_force_on ends t [] r h d o = rw (sym (ok-injective h)) (omega arith)
rebuild_versions-in_force_on ends t (v ∷ vs) r h d o =
    let c = rebuild_versions-IsCons ends v vs r h in
    let ih = rebuild_versions-in_force_on ends t vs c.rest c.rest_built d.1 o.1 in
    rw c.splits (elim (Bool-cases (covers c.first t)) [
      | inl covered ↦
          rw
            (
              covered,
              rebuild_versions-none_before ends t vs c.rest c.rest_built
                  (next-StartsAfter t v c.first vs c.first_cut covered d.1 o.1),
            )
            (omega arith)
      | inr not_covered ↦ rw not_covered (omega (arith, ih))
    ])

in_force_on-mark_last_eligible :
    (today t : ℕ) (vs : List ActVersion)
    → in_force_on t (mark_last_eligible today vs) ≡ in_force_on t vs
unfolding mark_last_eligible count_if
in_force_on-mark_last_eligible today t [] = refl
in_force_on-mark_last_eligible today t (v ∷ vs) =
    ground (arith, in_force_on-mark_last_eligible today t vs)

-- However the explicit ends and the dates are changed, a rebuilt timeline of dated editions has at
-- most one edition in force on any day.
pub rebuild-in_force_on :
    (versions r : List ActVersion) (ends : Ends) (today t : ℕ)
    → All IsDated versions
    → rebuild versions ends today ≡ ok r
    → in_force_on t r ≤ 1
unfolding rebuild
rebuild-in_force_on versions r ends today t d h =
    let (ordered, same, built) =
      >>=-inversion (rebuild_versions ends (sort key_le versions))
        (λ ordered. ok (mark_last_eligible today ordered)) h in
    rw (sym (ok-injective same), in_force_on-mark_last_eligible today t ordered)
      (rebuild_versions-in_force_on ends t (sort key_le versions) ordered built
        (All-sort key_le IsDated versions d) (sort-IsOrdered versions d))
