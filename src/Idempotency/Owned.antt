-- ===== src/Idempotency/Owned.antt =====
-- server/app/infrastructure/rate_limit/idempotency.py: who owns the key, whatever the order of the
-- commands.
use rag_assistant.Idempotency.Replays.{completed_entry_lem}
use rag_assistant.Prelude.{
  All, List, Option, [], arith, length, none, some, ℕ, ◌++◌, ◌+◌, ◌∷◌, ◌≡◌, ◌≤◌, sym, subst, ok,
  refl, ap, All-weaken,
}
use rag_assistant.Idempotency.{EntryState, in_progress, completed, Reservation, completed_entry}
use rag_assistant.Idempotency.Interleavings.{
  Watch, Reading, Keyed, Step, sets, watches, gets, executes, expires, Reach, start, next,
}

abbrev is_some : Option Reservation → ℕ
is_some none = 0
is_some (some e) = 1

-- An entry that is in progress has the token of the last request that acquired the key; one that is
-- completed has the result of the last completion, which is that request's.
abbrev OwnedBy : EntryState → Reservation → List ℕ → List (ℕ × ℕ) → Type 0
OwnedBy in_progress e acquired completions =
    (t : ℕ) × (before : List ℕ) × (acquired ≡ t ∷ before) × (e.token ≡ some t)
OwnedBy completed e acquired completions =
    (t : ℕ) × (r : ℕ) × (before : List ℕ) × (earlier : List (ℕ × ℕ)) × (acquired ≡ t ∷ before)
    × (completions ≡ (t, r) ∷ earlier)
    × (e.token ≡ none)
    × (e.result ≡ some r)

abbrev pub IsOwned : Option Reservation → List ℕ → List (ℕ × ℕ) → Type 0
IsOwned none acquired completions = Unit
IsOwned (some e) acquired completions = OwnedBy e.state e acquired completions

abbrev IsCurrent : ℕ → Option Reservation → Reading → Type 0
IsCurrent version cell r = (r.version ≤ version) × (r.version ≡ version → r.raw ≡ cell)

abbrev IsBefore : ℕ → Watch → Type 0
IsBefore version w = w.version ≤ version

record IsOrderly (s : Keyed) : Type 0 where
  old_watches : All (IsBefore s.version) s.watches
  current : All (IsCurrent s.version s.cell) s.readings
  owned : IsOwned s.cell s.acquired s.completions
  counted : length s.acquired ≤ s.expiries + is_some s.cell

All-middle {ℓ} :
    {A : Type ℓ} (P : A → Type 0) (before after : List A) (x : A)
    → All P (before ++ x ∷ after)
    → P x
All-middle P [] after x (h, hs) = h
All-middle P (b ∷ before) after x (h, hs) = All-middle P before after x hs

-- A change of the key makes every reading from before useless.
written-IsCurrent :
    (version : ℕ) (cell new : Option Reservation) (readings : List Reading)
    → All (IsCurrent version cell) readings
    → All (IsCurrent (version + 1) new) readings
written-IsCurrent version cell new readings =
    All-weaken (IsCurrent version cell) (IsCurrent (version + 1) new) readings
      λ (r : Reading) old. (omega (arith, old.0), λ same. absurd (omega (arith, old.0, same)))

written-IsBefore :
    (version : ℕ) (ws : List Watch) → All (IsBefore version) ws → All (IsBefore (version + 1)) ws
written-IsBefore version ws =
    All-weaken (IsBefore version) (IsBefore (version + 1)) ws λ (w : Watch) old. omega (arith, old)

is_some_le : (c : Option Reservation) → is_some c ≤ 1
is_some_le none = omega arith
is_some_le (some e) = omega arith

-- Who reads the own token in an entry is the last request that acquired the key.
last_acquirer :
    (state : EntryState) (old : Reservation) (token : ℕ) (acquired : List ℕ)
    (completions : List (ℕ × ℕ))
    → OwnedBy state old acquired completions
    → old.token ≡ some token
    → (before : List ℕ) × (acquired ≡ token ∷ before)
last_acquirer in_progress old token acquired completions (t, before, last, own) same = (before, cc)
last_acquirer completed old token acquired completions (t, r, before, earlier, l, c, gone, v) same =
    cc

executed-IsOwned :
    (raw : Option Reservation) (token result : ℕ) (entry : Reservation) (acquired : List ℕ)
    (completions : List (ℕ × ℕ))
    → completed_entry token result raw ≡ ok entry
    → IsOwned raw acquired completions
    → IsOwned (some entry) acquired ((token, result) ∷ completions)
executed-IsOwned raw token result entry acquired completions h owned =
    let (old, read, own, same) = completed_entry_lem token result raw entry h in
    let (before, last) =
      last_acquirer old.state old token acquired completions
        (subst (λ c. IsOwned c acquired completions) read owned) own in
    rw same (token, result, before, completions, last, refl, refl, refl)

Step-IsOrderly : {s t : Keyed} → IsOrderly s → Step s t → IsOrderly t
Step-IsOrderly {s} i (sets operation fingerprint token free) = record {
  old_watches = written-IsBefore s.version s.watches i.old_watches;
  current = written-IsCurrent s.version s.cell _ s.readings i.current;
  owned = (token, s.acquired, refl, refl);
  counted = omega (arith, i.counted, ap is_some free);
}
Step-IsOrderly {s} i (watches token) = record {
  old_watches = (omega arith, i.old_watches);
  current = i.current;
  owned = i.owned;
  counted = i.counted;
}
Step-IsOrderly {s} i (gets before after w at) = record {
  old_watches = i.old_watches;
  current = (
    (
      All-middle (IsBefore s.version) before after w
          (subst (All (IsBefore s.version)) at i.old_watches),
      λ same. refl,
    ),
    i.current,
  );
  owned = i.owned;
  counted = i.counted;
}
Step-IsOrderly {s} i (executes before after r result entry at sent same) =
    let (old, now) =
      All-middle (IsCurrent s.version s.cell) before after r
        (subst (All (IsCurrent s.version s.cell)) at i.current) in
    record {
      old_watches = written-IsBefore s.version s.watches i.old_watches;
      current = written-IsCurrent s.version s.cell _ s.readings i.current;
      owned =
          executed-IsOwned r.raw r.token result entry s.acquired s.completions sent
            (subst (λ c. IsOwned c s.acquired s.completions) (sym (now same)) i.owned);
      counted = omega (arith, i.counted, is_some_le s.cell);
    }
Step-IsOrderly {s} i expires = record {
  old_watches = written-IsBefore s.version s.watches i.old_watches;
  current = written-IsCurrent s.version s.cell _ s.readings i.current;
  owned = tt;
  counted = omega (arith, i.counted, is_some_le s.cell);
}

Reach-IsOrderly : {s : Keyed} → Reach s → IsOrderly s
Reach-IsOrderly start = record { old_watches = tt; current = tt; owned = tt; counted = omega arith }
Reach-IsOrderly (next path step) = Step-IsOrderly (Reach-IsOrderly path) step

-- In whatever order the requests on a key send their commands and the key expires, the key was
-- acquired at most once more than it has expired, and what is stored is the last acquirer's: its
-- token while it is in progress, and then the result that it completed with, the last of all.
pub Reach-IsOwned :
    {s : Keyed}
    → Reach s
    → (length s.acquired ≤ s.expiries + 1) × IsOwned s.cell s.acquired s.completions
Reach-IsOwned {s} path =
    let i = Reach-IsOrderly path in (omega (arith, i.counted, is_some_le s.cell), i.owned)
