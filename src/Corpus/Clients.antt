-- ===== src/Corpus/Clients.antt =====
-- server/app/infrastructure/corpus/snapshot.py: a client of one generation of the index, its leases
-- and its retirement. Each method holds the client's lock, so it is one step. `cleaned` says whether
-- closing the pool of connections succeeds.
use rag_assistant.Prelude.{
  AppError, Bool, Result, arith, err, false, if◌then◌else◌, not, ok, refl, runtime_error, suc, true,
  zero, ℕ, ◌&&◌, ◌+◌, ◌-◌, ◌==◌, ◌≡◌,
}

pub record BoundQdrantClient : Type 0 where
  pub leases : ℕ
  pub retired : Bool
  pub closed : Bool

abbrev pub new_client : BoundQdrantClient
new_client = record { leases = 0; retired = false; closed = false }

-- `close_if_idle` and `close_raw`, which takes the mark back if the pool's cleanup fails.
unfoldable pub close_if_idle : Bool → BoundQdrantClient → BoundQdrantClient
close_if_idle cleaned c =
    if c.retired && (c.leases == 0 && not c.closed) then record c { closed = cleaned } else c

-- `lease` on entry, and on exit.
unfoldable pub take_lease : BoundQdrantClient → Result (Unit {0}) × BoundQdrantClient
take_lease c =
    if c.closed then (err runtime_error, c) else (ok tt, record c { leases = c.leases + 1 })

unfoldable pub return_lease : Bool → BoundQdrantClient → BoundQdrantClient
unfolding close_if_idle
return_lease cleaned c = close_if_idle cleaned (record c { leases = c.leases - 1 })

unfoldable pub close : Bool → BoundQdrantClient → BoundQdrantClient
unfolding close_if_idle
close cleaned c = close_if_idle cleaned (record c { retired = true })

-- A client and the requests that use it: a lease is returned by a request that holds one.
pub data Step : ℕ × BoundQdrantClient → ℕ × BoundQdrantClient → Type 0 where
  taken :
      (n : ℕ) (c : BoundQdrantClient)
      → (take_lease c).0 ≡ ok tt
      → Step (n, c) (suc n, (take_lease c).1)
  refused :
      (n : ℕ) (c : BoundQdrantClient) (e : AppError)
      → (take_lease c).0 ≡ err e
      → Step (n, c) (n, (take_lease c).1)
  returned :
      (n : ℕ) (c : BoundQdrantClient) (cleaned : Bool) → Step (suc n, c) (n, return_lease cleaned c)
  retires : (n : ℕ) (c : BoundQdrantClient) (cleaned : Bool) → Step (n, c) (n, close cleaned c)

pub data Reach : ℕ × BoundQdrantClient → Type 0 where
  fresh : Reach (0, new_client)
  later : {s t : ℕ × BoundQdrantClient} → Reach s → Step s t → Reach t

pub record IsLeased (s : ℕ × BoundQdrantClient) : Type 0 where
  pub counted : s.1.leases ≡ s.0
  pub idle : s.1.closed ≡ true → (s.0 ≡ 0) × (s.1.retired ≡ true)

Step-IsLeased : {s t : ℕ × BoundQdrantClient} → Step s t → IsLeased s → IsLeased t
unfolding take_lease return_lease close
Step-IsLeased (taken n c h) v = record { counted = ground arith; idle = λ x. ground arith }
Step-IsLeased (refused n c e h) v = record { counted = ground arith; idle = λ x. ground arith }
Step-IsLeased (returned n c cleaned) v = record { counted = ground arith; idle = λ x. ground arith }
Step-IsLeased (retires n c cleaned) v = record { counted = ground arith; idle = λ x. ground arith }

-- However requests take and return leases while the client is retired, its count is the number of
-- leases that are out, and its pool is closed only when it is retired and no lease is out.
pub Reach-IsLeased : {s : ℕ × BoundQdrantClient} → Reach s → IsLeased s
Reach-IsLeased fresh = record { counted = refl; idle = λ x. ground arith }
Reach-IsLeased (later r t) = Step-IsLeased t (Reach-IsLeased r)

-- Returning every lease, one after the other.
abbrev pub return_all : ℕ → BoundQdrantClient → BoundQdrantClient
return_all zero c = c
return_all (suc n) c = return_all n (return_lease true c)

return_all-retired :
    (n : ℕ) (c : BoundQdrantClient)
    → c.leases ≡ suc n
    → c.retired ≡ true
    → c.closed ≡ false
    → ((return_all n c).closed ≡ false) × ((return_all (suc n) c).closed ≡ true)
unfolding return_lease
return_all-retired zero c h r o = (o, ground arith)
return_all-retired (suc n) c h r o =
    return_all-retired n (return_lease true c) (ground arith) (ground arith) (ground arith)

-- A client that is retired while leases are out closes when the last of them is returned, and not
-- before, if the cleanup succeeds.
pub return_all-closes :
    (n : ℕ) (c : BoundQdrantClient)
    → c.leases ≡ suc n
    → c.closed ≡ false
    → ((return_all n (close true c)).closed ≡ false)
      × ((return_all (suc n) (close true c)).closed ≡ true)
unfolding close
return_all-closes n c h o =
    return_all-retired n (close true c) (ground arith) (ground arith) (ground arith)
