-- ===== src/Budget/Table.antt =====
-- The table `cost_usage` of server/app/infrastructure/budget/ledger.py, and the queries on it.
use rag_assistant.Prelude.{
  ℕ, ◌+◌, Bool, true, false, ◌&&◌, Option, none, some, List, [], ◌∷◌, get_or, any, ltb, ◌==◌,
  if◌then◌else◌,
}

pub data DispatchState : Type 0 where
  reserved sending settled : DispatchState

-- `UNDISPATCHED_COST_SOURCE` and the sources 'provider', 'tariff' and 'administrative'.
pub data CostSource : Type 0 where
  not_dispatched provider_reported tariff_computed administrative : CostSource

-- A row of `cost_usage`; the operation id is its primary key.
pub record Usage : Type 0 where
  pub operation_id : ℕ
  pub principal : ℕ
  pub provider : ℕ
  pub model : ℕ
  pub operation : ℕ
  pub rate_version : ℕ
  pub reserved_units : ℕ
  pub actual_units : Option ℕ
  pub settled_at : Option ℕ
  pub created_at : ℕ
  pub dispatch_state : DispatchState
  pub cost_source : Option CostSource
  pub billable_units : Option ℕ
  pub evidence : Option ℕ
  pub request_fingerprint : Option ℕ
  pub provider_response_id : Option ℕ

abbrev pub Ledger : Type 0
Ledger = List Usage

abbrev pub same_source : CostSource → CostSource → Bool
same_source not_dispatched not_dispatched = true
same_source provider_reported provider_reported = true
same_source tariff_computed tariff_computed = true
same_source administrative administrative = true
same_source _ _ = false

abbrev pub source_is : CostSource → Option CostSource → Bool
source_is s none = false
source_is s (some c) = same_source s c

abbrev pub is_settled : DispatchState → Bool
is_settled settled = true
is_settled _ = false

abbrev pub is_reserved : DispatchState → Bool
is_reserved reserved = true
is_reserved _ = false

-- `SELECT … WHERE operation_id=:id`
unfoldable pub find_usage : ℕ → Ledger → Option Usage
find_usage id [] = none
find_usage id (r ∷ rs) = if r.operation_id == id then some r else find_usage id rs

-- `UPDATE … WHERE operation_id=:id`
unfoldable pub update_usage : ℕ → (Usage → Usage) → Ledger → Ledger
update_usage id f [] = []
update_usage id f (r ∷ rs) = (if r.operation_id == id then f r else r) ∷ update_usage id f rs

-- `actual_units > reserved_units`, which is not true of an actual charge that is NULL.
abbrev pub overcharged : Usage → Bool
overcharged r = elim r.actual_units [ none ↦ false | some a ↦ ltb r.reserved_units a ]

abbrev pub of_tariff : ℕ → ℕ → ℕ → Usage → Bool
of_tariff provider model version r =
    r.provider == provider && (r.model == model && r.rate_version == version)

unfoldable pub rate_violated : ℕ → ℕ → ℕ → Ledger → Bool
rate_violated provider model version ledger =
    any (λ r. of_tariff provider model version r && overcharged r) ledger

abbrev pub hour : ℕ
hour = 3600

abbrev pub day : ℕ
day = 86400

-- `settled_at IS NULL OR settled_at > now() - interval`
abbrev pub in_window : ℕ → ℕ → Usage → Bool
in_window span now r = elim r.settled_at [ none ↦ true | some t ↦ ltb now (t + span) ]

-- What a row adds to a rolling total of a principal.
abbrev pub charge : ℕ → ℕ → ℕ → Usage → ℕ
charge span now principal r =
    if r.principal == principal && (in_window span now r && in_window day now r)
    then get_or r.actual_units r.reserved_units
    else 0

unfoldable pub sum_by : (Usage → ℕ) → Ledger → ℕ
sum_by f [] = 0
sum_by f (r ∷ rs) = f r + sum_by f rs

-- The two sums of the query; every row of the hour lies in the day.
unfoldable pub total_units : ℕ → ℕ → ℕ → Ledger → ℕ
total_units span now principal = sum_by (charge span now principal)
