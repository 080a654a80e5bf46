-- ===== src/Budget.antt =====
-- server/app/infrastructure/budget/ledger.py: the ledger of paid operations. Each method is one
-- transaction, and the advisory locks make those of a principal follow one another, so a method is a
-- function of the table. An exception inside the transaction rolls it back; one after it does not.
-- Principals, operation ids, providers, models and fingerprints are only compared: numbers stand for
-- them. Times are in seconds. What Redis keeps is written and never read, so it is left out.
pub mod Table
pub mod Payment
pub mod Totals
pub mod Limits
pub mod Rows
pub mod Settle
pub mod Sending
pub mod Release
mod Tests
use rag_assistant.Prelude.{
  ℕ, ◌+◌, Bool, true, false, not, ◌&&◌, ◌||◌, Option, none, some, List, [], ◌∷◌, Result, ok, err,
  budget_error, option_eq, is_none, get_or, any, ltb, ◌==◌, if◌then◌else◌,
}
use rag_assistant.Budget.Table.{
  Usage, Ledger, reserved, settled, not_dispatched, source_is, is_settled, find_usage, update_usage,
  rate_violated, total_units, hour, day,
}

-- The keyword arguments of `reserve`.
pub record Request : Type 0 where
  pub principal : ℕ
  pub operation_id : ℕ
  pub provider : ℕ
  pub model : ℕ
  pub operation : ℕ
  pub maximum_units : ℕ
  pub rate_version : ℕ
  pub hourly_units : ℕ
  pub daily_units : ℕ
  pub enforce_limits : Bool
  pub request_fingerprint : Option ℕ

-- The script `ADMIT`, as to its answer.
unfoldable pub admit : ℕ → ℕ → ℕ → ℕ → ℕ → Bool
admit hour_total day_total units hourly daily =
    if ltb hourly (hour_total + units) || ltb daily (day_total + units) then false else true

-- The test under which an existing reservation may be armed again.
abbrev fingerprint_matches : Option ℕ → Option ℕ → Bool
fingerprint_matches none row = false
fingerprint_matches (some f) row = option_eq row (some f)

unfoldable pub can_rearm : Request → Usage → Bool
can_rearm q r =
    source_is not_dispatched r.cost_source
    && (option_eq r.actual_units (some 0)
        && (is_settled r.dispatch_state
            && (is_none r.provider_response_id
                && (fingerprint_matches q.request_fingerprint r.request_fingerprint
                    && (r.provider == q.provider
                        && (r.model == q.model && r.operation == q.operation))))))

-- The row of the INSERT, and the row after the UPDATE.
abbrev pub new_usage : ℕ → Request → Usage
new_usage now q = record {
  operation_id = q.operation_id;
  principal = q.principal;
  provider = q.provider;
  model = q.model;
  operation = q.operation;
  rate_version = q.rate_version;
  reserved_units = q.maximum_units;
  actual_units = none;
  settled_at = none;
  created_at = now;
  dispatch_state = reserved;
  cost_source = none;
  billable_units = none;
  evidence = none;
  request_fingerprint = q.request_fingerprint;
  provider_response_id = none;
}

abbrev pub rearm : ℕ → Request → Usage → Usage
rearm now q r = record r {
  rate_version = q.rate_version;
  reserved_units = q.maximum_units;
  actual_units = none;
  settled_at = none;
  billable_units = none;
  cost_source = none;
  evidence = none;
  dispatch_state = reserved;
  created_at = now;
}

abbrev write_reservation : ℕ → Request → Option Usage → Ledger → Ledger
write_reservation now q none ledger = new_usage now q ∷ ledger
write_reservation now q (some r) ledger = update_usage q.operation_id (rearm now q) ledger

abbrev pub admitted : ℕ → Request → Ledger → Bool
admitted now q ledger =
    not q.enforce_limits
    || admit (total_units hour now q.principal ledger) (total_units day now q.principal ledger)
        q.maximum_units q.hourly_units q.daily_units

abbrev admit_and_write : ℕ → Request → Option Usage → Ledger → Result Bool × Ledger
admit_and_write now q existing ledger =
    if admitted now q ledger
    then (ok true, write_reservation now q existing ledger)
    else (err budget_error, ledger)

-- The checks on an existing row of the operation.
abbrev reserve_existing : ℕ → Request → Option Usage → Ledger → Result Bool × Ledger
reserve_existing now q none ledger = admit_and_write now q none ledger
reserve_existing now q (some r) ledger =
    if not (r.principal == q.principal)
    then (err budget_error, ledger)
    else if not (can_rearm q r)
    then (ok false, ledger)
    else admit_and_write now q (some r) ledger

pub reserve : ℕ → Request → Ledger → Result Bool × Ledger
unfolding find_usage rate_violated total_units admit can_rearm update_usage
reserve now q ledger =
    if rate_violated q.provider q.model q.rate_version ledger
    then (err budget_error, ledger)
    else reserve_existing now q (find_usage q.operation_id ledger) ledger
