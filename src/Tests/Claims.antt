-- ===== src/Tests/Claims.antt =====
-- Witnesses for Claims: one policy whose trigger is met, in the database in memory.
use parashield_backend.Base.{
  arith, ℕ, ◌+◌, ◌≤◌, ◌≡◌, ◌≢◌, refl, true, false, Option, none, some, List, [], ◌∷◌, replicate,
  ◌==◌, if◌then◌else◌,
}
use parashield_backend.Base.Int.{pos}
use parashield_backend.Decimal.{
  parse_decimal_scaled, trim, is_space, split_digits, split_sign, compare_scaled_to_threshold,
  value,
}
use parashield_backend.Policy.Status.{active, processing, expired, status_eq}
use parashield_backend.Claims.Rows.{Policy, Claim, OracleReading, Product}
use parashield_backend.Claims.Transaction.{
  DatabaseError, known_request_error, Callback, commit, financial_transaction,
}
use parashield_backend.Claims.Database.{count}
use parashield_backend.Claims.AutoProcess.Outcome.{final_row, open_claim, settlement_lands}
use parashield_backend.Claims.Transaction.Retries.{Tried, transaction_tried}
use parashield_backend.Claims.Evolution.{Evolves}
use parashield_backend.Claims.AutoProcess.{
  Failure, reserved, new_claim, Surroundings, returned, reserve, auto_process,
}
use parashield_backend.Claims.AutoProcess.Effects.{move_to, status_and_version, batch_of}
use parashield_backend.Claims.AutoProcess.Evaluate.{
  early_return, evaluate, pay, is_contract_id, paid, rejected, payout_failed, is_transaction_hash,
}
use parashield_backend.Claims.AutoProcess.Verdicts.{Triggered}
use parashield_backend.Claims.AutoProcess.Gate.{reserve_exclusive}
use parashield_backend.Claims.AutoProcess.Payout.{calls_once, pays_only}
use parashield_backend.Claims.Worker.{process_one, step_expires}
use parashield_backend.Claims.AutoProcess.Progress.{pays_when}
use parashield_backend.Claims.AutoProcess.Evaluate.{trigger_met}
use parashield_backend.Tests.Memory.{Tables, memory}

abbrev pub policy : Policy
policy = record {
  id = 7;
  product_id = 3;
  policyholder = 42;
  coverage_xlm = 50_000_000_000;
  oracle_key = 9;
  end_time = 5000;
  status = active;
  version = 2;
}

abbrev pub tables : Tables
tables = record {
  policies = λ i. if i == 7 then some policy else none;
  claims = [];
  readings = record { key = 9; value = pos 10_000_000 } ∷ [];
  log = [];
  next_id = 1;
}

-- A threshold of 2 with LessThan.
abbrev pub product : Product
product = record {
  id = 3;
  threshold = b'2' ∷ [];
  is_less_than = true;
  coverage_max = 100_000_000_000;
}

abbrev pub hash : List ℕ
hash = replicate 64 b'a'

abbrev env : Surroundings Tables
env = record {
  now = 5000;
  later = 5000;
  processed_at = 5200;
  product_by_id = λ i. some product;
  contract_id = b'C' ∷ replicate 55 b'A';
  answer = some hash;
  reserve_aborts = λ n. none;
  settle_aborts = λ n. none;
  before_reserve = λ s. s;
  before_settle = λ s. s;
  gate_audit_fails = false;
  claimed_audit_fails = false;
}

-- The same with a contract that fails.
abbrev failing_env : Surroundings Tables
failing_env = record env { answer = none }

abbrev pub made : Claim
made = new_claim 1 7 policy

-- The tables behind the gate, and with the claim.
abbrev pub gated_tables : Tables
gated_tables =
    (memory.update_policies 7 (status_and_version active 2) (move_to processing) tables).0

abbrev pub reserved_tables : Tables
reserved_tables = record gated_tables { claims = made ∷ []; next_id = 2 }

reserve_exclusive_example :
    ¬ (reserve memory 7 policy reserved_tables ≡ commit (reserved made) reserved_tables)
unfolding reserve
reserve_exclusive_example =
    reserve_exclusive memory 7 policy policy tables reserved_tables reserved_tables reserved_tables
      made made refl refl Evolves.here

abbrev reverted : Policy
reverted = move_to active (move_to processing policy)

runs_to_paid : (auto_process memory 7 env tables).ending ≡ returned paid
unfolding auto_process early_return financial_transaction evaluate parse_decimal_scaled trim
    is_space split_digits split_sign compare_scaled_to_threshold value pay is_contract_id
    is_transaction_hash
runs_to_paid = refl

failing_run :
    ((auto_process memory 7 failing_env tables).ending ≡ returned rejected)
    × ((auto_process memory 7 failing_env tables).calls ≡ 7 ∷ [])
    × ((auto_process memory 7 failing_env tables).state.policies 7 ≡ some reverted)
unfolding auto_process early_return financial_transaction evaluate parse_decimal_scaled trim
    is_space split_digits split_sign compare_scaled_to_threshold value pay is_contract_id batch_of
failing_run = (refl, refl, refl)

nonempty : (xs : List ℕ) → xs ≡ 7 ∷ [] → xs ≢ []
nonempty xs e n = cc

called : (auto_process memory 7 failing_env tables).calls ≢ []
called = nonempty (auto_process memory 7 failing_env tables).calls failing_run.1

calls_once_example :
    ((auto_process memory 7 failing_env tables).calls ≡ 7 ∷ [])
    × ((p : Policy) × (some policy ≡ some p)
        × (p.status ≡ active)
        × (5000 ≤ p.end_time)
        × (p.end_time ≤ 5000)
        × ((c : Claim) × (t : Tables) × (reserve memory 7 p tables ≡ commit (reserved c) t))
        × Triggered
            (memory.latest_reading p.oracle_key tables)
            (some product)
            failing_env.contract_id)
calls_once_example = calls_once memory 7 failing_env tables called

pays_only_example :
    (p : Policy) × (some policy ≡ some p)
    × (p.status ≡ active)
    × (5000 ≤ p.end_time)
    × (p.end_time ≤ 5000)
    × ((c : Claim) × (t : Tables) × (reserve memory 7 p tables ≡ commit (reserved c) t))
    × Triggered (memory.latest_reading p.oracle_key tables) (some product) env.contract_id
    × ((h : List ℕ) × (some hash ≡ some h) × (is_transaction_hash h ≡ true))
pays_only_example = pays_only memory 7 env tables runs_to_paid

settlement_lands_example :
    (status_and_version processing (2 + 1) (move_to processing policy) ≡ true
      → (batch_of memory payout_failed 7 policy 1 5200 reserved_tables).0.policies 7
        ≡ some (final_row payout_failed (move_to processing policy)))
    × (status_and_version processing (2 + 1) (move_to processing policy) ≡ false
        → (batch_of memory payout_failed 7 policy 1 5200 reserved_tables).0.policies 7
          ≡ some (move_to processing policy))
    × (count
          (open_claim 1)
          (memory.claims_of 7 (batch_of memory payout_failed 7 policy 1 5200 reserved_tables).0)
        ≡ 0)
settlement_lands_example =
    settlement_lands memory payout_failed 7 1 5200 policy (move_to processing policy)
      reserved_tables (λ e. cc) refl

step_expires_example :
    (reverted.status ≡ active
      → (process_one memory 7 failing_env (λ s. s) tables).1.policies 7
        ≡ some (move_to expired reverted))
    × (status_eq reverted.status active ≡ false
        → (process_one memory 7 failing_env (λ s. s) tables).1.policies 7 ≡ some reverted)
step_expires_example =
    step_expires memory 7 failing_env (λ s. s) tables rejected reverted failing_run.0 refl
      failing_run.2

-- A transaction that is aborted once by a write conflict.
abbrev conflict : ℕ → Option DatabaseError
conflict n = if n == 1 then some (known_request_error 2034 false) else none

abbrev increment : ℕ → Callback ℕ ℕ Failure
increment n = commit n (n + 1)

transaction_tried_example :
    Tried conflict increment 5 3 1 (financial_transaction conflict increment 5)
transaction_tried_example = transaction_tried conflict increment 5

abbrev reading : OracleReading
reading = record { key = 9; value = pos 10_000_000 }

triggered : trigger_met reading product ≡ some true
unfolding trigger_met parse_decimal_scaled trim is_space split_digits split_sign
    compare_scaled_to_threshold value
triggered = refl

pays_when_example : (auto_process memory 7 env tables).ending ≡ returned paid
unfolding is_contract_id is_transaction_hash
pays_when_example =
    pays_when memory 7 env tables policy reading product hash refl refl (omega arith) (omega arith)
      refl refl triggered refl refl refl refl refl refl refl refl
