-- ===== src/Claims/AutoProcess.antt =====
-- `autoProcess` of src/claims/claims.service.ts with src/claims/claim-evaluation-snapshot.ts. What the
-- call meets is an argument: the clock, the product, the contract id, the contract's answer, how the
-- database treats each attempt, and what other processes commit between two of its transactions.
pub mod Evaluate
pub mod Effects
pub mod Gate
pub mod Verdicts
pub mod Settling
pub mod Payout
pub mod Outcome
pub mod Progress
use parashield_backend.Base.{
  ℕ, ◌+◌, Bool, true, false, ◌&&◌, ◌||◌, Option, none, some, List, [], ◌∷◌, ◌++◌, find, ltb, ◌==◌,
  if◌then◌else◌,
}
use parashield_backend.Policy.Status.{PolicyStatus, active, processing, claimed, status_eq}
use parashield_backend.Claims.Rows
use parashield_backend.Claims.Rows.{
  Policy, Claim, ClaimStatus, claim_status_eq, OracleReading, Product, policy_audit,
}
use parashield_backend.Claims.Database.{Database}
use parashield_backend.Claims.Transaction.{
  DatabaseError, Callback, commit, rollback, Result, ok, aborted, threw, financial_transaction,
}
use Evaluate.{
  Verdict, evaluate, early_return, ClaimResult, policy_not_active, already_processed,
  payout_confirmed, not_configured,
}
use Effects.{
  Event, policy_status_event, invalidated, batch_of, events_of, result_of, calls_of, move_to,
  status_and_version,
}

-- What the call throws.
pub data Failure : Type 0 where
  -- the P2002 of a second unsettled claim
  unique_violation : Failure
  -- BadGatewayException: CLAIMS_PROCESSOR_CONTRACT
  bad_gateway : Failure
  database_failure : DatabaseError → Failure

pub data Ending : Type 0 where
  returned : ClaimResult → Ending
  thrown : Failure → Ending

pub data Reservation : Type 0 where
  duplicate : Claim → Reservation
  lost_race : Reservation
  reserved : Claim → Reservation

-- What one call meets, over the states S of the database.
pub record Surroundings (S : Type 0) : Type 0 where
  pub now : ℕ
  pub later : ℕ
  pub processed_at : ℕ
  pub product_by_id : ℕ → Option Product
  pub contract_id : List ℕ
  pub answer : Option (List ℕ)
  pub reserve_aborts : ℕ → Option DatabaseError
  pub settle_aborts : ℕ → Option DatabaseError
  pub before_reserve : S → S
  pub before_settle : S → S
  pub gate_audit_fails : Bool
  pub claimed_audit_fails : Bool

-- How the call ends, with the database, the contract calls and what was announced, in order.
pub record Run (S : Type 0) : Type 0 where
  pub ending : Ending
  pub state : S
  pub calls : List ℕ
  pub events : List Event

-- The statuses of the duplicate guard.
abbrev pub is_processed : Claim → Bool
is_processed c =
    claim_status_eq c.status Rows.processing
    || claim_status_eq c.status Rows.paid
    || claim_status_eq c.status Rows.rejected

abbrev pub new_claim : ℕ → ℕ → Policy → Claim
new_claim id policy_id policy = record {
  id = id;
  policy_id = policy_id;
  claimant = policy.policyholder;
  coverage_amount = policy.coverage_xlm;
  payout_amount = none;
  trigger_met = false;
  status = Rows.processing;
  tx_hash = none;
  processed_at = none;
}

module _ (db : Database) where
  open db use {
    State, find_policy, claims_of, latest_reading, update_policies, fresh_id, create_claim, audit,
  }

  -- `readClaimEvaluationSnapshot`
  unfoldable pub read_snapshot : ℕ → State → Option (Policy × Option OracleReading)
  read_snapshot policy_id s = elim (find_policy policy_id s) [
    | none ↦ none
    | some policy ↦ some (policy, latest_reading policy.oracle_key s)
  ]

  -- The insert of the claim, after the gate.
  unfoldable pub insert_claim : ℕ → Policy → State → Callback State Reservation Failure
  insert_claim policy_id policy s =
      let claim = new_claim (fresh_id s) policy_id policy in
      elim (create_claim claim s) [
        | none ↦ rollback unique_violation
        | some t ↦ commit (reserved claim) t
      ]

  -- The callback of the reservation: duplicate guard, gate and claim.
  unfoldable pub reserve : ℕ → Policy → State → Callback State Reservation Failure
  unfolding insert_claim
  reserve policy_id policy s =
      let (gated, count) =
        update_policies policy_id (status_and_version active policy.version) (move_to processing)
          s in
      elim (find is_processed (claims_of policy_id s)) [
        | some existing ↦ commit (duplicate existing) s
        | none ↦ if count == 0 then commit lost_race gated else insert_claim policy_id policy gated
      ]

  abbrev pub quiet : Ending → State → Run State
  quiet ending s = record { ending = ending; state = s; calls = []; events = [] }

  -- A best-effort `auditLog.create(...).catch(...)`
  abbrev pub try_audit : Bool → ℕ → PolicyStatus → PolicyStatus → State → State
  try_audit fails policy_id from to s =
      if fails then s else audit (policy_audit policy_id from to) s

  abbrev pub gate_events : ℕ → List Event
  gate_events policy_id = policy_status_event policy_id processing ∷ invalidated policy_id ∷ []

  -- After a payout whose guard hit, the policy's transition is audited too.
  abbrev audit_claimed : Verdict → ℕ → Bool → ℕ → State → State
  audit_claimed (payout_confirmed tx_hash) count fails policy_id s =
      if count == 0 then s else try_audit fails policy_id processing claimed s
  audit_claimed verdict count fails policy_id s = s

  -- How the call ends once the last transaction has.
  abbrev pub finish :
      Result ℕ Failure → Verdict → ℕ → Claim → Surroundings State → State → Run State
  finish (aborted e) verdict policy_id claim env t = record {
    ending = thrown (database_failure e);
    state = t;
    calls = calls_of verdict policy_id;
    events = gate_events policy_id;
  }
  finish (threw f) verdict policy_id claim env t = record {
    ending = thrown f;
    state = t;
    calls = calls_of verdict policy_id;
    events = gate_events policy_id;
  }
  finish (ok count) verdict policy_id claim env t = record {
    ending = returned (result_of verdict);
    state = audit_claimed verdict count env.claimed_audit_fails policy_id t;
    calls = calls_of verdict policy_id;
    events = gate_events policy_id ++ events_of verdict count claim.id policy_id;
  }

  -- The writes of a verdict, as one transaction.
  unfoldable pub settlement : Verdict → ℕ → Policy → Claim → ℕ → State → Callback State ℕ Failure
  settlement verdict policy_id policy claim now s =
      let (v, count) = batch_of db verdict policy_id policy claim.id now s in commit count v

  -- The last transaction and what follows it.
  unfoldable pub settle : Verdict → ℕ → Policy → Claim → Surroundings State → State → Run State
  unfolding settlement
  settle not_configured policy_id policy claim env s = record {
    ending = thrown bad_gateway;
    state = s;
    calls = [];
    events = gate_events policy_id;
  }
  settle verdict policy_id policy claim env s =
      let (r, t) =
        financial_transaction env.settle_aborts
          (settlement verdict policy_id policy claim env.processed_at) s in
      finish r verdict policy_id claim env t

  -- What follows a reservation.
  unfoldable pub after_reservation :
      Reservation → ℕ → Policy → Option OracleReading → Surroundings State → State → Run State
  unfolding settle
  after_reservation (duplicate existing) policy_id policy reading env s =
      quiet (returned already_processed) s
  after_reservation lost_race policy_id policy reading env s = quiet (returned already_processed) s
  after_reservation (reserved claim) policy_id policy reading env s =
      settle (evaluate reading (env.product_by_id policy.product_id) env.contract_id env.answer)
        policy_id policy claim env
        (env.before_settle (try_audit env.gate_audit_fails policy_id active processing s))

  abbrev pub proceed :
      Result Reservation Failure
      → ℕ
      → Policy
      → Option OracleReading
      → Surroundings State
      → State
      → Run State
  proceed (aborted e) policy_id policy reading env t = quiet (thrown (database_failure e)) t
  proceed (threw f) policy_id policy reading env t = quiet (thrown f) t
  proceed (ok reservation) policy_id policy reading env t =
      after_reservation reservation policy_id policy reading env t

  unfoldable pub process_policy :
      ℕ → Policy → Option OracleReading → Surroundings State → State → Run State
  unfolding reserve after_reservation
  process_policy policy_id policy reading env s =
      let (r, t) =
        financial_transaction env.reserve_aborts (reserve policy_id policy)
          (env.before_reserve s) in
      proceed r policy_id policy reading env t

  unfoldable pub auto_process : ℕ → Surroundings State → State → Run State
  unfolding read_snapshot process_policy
  auto_process policy_id env s = elim (read_snapshot policy_id s) [
    | none ↦ quiet (returned policy_not_active) s
    | some (policy, reading) ↦ elim (early_return env.now env.later policy) [
      | some result ↦ quiet (returned result) s
      | none ↦ process_policy policy_id policy reading env s
    ]
  ]
