-- ===== src/Claims/Recovery.antt =====
-- `recoverStuckProcessingPolicies` of src/claims/claims.service.ts. The rows that its scan returned are
-- an argument, each with the claims that the scan read.
pub mod Rules
pub mod Outcomes
use parashield_backend.Base.{
  ℕ, zero, suc, ◌+◌, ◌-◌, ◌*◌, Bool, true, false, ◌&&◌, Option, none, some, List, [], ◌∷◌, ◌++◌,
  map, any, keep, length, ltb, ◌==◌, if◌then◌else◌,
}
use parashield_backend.Base.Int.{ℤ, pos, negsuc}
use parashield_backend.Policy.Status.{PolicyStatus, active, processing, claimed, status_eq}
use parashield_backend.Claims.Rows
use parashield_backend.Claims.Rows.{
  Policy, Claim, claim_status_eq, AuditEntry, claim_audit, policy_audit,
}
use parashield_backend.Claims.Database.{Database}
use parashield_backend.Claims.Transaction.{
  DatabaseError, Callback, commit, Result, ok, aborted, threw, financial_transaction,
}
use parashield_backend.Claims.AutoProcess.Effects.{
  move_to, close_claim, Event, policy_status_event, invalidated, claim_webhook, claim_status_event,
}

-- What a scan returns of a policy.
pub record Stuck : Type 0 where
  pub id : ℕ
  pub claims : List Claim

-- `parseInt(...)`, where `none` is NaN, with the default
abbrev pub stuck_minutes : Option ℤ → ℕ
stuck_minutes (some (pos (suc n))) = suc n
stuck_minutes configured = 30

-- A cutoff before the epoch is the epoch: no row is older than either.
abbrev pub cutoff_of : Option ℤ → ℕ → ℕ
cutoff_of configured now = now - stuck_minutes configured * 60 * 1000

abbrev pub is_paid : Claim → Bool
is_paid c = claim_status_eq c.status Rows.paid

abbrev pub is_in_flight : Claim → Bool
is_in_flight c = claim_status_eq c.status Rows.processing

-- `c.txHash` is truthy
abbrev pub has_hash : Claim → Bool
has_hash c = elim c.tx_hash [ none ↦ false | some h ↦ ltb 0 (length h) ]

-- How one row counts in the summary.
pub data Outcome : Type 0 where
  marked_claimed needs_manual_review reverted_to_active skipped : Outcome

pub record StuckPolicyRecoverySummary : Type 0 where
  pub scanned : ℕ
  pub reverted : ℕ
  pub claimed_count : ℕ
  pub manual : ℕ
  pub skips : ℕ

abbrev pub empty_summary : StuckPolicyRecoverySummary
empty_summary = record { scanned = 0; reverted = 0; claimed_count = 0; manual = 0; skips = 0 }

abbrev pub tally : Outcome → StuckPolicyRecoverySummary → StuckPolicyRecoverySummary
tally marked_claimed s = record s { scanned = s.scanned + 1; claimed_count = s.claimed_count + 1 }
tally needs_manual_review s = record s { scanned = s.scanned + 1; manual = s.manual + 1 }
tally reverted_to_active s = record s { scanned = s.scanned + 1; reverted = s.reverted + 1 }
tally skipped s = record s { scanned = s.scanned + 1; skips = s.skips + 1 }

-- How the database treats the writes for one row.
pub record Conditions : Type 0 where
  pub write_fails : Bool
  pub audit_fails : Bool
  pub aborts : ℕ → Option DatabaseError

abbrev pub fail_if_processing : ℕ → Claim → Claim
fail_if_processing now c = if is_in_flight c then close_claim Rows.failed now c else c

abbrev pub failed_events : List Claim → List Event
failed_events [] = []
failed_events (c ∷ cs) =
    claim_webhook c.id Rows.processing Rows.failed
    ∷ claim_status_event c.id Rows.processing Rows.failed
    ∷ failed_events cs

module _ (db : Database) where
  open db use {State, update_policies, update_claim, audit, updated_at}

  -- `updateMany({ where: guard, ... })`
  unfoldable pub guarded_write : ℕ → ℕ → PolicyStatus → State → State × ℕ
  guarded_write cutoff id status s =
      if ltb (updated_at id s) cutoff
      then update_policies id (λ p. status_eq p.status processing) (move_to status) s
      else (s, 0)

  -- claim.updateMany over the ids of the claims in flight
  unfoldable pub fail_claims : ℕ → List Claim → State → State
  fail_claims now [] s = s
  fail_claims now (c ∷ cs) s = fail_claims now cs (update_claim c.id (fail_if_processing now) s)

  unfoldable pub audit_all : List AuditEntry → State → State
  audit_all [] s = s
  audit_all (e ∷ es) s = audit_all es (audit e s)

  abbrev pub recovery_audits : ℕ → List Claim → List AuditEntry
  recovery_audits id in_flight =
      map (λ c. claim_audit c.id Rows.processing Rows.failed) in_flight
      ++ policy_audit id processing active ∷ []

  -- The transaction of the last case; `false` is a guard that missed.
  unfoldable pub revert : ℕ → ℕ → ℕ → List Claim → State → Callback State Bool Unit
  unfolding guarded_write fail_claims audit_all
  revert now cutoff id in_flight s =
      let (t, count) = guarded_write cutoff id active s in
      if count == 0
      then commit false t
      else commit true (audit_all (recovery_audits id in_flight) (fail_claims now in_flight t))

  unfoldable pub mark_claimed : ℕ → ℕ → Conditions → State → Outcome × State × List Event
  unfolding guarded_write
  mark_claimed cutoff id env s =
      let (t, count) = guarded_write cutoff id claimed s in
      if env.write_fails then (skipped, s, []) else if count == 0 then (skipped, t, []) else (
        marked_claimed,
        (if env.audit_fails then t else audit (policy_audit id processing claimed) t),
        policy_status_event id claimed ∷ invalidated id ∷ [],
      )

  abbrev pub after_revert : Result Bool Unit → ℕ → List Claim → State → Outcome × State × List Event
  after_revert (ok true) id in_flight t = (
    reverted_to_active,
    t,
    policy_status_event id active ∷ invalidated id ∷ failed_events in_flight,
  )
  after_revert r id in_flight t = (skipped, t, [])

  -- One row of the loop.
  unfoldable pub recover : ℕ → ℕ → Conditions → Stuck → State → Outcome × State × List Event
  unfolding mark_claimed revert
  recover now cutoff env stuck s =
      let in_flight = keep is_in_flight stuck.claims in
      let (r, t) = financial_transaction env.aborts (revert now cutoff stuck.id in_flight) s in
      if any is_paid stuck.claims
      then mark_claimed cutoff stuck.id env s
      else if any has_hash in_flight
      then (needs_manual_review, s, [])
      else after_revert r stuck.id in_flight t

  -- The loop, and its summary with `scanned`, `revertedToActive`, `markedClaimed`,
  -- `needsManualReview` and `skipped`. Every row meets its own conditions.
  unfoldable pub recover_rows :
      ℕ → ℕ → List (Stuck × Conditions) → State → StuckPolicyRecoverySummary × State
  unfolding recover
  recover_rows now cutoff [] s = (empty_summary, s)
  recover_rows now cutoff ((stuck, env) ∷ rows) s =
      let (outcome, t, events) = recover now cutoff env stuck s in
      let (summary, u) = recover_rows now cutoff rows t in (tally outcome summary, u)

  unfoldable pub recover_stuck_processing_policies :
      ℕ → Option ℤ → List (Stuck × Conditions) → State → StuckPolicyRecoverySummary × State
  unfolding recover_rows
  recover_stuck_processing_policies now configured rows s =
      recover_rows now (cutoff_of configured now) rows s
