-- ===== src/Claims/AutoProcess/Effects.antt =====
-- What each verdict of `autoProcess` (src/claims/claims.service.ts) writes in its last transaction, and
-- what it then announces and returns.
use parashield_backend.Base.{
  ℕ, ◌+◌, Bool, true, false, ◌&&◌, some, List, [], ◌∷◌, ◌==◌, if◌then◌else◌,
}
use parashield_backend.Policy.Status.{PolicyStatus, active, processing, claimed, status_eq}
use parashield_backend.Claims.Rows
use parashield_backend.Claims.Rows.{
  Policy, Claim, ClaimStatus, AuditEntry, claim_audit, policy_audit,
}
use parashield_backend.Claims.Database.{Database}
use parashield_backend.Claims.AutoProcess.Evaluate.{
  Verdict, no_reading, no_product, bad_threshold, not_triggered, not_configured, payout_failed,
  payout_confirmed, ClaimResult,
}

-- `status`, `version: { increment: 1 }` of every guarded policy write.
abbrev pub move_to : PolicyStatus → Policy → Policy
move_to status policy = record policy { status = status; version = policy.version + 1 }

-- The `where` of a policy write: the expected status and version.
abbrev pub status_and_version : PolicyStatus → ℕ → Policy → Bool
status_and_version status version policy =
    status_eq policy.status status && policy.version == version

-- `{ status, processedAt }` and the data of a confirmed payout.
abbrev pub close_claim : ClaimStatus → ℕ → Claim → Claim
close_claim status now claim = record claim { status = status; processed_at = some now }

abbrev pub reject_claim : ℕ → Claim → Claim
reject_claim now claim = record claim {
  trigger_met = false;
  status = Rows.rejected;
  processed_at = some now;
}

abbrev pub pay_claim : List ℕ → ℕ → ℕ → Claim → Claim
pay_claim tx_hash coverage now claim = record claim {
  payout_amount = some coverage;
  trigger_met = true;
  status = Rows.paid;
  tx_hash = some tx_hash;
  processed_at = some now;
}

-- What listeners hear: the policy's status, the claim's change by webhook and by event, and the
-- dropped cache entry.
pub data Event : Type 0 where
  policy_status_event : ℕ → PolicyStatus → Event
  claim_webhook claim_status_event : ℕ → ClaimStatus → ClaimStatus → Event
  invalidated : ℕ → Event

abbrev pub claim_events : ℕ → ClaimStatus → ℕ → List Event
claim_events claim_id to policy_id =
    claim_webhook claim_id Rows.processing to
    ∷ claim_status_event claim_id Rows.processing to
    ∷ invalidated policy_id
    ∷ []

module _ (db : Database) where
  open db use {State, update_policies, update_claim, audit}

  -- A claim that ends as REJECTED; the policy is left in PROCESSING.
  unfoldable pub reject_batch : (Claim → Claim) → ℕ → State → State
  reject_batch change claim_id s =
      audit (claim_audit claim_id Rows.processing Rows.rejected) (update_claim claim_id change s)

  -- A claim that ends as FAILED; the policy goes back to ACTIVE if it is still the gated one.
  unfoldable pub fail_batch : ℕ → ℕ → ℕ → ℕ → State → State
  fail_batch policy_id gated_version claim_id now s =
      let s1 = update_claim claim_id (close_claim Rows.failed now) s in
      let s2 =
        (update_policies policy_id (status_and_version processing gated_version) (move_to active)
          s1).0 in
      audit (policy_audit policy_id processing active)
        (audit (claim_audit claim_id Rows.processing Rows.failed) s2)

  -- A confirmed payout, with the count of the policy's guarded write.
  unfoldable pub pay_batch : ℕ → ℕ → ℕ → ℕ → List ℕ → ℕ → State → State × ℕ
  pay_batch policy_id gated_version coverage claim_id tx_hash now s =
      let s1 = update_claim claim_id (pay_claim tx_hash coverage now) s in
      let (s2, count) =
        update_policies policy_id (status_and_version processing gated_version) (move_to claimed)
          s1 in
      (audit (claim_audit claim_id Rows.processing Rows.paid) s2, count)

  -- The batch of each verdict; the count matters for a payout alone. `not_configured` writes nothing.
  unfoldable pub batch_of : Verdict → ℕ → Policy → ℕ → ℕ → State → State × ℕ
  unfolding reject_batch fail_batch pay_batch
  batch_of no_reading policy_id policy claim_id now s =
      (reject_batch (close_claim Rows.rejected now) claim_id s, 1)
  batch_of no_product policy_id policy claim_id now s =
      (fail_batch policy_id (policy.version + 1) claim_id now s, 1)
  batch_of bad_threshold policy_id policy claim_id now s =
      (fail_batch policy_id (policy.version + 1) claim_id now s, 1)
  batch_of not_triggered policy_id policy claim_id now s =
      (reject_batch (reject_claim now) claim_id s, 1)
  batch_of not_configured policy_id policy claim_id now s = (s, 1)
  batch_of payout_failed policy_id policy claim_id now s =
      (fail_batch policy_id (policy.version + 1) claim_id now s, 1)
  batch_of (payout_confirmed tx_hash) policy_id policy claim_id now s =
      pay_batch policy_id (policy.version + 1) policy.coverage_xlm claim_id tx_hash now s

-- What is announced after the batch has committed. A payout whose guard missed is only logged.
unfoldable pub events_of : Verdict → ℕ → ℕ → ℕ → List Event
events_of no_reading count claim_id policy_id = claim_events claim_id Rows.rejected policy_id
events_of not_triggered count claim_id policy_id = claim_events claim_id Rows.rejected policy_id
events_of not_configured count claim_id policy_id = []
events_of (payout_confirmed tx_hash) count claim_id policy_id =
    if count == 0
    then []
    else policy_status_event policy_id claimed ∷ claim_events claim_id Rows.paid policy_id
events_of verdict count claim_id policy_id =
    policy_status_event policy_id active ∷ claim_events claim_id Rows.failed policy_id

abbrev pub result_of : Verdict → ClaimResult
result_of (payout_confirmed tx_hash) = ClaimResult.paid
result_of verdict = ClaimResult.rejected

-- The calls of `process_claim` on the chain.
abbrev pub calls_of : Verdict → ℕ → List ℕ
calls_of (payout_confirmed tx_hash) policy_id = policy_id ∷ []
calls_of payout_failed policy_id = policy_id ∷ []
calls_of verdict policy_id = []
