-- ===== src/Claims/Submit.antt =====
-- `submitClaim` of src/claims/claims.service.ts. As for autoProcess, the clock, the product, the
-- contract and the writes that other processes commit in between are arguments.
pub mod Guards
pub mod Calls
use parashield_backend.Base.{
  ℕ, zero, suc, ◌+◌, Bool, true, false, not, ◌&&◌, ◌||◌, Option, none, some, List, [], ◌∷◌, ◌++◌,
  all, any, take, drop, length, ltb, leb, ◌==◌, if◌then◌else◌,
}
use parashield_backend.Policy.Status.{active, status_eq}
use parashield_backend.Claims.Rows
use parashield_backend.Claims.Rows.{
  Policy, Claim, ClaimStatus, claim_status_eq, Product, claim_audit,
}
use parashield_backend.Claims.Database.{Database}
use parashield_backend.Claims.Transaction.{
  DatabaseError, known_request_error, is_serialization_failure, Callback, commit, rollback, Result,
  ok, aborted, threw, financial_transaction,
}
use parashield_backend.Claims.AutoProcess.Evaluate.{is_contract_id}
use parashield_backend.Claims.AutoProcess.Effects.{
  close_claim, Event, claim_webhook, claim_status_event, invalidated,
}

-- What the caller is told instead of a claim id.
pub data SubmitError : Type 0 where
  invalid_uuid policy_not_found policy_not_owned policy_not_active policy_expired : SubmitError
  product_not_found over_limit already_exists bad_gateway concurrent_modification : SubmitError
  other_failure : DatabaseError → SubmitError

abbrev is_hex : ℕ → Bool
is_hex c = leb b'0' c && leb c b'9' || leb b'a' c && leb c b'f' || leb b'A' c && leb c b'F'

-- Groups of hexadecimal digits of these lengths, with dashes between them.
unfoldable pub is_grouped : ℕ → List ℕ → List ℕ → Bool
is_grouped n [] text = length text == n && all is_hex text
is_grouped n (m ∷ ms) text =
    let rest = is_grouped m ms (drop 1 (drop n text)) in
    length (take n text) == n
    && all is_hex (take n text)
    && any (λ c. c == b'-') (take 1 (drop n text))
    && rest

-- UUID_PATTERN
unfoldable pub is_uuid : List ℕ → Bool
unfolding is_grouped
is_uuid text = is_grouped 8 (4 ∷ 4 ∷ 4 ∷ 12 ∷ []) text

-- What one call meets, over the states S of the database.
pub record SubmitSurroundings (S : Type 0) : Type 0 where
  pub policy_text : List ℕ
  pub now : ℕ
  pub processed_at : ℕ
  pub product_by_id : ℕ → Option Product
  pub contract_id : List ℕ
  pub answer : Option (List ℕ)
  pub insert_aborts : ℕ → Option DatabaseError
  pub sent_aborts : ℕ → Option DatabaseError
  pub failed_aborts : ℕ → Option DatabaseError
  pub before_probe : S → S
  pub before_insert : S → S
  pub before_sent : S → S

abbrev pub over_coverage : Policy → Option Product → Option SubmitError
over_coverage policy none = some product_not_found
over_coverage policy (some product) =
    if ltb product.coverage_max policy.coverage_xlm then some over_limit else none

-- The checks on the policy that was read, up to the coverage limit; `none` goes on.
unfoldable pub check_policy : ℕ → ℕ → Policy → Option Product → Option SubmitError
check_policy claimant now policy product =
    if not (policy.policyholder == claimant)
    then some policy_not_owned
    else if not (status_eq policy.status active)
    then some policy_not_active
    else if ltb policy.end_time now
    then some policy_expired
    else over_coverage policy product

-- The statuses of the duplicate guard.
abbrev pub is_open_or_paid : Claim → Bool
is_open_or_paid c =
    claim_status_eq c.status Rows.paid
    || claim_status_eq c.status Rows.processing
    || claim_status_eq c.status Rows.pending

abbrev pub submitted_claim : ℕ → ℕ → ℕ → Policy → Claim
submitted_claim id policy_id claimant policy = record {
  id = id;
  policy_id = policy_id;
  claimant = claimant;
  coverage_amount = policy.coverage_xlm;
  payout_amount = none;
  trigger_met = false;
  status = Rows.pending;
  tx_hash = none;
  processed_at = none;
}

abbrev pub send_claim : List ℕ → Claim → Claim
send_claim tx_hash c = record c { status = Rows.processing; tx_hash = some tx_hash }

abbrev pub moved_events : ℕ → ClaimStatus → ℕ → List Event
moved_events claim_id to policy_id =
    claim_webhook claim_id Rows.pending to
    ∷ claim_status_event claim_id Rows.pending to
    ∷ invalidated policy_id
    ∷ []

-- A call's end: a claim id, or what it throws, with the database, the contract calls and the events.
pub data SubmitEnding : Type 0 where
  returned : ℕ → SubmitEnding
  thrown : SubmitError → SubmitEnding

pub record SubmitRun (S : Type 0) : Type 0 where
  pub ending : SubmitEnding
  pub state : S
  pub calls : List ℕ
  pub events : List Event

-- What a failed insert is reported as: P2002, a conflict after every retry, or the error itself.
abbrev pub is_p2002 : DatabaseError → Bool
is_p2002 (known_request_error code mentions) = code == 2002
is_p2002 e = false

unfoldable pub report : DatabaseError → SubmitError
report e =
    if is_p2002 e
    then already_exists
    else if is_serialization_failure e
    then concurrent_modification
    else other_failure e

module _ (db : Database) where
  open db use {State, find_policy, claims_of, fresh_id, create_claim, update_claim, audit}

  abbrev pub quiet : SubmitEnding → State → SubmitRun State
  quiet ending s = record { ending = ending; state = s; calls = []; events = [] }

  unfoldable pub create_pending : ℕ → ℕ → Policy → State → Callback State Claim SubmitError
  create_pending claimant policy_id policy s =
      let claim = submitted_claim (fresh_id s) policy_id claimant policy in
      elim (create_claim claim s) [ none ↦ rollback already_exists | some t ↦ commit claim t ]

  abbrev pub is_current : Policy → Option Policy → Bool
  is_current policy none = false
  is_current policy (some current) =
      status_eq current.status active && current.version == policy.version

  -- The callback of the insert: optimistic lock, duplicate guard and claim.
  unfoldable pub insert_pending : ℕ → ℕ → Policy → State → Callback State Claim SubmitError
  unfolding create_pending
  insert_pending claimant policy_id policy s =
      if not (is_current policy (find_policy policy_id s))
      then rollback concurrent_modification
      else if any is_open_or_paid (claims_of policy_id s)
      then rollback already_exists
      else create_pending claimant policy_id policy s

  unfoldable pub sent_batch : ℕ → List ℕ → State → State
  sent_batch claim_id tx_hash s =
      audit (claim_audit claim_id Rows.pending Rows.processing)
        (update_claim claim_id (send_claim tx_hash) s)

  unfoldable pub failed_batch : ℕ → ℕ → State → State
  failed_batch claim_id now s =
      audit (claim_audit claim_id Rows.pending Rows.failed)
        (update_claim claim_id (close_claim Rows.failed now) s)

  abbrev pub after_failed : Result Unit SubmitError → ℕ → ℕ → State → SubmitRun State
  after_failed (ok u) policy_id claim_id t = record {
    ending = returned claim_id;
    state = t;
    calls = claim_id ∷ [];
    events = invalidated policy_id ∷ moved_events claim_id Rows.failed policy_id;
  }
  after_failed (threw e) policy_id claim_id t = record (quiet (thrown e) t) {
    calls = claim_id ∷ [];
    events = invalidated policy_id ∷ [];
  }
  after_failed (aborted e) policy_id claim_id t = record (quiet (thrown (other_failure e)) t) {
    calls = claim_id ∷ [];
    events = invalidated policy_id ∷ [];
  }

  -- The `catch`: of the contract's exception, and of a failed write of its success.
  unfoldable pub submission_failed : ℕ → ℕ → SubmitSurroundings State → State → SubmitRun State
  unfolding failed_batch
  submission_failed policy_id claim_id env s =
      let (r, t) =
        financial_transaction {A = Unit} {E = SubmitError} env.failed_aborts
          (λ u. commit tt (failed_batch claim_id env.processed_at u)) s in
      after_failed r policy_id claim_id t

  abbrev pub after_sent :
      Result Unit SubmitError → ℕ → ℕ → SubmitSurroundings State → State → SubmitRun State
  after_sent (ok u) policy_id claim_id env t = record {
    ending = returned claim_id;
    state = t;
    calls = claim_id ∷ [];
    events = invalidated policy_id ∷ moved_events claim_id Rows.processing policy_id;
  }
  after_sent r policy_id claim_id env t = submission_failed policy_id claim_id env t

  -- The call of the contract and what follows.
  unfoldable pub send : ℕ → ℕ → Option (List ℕ) → SubmitSurroundings State → State → SubmitRun State
  unfolding sent_batch submission_failed
  send policy_id claim_id none env s = submission_failed policy_id claim_id env s
  send policy_id claim_id (some tx_hash) env s =
      let (r, t) =
        financial_transaction {A = Unit} {E = SubmitError} env.sent_aborts
          (λ u. commit tt (sent_batch claim_id tx_hash u)) s in
      after_sent r policy_id claim_id env t

  abbrev pub after_insert :
      Result Claim SubmitError → ℕ → SubmitSurroundings State → State → SubmitRun State
  after_insert (ok claim) policy_id env t =
      send policy_id claim.id env.answer env (env.before_sent t)
  after_insert (threw e) policy_id env t = quiet (thrown e) t
  after_insert (aborted e) policy_id env t = quiet (thrown (report e)) t

  unfoldable pub insert_and_send :
      ℕ → ℕ → Policy → SubmitSurroundings State → State → SubmitRun State
  unfolding insert_pending send report
  insert_and_send claimant policy_id policy env s =
      let (r, t) =
        financial_transaction env.insert_aborts (insert_pending claimant policy_id policy)
          (env.before_insert s) in
      if any is_open_or_paid (claims_of policy_id s)
      then quiet (thrown already_exists) s
      else if not (is_contract_id env.contract_id)
      then quiet (thrown bad_gateway) s
      else after_insert r policy_id env t

  unfoldable pub submit_claim : ℕ → ℕ → SubmitSurroundings State → State → SubmitRun State
  unfolding insert_and_send check_policy is_uuid
  submit_claim claimant policy_id env s =
      if not (is_uuid env.policy_text)
      then quiet (thrown invalid_uuid) s
      else elim (find_policy policy_id s) [
        | none ↦ quiet (thrown policy_not_found) s
        | some policy ↦
            elim (check_policy claimant env.now policy (env.product_by_id policy.product_id)) [
              | some e ↦ quiet (thrown e) s
              | none ↦ insert_and_send claimant policy_id policy env (env.before_probe s)
            ]
      ]
