-- ===== src/Claims/AutoProcess/Evaluate.antt =====
-- The decisions of `autoProcess` (src/claims/claims.service.ts) that write nothing: the checks before
-- the reservation, and the evaluation of the trigger after it.
use parashield_backend.Base.{
  ℕ, Bool, false, not, ◌&&◌, ◌||◌, Option, none, some, List, [], ◌∷◌, length, all, leb, ltb, ◌==◌,
  if◌then◌else◌,
}
use parashield_backend.Decimal.{
  Comparison, less_than, other_comparison, str, parse_decimal_scaled, compare_scaled_to_threshold,
}
use parashield_backend.Policy.Status.{active, status_eq}
use parashield_backend.Claims.Rows.{Policy, OracleReading, Product}

pub data ClaimResult : Type 0 where
  paid rejected expired already_processed policy_not_active pending_final_period : ClaimResult

-- The returns before the reservation; `none` goes on. `now` and `later` are the two `new Date()`.
unfoldable pub early_return : ℕ → ℕ → Policy → Option ClaimResult
early_return now later policy =
    if not (status_eq policy.status active)
    then some policy_not_active
    else if ltb policy.end_time now
    then some expired
    else if ltb later policy.end_time
    then some pending_final_period
    else none

-- `/^C[A-Z2-7]{55}$/`
unfoldable pub is_contract_id : List ℕ → Bool
is_contract_id [] = false
is_contract_id (c ∷ cs) =
    c == b'C'
    && length cs == 55
    && all (λ d. leb b'A' d && leb d b'Z' || leb b'2' d && leb d b'7') cs

-- `/^[0-9a-fA-F]{64}$/`
unfoldable pub is_transaction_hash : List ℕ → Bool
is_transaction_hash s =
    length s == 64
    && all (λ d. leb b'0' d && leb d b'9' || leb b'a' d && leb d b'f' || leb b'A' d && leb d b'F') s

-- How the evaluation of a reserved claim ends.
pub data Verdict : Type 0 where
  no_reading no_product bad_threshold not_triggered not_configured payout_failed : Verdict
  payout_confirmed : List ℕ → Verdict

abbrev pub comparison_of : Product → Comparison
comparison_of product = if product.is_less_than then less_than else other_comparison

-- The payout; `answer` is what `invokeContract` gives, `none` being an exception.
unfoldable pub pay : List ℕ → Option (List ℕ) → Verdict
pay contract_id none = if is_contract_id contract_id then payout_failed else not_configured
pay contract_id (some tx_hash) =
    if not (is_contract_id contract_id)
    then not_configured
    else if is_transaction_hash tx_hash
    then payout_confirmed tx_hash
    else payout_failed

-- The trigger; `none` is an unreadable threshold. A stored reading is a bigint, which is read as it is.
unfoldable pub trigger_met : OracleReading → Product → Option Bool
trigger_met reading product = elim (parse_decimal_scaled (str product.threshold) 7) [
  | none ↦ none
  | some threshold ↦
      some (compare_scaled_to_threshold reading.value threshold (comparison_of product))
]

unfoldable pub evaluate : Option OracleReading → Option Product → List ℕ → Option (List ℕ) → Verdict
unfolding trigger_met
evaluate none product contract_id answer = no_reading
evaluate (some reading) none contract_id answer = no_product
evaluate (some reading) (some product) contract_id answer = elim (trigger_met reading product) [
  | none ↦ bad_threshold
  | some met ↦ if met then pay contract_id answer else not_triggered
]
