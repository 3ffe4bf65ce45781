-- ===== src/Claims/Rows.antt =====
-- The rows of prisma/schema.prisma that the claims flow reads and writes. Ids, wallets and oracle
-- keys are only compared, so they are numbers; a Decimal(20, 7) is its number of stroops, a DateTime
-- its milliseconds since the epoch, a transaction hash the list of its code units.
use parashield_backend.Base.{ℕ, Bool, Option, List, ◌==◌}
use parashield_backend.Base.Int.{ℤ}
use parashield_backend.Policy.Status.{PolicyStatus}

pub record Policy : Type 0 where
  pub id : ℕ
  pub product_id : ℕ
  pub policyholder : ℕ
  pub coverage_xlm : ℕ
  pub oracle_key : ℕ
  pub end_time : ℕ
  pub status : PolicyStatus
  pub version : ℕ

pub data ClaimStatus : Type 0 where
  pending processing paid rejected failed expired : ClaimStatus

abbrev index : ClaimStatus → ℕ
index pending = 0
index processing = 1
index paid = 2
index rejected = 3
index failed = 4
index expired = 5

abbrev pub claim_status_eq : ClaimStatus → ClaimStatus → Bool
claim_status_eq a b = index a == index b

pub record Claim : Type 0 where
  pub id : ℕ
  pub policy_id : ℕ
  pub claimant : ℕ
  pub coverage_amount : ℕ
  pub payout_amount : Option ℕ
  pub trigger_met : Bool
  pub status : ClaimStatus
  pub tx_hash : Option (List ℕ)
  pub processed_at : Option ℕ

pub record OracleReading : Type 0 where
  pub key : ℕ
  pub value : ℤ

-- What `getProductById` or the worker's map gives of a product.
pub record Product : Type 0 where
  pub id : ℕ
  -- `threshold`, a Decimal as text
  pub threshold : List ℕ
  -- `comparison === 'LessThan'`
  pub is_less_than : Bool
  pub coverage_max : ℕ

-- One row of AuditLog, with the statuses that it names.
pub data AuditEntry : Type 0 where
  claim_audit : ℕ → ClaimStatus → ClaimStatus → AuditEntry
  policy_audit : ℕ → PolicyStatus → PolicyStatus → AuditEntry
