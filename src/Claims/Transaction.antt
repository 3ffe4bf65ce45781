-- ===== src/Claims/Transaction.antt =====
-- src/prisma/financial-transaction.ts. The database may abort an attempt; what it does on each is an
-- argument. An aborted attempt or a callback that throws leaves the state as it was.
pub mod Attempts
pub mod Retries
use parashield_backend.Base.{
  ℕ, zero, suc, ◌+◌, Bool, true, false, not, ◌&&◌, ◌||◌, Option, none, some, leb, ◌==◌,
  if◌then◌else◌,
}

-- `err` by its class: a known request error with its code, P2034 being 2034, and whether its message
-- names a serialization failure.
pub data DatabaseError : Type 0 where
  known_request_error : ℕ → Bool → DatabaseError
  unknown_request_error : Bool → DatabaseError
  other_error : DatabaseError

unfoldable pub is_serialization_failure : DatabaseError → Bool
is_serialization_failure (known_request_error code mentions) =
    code == 2034 || code == 2010 && mentions
is_serialization_failure (unknown_request_error mentions) = mentions
is_serialization_failure other_error = false

abbrev pub financial_tx_max_attempts : ℕ
financial_tx_max_attempts = 3

-- How the callback of a transaction ends: it commits with a value, or throws and rolls back.
pub data Callback (S A E : Type 0) : Type 0 where
  commit : A → S → Callback S A E
  rollback : E → Callback S A E

pub data Result (A E : Type 0) : Type 0 where
  ok : A → Result A E
  aborted : DatabaseError → Result A E
  threw : E → Result A E

module _ {S A E : Type 0} where
  -- The loop of `withSerializationRetry` from `attempt` on, with the attempts left after it, and the
  -- number of attempts made.
  unfoldable pub retry_from :
      ℕ → ℕ → (ℕ → Option DatabaseError) → (S → Callback S A E) → S → Result A E × S × ℕ
  retry_from zero attempt aborts run s = elim (aborts attempt) [
    | some e ↦ (aborted e, s, attempt)
    | none ↦ elim (run s) [ commit a t ↦ (ok a, t, attempt) | rollback e ↦ (threw e, s, attempt) ]
  ]
  retry_from (suc left) attempt aborts run s =
      let again = retry_from left (attempt + 1) aborts run s in
      elim (aborts attempt) [
        | some e ↦ if not (is_serialization_failure e) then (aborted e, s, attempt) else again
        | none ↦ elim (run s) [
          | commit a t ↦ (ok a, t, attempt)
          | rollback e ↦ (threw e, s, attempt)
        ]
      ]

  -- `financialTransaction`, and `financialBatch` for a callback that only writes
  unfoldable pub financial_transaction :
      (ℕ → Option DatabaseError) → (S → Callback S A E) → S → Result A E × S
  unfolding retry_from
  financial_transaction aborts run s = let (r, t, n) = retry_from 2 1 aborts run s in (r, t)
