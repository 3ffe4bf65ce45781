-- ===== src/Lib.antt =====
-- The parametric-insurance backend of Parashield: policies pay out when an oracle reading passes a
-- threshold. This library models the parts of src/ that decide and record payouts, with the arithmetic
-- and the guards that they stand on.
--
-- Parts, and how they interact:
--   * Decimal models src/common/utils/decimal.ts and formatStroops of src/policy/policy.service.ts:
--     Digits and Text the string functions, Parse parseDecimalScaled (with toPlainDecimalString and
--     expandExponent), parseFixedPointBigInt, compareScaledToThreshold and evaluateThreshold, Amount
--     formatStroops. Print, Plain, RoundTrip and Trigger hold the lemmas.
--   * Policy models src/policy/policy-status.machine.ts (Status) and, of src/policy/policy.service.ts
--     and src/policy/premium-rate-versioning.ts, premiums, refunds and rate versions (Premium),
--     validateOracleKey, validateCoverage, getProductById and createPolicy (Purchase, Period), cancelPolicy and
--     updatePolicy (Amend) and confirmAndCreatePolicy (Confirm), with validateAccountAddress,
--     validateTransactionSource (Account) and simulateAssembleAndSend of
--     src/stellar/stellar.service.ts.
--   * Oracle models, of src/oracle/oracle.service.ts, one reading with its bucket, bounds and
--     screening (Reading), the rows (Table), persistReading and flushBuffer (Buffer) and the claims of
--     submissions (OnChain); KeyFormat the regular expressions of keys, Worker processKey of
--     src/oracle/oracle.worker.ts.
--   * Breaker models the class CircuitBreaker of src/oracle/oracle.service.ts, Horizon
--     src/stellar/horizon-resilience.ts with callHorizon of src/stellar/stellar.service.ts, and Invoke
--     its invokeContract and waitForTransaction, with the undeclared `validMemo` as undefined.
--   * Precision models src/common/middleware/usdc-precision-validation.middleware.ts on JSON bodies;
--     Amounts and Exact relate the amounts that it lets through to Decimal.
--   * Ssrf models src/common/webhooks/ssrf.validator.ts; Ranges and Dotted compare its tests with
--     blocks of addresses, Mapped is about IPv4-mapped ones.
--   * Lock models src/redis/distributed-lock.service.ts with its two Lua scripts.
--   * Claims models src/claims: Rows the columns that are used, Database what is relied on of Prisma
--     and PostgreSQL, Transaction src/prisma/financial-transaction.ts, AutoProcess autoProcess of
--     src/claims/claims.service.ts with src/claims/claim-evaluation-snapshot.ts (Evaluate its
--     decisions, Effects what each verdict writes and announces), Worker the step of
--     src/claims/claims.worker.ts for one policy, Recovery recoverStuckProcessingPolicies and Submit
--     submitClaim of src/claims/claims.service.ts, Evidence src/claims/evidence-validation.ts,
--     StateCache src/claims/policy-state-cache.service.ts.
--     Evolution says what other processes can commit; Gate, Verdicts, Settling, Payout, Progress,
--     Outcome, Rules, Outcomes, Guards, Calls, Evaluation, Staleness, Accepted, Attempts and Retries
--     hold the lemmas.
-- A policy is bought for an oracle key, the oracle worker stores the key's readings and submits them,
-- and the claims worker pays on them. autoProcess reads a snapshot, reserves the policy in one
-- transaction, evaluates the trigger with Decimal, calls the contract and settles in a last transaction; the worker then writes EXPIRED. Tests
-- applies each result to concrete inputs, over a database and a Redis in memory.
--
-- State is passed explicitly. An exception is a result of its own type, a clock reading, a random
-- token or the answer of another service is an argument. An awaited call that others can overtake is
-- two steps, or has the others' writes as an argument (Surroundings, Foreign, Evolves); but a lookup
-- of the policy state cache has Redis's answer within one step, and nothing is committed between the
-- attempts of one transaction.
--
-- Bounds and fuel: amounts, identifiers and milliseconds are natural numbers or integers of any size,
-- as BigInt is. The premium is below 2 ^ 53, so that Number holds it exactly. The retry loops
-- recur on the attempts that are left: three for a transaction, an invocation and a send, the given
-- maximum for Horizon. waitForTransaction recurs on the polls that its 60 seconds leave, any number.
-- The flush of the buffer is a machine with a step for each answer of the database, and Drain bounds
-- the answers that it needs.
--
-- Not modelled: of the policy service the catalogue and the queries, of the oracle service
-- the fetches, which compute with floating-point numbers, and the cache of readings, and of the policy
-- state cache what it sends to Redis; HTTP routing, authentication, webhooks' delivery, secrets,
-- telemetry and logging; the SDKs of Stellar, Prisma and Redis, whose documented behaviour is the laws
-- of Claims.Database, Oracle.Table and Lock.Redis. Delays between retries and between
-- contract calls take time only, and the worker's ten keys at a time are one after another.
pub mod Base
pub mod Decimal
pub mod Policy
pub mod Precision
pub mod Ssrf
pub mod Breaker
pub mod Horizon
pub mod Invoke
pub mod Claims
pub mod Lock
pub mod Oracle
pub mod Tests
