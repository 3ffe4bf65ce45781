-- ===== src/Tests.antt =====
-- Witnesses: each property at concrete inputs, with a database in memory for the claims flow.
mod Memory
mod Policy
mod Decimal
mod Breakers
mod Claims
mod Lock
mod Evidence
mod Recovery
mod Submit
mod StateCache
mod Oracle
mod Invoke
mod Purchase
mod Amend
mod Precision
mod Ssrf
