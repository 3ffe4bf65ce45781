-- ===== src/Claims.antt =====
-- src/claims, with the database and the transactions that it works on.
pub mod Rows
pub mod Database
pub mod Transaction
pub mod AutoProcess
pub mod Evolution
pub mod Worker
pub mod Recovery
pub mod Submit
pub mod StateCache
pub mod Evidence
