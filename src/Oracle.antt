-- ===== src/Oracle.antt =====
-- src/oracle/: the readings of the oracle, their buffer and their rows.
pub mod Reading
pub mod Table
pub mod Buffer
pub mod OnChain
pub mod KeyFormat
pub mod Worker
