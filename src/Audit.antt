-- ===== src/Audit.antt =====
-- internal/audit: the ledger of chained records, its signed checkpoint and its recent records.
pub mod Lines
pub mod Ledger
pub mod Operations
pub mod Chain
pub mod Extension
pub mod Visits
pub mod Tamper
pub mod Signed
pub mod Recent
mod Runs
