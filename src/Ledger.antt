-- ===== src/Ledger.antt =====
-- The token ledger of one attempt: simple_coding_agent/token_ledger.py.
pub mod Usage
pub mod Types
pub mod Readings
pub mod Settling
pub mod Sums
pub mod Counting
pub mod Valid
pub mod Preserved
pub mod Runs
pub mod Neutral
pub mod Partition
pub mod Done
pub mod Keeping
pub mod Lasting
pub mod Reported
pub mod Cache
pub mod Events
pub mod Reconciling
