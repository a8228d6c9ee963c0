-- ===== src/Finalization.antt =====
-- The completion boundary of an attempt: simple_coding_agent/finalization.py.
pub mod Completed
pub mod Recorded
