-- ===== src/Completion.antt =====
-- The classification of an attempt and the order of its checks: simple_coding_agent/completion.py.
pub mod Evidence
pub mod Evaluation
pub mod Verdicts
pub mod Runner
pub mod Ordering
