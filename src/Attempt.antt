-- ===== src/Attempt.antt =====
-- The checkpoint of the active implementation attempt: simple_coding_agent/attempt_state.py.
pub mod Types
pub mod Json
pub mod Store
pub mod Valid
pub mod Roundtrip
pub mod Writing
pub mod Lifecycle
