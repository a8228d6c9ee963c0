-- ===== src/Control.antt =====
-- The durable operator-control record (simple_coding_agent/control.py).
pub mod Types
pub mod Table
pub mod Stop
pub mod Resume
pub mod Countdown
pub mod Priority
pub mod Handoff
pub mod Recovery
pub mod Lookup
pub mod History
pub mod Order
pub mod Outcomes
pub mod Requests
pub mod Recording
pub mod Replay
pub mod Events
pub mod Effects
pub mod Retries
pub mod Invariant
pub mod Rows
pub mod Demands
pub mod Starting
pub mod Keeping
pub mod Counting
pub mod Stopping
pub mod Completing
pub mod Appending
pub mod Submitting
