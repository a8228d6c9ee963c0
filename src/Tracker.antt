-- ===== src/Tracker.antt =====
-- The issue tracker: simple_coding_agent/github_tracker.py.
pub mod Issue
pub mod Eligibility
pub mod Reasons
pub mod Queue
pub mod Detection
pub mod Detected
pub mod Labelled
pub mod Fifo
pub mod Calls
pub mod Claiming
pub mod Remote
pub mod Stages
pub mod Winning
pub mod Race
pub mod Exclusion
pub mod Releases
