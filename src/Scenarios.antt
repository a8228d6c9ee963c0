-- ===== src/Scenarios.antt =====
-- Runs of the models on concrete inputs, and each theorem at one.
mod Operator
mod Attempts
mod Decisions
mod Claims
mod Tokens
mod Finished
