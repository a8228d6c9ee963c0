-- ===== src/Lib.antt =====
-- Simple Coding Agent: a daemon that claims issues, runs a coding model on each in an attempt, and
-- publishes the result, under the control of an operator.
--
-- The parts and how they interact. The operator's commands (`stop`, `stop --after N`, `resume`,
-- `next issue`, `handoff now`, recovery commands, error reset) reach the live agent over a socket
-- and are recorded in a durable store of commands, which the lifecycle loop reads before each claim
-- and reports to after each attempt. A claimed attempt has a checkpoint on disk that names its
-- phase, for recovery after a restart. When its work has ended, the evaluator classifies the
-- evidence, and a counter of consecutive infrastructure errors decides whether the agent goes on.
-- The issues come from a tracker that several workers share: a queue is built from its pages, an
-- issue is claimed by an assignment and a marker label, and released after the attempt. During an
-- attempt a ledger counts the tokens of the model's conversations. An attempt that is finalized is
-- recorded under its ID, so that a restart does not finish it twice.
--
-- Which file models what:
-- - Control/*: simple_coding_agent/control.py, and two parsers of simple_coding_agent/recovery.py.
--   `ControlStore` (Control/Types) is the database: the table `commands`, the one row of
--   `control_state`, and the table `counted_attempts`. Control/Table has the SQL statements and the
--   private helpers; Stop, Resume, Countdown, Priority, Handoff and Recovery have the methods, under
--   their own names, as functions from a store to a reply and a store. Each transaction is one
--   function; a raised exception is an `err` with the store as the rollback leaves it. The shared
--   prologue of the submissions is `admit`, and what a fresh request ID runs is a function of its
--   own, `stop_body` and so on. `Clock` gives the readings of the clock during one operation.
--   Control/Requests and Control/Events collect the submissions, and the writing methods, in one
--   data type each. Lookup, History, Order, Outcomes, Recording, Replay, Effects, Retries, Invariant,
--   Rows, Demands, Starting, Appending, Submitting, Keeping, Counting, Stopping and
--   Completing hold the proofs.
-- - Attempt/*: simple_coding_agent/attempt_state.py. Types has the phases and the checkpoint, Json
--   the two conversions, Store the operations; Valid, Roundtrip, Writing and Lifecycle the proofs.
--   What the date library prints and accepts are the parameters `iso` and `is_iso`.
-- - Completion/*: simple_coding_agent/completion.py. Evidence has the data, Evaluation the evaluator,
--   Runner the order of setup, baseline, review and final check, with what the command runner
--   returns as a parameter; Verdicts has the proofs on the evaluator, Ordering those
--   on the runner.
-- - Operating: the error counter of simple_coding_agent/operating.py.
-- - Tracker/*: simple_coding_agent/github_tracker.py. Issue has the labels and the tests on one issue,
--   Eligibility the budgets and the reasons of a refusal, Detection the conflict detector, Queue the
--   runnable queue, Calls the calls of the transport as a program type, Claiming the claims and the
--   releases as such programs. Remote is the interface of a tracker: a state, the effect of each call
--   on it, and what the claims rely on; one call is one step. Exclusion has two claims with their
--   calls in any order. Reasons, Detected, Labelled, Fifo, Stages, Winning, Race and Releases
--   hold the other proofs.
-- - Ledger/*: simple_coding_agent/token_ledger.py. Usage has the reports, Types the data, Readings the
--   lookups and sums, Settling, Events, Reconciling and Cache the operations; `apply_event` in Runs
--   takes any of the writing ones. Sums, Counting, Valid, Preserved, Neutral, Partition, Done,
--   Keeping, Lasting and Reported hold the proofs.
--   An amount is a natural number of twelfths of a token, so that four and three characters to a
--   token divide exactly; reported numbers are natural numbers.
-- - Finalization/*: simple_coding_agent/finalization.py. Completed has the file, the two conversions
--   and the operations; Recorded the proofs.
-- - Base/*: texts, lists, options and numbers. Scenarios/*: runs on concrete inputs.
--
-- All loops are structural recursion; the one fuel is that of the decimal printing `show_ℕ`, which
-- is given the number plus one and uses one unit for each digit.
--
-- What is not modelled. Exceptions are kept by their class, and the reasons of the evaluator by the
-- message that they are, without the wording. SQLite errors, errors of the file system during a
-- write or a deletion, and a malformed database are left out, and with them the range of an SQLite
-- INTEGER: a count or an issue number above 2^63 - 1, at which the program raises `OverflowError`,
-- is stored; so is the naive clock of control.py.
-- Texts are ASCII as far as whitespace and digits matter, and the limit of Python on the length of
-- integer texts is left out. Arguments whose annotation is `str`, `bool` or `int` have that type,
-- but for the counts and issue numbers that are parsed from any value. The status report, handoff
-- deadlines and the views with payloads of control.py are not modelled. Of the tracker, the comments
-- on issues (trust, counts, notices, escalation), the event log and the GraphQL transport are left
-- out: the number of automatic continuations is an argument, and a failed call is no case. The
-- rounding of the ledger's floats is left out. Git, the model session, publication, the lifecycle
-- loop, telemetry and the command line are not modelled.
pub mod Base
pub mod Control
pub mod Attempt
pub mod Completion
pub mod Operating
pub mod Tracker
pub mod Ledger
pub mod Finalization
pub mod Scenarios
