-- ===== src/Completion/Runner.antt =====
-- `VerificationRunner` (simple_coding_agent/completion.py, lines 199-263): the two flags that hold
-- the lifecycle order, and the checks run on the way. What a command sequence returns is the
-- argument `run`, the command runner of command_runner.py.
use simple_coding_agent.Base.{
  Bool, true, false, ◌||◌, not, Option, none, some, List, [], ◌∷◌, if◌then◌else◌,
}
use simple_coding_agent.Base.Number.{ℤ}
use simple_coding_agent.Completion.Evidence.{
  CommandResult, ModelExecutionStatus, succeeded, ReviewEvidence, command_succeeded,
}
use simple_coding_agent.Completion.Evaluation.{is_positive, exceeds_two}

-- The two command sequences of a profile.
pub data Sequence : Type 0 where
  setup check : Sequence

pub record VerificationRunner : Type 0 where
  pub baseline_passed : Bool
  pub review_completed : Bool

pub record PreparationEvidence : Type 0 where
  pub setup : CommandResult
  pub baseline : Option CommandResult

unfoldable pub new_runner : VerificationRunner
new_runner = record { baseline_passed = false; review_completed = false }

unfoldable pub session_succeeded : ModelExecutionStatus → Bool
session_succeeded succeeded = true
session_succeeded _ = false

-- `mark_review_complete`; the result tells whether it returned, `false` is `VerificationOrderError`.
unfoldable pub mark_review_complete :
    ModelExecutionStatus → ℤ → ReviewEvidence → VerificationRunner → Bool × VerificationRunner
unfolding session_succeeded
mark_review_complete status count review s =
    if not s.baseline_passed
    then (false, s)
    else if not (session_succeeded status)
    then (false, s)
    else if not (is_positive count)
    then (false, s)
    else if exceeds_two review.repair_cycles
    then (false, s)
    else (true, record s { review_completed = true })

module _ (run : Sequence → CommandResult) where
  -- `prepare`: setup, and only after its success the baseline check.
  unfoldable pub prepare : Bool → VerificationRunner → PreparationEvidence × VerificationRunner
  unfolding command_succeeded
  prepare continuation s =
      let s₁ : VerificationRunner = record { baseline_passed = false; review_completed = false } in
      if command_succeeded (run setup)
      then (
        record { setup = run setup; baseline = some (run check) },
        record s₁ { baseline_passed = command_succeeded (run check) || continuation },
      )
      else (record { setup = run setup; baseline = none }, s₁)

  -- `final_check`; `none` is `VerificationOrderError`.
  unfoldable pub final_check : VerificationRunner → Option CommandResult
  final_check s = if s.review_completed then some (run check) else none

-- The calls on a runner, each with what its command sequences return.
pub data RunnerCall : Type 0 where
  preparation : (Sequence → CommandResult) → Bool → RunnerCall
  review : ModelExecutionStatus → ℤ → ReviewEvidence → RunnerCall
  final : (Sequence → CommandResult) → RunnerCall

unfoldable pub after_call : RunnerCall → VerificationRunner → VerificationRunner
after_call (preparation run continuation) s = (prepare run continuation s).1
after_call (review status count evidence) s = (mark_review_complete status count evidence s).1
after_call (final run) s = s

unfoldable pub after_calls : List RunnerCall → VerificationRunner → VerificationRunner
after_calls [] s = s
after_calls (c ∷ cs) s = after_calls cs (after_call c s)
