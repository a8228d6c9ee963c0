-- ===== src/Scenarios/Decisions.antt =====
-- The evaluator, the verification order and the error counter on concrete inputs.
use simple_coding_agent.Base.{
  ◌≡◌, refl, ◌↔◌, true, ◌&&◌, not, if◌then◌else◌, false, none, some, List, [], ◌∷◌, text_eq, any,
  member,
}
use simple_coding_agent.Base.Number.{pos}
use simple_coding_agent.Completion.Evidence
use simple_coding_agent.Completion.Evidence.{AttemptEvidence, CommandResult, partial}
use simple_coding_agent.Completion.Evaluation
use simple_coding_agent.Completion.Verdicts.{
  local_evidence, IsPublishable, evaluate-complete, evaluate-eligible, evaluate-partial,
}
use simple_coding_agent.Completion.Runner
use simple_coding_agent.Completion.Ordering.{IsOrdered, final_check-IsOrdered}
use simple_coding_agent.Operating
use simple_coding_agent.Operating.{record_all-run_length, record_outcome-twice, cleared, reset-read}

abbrev passed : CommandResult
passed = record { status = Evidence.CommandStatus.succeeded }

abbrev failed : CommandResult
failed = record { status = Evidence.CommandStatus.failed }

abbrev reviewed : Evidence.ReviewEvidence
reviewed = record {
  findings = record { severity = "minor"; summary = "naming" } ∷ [];
  repair_cycles = pos 1;
}

abbrev published : AttemptEvidence
published = record {
  setup = some passed;
  baseline = some passed;
  model_status = some Evidence.ModelExecutionStatus.succeeded;
  commit_count = pos 2;
  acceptance_criteria_satisfied = true;
  review = reviewed;
  final_check = some passed;
  push_succeeded = some true;
  pr_exists = some true;
  profile_error = false;
  continuation = false;
  final_check_dirty_paths = [];
  deferred_baseline_failed = false;
}

evaluate-complete_example :
    ((Evaluation.evaluate ("blocker" ∷ []) published).outcome
      ≡ some Evidence.AttemptOutcome.complete)
    ↔ ((local_evidence ("blocker" ∷ []) published ≡ true)
        × (some true ≡ some true)
        × (some true ≡ some true))
evaluate-complete_example = evaluate-complete ("blocker" ∷ []) published

abbrev unpublished : AttemptEvidence
unpublished = record published { push_succeeded = none; pr_exists = none }

evaluate-eligible_example :
    (((Evaluation.evaluate ("blocker" ∷ []) unpublished).publication_eligible ≡ true)
      ↔ IsPublishable ("blocker" ∷ []) unpublished)
    × (((Evaluation.evaluate ("blocker" ∷ []) unpublished).outcome ≡ none)
        ↔ IsPublishable ("blocker" ∷ []) unpublished)
evaluate-eligible_example = evaluate-eligible ("blocker" ∷ []) unpublished

abbrev unchecked : AttemptEvidence
unchecked = record published { final_check = some failed }

unchecked_partial : (Evaluation.evaluate ("blocker" ∷ []) unchecked).publication_path ≡ partial
unfolding Evaluation.evaluate Evaluation.evaluate_baseline Evaluation.evaluate_model
    Evaluation.evaluate_commits Evaluation.evaluate_work Evaluation.decision Evaluation.is_positive
    Evaluation.is_blocking Evaluation.exceeds_two Evidence.observed Evidence.command_succeeded any
    member text_eq
unchecked_partial = refl

evaluate-partial_example : Evaluation.is_positive (pos 2) ≡ true
evaluate-partial_example = evaluate-partial ("blocker" ∷ []) unchecked unchecked_partial

abbrev all_pass : Runner.Sequence → CommandResult
all_pass c = passed

abbrev calls : List Runner.RunnerCall
calls =
    Runner.preparation all_pass false
    ∷ Runner.review Evidence.ModelExecutionStatus.succeeded (pos 2) reviewed
    ∷ []

final_check-IsOrdered_example :
    (Runner.final_check all_pass (Runner.after_calls calls Runner.new_runner) ≡ some passed)
    ↔ IsOrdered calls
final_check-IsOrdered_example = final_check-IsOrdered all_pass calls

abbrev endings : List Operating.Ending
endings =
    record { outcome = Evidence.AttemptOutcome.complete; attempt_id = "x"; time = "t1" }
    ∷ record {
      outcome = Evidence.AttemptOutcome.infrastructure_error;
      attempt_id = "y";
      time = "t2";
    }
    ∷ []

abbrev three_errors : Operating.ConsecutiveErrorState
three_errors = record { count = 3; last_success_at = none; last_attempt_id = some "w" }

three_read : Operating.read (Operating.holds three_errors) ≡ some three_errors
unfolding Operating.read
three_read = refl

endings-Fresh : Operating.Fresh (some "w") endings
unfolding Operating.is_attempt text_eq
endings-Fresh = (refl, (refl, tt))

record_all-run_length_example :
    (Operating.state_or_zero
      (Operating.read (Operating.record_all endings (Operating.holds three_errors)))).count
    ≡ Operating.run_length 3 endings
record_all-run_length_example =
    record_all-run_length endings (Operating.holds three_errors) three_errors three_read
      endings-Fresh

record_outcome-twice_example :
    let first =
      Operating.record_outcome Evidence.AttemptOutcome.infrastructure_error "x" "t1"
        (Operating.holds three_errors) in
    Operating.record_outcome Evidence.AttemptOutcome.complete "x" "t2" first.1 ≡ first
record_outcome-twice_example =
    record_outcome-twice Evidence.AttemptOutcome.infrastructure_error
      Evidence.AttemptOutcome.complete "x" "t1" "t2" (Operating.holds three_errors) three_errors
      three_read

abbrev three_stored : Operating.ErrorFile
three_stored = Operating.holds three_errors

reset-read_example :
    (Operating.read (Operating.reset three_stored).1 ≡ some (cleared three_stored))
    × ((Operating.record_outcome Evidence.AttemptOutcome.infrastructure_error "y" "t"
          (Operating.reset three_stored).1).0
        ≡ some (
            if Operating.is_infrastructure_error Evidence.AttemptOutcome.infrastructure_error
              && not (Operating.is_attempt (cleared three_stored).last_attempt_id "y")
            then 1
            else 0))
reset-read_example = reset-read three_stored Evidence.AttemptOutcome.infrastructure_error "y" "t"
