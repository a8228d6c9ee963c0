-- ===== src/Completion/Evaluation.antt =====
-- `CompletionEvaluator.evaluate` and `_decision` (simple_coding_agent/completion.py, lines 272-447).
use simple_coding_agent.Base.{
  zero, suc, String, Bool, true, false, ◌&&◌, not, Option, none, some, List, ltb, if◌then◌else◌,
  is_empty, any, member,
}
use simple_coding_agent.Base.Number.{ℤ, pos, negsuc}
use simple_coding_agent.Completion.Evidence.{
  AttemptOutcome, incomplete, infrastructure_error, no_changes, handoff, PublicationPath, nothing,
  partial, CommandResult, ModelExecutionStatus, succeeded, model_limit_reached, handoff_requested,
  operator_handoff_expired, ReviewFinding, Reason, profile_not_loaded, setup_failed,
  baseline_not_observed, baseline_failed, model_infrastructure_error, model_limit,
  handoff_without_commits, handoff_with_progress, expired_without_commits, expired_with_progress,
  model_not_observed, without_commits, invalid_commit_count, criteria_not_satisfied,
  blocking_findings, repair_limit_exceeded, final_check_failed, final_check_dirty, push_failed,
  pull_request_failed, all_conditions_observed, local_evidence_sufficient, CompletionDecision,
  AttemptEvidence, command_succeeded, observed,
}

unfoldable pub is_positive : ℤ → Bool
is_positive (pos zero) = false
is_positive (pos (suc n)) = true
is_positive (negsuc n) = false

unfoldable pub exceeds_two : ℤ → Bool
exceeds_two (pos n) = ltb 2 n
exceeds_two (negsuc n) = false

-- `_decision`: an incomplete attempt with commits is published in part.
unfoldable pub decision : AttemptOutcome → Reason → ℤ → CompletionDecision
unfolding is_positive
decision outcome reason count = record {
  outcome = some outcome;
  publication_eligible = false;
  publication_path = elim outcome [
    | incomplete ↦ if is_positive count then partial else nothing
    | _ ↦ nothing
  ];
  reason = reason;
}

-- A handoff that keeps committed progress.
unfoldable pub progress : AttemptOutcome → Reason → CompletionDecision
progress outcome reason = record {
  outcome = some outcome;
  publication_eligible = false;
  publication_path = partial;
  reason = reason;
}

unfoldable pub is_blocking : List String → ReviewFinding → Bool
is_blocking severities f = member f.severity severities

-- After the local evidence: the push and the pull request.
unfoldable pub publication : Option Bool → Option Bool → ℤ → CompletionDecision
unfolding decision
publication (some false) pr count = decision infrastructure_error push_failed count
publication push (some false) count = decision infrastructure_error pull_request_failed count
publication (some true) (some true) count =
    decision AttemptOutcome.complete all_conditions_observed count
publication _ _ count = record {
  outcome = none;
  publication_eligible = true;
  publication_path = PublicationPath.complete;
  reason = local_evidence_sufficient;
}

-- From the acceptance criteria on.
unfoldable pub evaluate_work : List String → AttemptEvidence → CompletionDecision
unfolding decision is_blocking exceeds_two observed publication
evaluate_work severities e =
    if not e.acceptance_criteria_satisfied
    then decision incomplete criteria_not_satisfied e.commit_count
    else if any (is_blocking severities) e.review.findings
    then decision incomplete blocking_findings e.commit_count
    else if exceeds_two e.review.repair_cycles
    then decision incomplete repair_limit_exceeded e.commit_count
    else if not (observed e.final_check)
    then decision incomplete final_check_failed e.commit_count
    else if not (is_empty e.final_check_dirty_paths)
    then decision incomplete (final_check_dirty e.final_check_dirty_paths) e.commit_count
    else publication e.push_succeeded e.pr_exists e.commit_count

-- From the commit count on, for a session that succeeded.
unfoldable pub evaluate_commits :
    List String → ℤ → CommandResult → AttemptEvidence → CompletionDecision
unfolding decision
evaluate_commits severities (negsuc n) baseline e =
    decision infrastructure_error invalid_commit_count (negsuc n)
evaluate_commits severities (pos zero) baseline e = decision no_changes without_commits (pos zero)
evaluate_commits severities (pos (suc n)) baseline e =
    if e.deferred_baseline_failed
    then decision incomplete (Reason.deferred_baseline_failed baseline) (pos (suc n))
    else evaluate_work severities e

-- The ways in which a model session ends.
unfoldable pub evaluate_model :
    List String → Option ModelExecutionStatus → CommandResult → AttemptEvidence → CompletionDecision
unfolding decision is_positive progress
evaluate_model severities (some ModelExecutionStatus.infrastructure_error) baseline e =
    decision infrastructure_error model_infrastructure_error e.commit_count
evaluate_model severities (some model_limit_reached) baseline e =
    decision incomplete model_limit e.commit_count
evaluate_model severities (some handoff_requested) baseline e =
    if is_positive e.commit_count
    then progress handoff handoff_with_progress
    else decision no_changes handoff_without_commits e.commit_count
evaluate_model severities (some operator_handoff_expired) baseline e =
    if is_positive e.commit_count
    then progress incomplete expired_with_progress
    else decision no_changes expired_without_commits e.commit_count
evaluate_model severities none baseline e = decision incomplete model_not_observed e.commit_count
evaluate_model severities (some succeeded) baseline e =
    evaluate_commits severities e.commit_count baseline e

unfoldable pub evaluate_baseline :
    List String → Option CommandResult → AttemptEvidence → CompletionDecision
unfolding decision command_succeeded
evaluate_baseline severities none e =
    decision infrastructure_error baseline_not_observed e.commit_count
evaluate_baseline severities (some b) e =
    if not (command_succeeded b) && not e.continuation
    then decision incomplete baseline_failed e.commit_count
    else evaluate_model severities e.model_status b e

unfoldable pub evaluate : List String → AttemptEvidence → CompletionDecision
unfolding decision observed
evaluate severities e =
    if e.profile_error
    then decision infrastructure_error profile_not_loaded e.commit_count
    else if not (observed e.setup)
    then decision infrastructure_error setup_failed e.commit_count
    else evaluate_baseline severities e.baseline e
