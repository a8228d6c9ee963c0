-- ===== src/Completion/Evidence.antt =====
-- The evidence of an attempt and the decision on it (simple_coding_agent/completion.py, lines 15-50
-- and 184-192). The texts of reasons are kept by the message that they are; of a command sequence
-- only the status is kept.
use simple_coding_agent.Base.{String, Bool, true, false, Option, none, some, List}
use simple_coding_agent.Base.Number.{ℤ}

pub data AttemptOutcome : Type 0 where
  complete incomplete infrastructure_error no_changes handoff : AttemptOutcome

pub data PublicationPath : Type 0 where
  nothing complete partial : PublicationPath

pub data CommandStatus : Type 0 where
  succeeded failed timed_out : CommandStatus

pub record CommandResult : Type 0 where
  pub status : CommandStatus

pub data ModelExecutionStatus : Type 0 where
  succeeded model_limit_reached infrastructure_error : ModelExecutionStatus
  handoff_requested operator_handoff_expired : ModelExecutionStatus

pub record ReviewFinding : Type 0 where
  pub severity : String
  pub summary : String

pub record ReviewEvidence : Type 0 where
  pub findings : List ReviewFinding
  pub repair_cycles : ℤ

-- The messages of `evaluate`, in the order of the code.
pub data Reason : Type 0 where
  profile_not_loaded setup_failed baseline_not_observed baseline_failed : Reason
  model_infrastructure_error model_limit : Reason
  handoff_without_commits handoff_with_progress : Reason
  expired_without_commits expired_with_progress : Reason
  model_not_observed without_commits invalid_commit_count : Reason
  deferred_baseline_failed : CommandResult → Reason
  criteria_not_satisfied blocking_findings repair_limit_exceeded final_check_failed : Reason
  final_check_dirty : List String → Reason
  push_failed pull_request_failed all_conditions_observed local_evidence_sufficient : Reason

pub record CompletionDecision : Type 0 where
  pub outcome : Option AttemptOutcome
  pub publication_eligible : Bool
  pub publication_path : PublicationPath
  pub reason : Reason

-- The arguments of `evaluate`.
pub record AttemptEvidence : Type 0 where
  pub setup : Option CommandResult
  pub baseline : Option CommandResult
  pub model_status : Option ModelExecutionStatus
  pub commit_count : ℤ
  pub acceptance_criteria_satisfied : Bool
  pub review : ReviewEvidence
  pub final_check : Option CommandResult
  pub push_succeeded : Option Bool
  pub pr_exists : Option Bool
  pub profile_error : Bool
  pub continuation : Bool
  pub final_check_dirty_paths : List String
  pub deferred_baseline_failed : Bool

unfoldable pub command_succeeded : CommandResult → Bool
command_succeeded c = elim c.status [ CommandStatus.succeeded ↦ true | _ ↦ false ]

-- `result is not None and result.succeeded`
unfoldable pub observed : Option CommandResult → Bool
unfolding command_succeeded
observed none = false
observed (some c) = command_succeeded c
