-- ===== src/Completion/Verdicts.antt =====
-- When an attempt is complete, when it may be published, and when in part.
use simple_coding_agent.Base.{
  zero, suc, String, ◌≡◌, refl, ◌≢◌, ◌↔◌, inl, inr, Bool, true, false, ◌&&◌, ◌||◌, not, Option,
  none, some, List, arith, Bool-cases, is_empty, any,
}
use simple_coding_agent.Base.Number.{ℤ, pos, negsuc}
use simple_coding_agent.Completion.Evidence
use simple_coding_agent.Completion.Evidence.{
  AttemptOutcome, complete, incomplete, infrastructure_error, PublicationPath, nothing, partial,
  CommandResult, ModelExecutionStatus, succeeded, model_limit_reached, handoff_requested,
  operator_handoff_expired, CompletionDecision, AttemptEvidence, command_succeeded, observed,
}
use simple_coding_agent.Completion.Evaluation.{
  is_positive, exceeds_two, decision, progress, is_blocking, publication, evaluate_work,
  evaluate_commits, evaluate_model, evaluate_baseline, evaluate,
}

abbrev baseline_accepted : Option CommandResult → Bool → Bool
baseline_accepted none continuation = false
baseline_accepted (some b) continuation = command_succeeded b || continuation

abbrev model_succeeded : Option ModelExecutionStatus → Bool
model_succeeded (some succeeded) = true
model_succeeded _ = false

-- The work itself: criteria, review and final check.
abbrev work_done : List String → AttemptEvidence → Bool
work_done severities e =
    e.acceptance_criteria_satisfied
    && not (any (is_blocking severities) e.review.findings)
    && not (exceeds_two e.review.repair_cycles)
    && observed e.final_check
    && is_empty e.final_check_dirty_paths

-- The local conditions of completion, in one sentence.
abbrev pub local_evidence : List String → AttemptEvidence → Bool
local_evidence severities e =
    not e.profile_error
    && observed e.setup
    && baseline_accepted e.baseline e.continuation
    && model_succeeded e.model_status
    && is_positive e.commit_count
    && not e.deferred_baseline_failed
    && work_done severities e

-- A decision that neither completes nor permits the publication as complete.
abbrev Short : CompletionDecision → Type 0
Short d =
    (d.outcome ≢ none)
    × (d.outcome ≢ some AttemptOutcome.complete)
    × (d.publication_eligible ≡ false)
    × (d.publication_path ≢ PublicationPath.complete)

-- What a stage does: with its conditions it goes on to the publication, otherwise it falls short.
abbrev Stage : Bool → AttemptEvidence → CompletionDecision → Type 0
Stage true e d = d ≡ publication e.push_succeeded e.pr_exists e.commit_count
Stage false e d = Short d

decision-Short :
    (o : AttemptOutcome) (r : Evidence.Reason) (n : ℤ)
    → o ≢ AttemptOutcome.complete
    → Short (decision o r n)
unfolding decision
decision-Short o r n h = ground arith

work-Stage :
    (severities : List String) (e : AttemptEvidence)
    → Stage (work_done severities e) e (evaluate_work severities e)
unfolding evaluate_work decision
work-Stage severities e = ground arith

commits-Stage :
    (severities : List String) (n : ℤ) (b : CommandResult) (e : AttemptEvidence)
    → Stage
        (is_positive n && not e.deferred_baseline_failed && work_done severities e)
        e
        (evaluate_commits severities n b e)
unfolding evaluate_commits is_positive decision
commits-Stage severities (negsuc n) b e = ground arith
commits-Stage severities (pos zero) b e = ground arith
commits-Stage severities (pos (suc n)) b e = elim (Bool-cases e.deferred_baseline_failed) [
  | inl h ↦ simp h (ground arith)
  | inr h ↦ simp h (work-Stage severities e)
]

model-Stage :
    (severities : List String) (m : Option ModelExecutionStatus) (b : CommandResult)
    (e : AttemptEvidence)
    → Stage
        (model_succeeded m
          && is_positive e.commit_count
          && not e.deferred_baseline_failed
          && work_done severities e)
        e
        (evaluate_model severities m b e)
unfolding evaluate_model progress decision
model-Stage severities none b e = ground arith
model-Stage severities (some succeeded) b e = commits-Stage severities e.commit_count b e
model-Stage severities (some model_limit_reached) b e = ground arith
model-Stage severities (some ModelExecutionStatus.infrastructure_error) b e = ground arith
model-Stage severities (some handoff_requested) b e = ground arith
model-Stage severities (some operator_handoff_expired) b e = ground arith

baseline-Stage :
    (severities : List String) (b : Option CommandResult) (e : AttemptEvidence)
    → Stage
        (baseline_accepted b e.continuation
          && model_succeeded e.model_status
          && is_positive e.commit_count
          && not e.deferred_baseline_failed
          && work_done severities e)
        e
        (evaluate_baseline severities b e)
unfolding evaluate_baseline decision
baseline-Stage severities none e = ground arith
baseline-Stage severities (some b) e = elim (Bool-cases (command_succeeded b || e.continuation)) [
  | inl h ↦
      let go : not (command_succeeded b) && not e.continuation ≡ false = ground arith in
      simp (h, go, evaluate_baseline) (model-Stage severities e.model_status b e)
  | inr h ↦
      let stop : not (command_succeeded b) && not e.continuation ≡ true = ground arith in
      simp (h, stop, evaluate_baseline) (ground arith)
]

evaluate-Stage :
    (severities : List String) (e : AttemptEvidence)
    → Stage (local_evidence severities e) e (evaluate severities e)
unfolding evaluate decision
evaluate-Stage severities e = elim (Bool-cases e.profile_error) [
  | inl h ↦ simp (h, evaluate) (ground arith)
  | inr h ↦ elim (Bool-cases (observed e.setup)) [
    | inl o ↦ simp (h, o, evaluate) (baseline-Stage severities e.baseline e)
    | inr o ↦ simp (h, o, evaluate) (ground arith)
  ]
]

-- An attempt is complete exactly with all local evidence, a successful push and a pull request.
pub evaluate-complete :
    (severities : List String) (e : AttemptEvidence)
    → ((evaluate severities e).outcome ≡ some AttemptOutcome.complete) ↔ (
        (local_evidence severities e ≡ true)
        × (e.push_succeeded ≡ some true)
        × (e.pr_exists ≡ some true))
unfolding publication decision
evaluate-complete severities e = ground (arith, evaluate-Stage severities e)

-- All local evidence, neither publication step failed, and not both done.
abbrev pub IsPublishable : List String → AttemptEvidence → Type 0
IsPublishable severities e =
    (local_evidence severities e ≡ true)
    × (e.push_succeeded ≢ some false)
    × (e.pr_exists ≢ some false)
    × ¬ ((e.push_succeeded ≡ some true) × (e.pr_exists ≡ some true))

-- Publication as complete is permitted exactly with all local evidence while neither the push nor
-- the pull request has failed and not both are done; and exactly then there is no outcome yet.
pub evaluate-eligible :
    (severities : List String) (e : AttemptEvidence)
    → (((evaluate severities e).publication_eligible ≡ true) ↔ IsPublishable severities e)
      × (((evaluate severities e).outcome ≡ none) ↔ IsPublishable severities e)
unfolding publication decision
evaluate-eligible severities e =
    (ground (arith, evaluate-Stage severities e), ground (arith, evaluate-Stage severities e))

abbrev Fits : ℤ → CompletionDecision → Type 0
Fits n d = d.publication_path ≡ partial → is_positive n ≡ true

publication-Fits : (push pr : Option Bool) (n : ℤ) → Fits n (publication push pr n)
unfolding publication decision
publication-Fits push pr n h = ground arith

work-Fits :
    (severities : List String) (e : AttemptEvidence)
    → Fits e.commit_count (evaluate_work severities e)
unfolding evaluate_work decision
work-Fits severities e h =
    ground (arith, publication-Fits e.push_succeeded e.pr_exists e.commit_count)

commits-Fits :
    (severities : List String) (n : ℤ) (b : CommandResult) (e : AttemptEvidence)
    → Fits n (evaluate_commits severities n b e)
unfolding evaluate_commits is_positive decision
commits-Fits severities (negsuc n) b e h = ground arith
commits-Fits severities (pos zero) b e h = ground arith
commits-Fits severities (pos (suc n)) b e h = refl

model-Fits :
    (severities : List String) (m : Option ModelExecutionStatus) (b : CommandResult)
    (e : AttemptEvidence)
    → Fits e.commit_count (evaluate_model severities m b e)
unfolding evaluate_model progress decision
model-Fits severities none b e h = ground arith
model-Fits severities (some succeeded) b e h = commits-Fits severities e.commit_count b e h
model-Fits severities (some model_limit_reached) b e h = ground arith
model-Fits severities (some ModelExecutionStatus.infrastructure_error) b e h = ground arith
model-Fits severities (some handoff_requested) b e h = ground arith
model-Fits severities (some operator_handoff_expired) b e h = ground arith

baseline-Fits :
    (severities : List String) (b : Option CommandResult) (e : AttemptEvidence)
    → Fits e.commit_count (evaluate_baseline severities b e)
unfolding evaluate_baseline decision
baseline-Fits severities none e h = ground arith
baseline-Fits severities (some b) e h = ground (arith, model-Fits severities e.model_status b e)

-- Nothing is published in part without a commit.
pub evaluate-partial :
    (severities : List String) (e : AttemptEvidence)
    → (evaluate severities e).publication_path ≡ partial
    → is_positive e.commit_count ≡ true
unfolding evaluate decision
evaluate-partial severities e h = ground (arith, baseline-Fits severities e.baseline e)
