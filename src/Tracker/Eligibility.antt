-- ===== src/Tracker/Eligibility.antt =====
-- What an issue may be claimed for, and why not: `is_conflict_eligible`,
-- `is_auto_continuation_eligible` and `ineligibility_reason` (simple_coding_agent/github_tracker.py,
-- lines 189-251 and 525-561). A reason is kept by the message that it is. The number of automatic
-- continuations of an issue, which is read from its comments, is an argument; `none` is
-- `AmbiguousContinuationError`.
use simple_coding_agent.Base.{
  ℕ, String, Bool, false, ◌&&◌, not, Option, none, some, List, ltb, ◌==◌, if◌then◌else◌, is_blank,
  is_empty, member,
}
use simple_coding_agent.Tracker.Issue.{
  TrackerIssue, ready_for_agent, round_finished, ready_for_human, merge_conflict, has_claim_marker,
  is_open, meets_base_queue_rules, is_continuation_signal, is_conflict_signal,
}

-- The two budgets of a tracker.
pub record Budgets : Type 0 where
  pub max_auto_continuations : ℕ
  pub max_conflict_attempts : ℕ

unfoldable pub is_conflict_eligible : Budgets → TrackerIssue → Bool
is_conflict_eligible budgets issue =
    ltb 0 budgets.max_conflict_attempts
    && (is_conflict_signal issue && meets_base_queue_rules issue)

unfoldable pub below_budget : Option ℕ → ℕ → Bool
below_budget none limit = false
below_budget (some count) limit = ltb count limit

unfoldable pub is_auto_continuation_eligible : Budgets → Option ℕ → TrackerIssue → Bool
unfolding below_budget
is_auto_continuation_eligible budgets count issue =
    ltb 0 budgets.max_auto_continuations
    && (is_continuation_signal issue && meets_base_queue_rules issue)
    && below_budget count budgets.max_auto_continuations

pub data IneligibilityReason : Type 0 where
  not_found : ℕ → IneligibilityReason
  not_open : ℕ → String → IneligibilityReason
  limit_reached : ℕ → ℕ → ℕ → IneligibilityReason
  requires_human not_labelled : ℕ → IneligibilityReason
  assigned : ℕ → List String → IneligibilityReason
  marked empty_body : ℕ → IneligibilityReason
  blocked : ℕ → ℕ → IneligibilityReason

-- The checks that an issue of every kind goes through last.
unfoldable pub common_reason : TrackerIssue → ℕ → Option IneligibilityReason
common_reason issue number =
    if not (is_empty issue.assignee_logins)
    then some (assigned number issue.assignee_logins)
    else if has_claim_marker issue.labels
    then some (marked number)
    else if is_blank issue.body
    then some (empty_body number)
    else if not (issue.blocked_by == 0)
    then some (blocked number issue.blocked_by)
    else none

-- The branch of an open issue without `ready-for-agent`.
unfoldable pub unlabelled_reason : TrackerIssue → ℕ → ℕ → ℕ → ℕ → Option IneligibilityReason
unfolding common_reason
unlabelled_reason issue number max_auto count max_conflict =
    if ltb 0 max_auto && member round_finished issue.labels
    then (if meets_base_queue_rules issue
        then (if ltb count max_auto then none else some (limit_reached number count max_auto))
        else common_reason issue number)
    else if member ready_for_human issue.labels
    then some (requires_human number)
    else if ltb 0 max_conflict
        && (member merge_conflict issue.labels
            && not (member ready_for_human issue.labels)
            && not (member round_finished issue.labels))
    then (if meets_base_queue_rules issue then none else common_reason issue number)
    else some (not_labelled number)

unfoldable pub ineligibility_reason :
    Option TrackerIssue → ℕ → ℕ → ℕ → ℕ → Option IneligibilityReason
unfolding common_reason unlabelled_reason
ineligibility_reason none number max_auto count max_conflict = some (not_found number)
ineligibility_reason (some issue) number max_auto count max_conflict =
    if not (is_open issue)
    then some (not_open number issue.state)
    else if member ready_for_agent issue.labels
    then common_reason issue number
    else unlabelled_reason issue number max_auto count max_conflict
