-- ===== src/Tracker/Detection.antt =====
-- The conflict detector: `detect_conflict_requeues` (simple_coding_agent/github_tracker.py, lines
-- 562-629), over the open pull requests of all pages in their order. A dictionary from numbers to
-- issues is a list of issues with distinct numbers. The stale pull requests for which
-- `_skip_stale_pr_head` is called are collected; its log and its comment are not modelled.
use simple_coding_agent.Base.{
  ℕ, String, Bool, ◌&&◌, Option, none, some, List, [], ◌∷◌, ◌++◌, ltb, ◌==◌, if◌then◌else◌,
}
use simple_coding_agent.Tracker.Issue.{
  TrackerIssue, OpenPullRequest, merge_conflict, conflict_branch_issue_number,
  is_conflict_detection_eligible, is_pr_head_stale,
}
use simple_coding_agent.Tracker.Eligibility.{Budgets}

-- `by_number.get(number)` and `by_number[issue.number] = issue`
unfoldable pub get : ℕ → List TrackerIssue → Option TrackerIssue
get n [] = none
get n (i ∷ table) = if i.number == n then some i else get n table

unfoldable pub put : TrackerIssue → List TrackerIssue → List TrackerIssue
put issue [] = issue ∷ []
put issue (i ∷ table) =
    let rest = put issue table in if i.number == issue.number then issue ∷ table else i ∷ rest

unfoldable pub with_label : String → TrackerIssue → TrackerIssue
with_label label issue = record issue { labels = label ∷ issue.labels }

pub record Detection : Type 0 where
  pub by_number : List TrackerIssue
  pub added_labels : List String
  pub detected : List (ℕ × ℕ × String)
  pub skipped : List OpenPullRequest

unfoldable pub detects : OpenPullRequest → TrackerIssue → Bool
detects pr issue =
    is_conflict_detection_eligible issue pr.draft pr.mergeable pr.head_sha pr.branch_tip

-- A pull request that only its stale head keeps from detection.
unfoldable pub is_skipped_as_stale : OpenPullRequest → TrackerIssue → Bool
is_skipped_as_stale pr issue =
    is_pr_head_stale pr.head_sha pr.branch_tip
    && is_conflict_detection_eligible issue pr.draft pr.mergeable "" none

-- The issue behind a pull request, if it is in this poll's set.
unfoldable pub issue_of : OpenPullRequest → List TrackerIssue → Option TrackerIssue
issue_of pr table = elim (conflict_branch_issue_number pr.head_ref) [
  | none ↦ none
  | some n ↦ get n table
]

unfoldable pub detect_issue : OpenPullRequest → TrackerIssue → Detection → Detection
detect_issue pr issue d =
    if detects pr issue
    then record {
      by_number = put (with_label merge_conflict issue) d.by_number;
      added_labels = d.added_labels ++ issue.id ∷ [];
      detected = d.detected ++ (issue.number, pr.number, pr.head_sha) ∷ [];
      skipped = d.skipped;
    }
    else if is_skipped_as_stale pr issue
    then record d { skipped = d.skipped ++ pr ∷ [] }
    else d

unfoldable pub detect_one : OpenPullRequest → Detection → Detection
unfolding detect_issue
detect_one pr d = elim (issue_of pr d.by_number) [ none ↦ d | some issue ↦ detect_issue pr issue d ]

unfoldable pub detect_all : List OpenPullRequest → Detection → Detection
detect_all [] d = d
detect_all (pr ∷ prs) d = detect_all prs (detect_one pr d)

unfoldable pub detect_conflict_requeues :
    Budgets → List OpenPullRequest → List TrackerIssue → Detection
detect_conflict_requeues budgets prs table =
    let start : Detection = record {
      by_number = table;
      added_labels = [];
      detected = [];
      skipped = [];
    } in
    if ltb 0 budgets.max_conflict_attempts then detect_all prs start else start
