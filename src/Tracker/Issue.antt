-- ===== src/Tracker/Issue.antt =====
-- Issues, labels and claim markers (simple_coding_agent/github_tracker.py, lines 23-71, 97-106,
-- 133-148 and 259-375). A set of labels is a list of them; a creation time is a number that orders
-- as the time does.
use simple_coding_agent.Base.{
  ℕ, String, ◌<>◌, Bool, true, false, ◌&&◌, not, Option, none, some, List, ◌==◌, text_eq, is_blank,
  starts_with, after_prefix, select, is_empty, any, member,
}
use simple_coding_agent.Base.Number.{read_natural}

abbrev pub ready_for_agent : String
ready_for_agent = "ready-for-agent"

abbrev pub round_finished : String
round_finished = "round-finished"

abbrev pub ready_for_human : String
ready_for_human = "ready-for-human"

abbrev pub merge_conflict : String
merge_conflict = "merge-conflict"

abbrev pub claim_marker_prefix : String
claim_marker_prefix = "claimed-by:"

unfoldable pub claim_marker_label : String → String
claim_marker_label worker_id = claim_marker_prefix <> worker_id

unfoldable pub is_claim_marker : String → Bool
is_claim_marker label = starts_with claim_marker_prefix label

unfoldable pub claim_marker_labels : List String → List String
unfolding is_claim_marker
claim_marker_labels labels = select is_claim_marker labels

unfoldable pub has_claim_marker : List String → Bool
unfolding is_claim_marker
has_claim_marker labels = any is_claim_marker labels

pub record TrackerIssue : Type 0 where
  pub id : String
  pub number : ℕ
  pub title : String
  pub body : String
  pub created_at : ℕ
  pub state : String
  pub labels : List String
  pub assignee_logins : List String
  pub blocked_by : ℕ
  pub author_login : String

unfoldable pub is_open : TrackerIssue → Bool
unfolding text_eq
is_open issue = text_eq issue.state "OPEN"

unfoldable pub meets_base_queue_rules : TrackerIssue → Bool
unfolding is_open
meets_base_queue_rules issue =
    is_open issue
    && is_empty issue.assignee_logins
    && not (has_claim_marker issue.labels)
    && not (is_blank issue.body)
    && issue.blocked_by == 0

unfoldable pub is_eligible : TrackerIssue → Bool
unfolding is_open
is_eligible issue =
    is_open issue
    && member ready_for_agent issue.labels
    && is_empty issue.assignee_logins
    && not (has_claim_marker issue.labels)
    && not (is_blank issue.body)
    && issue.blocked_by == 0

unfoldable pub is_continuation_signal : TrackerIssue → Bool
is_continuation_signal issue =
    member round_finished issue.labels && not (member ready_for_agent issue.labels)

unfoldable pub is_conflict_signal : TrackerIssue → Bool
is_conflict_signal issue =
    member merge_conflict issue.labels
    && not (member ready_for_agent issue.labels)
    && not (member round_finished issue.labels)
    && not (member ready_for_human issue.labels)

pub record OpenPullRequest : Type 0 where
  pub number : ℕ
  pub head_ref : String
  pub base_ref : String
  pub head_sha : String
  pub draft : Bool
  pub mergeable : String
  pub branch_tip : Option String

-- The number behind a branch `agent/issue-N`.
unfoldable pub conflict_branch_issue_number : String → Option ℕ
unfolding after_prefix read_natural
conflict_branch_issue_number head_ref = elim (after_prefix "agent/issue-" head_ref) [
  | none ↦ none
  | some digits ↦ read_natural digits
]

unfoldable pub is_nothing : String → Bool
is_nothing String.[] = true
is_nothing (String.◌∷◌ c s) = false

-- An unknown head or tip is never stale.
unfoldable pub is_pr_head_stale : String → Option String → Bool
unfolding is_nothing
is_pr_head_stale head_sha none = false
is_pr_head_stale head_sha (some tip) =
    not (is_nothing head_sha) && not (is_nothing tip) && not (text_eq tip head_sha)

unfoldable pub is_conflict_detection_eligible :
    TrackerIssue → Bool → String → String → Option String → Bool
unfolding text_eq
is_conflict_detection_eligible issue draft mergeable head_sha branch_tip =
    not draft
    && text_eq mergeable "CONFLICTING"
    && not (is_pr_head_stale head_sha branch_tip)
    && meets_base_queue_rules issue
    && not (member ready_for_agent issue.labels)
    && not (member round_finished issue.labels)
    && not (member ready_for_human issue.labels)
    && not (member merge_conflict issue.labels)
