-- ===== src/Tracker/Reasons.antt =====
-- The agreement of `ineligibility_reason` with the queue.
use simple_coding_agent.Base.{
  ℕ, ◌≡◌, ◌↔◌, inl, inr, Bool, true, false, ◌||◌, Option, none, some, arith, Bool-cases, member,
}
use simple_coding_agent.Tracker.Issue.{
  TrackerIssue, ready_for_agent, is_open, meets_base_queue_rules, is_eligible,
  is_continuation_signal, is_conflict_signal,
}
use simple_coding_agent.Tracker.Eligibility.{
  Budgets, is_conflict_eligible, below_budget, is_auto_continuation_eligible, common_reason,
  unlabelled_reason, ineligibility_reason,
}

common_reason-none :
    (issue : TrackerIssue) (number : ℕ)
    → is_open issue ≡ true
    → (common_reason issue number ≡ none) ↔ (meets_base_queue_rules issue ≡ true)
unfolding common_reason meets_base_queue_rules
common_reason-none issue number o = ground arith

-- An issue that the queue takes as ordinary work, as a continuation or for a conflict attempt.
abbrev pub is_claimable : Budgets → Option ℕ → TrackerIssue → Bool
is_claimable budgets count issue =
    is_eligible issue
    || is_conflict_eligible budgets issue
    || is_auto_continuation_eligible budgets count issue

unlabelled_reason-none :
    (issue : TrackerIssue) (number count : ℕ) (budgets : Budgets)
    → is_open issue ≡ true
    → member ready_for_agent issue.labels ≡ false
    → (unlabelled_reason issue number budgets.max_auto_continuations count
          budgets.max_conflict_attempts
        ≡ none)
      ↔ (is_claimable budgets (some count) issue ≡ true)
unfolding unlabelled_reason is_eligible is_conflict_eligible is_auto_continuation_eligible
    below_budget is_conflict_signal is_continuation_signal
unlabelled_reason-none issue number count budgets o l =
    ground (arith, common_reason-none issue number o)

labelled_reason-none :
    (issue : TrackerIssue) (number count : ℕ) (budgets : Budgets)
    → is_open issue ≡ true
    → member ready_for_agent issue.labels ≡ true
    → (common_reason issue number ≡ none) ↔ (is_claimable budgets (some count) issue ≡ true)
unfolding is_eligible is_conflict_eligible is_auto_continuation_eligible is_conflict_signal
    is_continuation_signal meets_base_queue_rules
labelled_reason-none issue number count budgets o l =
    ground (arith, common_reason-none issue number o)

closed_unclaimable :
    (issue : TrackerIssue) (count : ℕ) (budgets : Budgets)
    → is_open issue ≡ false
    → is_claimable budgets (some count) issue ≡ false
unfolding is_eligible is_conflict_eligible is_auto_continuation_eligible meets_base_queue_rules
closed_unclaimable issue count budgets o = ground arith

-- A target of `next issue` is accepted exactly if the queue would take the issue, as ordinary work,
-- as a continuation within its budget, or for a conflict attempt.
pub ineligibility_reason-none :
    (issue : TrackerIssue) (number count : ℕ) (budgets : Budgets)
    → (ineligibility_reason
          (some issue)
          number
          budgets.max_auto_continuations
          count
          budgets.max_conflict_attempts
        ≡ none)
      ↔ (is_claimable budgets (some count) issue ≡ true)
unfolding ineligibility_reason
ineligibility_reason-none issue number count budgets = elim (Bool-cases (is_open issue)) [
  | inl o ↦ elim (Bool-cases (member ready_for_agent issue.labels)) [
    | inl l ↦
        simp (o, l, ineligibility_reason) (labelled_reason-none issue number count budgets o l)
    | inr l ↦
        simp (o, l, ineligibility_reason) (unlabelled_reason-none issue number count budgets o l)
  ]
  | inr o ↦ ground (arith, closed_unclaimable issue count budgets o)
]
