-- ===== src/Tracker/Labelled.antt =====
-- What the conflict detector's labels do to eligibility in the same poll.
use simple_coding_agent.Base.{
  ℕ, String, ◌≡◌, refl, ap, ◌∙◌, inl, inr, true, some, List, [], ◌∷◌, arith, ltb, ◌==◌,
  if◌then◌else◌, Bool-cases, Option-cases, text_eq, starts_with, any, member, All, All-append,
  All-map,
}
use simple_coding_agent.Tracker.Issue.{
  TrackerIssue, OpenPullRequest, merge_conflict, is_claim_marker, has_claim_marker,
  is_conflict_detection_eligible, is_conflict_signal, meets_base_queue_rules, is_open,
}
use simple_coding_agent.Tracker.Eligibility.{Budgets, is_conflict_eligible}
use simple_coding_agent.Tracker.Detection.{
  get, put, with_label, Detection, detects, is_skipped_as_stale, issue_of, detect_issue, detect_one,
  detect_all, detect_conflict_requeues,
}
use simple_coding_agent.Tracker.Detected.{get-put}

label_no_marker :
    (issue : TrackerIssue)
    → has_claim_marker (with_label merge_conflict issue).labels ≡ has_claim_marker issue.labels
unfolding has_claim_marker with_label is_claim_marker any starts_with
label_no_marker issue = refl

base_rules_kept :
    (issue : TrackerIssue)
    → meets_base_queue_rules (with_label merge_conflict issue) ≡ meets_base_queue_rules issue
unfolding meets_base_queue_rules with_label is_open
base_rules_kept issue = simp (label_no_marker issue)

labelled-is_conflict_eligible :
    (budgets : Budgets) (pr : OpenPullRequest) (issue : TrackerIssue)
    → ltb 0 budgets.max_conflict_attempts ≡ true
    → detects pr issue ≡ true
    → is_conflict_eligible budgets (with_label merge_conflict issue) ≡ true
unfolding detects is_conflict_detection_eligible is_conflict_eligible is_conflict_signal with_label
    member text_eq
labelled-is_conflict_eligible budgets pr issue b h = ground (arith, base_rules_kept issue)

-- The issue of a detection stands in the table, eligible for a conflict attempt.
abbrev pub Takes : Budgets → List TrackerIssue → ℕ × ℕ × String → Type 0
Takes budgets table found =
    (issue : TrackerIssue) × (get found.0 table ≡ some issue)
    × (is_conflict_eligible budgets issue ≡ true)

module _ (budgets : Budgets) (b : ltb 0 budgets.max_conflict_attempts ≡ true) where
  put-Takes :
      (issue : TrackerIssue) (table : List TrackerIssue) (found : ℕ × ℕ × String)
      → is_conflict_eligible budgets issue ≡ true
      → Takes budgets table found
      → Takes budgets (put issue table) found
  put-Takes issue table found e t =
      let g = get-put found.0 issue table in
      elim (Bool-cases (issue.number == found.0)) [
        | inl same ↦ (issue, g ∙ ap (λ x. if x then some issue else get found.0 table) same, e)
        | inr other ↦
            (t.0, g ∙ (ap (λ x. if x then some issue else get found.0 table) other ∙ t.1), t.2)
      ]

  put-own :
      (issue : TrackerIssue) (table : List TrackerIssue) (n : ℕ) (sha : String)
      → is_conflict_eligible budgets issue ≡ true
      → Takes budgets (put issue table) (issue.number, n, sha)
  put-own issue table n sha e =
      let same : issue.number == issue.number ≡ true = ground arith in
      (
        issue,
        get-put issue.number issue table
            ∙ ap (λ x. if x then some issue else get issue.number table) same,
        e,
      )

  -- All that was detected so far can be taken.
  abbrev AllTaken : Detection → Type 0
  AllTaken d = All (Takes budgets d.by_number) d.detected

  detect_issue-AllTaken :
      (pr : OpenPullRequest) (issue : TrackerIssue) (d : Detection)
      → AllTaken d
      → AllTaken (detect_issue pr issue d)
  unfolding detect_issue
  detect_issue-AllTaken pr issue d h = elim (Bool-cases (detects pr issue)) [
    | inl e ↦
        let new = with_label merge_conflict issue in
        let ok = labelled-is_conflict_eligible budgets pr issue b e in
        rw e (
          All-append (Takes budgets (put new d.by_number)) d.detected _
            (All-map (Takes budgets d.by_number) (Takes budgets (put new d.by_number))
              (λ found. put-Takes new d.by_number found ok) d.detected h)
            (unfold with_label in put-own new d.by_number pr.number pr.head_sha ok, tt))
    | inr e ↦
        rw e (elim (Bool-cases (is_skipped_as_stale pr issue)) [ inl k ↦ rw k h | inr k ↦ rw k h ])
  ]

  detect_all-AllTaken :
      (prs : List OpenPullRequest) (d : Detection) → AllTaken d → AllTaken (detect_all prs d)
  unfolding detect_all detect_one
  detect_all-AllTaken [] d h = h
  detect_all-AllTaken (pr ∷ prs) d h =
      detect_all-AllTaken prs (detect_one pr d) (elim (Option-cases (issue_of pr d.by_number)) [
        | inl e ↦ rw (e, detect_one) h
        | inr (issue, e) ↦ rw (e, detect_one) (detect_issue-AllTaken pr issue d h)
      ])

-- Every issue that the detector labels stands in the table that it leaves behind, as an issue that
-- is eligible for a conflict attempt.
pub detect_conflict_requeues-Takes :
    (budgets : Budgets) (prs : List OpenPullRequest) (table : List TrackerIssue)
    → let d = detect_conflict_requeues budgets prs table in
      All (Takes budgets d.by_number) d.detected
unfolding detect_conflict_requeues
detect_conflict_requeues-Takes budgets prs table =
    elim (Bool-cases (ltb 0 budgets.max_conflict_attempts)) [
      | inl b ↦ rw b (detect_all-AllTaken budgets b prs _ tt)
      | inr b ↦ rw b tt
    ]
