-- ===== src/Tracker/Detected.antt =====
-- What the detector does when it is run again, and on what it detects.
use mathlib.Core.Path.{subst}
use simple_coding_agent.Base.{
  ℕ, ◌≡◌, refl, sym, ap, ◌∙◌, inl, inr, Bool, true, false, Option, none, some, List, [], ◌∷◌, ◌++◌,
  arith, ltb, ◌==◌, if◌then◌else◌, Bool-cases, Option-cases, text_eq, member, All,
}
use simple_coding_agent.Tracker.Issue.{
  TrackerIssue, OpenPullRequest, merge_conflict, conflict_branch_issue_number,
  is_conflict_detection_eligible,
}
use simple_coding_agent.Tracker.Eligibility.{Budgets}
use simple_coding_agent.Tracker.Detection.{
  get, put, with_label, Detection, detects, is_skipped_as_stale, issue_of, detect_issue, detect_one,
  detect_all, detect_conflict_requeues,
}

pub get-put :
    (n : ℕ) (issue : TrackerIssue) (table : List TrackerIssue)
    → get n (put issue table) ≡ (if issue.number == n then some issue else get n table)
unfolding get put
get-put n issue [] = refl
get-put n issue (i ∷ table) = ground (arith, get-put n issue table)

-- What is found under a number has that number.
get-number :
    (n : ℕ) (table : List TrackerIssue) (issue : TrackerIssue)
    → get n table ≡ some issue
    → issue.number ≡ n
unfolding get
get-number n [] issue h = ground arith
get-number n (i ∷ table) issue h = ground (arith, get-number n table issue)

-- The pull request is detected in a table.
abbrev is_detected_in : OpenPullRequest → Option TrackerIssue → Bool
is_detected_in pr none = false
is_detected_in pr (some issue) = detects pr issue

labelled-not_detected :
    (pr : OpenPullRequest) (issue : TrackerIssue)
    → detects pr (with_label merge_conflict issue) ≡ false
unfolding detects with_label is_conflict_detection_eligible member text_eq
labelled-not_detected pr issue = ground arith

-- Nothing that was not detected before is detected after an issue has been labelled.
labelled_stays :
    (pr : OpenPullRequest) (issue : TrackerIssue) (table : List TrackerIssue)
    → is_detected_in pr (issue_of pr table) ≡ false
    → is_detected_in pr (issue_of pr (put (with_label merge_conflict issue) table)) ≡ false
unfolding issue_of with_label
labelled_stays pr issue table h = elim (Option-cases (conflict_branch_issue_number pr.head_ref)) [
  | inl e ↦ rw (e, issue_of) refl
  | inr (n, e) ↦
      let found = get-put n (with_label merge_conflict issue) table in
      elim (Bool-cases (issue.number == n)) [
        | inl same ↦ rw (e, issue_of) (rw found (rw same (labelled-not_detected pr issue)))
        | inr other ↦ rw (e, issue_of) (rw found (rw other (rw (e, issue_of) at h)))
      ]
]

issue_of-number :
    (pr : OpenPullRequest) (table : List TrackerIssue) (issue : TrackerIssue)
    → issue_of pr table ≡ some issue
    → conflict_branch_issue_number pr.head_ref ≡ some issue.number
unfolding issue_of
issue_of-number pr table issue h = elim (Option-cases (conflict_branch_issue_number pr.head_ref)) [
  | inl e ↦ absurd (ground (arith, e, h))
  | inr (n, e) ↦ e ∙ ap some (sym (get-number n table issue (rw (e, issue_of) at h)))
]

-- The issue just labelled is not detected again.
labelled_once :
    (pr : OpenPullRequest) (issue : TrackerIssue) (table : List TrackerIssue)
    → issue_of pr table ≡ some issue
    → is_detected_in pr (issue_of pr (put (with_label merge_conflict issue) table)) ≡ false
unfolding with_label issue_of
labelled_once pr issue table h =
    let e = issue_of-number pr table issue h in
    let found = get-put issue.number (with_label merge_conflict issue) table in
    let same : issue.number == issue.number ≡ true = ground arith in
    rw (e, issue_of) (rw found (rw same (labelled-not_detected pr issue)))

-- The pull request is not detected in the table of a state.
abbrev IsSettled : Detection → OpenPullRequest → Type 0
IsSettled d pr = is_detected_in pr (issue_of pr d.by_number) ≡ false

detect_issue-IsSettled :
    (q pr : OpenPullRequest) (issue : TrackerIssue) (d : Detection)
    → IsSettled d pr
    → IsSettled (detect_issue q issue d) pr
unfolding detect_issue
detect_issue-IsSettled q pr issue d h = elim (Bool-cases (detects q issue)) [
  | inl e ↦ simp (e, detect_issue) (labelled_stays pr issue d.by_number h)
  | inr e ↦ simp (e, detect_issue) (skipped_stays (is_skipped_as_stale q issue))
]
  where
    skipped_stays :
        (b : Bool) → IsSettled (if b then record d { skipped = d.skipped ++ q ∷ [] } else d) pr
    skipped_stays true = h
    skipped_stays false = h

detect_one-IsSettled :
    (q pr : OpenPullRequest) (d : Detection) → IsSettled d pr → IsSettled (detect_one q d) pr
unfolding detect_one
detect_one-IsSettled q pr d h = elim (Option-cases (issue_of q d.by_number)) [
  | inl e ↦ simp (e, detect_one) h
  | inr (issue, e) ↦ simp (e, detect_one) (detect_issue-IsSettled q pr issue d h)
]

detect_all-IsSettled :
    (prs : List OpenPullRequest) (pr : OpenPullRequest) (d : Detection)
    → IsSettled d pr
    → IsSettled (detect_all prs d) pr
unfolding detect_all
detect_all-IsSettled [] pr d h = h
detect_all-IsSettled (q ∷ prs) pr d h =
    detect_all-IsSettled prs pr (detect_one q d) (detect_one-IsSettled q pr d h)

-- After its own turn a pull request is settled.
detect_one-settles : (pr : OpenPullRequest) (d : Detection) → IsSettled (detect_one pr d) pr
unfolding detect_one detect_issue
detect_one-settles pr d = elim (Option-cases (issue_of pr d.by_number)) [
  | inl e ↦ simp (e, detect_one)
  | inr (issue, e) ↦ elim (Bool-cases (detects pr issue)) [
    | inl b ↦ simp (e, b, detect_one, detect_issue) (labelled_once pr issue d.by_number e)
    | inr b ↦
        let settled : IsSettled d pr = simp (e, b) in
        rw (e, detect_one) (detect_issue-IsSettled pr pr issue d settled)
  ]
]

detect_all-settles :
    (prs : List OpenPullRequest) (d : Detection) → All (IsSettled (detect_all prs d)) prs
unfolding detect_all
detect_all-settles [] d = tt
detect_all-settles (pr ∷ prs) d = (
  detect_all-IsSettled prs pr (detect_one pr d) (detect_one-settles pr d),
  detect_all-settles prs (detect_one pr d),
)

-- No issue was labelled between the two states.
pub record SameLabels (d d' : Detection) : Type 0 where
  pub by_number : d'.by_number ≡ d.by_number
  pub added_labels : d'.added_labels ≡ d.added_labels
  pub detected : d'.detected ≡ d.detected

detect_one-SameLabels :
    (pr : OpenPullRequest) (d : Detection) → IsSettled d pr → SameLabels d (detect_one pr d)
unfolding detect_one detect_issue
detect_one-SameLabels pr d h = elim (Option-cases (issue_of pr d.by_number)) [
  | inl e ↦ simp (e, detect_one) (record { by_number = refl; added_labels = refl; detected = refl })
  | inr (issue, e) ↦
      let missed : detects pr issue ≡ false = simp e at h in
      elim (Bool-cases (is_skipped_as_stale pr issue)) [
        | inl b ↦
            simp (e, missed, b, detect_one, detect_issue)
              (record { by_number = refl; added_labels = refl; detected = refl })
        | inr b ↦
            simp (e, missed, b, detect_one, detect_issue)
              (record { by_number = refl; added_labels = refl; detected = refl })
      ]
]

detect_all-SameLabels :
    (prs : List OpenPullRequest) (d d' : Detection)
    → SameLabels d d'
    → All (IsSettled d) prs
    → SameLabels d (detect_all prs d')
unfolding detect_all
detect_all-SameLabels [] d d' s h = s
detect_all-SameLabels (pr ∷ prs) d d' s h =
    let settled : IsSettled d' pr =
      subst (λ t. is_detected_in pr (issue_of pr t) ≡ false) (sym s.by_number) h.0 in
    let next = detect_one-SameLabels pr d' settled in
    detect_all-SameLabels prs d (detect_one pr d')
      (record {
        by_number = next.by_number ∙ s.by_number;
        added_labels = next.added_labels ∙ s.added_labels;
        detected = next.detected ∙ s.detected;
      })
      h.1

-- A second poll over the same pull requests labels nothing: after the first one every issue behind
-- a conflicting pull request carries the label or is not eligible.
pub detect_conflict_requeues-twice :
    (budgets : Budgets) (prs : List OpenPullRequest) (table : List TrackerIssue)
    → let first = (detect_conflict_requeues budgets prs table).by_number in
      ((detect_conflict_requeues budgets prs first).detected ≡ [])
      × ((detect_conflict_requeues budgets prs first).added_labels ≡ [])
      × ((detect_conflict_requeues budgets prs first).by_number ≡ first)
unfolding detect_conflict_requeues
detect_conflict_requeues-twice budgets prs table =
    elim (Bool-cases (ltb 0 budgets.max_conflict_attempts)) [
      | inl b ↦ rw b (
          let d = detect_all prs (start_of table) in
          let s =
            detect_all-SameLabels prs (start_of d.by_number) (start_of d.by_number)
              (record { by_number = refl; added_labels = refl; detected = refl })
              (detect_all-settles prs (start_of table)) in
          (s.detected, s.added_labels, s.by_number))
      | inr b ↦ rw b (refl, refl, refl)
    ]
  where
    start_of : List TrackerIssue → Detection
    start_of t = record { by_number = t; added_labels = []; detected = []; skipped = [] }
