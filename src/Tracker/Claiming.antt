-- ===== src/Tracker/Claiming.antt =====
-- Claims and their release (simple_coding_agent/github_tracker.py, lines 495-513 and 761-1061). An
-- empty worker ID is none. The settle delay is no call; what others do meanwhile is in the answers.
-- Events are not modelled, and the names in a lost claim are kept in the order of the labels.
use simple_coding_agent.Base.{
  ℕ, String, Bool, true, false, ◌&&◌, ◌||◌, not, Option, none, some, List, [], ◌∷◌, ◌++◌,
  if◌then◌else◌, text_eq, select, is_empty, member,
}
use simple_coding_agent.Tracker.Issue.{
  TrackerIssue, ready_for_agent, round_finished, merge_conflict, claim_marker_label,
  claim_marker_labels, has_claim_marker,
}
use simple_coding_agent.Tracker.Eligibility.{Budgets}
use simple_coding_agent.Tracker.Reasons.{is_claimable}
use simple_coding_agent.Tracker.Calls.{
  GitHubIdentity, Assignment, Claim, Program, done, get_issue, viewer, assign_issue, add_label,
  remove_label, remove_assignee, ◌>>=◌, ◌>>◌, when,
}

-- `_own_marker`
unfoldable pub own_marker : String → Option String
own_marker worker_id = if text_eq worker_id "" then none else some (claim_marker_label worker_id)

-- `_other_markers`, for a worker with the marker `own`.
unfoldable pub other_markers : String → List String → List String
other_markers own labels = select (λ l. not (text_eq l own)) (claim_marker_labels labels)

-- The markers of others that a verification looks at.
unfoldable pub foreign_markers : Option String → List String → List String
unfolding other_markers
foreign_markers none labels = []
foreign_markers (some own) labels = other_markers own labels

-- Re-read the issue, and do something if it is still there.
unfoldable pub if_there {ℓ} : {A : Type ℓ} → ℕ → A → (TrackerIssue → Program A) → Program A
if_there n gone f = get_issue n (λ o. elim o [ none ↦ done gone | some issue ↦ f issue ])

-- `_yield_losing_claim`
unfoldable pub yield_losing_claim :
    Option String → TrackerIssue → GitHubIdentity → Program (Unit {0})
unfolding if_there
yield_losing_claim none fresh identity = remove_assignee fresh.id identity.id (done tt)
yield_losing_claim (some own) fresh identity = if_there fresh.number tt (λ first.
    when (member own first.labels) (remove_label first.id own (done tt))
    >> if_there fresh.number tt (λ second.
      when (member identity.login second.assignee_logins && not (has_claim_marker second.labels))
        (remove_assignee second.id identity.id (done tt))))

pub data Verification : Type 0 where
  verified : TrackerIssue → Verification
  lost : ℕ → List String → Verification

unfoldable pub other_assignees : GitHubIdentity → List String → List String
other_assignees identity logins = select (λ l. not (text_eq l identity.login)) logins

-- The decision of `_verify_claim` on the fresh snapshot.
unfoldable pub verify_fresh : Option String → GitHubIdentity → TrackerIssue → Program Verification
verify_fresh own identity fresh =
    let claimants =
      other_assignees identity fresh.assignee_logins ++ foreign_markers own fresh.labels in
    if is_empty claimants
    then done (verified fresh)
    else (yield_losing_claim own fresh identity >> done (lost fresh.number claimants))

-- `_verify_claim`
unfoldable pub verify_claim : Option String → TrackerIssue → GitHubIdentity → Program Verification
unfolding if_there
verify_claim own issue identity =
    if_there issue.number (lost issue.number []) (verify_fresh own identity)

-- `_remove_stale_claim_labels`
unfoldable pub remove_stale_claim_labels : TrackerIssue → Program (Unit {0})
remove_stale_claim_labels issue =
    when (member round_finished issue.labels) (remove_label issue.id round_finished (done tt))
    >> when
        (member merge_conflict issue.labels
          && (member ready_for_agent issue.labels || member round_finished issue.labels))
        (remove_label issue.id merge_conflict (done tt))

unfoldable pub add_own_marker : Option String → TrackerIssue → Program (Unit {0})
add_own_marker none issue = done tt
add_own_marker (some own) issue = add_label issue.id own (done tt)

pub data ClaimResult : Type 0 where
  claimed : Claim → ClaimResult
  claim_lost : ℕ → List String → ClaimResult

-- What both claims end with: the stale labels go, for the verified winner alone.
unfoldable pub finish_claim : TrackerIssue → Assignment → Verification → Program ClaimResult
finish_claim issue assignment (verified fresh) =
    remove_stale_claim_labels fresh
    >> done (claimed (record { issue = issue; assignment = assignment }))
finish_claim issue assignment (lost n claimants) = done (claim_lost n claimants)

-- Assign, mark, verify, and clear the stale labels.
unfoldable pub claim_as : Option String → TrackerIssue → GitHubIdentity → Program ClaimResult
claim_as own issue identity = assign_issue issue.id identity.id (λ assignment.
    add_own_marker own issue >> (verify_claim own issue identity >>= finish_claim issue assignment))

-- `claim_verified`; a lost claim is `ClaimLostError`.
unfoldable pub claim_verified : Option String → TrackerIssue → Program ClaimResult
claim_verified own issue = viewer (claim_as own issue)

-- The loop of `claim_next` over the queue.
unfoldable pub claim_candidates :
    Budgets
    → (TrackerIssue → Option ℕ)
    → Option String
    → GitHubIdentity
    → List TrackerIssue
    → Program (Option Claim)
claim_candidates budgets counts own identity [] = done none
claim_candidates budgets counts own identity (candidate ∷ queue) =
    let next = claim_candidates budgets counts own identity queue in
    get_issue candidate.number (λ o. elim o [
      | none ↦ next
      | some current ↦
          if is_claimable budgets (counts current) current
          then (claim_as own current identity >>= λ r. elim r [
            | claimed claim ↦ done (some claim)
            | claim_lost n claimants ↦ next
          ])
          else next
    ])

-- `claim_next`, after the queue has been built.
unfoldable pub claim_next :
    Budgets → (TrackerIssue → Option ℕ) → Option String → List TrackerIssue → Program (Option Claim)
claim_next budgets counts own [] = done none
claim_next budgets counts own (i ∷ queue) =
    viewer (λ identity. claim_candidates budgets counts own identity (i ∷ queue))

-- Whether a marked worker's claim on the issue can be taken up again.
unfoldable pub may_recover : Option String → GitHubIdentity → TrackerIssue → Bool
may_recover none identity current = true
may_recover (some own) identity current =
    member identity.login current.assignee_logins
    && (member own current.labels || not (has_claim_marker current.labels))

-- `recover_claim`
unfoldable pub recover_claim : Option String → ℕ → Program (Option Claim)
unfolding may_recover
recover_claim own n = if_there n none (λ current. viewer (λ identity.
    if may_recover own identity current
    then done (
        some (record {
          issue = current;
          assignment = record { issue_id = current.id; assignee_id = identity.id };
        }))
    else done none))

-- `_release_own_marker`: false if the issue is gone.
unfoldable pub release_own_marker : Option String → ℕ → Program Bool
unfolding if_there
release_own_marker none n = done true
release_own_marker (some own) n = if_there n false (λ current.
    when (member own current.labels) (remove_label current.id own (done tt)) >> done true)

unfoldable pub is_marked_for : Option String → List String → Bool
is_marked_for none labels = false
is_marked_for (some own) labels = has_claim_marker labels

-- The last steps of both releases: the own marker, then the assignment unless another marker is left.
unfoldable pub release_assignment : Option String → ℕ → String → Program (Unit {0})
unfolding is_marked_for
release_assignment own n assignee_id = release_own_marker own n >>= λ there.
    if there
    then if_there n tt (λ current. viewer (λ identity.
      when (member identity.login current.assignee_logins && not (is_marked_for own current.labels))
        (remove_assignee current.id assignee_id (done tt))))
    else done tt

-- `release_attempt`
unfoldable pub release_attempt : Option String → ℕ → String → String → Program (Unit {0})
release_attempt own n label assignee_id = if_there n tt (λ current.
    when (member label current.labels) (remove_label current.id label (done tt))
    >> release_assignment own n assignee_id)

-- `release_handoff`
unfoldable pub release_handoff : Option String → ℕ → String → Program (Unit {0})
release_handoff own n assignee_id = if_there n tt (λ first.
    when (member ready_for_agent first.labels) (remove_label first.id ready_for_agent (done tt))
    >> if_there n tt (λ second.
      when (not (member round_finished second.labels))
        (add_label second.id round_finished (done tt))
      >> release_assignment own n assignee_id))
