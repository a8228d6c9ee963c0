-- ===== src/Tracker/Remote.antt =====
-- The tracker as a store of labels behind the transport (simple_coding_agent/github_tracker.py, lines
-- 407-428): the calls that the claims make, and what the claims rely on. One call of a program is
-- one step, so what others do can stand between any two calls.
use simple_coding_agent.Base.{ℕ, String, ◌≡◌, ◌≢◌, true, Option, some, List, member}
use simple_coding_agent.Tracker.Issue.{TrackerIssue}
use simple_coding_agent.Tracker.Calls.{
  GitHubIdentity, Assignment, Program, done, get_issue, viewer, assign_issue, add_label,
  remove_label, remove_assignee,
}

-- A tracker: an issue keeps its node ID, a read shows the labels of its moment, and no call takes a
-- label away but the removal of that label.
pub record Remote : Type 1 where
  pub State : Type 0
  pub node_id : ℕ → String
  pub labels_of : String → State → List String
  pub issue_at : ℕ → State → Option TrackerIssue
  pub assigned : String → String → State → Assignment × State
  pub labelled : String → String → State → State
  pub unlabelled : String → String → State → State
  pub unassigned : String → String → State → State
  pub issue_at-labels :
      (n : ℕ) (s : State) (i : TrackerIssue)
      → issue_at n s ≡ some i
      → i.labels ≡ labels_of (node_id n) s
  pub assigned-labels :
      (i a j : String) (s : State) → labels_of j ((assigned i a s).1) ≡ labels_of j s
  pub unassigned-labels :
      (i a j : String) (s : State) → labels_of j (unassigned i a s) ≡ labels_of j s
  pub labelled-member : (i l : String) (s : State) → member l (labels_of i (labelled i l s)) ≡ true
  pub labelled-keeps :
      (i l j m : String) (s : State)
      → member m (labels_of j s) ≡ true
      → member m (labels_of j (labelled i l s)) ≡ true
  pub unlabelled-keeps :
      (i l j m : String) (s : State)
      → m ≢ l
      → member m (labels_of j s) ≡ true
      → member m (labels_of j (unlabelled i l s)) ≡ true

-- One call of a program, for a worker with this identity. A program that is done stays so.
unfoldable pub call {ℓ} :
    {A : Type ℓ} (remote : Remote)
    → GitHubIdentity
    → Program A
    → remote.State
    → Program A × remote.State
call remote me (done a) s = (done a, s)
call remote me (get_issue n k) s = (k (remote.issue_at n s), s)
call remote me (viewer k) s = (k me, s)
call remote me (assign_issue i a k) s = let r = remote.assigned i a s in (k r.0, r.1)
call remote me (add_label i l p) s = (p, remote.labelled i l s)
call remote me (remove_label i l p) s = (p, remote.unlabelled i l s)
call remote me (remove_assignee i a p) s = (p, remote.unassigned i a s)
