-- ===== src/Tracker/Releases.antt =====
-- The releases and the yield of a lost claim (simple_coding_agent/github_tracker.py, lines 831-861 and
-- 984-1061), for a worker with a marker under a shared login.
use simple_coding_agent.Base.{
  ℕ, String, ◌≡◌, refl, Bool, true, false, ◌&&◌, not, Option, none, some, arith, if◌then◌else◌,
  member,
}
use simple_coding_agent.Tracker.Issue.{
  TrackerIssue, ready_for_agent, round_finished, has_claim_marker,
}
use simple_coding_agent.Tracker.Calls.{
  GitHubIdentity, Assignment, Program, done, get_issue, viewer, assign_issue, add_label,
  remove_label, remove_assignee, ◌>>=◌, when,
}
use simple_coding_agent.Tracker.Claiming.{
  if_there, yield_losing_claim, release_own_marker, is_marked_for, release_assignment,
  release_attempt, release_handoff,
}

-- The issue that was read last shows no marker.
abbrev pub IsUnmarked : Option TrackerIssue → Type 0
IsUnmarked none = ⊥
IsUnmarked (some issue) = has_claim_marker issue.labels ≡ false

-- The program takes the assignment away only right after a read, but for a call of `viewer`, that
-- showed no marker at all. The first argument is the last read, if no other call followed it.
abbrev pub IsGuarded {ℓ} : {A : Type ℓ} → Option TrackerIssue → Program A → Type 0
IsGuarded last (done a) = Unit
IsGuarded last (get_issue n k) = (o : Option TrackerIssue) → IsGuarded o (k o)
IsGuarded last (viewer k) = (i : GitHubIdentity) → IsGuarded last (k i)
IsGuarded last (assign_issue i a k) = (r : Assignment) → IsGuarded none (k r)
IsGuarded last (add_label i l p) = IsGuarded none p
IsGuarded last (remove_label i l p) = IsGuarded none p
IsGuarded last (remove_assignee i a p) = IsUnmarked last × IsGuarded none p

IsGuarded-bind {ℓ κ} :
    {A : Type ℓ} {B : Type κ} (last : Option TrackerIssue) (p : Program A) (f : A → Program B)
    → IsGuarded last p
    → ((o : Option TrackerIssue) (a : A) → IsGuarded o (f a))
    → IsGuarded last (p >>= f)
IsGuarded-bind last (done a) f h hf = hf last a
IsGuarded-bind last (get_issue n k) f h hf = λ o. IsGuarded-bind o (k o) f (h o) hf
IsGuarded-bind last (viewer k) f h hf = λ i. IsGuarded-bind last (k i) f (h i) hf
IsGuarded-bind last (assign_issue i a k) f h hf = λ r. IsGuarded-bind none (k r) f (h r) hf
IsGuarded-bind last (add_label i l p) f h hf = IsGuarded-bind none p f h hf
IsGuarded-bind last (remove_label i l p) f h hf = IsGuarded-bind none p f h hf
IsGuarded-bind last (remove_assignee i a p) f h hf = (h.0, IsGuarded-bind none p f h.1 hf)

if_there-IsGuarded {ℓ} :
    {A : Type ℓ} (last : Option TrackerIssue) (n : ℕ) (gone : A) (f : TrackerIssue → Program A)
    → ((i : TrackerIssue) → IsGuarded (some i) (f i))
    → IsGuarded last (if_there n gone f)
unfolding if_there
if_there-IsGuarded last n gone f h none = tt
if_there-IsGuarded last n gone f h (some i) = h i

when-IsGuarded :
    (last : Option TrackerIssue) (b : Bool) (p : Program (Unit {0}))
    → (b ≡ true → IsGuarded last p)
    → IsGuarded last (when b p)
when-IsGuarded last true p h = h refl
when-IsGuarded last false p h = tt

-- The last step of each: the assignment goes if the login is assigned and no marker is left.
unassign-IsGuarded :
    (i : TrackerIssue) (login assignee_id : String)
    → IsGuarded (some i) (
        when
          (member login i.assignee_logins && not (has_claim_marker i.labels))
          (remove_assignee i.id assignee_id (done tt)))
unassign-IsGuarded i login assignee_id =
    when-IsGuarded (some i) (member login i.assignee_logins && not (has_claim_marker i.labels))
      (remove_assignee i.id assignee_id (done tt)) (λ b. (ground (arith, b), tt))

release_own_marker-IsGuarded :
    (last : Option TrackerIssue) (own : String) (n : ℕ)
    → IsGuarded last (release_own_marker (some own) n)
unfolding release_own_marker
release_own_marker-IsGuarded last own n = if_there-IsGuarded last n false _ (λ i.
    IsGuarded-bind (some i) (when (member own i.labels) (remove_label i.id own (done tt))) _
      (when-IsGuarded (some i) (member own i.labels) _ (λ b. tt)) (λ o a. tt))

release_assignment-IsGuarded :
    (last : Option TrackerIssue) (own : String) (n : ℕ) (assignee_id : String)
    → IsGuarded last (release_assignment (some own) n assignee_id)
unfolding release_assignment is_marked_for
release_assignment-IsGuarded last own n assignee_id =
    IsGuarded-bind last (release_own_marker (some own) n) _
      (release_own_marker-IsGuarded last own n) rest
  where
    rest :
        (o : Option TrackerIssue) (there : Bool)
        → IsGuarded o (
            if there
            then if_there n tt (λ current. viewer (λ identity.
              when
                (member identity.login current.assignee_logins
                  && not (is_marked_for (some own) current.labels))
                (remove_assignee current.id assignee_id (done tt))))
            else done tt)
    rest o true =
        if_there-IsGuarded o n tt _ (λ i identity. unassign-IsGuarded i identity.login assignee_id)
    rest o false = tt

-- A worker with a marker that releases an attempt, releases a handoff, or yields a lost claim takes
-- the shared assignment off the issue only if the read just before showed no claim marker, its own
-- or another's. This holds for every sequence of answers of the tracker.
pub releases-IsGuarded :
    (own : String) (n : ℕ) (label assignee_id : String) (fresh : TrackerIssue)
    (identity : GitHubIdentity)
    → IsGuarded none (release_attempt (some own) n label assignee_id)
      × IsGuarded none (release_handoff (some own) n assignee_id)
      × IsGuarded none (yield_losing_claim (some own) fresh identity)
unfolding release_attempt release_handoff yield_losing_claim
releases-IsGuarded own n label assignee_id fresh identity = (
  if_there-IsGuarded none n tt _ (λ i.
      IsGuarded-bind (some i) (when (member label i.labels) (remove_label i.id label (done tt))) _
        (when-IsGuarded (some i) (member label i.labels) _ (λ b. tt))
        (λ o a. release_assignment-IsGuarded o own n assignee_id)),
  if_there-IsGuarded none n tt _ (λ i.
      IsGuarded-bind (some i)
        (when (member ready_for_agent i.labels) (remove_label i.id ready_for_agent (done tt))) _
        (when-IsGuarded (some i) (member ready_for_agent i.labels) _ (λ b. tt))
        (λ o a. if_there-IsGuarded o n tt _ (λ j.
          IsGuarded-bind (some j)
            (when (not (member round_finished j.labels)) (add_label j.id round_finished (done tt)))
            _ (when-IsGuarded (some j) (not (member round_finished j.labels)) _ (λ b. tt))
            (λ o a. release_assignment-IsGuarded o own n assignee_id)))),
  if_there-IsGuarded none fresh.number tt _ (λ i.
      IsGuarded-bind (some i) (when (member own i.labels) (remove_label i.id own (done tt))) _
        (when-IsGuarded (some i) (member own i.labels) _ (λ b. tt))
        (λ o a.
          if_there-IsGuarded o fresh.number tt _
            (λ j. unassign-IsGuarded j identity.login identity.id))),
)
