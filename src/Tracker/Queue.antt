-- ===== src/Tracker/Queue.antt =====
-- The runnable queue: `runnable_queue` (simple_coding_agent/github_tracker.py, lines 710-753), over
-- the pages of issues and the open pull requests that the transport returns. `counts` gives the
-- number of automatic continuations of an issue. `sorted` is stable, as is the insertion here.
use simple_coding_agent.Base.{
  ℕ, Bool, ◌&&◌, ◌||◌, not, Option, List, [], ◌∷◌, ◌++◌, ltb, leb, ◌==◌, if◌then◌else◌, select,
}
use simple_coding_agent.Tracker.Issue.{TrackerIssue, OpenPullRequest, is_eligible}
use simple_coding_agent.Tracker.Eligibility.{
  Budgets, is_conflict_eligible, is_auto_continuation_eligible,
}
use simple_coding_agent.Tracker.Detection.{put, detect_conflict_requeues}

unfoldable pub put_all : List TrackerIssue → List TrackerIssue → List TrackerIssue
put_all [] table = table
put_all (i ∷ issues) table = put_all issues (put i table)

-- The dictionary of all pages, in their order.
unfoldable pub put_pages : List (List TrackerIssue) → List TrackerIssue → List TrackerIssue
put_pages [] table = table
put_pages (page ∷ pages) table = put_pages pages (put_all page table)

-- `(created_at, number)` of the first is not above that of the second.
unfoldable pub by_fifo : TrackerIssue → TrackerIssue → Bool
by_fifo a b =
    ltb a.created_at b.created_at || (a.created_at == b.created_at && leb a.number b.number)

unfoldable pub insert_fifo : TrackerIssue → List TrackerIssue → List TrackerIssue
unfolding by_fifo
insert_fifo issue [] = issue ∷ []
insert_fifo issue (i ∷ queue) =
    let rest = insert_fifo issue queue in if by_fifo issue i then issue ∷ i ∷ queue else i ∷ rest

unfoldable pub sorted : List TrackerIssue → List TrackerIssue
sorted [] = []
sorted (i ∷ issues) = insert_fifo i (sorted issues)

-- The three groups, in the order of the tests in the loop.
unfoldable pub is_conflict_work : Budgets → TrackerIssue → Bool
is_conflict_work budgets i = not (is_eligible i) && is_conflict_eligible budgets i

unfoldable pub is_continuation_work : Budgets → (TrackerIssue → Option ℕ) → TrackerIssue → Bool
is_continuation_work budgets counts i =
    not (is_eligible i)
    && not (is_conflict_eligible budgets i)
    && is_auto_continuation_eligible budgets (counts i) i

unfoldable pub queue_of :
    Budgets → (TrackerIssue → Option ℕ) → List TrackerIssue → List TrackerIssue
unfolding is_conflict_work is_continuation_work
queue_of budgets counts table =
    sorted (select (is_conflict_work budgets) table)
    ++ (sorted (select (is_continuation_work budgets counts) table)
        ++ sorted (select is_eligible table))

unfoldable pub runnable_queue :
    Budgets
    → (TrackerIssue → Option ℕ)
    → List (List TrackerIssue)
    → List OpenPullRequest
    → List TrackerIssue
runnable_queue budgets counts pages prs =
    queue_of budgets counts (detect_conflict_requeues budgets prs (put_pages pages [])).by_number
