-- ===== src/Scenarios/Claims.antt =====
-- The tracker's queue and claims on concrete issues.
use simple_coding_agent.Ledger.Sums.{some-injective}
use simple_coding_agent.Base.{
  ℕ, All, String, ◌≡◌, refl, sym, ap, ◌∙◌, ◌≢◌, ◌↔◌, inl, inr, Bool, true, false, not, Option, none,
  some, List, [], ◌∷◌, map, arith, ◌==◌, if◌then◌else◌, Bool-cases, text_eq, text_eq_refl,
  text_eq→≡, is_blank, starts_with, select, any, member,
}
use simple_coding_agent.Tracker.Issue.{
  TrackerIssue, OpenPullRequest, claim_marker_label, is_eligible, has_claim_marker,
  claim_marker_labels, is_claim_marker, is_conflict_signal, is_continuation_signal,
  meets_base_queue_rules,
}
use simple_coding_agent.Tracker.Eligibility.{
  Budgets, is_conflict_eligible, is_auto_continuation_eligible, ineligibility_reason,
}
use simple_coding_agent.Tracker.Reasons.{is_claimable, ineligibility_reason-none}
use simple_coding_agent.Tracker.Detection.{detect_conflict_requeues}
use simple_coding_agent.Tracker.Detected.{detect_conflict_requeues-twice}
use simple_coding_agent.Tracker.Labelled.{Takes, detect_conflict_requeues-Takes}
use simple_coding_agent.Tracker.Queue.{queue_of, sorted, insert_fifo}
use simple_coding_agent.Tracker.Fifo.{
  count_of, MayPrecede, IsOrdered, queue_of-count, queue_of-IsOrdered,
}
use simple_coding_agent.Tracker.Calls.{GitHubIdentity, Program}
use simple_coding_agent.Tracker.Claiming.{
  release_attempt, release_handoff, yield_losing_claim, ClaimResult, claim_verified, claim_as,
  add_own_marker, verify_claim, if_there, verify_fresh, foreign_markers, other_markers,
  other_assignees, finish_claim, remove_stale_claim_labels,
}
use simple_coding_agent.Tracker.Releases.{IsGuarded, releases-IsGuarded}
use simple_coding_agent.Tracker.Remote.{Remote, call}
use simple_coding_agent.Tracker.Stages.{HasWon}
use simple_coding_agent.Tracker.Exclusion.{Race, start, first, second, claim_verified-excludes}

abbrev ready : TrackerIssue
ready = record {
  id = "I7";
  number = 7;
  title = "Fix the parser";
  body = "It drops the last line.";
  created_at = 20;
  state = "OPEN";
  labels = "ready-for-agent" ∷ [];
  assignee_logins = [];
  blocked_by = 0;
  author_login = "ada";
}

abbrev older : TrackerIssue
older = record ready { id = "I5"; number = 5; created_at = 10 }

abbrev finished : TrackerIssue
finished = record ready { id = "I8"; number = 8; labels = "round-finished" ∷ [] }

abbrev human : TrackerIssue
human = record ready { id = "I9"; number = 9; labels = [] }

abbrev budgets : Budgets
budgets = record { max_auto_continuations = 2; max_conflict_attempts = 1 }

abbrev no_continuations : TrackerIssue → Option ℕ
no_continuations i = some 0

abbrev conflicting : OpenPullRequest
conflicting = record {
  number = 31;
  head_ref = "agent/issue-9";
  base_ref = "main";
  head_sha = "c0ffee";
  draft = false;
  mergeable = "CONFLICTING";
  branch_tip = some "c0ffee";
}

abbrev table : List TrackerIssue
table = ready ∷ finished ∷ human ∷ older ∷ []

queue_numbers : map (λ i. i.number) (queue_of budgets no_continuations table) ≡ 8 ∷ 5 ∷ 7 ∷ []
unfolding queue_of sorted select is_eligible member has_claim_marker any starts_with is_blank
    is_conflict_eligible is_conflict_signal is_auto_continuation_eligible is_continuation_signal
    meets_base_queue_rules insert_fifo
queue_numbers = refl

ineligibility_reason-none_example :
    (ineligibility_reason (some ready) 7 2 0 1 ≡ none)
    ↔ (is_claimable budgets (some 0) ready ≡ true)
ineligibility_reason-none_example = ineligibility_reason-none ready 7 0 budgets

queue_of-count_example :
    count_of (λ i. i.number == 5) (queue_of budgets no_continuations table)
    ≡ count_of
        (λ i. i.number == 5)
        (select (λ i. is_claimable budgets (no_continuations i) i) table)
queue_of-count_example = queue_of-count (λ i. i.number == 5) budgets no_continuations table

queue_of-IsOrdered_example :
    IsOrdered (MayPrecede budgets no_continuations) (queue_of budgets no_continuations table)
queue_of-IsOrdered_example = queue_of-IsOrdered budgets no_continuations table

abbrev relabelled : List TrackerIssue
relabelled = (detect_conflict_requeues budgets (conflicting ∷ []) table).by_number

detect_conflict_requeues-twice_example :
    ((detect_conflict_requeues budgets (conflicting ∷ []) relabelled).detected ≡ [])
    × ((detect_conflict_requeues budgets (conflicting ∷ []) relabelled).added_labels ≡ [])
    × ((detect_conflict_requeues budgets (conflicting ∷ []) relabelled).by_number ≡ relabelled)
detect_conflict_requeues-twice_example =
    detect_conflict_requeues-twice budgets (conflicting ∷ []) table

detect_conflict_requeues-Takes_example :
    All
      (Takes budgets relabelled)
      (detect_conflict_requeues budgets (conflicting ∷ []) table).detected
detect_conflict_requeues-Takes_example =
    detect_conflict_requeues-Takes budgets (conflicting ∷ []) table

-- A tracker whose state is the labels of each node ID, with one issue behind every number.
member-select :
    (m l : String) (ls : List String)
    → m ≢ l
    → member m ls ≡ true
    → member m (select (λ s. not (text_eq s l)) ls) ≡ true
unfolding member select
member-select m l [] d h = h
member-select m l (s ∷ ls) d h = elim (Bool-cases (text_eq s l)) [
  | inl b ↦ elim (Bool-cases (text_eq s m)) [
    | inl c ↦ absurd (d (sym (text_eq→≡ s m c) ∙ text_eq→≡ s l b))
    | inr c ↦ rw b (member-select m l ls d (simp c at h))
  ]
  | inr b ↦ rw b (ground (arith, h, member-select m l ls d))
]

member-added :
    (b : Bool) (m l : String) (ls : List String)
    → member m ls ≡ true
    → member m (if b then l ∷ ls else ls) ≡ true
unfolding member
member-added true m l ls h = ground (arith, h)
member-added false m l ls h = h

member-new :
    (i l : String) (ls : List String) → member l (if text_eq i i then l ∷ ls else ls) ≡ true
unfolding member
member-new i l ls = rw (text_eq_refl i, text_eq_refl l) refl

member-removed :
    (b : Bool) (m l : String) (ls : List String)
    → m ≢ l
    → member m ls ≡ true
    → member m (if b then select (λ s. not (text_eq s l)) ls else ls) ≡ true
member-removed true m l ls d h = member-select m l ls d h
member-removed false m l ls d h = h

abbrev desk : Remote
desk = record {
  State = String → List String;
  node_id = λ n. "I7";
  labels_of = λ i s. s i;
  issue_at = λ n s. some (record ready { number = n; labels = s "I7" });
  assigned = λ i a s. (record { issue_id = i; assignee_id = a }, s);
  labelled = λ i l s j. if text_eq j i then l ∷ s j else s j;
  unlabelled = λ i l s j. if text_eq j i then select (λ m. not (text_eq m l)) (s j) else s j;
  unassigned = λ i a s. s;
  issue_at-labels = λ n s i e. ap (λ x. x.labels) (sym (some-injective e));
  assigned-labels = λ i a j s. refl;
  unassigned-labels = λ i a j s. refl;
  labelled-member = λ i l s. member-new i l (s i);
  labelled-keeps = λ i l j m s h. member-added (text_eq j i) m l (s j) h;
  unlabelled-keeps = λ i l j m s d h. member-removed (text_eq j i) m l (s j) d h;
}

abbrev bot : GitHubIdentity
bot = record { id = "U1"; login = "coding-bot" }

abbrev unclaimed : String → List String
unclaimed j = "ready-for-agent" ∷ []

abbrev claim_of : String → Program ClaimResult
claim_of worker = claim_verified (some (claim_marker_label worker)) ready

-- Both workers and the tracker, and one call of either.
abbrev Pair : Type 0
Pair = Program ClaimResult × Program ClaimResult × (String → List String)

abbrev begin : Pair
begin = (claim_of "north", claim_of "south", unclaimed)

abbrev first_calls : Pair → Pair
first_calls c = let r = call desk bot c.0 c.2 in (r.0, c.1, r.1)

abbrev second_calls : Pair → Pair
second_calls c = let r = call desk bot c.1 c.2 in (c.0, r.0, r.1)

-- The first worker adds its marker and reads before the second one does.
abbrev halfway : Pair
halfway = first_calls (first_calls (second_calls (first_calls begin)))

abbrev later : Pair
later = second_calls (second_calls (first_calls halfway))

abbrev race :
    Race desk 7
      (claim_marker_label "north")
      (claim_marker_label "south")
      begin.0
      begin.1
      begin.2
      later.0
      later.1
      later.2
race = second bot (second bot (first bot (first bot (first bot (second bot (first bot start))))))

first_wins : HasWon later.0
unfolding call claim_verified claim_as add_own_marker claim_marker_label verify_claim if_there
    verify_fresh foreign_markers other_markers claim_marker_labels select is_claim_marker
    starts_with text_eq other_assignees finish_claim remove_stale_claim_labels member
first_wins =
    (record { issue = ready; assignment = record { issue_id = "I7"; assignee_id = "U1" } }, refl)

north_south : ◌≢◌ {A = String} "north" "south"
unfolding text_eq
north_south e = ground (arith, ap (λ s. text_eq s "south") e)

claim_verified-excludes_example : ¬ (HasWon later.0 × HasWon later.1)
claim_verified-excludes_example =
    claim_verified-excludes desk "north" "south" ready ready north_south refl refl refl race

releases-IsGuarded_example :
    IsGuarded none (release_attempt (some "claimed-by:north") 7 "ready-for-agent" "U1")
    × IsGuarded none (release_handoff (some "claimed-by:north") 7 "U1")
    × IsGuarded none (yield_losing_claim (some "claimed-by:north") ready bot)
releases-IsGuarded_example =
    releases-IsGuarded "claimed-by:north" 7 "ready-for-agent" "U1" ready bot
