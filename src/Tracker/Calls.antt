-- ===== src/Tracker/Calls.antt =====
-- Procedures over the transport (simple_coding_agent/github_tracker.py, lines 407-428) as programs:
-- a program is a result, or one call and what follows for each answer. A run of it against a
-- tracker, alone or among others, is in Tracker/Remote and Tracker/Exclusion.
use simple_coding_agent.Base.{ℕ, String, Option, Bool, true, false}
use simple_coding_agent.Tracker.Issue.{TrackerIssue}

pub record GitHubIdentity : Type 0 where
  pub id : String
  pub login : String

pub record Assignment : Type 0 where
  pub issue_id : String
  pub assignee_id : String

pub record Claim : Type 0 where
  pub issue : TrackerIssue
  pub assignment : Assignment

pub data Program {ℓ} (A : Type ℓ) : Type ℓ where
  done : A → Program A
  get_issue : ℕ → (Option TrackerIssue → Program A) → Program A
  viewer : (GitHubIdentity → Program A) → Program A
  assign_issue : String → String → (Assignment → Program A) → Program A
  add_label : String → String → Program A → Program A
  remove_label : String → String → Program A → Program A
  remove_assignee : String → String → Program A → Program A

infixl 5 ◌>>=◌ ◌>>◌
abbrev pub ◌>>=◌ {ℓ κ} : {A : Type ℓ} {B : Type κ} → Program A → (A → Program B) → Program B
done a >>= f = f a
get_issue n k >>= f = get_issue n (λ o. k o >>= f)
viewer k >>= f = viewer (λ i. k i >>= f)
assign_issue i a k >>= f = assign_issue i a (λ r. k r >>= f)
add_label i l p >>= f = add_label i l (p >>= f)
remove_label i l p >>= f = remove_label i l (p >>= f)
remove_assignee i a p >>= f = remove_assignee i a (p >>= f)

abbrev pub ◌>>◌ {ℓ} : {B : Type ℓ} → Program (Unit {0}) → Program B → Program B
p >> q = p >>= λ _. q

-- `if test: p`
abbrev pub when : Bool → Program (Unit {0}) → Program (Unit {0})
when true p = p
when false p = done tt
