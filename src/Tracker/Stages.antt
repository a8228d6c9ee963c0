-- ===== src/Tracker/Stages.antt =====
-- What a program may still do: the labels it spares, the results it can end with, and how far a
-- claim has come.
use simple_coding_agent.Base.{ℕ, String, ◌≡◌, ◌≢◌, ◌⊎◌, Bool, true, false, Option, some, member}
use simple_coding_agent.Tracker.Issue.{TrackerIssue}
use simple_coding_agent.Tracker.Calls.{
  GitHubIdentity, Assignment, Claim, Program, done, get_issue, viewer, assign_issue, add_label,
  remove_label, remove_assignee, ◌>>=◌, when,
}
use simple_coding_agent.Tracker.Claiming.{ClaimResult, claimed, claim_lost}

-- The program never removes the label.
abbrev pub Spares {ℓ} : {A : Type ℓ} → String → Program A → Type 0
Spares m (done a) = Unit
Spares m (get_issue n k) = (o : Option TrackerIssue) → Spares m (k o)
Spares m (viewer k) = (i : GitHubIdentity) → Spares m (k i)
Spares m (assign_issue i a k) = (r : Assignment) → Spares m (k r)
Spares m (add_label i l p) = Spares m p
Spares m (remove_label i l p) = (m ≢ l) × Spares m p
Spares m (remove_assignee i a p) = Spares m p

-- Every result of the program has the property.
abbrev pub Returns {ℓ} : {A : Type ℓ} → (A → Type 0) → Program A → Type 0
Returns P (done a) = P a
Returns P (get_issue n k) = (o : Option TrackerIssue) → Returns P (k o)
Returns P (viewer k) = (i : GitHubIdentity) → Returns P (k i)
Returns P (assign_issue i a k) = (r : Assignment) → Returns P (k r)
Returns P (add_label i l p) = Returns P p
Returns P (remove_label i l p) = Returns P p
Returns P (remove_assignee i a p) = Returns P p

pub Spares-bind {ℓ κ} :
    {A : Type ℓ} {B : Type κ} (m : String) (p : Program A) (f : A → Program B)
    → Spares m p
    → ((a : A) → Spares m (f a))
    → Spares m (p >>= f)
Spares-bind m (done a) f h hf = hf a
Spares-bind m (get_issue n k) f h hf = λ o. Spares-bind m (k o) f (h o) hf
Spares-bind m (viewer k) f h hf = λ i. Spares-bind m (k i) f (h i) hf
Spares-bind m (assign_issue i a k) f h hf = λ r. Spares-bind m (k r) f (h r) hf
Spares-bind m (add_label i l p) f h hf = Spares-bind m p f h hf
Spares-bind m (remove_label i l p) f h hf = (h.0, Spares-bind m p f h.1 hf)
Spares-bind m (remove_assignee i a p) f h hf = Spares-bind m p f h hf

pub Returns-bind {ℓ κ} :
    {A : Type ℓ} {B : Type κ} (Q : A → Type 0) (P : B → Type 0) (p : Program A) (f : A → Program B)
    → Returns Q p
    → ((a : A) → Q a → Returns P (f a))
    → Returns P (p >>= f)
Returns-bind Q P (done a) f h hf = hf a h
Returns-bind Q P (get_issue n k) f h hf = λ o. Returns-bind Q P (k o) f (h o) hf
Returns-bind Q P (viewer k) f h hf = λ i. Returns-bind Q P (k i) f (h i) hf
Returns-bind Q P (assign_issue i a k) f h hf = λ r. Returns-bind Q P (k r) f (h r) hf
Returns-bind Q P (add_label i l p) f h hf = Returns-bind Q P p f h hf
Returns-bind Q P (remove_label i l p) f h hf = Returns-bind Q P p f h hf
Returns-bind Q P (remove_assignee i a p) f h hf = Returns-bind Q P p f h hf

abbrev Anything {ℓ} : {A : Type ℓ} → A → Type 0
Anything a = Unit

Returns-Anything {ℓ} : {A : Type ℓ} (p : Program A) → Returns Anything p
Returns-Anything (done a) = tt
Returns-Anything (get_issue n k) = λ o. Returns-Anything (k o)
Returns-Anything (viewer k) = λ i. Returns-Anything (k i)
Returns-Anything (assign_issue i a k) = λ r. Returns-Anything (k r)
Returns-Anything (add_label i l p) = Returns-Anything p
Returns-Anything (remove_label i l p) = Returns-Anything p
Returns-Anything (remove_assignee i a p) = Returns-Anything p

pub Returns-then {ℓ κ} :
    {A : Type ℓ} {B : Type κ} (P : B → Type 0) (p : Program A) (f : A → Program B)
    → ((a : A) → Returns P (f a))
    → Returns P (p >>= f)
Returns-then P p f hf = Returns-bind Anything P p f (Returns-Anything p) (λ a _. hf a)

pub Spares-when :
    (m : String) (b : Bool) (p : Program (Unit {0})) → Spares m p → Spares m (when b p)
Spares-when m true p h = h
Spares-when m false p h = tt

abbrev pub IsLost : ClaimResult → Type 0
IsLost (claimed c) = ⊥
IsLost (claim_lost n claimants) = Unit

abbrev pub HasWon : Program ClaimResult → Type 0
HasWon p = (c : Claim) × (p ≡ done (claimed c))

module _ (number : ℕ) (id own other : String) where
  -- After an answer of the tracker: the claim is lost, or the issue did not have the other marker
  -- and the own one stays.
  abbrev pub Decided : Option TrackerIssue → Program ClaimResult → Type 0
  Decided o p =
      Returns IsLost p
      ⊎ (Spares own p × ((i : TrackerIssue) × (o ≡ some i) × (member other i.labels ≡ false)))

  -- The next call is the read of the verification.
  abbrev pub Reads : Program ClaimResult → Type 0
  Reads (get_issue n k) = (n ≡ number) × ((o : Option TrackerIssue) → Decided o (k o))
  Reads p = ⊥

  -- The own marker is still to be added, and then the verification reads.
  abbrev pub Marks : Program ClaimResult → Type 0
  Marks (viewer k) = (i : GitHubIdentity) → Marks (k i)
  Marks (assign_issue i a k) = (r : Assignment) → Marks (k r)
  Marks (add_label i l p) = (i ≡ id) × (l ≡ own) × Reads p
  Marks p = ⊥
