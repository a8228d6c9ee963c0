-- ===== src/Tracker/Winning.antt =====
-- How `claim_verified` (simple_coding_agent/github_tracker.py, lines 881-907) handles two markers.
use simple_coding_agent.Base.{
  ℕ, String, ◌≡◌, refl, sym, ap, ◌≢◌, inl, inr, Bool, true, false, ◌&&◌, ◌||◌, not, Option, none,
  some, List, [], ◌∷◌, ◌++◌, arith, Bool-cases, text_eq, text_eq→≡, starts_with, starts_with-append,
  select, is_empty, member,
}
use simple_coding_agent.Tracker.Issue.{
  TrackerIssue, ready_for_agent, round_finished, merge_conflict, claim_marker_label,
  claim_marker_labels, is_claim_marker, has_claim_marker,
}
use simple_coding_agent.Tracker.Calls.{
  GitHubIdentity, Assignment, Program, done, remove_label, ◌>>=◌, ◌>>◌, when,
}
use simple_coding_agent.Tracker.Claiming.{
  other_markers, foreign_markers, if_there, yield_losing_claim, Verification, verified, lost,
  other_assignees, verify_fresh, verify_claim, remove_stale_claim_labels, add_own_marker,
  finish_claim, claim_as, claim_verified,
}
use simple_coding_agent.Tracker.Stages.{
  Spares, Returns, Spares-bind, Returns-bind, Returns-then, Spares-when, IsLost, Decided, Marks,
}
use text.Mathlib.TextLemmas.{append_cancel_left}

pub markers_apart : (v w : String) → v ≢ w → claim_marker_label v ≢ claim_marker_label w
unfolding claim_marker_label
markers_apart v w h e = h (append_cancel_left _ v w e)

pub marker-is_claim_marker : (w : String) → is_claim_marker (claim_marker_label w) ≡ true
unfolding is_claim_marker claim_marker_label
marker-is_claim_marker w = starts_with-append _ w

marker_apart : (w l : String) → is_claim_marker l ≡ false → claim_marker_label w ≢ l
marker_apart w l h e = grind (arith, marker-is_claim_marker w, ap is_claim_marker e)

pub marker-not_round_finished : (w : String) → claim_marker_label w ≢ round_finished
unfolding is_claim_marker starts_with
marker-not_round_finished w = marker_apart w round_finished refl

pub marker-not_merge_conflict : (w : String) → claim_marker_label w ≢ merge_conflict
unfolding is_claim_marker starts_with
marker-not_merge_conflict w = marker_apart w merge_conflict refl

-- A marker of another is among the foreign markers.
select-keeps :
    (p : String → Bool) (m : String) (ls : List String)
    → p m ≡ true
    → is_empty (select p ls) ≡ true
    → member m ls ≡ false
unfolding select member
select-keeps p m [] h e = refl
select-keeps p m (l ∷ ls) h e = elim (Bool-cases (text_eq l m)) [
  | inl b ↦ ground (arith, h, e, ap p (text_eq→≡ l m b))
  | inr b ↦ ground (arith, b, e, select-keeps p m ls h)
]

text_apart : (s t : String) → s ≢ t → text_eq s t ≡ false
text_apart s t h = elim (Bool-cases (text_eq s t)) [
  | inl b ↦ absurd (h (text_eq→≡ s t b))
  | inr b ↦ b
]

select-member :
    (p : String → Bool) (m : String) (ls : List String)
    → p m ≡ true
    → member m (select p ls) ≡ false
    → member m ls ≡ false
unfolding select member
select-member p m [] h e = refl
select-member p m (l ∷ ls) h e = elim (Bool-cases (text_eq l m)) [
  | inl b ↦ ground (arith, h, b, e, ap p (text_eq→≡ l m b))
  | inr b ↦ ground (arith, b, e, select-member p m ls h)
]

foreign_markers-member :
    (own other : String) (ls : List String)
    → is_claim_marker other ≡ true
    → own ≢ other
    → is_empty (foreign_markers (some own) ls) ≡ true
    → member other ls ≡ false
unfolding foreign_markers other_markers claim_marker_labels
foreign_markers-member own other ls h d e = select-member is_claim_marker other ls h (
    select-keeps (λ l. not (text_eq l own)) other (claim_marker_labels ls)
      (rw (text_apart other own (λ p. d (sym p))) refl) e)

append-is_empty : (xs ys : List String) → is_empty (xs ++ ys) ≡ true → is_empty ys ≡ true
append-is_empty [] ys e = e
append-is_empty (x ∷ xs) ys e = ground arith

-- What an answer of the tracker leads to.
if_there-Spares {ℓ} :
    {A : Type ℓ} (m : String) (n : ℕ) (gone : A) (f : TrackerIssue → Program A)
    → ((i : TrackerIssue) → Spares m (f i))
    → Spares m (if_there n gone f)
unfolding if_there
if_there-Spares m n gone f h none = tt
if_there-Spares m n gone f h (some i) = h i

module _ (m : String) where
  yield_losing_claim-Spares :
      (own : String) (fresh : TrackerIssue) (identity : GitHubIdentity)
      → m ≢ own
      → Spares m (yield_losing_claim (some own) fresh identity)
  unfolding yield_losing_claim
  yield_losing_claim-Spares own fresh identity d = if_there-Spares m fresh.number _ _ (λ first.
      Spares-bind m (when (member own first.labels) (remove_label first.id own (done tt))) _
        (Spares-when m (member own first.labels) _ (d, tt))
        (λ _. if_there-Spares m fresh.number _ _ (λ second.
          Spares-when m
            (member identity.login second.assignee_logins && not (has_claim_marker second.labels)) _
            tt)))

  remove_stale_claim_labels-Spares :
      (fresh : TrackerIssue)
      → m ≢ round_finished
      → m ≢ merge_conflict
      → Spares m (remove_stale_claim_labels fresh)
  unfolding remove_stale_claim_labels
  remove_stale_claim_labels-Spares fresh r c =
      Spares-bind m
        (when (member round_finished fresh.labels) (remove_label fresh.id round_finished (done tt)))
        _ (Spares-when m (member round_finished fresh.labels) _ (r, tt))
        (λ _.
          Spares-when m
            (member merge_conflict fresh.labels
              && (member ready_for_agent fresh.labels || member round_finished fresh.labels))
            _ (c, tt))

  finish_claim-Spares :
      (issue : TrackerIssue) (assignment : Assignment) (v : Verification)
      → m ≢ round_finished
      → m ≢ merge_conflict
      → Spares m (finish_claim issue assignment v)
  unfolding finish_claim
  finish_claim-Spares issue assignment (verified fresh) r c =
      Spares-bind m (remove_stale_claim_labels fresh) _ (remove_stale_claim_labels-Spares fresh r c)
        (λ _. tt)
  finish_claim-Spares issue assignment (lost n claimants) r c = tt

  verify_fresh-Spares :
      (own : String) (identity : GitHubIdentity) (fresh : TrackerIssue)
      → m ≢ own
      → Spares m (verify_fresh (some own) identity fresh)
  unfolding verify_fresh
  verify_fresh-Spares own identity fresh d =
      elim (Bool-cases (
        is_empty (
          other_assignees identity fresh.assignee_logins
          ++ foreign_markers (some own) fresh.labels))) [
            | inl b ↦ rw b tt
            | inr b ↦ rw b (
                Spares-bind m (yield_losing_claim (some own) fresh identity) _
                  (yield_losing_claim-Spares own fresh identity d) (λ _. tt))
          ]

  pub claim_verified-Spares :
      (own : String) (issue : TrackerIssue)
      → m ≢ own
      → m ≢ round_finished
      → m ≢ merge_conflict
      → Spares m (claim_verified (some own) issue)
  unfolding claim_verified claim_as add_own_marker verify_claim
  claim_verified-Spares own issue d r c = λ identity assignment.
      Spares-bind m (verify_claim (some own) issue identity) (finish_claim issue assignment)
        (if_there-Spares m issue.number _ _ (λ fresh. verify_fresh-Spares own identity fresh d))
        (λ v. finish_claim-Spares issue assignment v r c)

abbrev IsLostVerification : Verification → Type 0
IsLostVerification (verified fresh) = ⊥
IsLostVerification (lost n claimants) = Unit

finish_claim-IsLost :
    (issue : TrackerIssue) (assignment : Assignment) (v : Verification)
    → IsLostVerification v
    → Returns IsLost (finish_claim issue assignment v)
unfolding finish_claim
finish_claim-IsLost issue assignment (verified fresh) h = absurd h
finish_claim-IsLost issue assignment (lost n claimants) h = tt

module _ (own other : String) (issue : TrackerIssue) where
  verify_fresh-Decided :
      (identity : GitHubIdentity) (assignment : Assignment) (fresh : TrackerIssue)
      → is_claim_marker other ≡ true
      → own ≢ other
      → own ≢ round_finished
      → own ≢ merge_conflict
      → Decided issue.number issue.id own other
          (some fresh)
          (verify_fresh (some own) identity fresh >>= finish_claim issue assignment)
  unfolding verify_fresh finish_claim
  verify_fresh-Decided identity assignment fresh h d r c =
      elim (Bool-cases (
        is_empty (
          other_assignees identity fresh.assignee_logins
          ++ foreign_markers (some own) fresh.labels))) [
            | inl b ↦ inr (
              rw b (finish_claim-Spares own issue assignment (verified fresh) r c),
              (
                fresh,
                refl,
                foreign_markers-member own other fresh.labels h d
                    (append-is_empty (other_assignees identity fresh.assignee_logins) _ b),
              ),
            )
            | inr b ↦ inl (
                rw b (
                  Returns-bind IsLostVerification IsLost
                    (yield_losing_claim (some own) fresh identity >> done (lost fresh.number _))
                    (finish_claim issue assignment)
                    (Returns-then IsLostVerification (yield_losing_claim (some own) fresh identity)
                      (λ _. done (lost fresh.number _)) (λ _. tt))
                    (finish_claim-IsLost issue assignment)))
          ]

  verify_claim-Decided :
      (identity : GitHubIdentity) (assignment : Assignment) (o : Option TrackerIssue)
      → is_claim_marker other ≡ true
      → own ≢ other
      → own ≢ round_finished
      → own ≢ merge_conflict
      → Decided issue.number issue.id own other o (
          elim o [
            | none ↦ done (lost issue.number [])
            | some i ↦ verify_fresh (some own) identity i
          ]
          >>= finish_claim issue assignment)
  unfolding finish_claim
  verify_claim-Decided identity assignment none h d r c = inl tt
  verify_claim-Decided identity assignment (some fresh) h d r c =
      verify_fresh-Decided identity assignment fresh h d r c

  pub claim_verified-Marks :
      is_claim_marker other ≡ true
      → own ≢ other
      → own ≢ round_finished
      → own ≢ merge_conflict
      → Marks issue.number issue.id own other (claim_verified (some own) issue)
  unfolding claim_verified claim_as add_own_marker verify_claim if_there
  claim_verified-Marks h d r c = λ identity assignment.
      (refl, refl, (refl, λ o. verify_claim-Decided identity assignment o h d r c))
