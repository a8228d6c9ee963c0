-- ===== src/Tracker/Race.antt =====
-- The stages of one claim against the tracker (simple_coding_agent/github_tracker.py, lines 784-907).
use mathlib.Core.Path.{subst}
use simple_coding_agent.Base.{
  ℕ, String, ◌≡◌, refl, sym, ap, ◌∙◌, ◌⊎◌, inl, inr, Bool, true, false, arith, member,
}
use simple_coding_agent.Tracker.Calls.{
  GitHubIdentity, Program, done, get_issue, viewer, assign_issue, add_label, remove_label,
  remove_assignee,
}
use simple_coding_agent.Tracker.Claiming.{ClaimResult}
use simple_coding_agent.Tracker.Remote.{Remote, call}
use simple_coding_agent.Tracker.Stages.{Spares, Returns, IsLost, Decided, Reads, Marks}

-- Where a claim stands.
pub data Stage : Type 0 where
  marking : Stage
  reading : Stage
  winning : Stage
  losing : Stage

abbrev pub is_winning : Stage → Bool
is_winning winning = true
is_winning marking = false
is_winning reading = false
is_winning losing = false

module _ (remote : Remote) (number : ℕ) where
  -- The issue has the label.
  abbrev pub Shows : String → remote.State → Type 0
  Shows m s = member m (remote.labels_of (remote.node_id number) s) ≡ true

  pub call-Shows :
      (m : String) (me : GitHubIdentity) (p : Program ClaimResult) (s : remote.State)
      → Spares m p
      → Shows m s
      → Shows m ((call remote me p s).1)
  unfolding call
  call-Shows m me (done a) s h o = o
  call-Shows m me (get_issue n k) s h o = o
  call-Shows m me (viewer k) s h o = o
  call-Shows m me (assign_issue i a k) s h o = ap (member m) (remote.assigned-labels i a _ s) ∙ o
  call-Shows m me (add_label i l p) s h o = remote.labelled-keeps i l _ m s o
  call-Shows m me (remove_label i l p) s h o = remote.unlabelled-keeps i l _ m s h.0 o
  call-Shows m me (remove_assignee i a p) s h o =
      ap (member m) (remote.unassigned-labels i a _ s) ∙ o

  pub call-Spares :
      (m : String) (me : GitHubIdentity) (p : Program ClaimResult) (s : remote.State)
      → Spares m p
      → Spares m ((call remote me p s).0)
  unfolding call
  call-Spares m me (done a) s h = tt
  call-Spares m me (get_issue n k) s h = h _
  call-Spares m me (viewer k) s h = h _
  call-Spares m me (assign_issue i a k) s h = h _
  call-Spares m me (add_label i l p) s h = h
  call-Spares m me (remove_label i l p) s h = h.1
  call-Spares m me (remove_assignee i a p) s h = h

  pub call-Returns :
      (P : ClaimResult → Type 0) (me : GitHubIdentity) (p : Program ClaimResult) (s : remote.State)
      → Returns P p
      → Returns P ((call remote me p s).0)
  unfolding call
  call-Returns P me (done a) s h = h
  call-Returns P me (get_issue n k) s h = h _
  call-Returns P me (viewer k) s h = h _
  call-Returns P me (assign_issue i a k) s h = h _
  call-Returns P me (add_label i l p) s h = h
  call-Returns P me (remove_label i l p) s h = h
  call-Returns P me (remove_assignee i a p) s h = h

  module _ (own other : String) where
    abbrev pub InStage : Stage → Program ClaimResult → remote.State → Type 0
    InStage marking p s = Marks number (remote.node_id number) own other p
    InStage reading p s = Reads number (remote.node_id number) own other p × Shows own s
    InStage winning p s = Spares own p × Shows own s
    InStage losing p s = Returns IsLost p

    -- A claim begins to win only on a read without the other marker.
    abbrev pub Follows : Stage → Stage → remote.State → Type 0
    Follows x y s =
        is_winning y ≡ true
        → (is_winning x ≡ true)
          ⊎ (member other (remote.labels_of (remote.node_id number) s) ≡ false)

    abbrev pub Next : Stage → Program ClaimResult → remote.State → remote.State → Type 0
    Next st p s' s = (st' : Stage) × InStage st' p s' × Follows st st' s

    pub InStage-kept :
        (st : Stage) (p : Program ClaimResult) (s s' : remote.State)
        → (Shows own s → Shows own s')
        → InStage st p s
        → InStage st p s'
    InStage-kept marking p s s' f h = h
    InStage-kept reading p s s' f h = (h.0, f h.1)
    InStage-kept winning p s s' f h = (h.0, f h.1)
    InStage-kept losing p s s' f h = h

    Decided-Next :
        (p : Program ClaimResult) (s : remote.State)
        → Shows own s
        → Decided number (remote.node_id number) own other (remote.issue_at number s) p
        → Next reading p s s
    Decided-Next p s o (inl h) = (losing, h, λ w. ground (arith, w))
    Decided-Next p s o (inr h) = (
      winning,
      (h.0, o),
      λ w. inr (ap (member other) (sym (remote.issue_at-labels number s h.1.0 h.1.1)) ∙ h.1.2),
    )

    marked :
        (s : remote.State) (i l : String)
        → i ≡ remote.node_id number
        → l ≡ own
        → Shows own (remote.labelled i l s)
    marked s i l e f =
        subst (λ j. Shows own (remote.labelled j l s)) (sym e)
          (subst (λ m. Shows m (remote.labelled (remote.node_id number) l s)) f
            (remote.labelled-member _ l s))

    pub call-Next :
        (st : Stage) (me : GitHubIdentity) (p : Program ClaimResult) (s : remote.State)
        → InStage st p s
        → Next st ((call remote me p s).0) ((call remote me p s).1) s
    unfolding call
    call-Next winning me p s h =
        (winning, (call-Spares own me p s h.0, call-Shows own me p s h.0 h.1), λ w. inl refl)
    call-Next losing me p s h = (losing, call-Returns IsLost me p s h, λ w. ground (arith, w))
    call-Next reading me (get_issue n k) s h =
        let o = remote.issue_at n s in
        Decided-Next (k o) s h.1 (
          subst (λ j. Decided number (remote.node_id number) own other (remote.issue_at j s) (k o))
            h.0.0 (h.0.1 o))
    call-Next reading me (done a) s h = absurd h.0
    call-Next reading me (viewer k) s h = absurd h.0
    call-Next reading me (assign_issue i a k) s h = absurd h.0
    call-Next reading me (add_label i l p) s h = absurd h.0
    call-Next reading me (remove_label i l p) s h = absurd h.0
    call-Next reading me (remove_assignee i a p) s h = absurd h.0
    call-Next marking me (viewer k) s h = (marking, h me, λ w. ground (arith, w))
    call-Next marking me (assign_issue i a k) s h = (marking, h _, λ w. ground (arith, w))
    call-Next marking me (add_label i l p) s h =
        (reading, (h.2, marked s i l h.0 h.1), λ w. ground (arith, w))
    call-Next marking me (done a) s h = absurd h
    call-Next marking me (get_issue n k) s h = absurd h
    call-Next marking me (remove_label i l p) s h = absurd h
    call-Next marking me (remove_assignee i a p) s h = absurd h
