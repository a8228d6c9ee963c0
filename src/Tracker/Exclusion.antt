-- ===== src/Tracker/Exclusion.antt =====
-- Two workers that claim the same issue under one login, told apart by their markers
-- (simple_coding_agent/github_tracker.py, lines 784-907), with any order of their calls and with
-- changes by others between them.
use mathlib.Core.Path.{subst}
use simple_coding_agent.Base.{
  ℕ, String, ◌≡◌, refl, sym, ◌≢◌, inl, inr, true, false, ◌&&◌, some, arith, Bool-cases, member,
}
use simple_coding_agent.Tracker.Issue.{TrackerIssue, claim_marker_label}
use simple_coding_agent.Tracker.Calls.{GitHubIdentity, Claim, Program, done}
use simple_coding_agent.Tracker.Claiming.{ClaimResult, claimed, claim_verified}
use simple_coding_agent.Tracker.Remote.{Remote, call}
use simple_coding_agent.Tracker.Stages.{Spares, HasWon, Marks}
use simple_coding_agent.Tracker.Race.{
  Shows, call-Shows, call-Spares, Stage, marking, reading, winning, losing, is_winning, InStage,
  Follows, InStage-kept, call-Next,
}
use simple_coding_agent.Tracker.Winning.{
  markers_apart, marker-is_claim_marker, marker-not_round_finished, marker-not_merge_conflict,
  claim_verified-Spares, claim_verified-Marks,
}

module _ (remote : Remote) (number : ℕ) where
  -- The two workers, with the programs left to them, and the tracker. Others change anything but
  -- the two markers on the issue.
  pub data Race (a b : String)
      : Program ClaimResult
        → Program ClaimResult
        → remote.State
        → Program ClaimResult
        → Program ClaimResult
        → remote.State
        → Type 0 where
    start : {p q : Program ClaimResult} {s : remote.State} → Race a b p q s p q s
    first :
        {p q p' q' : Program ClaimResult} {s s' : remote.State} (me : GitHubIdentity)
        → Race a b p q s p' q' s'
        → Race a b p q s ((call remote me p' s').0) q' ((call remote me p' s').1)
    second :
        {p q p' q' : Program ClaimResult} {s s' : remote.State} (me : GitHubIdentity)
        → Race a b p q s p' q' s'
        → Race a b p q s p' ((call remote me q' s').0) ((call remote me q' s').1)
    outside :
        {p q p' q' : Program ClaimResult} {s s' : remote.State} (s'' : remote.State)
        → (Shows remote number a s' → Shows remote number a s'')
        → (Shows remote number b s' → Shows remote number b s'')
        → Race a b p q s p' q' s'
        → Race a b p q s p' q' s''

  abbrev NotBoth : Stage → Stage → Type 0
  NotBoth x y = (is_winning x && is_winning y) ≡ false

  Safe : (a b : String) → Program ClaimResult → Program ClaimResult → remote.State → Type 0
  Safe a b p q s =
      (x : Stage) × (y : Stage) × InStage remote number a b x p s
      × InStage remote number b a y q s
      × Spares b p
      × Spares a q
      × NotBoth x y

  shown_and_hidden :
      (m : String) (s : remote.State)
      → Shows remote number m s
      → member m (remote.labels_of (remote.node_id number) s) ≡ false
      → ⊥
  shown_and_hidden m s h k = ground (arith, h, k)

  winning-Shows :
      (own other : String) (x : Stage) (p : Program ClaimResult) (s : remote.State)
      → InStage remote number own other x p s
      → is_winning x ≡ true
      → Shows remote number own s
  winning-Shows own other winning p s h w = h.1
  winning-Shows own other marking p s h w = ground (arith, w)
  winning-Shows own other reading p s h w = ground (arith, w)
  winning-Shows own other losing p s h w = ground (arith, w)

  NotBoth-next :
      (a b : String) (x x' y : Stage) (q : Program ClaimResult) (s : remote.State)
      → InStage remote number b a y q s
      → Follows remote number a b x x' s
      → NotBoth x y
      → NotBoth x' y
  NotBoth-next a b x x' y q s h f n = elim (Bool-cases (is_winning x')) [
    | inl w ↦ elim (f w) [
      | inl v ↦ ground (arith, w, v, n)
      | inr v ↦ elim (Bool-cases (is_winning y)) [
        | inl u ↦ absurd (shown_and_hidden b s (winning-Shows b a y q s h u) v)
        | inr u ↦ ground (arith, u)
      ]
    ]
    | inr w ↦ ground (arith, w)
  ]

  NotBoth-sym : (x y : Stage) → NotBoth x y → NotBoth y x
  NotBoth-sym x y h = ground (arith, h)

  module _ (a b : String) where
    first-Safe :
        (me : GitHubIdentity) (p q : Program ClaimResult) (s : remote.State)
        → Safe a b p q s
        → Safe a b ((call remote me p s).0) q ((call remote me p s).1)
    unfolding Safe
    first-Safe me p q s h =
        let r = call-Next remote number a b h.0 me p s h.2 in
        (
          r.0,
          h.1,
          r.1,
          InStage-kept remote number b a h.1 q s _ (call-Shows remote number b me p s h.4) h.3,
          call-Spares remote number b me p s h.4,
          h.5,
          NotBoth-next a b h.0 r.0 h.1 q s h.3 r.2 h.6,
        )

    outside-Safe :
        (p q : Program ClaimResult) (s s' : remote.State)
        → (Shows remote number a s → Shows remote number a s')
        → (Shows remote number b s → Shows remote number b s')
        → Safe a b p q s
        → Safe a b p q s'
    unfolding Safe
    outside-Safe p q s s' ka kb h = (
      h.0,
      h.1,
      InStage-kept remote number a b h.0 p s s' ka h.2,
      InStage-kept remote number b a h.1 q s s' kb h.3,
      h.4,
      h.5,
      h.6,
    )

    Safe-sym : (p q : Program ClaimResult) (s : remote.State) → Safe a b p q s → Safe b a q p s
    unfolding Safe
    Safe-sym p q s h = (h.1, h.0, h.3, h.2, h.5, h.4, NotBoth-sym h.0 h.1 h.6)

  Race-Safe :
      (a b : String) {p q p' q' : Program ClaimResult} {s s' : remote.State}
      → Race a b p q s p' q' s'
      → Safe a b p q s
      → Safe a b p' q' s'
  Race-Safe a b start h = h
  Race-Safe a b (first {p' = p'} {q' = q'} {s' = s'} me r) h =
      first-Safe a b me p' q' s' (Race-Safe a b r h)
  Race-Safe a b (second {p' = p'} {q' = q'} {s' = s'} me r) h =
      Safe-sym b a _ _ _ (first-Safe b a me q' p' s' (Safe-sym a b p' q' s' (Race-Safe a b r h)))
  Race-Safe a b (outside {p' = p'} {q' = q'} {s' = s'} s'' ka kb r) h =
      outside-Safe a b p' q' s' s'' ka kb (Race-Safe a b r h)

  claimed-is_winning :
      (a b : String) (x : Stage) (c : Claim) (s : remote.State)
      → InStage remote number a b x (done (claimed c)) s
      → is_winning x ≡ true
  claimed-is_winning a b winning c s h = refl
  claimed-is_winning a b losing c s h = absurd h
  claimed-is_winning a b marking c s h = absurd h
  claimed-is_winning a b reading c s h = absurd h.0

  HasWon-is_winning :
      (a b : String) (x : Stage) (p : Program ClaimResult) (s : remote.State)
      → InStage remote number a b x p s
      → HasWon p
      → is_winning x ≡ true
  HasWon-is_winning a b x p s h w =
      claimed-is_winning a b x w.0 s (subst (λ q. InStage remote number a b x q s) w.1 h)

  Safe-excludes :
      (a b : String) (p q : Program ClaimResult) (s : remote.State)
      → Safe a b p q s
      → ¬ (HasWon p × HasWon q)
  unfolding Safe
  Safe-excludes a b p q s h w =
      ground
        (arith, HasWon-is_winning a b h.0 p s h.2 w.0, HasWon-is_winning b a h.1 q s h.3 w.1, h.6)

claim_verified-marking :
    (n : ℕ) (id v w : String) (i : TrackerIssue)
    → v ≢ w
    → i.number ≡ n
    → i.id ≡ id
    → Marks n id
        (claim_marker_label v)
        (claim_marker_label w)
        (claim_verified (some (claim_marker_label v)) i)
claim_verified-marking n id v w i d en ei =
    subst
      (λ m.
        Marks m id (claim_marker_label v) (claim_marker_label w)
          (claim_verified (some (claim_marker_label v)) i))
      en
      (subst
        (λ k.
          Marks i.number k (claim_marker_label v) (claim_marker_label w)
            (claim_verified (some (claim_marker_label v)) i))
        ei
        (claim_verified-Marks (claim_marker_label v) (claim_marker_label w) i
          (marker-is_claim_marker w) (markers_apart v w d) (marker-not_round_finished v)
          (marker-not_merge_conflict v)))

claims-Safe :
    (remote : Remote) (v w : String) (i j : TrackerIssue) (s : remote.State)
    → v ≢ w
    → i.id ≡ remote.node_id i.number
    → j.number ≡ i.number
    → j.id ≡ remote.node_id i.number
    → Safe remote i.number
        (claim_marker_label v)
        (claim_marker_label w)
        (claim_verified (some (claim_marker_label v)) i)
        (claim_verified (some (claim_marker_label w)) j)
        s
unfolding Safe
claims-Safe remote v w i j s d ei nj ej =
    let d' : w ≢ v = λ e. d (sym e) in
    (
      marking,
      marking,
      claim_verified-marking _ _ v w i d refl ei,
      claim_verified-marking _ _ w v j d' nj ej,
      claim_verified-Spares _ _ i (markers_apart w v d') (marker-not_round_finished w)
          (marker-not_merge_conflict w),
      claim_verified-Spares _ _ j (markers_apart v w d) (marker-not_round_finished v)
          (marker-not_merge_conflict v),
      refl,
    )

-- Two workers with different IDs that claim one issue never both win, whatever the order of their
-- calls and whatever identities these are made under, as long as nobody else takes one of the two
-- markers off the issue. Both claims name the issue by its number and its node ID.
pub claim_verified-excludes :
    (remote : Remote) (v w : String) (i j : TrackerIssue) {p q : Program ClaimResult}
    {s s' : remote.State}
    → v ≢ w
    → i.id ≡ remote.node_id i.number
    → j.number ≡ i.number
    → j.id ≡ remote.node_id i.number
    → Race remote i.number
        (claim_marker_label v)
        (claim_marker_label w)
        (claim_verified (some (claim_marker_label v)) i)
        (claim_verified (some (claim_marker_label w)) j)
        s
        p
        q
        s'
    → ¬ (HasWon p × HasWon q)
claim_verified-excludes remote v w i j {p} {q} {s} {s'} d ei nj ej r =
    Safe-excludes remote i.number _ _ p q s'
      (Race-Safe remote i.number _ _ r (claims-Safe remote v w i j s d ei nj ej))
