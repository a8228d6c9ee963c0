-- ===== src/Attempt/Lifecycle.antt =====
-- The order of the phases, and the claim lease over the life of an attempt.
use mathlib.Core.Path.{subst}
use simple_coding_agent.Base.{
  ℕ, ◌+◌, String, ◌≡◌, refl, sym, ap, ◌∙◌, ◌≢◌, inl, inr, Bool, true, false, Option, none, some,
  arith, Bool-cases, Option-cases,
}
use simple_coding_agent.Attempt.Types.{
  AttemptPhase, claimed, setup, model_running, pushing, publishing, AttemptCheckpoint, next_phase,
  same_phase,
}
use simple_coding_agent.Attempt.Json.{valid_timestamp}
use simple_coding_agent.Attempt.Valid.{ValidLease}
use simple_coding_agent.Attempt.Writing.{active-IsValid, Wrote, stamp_and_write-Wrote}
use simple_coding_agent.Attempt.Store.{
  AttemptStateStore, valid_revision, read, active, stamp_and_write, transition, record_claim_lease,
  with_claim_lease,
}

same_phase_refl : (p : AttemptPhase) → same_phase p p ≡ true
unfolding same_phase
same_phase_refl p = ground arith

same_phase→≡ : (p q : AttemptPhase) → same_phase p q ≡ true → p ≡ q
unfolding same_phase
same_phase→≡ p q h = ground arith

valid_revision-lease : (r : Option String) → valid_revision r ≡ true → ValidLease r true
unfolding valid_revision
valid_revision-lease none h = tt
valid_revision-lease (some s) h = (refl, ground arith)

-- The place of a phase in the life of an attempt.
abbrev pub position : AttemptPhase → ℕ
position claimed = 0
position setup = 1
position model_running = 2
position pushing = 3
position publishing = 4

next_phase-position : (p q : AttemptPhase) → next_phase p ≡ some q → position q ≡ position p + 1
unfolding next_phase
next_phase-position p q h = ground arith

position-next_phase : (p q : AttemptPhase) → position q ≡ position p + 1 → next_phase p ≡ some q
unfolding next_phase
position-next_phase p q h = ground arith

module _ (is_iso : String → Bool) (iso : ℕ → String) where
  -- A transition of the active attempt to any phase but the one whose place in the order claimed,
  -- setup, model running, pushing, publishing is one further is refused, and the store stays as
  -- it is: no phase is skipped, repeated or taken back, and `publishing` is the last one.
  pub transition-refused :
      (p : AttemptPhase) (c : AttemptCheckpoint) (now : Option ℕ) (s : AttemptStateStore)
      → active is_iso iso s ≡ some c
      → position p ≢ position c.phase + 1
      → transition is_iso iso p now s ≡ (none, s)
  unfolding transition
  transition-refused p c now s a n = elim (Option-cases (next_phase c.phase)) [
    | inl e ↦ rw (a, e, transition) refl
    | inr (q, e) ↦ elim (Bool-cases (same_phase p q)) [
      | inl h ↦ absurd (n (ap position (same_phase→≡ p q h) ∙ next_phase-position c.phase q e))
      | inr h ↦ rw (a, e, h, transition) refl
    ]
  ]

module _ (is_iso : String → Bool) (iso : ℕ → String)
    (printed : (t : ℕ) → valid_timestamp is_iso (iso t) ≡ true) where
  -- With an aware clock, the transition to the phase whose place in the order claimed, setup, model
  -- running, pushing, publishing is one further than the active one is stored, so that it is read
  -- back: the phase and `updated_at` change, with a timestamp later than the last
  -- one given out, and every other field is kept. It is supposed that printed timestamps are
  -- accepted when they are read.
  pub transition-Wrote :
      (p : AttemptPhase) (c : AttemptCheckpoint) (now : ℕ) (s : AttemptStateStore)
      → active is_iso iso s ≡ some c
      → position p ≡ position c.phase + 1
      → Wrote is_iso iso
          (λ t. record c { phase = p; updated_at = t })
          s
          (transition is_iso iso p (some now) s)
  unfolding transition
  transition-Wrote p c now s a n =
      let v = active-IsValid is_iso iso s c a in
      rw (a, position-next_phase c.phase p n, same_phase_refl p, transition)
        (stamp_and_write-Wrote is_iso iso printed _ now s (λ t. record {
          issue_number = v.issue_number;
          branch = v.branch;
          started_at = v.started_at;
          updated_at = printed t;
          lease = v.lease;
        }))

  -- With an aware clock, the first recording of a valid claim revision for the active attempt is
  -- stored, so that it is read back: the revision, the flag and `updated_at` change, with a
  -- timestamp later than the last one given out, and every other field is kept. It is supposed
  -- that printed timestamps are accepted when they are read.
  pub record_claim_lease-Wrote :
      (r : Option String) (c : AttemptCheckpoint) (now : ℕ) (s : AttemptStateStore)
      → active is_iso iso s ≡ some c
      → c.claim_lease_recorded ≡ false
      → valid_revision r ≡ true
      → Wrote is_iso iso
          (λ t. record c { updated_at = t; claim_branch_revision = r; claim_lease_recorded = true })
          s
          (record_claim_lease is_iso iso r (some now) s)
  unfolding record_claim_lease with_claim_lease
  record_claim_lease-Wrote r c now s a f ok =
      let v = active-IsValid is_iso iso s c a in
      let same : record_claim_lease is_iso iso r (some now) s
          ≡ stamp_and_write is_iso iso (with_claim_lease c r) (some now) s =
        simp (a, ok, f, record_claim_lease) in
      subst (Wrote is_iso iso (with_claim_lease c r) s) (sym same) (
        stamp_and_write-Wrote is_iso iso printed (with_claim_lease c r) now s (λ t. record {
          issue_number = v.issue_number;
          branch = v.branch;
          started_at = v.started_at;
          updated_at = printed t;
          lease = valid_revision-lease r ok;
        }))

  active-read :
      (s : AttemptStateStore) (c : AttemptCheckpoint)
      → read is_iso iso s ≡ some (some c)
      → active is_iso iso s ≡ some c
  unfolding active
  active-read s c h = rw (h, active) refl

  recorded_stays :
      (r : Option String) (c : AttemptCheckpoint) (now : Option ℕ) (s : AttemptStateStore)
      → active is_iso iso s ≡ some c
      → c.claim_lease_recorded ≡ true
      → valid_revision r ≡ true
      → record_claim_lease is_iso iso r now s ≡ (some c, s)
  unfolding record_claim_lease
  recorded_stays r c now s a f ok = simp (a, ok, f, record_claim_lease)

  -- Only the first recording of the claim lease wins: after one of a valid revision with an aware
  -- clock, a later one of whatever valid revision returns the same checkpoint and changes
  -- nothing. It is supposed that printed timestamps are accepted when they are read.
  pub record_claim_lease-first :
      (r r' : Option String) (c : AttemptCheckpoint) (now : ℕ) (now' : Option ℕ)
      (s : AttemptStateStore)
      → active is_iso iso s ≡ some c
      → valid_revision r ≡ true
      → valid_revision r' ≡ true
      → let out = record_claim_lease is_iso iso r (some now) s in
        record_claim_lease is_iso iso r' now' out.1 ≡ out
  unfolding with_claim_lease
  record_claim_lease-first r r' c now now' s a ok ok' = elim (Bool-cases c.claim_lease_recorded) [
    | inl f ↦
        subst (λ out. record_claim_lease is_iso iso r' now' out.1 ≡ out)
          (sym (recorded_stays r c (some now) s a f ok)) (recorded_stays r' c now' s a f ok')
    | inr f ↦
        let w = record_claim_lease-Wrote r c now s a f ok in
        let kept = record_claim_lease is_iso iso r (some now) s in
        recorded_stays r' (with_claim_lease c r (iso w.time)) now' kept.1
          (active-read kept.1 _ w.stored) refl ok'
        ∙ ap (λ o. (o, kept.1)) (sym w.reply)
  ]
