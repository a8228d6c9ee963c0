-- ===== src/Attempt/Valid.antt =====
-- What a checkpoint must satisfy to be stored and read, and the lemmas on its single fields.
use simple_coding_agent.Base.{
  ℕ, zero, suc, ◌<◌, String, ◌≡◌, refl, Bool, true, false, ◌||◌, Option, none, some, arith,
  if◌then◌else◌, text_eq, is_blank, has_space,
}
use simple_coding_agent.Base.Number.{pos, positive}
use simple_coding_agent.Attempt.Types.{
  AttemptPhase, claimed, setup, model_running, pushing, publishing, RequeueSource, human, automatic,
  AttemptKind, ordinary, AttemptCheckpoint, phase_value, read_phase, source_value, read_source,
  kind_value, read_kind,
}
use simple_coding_agent.Attempt.Json.{
  Value, text, integer, as_issue_number, as_branch, as_phase, as_source, as_title, as_index,
  as_kind, as_revision, as_timestamp, valid_timestamp, text_or_null, number_or_null,
}

-- A revision is recorded only with the flag, and is not blank and free of whitespace.
abbrev pub ValidLease : Option String → Bool → Type 0
ValidLease none recorded = Unit
ValidLease (some s) recorded = (recorded ≡ true) × (is_blank s || has_space s ≡ false)

pub record IsValid (is_iso : String → Bool) (c : AttemptCheckpoint) : Type 0 where
  pub issue_number : 0 < c.issue_number
  pub branch : is_blank c.branch ≡ false
  pub started_at : valid_timestamp is_iso c.started_at ≡ true
  pub updated_at : valid_timestamp is_iso c.updated_at ≡ true
  pub lease : ValidLease c.claim_branch_revision c.claim_lease_recorded

pub issue_number-value : (n : ℕ) → 0 < n → as_issue_number (integer (pos n)) ≡ some n
unfolding as_issue_number positive
issue_number-value zero h = absurd (omega arith)
issue_number-value (suc n) h = refl

pub phase-value : (p : AttemptPhase) → as_phase (text (phase_value p)) ≡ some p
unfolding as_phase phase_value read_phase text_eq
phase-value claimed = refl
phase-value setup = refl
phase-value model_running = refl
phase-value pushing = refl
phase-value publishing = refl

pub source-value : (r : RequeueSource) → as_source (text (source_value r)) ≡ some r
unfolding as_source source_value read_source text_eq
source-value human = refl
source-value automatic = refl
source-value RequeueSource.conflict = refl

pub kind-value : (o : Option Value) (k : AttemptKind) → as_kind o (text (kind_value k)) ≡ some k
unfolding as_kind kind_value read_kind text_eq
kind-value o ordinary = refl
kind-value o AttemptKind.conflict = refl

pub title-value : (t : Option String) → as_title (text_or_null t) ≡ some t
unfolding as_title text_or_null
title-value none = refl
title-value (some s) = refl

pub index-value : (n : Option ℕ) → as_index (number_or_null n) ≡ some n
unfolding as_index number_or_null
index-value none = refl
index-value (some n) = refl

pub revision-value :
    (r : Option String) (b : Bool) → ValidLease r b → as_revision (text_or_null r) ≡ some r
unfolding as_revision text_or_null
revision-value none b h = refl
revision-value (some s) b h = rw (h.1) refl

pub revision-kept : (r : Option String) (b : Bool) → ValidLease r b → (if b then r else none) ≡ r
revision-kept none b h = ground arith
revision-kept (some s) b h = rw (h.0) refl

pub branch-value : (s : String) → is_blank s ≡ false → as_branch (text s) ≡ some s
unfolding as_branch
branch-value s h = rw h refl

pub timestamp-value :
    (is_iso : String → Bool) (s : String)
    → valid_timestamp is_iso s ≡ true
    → as_timestamp is_iso (text s) ≡ some s
unfolding as_timestamp
timestamp-value is_iso s h = rw h refl

-- The other way: what the checks let through.
pub issue_number-pos : (v : Value) (n : ℕ) → as_issue_number v ≡ some n → 0 < n
unfolding as_issue_number positive
issue_number-pos v n h = ground arith

pub branch-not_blank : (v : Value) (s : String) → as_branch v ≡ some s → is_blank s ≡ false
unfolding as_branch
branch-not_blank v s h = ground arith

pub timestamp-valid :
    (is_iso : String → Bool) (v : Value) (s : String)
    → as_timestamp is_iso v ≡ some s
    → valid_timestamp is_iso s ≡ true
unfolding as_timestamp
timestamp-valid is_iso v s h = ground arith

pub revision-valid :
    (v : Value) (r : Option String) (b : Bool)
    → as_revision v ≡ some r
    → ValidLease (if b then r else none) b
unfolding as_revision
revision-valid v r b h = ground arith
