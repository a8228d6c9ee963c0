-- ===== src/Attempt/Store.antt =====
-- `AttemptStateStore` (simple_coding_agent/attempt_state.py, lines 71-312): the file with the active
-- checkpoint and the last timestamp given out. A clock reading is `none` where the datetime has no
-- timezone, and microseconds in UTC otherwise; `iso` is `datetime.isoformat` with `Z` for the
-- offset. `none` in a result is `AttemptStateError`; the file is then as it was.
use simple_coding_agent.Base.{
  ℕ, ◌+◌, String, Bool, true, false, ◌&&◌, not, Option, none, some, leb, if◌then◌else◌, is_blank,
  has_space,
}
use simple_coding_agent.Base.Number.{ℤ, pos, positive}
use simple_coding_agent.Base.Options.{◌>>=◌, ◌>>◌, guard}
use simple_coding_agent.Attempt.Types.{
  AttemptPhase, claimed, AttemptCheckpoint, next_phase, same_phase, read_source, read_kind,
}
use simple_coding_agent.Attempt.Json.{Document, checkpoint_from_json, checkpoint_to_json}

-- The file: not there, not readable, no JSON, or a JSON document.
pub data CheckpointFile : Type 0 where
  absent unreadable malformed : CheckpointFile
  parsed : Document → CheckpointFile

pub record AttemptStateStore : Type 0 where
  pub file : CheckpointFile
  pub last_timestamp : Option ℕ

-- `_next_timestamp`, less the printing: strictly after the one before.
unfoldable pub next_timestamp : Option ℕ → ℕ → ℕ
next_timestamp none now = now
next_timestamp (some last) now = if leb now last then last + 1 else now

unfoldable pub valid_revision : Option String → Bool
valid_revision none = true
valid_revision (some s) = not (is_blank s) && not (has_space s)

unfoldable pub as_continuation_index : Option ℤ → Option (Option ℕ)
as_continuation_index none = some none
as_continuation_index (some (pos n)) = some (some n)
as_continuation_index (some _) = none

unfoldable pub with_claim_lease : AttemptCheckpoint → Option String → String → AttemptCheckpoint
with_claim_lease c revision t = record c {
  updated_at = t;
  claim_branch_revision = revision;
  claim_lease_recorded = true;
}

-- The arguments of `start`.
pub record StartArguments : Type 0 where
  pub issue_number : ℤ
  pub branch : String
  pub auto_merge_opt_in : Bool
  pub requeue_source : String
  pub issue_title : Option String
  pub continuation_index : Option ℤ
  pub attempt_kind : String

unfoldable pub claimed_checkpoint : StartArguments → String → Option AttemptCheckpoint
unfolding positive as_continuation_index
claimed_checkpoint a t = do
  issue_number ← positive a.issue_number
  guard (not (is_blank a.branch))
  source ← read_source a.requeue_source
  index ← as_continuation_index a.continuation_index
  kind ← read_kind a.attempt_kind
  some (record {
    issue_number = issue_number;
    branch = a.branch;
    phase = claimed;
    started_at = t;
    updated_at = t;
    auto_merge_opt_in = a.auto_merge_opt_in;
    requeue_source = source;
    issue_title = a.issue_title;
    continuation_index = index;
    attempt_kind = kind;
    claim_branch_revision = none;
    claim_lease_recorded = false;
  })

module _ (is_iso : String → Bool) (iso : ℕ → String) where
  -- The outer `none` is the error, the inner one a missing file.
  unfoldable pub read_file : CheckpointFile → Option (Option AttemptCheckpoint)
  read_file absent = some none
  read_file unreadable = none
  read_file malformed = none
  read_file (parsed d) = elim (checkpoint_from_json is_iso d) [
    | none ↦ none
    | some c ↦ some (some c)
  ]

  unfoldable pub read : AttemptStateStore → Option (Option AttemptCheckpoint)
  read s = read_file s.file

  -- The active checkpoint; it is an error if there is none.
  unfoldable pub active : AttemptStateStore → Option AttemptCheckpoint
  active s = do found ← read s; found

  -- `_write` after `_next_timestamp`, for a checkpoint that is made with the new timestamp.
  unfoldable pub stamp_and_write :
      (String → AttemptCheckpoint)
      → Option ℕ
      → AttemptStateStore
      → Option AttemptCheckpoint × AttemptStateStore
  unfolding next_timestamp
  stamp_and_write make none s = (none, s)
  stamp_and_write make (some now) s =
      let t = next_timestamp s.last_timestamp now in
      let c = make (iso t) in
      (some c, record { file = parsed (checkpoint_to_json c); last_timestamp = some t })

  unfoldable pub start :
      StartArguments → Option ℕ → AttemptStateStore → Option AttemptCheckpoint × AttemptStateStore
  start a now s = elim (read s) [
    | none ↦ (none, s)
    | some (some c) ↦ (none, s)
    | some none ↦ elim (claimed_checkpoint a "") [
      | none ↦ (none, s)
      | some c ↦ stamp_and_write (λ t. record c { started_at = t; updated_at = t }) now s
    ]
  ]

  unfoldable pub transition :
      AttemptPhase → Option ℕ → AttemptStateStore → Option AttemptCheckpoint × AttemptStateStore
  transition phase now s = elim (active s) [
    | none ↦ (none, s)
    | some c ↦ elim (next_phase c.phase) [
      | none ↦ (none, s)
      | some expected ↦
          if same_phase phase expected
          then stamp_and_write (λ t. record c { phase = phase; updated_at = t }) now s
          else (none, s)
    ]
  ]

  -- Only the first recording is written.
  unfoldable pub record_claim_lease :
      Option String → Option ℕ → AttemptStateStore → Option AttemptCheckpoint × AttemptStateStore
  record_claim_lease revision now s = elim (active s) [
    | none ↦ (none, s)
    | some c ↦
        if valid_revision revision
        then (if c.claim_lease_recorded
            then (some c, s)
            else stamp_and_write (with_claim_lease c revision) now s)
        else (none, s)
  ]

  unfoldable pub advance_claim_lease :
      Option String → Option ℕ → AttemptStateStore → Option AttemptCheckpoint × AttemptStateStore
  advance_claim_lease none now s = (none, s)
  advance_claim_lease (some revision) now s = elim (active s) [
    | none ↦ (none, s)
    | some c ↦
        if valid_revision (some revision)
        then stamp_and_write (with_claim_lease c (some revision)) now s
        else (none, s)
  ]

  unfoldable pub delete : AttemptStateStore → AttemptStateStore
  delete s = record s { file = absent }
