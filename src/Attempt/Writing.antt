-- ===== src/Attempt/Writing.antt =====
-- What the operations of the attempt store write.
use simple_coding_agent.Base.{
  ℕ, suc, ◌<◌, String, ◌≡◌, refl, ap, ◌∙◌, Bool, true, false, Option, none, some, arith, text_eq,
  is_blank,
}
use simple_coding_agent.Base.Number.{ℤ, pos, positive}
use simple_coding_agent.Base.Options.{>>=-some}
use simple_coding_agent.Attempt.Types.{
  AttemptCheckpoint, claimed, RequeueSource, human, automatic, ordinary, AttemptKind, read_source,
  read_kind, source_value, kind_value,
}
use simple_coding_agent.Attempt.Json.{valid_timestamp}
use simple_coding_agent.Attempt.Valid.{IsValid}
use simple_coding_agent.Attempt.Roundtrip.{
  checkpoint_from_json-checkpoint_to_json, checkpoint_from_json-IsValid,
}
use simple_coding_agent.Attempt.Store.{
  CheckpointFile, read_file, absent, unreadable, malformed, parsed, AttemptStateStore,
  next_timestamp, StartArguments, claimed_checkpoint, as_continuation_index, read, active,
  stamp_and_write, start,
}

-- The timestamps of one store rise strictly, whatever the clock says.
pub next_timestamp-rises : (last now : ℕ) → last < next_timestamp (some last) now
unfolding next_timestamp
next_timestamp-rises last now = ground arith

-- A continuation index as an argument of `start`.
abbrev pub given_index : Option ℕ → Option ℤ
given_index none = none
given_index (some n) = some (pos n)

read_source_value : (source : RequeueSource) → read_source (source_value source) ≡ some source
unfolding read_source source_value text_eq
read_source_value human = refl
read_source_value automatic = refl
read_source_value RequeueSource.conflict = refl

read_kind_value : (kind : AttemptKind) → read_kind (kind_value kind) ≡ some kind
unfolding read_kind kind_value text_eq
read_kind_value ordinary = refl
read_kind_value AttemptKind.conflict = refl

as_continuation_index_given : (o : Option ℕ) → as_continuation_index (given_index o) ≡ some o
unfolding as_continuation_index
as_continuation_index_given none = refl
as_continuation_index_given (some n) = refl

-- The checkpoint of a new attempt.
abbrev pub new_attempt :
    StartArguments → ℕ → RequeueSource → Option ℕ → AttemptKind → String → AttemptCheckpoint
new_attempt a n source index kind t = record {
  issue_number = n;
  branch = a.branch;
  phase = claimed;
  started_at = t;
  updated_at = t;
  auto_merge_opt_in = a.auto_merge_opt_in;
  requeue_source = source;
  issue_title = a.issue_title;
  continuation_index = index;
  attempt_kind = kind;
  claim_branch_revision = none;
  claim_lease_recorded = false;
}

claimed_checkpoint-new_attempt :
    (a : StartArguments) (n : ℕ) (source : RequeueSource) (index : Option ℕ) (kind : AttemptKind)
    → a.issue_number ≡ pos (suc n)
    → is_blank a.branch ≡ false
    → a.requeue_source ≡ source_value source
    → a.continuation_index ≡ given_index index
    → a.attempt_kind ≡ kind_value kind
    → claimed_checkpoint a "" ≡ some (new_attempt a (suc n) source index kind "")
unfolding claimed_checkpoint positive
claimed_checkpoint-new_attempt a n source index kind i b r c k =
    let read_r = ap read_source r ∙ read_source_value source in
    let read_c = ap as_continuation_index c ∙ as_continuation_index_given index in
    let read_k = ap read_kind k ∙ read_kind_value kind in
    rw (i, b, read_r, read_c, read_k, claimed_checkpoint) refl

module _ (is_iso : String → Bool) (iso : ℕ → String) where
  read_file-IsValid :
      (f : CheckpointFile) (c : AttemptCheckpoint)
      → read_file is_iso iso f ≡ some (some c)
      → IsValid is_iso c
  unfolding read_file
  read_file-IsValid absent c h = absurd (ground arith)
  read_file-IsValid unreadable c h = absurd (ground arith)
  read_file-IsValid malformed c h = absurd (ground arith)
  read_file-IsValid (parsed d) c h = ground (arith, checkpoint_from_json-IsValid is_iso d c)

  -- What is active can be relied upon: it was read through the checks.
  pub active-IsValid :
      (s : AttemptStateStore) (c : AttemptCheckpoint)
      → active is_iso iso s ≡ some c
      → IsValid is_iso c
  unfolding active read
  active-IsValid s c h =
      let (found, e, h') = >>=-some (read_file is_iso iso s.file) _ c h in
      read_file-IsValid s.file c (e ∙ ap some h')

  -- The result of a write: the checkpoint that was made, stored so that it is read back.
  pub record Wrote (make : String → AttemptCheckpoint) (s : AttemptStateStore)
      (out : Option AttemptCheckpoint × AttemptStateStore) : Type 0 where
    pub time : ℕ
    pub reply : out.0 ≡ some (make (iso time))
    pub stored : read is_iso iso out.1 ≡ some (some (make (iso time)))
    pub valid : IsValid is_iso (make (iso time))
    pub later : (last : ℕ) → s.last_timestamp ≡ some last → last < time

module _ (is_iso : String → Bool) (iso : ℕ → String)
    (printed : (t : ℕ) → valid_timestamp is_iso (iso t) ≡ true) where
  pub stamp_and_write-Wrote :
      (make : String → AttemptCheckpoint) (now : ℕ) (s : AttemptStateStore)
      → ((t : ℕ) → IsValid is_iso (make (iso t)))
      → Wrote is_iso iso make s (stamp_and_write is_iso iso make (some now) s)
  unfolding stamp_and_write read read_file
  stamp_and_write-Wrote make now s v =
      let t = next_timestamp s.last_timestamp now in
      record {
        time = t;
        reply = refl;
        stored =
            rw (checkpoint_from_json-checkpoint_to_json is_iso (make (iso t)) (v t), read_file)
              refl;
        valid = v t;
        later = λ last e. rw e (next_timestamp-rises last now);
      }

  -- With an aware clock, `start` where no attempt is active, with a positive issue number, a branch,
  -- and the written values of a requeue source, a kind and a continuation index that is none or not
  -- negative, stores the checkpoint of these arguments, so that it is read back: in the phase
  -- `claimed`, with no claim lease, and with the same timestamp twice, which is later than the last
  -- one given out. It is supposed that printed timestamps are accepted when they are read.
  pub start-Wrote :
      (a : StartArguments) (n : ℕ) (source : RequeueSource) (index : Option ℕ) (kind : AttemptKind)
      (now : ℕ) (s : AttemptStateStore)
      → read is_iso iso s ≡ some none
      → a.issue_number ≡ pos (suc n)
      → is_blank a.branch ≡ false
      → a.requeue_source ≡ source_value source
      → a.continuation_index ≡ given_index index
      → a.attempt_kind ≡ kind_value kind
      → Wrote is_iso iso
          (new_attempt a (suc n) source index kind)
          s
          (start is_iso iso a (some now) s)
  unfolding start
  start-Wrote a n source index kind now s free i b r c k =
      rw (free, claimed_checkpoint-new_attempt a n source index kind i b r c k, start)
        (stamp_and_write-Wrote _ now s (λ t. record {
          issue_number = omega arith;
          branch = b;
          started_at = printed t;
          updated_at = printed t;
          lease = tt;
        }))
