-- ===== src/Attempt/Types.antt =====
-- The data of an attempt checkpoint (simple_coding_agent/attempt_state.py, lines 19-68): the phases
-- and their order, the sources of a requeue, the kinds, and the checkpoint itself. The texts that
-- the source compares with fixed words are data types, with the words that stand for them.
use simple_coding_agent.Base.{
  ℕ, String, Bool, true, false, Option, none, some, if◌then◌else◌, text_eq,
}

pub data AttemptPhase : Type 0 where
  claimed setup model_running pushing publishing : AttemptPhase

pub data RequeueSource : Type 0 where
  human automatic conflict : RequeueSource

pub data AttemptKind : Type 0 where
  ordinary conflict : AttemptKind

pub record AttemptCheckpoint : Type 0 where
  pub issue_number : ℕ
  pub branch : String
  pub phase : AttemptPhase
  pub started_at : String
  pub updated_at : String
  pub auto_merge_opt_in : Bool
  pub requeue_source : RequeueSource
  pub issue_title : Option String
  pub continuation_index : Option ℕ
  pub attempt_kind : AttemptKind
  pub claim_branch_revision : Option String
  pub claim_lease_recorded : Bool

-- `_NEXT_PHASE`
unfoldable pub next_phase : AttemptPhase → Option AttemptPhase
next_phase claimed = some setup
next_phase setup = some model_running
next_phase model_running = some pushing
next_phase pushing = some publishing
next_phase publishing = none

unfoldable pub same_phase : AttemptPhase → AttemptPhase → Bool
same_phase claimed claimed = true
same_phase setup setup = true
same_phase model_running model_running = true
same_phase pushing pushing = true
same_phase publishing publishing = true
same_phase _ _ = false

unfoldable pub phase_value : AttemptPhase → String
phase_value claimed = "claimed"
phase_value setup = "setup"
phase_value model_running = "model_running"
phase_value pushing = "pushing"
phase_value publishing = "publishing"

-- `AttemptPhase(value)`; `none` is `ValueError`.
unfoldable pub read_phase : String → Option AttemptPhase
unfolding text_eq
read_phase s =
    if text_eq s "claimed"
    then some claimed
    else if text_eq s "setup"
    then some setup
    else if text_eq s "model_running"
    then some model_running
    else if text_eq s "pushing"
    then some pushing
    else if text_eq s "publishing"
    then some publishing
    else none

unfoldable pub source_value : RequeueSource → String
source_value human = "human"
source_value automatic = "automatic"
source_value RequeueSource.conflict = "conflict"

-- `requeue_source not in ("human", "automatic", "conflict")` is `none`.
unfoldable pub read_source : String → Option RequeueSource
unfolding text_eq
read_source s =
    if text_eq s "human"
    then some human
    else if text_eq s "automatic"
    then some automatic
    else if text_eq s "conflict"
    then some RequeueSource.conflict
    else none

unfoldable pub kind_value : AttemptKind → String
kind_value ordinary = "ordinary"
kind_value AttemptKind.conflict = "conflict"

-- `attempt_kind not in ATTEMPT_KINDS` is `none`.
unfoldable pub read_kind : String → Option AttemptKind
unfolding text_eq
read_kind s =
    if text_eq s "ordinary"
    then some ordinary
    else if text_eq s "conflict"
    then some AttemptKind.conflict
    else none
