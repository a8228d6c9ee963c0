-- ===== src/Control/Types.antt =====
-- The data of the durable operator-control record (simple_coding_agent/control.py, lines 31-155 and
-- the schema in lines 1740-1801). A row of the table `commands` is a `Command`; the `CommandRecord`
-- that the methods return is the row without its payload. The one row of `control_state` and the
-- table `counted_attempts` are fields of `ControlStore`. Exceptions are kept by their class.
use simple_coding_agent.Base.{ℕ, String, Bool, true, false, Option, none, List, []}
use simple_coding_agent.Base.{text_eq, ◌==◌, ◌&&◌}

pub data IntakeState : Type 0 where
  running stopping stopped : IntakeState

pub data Acknowledgement : Type 0 where
  accepted completed superseded not_fulfilled : Acknowledgement

pub data Kind : Type 0 where
  stop stop_after resume next_issue handoff recovery_retry recovery_release errors_reset : Kind

-- The canonical arguments of a command; two are the same JSON text exactly if they are equal.
pub data Payload : Type 0 where
  no_arguments : Payload
  after : ℕ → Payload
  issue : ℕ → Payload
  attempt : String → Payload
  attempt_saved : String → String → Payload

pub data HandoffPhase : Type 0 where
  accepted delivering model_work completed not_fulfilled : HandoffPhase

pub data Error : Type 0 where
  request_id_error payload_mismatch_error resume_blocked_error stop_after_rejected_error : Error
  next_issue_rejected_error handoff_rejected_error recovery_rejected_error : Error
  control_store_error type_error : Error

pub data Result {ℓ} (A : Type ℓ) : Type ℓ where
  ok : A → Result A
  err : Error → Result A

pub record Command : Type 0 where
  pub request_id : String
  pub sequence : ℕ
  pub kind : Kind
  pub payload : Payload
  pub acknowledgement : Acknowledgement
  pub detail : String
  pub created_at : String
  pub updated_at : String

pub record CountedAttempt : Type 0 where
  pub attempt_id : String
  pub plan_request_id : String
  pub outcome : String
  pub counted_at : String

pub record RecoveryHold : Type 0 where
  pub issue_number : Option ℕ
  pub attempt_id : Option String
  pub branch : Option String
  pub phase : Option String
  pub reason : String

pub record ControlStore : Type 0 where
  pub commands : List Command
  pub intake : IntakeState
  pub pending : Option String
  pub stop_after_requested : Option ℕ
  pub stop_after_remaining : Option ℕ
  pub stop_after_active_attempt_id : Option String
  pub latest_counted_attempt_id : Option String
  pub latest_counted_outcome : Option String
  pub next_issue_number : Option ℕ
  pub next_issue_request_id : Option String
  pub handoff_request_id : Option String
  pub handoff_accepted_at : Option String
  pub handoff_begun : Bool
  pub handoff_phase : Option HandoffPhase
  pub counted_attempts : List CountedAttempt

-- The store that `_initialize` leaves in an empty directory.
unfoldable pub initialize : ControlStore
initialize = record {
  commands = [];
  intake = running;
  pending = none;
  stop_after_requested = none;
  stop_after_remaining = none;
  stop_after_active_attempt_id = none;
  latest_counted_attempt_id = none;
  latest_counted_outcome = none;
  next_issue_number = none;
  next_issue_request_id = none;
  handoff_request_id = none;
  handoff_accepted_at = none;
  handoff_begun = false;
  handoff_phase = none;
  counted_attempts = [];
}

-- The readings of the clock during one operation, in the order of the places that read it.
abbrev pub Clock : Type 0
Clock = ℕ → String

unfoldable pub is_accepted : Acknowledgement → Bool
is_accepted Acknowledgement.accepted = true
is_accepted _ = false

unfoldable pub same_kind : Kind → Kind → Bool
same_kind stop stop = true
same_kind stop_after stop_after = true
same_kind resume resume = true
same_kind next_issue next_issue = true
same_kind handoff handoff = true
same_kind recovery_retry recovery_retry = true
same_kind recovery_release recovery_release = true
same_kind errors_reset errors_reset = true
same_kind _ _ = false

unfoldable pub same_payload : Payload → Payload → Bool
same_payload no_arguments no_arguments = true
same_payload (after n) (after m) = n == m
same_payload (issue n) (issue m) = n == m
same_payload (attempt s) (attempt t) = text_eq s t
same_payload (attempt_saved s u) (attempt_saved t v) = text_eq s t && text_eq u v
same_payload _ _ = false
