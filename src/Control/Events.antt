-- ===== src/Control/Events.antt =====
-- Every method of `ControlStore` that writes, as one step function, and runs of such steps.
use simple_coding_agent.Base.{ℕ, String, List, [], ◌∷◌}
use simple_coding_agent.Control.Types.{Clock, ControlStore}
use simple_coding_agent.Control.Stop.{complete_pending_stop}
use simple_coding_agent.Control.Countdown.{record_attempt_finalized, enter_stopping_for_final_claim}
use simple_coding_agent.Control.Priority.{complete_next_issue, fail_next_issue}
use simple_coding_agent.Control.Handoff.{
  mark_handoff_delivering, mark_handoff_begun, complete_handoff, fail_handoff,
}
use simple_coding_agent.Control.Recovery.{complete_recovery_command, fail_recovery_command}
use simple_coding_agent.Control.Requests.{Request, submit}

pub data Event : Type 0 where
  submission : String → Request → Event
  pending_stop_completed : Event
  attempt_finalized : String → String → Event
  final_claim_entered : Event
  next_issue_completed : ℕ → Event
  next_issue_failed : String → Event
  handoff_delivering : String → Event
  handoff_begins : String → Event
  handoff_completed : String → String → Event
  handoff_failed : String → String → Event
  recovery_completed : String → String → Event
  recovery_failed : String → String → Event

unfoldable pub apply : Event → Clock → ControlStore → ControlStore
apply (submission r q) now s = (submit r q now s).1
apply pending_stop_completed now s = (complete_pending_stop now s).1
apply (attempt_finalized a o) now s = (record_attempt_finalized a o now s).1
apply final_claim_entered now s = (enter_stopping_for_final_claim s).1
apply (next_issue_completed n) now s = (complete_next_issue n now s).1
apply (next_issue_failed reason) now s = (fail_next_issue reason now s).1
apply (handoff_delivering r) now s = (mark_handoff_delivering r s).1
apply (handoff_begins r) now s = (mark_handoff_begun r s).1
apply (handoff_completed r d) now s = (complete_handoff r d now s).1
apply (handoff_failed r d) now s = (fail_handoff r d now s).1
apply (recovery_completed r d) now s = (complete_recovery_command r d now s).1
apply (recovery_failed r d) now s = (fail_recovery_command r d now s).1

-- A run of events, each with its readings of the clock.
unfoldable pub apply_all : List (Event × Clock) → ControlStore → ControlStore
apply_all [] s = s
apply_all ((e, now) ∷ rest) s = apply_all rest (apply e now s)
