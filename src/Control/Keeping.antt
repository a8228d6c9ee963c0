-- ===== src/Control/Keeping.antt =====
-- Which methods of control.py leave the table `counted_attempts` alone: all but
-- `record_attempt_finalized`.
use simple_coding_agent.Base.{ℕ, String, ◌≡◌, refl, Bool, true, false, Option, none, some, arith}
use simple_coding_agent.Control.Types.{
  Clock, Payload, HandoffPhase, RecoveryHold, IntakeState, ControlStore, no_arguments, after, issue,
  attempt, attempt_saved,
}
use simple_coding_agent.Control.Types.{Acknowledgement}
use simple_coding_agent.Control.Table.{
  set_intake, admit, insert, supersede_plans, clear_stop_plan, set_stop_plan, set_handoff,
}
use simple_coding_agent.Control.Stop.{
  complete_stop_named, complete_plain_stops, complete_pending_stop, clear_handoff,
  stop_when_stopped, drop_countdown, drop_handoff, stop_when_stopping, drop_replaceable,
  stop_when_running, stop_body,
}
use simple_coding_agent.Control.Resume
use simple_coding_agent.Control.Countdown
use simple_coding_agent.Control.Countdown.{
  is_counted, count_attempt, count_against_plan, finish_countdown, record_attempt_finalized,
  stop_without_plan,
}
use simple_coding_agent.Control.Priority
use simple_coding_agent.Control.Handoff
use simple_coding_agent.Control.Recovery
use simple_coding_agent.Control.Requests
use simple_coding_agent.Control.Requests.{Request, kind_of, payload_of}
use simple_coding_agent.Control.Events
use simple_coding_agent.Control.Events.{Event}

abbrev pub is_finalization : Event → Bool
is_finalization (Event.attempt_finalized a o) = true
is_finalization _ = false

stop_body-keeps :
    (i : IntakeState) (r : String) (b : Bool) (now : Clock) (s : ControlStore)
    → (stop_body i r b now s).1.counted_attempts ≡ s.counted_attempts
unfolding stop_body stop_when_stopped stop_when_stopping stop_when_running drop_countdown
    drop_handoff drop_replaceable supersede_plans clear_stop_plan clear_handoff set_handoff insert
    set_intake set_stop_plan
stop_body-keeps i r b now s = ground arith

resume_body-keeps :
    (h : Option RecoveryHold) (r : String) (b : Bool) (now : Clock) (s : ControlStore)
    → (Resume.resume_body h r b now s).1.counted_attempts ≡ s.counted_attempts
unfolding Resume.resume_body Resume.resume_now Resume.resume_when_begun Resume.resume_running
    Resume.resume_replacing drop_handoff supersede_plans clear_stop_plan clear_handoff set_handoff
    insert set_intake set_stop_plan
resume_body-keeps h r b now s = ground arith

stop_after_body-keeps :
    (r : String) (n : ℕ) (b : Bool) (a : Option String) (now : Clock) (s : ControlStore)
    → (Countdown.stop_after_body r n b a now s).1.counted_attempts ≡ s.counted_attempts
unfolding Countdown.stop_after_body Countdown.start_countdown supersede_plans clear_stop_plan
    clear_handoff set_handoff insert set_intake set_stop_plan
stop_after_body-keeps r n b a now s = ground arith

next_issue_body-keeps :
    (r : String) (n : ℕ) (now : Clock) (s : ControlStore)
    → (Priority.next_issue_body r n now s).1.counted_attempts ≡ s.counted_attempts
unfolding Priority.next_issue_body Priority.supersede_priority Priority.set_priority insert
next_issue_body-keeps r n now s = ground arith

handoff_body-keeps :
    (h : Option RecoveryHold) (r : String) (b : Bool) (now : Clock) (s : ControlStore)
    → (Handoff.handoff_body h r b now s).1.counted_attempts ≡ s.counted_attempts
unfolding Handoff.handoff_body Handoff.start_handoff supersede_plans clear_stop_plan clear_handoff
    set_handoff insert set_intake set_stop_plan
handoff_body-keeps h r b now s = ground arith

-- A fresh submission of any kind.
run-keeps :
    (r : String) (q : Request) (p : Payload) (now : Clock) (s : ControlStore)
    → (Requests.run r q p now s).1.counted_attempts ≡ s.counted_attempts
unfolding Requests.run Recovery.retry_body Recovery.release_body Recovery.reset_body insert
run-keeps r (Request.stop b) p now s = stop_body-keeps s.intake r b now s
run-keeps r (Request.resume b h) p now s = resume_body-keeps h r b now s
run-keeps r (Request.stop_after v b a) (after n) now s = stop_after_body-keeps r n b a now s
run-keeps r (Request.stop_after v b a) no_arguments now s = refl
run-keeps r (Request.stop_after v b a) (issue n) now s = refl
run-keeps r (Request.stop_after v b a) (attempt x) now s = refl
run-keeps r (Request.stop_after v b a) (attempt_saved x y) now s = refl
run-keeps r (Request.next_issue v) (issue n) now s = next_issue_body-keeps r n now s
run-keeps r (Request.next_issue v) no_arguments now s = refl
run-keeps r (Request.next_issue v) (after n) now s = refl
run-keeps r (Request.next_issue v) (attempt x) now s = refl
run-keeps r (Request.next_issue v) (attempt_saved x y) now s = refl
run-keeps r (Request.handoff b h) p now s = handoff_body-keeps h r b now s
run-keeps r (Request.recovery_retry a) p now s = ground arith
run-keeps r (Request.recovery_release a t) p now s = ground arith
run-keeps r (Request.errors_reset n) p now s = ground arith

checked-keeps :
    (r : String) (q : Request) (p : Option Payload) (now : Clock) (s : ControlStore)
    → (Requests.checked r q p now s).1.counted_attempts ≡ s.counted_attempts
unfolding admit
checked-keeps r q none now s = refl
checked-keeps r q (some p) now s = ground (arith, run-keeps r q p now s)

submit-keeps :
    (r : String) (q : Request) (now : Clock) (s : ControlStore)
    → (Requests.submit r q now s).1.counted_attempts ≡ s.counted_attempts
submit-keeps r q now s =
    rw (Requests.submit-eq r q now s) (ground (arith, checked-keeps r q (payload_of q) now s))

complete_pending_stop-keeps :
    (now : Clock) (s : ControlStore)
    → (complete_pending_stop now s).1.counted_attempts ≡ s.counted_attempts
unfolding complete_pending_stop complete_stop_named complete_plain_stops set_intake
complete_pending_stop-keeps now s = ground arith

enter_stopping-keeps :
    (s : ControlStore)
    → (Countdown.enter_stopping_for_final_claim s).1.counted_attempts ≡ s.counted_attempts
unfolding Countdown.enter_stopping_for_final_claim
enter_stopping-keeps s = ground arith

complete_next_issue-keeps :
    (n : ℕ) (now : Clock) (s : ControlStore)
    → (Priority.complete_next_issue n now s).1.counted_attempts ≡ s.counted_attempts
unfolding Priority.complete_next_issue Priority.settle_priority Priority.set_priority
complete_next_issue-keeps n now s = ground arith

fail_next_issue-keeps :
    (reason : String) (now : Clock) (s : ControlStore)
    → (Priority.fail_next_issue reason now s).1.counted_attempts ≡ s.counted_attempts
unfolding Priority.fail_next_issue Priority.settle_priority Priority.set_priority
fail_next_issue-keeps reason now s = ground arith

end_handoff-keeps :
    (r : String) (a : Acknowledgement) (p : HandoffPhase) (d : String) (now : Clock)
    (s : ControlStore)
    → (Handoff.end_handoff r a p d now s).1.counted_attempts ≡ s.counted_attempts
unfolding Handoff.end_handoff Handoff.settle_handoff Handoff.set_final_phase
    Handoff.complete_waiting_stops set_intake
end_handoff-keeps r a p d now s = ground arith

settle_recovery-keeps :
    (a : Acknowledgement) (r : String) (d : String) (now : Clock) (s : ControlStore)
    → (Recovery.settle_recovery a r d now s).1.counted_attempts ≡ s.counted_attempts
unfolding Recovery.settle_recovery
settle_recovery-keeps a r d now s = ground arith

-- Every event but the finalization of an attempt.
pub apply-keeps :
    (e : Event) (now : Clock) (s : ControlStore)
    → is_finalization e ≡ false
    → (Events.apply e now s).counted_attempts ≡ s.counted_attempts
unfolding Events.apply Handoff.mark_handoff_delivering Handoff.mark_handoff_begun
    Handoff.complete_handoff Handoff.fail_handoff Recovery.complete_recovery_command
    Recovery.fail_recovery_command
apply-keeps (Event.submission r q) now s h = submit-keeps r q now s
apply-keeps Event.pending_stop_completed now s h = complete_pending_stop-keeps now s
apply-keeps (Event.attempt_finalized a o) now s h = absurd (ground arith)
apply-keeps Event.final_claim_entered now s h = enter_stopping-keeps s
apply-keeps (Event.next_issue_completed n) now s h = complete_next_issue-keeps n now s
apply-keeps (Event.next_issue_failed reason) now s h = fail_next_issue-keeps reason now s
apply-keeps (Event.handoff_delivering r) now s h = ground arith
apply-keeps (Event.handoff_begins r) now s h = ground arith
apply-keeps (Event.handoff_completed r d) now s h = end_handoff-keeps r _ _ d now s
apply-keeps (Event.handoff_failed r d) now s h = end_handoff-keeps r _ _ d now s
apply-keeps (Event.recovery_completed r d) now s h = settle_recovery-keeps _ r d now s
apply-keeps (Event.recovery_failed r d) now s h = settle_recovery-keeps _ r d now s
