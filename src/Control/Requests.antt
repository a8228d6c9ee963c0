-- ===== src/Control/Requests.antt =====
-- The eight submissions of control.py as one function over requests, for theorems that hold of all
-- of them. Each request has a kind and a payload, and what `admit` runs for a fresh request ID.
use simple_coding_agent.Base.{
  ℕ, String, ◌≡◌, Bool, false, Option, none, some, inl, inr, arith, if◌then◌else◌, Bool-cases,
}
use simple_coding_agent.Base.Number.{PyValue}
use simple_coding_agent.Control.Types.{
  Clock, Kind, Payload, no_arguments, after, issue, attempt, attempt_saved, RecoveryHold, Error,
  Result, err, request_id_error, stop_after_rejected_error, next_issue_rejected_error,
  recovery_rejected_error, Command, ControlStore,
}
use simple_coding_agent.Control.Table.{admit, valid_request_id}
use simple_coding_agent.Control.Stop.{submit_stop, stop_body}
use simple_coding_agent.Control.Resume.{submit_resume, resume_body}
use simple_coding_agent.Control.Countdown.{submit_stop_after, stop_after_body, parse_stop_after}
use simple_coding_agent.Control.Priority.{submit_next_issue, next_issue_body, parse_next_issue}
use simple_coding_agent.Control.Handoff.{submit_handoff, handoff_body}
use simple_coding_agent.Control.Recovery.{
  submit_recovery_retry, submit_recovery_release, submit_errors_reset, parse_attempt_id,
  parse_saved_at, retry_body, release_body, release_parsed, reset_body,
}

pub data Request : Type 0 where
  stop : Bool → Request
  resume : Bool → Option RecoveryHold → Request
  stop_after : PyValue → Bool → Option String → Request
  next_issue : PyValue → Request
  handoff : Bool → Option RecoveryHold → Request
  recovery_retry : String → Request
  recovery_release : String → String → Request
  errors_reset : Option ℕ → Request

unfoldable pub submit : String → Request → Clock → ControlStore → Result Command × ControlStore
submit r (stop active) now s = submit_stop r active now s
submit r (resume active hold) now s = submit_resume r active hold now s
submit r (stop_after value active target) now s = submit_stop_after r value active target now s
submit r (next_issue value) now s = submit_next_issue r value now s
submit r (handoff active hold) now s = submit_handoff r active hold now s
submit r (recovery_retry target) now s = submit_recovery_retry r target now s
submit r (recovery_release target saved) now s = submit_recovery_release r target saved now s
submit r (errors_reset previous) now s = submit_errors_reset r previous now s

abbrev pub kind_of : Request → Kind
kind_of (stop active) = Kind.stop
kind_of (resume active hold) = Kind.resume
kind_of (stop_after value active target) = Kind.stop_after
kind_of (next_issue value) = Kind.next_issue
kind_of (handoff active hold) = Kind.handoff
kind_of (recovery_retry target) = Kind.recovery_retry
kind_of (recovery_release target saved) = Kind.recovery_release
kind_of (errors_reset previous) = Kind.errors_reset

abbrev pub with_argument : Option ℕ → (ℕ → Payload) → Option Payload
with_argument none f = none
with_argument (some n) f = some (f n)

abbrev pub attempt_payload : Option String → Option Payload
attempt_payload none = none
attempt_payload (some a) = some (attempt a)

abbrev pub release_payload : Option String → Option String → Option Payload
release_payload none saved = none
release_payload (some a) none = none
release_payload (some a) (some saved) = some (attempt_saved a saved)

-- The canonical payload, if the arguments are valid.
abbrev pub payload_of : Request → Option Payload
payload_of (stop active) = some no_arguments
payload_of (resume active hold) = some no_arguments
payload_of (stop_after value active a) = with_argument (parse_stop_after value) after
payload_of (next_issue value) = with_argument (parse_next_issue value) issue
payload_of (handoff active hold) = some no_arguments
payload_of (recovery_retry a) = attempt_payload (parse_attempt_id a)
payload_of (recovery_release a saved) = release_payload (parse_attempt_id a) (parse_saved_at saved)
payload_of (errors_reset previous) = some no_arguments

-- The exception at invalid arguments.
abbrev pub rejection_of : Request → Error
rejection_of (stop_after value active target) = stop_after_rejected_error
rejection_of (next_issue value) = next_issue_rejected_error
rejection_of _ = recovery_rejected_error

-- What a fresh request ID runs, at a payload of its kind.
unfoldable pub run :
    String → Request → Payload → Clock → ControlStore → Result Command × ControlStore
run r (stop active) p now s = stop_body s.intake r active now s
run r (resume active hold) p now s = resume_body hold r active now s
run r (stop_after value active target) (after n) now s = stop_after_body r n active target now s
run r (next_issue value) (issue n) now s = next_issue_body r n now s
run r (handoff active hold) p now s = handoff_body hold r active now s
run r (recovery_retry a) (attempt b) now s = retry_body r b now s
run r (recovery_release a saved) (attempt_saved b c) now s = release_body r b c now s
run r (errors_reset previous) p now s = reset_body r previous now s
run r _ p now s = (err request_id_error, s)

-- A submission checks the request ID, then its arguments, then goes through `admit`.
abbrev pub checked :
    String → Request → Option Payload → Clock → ControlStore → Result Command × ControlStore
checked r q none now s = (err (rejection_of q), s)
checked r q (some p) now s = admit r (kind_of q) p (run r q p now) s

admit_invalid :
    (r : String) (k : Kind) (p : Payload) (body : ControlStore → Result Command × ControlStore)
    (s : ControlStore)
    → valid_request_id r ≡ false
    → admit r k p body s ≡ (err request_id_error, s)
unfolding admit
admit_invalid r k p body s h = rw h

admit_guarded :
    (r : String) (k : Kind) (p : Payload) (body : ControlStore → Result Command × ControlStore)
    (s : ControlStore)
    → admit r k p body s
      ≡ (if valid_request_id r then admit r k p body s else (err request_id_error, s))
admit_guarded r k p body s = elim (Bool-cases (valid_request_id r)) [
  | inl e ↦ rw e
  | inr e ↦ rw e (admit_invalid r k p body s e)
]

-- Each submission is its checks, and then `admit`.
pub submit-eq :
    (r : String) (q : Request) (now : Clock) (s : ControlStore)
    → submit r q now s
      ≡ (if valid_request_id r then checked r q (payload_of q) now s else (err request_id_error, s))
unfolding submit submit_stop submit_resume submit_stop_after submit_next_issue submit_handoff
    submit_recovery_retry submit_recovery_release submit_errors_reset release_parsed run
submit-eq r (stop a) now s =
    admit_guarded r Kind.stop no_arguments (run r (stop a) no_arguments now) s
submit-eq r (resume a h) now s =
    admit_guarded r Kind.resume no_arguments (run r (resume a h) no_arguments now) s
submit-eq r (stop_after v a t) now s = ground arith
submit-eq r (next_issue v) now s = ground arith
submit-eq r (handoff a h) now s =
    admit_guarded r Kind.handoff no_arguments (run r (handoff a h) no_arguments now) s
submit-eq r (recovery_retry t) now s = ground arith
submit-eq r (recovery_release t u) now s = ground arith
submit-eq r (errors_reset n) now s =
    admit_guarded r Kind.errors_reset no_arguments (run r (errors_reset n) no_arguments now) s
