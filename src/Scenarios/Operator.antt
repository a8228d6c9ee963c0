-- ===== src/Scenarios/Operator.antt =====
-- The control record on concrete inputs: submissions, a countdown of two attempts, and stops.
use simple_coding_agent.Base.{
  ◌≡◌, refl, true, false, ◌&&◌, none, some, List, [], ◌∷◌, text_eq, is_blank, is_space, count_chars,
  strip_left, strip_right, strip, show_ℕ,
}
use simple_coding_agent.Base.Number.{
  integer, pos, text, integer_of, positive, read_integer, read_natural, read_digits, as_positive,
}
use simple_coding_agent.Control.Types.{
  Clock, Kind, no_arguments, issue, stopping, Command, ControlStore, ok, err,
  payload_mismatch_error, next_issue_rejected_error, initialize, is_accepted, same_kind,
  same_payload,
}
use simple_coding_agent.Control.Types.{Acknowledgement}
use simple_coding_agent.Control.Table
use simple_coding_agent.Control.Stop
use simple_coding_agent.Control.Countdown
use simple_coding_agent.Control.Priority
use simple_coding_agent.Control.Handoff
use simple_coding_agent.Control.Requests
use simple_coding_agent.Control.Events
use simple_coding_agent.Control.History.{Successor, Distinct, Ascending}
use simple_coding_agent.Control.Retries.{IsAnswered, submit-retried}
use simple_coding_agent.Control.Replay.{submit_error_unchanged, submit_mismatch}
use simple_coding_agent.Control.Effects.{apply_all-Successor, apply_all-Ascending}
use simple_coding_agent.Control.Invariant.{accepted_kind, IsConsistent}
use simple_coding_agent.Control.Submitting.{
  submit_handoff-IsConsistent, submit_stop_after-IsConsistent,
}
use simple_coding_agent.Control.Completing.{NoStopLeft, complete_pending_stop-NoStopLeft}
use simple_coding_agent.Control.Stopping.{
  Finalized, finalize_all, AreFresh, IsCounting, IsEnded, finalize_all-IsEnded,
  finalize_all-IsCounting,
}

abbrev noon : Clock
noon n = "2026-01-01T12:00:00Z"

abbrev later : Clock
later n = "2026-01-01T13:00:00Z"

abbrev next_seven : Requests.Request
next_seven = Requests.Request.next_issue (integer (pos 7))

-- The same request, its issue given as text with blanks.
abbrev next_seven_text : Requests.Request
next_seven_text = Requests.Request.next_issue (text " 7 ")

abbrev seven_row : Command
seven_row = record {
  request_id = "a";
  sequence = 1;
  kind = Kind.next_issue;
  payload = issue 7;
  acknowledgement = Acknowledgement.accepted;
  detail = "next issue #7 prioritized for the next permitted claim";
  created_at = "2026-01-01T12:00:00Z";
  updated_at = "2026-01-01T12:00:00Z";
}

abbrev seven_stored : ControlStore
seven_stored = record initialize {
  commands = seven_row ∷ [];
  next_issue_number = some 7;
  next_issue_request_id = some "a";
}

seven_submitted : Requests.submit "a" next_seven noon initialize ≡ (ok seven_row, seven_stored)
unfolding Requests.submit Priority.submit_next_issue Priority.next_issue_body
    Priority.parse_next_issue integer_of positive Priority.next_issue_locked Priority.pair_of
    Priority.supersede_priority Priority.priority_detail Priority.set_priority Table.admit
    Table.valid_request_id Table.find Table.insert Table.new_command Table.max_sequence is_blank
    is_space count_chars show_ℕ initialize text_eq
seven_submitted = refl

seven_text_payload : Requests.payload_of next_seven_text ≡ Requests.payload_of next_seven
unfolding Priority.parse_next_issue integer_of positive strip strip_left strip_right is_space
    is_blank read_integer read_natural read_digits as_positive
seven_text_payload = refl

-- The issue is claimed, and with that the command completed, before the retry.
abbrev handed_over : List (Events.Event × Clock)
handed_over =
    (Events.submission "h" (Requests.Request.handoff true none), noon)
    ∷ (Events.next_issue_completed 7, later)
    ∷ []

submit-retried_example :
    IsAnswered "a" next_seven_text later seven_row (Events.apply_all handed_over seven_stored)
submit-retried_example =
    submit-retried handed_over "a" next_seven next_seven_text noon later initialize seven_stored
      seven_row refl seven_text_payload seven_submitted

seven_found : Table.find "a" seven_stored.commands ≡ some seven_row
unfolding Table.find text_eq
seven_found = refl

apply_all-Successor_example :
    Successor seven_stored.commands
      (Events.apply_all handed_over seven_stored).commands
      "a"
      seven_row
apply_all-Successor_example = apply_all-Successor handed_over seven_stored "a" seven_row seven_found

apply_all-Ascending_example :
    let run : List (Events.Event × Clock) =
      (Events.submission "a" next_seven, noon)
      ∷ (Events.submission "s" (Requests.Request.stop true), later)
      ∷ [] in
    Distinct (Events.apply_all run initialize).commands
    × Ascending (Events.apply_all run initialize).commands
apply_all-Ascending_example = apply_all-Ascending (
    (Events.submission "a" next_seven, noon)
    ∷ (Events.submission "s" (Requests.Request.stop true), later)
    ∷ [])

no_issue_refused :
    (Requests.submit "b" (Requests.Request.next_issue (text "soon")) later seven_stored).0
    ≡ err next_issue_rejected_error
unfolding Requests.submit Priority.submit_next_issue Priority.parse_next_issue integer_of strip
    strip_left strip_right is_space is_blank read_integer read_natural read_digits as_positive
    Table.valid_request_id count_chars
no_issue_refused = refl

submit_error_unchanged_example :
    (Requests.submit "b" (Requests.Request.next_issue (text "soon")) later seven_stored).1
    ≡ seven_stored
submit_error_unchanged_example =
    submit_error_unchanged "b" (Requests.Request.next_issue (text "soon")) later seven_stored
      next_issue_rejected_error no_issue_refused

valid_a : Table.valid_request_id "a" ≡ true
unfolding Table.valid_request_id is_blank is_space count_chars
valid_a = refl

other_content :
    same_kind seven_row.kind Kind.stop && same_payload seven_row.payload no_arguments ≡ false
unfolding same_kind
other_content = refl

submit_mismatch_example :
    Requests.submit "a" (Requests.Request.stop true) later seven_stored
    ≡ (err payload_mismatch_error, seven_stored)
submit_mismatch_example =
    submit_mismatch "a" (Requests.Request.stop true) no_arguments later seven_stored seven_row
      valid_a refl seven_found other_content

seven-IsConsistent : IsConsistent seven_stored
unfolding accepted_kind Table.find text_eq is_accepted initialize
seven-IsConsistent = record { shape = tt; priority = refl; rows = (refl, tt) }

submit_handoff-IsConsistent_example :
    IsConsistent (Handoff.submit_handoff "h" true none later seven_stored).1
submit_handoff-IsConsistent_example =
    submit_handoff-IsConsistent "h" true none later seven_stored seven-IsConsistent

submit_stop_after-IsConsistent_example :
    IsConsistent
      (Countdown.submit_stop_after "h" (integer (pos 2)) true (some "x") later seven_stored).1
submit_stop_after-IsConsistent_example =
    submit_stop_after-IsConsistent "h" (integer (pos 2)) true (some "x") later seven_stored
      seven-IsConsistent

-- A countdown of two attempts, `x` and `y`.
abbrev counting_down : ControlStore
counting_down = record initialize {
  pending = some "p";
  stop_after_requested = some 2;
  stop_after_remaining = some 2;
  stop_after_active_attempt_id = some "x";
}

abbrev x_ends : Finalized
x_ends = record { attempt_id = "x"; outcome = "complete"; clock = noon }

abbrev y_ends : Finalized
y_ends = record { attempt_id = "y"; outcome = "incomplete"; clock = later }

counting_down-IsCounting : IsCounting "p" 2 2 counting_down
counting_down-IsCounting = record { pending = refl; requested = refl; remaining = refl }

both_fresh : AreFresh (x_ends ∷ y_ends ∷ []) counting_down.counted_attempts
unfolding is_blank is_space Countdown.is_counted initialize text_eq
both_fresh = (refl, refl, (refl, tt), (refl, refl, tt, tt))

finalize_all-IsEnded_example : IsEnded "p" (finalize_all (x_ends ∷ y_ends ∷ []) counting_down)
finalize_all-IsEnded_example =
    finalize_all-IsEnded (x_ends ∷ y_ends ∷ []) "p" 2 1 counting_down refl both_fresh
      counting_down-IsCounting

x_fresh : AreFresh (x_ends ∷ []) counting_down.counted_attempts
unfolding is_blank is_space Countdown.is_counted initialize
x_fresh = (refl, refl, tt, tt)

finalize_all-IsCounting_example : IsCounting "p" 2 1 (finalize_all (x_ends ∷ []) counting_down)
finalize_all-IsCounting_example =
    finalize_all-IsCounting (x_ends ∷ []) "p" 2 0 counting_down x_fresh counting_down-IsCounting

abbrev x_ended : Events.Event
x_ended = Events.attempt_finalized "x" "complete"

-- A new plan of one attempt, and a finalization under it.
abbrev another_plan : List (Events.Event × Clock)
another_plan =
    (Events.submission "q" (Requests.Request.stop_after (integer (pos 1)) false none), later)
    ∷ (Events.attempt_finalized "y" "incomplete", later)
    ∷ []

abbrev x_done : ControlStore
x_done = (Countdown.record_attempt_finalized "x" "complete" noon counting_down).1

abbrev plan_and_twice_x : List (Events.Event × Clock)
plan_and_twice_x =
    (Events.submission "p" (Requests.Request.stop_after (integer (pos 2)) false none), noon)
    ∷ (x_ended, noon)
    ∷ (x_ended, later)
    ∷ []

-- A stop that waits for the active attempt.
abbrev stop_row : Command
stop_row = record {
  request_id = "s";
  sequence = 1;
  kind = Kind.stop;
  payload = no_arguments;
  acknowledgement = Acknowledgement.accepted;
  detail = "finish active attempt, then stop intake";
  created_at = "2026-01-01T12:00:00Z";
  updated_at = "2026-01-01T12:00:00Z";
}

abbrev stop_waiting : ControlStore
stop_waiting = record initialize { commands = stop_row ∷ []; intake = stopping; pending = some "s" }

stop_found : Table.find "s" stop_waiting.commands ≡ some stop_row
unfolding Table.find text_eq
stop_found = refl

stop_is_stop : same_kind stop_row.kind Kind.stop ≡ true
unfolding same_kind
stop_is_stop = refl

complete_pending_stop-NoStopLeft_example :
    NoStopLeft (later 0) stop_waiting (Stop.complete_pending_stop later stop_waiting).1
complete_pending_stop-NoStopLeft_example =
    complete_pending_stop-NoStopLeft "s" stop_row later stop_waiting refl stop_found stop_is_stop
