-- ===== src/Control/Recording.antt =====
-- What each submission of control.py does for a fresh request ID: it refuses and changes nothing,
-- or inserts exactly its own row behind updates of accepted rows.
use simple_coding_agent.Base.{
  ℕ, String, ◌≡◌, refl, Bool, true, false, Option, none, some, arith, List, [], ◌∷◌, ◌++◌,
}
use simple_coding_agent.Control.Types.{
  Clock, IntakeState, running, stopping, stopped, Kind, Payload, RecoveryHold, Result, ok, Command,
  ControlStore, no_arguments, after, issue, attempt, attempt_saved, is_accepted,
  control_store_error, stop_after_rejected_error, handoff_rejected_error,
}
use simple_coding_agent.Control.Types.{Acknowledgement}
use simple_coding_agent.Control.Table.{clear_stop_plan, handoff_begun_locked, new_command}
use simple_coding_agent.Control.History.{has_id_accepted-OnlyAccepted}
use simple_coding_agent.Control.Outcomes.{
  Rewrites, Rewrites-refl, Rewrites-update, Rewrites-supersede, Rewrites-if, Outcome, refused,
  recorded, Outcome-if,
}
use simple_coding_agent.Control.Stop.{
  clear_handoff, drop_countdown, drop_handoff, drop_replaceable, stop_when_stopped,
  stop_when_stopping, stop_when_running, stop_body, replaceable_kinds,
}
use simple_coding_agent.Control.Resume.{
  resume_when_begun, resume_running, resume_replacing, resume_now, resume_body, stop_plan_kinds,
}
use simple_coding_agent.Control.Countdown.{
  start_countdown, stop_after_body, lacks_identity, is_stopped,
}
use simple_coding_agent.Control.Priority.{next_issue_body, supersede_priority}
use simple_coding_agent.Control.Handoff.{start_handoff, handoff_body}
use simple_coding_agent.Control.Recovery.{retry_body, release_body, reset_body}
use simple_coding_agent.Control.Requests.{Request, kind_of, payload_of, run}

module _ {cs : List Command} where
  Rewrites-drop_countdown :
      (r t : String) (s : ControlStore)
      → Rewrites cs s.commands
      → Rewrites cs (drop_countdown r t s).commands
  unfolding drop_countdown clear_stop_plan
  Rewrites-drop_countdown r t s w =
      let w' = Rewrites-supersede (Kind.stop_after ∷ []) r t s w in Rewrites-if _ _ _ w' w'

  Rewrites-drop_handoff :
      (r t : String) (s : ControlStore)
      → Rewrites cs s.commands
      → Rewrites cs (drop_handoff r t s).commands
  unfolding drop_handoff clear_handoff
  Rewrites-drop_handoff r t s w =
      let w' = Rewrites-supersede (Kind.handoff ∷ []) r t s w in Rewrites-if _ _ _ w' w'

  Rewrites-drop_replaceable :
      (r t : String) (s : ControlStore)
      → Rewrites cs s.commands
      → Rewrites cs (drop_replaceable r t s).commands
  unfolding drop_replaceable clear_handoff clear_stop_plan
  Rewrites-drop_replaceable r t s w =
      let w' = Rewrites-supersede (replaceable_kinds s) r t s w in Rewrites-if _ _ _ w' w'

-- A new row behind rewrites of the table.
abbrev record_row :
    {s s' : ControlStore} (r : String) (k : Kind) (p : Payload) (a : Acknowledgement) (d t : String)
    (table : List Command)
    → Rewrites s.commands table
    → (reply : Result Command) → reply ≡ ok (new_command r k p a d t table)
    → s'.commands ≡ table ++ new_command r k p a d t table ∷ []
    → Outcome s r k p (reply, s')
record_row r k p a d t table w reply e f = recorded (record {
  table = table;
  acknowledgement = a;
  detail = d;
  time = t;
  rewrites = w;
  reply = e;
  commands = f;
})

stop_when_stopped-Outcome :
    (r : String) (now : Clock) (s : ControlStore)
    → Outcome s r Kind.stop no_arguments (stop_when_stopped r now s)
unfolding stop_when_stopped
stop_when_stopped-Outcome r now s =
    record_row r _ _ _ _ _ s.commands (Rewrites-refl s.commands) _ refl refl

stop_when_stopping-Outcome :
    (r : String) (now : Clock) (s : ControlStore)
    → Outcome s r Kind.stop no_arguments (stop_when_stopping r now s)
unfolding stop_when_stopping
stop_when_stopping-Outcome r now s =
    let w = Rewrites-drop_countdown r (now 0) s (Rewrites-refl s.commands) in
    record_row r _ _ _ _ _ _ (Rewrites-if _ _ _ (Rewrites-drop_handoff r (now 1) _ w) w) _ refl refl

stop_when_running-Outcome :
    (r : String) (a : Bool) (now : Clock) (s : ControlStore)
    → Outcome s r Kind.stop no_arguments (stop_when_running r a now s)
unfolding stop_when_running
stop_when_running-Outcome r a now s =
    let w = Rewrites-drop_replaceable r (now 0) s (Rewrites-refl s.commands) in
    Outcome-if a _ _ (record_row r _ _ _ _ _ _ w _ refl refl)
      (record_row r _ _ _ _ _ _ w _ refl refl)

stop_body-Outcome :
    (i : IntakeState) (r : String) (a : Bool) (now : Clock) (s : ControlStore)
    → Outcome s r Kind.stop no_arguments (stop_body i r a now s)
unfolding stop_body
stop_body-Outcome stopped r a now s = stop_when_stopped-Outcome r now s
stop_body-Outcome stopping r a now s = stop_when_stopping-Outcome r now s
stop_body-Outcome running r a now s = stop_when_running-Outcome r a now s

resume_now-Outcome :
    (r : String) (a : Bool) (now : Clock) (s : ControlStore)
    → Outcome s r Kind.resume no_arguments (resume_now r a now s)
unfolding resume_now resume_running resume_replacing
resume_now-Outcome r a now s =
    let w = Rewrites-drop_handoff r (now 0) s (Rewrites-refl s.commands) in
    Outcome-if _ (resume_running r now s) (resume_replacing r a now s)
      (record_row r _ _ _ _ _ _ w _ refl refl)
      (record_row r _ _ _ _ _ _ (Rewrites-supersede stop_plan_kinds r (now 1) _ w) _ refl refl)

resume_body-Outcome :
    (h : Option RecoveryHold) (r : String) (a : Bool) (now : Clock) (s : ControlStore)
    → Outcome s r Kind.resume no_arguments (resume_body h r a now s)
unfolding resume_body resume_when_begun
resume_body-Outcome (some hold) r a now s = refused _ refl
resume_body-Outcome none r a now s =
    Outcome-if (handoff_begun_locked s) _ _
      (record_row r _ _ _ _ _ s.commands (Rewrites-refl s.commands) _ refl refl)
      (resume_now-Outcome r a now s)

start_countdown-Outcome :
    (r : String) (n : ℕ) (a : Bool) (t : Option String) (now : Clock) (s : ControlStore)
    → Outcome s r Kind.stop_after (after n) (start_countdown r n a t now s)
unfolding start_countdown clear_handoff
start_countdown-Outcome r n a t now s =
    let w = Rewrites-supersede _ r (now 0) s (Rewrites-refl s.commands) in
    record_row r _ _ _ _ _ _ (Rewrites-if _ _ _ w w) _ refl refl

stop_after_body-Outcome :
    (r : String) (n : ℕ) (a : Bool) (t : Option String) (now : Clock) (s : ControlStore)
    → Outcome s r Kind.stop_after (after n) (stop_after_body r n a t now s)
unfolding stop_after_body
stop_after_body-Outcome r n a t now s =
    Outcome-if (lacks_identity a t) _ _ (refused control_store_error refl) (
      Outcome-if (is_stopped s.intake) _ _ (refused stop_after_rejected_error refl) (
        Outcome-if (handoff_begun_locked s) _ _ (refused stop_after_rejected_error refl)
          (start_countdown-Outcome r n a t now s)))

Rewrites-supersede_priority :
    {cs : List Command} (current : Option (ℕ × String)) (r t : String) (s : ControlStore)
    → Rewrites cs s.commands
    → Rewrites cs (supersede_priority current r t s).commands
unfolding supersede_priority is_accepted
Rewrites-supersede_priority none r t s w = w
Rewrites-supersede_priority (some (n, earlier)) r t s w =
    Rewrites-update _ _ _ t (has_id_accepted-OnlyAccepted earlier s.commands) refl w

next_issue_body-Outcome :
    (r : String) (n : ℕ) (now : Clock) (s : ControlStore)
    → Outcome s r Kind.next_issue (issue n) (next_issue_body r n now s)
unfolding next_issue_body
next_issue_body-Outcome r n now s =
    record_row r _ _ _ _ _ _ (Rewrites-supersede_priority _ r (now 0) s (Rewrites-refl s.commands))
      _ refl refl

start_handoff-Outcome :
    (r : String) (now : Clock) (s : ControlStore)
    → Outcome s r Kind.handoff no_arguments (start_handoff r now s)
unfolding start_handoff
start_handoff-Outcome r now s =
    record_row r _ _ _ _ _ _ (Rewrites-supersede _ r (now 0) s (Rewrites-refl s.commands)) _ refl
      refl

handoff_body-Outcome :
    (h : Option RecoveryHold) (r : String) (a : Bool) (now : Clock) (s : ControlStore)
    → Outcome s r Kind.handoff no_arguments (handoff_body h r a now s)
unfolding handoff_body
handoff_body-Outcome (some hold) r a now s = refused _ refl
handoff_body-Outcome none r false now s = refused _ refl
handoff_body-Outcome none r true now s =
    Outcome-if (handoff_begun_locked s) _ _ (refused handoff_rejected_error refl)
      (start_handoff-Outcome r now s)

-- A row inserted with nothing else.
module _ (r : String) (now : Clock) (s : ControlStore) where
  retry_body-Outcome :
      (a : String) → Outcome s r Kind.recovery_retry (attempt a) (retry_body r a now s)
  unfolding retry_body
  retry_body-Outcome a = record_row r _ _ _ _ _ s.commands (Rewrites-refl s.commands) _ refl refl

  release_body-Outcome :
      (a b : String)
      → Outcome s r Kind.recovery_release (attempt_saved a b) (release_body r a b now s)
  unfolding release_body
  release_body-Outcome a b =
      record_row r _ _ _ _ _ s.commands (Rewrites-refl s.commands) _ refl refl

  reset_body-Outcome :
      (n : Option ℕ) → Outcome s r Kind.errors_reset no_arguments (reset_body r n now s)
  unfolding reset_body
  reset_body-Outcome n = record_row r _ _ _ _ _ s.commands (Rewrites-refl s.commands) _ refl refl

-- Whatever the request, and whatever payload it is run with.
pub run-Outcome :
    (r : String) (q : Request) (p : Payload) (now : Clock) (s : ControlStore)
    → payload_of q ≡ some p
    → Outcome s r (kind_of q) p (run r q p now s)
unfolding run
run-Outcome r (Request.stop a) no_arguments now s h = stop_body-Outcome s.intake r a now s
run-Outcome r (Request.stop a) _ now s h = absurd (ground arith)
run-Outcome r (Request.resume a hold) no_arguments now s h = resume_body-Outcome hold r a now s
run-Outcome r (Request.resume a hold) _ now s h = absurd (ground arith)
run-Outcome r (Request.stop_after v a t) (after n) now s h = stop_after_body-Outcome r n a t now s
run-Outcome r (Request.stop_after v a t) _ now s h = absurd (ground arith)
run-Outcome r (Request.next_issue v) (issue n) now s h = next_issue_body-Outcome r n now s
run-Outcome r (Request.next_issue v) _ now s h = absurd (ground arith)
run-Outcome r (Request.handoff a hold) no_arguments now s h = handoff_body-Outcome hold r a now s
run-Outcome r (Request.handoff a hold) _ now s h = absurd (ground arith)
run-Outcome r (Request.recovery_retry t) (attempt a) now s h = retry_body-Outcome r now s a
run-Outcome r (Request.recovery_retry t) _ now s h = absurd (ground arith)
run-Outcome r (Request.recovery_release t u) (attempt_saved a b) now s h =
    release_body-Outcome r now s a b
run-Outcome r (Request.recovery_release t u) _ now s h = absurd (ground arith)
run-Outcome r (Request.errors_reset n) no_arguments now s h = reset_body-Outcome r now s n
run-Outcome r (Request.errors_reset n) _ now s h = absurd (ground arith)
