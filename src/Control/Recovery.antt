-- ===== src/Control/Recovery.antt =====
-- The recovery commands, the reset of the error counter, the generic entry and the lookups:
-- control.py, lines 1088-1439, and `parse_attempt_id` and `parse_saved_at` of recovery.py (29-58).
use simple_coding_agent.Base.{
  ℕ, zero, suc, ◌-◌, String, ◌<>◌, ◌||◌, not, Option, none, some, List, [], ◌∷◌, if◌then◌else◌, leb,
  length, is_blank, strip, count_chars, show_ℕ,
}
use simple_coding_agent.Control.Types.{
  Clock, IntakeState, Kind, Payload, no_arguments, attempt, attempt_saved, Result, ok, err,
  recovery_rejected_error, control_store_error, request_id_error, Command, ControlStore,
  recovery_retry, recovery_release, errors_reset, not_fulfilled, is_accepted,
}
use simple_coding_agent.Control.Types.{Acknowledgement}
use simple_coding_agent.Control.Table.{find, update, has_id, insert, valid_request_id, admit}

-- A text of 1 to `limit` characters that is not blank, stripped; `none` is `RecoveryRejectedError`.
unfoldable pub parse_bounded : ℕ → String → Option String
parse_bounded limit value =
    if is_blank value || not (leb (count_chars value) limit) then none else some (strip value)

unfoldable pub parse_attempt_id : String → Option String
parse_attempt_id = parse_bounded 256

unfoldable pub parse_saved_at : String → Option String
parse_saved_at = parse_bounded 1024

unfoldable pub retry_body : String → String → Clock → ControlStore → Result Command × ControlStore
unfolding insert
retry_body r a now s =
    let detail = "recovery retry for attempt " <> (a <> " accepted") in
    let (c, s') = insert r recovery_retry (attempt a) Acknowledgement.accepted detail (now 0) s in
    (ok c, s')

unfoldable pub submit_recovery_retry :
    String → String → Clock → ControlStore → Result Command × ControlStore
submit_recovery_retry r attempt_id now s =
    if valid_request_id r
    then elim (parse_attempt_id attempt_id) [
      | none ↦ (err recovery_rejected_error, s)
      | some a ↦ admit r recovery_retry (attempt a) (retry_body r a now) s
    ]
    else (err request_id_error, s)

unfoldable pub release_body :
    String → String → String → Clock → ControlStore → Result Command × ControlStore
unfolding insert
release_body r a saved now s =
    let detail =
      "recovery release for attempt " <> (a <> (" accepted; retained work secured at " <> saved)) in
    let (c, s') =
      insert r recovery_release (attempt_saved a saved) Acknowledgement.accepted detail (now 0) s in
    (ok c, s')

unfoldable pub release_parsed :
    Option String → Option String → String → Clock → ControlStore → Result Command × ControlStore
release_parsed none saved r now s = (err recovery_rejected_error, s)
release_parsed (some a) none r now s = (err recovery_rejected_error, s)
release_parsed (some a) (some saved) r now s =
    admit r recovery_release (attempt_saved a saved) (release_body r a saved now) s

unfoldable pub submit_recovery_release :
    String → String → String → Clock → ControlStore → Result Command × ControlStore
submit_recovery_release r attempt_id saved_at now s =
    if valid_request_id r
    then release_parsed (parse_attempt_id attempt_id) (parse_saved_at saved_at) r now s
    else (err request_id_error, s)

-- The common part of `complete_recovery_command` and `fail_recovery_command`.
unfoldable pub settle_recovery :
    Acknowledgement
    → String
    → String
    → Clock
    → ControlStore
    → Result (Option Command) × ControlStore
unfolding is_accepted
settle_recovery a r detail now s =
    if is_blank detail then (err control_store_error, s) else elim (find r s.commands) [
      | none ↦ (ok none, s)
      | some c ↦
          if is_accepted c.acknowledgement
          then (let commands = update (has_id r) a (strip detail) (now 0) s.commands in
              (ok (find r commands), record s { commands = commands }))
          else (ok (some c), s)
    ]

unfoldable pub complete_recovery_command :
    String → String → Clock → ControlStore → Result (Option Command) × ControlStore
complete_recovery_command r detail now s = settle_recovery Acknowledgement.completed r detail now s

unfoldable pub fail_recovery_command :
    String → String → Clock → ControlStore → Result (Option Command) × ControlStore
fail_recovery_command r detail now s = settle_recovery not_fulfilled r detail now s

unfoldable pub reset_detail : Option ℕ → String
reset_detail none = "consecutive errors reset to 0"
reset_detail (some n) = "consecutive errors reset from " <> (show_ℕ n <> " to 0")

unfoldable pub reset_body : String → Option ℕ → Clock → ControlStore → Result Command × ControlStore
unfolding insert
reset_body r previous now s =
    let (c, s') =
      insert r errors_reset no_arguments Acknowledgement.completed (reset_detail previous) (now 0)
        s in
    (ok c, s')

unfoldable pub submit_errors_reset :
    String → Option ℕ → Clock → ControlStore → Result Command × ControlStore
submit_errors_reset r previous now s =
    admit r errors_reset no_arguments (reset_body r previous now) s

-- The generic entry, for a kind of the program: a fresh request ID is refused.
unfoldable pub submit_command :
    Kind → String → Payload → ControlStore → Result Command × ControlStore
submit_command k r p s = admit r k p (λ u. (err request_id_error, u)) s

unfoldable pub get_command : String → ControlStore → Option Command
get_command r s = find r s.commands

-- The last `limit` rows, oldest first: `ORDER BY sequence DESC LIMIT ?`, reversed.
unfoldable pub drop : ℕ → List Command → List Command
drop zero cs = cs
drop (suc n) [] = []
drop (suc n) (c ∷ cs) = drop n cs

unfoldable pub recent_commands : ℕ → ControlStore → List Command
recent_commands limit s = drop (length s.commands - limit) s.commands

unfoldable pub intake_state : ControlStore → IntakeState
intake_state s = s.intake

unfoldable pub pending_command_id : ControlStore → Option String
pending_command_id s = s.pending
