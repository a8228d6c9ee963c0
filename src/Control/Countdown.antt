-- ===== src/Control/Countdown.antt =====
-- The countdown of `stop --after N`: `parse_stop_after` (control.py, lines 158-185),
-- `submit_stop_after` (486-590), `record_attempt_finalized` (1470-1590),
-- `enter_stopping_for_final_claim` (1634-1669) and `stop_plan_snapshot` (1671-1699).
use simple_coding_agent.Base.{
  ℕ, ◌-◌, String, ◌<>◌, Bool, true, false, ◌&&◌, ◌||◌, Option, none, some, List, [], ◌∷◌, ◌++◌,
  if◌then◌else◌, ◌==◌, leb, member, is_blank, show_ℕ, text_eq,
}
use simple_coding_agent.Base.Number.{PyValue, integer_of, positive}
use simple_coding_agent.Control.Types.{
  Clock, IntakeState, running, stopping, stopped, after, CountedAttempt, Result, ok, err,
  stop_after_rejected_error, control_store_error, type_error, request_id_error, Command,
  ControlStore, stop, stop_after, handoff,
}
use simple_coding_agent.Control.Types.{Acknowledgement}
use simple_coding_agent.Control.Table.{
  find, update, has_id_accepted, accepted_plans_of_kinds, supersede_plans, plan_suffix, insert,
  set_intake, set_stop_plan, handoff_begun_locked, valid_request_id, admit,
}
use simple_coding_agent.Control.Stop.{clear_handoff, complete_stop_named}

-- `none` is `StopAfterRejectedError`.
unfoldable pub parse_stop_after : PyValue → Option ℕ
parse_stop_after v = elim (integer_of v) [ none ↦ none | some n ↦ positive n ]

unfoldable pub attempts_noun : ℕ → String
attempts_noun count = if count == 1 then "1 attempt" else show_ℕ count <> " attempts"

-- An active attempt without a usable identity.
unfoldable pub lacks_identity : Bool → Option String → Bool
lacks_identity false active = false
lacks_identity true none = true
lacks_identity true (some a) = is_blank a

unfoldable pub tracked_among : Option String → List String → Bool
tracked_among none names = false
tracked_among (some h) names = member h names

unfoldable pub counting_detail : ℕ → Bool → Option String → String
counting_detail count true (some a) =
    "stop after " <> (attempts_noun count <> ("; active attempt " <> (a <> " is count one")))
counting_detail count _ _ =
    "stop after " <> (attempts_noun count <> "; counting starts with the next attempt")

-- The accepted plan, once nothing speaks against it.
unfoldable pub start_countdown :
    String → ℕ → Bool → Option String → Clock → ControlStore → Result Command × ControlStore
unfolding clear_handoff insert set_intake set_stop_plan
start_countdown r count has_active active now s =
    let kinds = stop ∷ stop_after ∷ handoff ∷ [] in
    let plans = accepted_plans_of_kinds kinds s in
    let s₁ = supersede_plans kinds r (now 0) s in
    let s₂ = if tracked_among s₁.handoff_request_id plans then clear_handoff s₁ else s₁ in
    let detail = counting_detail count has_active active <> plan_suffix plans in
    let (c, s₃) = insert r stop_after (after count) Acknowledgement.accepted detail (now 1) s₂ in
    let s₄ = set_intake (if has_active && count == 1 then stopping else running) (some r) s₃ in
    (ok c, set_stop_plan count count (if has_active then active else none) s₄)

unfoldable pub is_stopped : IntakeState → Bool
is_stopped stopped = true
is_stopped _ = false

unfoldable pub stop_after_body :
    String → ℕ → Bool → Option String → Clock → ControlStore → Result Command × ControlStore
unfolding is_stopped
stop_after_body r count has_active active now s =
    if lacks_identity has_active active
    then (err control_store_error, s)
    else if is_stopped s.intake
    then (err stop_after_rejected_error, s)
    else if handoff_begun_locked s
    then (err stop_after_rejected_error, s)
    else start_countdown r count has_active active now s

-- The request ID is checked before the count is read.
unfoldable pub submit_stop_after :
    String → PyValue → Bool → Option String → Clock → ControlStore → Result Command × ControlStore
submit_stop_after r value has_active active now s =
    if valid_request_id r
    then elim (parse_stop_after value) [
      | none ↦ (err stop_after_rejected_error, s)
      | some n ↦ admit r stop_after (after n) (stop_after_body r n has_active active now) s
    ]
    else (err request_id_error, s)

-- Whether the attempt has been counted before.
unfoldable pub is_counted : String → List CountedAttempt → Bool
is_counted a [] = false
is_counted a (x ∷ xs) = text_eq x.attempt_id a || is_counted a xs

unfoldable pub found_list : Option Command → List Command
found_list none = []
found_list (some c) = c ∷ []

-- The last attempt of the plan: the plan's command completes and intake stops.
unfoldable pub finish_countdown :
    String → String → ℕ → String → String → ControlStore → Result (List Command) × ControlStore
unfolding found_list
finish_countdown p a requested outcome t s =
    let detail =
      "stopped after "
      <> (attempts_noun requested
          <> ("; last counted attempt " <> (a <> (" (" <> (outcome <> ")"))))) in
    let commands = update (has_id_accepted p) Acknowledgement.completed detail t s.commands in
    (
      ok (found_list (find p commands)),
      record s {
        commands = commands;
        intake = stopped;
        pending = none;
        stop_after_requested = none;
        stop_after_remaining = none;
        stop_after_active_attempt_id = none;
        latest_counted_attempt_id = some a;
        latest_counted_outcome = some outcome;
      },
    )

unfoldable pub unless_stopped : IntakeState → IntakeState
unless_stopped stopped = stopped
unless_stopped _ = running

-- One attempt counted against a plan with `m` attempts left; `m - 1 <= 0` is `m ≤ 1`.
unfoldable pub count_attempt :
    String → String → String → ℕ → ℕ → Clock → ControlStore → Result (List Command) × ControlStore
unfolding unless_stopped
count_attempt p a outcome requested m now s =
    let row : CountedAttempt = record {
      attempt_id = a;
      plan_request_id = p;
      outcome = outcome;
      counted_at = now 0;
    } in
    let s₁ = record s { counted_attempts = s.counted_attempts ++ row ∷ [] } in
    if leb m 1 then finish_countdown p a requested outcome (now 0) s₁ else (
      ok [],
      record s₁ {
        stop_after_remaining = some (m - 1);
        latest_counted_attempt_id = some a;
        latest_counted_outcome = some outcome;
        intake = unless_stopped s.intake;
      },
    )

-- The branch of a stored plan; `int(None)` raises `TypeError`.
unfoldable pub count_against_plan :
    Option String
    → Option ℕ
    → String
    → String
    → ℕ
    → Clock
    → ControlStore
    → Result (List Command) × ControlStore
count_against_plan none remaining a outcome requested now s = (ok [], s)
count_against_plan (some p) none a outcome requested now s = (err type_error, s)
count_against_plan (some p) (some m) a outcome requested now s =
    count_attempt p a outcome requested m now s

unfoldable pub stop_without_plan :
    Option String → Clock → ControlStore → Result (List Command) × ControlStore
stop_without_plan none now s = (ok [], s)
stop_without_plan (some p) now s = complete_stop_named p now s

unfoldable pub record_attempt_finalized :
    String → String → Clock → ControlStore → Result (List Command) × ControlStore
record_attempt_finalized a outcome now s =
    if is_blank a || is_blank outcome
    then (err control_store_error, s)
    else if is_counted a s.counted_attempts
    then (ok [], s)
    else elim s.stop_after_requested [
      | none ↦ stop_without_plan s.pending now s
      | some n ↦ count_against_plan s.pending s.stop_after_remaining a outcome n now s
    ]

-- The test of `enter_stopping_for_final_claim`, in the order of its operands.
unfoldable pub final_claim : Option String → Option ℕ → Option ℕ → IntakeState → Result Bool
final_claim none requested remaining intake = ok false
final_claim (some p) none remaining intake = ok false
final_claim (some p) (some n) none intake = err type_error
final_claim (some p) (some n) (some m) running = ok (m == 1)
final_claim (some p) (some n) (some m) _ = ok false

unfoldable pub enter_stopping_for_final_claim : ControlStore → Result Bool × ControlStore
unfolding final_claim
enter_stopping_for_final_claim s =
    elim (final_claim s.pending s.stop_after_requested s.stop_after_remaining s.intake) [
      | ok true ↦ (ok true, record s { intake = stopping })
      | ok false ↦ (ok false, s)
      | err e ↦ (err e, s)
    ]

pub record StopPlanSnapshot : Type 0 where
  pub request_id : String
  pub requested : ℕ
  pub remaining : ℕ
  pub active_attempt_id : Option String
  pub latest_counted_attempt_id : Option String
  pub latest_counted_outcome : Option String

unfoldable pub snapshot_of :
    Option String → Option ℕ → Option ℕ → ControlStore → Result (Option StopPlanSnapshot)
snapshot_of pending none remaining s = ok none
snapshot_of none (some n) remaining s = ok none
snapshot_of (some p) (some n) none s = err type_error
snapshot_of (some p) (some n) (some m) s = ok (
    some (record {
      request_id = p;
      requested = n;
      remaining = m;
      active_attempt_id = s.stop_after_active_attempt_id;
      latest_counted_attempt_id = s.latest_counted_attempt_id;
      latest_counted_outcome = s.latest_counted_outcome;
    }))

unfoldable pub stop_plan_snapshot : ControlStore → Result (Option StopPlanSnapshot)
unfolding snapshot_of
stop_plan_snapshot s = snapshot_of s.pending s.stop_after_requested s.stop_after_remaining s
