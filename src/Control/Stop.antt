-- ===== src/Control/Stop.antt =====
-- `submit_stop` (control.py, lines 237-363) and the completion of plain stops (lines 1441-1466 and
-- 1592-1632).
use simple_coding_agent.Base.{
  String, ◌<>◌, Bool, false, ◌&&◌, not, Option, none, some, List, [], ◌∷◌, map, if◌then◌else◌,
  select, is_empty,
}
use simple_coding_agent.Control.Types.{
  Clock, IntakeState, running, stopping, stopped, Kind, no_arguments, Result, ok, Command,
  ControlStore, stop, stop_after, handoff, same_kind,
}
use simple_coding_agent.Control.Types.{Acknowledgement}
use simple_coding_agent.Control.Table.{
  find, touch, update, is_plan_of, accepted_plans_of_kinds, supersede_plans, plan_suffix, insert,
  set_intake, clear_stop_plan, set_handoff, handoff_begun_locked, is_tracked_handoff, admit,
}

unfoldable pub clear_handoff : ControlStore → ControlStore
unfolding set_handoff
clear_handoff s = set_handoff none none false none s

-- Intake is stopped already.
unfoldable pub stop_when_stopped : String → Clock → ControlStore → Result Command × ControlStore
unfolding insert set_intake
stop_when_stopped r now s =
    let (c, s') =
      insert r stop no_arguments Acknowledgement.completed "intake already stopped" (now 0) s in
    (ok c, set_intake stopped s.pending s')

-- The last step of the branch for `stopping`: a handoff that waits and has not begun is replaced.
unfoldable pub replaces_handoff : Option String → ControlStore → Bool
replaces_handoff none s = false
replaces_handoff (some p) s = is_tracked_handoff p s && not (handoff_begun_locked s)

-- Accepted countdowns are superseded, and then the countdown is cleared.
unfoldable pub drop_countdown : String → String → ControlStore → ControlStore
drop_countdown r t s =
    let s' = supersede_plans (stop_after ∷ []) r t s in
    if is_empty (accepted_plans_of_kinds (stop_after ∷ []) s) then s' else clear_stop_plan s'

-- Accepted handoffs are superseded, and then the handoff is no longer tracked.
unfoldable pub drop_handoff : String → String → ControlStore → ControlStore
drop_handoff r t s =
    let s' = supersede_plans (handoff ∷ []) r t s in
    if is_empty (accepted_plans_of_kinds (handoff ∷ []) s) then s' else clear_handoff s'

-- The pending pointer after a replacement of the commands named.
unfoldable pub take_over : List String → String → Option String → Option String
take_over names r pending = if is_empty names then pending else some r

-- Intake is stopping: the stop waits beside the pending one, or takes over from a plan or a
-- handoff that has not begun.
unfoldable pub stop_when_stopping : String → Clock → ControlStore → Result Command × ControlStore
unfolding insert set_intake
stop_when_stopping r now s =
    let plans = accepted_plans_of_kinds (stop_after ∷ []) s in
    let s₁ = drop_countdown r (now 0) s in
    let pending = take_over plans r s.pending in
    let replaces = replaces_handoff pending s₁ in
    let handoffs = if replaces then accepted_plans_of_kinds (handoff ∷ []) s₁ else [] in
    let s₂ = if replaces then drop_handoff r (now 1) s₁ else s₁ in
    let detail =
      "stop already pending; completes when the active attempt finishes"
      <> (plan_suffix plans <> plan_suffix handoffs) in
    let (c, s₃) = insert r stop no_arguments Acknowledgement.accepted detail (now 2) s₂ in
    (ok c, set_intake stopping (take_over handoffs r pending) s₃)

-- The kinds that a stop replaces while intake runs.
unfoldable pub replaceable_kinds : ControlStore → List Kind
replaceable_kinds s = if handoff_begun_locked s then stop_after ∷ [] else stop_after ∷ handoff ∷ []

-- What the kinds allow is superseded, and then neither a countdown nor a handoff is left.
unfoldable pub drop_replaceable : String → String → ControlStore → ControlStore
drop_replaceable r t s =
    let s' = supersede_plans (replaceable_kinds s) r t s in
    if is_empty (accepted_plans_of_kinds (replaceable_kinds s) s)
    then s'
    else clear_handoff (clear_stop_plan s')

-- Intake is running: plans are replaced, and intake goes to `stopping` behind an active attempt
-- and to `stopped` without one.
unfoldable pub stop_when_running :
    String → Bool → Clock → ControlStore → Result Command × ControlStore
unfolding insert set_intake
stop_when_running r has_active now s =
    let suffix = plan_suffix (accepted_plans_of_kinds (replaceable_kinds s) s) in
    let s₁ = drop_replaceable r (now 0) s in
    let (accepted, s₂) =
      insert r stop no_arguments Acknowledgement.accepted
        ("finish active attempt, then stop intake" <> suffix) (now 1) s₁ in
    let (done, s₃) =
      insert r stop no_arguments Acknowledgement.completed ("intake stopped" <> suffix) (now 1)
        s₁ in
    if has_active
    then (ok accepted, set_intake stopping (some r) s₂)
    else (ok done, set_intake stopped none s₃)

unfoldable pub stop_body :
    IntakeState → String → Bool → Clock → ControlStore → Result Command × ControlStore
stop_body stopped r has_active now s = stop_when_stopped r now s
stop_body stopping r has_active now s = stop_when_stopping r now s
stop_body running r has_active now s = stop_when_running r has_active now s

unfoldable pub submit_stop : String → Bool → Clock → ControlStore → Result Command × ControlStore
submit_stop r has_active now s =
    admit r stop no_arguments (λ u. stop_body u.intake r has_active now u) s

-- `_complete_plain_stops_in_txn`: every accepted stop completes, and intake is stopped.
unfoldable pub complete_plain_stops : Clock → ControlStore → Result (List Command) × ControlStore
unfolding set_intake
complete_plain_stops now s =
    let waiting = is_plan_of (stop ∷ []) in
    let done = Acknowledgement.completed in
    let detail : String = "intake stopped after active attempt" in
    (
      ok (map (touch waiting done detail (now 0)) (select waiting s.commands)),
      set_intake stopped none
          (record s { commands = update waiting done detail (now 0) s.commands }),
    )

-- Only a plain stop is completed by way of the pending pointer.
unfoldable pub complete_stop_named :
    String → Clock → ControlStore → Result (List Command) × ControlStore
unfolding same_kind
complete_stop_named p now s = elim (find p s.commands) [
  | none ↦ (ok [], s)
  | some c ↦ if same_kind c.kind stop then complete_plain_stops now s else (ok [], s)
]

unfoldable pub complete_pending_stop : Clock → ControlStore → Result (List Command) × ControlStore
complete_pending_stop now s = elim s.pending [
  | none ↦ (ok [], s)
  | some p ↦ complete_stop_named p now s
]
