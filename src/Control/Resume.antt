-- ===== src/Control/Resume.antt =====
-- `submit_resume` (control.py, lines 365-484).
use simple_coding_agent.Base.{
  String, ◌<>◌, Bool, true, false, ◌&&◌, Option, none, some, List, [], ◌∷◌, ◌++◌, if◌then◌else◌,
  is_empty, member, join,
}
use simple_coding_agent.Control.Types.{
  Clock, IntakeState, running, Kind, no_arguments, RecoveryHold, Result, ok, err,
  resume_blocked_error, Command, ControlStore, stop, stop_after, resume, handoff,
}
use simple_coding_agent.Control.Types.{Acknowledgement}
use simple_coding_agent.Control.Table.{
  accepted_plans_of_kinds, supersede_plans, insert, set_intake, clear_stop_plan,
  handoff_begun_locked, admit,
}
use simple_coding_agent.Control.Stop.{drop_handoff}

-- An optional text in an f-string.
unfoldable pub show_option : Option String → String
show_option none = "None"
show_option (some s) = s

abbrev pub stop_plan_kinds : List Kind
stop_plan_kinds = stop ∷ stop_after ∷ []

-- A begun handoff: the command is recorded and nothing else changes.
unfoldable pub resume_when_begun : String → Clock → ControlStore → Result Command × ControlStore
unfolding insert
resume_when_begun r now s =
    let detail =
      "handoff "
      <> (show_option s.pending
          <> " already begun; resume takes effect after handoff finalization, handoff continues") in
    let (c, s') = insert r resume no_arguments Acknowledgement.completed detail (now 0) s in
    (ok c, s')

unfoldable pub is_running : IntakeState → Bool
is_running running = true
is_running _ = false

unfoldable pub is_free : Option String → Bool
is_free none = true
is_free (some p) = false

-- The pending command stands first in the list of what is replaced, unless the list has it.
unfoldable pub with_pending : Option String → List String → List String
with_pending none names = names
with_pending (some p) names = if member p names then names else p ∷ names

-- The names of what is replaced: a waiting handoff first, then the stop plans.
unfoldable pub replaced_by_resume : ControlStore → List String
replaced_by_resume s =
    accepted_plans_of_kinds (handoff ∷ []) s ++ accepted_plans_of_kinds stop_plan_kinds s

unfoldable pub resume_detail : Bool → List String → String
resume_detail has_active replaced =
    (if is_empty replaced
      then "intake resumed"
      else "intake resumed; stop plan " <> (join replaced <> " superseded"))
    <> (if has_active then "; active attempt continues" else "")

-- Intake runs with nothing pending: it stays as it is.
unfoldable pub resume_running : String → Clock → ControlStore → Result Command × ControlStore
unfolding insert set_intake clear_stop_plan
resume_running r now s =
    let (c, s') =
      insert r resume no_arguments Acknowledgement.completed "intake already running" (now 2)
        (drop_handoff r (now 0) s) in
    (ok c, clear_stop_plan (set_intake s.intake s.pending s'))

-- The plans go, and intake runs again.
unfoldable pub resume_replacing :
    String → Bool → Clock → ControlStore → Result Command × ControlStore
unfolding insert set_intake clear_stop_plan
resume_replacing r has_active now s =
    let detail = resume_detail has_active (with_pending s.pending (replaced_by_resume s)) in
    let s₁ = supersede_plans stop_plan_kinds r (now 1) (drop_handoff r (now 0) s) in
    let (c, s₂) = insert r resume no_arguments Acknowledgement.completed detail (now 2) s₁ in
    (ok c, clear_stop_plan (set_intake running none s₂))

unfoldable pub resume_now : String → Bool → Clock → ControlStore → Result Command × ControlStore
unfolding is_running is_free
resume_now r has_active now s =
    if is_running s.intake && (is_free s.pending && is_empty (replaced_by_resume s))
    then resume_running r now s
    else resume_replacing r has_active now s

unfoldable pub resume_body :
    Option RecoveryHold → String → Bool → Clock → ControlStore → Result Command × ControlStore
resume_body (some hold) r has_active now s = (err resume_blocked_error, s)
resume_body none r has_active now s =
    if handoff_begun_locked s then resume_when_begun r now s else resume_now r has_active now s

unfoldable pub submit_resume :
    String → Bool → Option RecoveryHold → Clock → ControlStore → Result Command × ControlStore
submit_resume r has_active hold now s =
    admit r resume no_arguments (resume_body hold r has_active now) s
