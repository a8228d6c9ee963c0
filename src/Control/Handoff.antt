-- ===== src/Control/Handoff.antt =====
-- The operator handoff: `submit_handoff` (control.py, lines 666-748), `mark_handoff_delivering` and
-- `mark_handoff_begun` (750-797), `complete_handoff` (799-869), `fail_handoff` (871-940) and the
-- stored part of `handoff_snapshot` (942-971).
use simple_coding_agent.Base.{
  String, ◌<>◌, Bool, true, false, Option, none, some, [], ◌∷◌, if◌then◌else◌, is_blank, strip,
}
use simple_coding_agent.Control.Types.{
  Clock, stopping, stopped, Kind, no_arguments, HandoffPhase, delivering, model_work, RecoveryHold,
  Result, ok, err, handoff_rejected_error, control_store_error, Command, ControlStore, stop,
  stop_after, handoff, is_accepted, same_kind,
}
use simple_coding_agent.Control.Types.{Acknowledgement}
use simple_coding_agent.Control.Table.{
  find, update, has_id, is_plan_of, accepted_plans_of_kinds, supersede_plans, plan_suffix, insert,
  set_intake, clear_stop_plan, set_handoff, handoff_begun_locked, is_tracked_handoff, names, admit,
}
use simple_coding_agent.Control.Priority.{found_or_error}

-- The accepted handoff replaces every plan and an earlier handoff.
unfoldable pub start_handoff : String → Clock → ControlStore → Result Command × ControlStore
unfolding clear_stop_plan insert set_intake set_handoff
start_handoff r now s =
    let kinds = stop ∷ stop_after ∷ handoff ∷ [] in
    let plans = accepted_plans_of_kinds kinds s in
    let s₁ = clear_stop_plan (supersede_plans kinds r (now 0) s) in
    let detail =
      "handoff requested; delivers at the next safe model boundary or its single fallback"
      <> plan_suffix plans in
    let (c, s₂) = insert r handoff no_arguments Acknowledgement.accepted detail (now 1) s₁ in
    let s₃ = set_intake stopping (some r) s₂ in
    (ok c, set_handoff (some r) (some (now 2)) false (some HandoffPhase.accepted) s₃)

unfoldable pub handoff_body :
    Option RecoveryHold → String → Bool → Clock → ControlStore → Result Command × ControlStore
handoff_body (some hold) r has_active now s = (err handoff_rejected_error, s)
handoff_body none r false now s = (err handoff_rejected_error, s)
handoff_body none r true now s =
    if handoff_begun_locked s then (err handoff_rejected_error, s) else start_handoff r now s

unfoldable pub submit_handoff :
    String → Bool → Option RecoveryHold → Clock → ControlStore → Result Command × ControlStore
submit_handoff r has_active hold now s =
    admit r handoff no_arguments (handoff_body hold r has_active now) s

unfoldable pub mark_handoff_delivering : String → ControlStore → Bool × ControlStore
mark_handoff_delivering r s =
    if is_tracked_handoff r s
    then (true, record s { handoff_phase = some delivering })
    else (false, s)

unfoldable pub mark_handoff_begun : String → ControlStore → Bool × ControlStore
mark_handoff_begun r s =
    if is_tracked_handoff r s
    then (true, record s { handoff_begun = true; handoff_phase = some model_work })
    else (false, s)

-- The phase is written only for a command of the kind `handoff`.
unfoldable pub set_final_phase : Kind → HandoffPhase → ControlStore → ControlStore
unfolding same_kind
set_final_phase k phase s =
    if same_kind k handoff then record s { handoff_phase = some phase } else s

-- The stops that waited beside the handoff complete with it.
unfoldable pub complete_waiting_stops : String → ControlStore → ControlStore
complete_waiting_stops t s = record s {
  commands =
      update (is_plan_of (stop ∷ [])) Acknowledgement.completed
        "intake stopped after handoff attempt" t s.commands;
}

-- The end of an accepted command by either method: the row, then intake if it was pending, then
-- the phase, then the waiting stops.
unfoldable pub settle_handoff :
    String
    → Kind
    → Acknowledgement
    → HandoffPhase
    → String
    → String
    → ControlStore
    → Result (Option Command) × ControlStore
unfolding set_intake set_final_phase found_or_error
settle_handoff r k a phase detail t s =
    let s₁ = record s { commands = update (has_id r) a detail t s.commands } in
    let s₂ = if names s.pending r then set_intake stopped none s₁ else s₁ in
    let s₃ = set_final_phase k phase s₂ in
    let s₄ = if names s.pending r then complete_waiting_stops t s₃ else s₃ in
    (found_or_error (find r s₄.commands), s₄)

-- The checks that both methods make first.
unfoldable pub end_handoff :
    String
    → Acknowledgement
    → HandoffPhase
    → String
    → Clock
    → ControlStore
    → Result (Option Command) × ControlStore
unfolding is_accepted
end_handoff r a phase detail now s =
    if is_blank detail then (err control_store_error, s) else elim (find r s.commands) [
      | none ↦ (ok none, s)
      | some c ↦
          if is_accepted c.acknowledgement
          then settle_handoff r c.kind a phase (strip detail) (now 0) s
          else (ok (some c), s)
    ]

unfoldable pub complete_handoff :
    String → String → Clock → ControlStore → Result (Option Command) × ControlStore
complete_handoff r detail now s =
    end_handoff r Acknowledgement.completed HandoffPhase.completed detail now s

unfoldable pub fail_handoff :
    String → String → Clock → ControlStore → Result (Option Command) × ControlStore
fail_handoff r reason now s =
    end_handoff r Acknowledgement.not_fulfilled HandoffPhase.not_fulfilled reason now s

pub record HandoffSnapshot : Type 0 where
  pub request_id : String
  pub accepted_at : Option String
  pub begun : Bool
  pub phase : HandoffPhase
  pub command : Option Command

unfoldable pub phase_or_accepted : Option HandoffPhase → HandoffPhase
phase_or_accepted none = HandoffPhase.accepted
phase_or_accepted (some p) = p

unfoldable pub handoff_snapshot : ControlStore → Option HandoffSnapshot
unfolding phase_or_accepted
handoff_snapshot s = elim s.handoff_request_id [
  | none ↦ none
  | some r ↦ some (record {
    request_id = r;
    accepted_at = s.handoff_accepted_at;
    begun = s.handoff_begun;
    phase = phase_or_accepted s.handoff_phase;
    command = find r s.commands;
  })
]
