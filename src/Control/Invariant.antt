-- ===== src/Control/Invariant.antt =====
-- What holds of the control record between two operations: how intake, the pending command, the
-- countdown and the accepted rows of `commands` fit together.
use simple_coding_agent.Base.{
  ℕ, ◌≤◌, ◌<◌, String, ◌≡◌, ◌≢◌, Option, none, some, List, if◌then◌else◌, All,
}
use simple_coding_agent.Control.Types.{
  Acknowledgement, IntakeState, running, stopping, stopped, Kind, stop, stop_after, next_issue,
  handoff, Command, ControlStore, is_accepted, initialize,
}
use simple_coding_agent.Control.Table.{find}

-- The kind of the command that a lookup finds, while it is accepted.
abbrev pub kind_if_accepted : Option Command → Option Kind
kind_if_accepted none = none
kind_if_accepted (some c) = if is_accepted c.acknowledgement then some c.kind else none

unfoldable pub accepted_kind : String → List Command → Option Kind
accepted_kind r cs = kind_if_accepted (find r cs)

-- The plan behind the pending pointer: none, or what it points to.
abbrev pub plan_of : Option String → List Command → Option (Option Kind)
plan_of none cs = none
plan_of (some p) cs = some (accepted_kind p cs)

-- The six situations of the store: running free or under a countdown, stopping for a stop, a
-- handoff or the last counted attempt, and stopped.
abbrev pub Shape : IntakeState → Option (Option Kind) → Option ℕ → Option ℕ → Type 0
Shape running none none none = Unit
Shape running (some (some stop_after)) (some n) (some m) = (0 < m) × (m ≤ n)
Shape stopping (some (some stop)) none none = Unit
Shape stopping (some (some handoff)) none none = Unit
Shape stopping (some (some stop_after)) (some n) (some m) = (m ≡ 1) × (m ≤ n)
Shape stopped none none none = Unit
Shape _ _ _ _ = ⊥

-- The pending priority: no column is set, or its command is an accepted `next issue`.
abbrev pub PriorityShape : Option ℕ → Option String → List Command → Type 0
PriorityShape none none cs = Unit
PriorityShape (some n) (some r) cs = accepted_kind r cs ≡ some next_issue
PriorityShape _ _ cs = ⊥

-- What an accepted row demands of the rest of the store, by its kind.
abbrev pub Demand : ControlStore → Acknowledgement → Kind → String → Type 0
Demand s Acknowledgement.accepted stop r = (s.intake ≡ stopping) × (s.stop_after_requested ≡ none)
Demand s Acknowledgement.accepted stop_after r =
    (s.pending ≡ some r) × (s.stop_after_requested ≢ none)
Demand s Acknowledgement.accepted handoff r =
    (s.intake ≡ stopping)
    × (s.pending ≡ some r)
    × (s.handoff_request_id ≡ some r)
    × (s.stop_after_requested ≡ none)
Demand s Acknowledgement.accepted next_issue r = s.next_issue_request_id ≡ some r
Demand s _ k r = Unit

abbrev pub RowOk : ControlStore → Command → Type 0
RowOk s c = Demand s c.acknowledgement c.kind c.request_id

pub record IsConsistent (s : ControlStore) : Type 0 where
  pub shape :
      Shape s.intake (plan_of s.pending s.commands) s.stop_after_requested s.stop_after_remaining
  pub priority : PriorityShape s.next_issue_number s.next_issue_request_id s.commands
  pub rows : All (RowOk s) s.commands

pub initialize-IsConsistent : IsConsistent initialize
unfolding initialize
initialize-IsConsistent = record { shape = tt; priority = tt; rows = tt }
