-- ===== src/Control/Starting.antt =====
-- Consistency under the operations that start a plan: `handoff`, `stop --after N`.
use simple_coding_agent.Base.{
  ℕ, ◌<◌, String, ◌<>◌, ◌≡◌, refl, Bool, false, Option, none, some, inl, inr, List, [], ◌∷◌, arith,
  ◌&&◌, ◌==◌, if◌then◌else◌, Bool-cases,
}
use simple_coding_agent.Control.Types.{
  Clock, Kind, stop, stop_after, next_issue, handoff, ControlStore, is_accepted, superseded, after,
  running, stopping,
}
use simple_coding_agent.Control.Table.{
  find, has_kind, is_plan_of, supersede_plans, accepted_plans_of_kinds, plan_suffix,
}
use simple_coding_agent.Control.Invariant.{Shape, IsConsistent}
use simple_coding_agent.Control.Demands.{started-IsConsistent, Keeps}
use simple_coding_agent.Control.Handoff.{start_handoff}
use simple_coding_agent.Control.Stop.{clear_handoff}
use simple_coding_agent.Control.Countdown.{start_countdown, counting_detail}

abbrev all_plans : List Kind
all_plans = stop ∷ stop_after ∷ handoff ∷ []

-- When every plan is superseded, only a pending priority is left to demand something.
all_plans-Keeps :
    (s s' : ControlStore)
    → s'.next_issue_request_id ≡ s.next_issue_request_id
    → Keeps s s' (is_plan_of all_plans)
unfolding is_plan_of
all_plans-Keeps s s' e c acc miss h = ground arith

superseding_final : is_accepted superseded ≡ false
unfolding is_accepted
superseding_final = refl

all_plans_spare_priority : has_kind all_plans next_issue ≡ false
unfolding has_kind
all_plans_spare_priority = refl

-- The handoff of `handoff now`, for a fresh request ID, keeps the store consistent, whatever plan
-- it replaces.
pub start_handoff-IsConsistent :
    (r : String) (now : Clock) (s : ControlStore)
    → find r s.commands ≡ none
    → IsConsistent s
    → IsConsistent (start_handoff r now s).1
unfolding start_handoff supersede_plans
start_handoff-IsConsistent r now s fresh i =
    let s' = (start_handoff r now s).1 in
    started-IsConsistent s s' all_plans _ _ _ r handoff _ _ _ fresh superseding_final
      all_plans_spare_priority i (all_plans-Keeps s s' refl) refl refl refl refl tt
      (refl, refl, refl, refl)

-- The shape of a new countdown.
countdown-Shape :
    (a : Bool) (n : ℕ)
    → 0 < n
    → Shape (if a && n == 1 then stopping else running) (some (some stop_after)) (some n) (some n)
countdown-Shape a n pos = elim (Bool-cases (a && n == 1)) [
  | inl last ↦ rw last (ground arith)
  | inr more ↦ rw more (ground arith)
]

-- The countdown of `stop --after N`, for a positive `N` and a fresh request ID, keeps the store
-- consistent, with or without an active attempt and whatever plan it replaces.
pub start_countdown-IsConsistent :
    (r : String) (n : ℕ) (a : Bool) (t : Option String) (now : Clock) (s : ControlStore)
    → 0 < n
    → find r s.commands ≡ none
    → IsConsistent s
    → IsConsistent (start_countdown r n a t now s).1
unfolding start_countdown supersede_plans clear_handoff
start_countdown-IsConsistent r n a t now s pos fresh i =
    let s' = (start_countdown r n a t now s).1 in
    started-IsConsistent s s' all_plans superseded ("superseded by " <> r) (now 0) r stop_after
      (after n) (counting_detail n a t <> plan_suffix (accepted_plans_of_kinds all_plans s)) (now 1)
      fresh superseding_final all_plans_spare_priority i (all_plans-Keeps s s' (ground arith))
      (ground arith) (ground arith) (ground arith) refl (countdown-Shape a n pos) (refl, λ e. cc)
