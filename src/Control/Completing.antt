-- ===== src/Control/Completing.antt =====
-- How the plain stops end: `complete_pending_stop`.
use mathlib.Core.Path.{subst}
use simple_coding_agent.Base.{
  String, ◌≡◌, refl, sym, ◌∙◌, true, ◌&&◌, Option, none, some, List, [], ◌∷◌, arith, if◌then◌else◌,
  select,
}
use simple_coding_agent.Control.Types.{
  Clock, stopped, stop, Result, Command, ControlStore, same_kind, is_accepted,
}
use simple_coding_agent.Control.Types.{Acknowledgement}
use simple_coding_agent.Control.Table.{find, update, touch, set_intake, is_plan_of, has_kind}
use simple_coding_agent.Control.Lookup.{find-update, touched}
use simple_coding_agent.Control.Stop.{
  complete_stop_named, complete_plain_stops, complete_pending_stop,
}

completed_stops :
    (d t : String) (cs : List Command)
    → select
        (is_plan_of (stop ∷ []))
        (update (is_plan_of (stop ∷ [])) Acknowledgement.completed d t cs)
      ≡ []
unfolding select update touch is_plan_of has_kind is_accepted same_kind
completed_stops d t [] = refl
completed_stops d t (c ∷ cs) = ground (arith, completed_stops d t cs)

-- A row once the plain stops are completed: an accepted stop has become completed, with a detail and
-- the time, and every other row is as it was.
abbrev pub stop_completed : String → Option Command → Option Command
stop_completed t none = none
stop_completed t (some c) =
    if same_kind c.kind stop && is_accepted c.acknowledgement
    then some (record c {
      acknowledgement = Acknowledgement.completed;
      detail = "intake stopped after active attempt";
      updated_at = t;
    })
    else some c

-- Every plain stop has been completed at the time `t`, no other row has changed, and intake is
-- stopped.
pub record NoStopLeft (t : String) (s s' : ControlStore) : Type 0 where
  pub intake : s'.intake ≡ stopped
  pub pending : s'.pending ≡ none
  pub stops : select (is_plan_of (stop ∷ [])) s'.commands ≡ []
  pub rows : (r : String) → find r s'.commands ≡ stop_completed t (find r s.commands)

touched-stop_completed :
    (t : String) (o : Option Command)
    → touched
        (is_plan_of (stop ∷ []))
        Acknowledgement.completed
        "intake stopped after active attempt"
        t
        o
      ≡ stop_completed t o
unfolding touch is_plan_of has_kind
touched-stop_completed t none = refl
touched-stop_completed t (some c) = ground arith

complete_plain_stops-NoStopLeft :
    (now : Clock) (s : ControlStore) → NoStopLeft (now 0) s (complete_plain_stops now s).1
unfolding complete_plain_stops set_intake
complete_plain_stops-NoStopLeft now s =
    let why : String = "intake stopped after active attempt" in
    record {
      intake = refl;
      pending = refl;
      stops = completed_stops why (now 0) s.commands;
      rows = λ r.
          find-update (is_plan_of (stop ∷ [])) Acknowledgement.completed why (now 0) r s.commands
          ∙ touched-stop_completed (now 0) (find r s.commands);
    }

-- When the pending pointer names a plain stop, its completion stops intake, clears the pointer,
-- and leaves no accepted stop in the table: every accepted stop, those that joined it later too, is
-- completed, and every other row stays as it is.
pub complete_pending_stop-NoStopLeft :
    (p : String) (c : Command) (now : Clock) (s : ControlStore)
    → s.pending ≡ some p
    → find p s.commands ≡ some c
    → same_kind c.kind stop ≡ true
    → NoStopLeft (now 0) s (complete_pending_stop now s).1
unfolding complete_pending_stop complete_stop_named
complete_pending_stop-NoStopLeft p c now s e f k =
    let same : complete_pending_stop now s ≡ complete_plain_stops now s =
      simp (e, f, k, complete_pending_stop, complete_stop_named) in
    subst (λ (x : Result (List Command) × ControlStore). NoStopLeft (now 0) s x.1) (sym same)
      (complete_plain_stops-NoStopLeft now s)
