-- ===== src/Control/Outcomes.antt =====
-- The three ways in which a submission can end: the stored record, a refusal, or a new row. Rules
-- for the pieces that the methods of control.py are made of.
use simple_coding_agent.Base.{
  String, ◌≡◌, refl, Bool, true, false, none, List, [], ◌∷◌, ◌++◌, if◌then◌else◌,
}
use simple_coding_agent.Control.Types.{
  Acknowledgement, Kind, Payload, Error, Result, ok, err, Command, ControlStore, is_accepted,
}
use simple_coding_agent.Control.Table.{find, update, is_plan_of, supersede_plans, new_command}
use simple_coding_agent.Control.Lookup.{find-update}
use simple_coding_agent.Control.History.{
  OnlyAccepted, Evolves, unchanged, updated, is_plan_of-OnlyAccepted,
}

-- Updates of accepted rows alone; they keep a fresh request ID fresh.
pub record Rewrites (cs ds : List Command) : Type 0 where
  pub evolves : Evolves cs ds
  pub fresh : (r : String) → find r cs ≡ none → find r ds ≡ none

pub Rewrites-refl : (cs : List Command) → Rewrites cs cs
Rewrites-refl cs = record { evolves = unchanged; fresh = λ r h. h }

pub Rewrites-update :
    {cs ds : List Command} (p : Command → Bool) (a : Acknowledgement) (d t : String)
    → OnlyAccepted p ds
    → is_accepted a ≡ false
    → Rewrites cs ds
    → Rewrites cs (update p a d t ds)
Rewrites-update {ds = ds} p a d t only final w = record {
  evolves = updated p a d t w.evolves only final;
  fresh = λ r h. rw (find-update p a d t r ds) (rw (w.fresh r h) refl);
}

pub Rewrites-supersede :
    {cs : List Command} (ks : List Kind) (r t : String) (s : ControlStore)
    → Rewrites cs s.commands
    → Rewrites cs (supersede_plans ks r t s).commands
unfolding supersede_plans is_accepted
Rewrites-supersede ks r t s w =
    Rewrites-update (is_plan_of ks) _ _ t (is_plan_of-OnlyAccepted ks s.commands) refl w

pub Rewrites-if :
    {cs : List Command} (b : Bool) (x y : ControlStore)
    → Rewrites cs x.commands
    → Rewrites cs y.commands
    → Rewrites cs (if b then x else y).commands
Rewrites-if true x y hx hy = hx
Rewrites-if false x y hx hy = hy

-- The reply and the store of a submission that has inserted its row.
pub record Recorded (cs : List Command) (r : String) (k : Kind) (p : Payload)
    (out : Result Command × ControlStore) : Type 0 where
  pub table : List Command
  pub acknowledgement : Acknowledgement
  pub detail : String
  pub time : String
  pub rewrites : Rewrites cs table
  pub reply : out.0 ≡ ok (new_command r k p acknowledgement detail time table)
  pub commands : out.1.commands ≡ table ++ new_command r k p acknowledgement detail time table ∷ []

-- A body of `admit` either refuses, and leaves the store as it was, or records its command.
pub data Outcome (s : ControlStore) (r : String) (k : Kind) (p : Payload)
    (out : Result Command × ControlStore) : Type 0 where
  refused : (e : Error) → out ≡ (err e, s) → Outcome s r k p out
  recorded : Recorded s.commands r k p out → Outcome s r k p out

pub Outcome-if :
    {s : ControlStore} {r : String} {k : Kind} {p : Payload} (b : Bool)
    (x y : Result Command × ControlStore)
    → Outcome s r k p x
    → Outcome s r k p y
    → Outcome s r k p (if b then x else y)
Outcome-if true x y hx hy = hx
Outcome-if false x y hx hy = hy
