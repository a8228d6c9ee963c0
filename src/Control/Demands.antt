-- ===== src/Control/Demands.antt =====
-- How the demands of accepted rows, and the shape of the pending priority, survive the updates and
-- the insertion that an operation makes.
use mathlib.Core.Path.{subst, subst₂, subst₃}
use simple_coding_agent.Base.{
  ℕ, String, ◌≡◌, refl, sym, Bool, true, false, Option, none, some, inl, inr, List, [], ◌∷◌, ◌++◌,
  Bool-cases, All, All-append, arith,
}
use simple_coding_agent.Control.Types.{
  Acknowledgement, IntakeState, running, Kind, next_issue, Payload, Command, ControlStore,
  is_accepted, superseded, not_fulfilled, completed,
}
use simple_coding_agent.Control.Table.{find, touch, update, has_kind, is_plan_of, new_command}
use simple_coding_agent.Control.Lookup.{touch_miss, find-update}
use simple_coding_agent.Control.Invariant.{
  accepted_kind, plan_of, Shape, PriorityShape, Demand, RowOk, IsConsistent,
}
use simple_coding_agent.Control.Rows.{
  All-update, accepted_kind-supersede, accepted_kind-append, accepted_kind-new,
}

-- A row that is no longer accepted demands nothing.
pub Demand-final :
    (s : ControlStore) (a : Acknowledgement) (k : Kind) (r : String)
    → is_accepted a ≡ false
    → Demand s a k r
unfolding is_accepted
Demand-final s Acknowledgement.accepted k r h = absurd (cc)
Demand-final s completed k r h = tt
Demand-final s superseded k r h = tt
Demand-final s not_fulfilled k r h = tt

-- The demands of the rows that an update with the test `p` passes over.
abbrev pub Keeps : ControlStore → ControlStore → (Command → Bool) → Type 0
Keeps s s' p =
    (c : Command) → is_accepted c.acknowledgement ≡ true → p c ≡ false → RowOk s c → RowOk s' c

pub touch-RowOk :
    (s s' : ControlStore) (p : Command → Bool) (a : Acknowledgement) (d t : String)
    → is_accepted a ≡ false
    → Keeps s s' p
    → (c : Command) → RowOk s c
    → RowOk s' (touch p a d t c)
touch-RowOk s s' p a d t final keep c h = elim (Bool-cases (p c)) [
  | inl hit ↦ unfold touch in rw hit (Demand-final s' a c.kind c.request_id final)
  | inr miss ↦ rw (touch_miss p a d t c miss) (elim (Bool-cases (is_accepted c.acknowledgement)) [
    | inl acc ↦ keep c acc miss h
    | inr old ↦ Demand-final s' c.acknowledgement c.kind c.request_id old
  ])
]

-- All rows after an update, and after one more row.
pub update-rows :
    (s s' : ControlStore) (p : Command → Bool) (a : Acknowledgement) (d t : String)
    (cs : List Command)
    → is_accepted a ≡ false
    → Keeps s s' p
    → All (RowOk s) cs
    → All (RowOk s') (update p a d t cs)
update-rows s s' p a d t cs final keep h =
    All-update (RowOk s) (RowOk s') p a d t (touch-RowOk s s' p a d t final keep) cs h

pub new-rows :
    (s : ControlStore) (r : String) (k : Kind) (p : Payload) (a : Acknowledgement) (d t : String)
    (cs : List Command)
    → Demand s a k r
    → All (RowOk s) cs
    → All (RowOk s) (cs ++ new_command r k p a d t cs ∷ [])
new-rows s r k p a d t cs new h =
    All-append (RowOk s) cs (new_command r k p a d t cs ∷ []) h (unfold new_command in new, tt)

-- Rows keep their demands where the store changes in nothing that they name.
pub same-rows :
    (s s' : ControlStore)
    → ((c : Command) → RowOk s c → RowOk s' c)
    → (cs : List Command) → All (RowOk s) cs
    → All (RowOk s') cs
same-rows s s' f [] h = tt
same-rows s s' f (c ∷ cs) h = (f c h.0, same-rows s s' f cs h.1)

pub PriorityShape-map :
    (n : Option ℕ) (q : Option String) (cs ds : List Command)
    → ((r : String) → accepted_kind r cs ≡ some next_issue → accepted_kind r ds ≡ some next_issue)
    → PriorityShape n q cs
    → PriorityShape n q ds
PriorityShape-map none none cs ds f h = tt
PriorityShape-map (some n) (some r) cs ds f h = f r h
PriorityShape-map none (some r) cs ds f h = h
PriorityShape-map (some n) none cs ds f h = h

pub PriorityShape-supersede :
    (n : Option ℕ) (q : Option String) (ks : List Kind) (a : Acknowledgement) (d t : String)
    (cs : List Command)
    → has_kind ks next_issue ≡ false
    → PriorityShape n q cs
    → PriorityShape n q (update (is_plan_of ks) a d t cs)
PriorityShape-supersede n q ks a d t cs e =
    PriorityShape-map n q cs (update (is_plan_of ks) a d t cs)
      (λ r h. accepted_kind-supersede a d t r next_issue cs h ks e)

pub PriorityShape-append :
    (n : Option ℕ) (q : Option String) (cs ds : List Command)
    → PriorityShape n q cs
    → PriorityShape n q (cs ++ ds)
PriorityShape-append n q cs ds =
    PriorityShape-map n q cs (cs ++ ds) (λ r h. accepted_kind-append r next_issue cs ds h)

pub fresh-update :
    (r : String) (p : Command → Bool) (a : Acknowledgement) (d t : String) (cs : List Command)
    → find r cs ≡ none
    → find r (update p a d t cs) ≡ none
fresh-update r p a d t cs f = rw (find-update p a d t r cs) (rw f refl)

-- The pending pointer at the row just inserted.
pub Shape-new :
    (i : IntakeState) (n m : Option ℕ) (r : String) (k : Kind) (p : Payload) (d t : String)
    (cs : List Command)
    → find r cs ≡ none
    → Shape i (some (some k)) n m
    → Shape i (plan_of (some r) (cs ++ new_command r k p Acknowledgement.accepted d t cs ∷ [])) n m
Shape-new i n m r k p d t cs f h = rw (accepted_kind-new r k p d t cs f) h

-- A row that takes over the pending pointer, behind an update with the test `p` that leaves the
-- priority alone: what is left to show is the new shape, and the demands of the new row and of the
-- rows passed over.
pub started-IsConsistent :
    (s s' : ControlStore) (ks : List Kind) (a : Acknowledgement) (d t r : String) (k : Kind)
    (p : Payload) (d' t' : String)
    → find r s.commands ≡ none
    → is_accepted a ≡ false
    → has_kind ks next_issue ≡ false
    → IsConsistent s
    → Keeps s s' (is_plan_of ks)
    → let table = update (is_plan_of ks) a d t s.commands in
      s'.commands ≡ table ++ new_command r k p Acknowledgement.accepted d' t' table ∷ []
      → s'.next_issue_number ≡ s.next_issue_number
      → s'.next_issue_request_id ≡ s.next_issue_request_id
      → s'.pending ≡ some r
      → Shape s'.intake (some (some k)) s'.stop_after_requested s'.stop_after_remaining
      → Demand s' Acknowledgement.accepted k r
      → IsConsistent s'
started-IsConsistent s s' ks a d t r k p d' t' fresh final spare i keep ec en eq ep shape new =
    let table = update (is_plan_of ks) a d t s.commands in
    let added = new_command r k p Acknowledgement.accepted d' t' table ∷ [] in
    record {
      shape =
          subst₂
            (λ q cs. Shape s'.intake (plan_of q cs) s'.stop_after_requested s'.stop_after_remaining)
            (sym ep) (sym ec)
            (Shape-new s'.intake s'.stop_after_requested s'.stop_after_remaining r k p d' t' table
              (fresh-update r (is_plan_of ks) a d t s.commands fresh) shape);
      priority = subst₃ PriorityShape (sym en) (sym eq) (sym ec) (
          PriorityShape-append s.next_issue_number s.next_issue_request_id table added (
            PriorityShape-supersede s.next_issue_number s.next_issue_request_id ks a d t s.commands
              spare i.priority));
      rows = subst (All (RowOk s')) (sym ec) (
          new-rows s' r k p Acknowledgement.accepted d' t' table new
            (update-rows s s' (is_plan_of ks) a d t s.commands final keep i.rows));
    }

-- A row inserted behind a table whose rows and priority fit the new store already.
pub added-IsConsistent :
    (s' : ControlStore) (table : List Command) (r : String) (k : Kind) (p : Payload)
    (a : Acknowledgement) (d t : String)
    → s'.commands ≡ table ++ new_command r k p a d t table ∷ []
    → PriorityShape s'.next_issue_number s'.next_issue_request_id table
    → All (RowOk s') table
    → Demand s' a k r
    → Shape s'.intake
        (plan_of s'.pending (table ++ new_command r k p a d t table ∷ []))
        s'.stop_after_requested
        s'.stop_after_remaining
    → IsConsistent s'
added-IsConsistent s' table r k p a d t ec priority rows new shape = record {
  shape =
      subst
        (λ cs.
          Shape s'.intake (plan_of s'.pending cs) s'.stop_after_requested s'.stop_after_remaining)
        (sym ec) shape;
  priority = subst (PriorityShape s'.next_issue_number s'.next_issue_request_id) (sym ec) (
      PriorityShape-append s'.next_issue_number s'.next_issue_request_id table
        (new_command r k p a d t table ∷ []) priority);
  rows = subst (All (RowOk s')) (sym ec) (new-rows s' r k p a d t table new rows);
}

-- The kind of a plan that no countdown belongs to.
Shape-kept :
    (i : IntakeState) (o o' : Option Kind) (n m : Option ℕ)
    → ((k : Kind) → o ≡ some k → o' ≡ some k)
    → Shape i (some o) n m
    → Shape i (some o') n m
Shape-kept i (some k) o' n m f h = subst (λ x. Shape i (some x) n m) (sym (f k refl)) h
Shape-kept running none o' none none f h = absurd h
Shape-kept _ none o' n m f h = absurd (ground arith)

-- The shape over another table in which the pending command is accepted still.
pub plan-Shape :
    (i : IntakeState) (q : Option String) (n m : Option ℕ) (cs ds : List Command)
    → ((r : String) (k : Kind)
        → q ≡ some r
        → accepted_kind r cs ≡ some k
        → accepted_kind r ds ≡ some k)
    → Shape i (plan_of q cs) n m
    → Shape i (plan_of q ds) n m
plan-Shape i none n m cs ds f h = h
plan-Shape i (some r) n m cs ds f h =
    Shape-kept i (accepted_kind r cs) (accepted_kind r ds) n m (λ k. f r k refl) h
