-- ===== src/Control/Rows.antt =====
-- Facts about the rows of `commands` that the invariant of Control/Invariant needs: at the row found,
-- after an update, at some row that passes a test, and about the kind of an accepted command.
use simple_coding_agent.Base.{
  String, ◌≡◌, refl, Bool, true, false, none, some, inl, inr, List, [], ◌∷◌, ◌++◌, arith, is_empty,
  select, text_eq, Bool-cases, Option-cases, All,
}
use simple_coding_agent.Control.Types.{Acknowledgement, Kind, Payload, Command, is_accepted}
use simple_coding_agent.Control.Table.{
  find, touch, update, has_kind, is_plan_of, has_id, has_id_accepted, ids, new_command,
}
use simple_coding_agent.Control.Lookup.{
  find-update, find-append_some, find-new_command, find_id, touch_miss,
}
use simple_coding_agent.Control.Invariant.{accepted_kind}

pub All-find :
    (P : Command → Type 0) (r : String) (cs : List Command) (c : Command)
    → find r cs ≡ some c
    → All P cs
    → P c
unfolding find
All-find P r [] c f h = absurd (ground arith)
All-find P r (x ∷ cs) c f h = elim (Bool-cases (text_eq x.request_id r)) [
  | inl e ↦ at_row (rw e at f) h.0
  | inr e ↦ All-find P r cs c (rw e at f) h.1
]
  where
    at_row : some x ≡ some c → P x → P c
    at_row e p = rw (← row) p
      where
        row : x ≡ c
        row = cc

pub All-update :
    (P Q : Command → Type 0) (p : Command → Bool) (a : Acknowledgement) (d t : String)
    → ((c : Command) → P c → Q (touch p a d t c))
    → (cs : List Command) → All P cs
    → All Q (update p a d t cs)
unfolding update
All-update P Q p a d t f [] h = tt
All-update P Q p a d t f (c ∷ cs) h = (f c h.0, All-update P Q p a d t f cs h.1)

-- A selection that is not empty has a row, and an empty one passes over every row.
pub passing_row :
    (P : Command → Type 0) (p : Command → Bool) (cs : List Command)
    → is_empty (ids (select p cs)) ≡ false
    → All P cs
    → (c : Command) × (p c ≡ true) × P c
unfolding ids select
passing_row P p [] e h = absurd (cc)
passing_row P p (c ∷ cs) e h = elim (Bool-cases (p c)) [
  | inl hit ↦ (c, hit, h.0)
  | inr miss ↦ passing_row P p cs (rw miss at e) h.1
]

pub no_row_passes :
    (p : Command → Bool) (cs : List Command)
    → is_empty (ids (select p cs)) ≡ true
    → All (λ c. p c ≡ false) cs
unfolding ids select
no_row_passes p [] e = tt
no_row_passes p (c ∷ cs) e = elim (Bool-cases (p c)) [
  | inl hit ↦ absurd (ground arith)
  | inr miss ↦ (miss, no_row_passes p cs (rw miss at e))
]

-- The row behind an accepted kind.
pub record AcceptedRow (q : String) (k : Kind) (cs : List Command) : Type 0 where
  pub row : Command
  pub found : find q cs ≡ some row
  pub is_open : is_accepted row.acknowledgement ≡ true
  pub kind : row.kind ≡ k
  pub id : row.request_id ≡ q

pub accepted_row :
    (q : String) (k : Kind) (cs : List Command) → accepted_kind q cs ≡ some k → AcceptedRow q k cs
unfolding accepted_kind
accepted_row q k cs h = elim (Option-cases (find q cs)) [
  | inl f ↦ absurd (ground arith)
  | inr (c, f) ↦ record {
    row = c;
    found = f;
    is_open = ground arith;
    kind = ground arith;
    id = find_id q cs c f;
  }
]

pub row_accepted :
    (q : String) (k : Kind) (cs : List Command) → AcceptedRow q k cs → accepted_kind q cs ≡ some k
unfolding accepted_kind
row_accepted q k cs w = rw w.found (rw w.is_open (rw w.kind refl))

-- An update that passes over the row leaves its kind accepted.
accepted_kind-update :
    (p : Command → Bool) (a : Acknowledgement) (d t q : String) (k : Kind) (cs : List Command)
    (w : AcceptedRow q k cs)
    → p w.row ≡ false
    → accepted_kind q (update p a d t cs) ≡ some k
accepted_kind-update p a d t q k cs w miss = row_accepted q k (update p a d t cs) (record {
  row = w.row;
  found = rw (find-update p a d t q cs) (rw w.found (rw (touch_miss p a d t w.row miss) refl));
  is_open = w.is_open;
  kind = w.kind;
  id = w.id;
})

module _ (a : Acknowledgement) (d t q : String) (k : Kind) (cs : List Command)
    (h : accepted_kind q cs ≡ some k) where
  pub accepted_kind-supersede :
      (ks : List Kind)
      → has_kind ks k ≡ false
      → accepted_kind q (update (is_plan_of ks) a d t cs) ≡ some k
  unfolding is_plan_of
  accepted_kind-supersede ks e =
      let w = accepted_row q k cs h in
      accepted_kind-update (is_plan_of ks) a d t q k cs w (rw w.kind (rw e refl))

  pub accepted_kind-other_id :
      (r : String) → text_eq q r ≡ false → accepted_kind q (update (has_id r) a d t cs) ≡ some k
  unfolding has_id
  accepted_kind-other_id r e =
      let w = accepted_row q k cs h in accepted_kind-update (has_id r) a d t q k cs w (rw w.id e)

  pub accepted_kind-other_accepted_id :
      (r : String)
      → text_eq q r ≡ false
      → accepted_kind q (update (has_id_accepted r) a d t cs) ≡ some k
  unfolding has_id_accepted
  accepted_kind-other_accepted_id r e =
      let w = accepted_row q k cs h in
      accepted_kind-update (has_id_accepted r) a d t q k cs w (rw w.id (rw e refl))

pub accepted_kind-append :
    (q : String) (k : Kind) (cs ds : List Command)
    → accepted_kind q cs ≡ some k
    → accepted_kind q (cs ++ ds) ≡ some k
accepted_kind-append q k cs ds h =
    let w = accepted_row q k cs h in
    row_accepted q k (cs ++ ds) (record {
      row = w.row;
      found = find-append_some q cs ds w.found;
      is_open = w.is_open;
      kind = w.kind;
      id = w.id;
    })

pub accepted_kind-new :
    (r : String) (k : Kind) (p : Payload) (d t : String) (cs : List Command)
    → find r cs ≡ none
    → accepted_kind r (cs ++ new_command r k p Acknowledgement.accepted d t cs ∷ []) ≡ some k
unfolding accepted_kind
accepted_kind-new r k p d t cs f =
    rw (find-new_command r k p Acknowledgement.accepted d t cs f)
      (unfold new_command is_accepted in refl)
