-- ===== src/Control/History.antt =====
-- The effects that the methods of control.py have on the table `commands`: updates of rows that are
-- still accepted, and insertions under a fresh request ID. What follows for the table's history.
use simple_coding_agent.Base.{
  ◌<◌, String, ◌≡◌, refl, ◌∙◌, sym, Bool, true, false, inl, inr, none, some, List, [], ◌∷◌, ◌++◌,
  arith, text_eq→≡, Bool-cases, All,
}
use simple_coding_agent.Control.Types.{Acknowledgement, Kind, Payload, Command, is_accepted}
use simple_coding_agent.Control.Table.{
  find, touch, update, is_plan_of, has_id, has_id_accepted, new_command,
}
use simple_coding_agent.Control.Lookup.{
  SameRow, SameRow-refl, SameRow-trans, touch-SameRow, touch_miss, find-update, find-append_some,
  find_id,
}

-- The test passes only rows that are still accepted.
abbrev pub OnlyAccepted : (Command → Bool) → List Command → Type 0
OnlyAccepted p cs =
    (r : String) (c : Command)
    → find r cs ≡ some c
    → p c ≡ true
    → is_accepted c.acknowledgement ≡ true

pub data Evolves (cs : List Command) : List Command → Type 0 where
  unchanged : Evolves cs cs
  updated :
      {ds : List Command} (p : Command → Bool) (a : Acknowledgement) (d t : String)
      → Evolves cs ds
      → OnlyAccepted p ds
      → is_accepted a ≡ false
      → Evolves cs (update p a d t ds)
  inserted :
      {ds : List Command} (r : String) (k : Kind) (p : Payload) (a : Acknowledgement) (d t : String)
      → Evolves cs ds
      → find r ds ≡ none
      → Evolves cs (ds ++ new_command r k p a d t ds ∷ [])

pub is_plan_of-OnlyAccepted : (ks : List Kind) (cs : List Command) → OnlyAccepted (is_plan_of ks) cs
unfolding is_plan_of
is_plan_of-OnlyAccepted ks cs r c f h = ground arith

pub has_id_accepted-OnlyAccepted :
    (q : String) (cs : List Command) → OnlyAccepted (has_id_accepted q) cs
unfolding has_id_accepted
has_id_accepted-OnlyAccepted q cs r c f h = ground arith

-- An update by request ID alone is such an update where the row found is accepted.
pub has_id-OnlyAccepted :
    (q : String) (cs : List Command) (x : Command)
    → find q cs ≡ some x
    → is_accepted x.acknowledgement ≡ true
    → OnlyAccepted (has_id q) cs
unfolding has_id
has_id-OnlyAccepted q cs x e a r c f h =
    let same : r ≡ q = sym (find_id r cs c f) ∙ text_eq→≡ c.request_id q h in
    ground (arith, e, f, same)

-- The row that one row has become.
pub record Successor (cs ds : List Command) (r : String) (c : Command) : Type 0 where
  pub row : Command
  pub found : find r ds ≡ some row
  pub same_row : SameRow c row
  pub frozen : is_accepted c.acknowledgement ≡ false → row ≡ c

updated-Successor :
    {cs ds : List Command} (p : Command → Bool) (a : Acknowledgement) (d t r : String) (c : Command)
    → OnlyAccepted p ds
    → is_accepted a ≡ false
    → Successor cs ds r c
    → Successor cs (update p a d t ds) r c
updated-Successor {ds = ds} p a d t r c only final s =
    let f = s.found in
    elim (Bool-cases (p s.row)) [
      | inl hit ↦ record {
        row = touch p a d t s.row;
        found = rw (find-update p a d t r ds) (rw f refl);
        same_row =
            SameRow-trans c s.row (touch p a d t s.row) s.same_row (touch-SameRow p a d t s.row);
        frozen = λ e. absurd (ground (arith, only r s.row f hit, s.frozen e));
      }
      | inr miss ↦ record {
        row = s.row;
        found = rw (find-update p a d t r ds) (rw f (rw (touch_miss p a d t s.row miss) refl));
        same_row = s.same_row;
        frozen = s.frozen;
      }
    ]

-- No row is lost or replaced, the columns of its insertion stay, and once it is no longer accepted
-- the whole row stays.
pub Evolves-Successor :
    {cs ds : List Command} (r : String) (c : Command)
    → find r cs ≡ some c
    → Evolves cs ds
    → Successor cs ds r c
Evolves-Successor r c f unchanged = record {
  row = c;
  found = f;
  same_row = SameRow-refl c;
  frozen = λ e. refl;
}
Evolves-Successor r c f (updated p a d t e only final) =
    updated-Successor p a d t r c only final (Evolves-Successor r c f e)
Evolves-Successor r c f (inserted {ds = ds} q k p a d t e fresh) =
    let s = Evolves-Successor r c f e in
    record {
      row = s.row;
      found = find-append_some r ds (new_command q k p a d t ds ∷ []) s.found;
      same_row = s.same_row;
      frozen = s.frozen;
    }

-- Request IDs are distinct, as `PRIMARY KEY` demands.
abbrev pub Distinct : List Command → Type 0
Distinct [] = Unit
Distinct (c ∷ cs) = (find c.request_id cs ≡ none) × Distinct cs

-- Sequence numbers rise along the table, as `UNIQUE` and `ORDER BY sequence` need.
abbrev pub Ascending : List Command → Type 0
Ascending [] = Unit
Ascending (c ∷ cs) = All (λ x. c.sequence < x.sequence) cs × Ascending cs
