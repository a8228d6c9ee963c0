-- ===== src/Control/Order.antt =====
-- Distinct request IDs and rising sequence numbers along the table `commands`, behind the schema's
-- `PRIMARY KEY` and `UNIQUE`.
use simple_coding_agent.Base.{
  ℕ, ◌≤◌, ◌<◌, String, ◌≡◌, refl, Bool, false, inl, inr, none, List, [], ◌∷◌, ◌++◌, arith, text_eq,
  text_eq_refl, text_eq→≡, Bool-cases, All, All-append,
}
use simple_coding_agent.Control.Types.{Acknowledgement, Command}
use simple_coding_agent.Control.Table.{find, update, new_command, max_sequence}
use simple_coding_agent.Control.Lookup.{touch-SameRow, touch_id, find-update, find-append_other}
use simple_coding_agent.Control.History.{Evolves, unchanged, updated, inserted, Distinct, Ascending}

module _ (p : Command → Bool) (a : Acknowledgement) (d t : String) where
  update-Distinct : (cs : List Command) → Distinct cs → Distinct (update p a d t cs)
  unfolding update
  update-Distinct [] h = tt
  update-Distinct (c ∷ cs) h = (
    rw (touch_id p a d t c) (rw (find-update p a d t c.request_id cs) (rw (h.0) refl)),
    update-Distinct cs h.1,
  )

  above-update :
      (n : ℕ) (cs : List Command)
      → All (λ x. n < x.sequence) cs
      → All (λ x. n < x.sequence) (update p a d t cs)
  unfolding update
  above-update n [] h = tt
  above-update n (c ∷ cs) h = (rw (touch-SameRow p a d t c).sequence (h.0), above-update n cs h.1)

  update-Ascending : (cs : List Command) → Ascending cs → Ascending (update p a d t cs)
  unfolding update
  update-Ascending [] h = tt
  update-Ascending (c ∷ cs) h = (
    rw (touch-SameRow p a d t c).sequence (above-update c.sequence cs h.0),
    update-Ascending cs h.1,
  )

-- A fresh ID differs from those in the table, read from either side.
fresh_ne : (r q : String) → text_eq q r ≡ false → text_eq r q ≡ false
fresh_ne r q h = elim (Bool-cases (text_eq r q)) [
  | inl e ↦ ground (arith, text_eq→≡ r q e, text_eq_refl r)
  | inr e ↦ e
]

find-none_head :
    (r : String) (c : Command) (cs : List Command)
    → find r (c ∷ cs) ≡ none
    → (text_eq c.request_id r ≡ false) × (find r cs ≡ none)
unfolding find
find-none_head r c cs h = ground arith

append-Distinct :
    (x : Command) (cs : List Command)
    → find x.request_id cs ≡ none
    → Distinct cs
    → Distinct (cs ++ x ∷ [])
append-Distinct x [] f h = (unfold find in refl, tt)
append-Distinct x (c ∷ cs) f h =
    let (ne, rest) = find-none_head x.request_id c cs f in
    (
      rw (find-append_other c.request_id cs x (fresh_ne x.request_id c.request_id ne)) (h.0),
      append-Distinct x cs rest h.1,
    )

max_sequence_head : (c : Command) (cs : List Command) → c.sequence ≤ max_sequence (c ∷ cs)
unfolding max_sequence
max_sequence_head c cs = ground arith

max_sequence_tail : (c : Command) (cs : List Command) → max_sequence cs ≤ max_sequence (c ∷ cs)
unfolding max_sequence
max_sequence_tail c cs = ground arith

append-Ascending :
    (x : Command) (cs : List Command)
    → max_sequence cs < x.sequence
    → Ascending cs
    → Ascending (cs ++ x ∷ [])
append-Ascending x [] m h = (tt, tt)
append-Ascending x (c ∷ cs) m h = (
  All-append (λ y. c.sequence < y.sequence) cs (x ∷ []) h.0
      (omega (arith, max_sequence_head c cs), tt),
  append-Ascending x cs (omega (arith, max_sequence_tail c cs)) h.1,
)

pub Evolves-Distinct : {cs ds : List Command} → Distinct cs → Evolves cs ds → Distinct ds
Evolves-Distinct h unchanged = h
Evolves-Distinct h (updated {ds = ds} p a d t e only final) =
    update-Distinct p a d t ds (Evolves-Distinct h e)
Evolves-Distinct h (inserted {ds = ds} r k p a d t e fresh) =
    append-Distinct (new_command r k p a d t ds) ds (unfold new_command in fresh)
      (Evolves-Distinct h e)

pub Evolves-Ascending : {cs ds : List Command} → Ascending cs → Evolves cs ds → Ascending ds
Evolves-Ascending h unchanged = h
Evolves-Ascending h (updated {ds = ds} p a d t e only final) =
    update-Ascending p a d t ds (Evolves-Ascending h e)
Evolves-Ascending h (inserted {ds = ds} r k p a d t e fresh) =
    append-Ascending (new_command r k p a d t ds) ds (unfold new_command in omega arith)
      (Evolves-Ascending h e)
