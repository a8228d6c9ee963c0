-- ===== src/Control/Retries.antt =====
-- Retries of a submission after other methods of control.py have run.
use simple_coding_agent.Base.{String, ◌≡◌, ap, ◌∙◌, false, some, List}
use simple_coding_agent.Control.Types.{
  Clock, ok, Command, ControlStore, is_accepted, same_kind, same_payload,
}
use simple_coding_agent.Control.Lookup.{SameRow}
use simple_coding_agent.Control.Table.{find}
use simple_coding_agent.Control.History.{Successor}
use simple_coding_agent.Control.Requests.{Request, submit, kind_of, payload_of}
use simple_coding_agent.Control.Replay.{IsStored, submit-Ends, Ends-IsStored, IsStored-submit}
use simple_coding_agent.Control.Events.{Event, apply_all}
use simple_coding_agent.Control.Effects.{apply_all-Successor}

-- What a store holds for a request ID still answers it after the record has changed in the columns
-- that are written after its insertion, and for a request of the same content.
IsStored-later :
    (r : String) (q q' : Request) (s t : ControlStore) (c : Command)
    → kind_of q' ≡ kind_of q
    → payload_of q' ≡ payload_of q
    → IsStored r q s c
    → (w : Successor s.commands t.commands r c) → IsStored r q' t w.row
IsStored-later r q q' s t c k p st w = record {
  valid = st.valid;
  payload = st.payload;
  content = p ∙ st.content;
  found = w.found;
  kind = ap (λ j. same_kind j (kind_of q')) (w.same_row.kind) ∙ (ap (same_kind c.kind) k ∙ st.kind);
  same = ap (λ j. same_payload j st.payload) (w.same_row.payload) ∙ st.same;
}

-- The answer to a retry in the store `t`, where the first submission was answered with `c`: the
-- record under the same request ID as it is by then, and a store left as it is. The record has the
-- sequence number, kind, payload and creation time of the first answer, and is that answer itself
-- if it was final.
pub record IsAnswered (r : String) (q : Request) (now : Clock) (c : Command) (t : ControlStore)
    : Type 0 where
  pub row : Command
  pub reply : submit r q now t ≡ (ok row, t)
  pub found : find r t.commands ≡ some row
  pub same_row : SameRow c row
  pub frozen : is_accepted c.acknowledgement ≡ false → row ≡ c

-- A submission that was answered with a record is answered with the record of its request ID
-- whenever it comes back with the same kind and the same canonical arguments, after any run of the
-- writing methods, at any time, and whatever the active attempt or the recovery hold are by then.
-- The retry changes nothing; the record it returns has the sequence number, kind, payload and
-- creation time of the first answer, and is the first answer itself if that was final.
pub submit-retried :
    (run : List (Event × Clock)) (r : String) (q q' : Request) (now now' : Clock)
    (s s' : ControlStore) (c : Command)
    → kind_of q' ≡ kind_of q
    → payload_of q' ≡ payload_of q
    → submit r q now s ≡ (ok c, s')
    → IsAnswered r q' now' c (apply_all run s')
submit-retried run r q q' now now' s s' c k p h =
    let st = Ends-IsStored r q s (submit r q now s) c s' h (submit-Ends r q now s) in
    let t = apply_all run s' in
    let w = apply_all-Successor run s' r c st.found in
    record {
      row = w.row;
      reply = IsStored-submit r q' now' t w.row (IsStored-later r q q' s' t c k p st w);
      found = w.found;
      same_row = w.same_row;
      frozen = w.frozen;
    }
