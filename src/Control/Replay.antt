-- ===== src/Control/Replay.antt =====
-- Retries of a submission under the same request ID.
use simple_coding_agent.Base.{
  String, ◌≡◌, refl, sym, ◌∙◌, ap, true, false, ◌&&◌, none, some, inl, inr, arith, text_eq_refl,
  Bool-cases, Option-cases,
}
use simple_coding_agent.Control.Types.{
  Clock, Kind, Payload, no_arguments, after, issue, attempt, attempt_saved, Error, Result, ok, err,
  request_id_error, payload_mismatch_error, Command, ControlStore, same_kind, same_payload,
}
use simple_coding_agent.Control.Table.{find, admit, stored_reply, valid_request_id, new_command}
use simple_coding_agent.Control.Lookup.{find-new_command}
use simple_coding_agent.Control.History.{Evolves, unchanged, inserted}
use simple_coding_agent.Control.Outcomes.{Recorded, refused, recorded}
use simple_coding_agent.Control.Requests.{
  Request, submit, kind_of, payload_of, rejection_of, run, submit-eq,
}
use simple_coding_agent.Control.Recording.{run-Outcome}

same_kind_refl : (k : Kind) → same_kind k k ≡ true
unfolding same_kind
same_kind_refl k = ground arith

same_payload_refl : (p : Payload) → same_payload p p ≡ true
unfolding same_payload
same_payload_refl no_arguments = refl
same_payload_refl (after n) = ground arith
same_payload_refl (issue n) = ground arith
same_payload_refl (attempt s) = text_eq_refl s
same_payload_refl (attempt_saved s t) = ground (arith, text_eq_refl s, text_eq_refl t)

-- The store holds `c` as the answer to `r` with the content of `q`.
pub record IsStored (r : String) (q : Request) (s : ControlStore) (c : Command) : Type 0 where
  pub valid : valid_request_id r ≡ true
  pub payload : Payload
  pub content : payload_of q ≡ some payload
  pub found : find r s.commands ≡ some c
  pub kind : same_kind c.kind (kind_of q) ≡ true
  pub same : same_payload c.payload payload ≡ true

-- The ways in which a submission ends.
pub data Ends (r : String) (q : Request) (s : ControlStore) (out : Result Command × ControlStore)
    : Type 0 where
  rejected : (e : Error) → out ≡ (err e, s) → Ends r q s out
  replayed : (c : Command) → IsStored r q s c → out ≡ (ok c, s) → Ends r q s out
  applied :
      (p : Payload)
      → valid_request_id r ≡ true
      → payload_of q ≡ some p
      → find r s.commands ≡ none
      → Recorded s.commands r (kind_of q) p out
      → Ends r q s out

stored-Ends :
    (r : String) (q : Request) (p : Payload) (s : ControlStore) (c : Command)
    → valid_request_id r ≡ true
    → payload_of q ≡ some p
    → find r s.commands ≡ some c
    → Ends r q s (stored_reply (kind_of q) p c, s)
unfolding stored_reply
stored-Ends r q p s c v e f =
    elim (Bool-cases (same_kind c.kind (kind_of q) && same_payload c.payload p)) [
      | inl h ↦
          replayed c
            (record {
              valid = v;
              payload = p;
              content = e;
              found = f;
              kind = ground arith;
              same = ground arith;
            })
            (rw h)
      | inr h ↦ rejected payload_mismatch_error (rw h)
    ]

admit-Ends :
    (r : String) (q : Request) (p : Payload) (now : Clock) (s : ControlStore)
    → valid_request_id r ≡ true
    → payload_of q ≡ some p
    → Ends r q s (admit r (kind_of q) p (run r q p now) s)
unfolding admit
admit-Ends r q p now s v e = elim (Option-cases (find r s.commands)) [
  | inl h ↦ rw v (
      rw h (elim (run-Outcome r q p now s e) [
        | refused x o ↦ rejected x o
        | recorded o ↦ applied p v e h o
      ]))
  | inr (c, h) ↦ rw v (rw h (stored-Ends r q p s c v e h))
]

pub submit-Ends :
    (r : String) (q : Request) (now : Clock) (s : ControlStore) → Ends r q s (submit r q now s)
submit-Ends r q now s = rw (submit-eq r q now s) (elim (Bool-cases (valid_request_id r)) [
  | inl v ↦ rw v (elim (Option-cases (payload_of q)) [
    | inl e ↦ rw e (rejected (rejection_of q) refl)
    | inr (p, e) ↦ rw e (admit-Ends r q p now s v e)
  ])
  | inr v ↦ rw v (rejected request_id_error refl)
])

moved :
    (r : String) (q : Request) (s s' : ControlStore) (c d : Command)
    → ok c ≡ ok d
    → s ≡ s'
    → IsStored r q s c
    → IsStored r q s' d
moved r q s s' c d e f st = record {
  valid = st.valid;
  payload = st.payload;
  content = st.content;
  found = ap (λ (x : ControlStore). find r x.commands) (sym f) ∙ (st.found ∙ cc);
  kind = ap (λ (x : Command). same_kind x.kind (kind_of q)) (sym same_row) ∙ st.kind;
  same = ap (λ (x : Command). same_payload x.payload st.payload) (sym same_row) ∙ st.same;
}
  where
    same_row : c ≡ d
    same_row = cc

Recorded-IsStored :
    (r : String) (q : Request) (p : Payload) (s : ControlStore)
    (out : Result Command × ControlStore)
    → valid_request_id r ≡ true
    → payload_of q ≡ some p
    → find r s.commands ≡ none
    → (w : Recorded s.commands r (kind_of q) p out)
    → IsStored r q out.1 (new_command r (kind_of q) p w.acknowledgement w.detail w.time w.table)
Recorded-IsStored r q p s out v e f w = record {
  valid = v;
  payload = p;
  content = e;
  found =
      ap (find r) w.commands
      ∙ find-new_command r (kind_of q) p w.acknowledgement w.detail w.time w.table
          (w.rewrites.fresh r f);
  kind = unfold new_command in same_kind_refl (kind_of q);
  same = unfold new_command in same_payload_refl p;
}

pub Ends-IsStored :
    (r : String) (q : Request) (s : ControlStore) (out : Result Command × ControlStore)
    (c : Command) (s' : ControlStore)
    → out ≡ (ok c, s')
    → Ends r q s out
    → IsStored r q s' c
Ends-IsStored r q s out c s' h (rejected e o) = absurd (cc)
Ends-IsStored r q s out c s' h (replayed d st o) =
    let both = sym o ∙ h in
    moved r q s s' d c (ap (λ (x : Result Command × ControlStore). x.0) both)
      (ap (λ (x : Result Command × ControlStore). x.1) both) st
Ends-IsStored r q s out c s' h (applied p v e f w) =
    moved r q out.1 s' _ c (sym w.reply ∙ ap (λ (x : Result Command × ControlStore). x.0) h)
      (ap (λ (x : Result Command × ControlStore). x.1) h) (Recorded-IsStored r q p s out v e f w)

-- What is stored answers every later submission of the same content.
pub IsStored-submit :
    (r : String) (q : Request) (now : Clock) (s : ControlStore) (c : Command)
    → IsStored r q s c
    → submit r q now s ≡ (ok c, s)
unfolding admit stored_reply
IsStored-submit r q now s c st =
    submit-eq r q now s
    ∙ rw (st.valid)
        (rw (st.content) (rw (st.valid) (rw (st.found) (rw (st.kind) (rw (st.same) refl)))))

Ends-error :
    (r : String) (q : Request) (s : ControlStore) (out : Result Command × ControlStore) (e : Error)
    → out.0 ≡ err e
    → Ends r q s out
    → out.1 ≡ s
Ends-error r q s out e h (rejected x o) = ap (λ (y : Result Command × ControlStore). y.1) o
Ends-error r q s out e h (replayed d st o) = ap (λ (y : Result Command × ControlStore). y.1) o
Ends-error r q s out e h (applied p v f fresh w) = absurd (cc (w.reply, h))

-- A submission that raises leaves the whole store as it was: intake, plans, priority, handoff and
-- every recorded command.
pub submit_error_unchanged :
    (r : String) (q : Request) (now : Clock) (s : ControlStore) (e : Error)
    → (submit r q now s).0 ≡ err e
    → (submit r q now s).1 ≡ s
submit_error_unchanged r q now s e h =
    Ends-error r q s (submit r q now s) e h (submit-Ends r q now s)

-- A valid request ID that is recorded with another kind or with other arguments than the valid
-- ones submitted is refused as a payload mismatch, and nothing changes.
pub submit_mismatch :
    (r : String) (q : Request) (p : Payload) (now : Clock) (s : ControlStore) (c : Command)
    → valid_request_id r ≡ true
    → payload_of q ≡ some p
    → find r s.commands ≡ some c
    → same_kind c.kind (kind_of q) && same_payload c.payload p ≡ false
    → submit r q now s ≡ (err payload_mismatch_error, s)
unfolding admit stored_reply
submit_mismatch r q p now s c v e f h = submit-eq r q now s ∙ rw v (rw e (rw v (rw f (rw h refl))))

Ends-Evolves :
    (r : String) (q : Request) (s : ControlStore) (out : Result Command × ControlStore)
    → Ends r q s out
    → Evolves s.commands out.1.commands
Ends-Evolves r q s out (rejected e o) = rw o unchanged
Ends-Evolves r q s out (replayed d st o) = rw o unchanged
Ends-Evolves r q s out (applied p v e f w) = rw (w.commands) (
    inserted r (kind_of q) p w.acknowledgement w.detail w.time w.rewrites.evolves
      (w.rewrites.fresh r f))

pub submit-Evolves :
    (r : String) (q : Request) (now : Clock) (s : ControlStore)
    → Evolves s.commands (submit r q now s).1.commands
submit-Evolves r q now s = Ends-Evolves r q s (submit r q now s) (submit-Ends r q now s)
