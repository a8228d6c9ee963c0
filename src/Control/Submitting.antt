-- ===== src/Control/Submitting.antt =====
-- Consistency under whole submissions: `stop --after N`, `handoff now`, the recovery commands and
-- the error reset.
use simple_coding_agent.Base.{
  ℕ, ◌<◌, String, ◌≡◌, inl, inr, Bool, true, false, Option, none, some, arith, Bool-cases,
  Option-cases,
}
use simple_coding_agent.Base.Number.{PyValue, ℤ, positive, integer_of}
use simple_coding_agent.Control.Types.{
  Clock, Kind, Payload, RecoveryHold, Result, Command, ControlStore,
}
use simple_coding_agent.Control.Table.{find, admit, valid_request_id, handoff_begun_locked}
use simple_coding_agent.Control.Invariant.{IsConsistent}
use simple_coding_agent.Control.Starting.{start_handoff-IsConsistent, start_countdown-IsConsistent}
use simple_coding_agent.Control.Appending.{
  retry_body-IsConsistent, release_body-IsConsistent, reset_body-IsConsistent,
}
use simple_coding_agent.Control.Handoff.{handoff_body, submit_handoff}
use simple_coding_agent.Control.Countdown.{
  parse_stop_after, lacks_identity, is_stopped, stop_after_body, submit_stop_after,
}
use simple_coding_agent.Control.Recovery.{
  parse_attempt_id, parse_saved_at, retry_body, release_body, release_parsed, reset_body,
  submit_recovery_retry, submit_recovery_release, submit_errors_reset,
}

admit-IsConsistent :
    (r : String) (k : Kind) (p : Payload) (body : ControlStore → Result Command × ControlStore)
    (s : ControlStore)
    → IsConsistent s
    → (find r s.commands ≡ none → IsConsistent (body s).1)
    → IsConsistent (admit r k p body s).1
unfolding admit
admit-IsConsistent r k p body s i next = elim (Bool-cases (valid_request_id r)) [
  | inl v ↦ elim (Option-cases (find r s.commands)) [
    | inl f ↦ simp (v, f, admit) (next f)
    | inr (c, f) ↦ simp (v, f, admit) i
  ]
  | inr v ↦ simp (v, admit) i
]

handoff_body-IsConsistent :
    (hold : Option RecoveryHold) (r : String) (a : Bool) (now : Clock) (s : ControlStore)
    → IsConsistent s
    → find r s.commands ≡ none
    → IsConsistent (handoff_body hold r a now s).1
unfolding handoff_body
handoff_body-IsConsistent (some hold) r a now s i f = i
handoff_body-IsConsistent none r false now s i f = i
handoff_body-IsConsistent none r true now s i f = elim (Bool-cases (handoff_begun_locked s)) [
  | inl b ↦ simp (b, handoff_body) i
  | inr b ↦ simp (b, handoff_body) (start_handoff-IsConsistent r now s f i)
]

-- `handoff now` keeps the store consistent, whether it is refused, repeated or accepted, and
-- whatever plan it replaces.
pub submit_handoff-IsConsistent :
    (r : String) (a : Bool) (hold : Option RecoveryHold) (now : Clock) (s : ControlStore)
    → IsConsistent s
    → IsConsistent (submit_handoff r a hold now s).1
unfolding submit_handoff
submit_handoff-IsConsistent r a hold now s i =
    admit-IsConsistent r _ _ (handoff_body hold r a now) s i
      (handoff_body-IsConsistent hold r a now s i)

stop_after_body-IsConsistent :
    (r : String) (n : ℕ) (a : Bool) (t : Option String) (now : Clock) (s : ControlStore)
    → 0 < n
    → IsConsistent s
    → find r s.commands ≡ none
    → IsConsistent (stop_after_body r n a t now s).1
unfolding stop_after_body
stop_after_body-IsConsistent r n a t now s pos i f = elim (Bool-cases (lacks_identity a t)) [
  | inl b ↦ simp (b, stop_after_body) i
  | inr b ↦ elim (Bool-cases (is_stopped s.intake)) [
    | inl c ↦ simp (b, c, stop_after_body) i
    | inr c ↦ elim (Bool-cases (handoff_begun_locked s)) [
      | inl d ↦ simp (b, c, d, stop_after_body) i
      | inr d ↦ simp (b, c, d, stop_after_body) (start_countdown-IsConsistent r n a t now s pos f i)
    ]
  ]
]

positive-pos :
    (o : Option ℤ) (m : ℕ) → elim o [ none ↦ none | some n ↦ positive n ] ≡ some m → 0 < m
unfolding positive
positive-pos o m h = ground arith

parse_stop_after-pos : (v : PyValue) (n : ℕ) → parse_stop_after v ≡ some n → 0 < n
unfolding parse_stop_after
parse_stop_after-pos v n h = positive-pos (integer_of v) n h

-- `stop --after N` keeps the store consistent, whether it is refused, repeated or accepted, with or
-- without an active attempt, and whatever plan it replaces.
pub submit_stop_after-IsConsistent :
    (r : String) (v : PyValue) (a : Bool) (t : Option String) (now : Clock) (s : ControlStore)
    → IsConsistent s
    → IsConsistent (submit_stop_after r v a t now s).1
unfolding submit_stop_after
submit_stop_after-IsConsistent r v a t now s i = elim (Bool-cases (valid_request_id r)) [
  | inl b ↦ elim (Option-cases (parse_stop_after v)) [
    | inl e ↦ simp (b, e, submit_stop_after) i
    | inr (n, e) ↦
        simp (b, e, submit_stop_after)
          (admit-IsConsistent r _ _ (stop_after_body r n a t now) s i
            (stop_after_body-IsConsistent r n a t now s (parse_stop_after-pos v n e) i))
  ]
  | inr b ↦ simp (b, submit_stop_after) i
]

release_parsed-IsConsistent :
    (o u : Option String) (r : String) (now : Clock) (s : ControlStore)
    → IsConsistent s
    → IsConsistent (release_parsed o u r now s).1
unfolding release_parsed
release_parsed-IsConsistent none u r now s i = i
release_parsed-IsConsistent (some a) none r now s i = i
release_parsed-IsConsistent (some a) (some b) r now s i =
    admit-IsConsistent r _ _ (release_body r a b now) s i
      (λ _. release_body-IsConsistent r a b now s i)

pub submit_recovery_release-IsConsistent :
    (r a saved : String) (now : Clock) (s : ControlStore)
    → IsConsistent s
    → IsConsistent (submit_recovery_release r a saved now s).1
unfolding submit_recovery_release
submit_recovery_release-IsConsistent r a saved now s i = elim (Bool-cases (valid_request_id r)) [
  | inl b ↦
      simp (b, submit_recovery_release)
        (release_parsed-IsConsistent (parse_attempt_id a) (parse_saved_at saved) r now s i)
  | inr b ↦ simp (b, submit_recovery_release) i
]

pub submit_recovery_retry-IsConsistent :
    (r a : String) (now : Clock) (s : ControlStore)
    → IsConsistent s
    → IsConsistent (submit_recovery_retry r a now s).1
unfolding submit_recovery_retry
submit_recovery_retry-IsConsistent r a now s i = elim (Bool-cases (valid_request_id r)) [
  | inl b ↦ elim (Option-cases (parse_attempt_id a)) [
    | inl e ↦ simp (b, e, submit_recovery_retry) i
    | inr (x, e) ↦
        simp (b, e, submit_recovery_retry)
          (admit-IsConsistent r _ _ (retry_body r x now) s i
            (λ _. retry_body-IsConsistent r x now s i))
  ]
  | inr b ↦ simp (b, submit_recovery_retry) i
]

pub submit_errors_reset-IsConsistent :
    (r : String) (n : Option ℕ) (now : Clock) (s : ControlStore)
    → IsConsistent s
    → IsConsistent (submit_errors_reset r n now s).1
unfolding submit_errors_reset
submit_errors_reset-IsConsistent r n now s i =
    admit-IsConsistent r _ _ (reset_body r n now) s i (λ _. reset_body-IsConsistent r n now s i)
