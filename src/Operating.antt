-- ===== src/Operating.antt =====
-- The circuit breaker of infrastructure errors: `ConsecutiveErrorStore`
-- (simple_coding_agent/operating.py, lines 16-83). The file is missing, damaged or holds a state;
-- `none` is the `RuntimeError` of a damaged file. A time is the text that `_timestamp` prints.
use mathlib.Core.Path.{subst}
use simple_coding_agent.Base.{
  ℕ, ◌+◌, String, ◌≡◌, refl, sym, ap, ◌∙◌, inl, inr, Bool, true, false, ◌&&◌, not, Option, none,
  some, List, [], ◌∷◌, arith, if◌then◌else◌, Bool-cases, text_eq, text_eq_refl,
}
use simple_coding_agent.Completion.Evidence.{AttemptOutcome, infrastructure_error}

pub record ConsecutiveErrorState : Type 0 where
  pub count : ℕ
  pub last_success_at : Option String
  pub last_attempt_id : Option String

pub data ErrorFile : Type 0 where
  absent damaged : ErrorFile
  holds : ConsecutiveErrorState → ErrorFile

unfoldable pub zero_state : ConsecutiveErrorState
zero_state = record { count = 0; last_success_at = none; last_attempt_id = none }

unfoldable pub read : ErrorFile → Option ConsecutiveErrorState
unfolding zero_state
read absent = some zero_state
read damaged = none
read (holds s) = some s

unfoldable pub is_attempt : Option String → String → Bool
is_attempt none a = false
is_attempt (some b) a = text_eq b a

unfoldable pub is_infrastructure_error : AttemptOutcome → Bool
is_infrastructure_error infrastructure_error = true
is_infrastructure_error _ = false

-- The state after an outcome that was not recorded yet.
unfoldable pub counted :
    AttemptOutcome → String → String → ConsecutiveErrorState → ConsecutiveErrorState
unfolding is_infrastructure_error
counted outcome a now s =
    if is_infrastructure_error outcome
    then record {
      count = s.count + 1;
      last_success_at = s.last_success_at;
      last_attempt_id = some a;
    }
    else record { count = 0; last_success_at = some now; last_attempt_id = some a }

-- `record`
unfoldable pub record_outcome : AttemptOutcome → String → String → ErrorFile → Option ℕ × ErrorFile
unfolding counted is_attempt
record_outcome outcome a now f = elim (read f) [
  | none ↦ (none, f)
  | some s ↦
      if is_attempt s.last_attempt_id a
      then (some s.count, f)
      else (some (counted outcome a now s).count, holds (counted outcome a now s))
]

unfoldable pub state_or_zero : Option ConsecutiveErrorState → ConsecutiveErrorState
unfolding zero_state
state_or_zero none = zero_state
state_or_zero (some s) = s

-- `reset`, with the previous state as its result.
unfoldable pub reset : ErrorFile → ConsecutiveErrorState × ErrorFile
unfolding state_or_zero
reset f =
    let previous = state_or_zero (read f) in
    (
      previous,
      holds (record {
        count = 0;
        last_success_at = previous.last_success_at;
        last_attempt_id = previous.last_attempt_id;
      }),
    )

-- An outcome, the attempt that had it, and the time at which it is recorded.
pub record Ending : Type 0 where
  pub outcome : AttemptOutcome
  pub attempt_id : String
  pub time : String

unfoldable pub record_all : List Ending → ErrorFile → ErrorFile
record_all [] f = f
record_all (e ∷ es) f = record_all es (record_outcome e.outcome e.attempt_id e.time f).1

-- The length of the last unbroken run of infrastructure errors, where `n` came before the list.
unfoldable pub run_length : ℕ → List Ending → ℕ
unfolding is_infrastructure_error
run_length n [] = n
run_length n (e ∷ es) = run_length (if is_infrastructure_error e.outcome then n + 1 else 0) es

-- Neighbours in the list, and the first with what was recorded last, are different attempts.
abbrev pub Fresh : Option String → List Ending → Type 0
Fresh last [] = Unit
Fresh last (e ∷ es) = (is_attempt last e.attempt_id ≡ false) × Fresh (some e.attempt_id) es

record_fresh :
    (o : AttemptOutcome) (a now : String) (f : ErrorFile) (s : ConsecutiveErrorState)
    → read f ≡ some s
    → is_attempt s.last_attempt_id a ≡ false
    → record_outcome o a now f ≡ (some (counted o a now s).count, holds (counted o a now s))
unfolding record_outcome
record_fresh o a now f s h fresh = simp (h, fresh, record_outcome)

record_known :
    (o : AttemptOutcome) (a now : String) (f : ErrorFile) (s : ConsecutiveErrorState)
    → read f ≡ some s
    → is_attempt s.last_attempt_id a ≡ true
    → record_outcome o a now f ≡ (some s.count, f)
unfolding record_outcome
record_known o a now f s h known = simp (h, known, record_outcome)

counted-attempt :
    (o : AttemptOutcome) (a now : String) (s : ConsecutiveErrorState)
    → ((counted o a now s).last_attempt_id ≡ some a)
      × ((counted o a now s).count ≡ (if is_infrastructure_error o then s.count + 1 else 0))
unfolding counted
counted-attempt o a now s = ground arith

counted_is_known :
    (o : AttemptOutcome) (a now : String) (s : ConsecutiveErrorState)
    → is_attempt (counted o a now s).last_attempt_id a ≡ true
unfolding is_attempt
counted_is_known o a now s = rw ((counted-attempt o a now s).0, is_attempt) (text_eq_refl a)

-- From a readable state, the count is the length of the last unbroken run of infrastructure
-- errors, over any series of endings in which no two neighbours are the same attempt and the
-- first is not the one recorded last.
pub record_all-run_length :
    (es : List Ending) (f : ErrorFile) (s : ConsecutiveErrorState)
    → read f ≡ some s
    → Fresh s.last_attempt_id es
    → (state_or_zero (read (record_all es f))).count ≡ run_length s.count es
unfolding record_all run_length state_or_zero
record_all-run_length [] f s h fresh = rw (h, state_or_zero) refl
record_all-run_length (e ∷ es) f s h fresh =
    let next = counted e.outcome e.attempt_id e.time s in
    let known = counted-attempt e.outcome e.attempt_id e.time s in
    ap (λ (x : Option ℕ × ErrorFile). (state_or_zero (read (record_all es x.1))).count)
      (record_fresh e.outcome e.attempt_id e.time f s h fresh.0)
    ∙ record_all-run_length es (holds next) next (unfold read in refl)
        (subst (λ l. Fresh l es) (sym known.0) fresh.1)
    ∙ ap (λ n. run_length n es) known.1

-- On a readable state, an ending that is recorded again at once, as after a restart, counts once:
-- the second recording returns the same count and changes nothing.
pub record_outcome-twice :
    (o o' : AttemptOutcome) (a now now' : String) (f : ErrorFile) (s : ConsecutiveErrorState)
    → read f ≡ some s
    → record_outcome o' a now' (record_outcome o a now f).1 ≡ record_outcome o a now f
record_outcome-twice o o' a now now' f s h = elim (Bool-cases (is_attempt s.last_attempt_id a)) [
  | inl known ↦
      subst (λ x. record_outcome o' a now' x.1 ≡ x) (sym (record_known o a now f s h known))
        (record_known o' a now' f s h known)
  | inr fresh ↦
      let next = counted o a now s in
      subst (λ x. record_outcome o' a now' x.1 ≡ x) (sym (record_fresh o a now f s h fresh))
        (record_known o' a now' (holds next) next (unfold read in refl)
          (counted_is_known o a now s))
]

-- What a reset makes of a file.
abbrev pub cleared : ErrorFile → ConsecutiveErrorState
cleared (holds s) = record {
  count = 0;
  last_success_at = s.last_success_at;
  last_attempt_id = s.last_attempt_id;
}
cleared absent = record { count = 0; last_success_at = none; last_attempt_id = none }
cleared damaged = record { count = 0; last_success_at = none; last_attempt_id = none }

reset-cleared : (f : ErrorFile) → read (reset f).1 ≡ some (cleared f)
unfolding read reset state_or_zero zero_state
reset-cleared absent = refl
reset-cleared damaged = refl
reset-cleared (holds s) = refl

cleared-count : (f : ErrorFile) → (cleared f).count ≡ 0
cleared-count absent = refl
cleared-count damaged = refl
cleared-count (holds s) = refl

-- The reset always leads to a readable state with the count 0: of a stored state the last success
-- and the last attempt are kept, a missing or a damaged file is replaced by one with neither. The
-- ending recorded next then gives the count 1 if it is an infrastructure error of another attempt
-- than the last one that is kept, and otherwise 0.
pub reset-read :
    (f : ErrorFile) (o : AttemptOutcome) (a now : String)
    → (read (reset f).1 ≡ some (cleared f))
      × ((record_outcome o a now (reset f).1).0
          ≡ some (
              if is_infrastructure_error o && not (is_attempt (cleared f).last_attempt_id a)
              then 1
              else 0))
reset-read f o a now =
    let r = reset-cleared f in
    let z = cleared-count f in
    let reply : Option ℕ × ErrorFile → Option ℕ = λ x. x.0 in
    (
      r,
      elim (Bool-cases (is_attempt (cleared f).last_attempt_id a)) [
        | inl known ↦
            ap reply (record_known o a now (reset f).1 (cleared f) r known)
            ∙ ground (arith, z, known)
        | inr fresh ↦
            ap reply (record_fresh o a now (reset f).1 (cleared f) r fresh)
            ∙ ground (arith, z, fresh, (counted-attempt o a now (cleared f)).1)
      ],
    )
