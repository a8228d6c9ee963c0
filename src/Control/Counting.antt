-- ===== src/Control/Counting.antt =====
-- How often an attempt is counted (`record_attempt_finalized`), over any run of control.py's methods.
use simple_coding_agent.Base.{
  ℕ, ◌+◌, String, ◌≡◌, ◌⊎◌, false, List, [], ◌∷◌, ◌++◌, if◌then◌else◌, text_eq,
}
use simple_coding_agent.Control.Types.{CountedAttempt}
use simple_coding_agent.Control.Countdown.{is_counted}

-- The table after one method: as it was, or longer by the row of an attempt that it did not have.
abbrev Counts : List CountedAttempt → List CountedAttempt → Type 0
Counts xs ys =
    (ys ≡ xs) ⊎ ((x : CountedAttempt) × (is_counted x.attempt_id xs ≡ false) × (ys ≡ xs ++ x ∷ []))

-- How many rows the attempt has among those counted.
abbrev pub times_counted : String → List CountedAttempt → ℕ
times_counted a [] = 0
times_counted a (x ∷ xs) =
    let rest = times_counted a xs in if text_eq x.attempt_id a then rest + 1 else rest
