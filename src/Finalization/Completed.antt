-- ===== src/Finalization/Completed.antt =====
-- The record of finalized attempts (simple_coding_agent/finalization.py, lines 20-170). The object of
-- the file is the list of its entries; their order, which the writing sorts, is not modelled. Writing
-- is taken to succeed. `none` as the time is a clock without a timezone.
use simple_coding_agent.Base.{
  ℕ, String, Bool, true, false, ◌&&◌, not, Option, none, some, List, [], ◌∷◌, ◌++◌, if◌then◌else◌,
  text_eq, is_blank, any,
}
use simple_coding_agent.Base.Options.{◌>>=◌, ◌>>◌, guard}
use simple_coding_agent.Base.Number.{ℤ, pos, positive}
use simple_coding_agent.Attempt.Json.{
  Value, null, integer, text, get, get_or, has_keys, only_keys, as_issue_number, as_branch,
}
use simple_coding_agent.Completion.Evidence.{AttemptOutcome}

pub record AttemptCompletion : Type 0 where
  pub attempt_id : String
  pub issue_number : ℕ
  pub branch : String
  pub outcome : AttemptOutcome
  pub completed_at : String

pub data Entry : Type 0 where
  fields : List (String × Value) → Entry
  not_object : Entry

-- `completed_attempts.json`; `malformed` is no JSON, or no object.
pub data CompletedFile : Type 0 where
  absent unreadable malformed : CompletedFile
  completed : List (String × Entry) → CompletedFile

unfoldable pub outcome_value : AttemptOutcome → String
outcome_value AttemptOutcome.complete = "complete"
outcome_value AttemptOutcome.incomplete = "incomplete"
outcome_value AttemptOutcome.infrastructure_error = "infrastructure_error"
outcome_value AttemptOutcome.no_changes = "no_changes"
outcome_value AttemptOutcome.handoff = "handoff"

-- `AttemptOutcome(outcome)`; `none` is `ValueError`.
unfoldable pub read_outcome : String → Option AttemptOutcome
unfolding text_eq
read_outcome s =
    if text_eq s "complete"
    then some AttemptOutcome.complete
    else if text_eq s "incomplete"
    then some AttemptOutcome.incomplete
    else if text_eq s "infrastructure_error"
    then some AttemptOutcome.infrastructure_error
    else if text_eq s "no_changes"
    then some AttemptOutcome.no_changes
    else if text_eq s "handoff"
    then some AttemptOutcome.handoff
    else none

unfoldable pub as_outcome : Value → Option AttemptOutcome
unfolding read_outcome
as_outcome (text s) = read_outcome s
as_outcome _ = none

unfoldable pub as_completed_at : Value → Option String
as_completed_at (text s) = if text_eq s "" then none else some s
as_completed_at _ = none

abbrev pub completion_keys : List String
completion_keys = "issue_number" ∷ "branch" ∷ "outcome" ∷ "completed_at" ∷ []

-- `_completion_from_json`
unfoldable pub completion_from_json : String → Entry → Option AttemptCompletion
unfolding as_outcome as_completed_at
completion_from_json id not_object = none
completion_from_json id (fields entries) = do
  guard (not (text_eq id ""))
  guard (has_keys completion_keys entries && only_keys completion_keys entries)
  issue_number ← as_issue_number (get_or null (get "issue_number" entries))
  branch ← as_branch (get_or null (get "branch" entries))
  completed_at ← as_completed_at (get_or null (get "completed_at" entries))
  outcome ← as_outcome (get_or null (get "outcome" entries))
  some (record {
    attempt_id = id;
    issue_number = issue_number;
    branch = branch;
    outcome = outcome;
    completed_at = completed_at;
  })

-- The entry that `_write` writes.
unfoldable pub completion_to_json : AttemptCompletion → Entry
unfolding outcome_value
completion_to_json c = fields (
    ("issue_number", integer (pos c.issue_number))
    ∷ ("branch", text c.branch)
    ∷ ("outcome", text (outcome_value c.outcome))
    ∷ ("completed_at", text c.completed_at)
    ∷ [])

-- The loop of `_read`.
unfoldable pub read_entries : List (String × Entry) → Option (List AttemptCompletion)
unfolding completion_from_json
read_entries [] = some []
read_entries ((id, entry) ∷ entries) = do
  completion ← completion_from_json id entry
  rest ← read_entries entries
  some (completion ∷ rest)

-- `_read`; `none` is `CompletionStoreError`.
unfoldable pub read_records : CompletedFile → Option (List AttemptCompletion)
unfolding read_entries
read_records absent = some []
read_records unreadable = none
read_records malformed = none
read_records (completed entries) = read_entries entries

unfoldable pub written_entries : List AttemptCompletion → List (String × Entry)
unfolding completion_to_json
written_entries [] = []
written_entries (c ∷ cs) = (c.attempt_id, completion_to_json c) ∷ written_entries cs

unfoldable pub write_records : List AttemptCompletion → CompletedFile
unfolding written_entries
write_records records = completed (written_entries records)

unfoldable pub has_record : String → List AttemptCompletion → Bool
has_record id records = any (λ c. text_eq c.attempt_id id) records

unfoldable pub is_finalized : String → CompletedFile → Option Bool
unfolding read_records has_record
is_finalized id file = read_records file >>= λ records. some (has_record id records)

unfoldable pub new_completion :
    String → ℤ → String → AttemptOutcome → Option String → Option AttemptCompletion
new_completion id issue_number branch outcome now = do
  n ← positive issue_number
  guard (not (is_blank branch))
  completed_at ← now
  some (record {
    attempt_id = id;
    issue_number = n;
    branch = branch;
    outcome = outcome;
    completed_at = completed_at;
  })

-- What `record` does with the records read: false if the attempt is there, else the file anew.
unfoldable pub record_among :
    List AttemptCompletion
    → String
    → ℤ
    → String
    → AttemptOutcome
    → Option String
    → CompletedFile
    → Option (Bool × CompletedFile)
unfolding has_record new_completion write_records
record_among records id issue_number branch outcome now file =
    if has_record id records
    then some (false, file)
    else (new_completion id issue_number branch outcome now >>= λ c.
        some (true, write_records (records ++ c ∷ [])))

-- `record`; `none` is `CompletionStoreError`, with the file as it was.
unfoldable pub record_completion :
    String
    → ℤ
    → String
    → AttemptOutcome
    → Option String
    → CompletedFile
    → Option (Bool × CompletedFile)
unfolding record_among read_records
record_completion id issue_number branch outcome now file =
    read_records file >>= λ records. record_among records id issue_number branch outcome now file
