-- ===== src/Scenarios/Finished.antt =====
-- The record of finalized attempts on a concrete file.
use simple_coding_agent.Base.{
  ◌≡◌, refl, true, false, ◌||◌, none, some, [], ◌∷◌, text_eq, is_blank, any,
}
use simple_coding_agent.Base.Options.{◌>>=◌}
use simple_coding_agent.Base.Number.{pos, positive}
use simple_coding_agent.Completion.Evidence.{AttemptOutcome}
use simple_coding_agent.Finalization.Completed.{
  AttemptCompletion, CompletedFile, absent, write_records, record_completion, is_finalized,
}
use simple_coding_agent.Finalization.Recorded.{record_completion-recorded}

abbrev first_done : AttemptCompletion
first_done = record {
  attempt_id = "2025-03-01T10:00:00Z";
  issue_number = 7;
  branch = "agent/issue-7";
  outcome = AttemptOutcome.complete;
  completed_at = "2025-03-01T11:00:00Z";
}

abbrev after_first : CompletedFile
after_first = write_records (first_done ∷ [])

first_recorded :
    record_completion "2025-03-01T10:00:00Z"
      (pos 7)
      "agent/issue-7"
      AttemptOutcome.complete
      (some "2025-03-01T11:00:00Z")
      absent
    ≡ some (true, after_first)
unfolding record_completion any positive is_blank
first_recorded = refl

id_present : text_eq "2025-03-01T10:00:00Z" "" ≡ false
unfolding text_eq
id_present = refl

time_present : text_eq "2025-03-01T11:00:00Z" "" ≡ false
unfolding text_eq
time_present = refl

record_completion-recorded_example :
    (is_finalized "2025-04-01T10:00:00Z" after_first ≡ (
      is_finalized "2025-04-01T10:00:00Z" absent >>= λ b.
      some (b || text_eq "2025-03-01T10:00:00Z" "2025-04-01T10:00:00Z")))
    × (record_completion "2025-03-01T10:00:00Z" (pos 8) "" AttemptOutcome.handoff none after_first
        ≡ some (false, after_first))
record_completion-recorded_example =
    record_completion-recorded "2025-03-01T10:00:00Z" "2025-04-01T10:00:00Z" (pos 7) (pos 8)
      "agent/issue-7" "" AttemptOutcome.complete AttemptOutcome.handoff
      (some "2025-03-01T11:00:00Z") none absent after_first true id_present time_present
      first_recorded
