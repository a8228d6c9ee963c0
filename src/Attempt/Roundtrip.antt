-- ===== src/Attempt/Roundtrip.antt =====
-- Writing a checkpoint as JSON and reading it back.
use mathlib.Core.Path.{subst}
use simple_coding_agent.Base.{
  String, ◌≡◌, Bool, false, Option, none, some, List, arith, text_eq, member,
}
use simple_coding_agent.Base.Options.{guard, >>=-holds}
use simple_coding_agent.Attempt.Types.{AttemptCheckpoint}
use simple_coding_agent.Attempt.Json.{
  Value, Document, object, other, get, get_or, has_keys, only_keys, valid_shape,
  valid_conflict_claim, as_bool, as_issue_number, as_branch, as_phase, as_timestamp, as_source,
  as_title, as_index, as_kind, as_revision, null, boolean, text, checkpoint_of,
  checkpoint_from_json, checkpoint_to_json, entries_of,
}
use simple_coding_agent.Attempt.Valid

-- A valid checkpoint survives being written and read: every field comes back.
pub checkpoint_from_json-checkpoint_to_json :
    (is_iso : String → Bool) (c : AttemptCheckpoint)
    → Valid.IsValid is_iso c
    → checkpoint_from_json is_iso (checkpoint_to_json c) ≡ some c
unfolding checkpoint_from_json checkpoint_to_json checkpoint_of entries_of valid_shape has_keys
    only_keys get get_or text_eq member valid_conflict_claim as_bool
checkpoint_from_json-checkpoint_to_json is_iso c v = simp (
  Valid.issue_number-value c.issue_number v.issue_number,
  Valid.branch-value c.branch v.branch,
  Valid.phase-value c.phase,
  Valid.timestamp-value is_iso c.started_at v.started_at,
  Valid.timestamp-value is_iso c.updated_at v.updated_at,
  Valid.source-value c.requeue_source,
  Valid.title-value c.issue_title,
  Valid.index-value c.continuation_index,
  Valid.kind-value none c.attempt_kind,
  Valid.revision-value c.claim_branch_revision c.claim_lease_recorded v.lease,
  Valid.revision-kept c.claim_branch_revision c.claim_lease_recorded v.lease,
)

abbrev ValidIfSome : (String → Bool) → Option AttemptCheckpoint → Type 0
ValidIfSome is_iso none = Unit
ValidIfSome is_iso (some c) = Valid.IsValid is_iso c

checkpoint_of-IsValid :
    (is_iso : String → Bool) (entries : List (String × Value))
    → ValidIfSome is_iso (checkpoint_of is_iso entries)
unfolding checkpoint_of
checkpoint_of-IsValid is_iso entries =
    >>=-holds (ValidIfSome is_iso) (guard (valid_shape entries)) _ tt (λ _ e_shape.
      >>=-holds (ValidIfSome is_iso) (as_issue_number (get_or null (get "issue_number" entries))) _
        tt
        (λ issue e_issue.
          >>=-holds (ValidIfSome is_iso) (as_branch (get_or null (get "branch" entries))) _ tt
            (λ branch e_branch.
              >>=-holds (ValidIfSome is_iso) (as_phase (get_or null (get "phase" entries))) _ tt
                (λ phase e_phase.
                  >>=-holds (ValidIfSome is_iso)
                    (as_timestamp is_iso (get_or null (get "started_at" entries))) _ tt
                    (λ started e_started.
                      >>=-holds (ValidIfSome is_iso)
                        (as_timestamp is_iso (get_or null (get "updated_at" entries))) _ tt
                        (λ updated e_updated.
                          >>=-holds (ValidIfSome is_iso)
                            (as_bool (get_or (boolean false) (get "auto_merge_opt_in" entries))) _
                            tt
                            (λ opt_in e_opt_in.
                              >>=-holds (ValidIfSome is_iso)
                                (as_source (get_or (text "human") (get "requeue_source" entries))) _
                                tt
                                (λ source e_source.
                                  >>=-holds (ValidIfSome is_iso)
                                    (as_title (get_or null (get "issue_title" entries))) _ tt
                                    (λ title e_title.
                                      >>=-holds (ValidIfSome is_iso)
                                        (as_index (get_or null (get "continuation_index" entries)))
                                        _ tt
                                        (λ index e_index.
                                          >>=-holds (ValidIfSome is_iso)
                                            (as_kind (get "is_conflict_claim" entries)
                                              (get_or null (get "attempt_kind" entries)))
                                            _ tt
                                            (λ kind e_kind.
                                              >>=-holds (ValidIfSome is_iso)
                                                (guard (
                                                  valid_conflict_claim
                                                    (get "is_conflict_claim" entries)))
                                                _ tt
                                                (λ _ e_claim.
                                                  >>=-holds (ValidIfSome is_iso)
                                                    (as_bool (
                                                      get_or (boolean false)
                                                        (get "claim_lease_recorded" entries)))
                                                    _ tt
                                                    (λ recorded e_recorded.
                                                      >>=-holds (ValidIfSome is_iso)
                                                        (as_revision (
                                                          get_or null
                                                            (get "claim_branch_revision" entries)))
                                                        _ tt
                                                        (λ revision e_revision. record {
                                                          issue_number =
                                                            Valid.issue_number-pos _ issue e_issue;
                                                          branch =
                                                            Valid.branch-not_blank _ branch
                                                            e_branch;
                                                          started_at =
                                                            Valid.timestamp-valid is_iso _ started
                                                            e_started;
                                                          updated_at =
                                                            Valid.timestamp-valid is_iso _ updated
                                                            e_updated;
                                                          lease =
                                                            Valid.revision-valid _ revision recorded
                                                            e_revision;
                                                        }))))))))))))))

-- Whatever is read is valid: a positive issue, a branch, two timestamps, and a claim revision only
-- where it was recorded.
pub checkpoint_from_json-IsValid :
    (is_iso : String → Bool) (d : Document) (c : AttemptCheckpoint)
    → checkpoint_from_json is_iso d ≡ some c
    → Valid.IsValid is_iso c
unfolding checkpoint_from_json
checkpoint_from_json-IsValid is_iso (object entries) c h =
    subst (ValidIfSome is_iso) h (checkpoint_of-IsValid is_iso entries)
checkpoint_from_json-IsValid is_iso other c h = absurd (ground arith)
