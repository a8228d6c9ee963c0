-- ===== src/Scenarios/Attempts.antt =====
-- The attempt checkpoint on concrete inputs: a clock that prints two times, and an attempt on issue 7.
use simple_coding_agent.Base.{
  ℕ, ◌+◌, String, ◌≡◌, refl, ◌≢◌, inl, inr, Bool, true, false, ◌||◌, none, some, [], ◌∷◌, arith,
  ◌==◌, if◌then◌else◌, Bool-cases, text_eq, is_blank, is_space, has_space, member,
}
use simple_coding_agent.Base.Number.{pos, positive}
use simple_coding_agent.Attempt.Types
use simple_coding_agent.Attempt.Types.{
  AttemptPhase, claimed, setup, pushing, AttemptCheckpoint, human, ordinary, next_phase,
}
use simple_coding_agent.Attempt.Json
use simple_coding_agent.Attempt.Valid.{IsValid}
use simple_coding_agent.Attempt.Store
use simple_coding_agent.Attempt.Roundtrip.{
  checkpoint_from_json-checkpoint_to_json, checkpoint_from_json-IsValid,
}
use simple_coding_agent.Attempt.Writing.{Wrote, new_attempt, start-Wrote}
use simple_coding_agent.Attempt.Lifecycle.{
  position, transition-Wrote, transition-refused, record_claim_lease-Wrote,
  record_claim_lease-first,
}

-- What the date library accepts and prints here.
abbrev is_iso : String → Bool
is_iso s = text_eq s "2026-01-01T12:00:00+00:00" || text_eq s "2026-01-01T12:00:01+00:00"

abbrev iso : ℕ → String
iso t = if t == 0 then "2026-01-01T12:00:00Z" else "2026-01-01T12:00:01Z"

iso_printed : (t : ℕ) → Json.valid_timestamp is_iso (iso t) ≡ true
unfolding Json.valid_timestamp Json.without_z text_eq
iso_printed t = elim (Bool-cases (t == 0)) [ inl h ↦ rw h refl | inr h ↦ rw h refl ]

abbrev seven : AttemptCheckpoint
seven = record {
  issue_number = 7;
  branch = "agent/issue-7";
  phase = claimed;
  started_at = "2026-01-01T12:00:00Z";
  updated_at = "2026-01-01T12:00:00Z";
  auto_merge_opt_in = true;
  requeue_source = human;
  issue_title = some "Seven";
  continuation_index = none;
  attempt_kind = ordinary;
  claim_branch_revision = none;
  claim_lease_recorded = false;
}

seven-IsValid : IsValid is_iso seven
unfolding Json.valid_timestamp Json.without_z text_eq is_blank is_space
seven-IsValid = record {
  issue_number = omega arith;
  branch = refl;
  started_at = refl;
  updated_at = refl;
  lease = tt;
}

checkpoint_from_json-checkpoint_to_json_example :
    Json.checkpoint_from_json is_iso (Json.checkpoint_to_json seven) ≡ some seven
checkpoint_from_json-checkpoint_to_json_example =
    checkpoint_from_json-checkpoint_to_json is_iso seven seven-IsValid

-- A checkpoint of the oldest form, with the five required keys alone.
abbrev old_document : Json.Document
old_document = Json.object (
    ("issue_number", Json.integer (pos 7))
    ∷ ("branch", Json.text "agent/issue-7")
    ∷ ("phase", Json.text "claimed")
    ∷ ("started_at", Json.text "2026-01-01T12:00:00Z")
    ∷ ("updated_at", Json.text "2026-01-01T12:00:00Z")
    ∷ [])

abbrev old_checkpoint : AttemptCheckpoint
old_checkpoint = record seven { auto_merge_opt_in = false; issue_title = none }

old_document_read : Json.checkpoint_from_json is_iso old_document ≡ some old_checkpoint
unfolding Json.checkpoint_from_json Json.checkpoint_of Json.valid_shape Json.has_keys Json.only_keys
    Json.get Json.get_or Json.as_issue_number positive Json.as_branch Json.as_phase Types.read_phase
    Json.as_timestamp Json.valid_timestamp Json.without_z Json.as_bool Json.as_source
    Types.read_source Json.as_title Json.as_index Json.as_kind Json.legacy_kind Types.read_kind
    Json.valid_conflict_claim Json.as_revision text_eq member is_blank is_space
old_document_read = refl

checkpoint_from_json-IsValid_example : IsValid is_iso old_checkpoint
checkpoint_from_json-IsValid_example =
    checkpoint_from_json-IsValid is_iso old_document old_checkpoint old_document_read

abbrev holding : AttemptCheckpoint → Store.AttemptStateStore
holding c = record { file = Store.parsed (Json.checkpoint_to_json c); last_timestamp = some 0 }

active-seven : Store.active is_iso iso (holding seven) ≡ some seven
unfolding Store.active Store.read Store.read_file
active-seven =
    rw (checkpoint_from_json-checkpoint_to_json is_iso seven seven-IsValid, Store.read_file) refl

claimed_then_setup : position setup ≡ position seven.phase + 1
claimed_then_setup = omega arith

transition-Wrote_example :
    Wrote is_iso iso
      (λ t. record seven { phase = setup; updated_at = t })
      (holding seven)
      (Store.transition is_iso iso setup (some 0) (holding seven))
transition-Wrote_example =
    transition-Wrote is_iso iso iso_printed setup seven 0 (holding seven) active-seven
      claimed_then_setup

claimed_not_pushing : position pushing ≢ position seven.phase + 1
claimed_not_pushing e = absurd (omega arith)

transition-refused_example :
    Store.transition is_iso iso pushing (some 0) (holding seven) ≡ (none, holding seven)
transition-refused_example =
    transition-refused is_iso iso pushing seven (some 0) (holding seven) active-seven
      claimed_not_pushing

revision_valid : Store.valid_revision (some "abc123") ≡ true
unfolding Store.valid_revision is_blank has_space is_space
revision_valid = refl

no_revision_valid : Store.valid_revision none ≡ true
unfolding Store.valid_revision
no_revision_valid = refl

record_claim_lease-Wrote_example :
    Wrote is_iso iso
      (λ t. record seven {
        updated_at = t;
        claim_branch_revision = some "abc123";
        claim_lease_recorded = true;
      })
      (holding seven)
      (Store.record_claim_lease is_iso iso (some "abc123") (some 0) (holding seven))
record_claim_lease-Wrote_example =
    record_claim_lease-Wrote is_iso iso iso_printed (some "abc123") seven 0 (holding seven)
      active-seven refl revision_valid

record_claim_lease-first_example :
    let out = Store.record_claim_lease is_iso iso (some "abc123") (some 0) (holding seven) in
    Store.record_claim_lease is_iso iso none (some 5) out.1 ≡ out
record_claim_lease-first_example =
    record_claim_lease-first is_iso iso iso_printed (some "abc123") none seven 0 (some 5)
      (holding seven) active-seven revision_valid no_revision_valid

abbrev arguments : Store.StartArguments
arguments = record {
  issue_number = pos 7;
  branch = "agent/issue-7";
  auto_merge_opt_in = true;
  requeue_source = "human";
  issue_title = some "Seven";
  continuation_index = none;
  attempt_kind = "ordinary";
}

abbrev no_attempt : Store.AttemptStateStore
no_attempt = record { file = Store.absent; last_timestamp = none }

nothing_active : Store.read is_iso iso no_attempt ≡ some none
unfolding Store.read Store.read_file
nothing_active = refl

branch_given : is_blank "agent/issue-7" ≡ false
unfolding is_blank is_space
branch_given = refl

from_human : "human" ≡ Types.source_value human
unfolding Types.source_value
from_human = refl

of_ordinary_kind : "ordinary" ≡ Types.kind_value ordinary
unfolding Types.kind_value
of_ordinary_kind = refl

start-Wrote_example :
    Wrote is_iso iso
      (new_attempt arguments 7 human none ordinary)
      no_attempt
      (Store.start is_iso iso arguments (some 0) no_attempt)
start-Wrote_example =
    start-Wrote is_iso iso iso_printed arguments 6 human none ordinary 0 no_attempt nothing_active
      refl branch_given from_human refl of_ordinary_kind
