-- ===== src/Attempt/Json.antt =====
-- The JSON form of a checkpoint: `_checkpoint_to_json` (simple_coding_agent/attempt_state.py, lines
-- 315-329) and `_checkpoint_from_json` (332-435). `none` is the `TypeError` or `ValueError` that
-- `read` turns into `AttemptStateError`. Whether `datetime.fromisoformat` accepts a text is the
-- parameter `is_iso`.
use simple_coding_agent.Base.Options.{◌>>=◌, ◌>>◌, guard}
use simple_coding_agent.Base.{
  ℕ, zero, suc, String, ◌<>◌, Bool, true, false, ◌&&◌, ◌||◌, Option, none, some, List, [], ◌∷◌,
  ◌++◌, if◌then◌else◌, text_eq, is_blank, has_space, member,
}
use simple_coding_agent.Base.Number.{ℤ, pos, positive}
use simple_coding_agent.Attempt.Types.{
  AttemptPhase, RequeueSource, AttemptKind, ordinary, AttemptCheckpoint, phase_value, read_phase,
  source_value, read_source, kind_value, read_kind,
}

-- The values of JSON, as far as the validation tells them apart: a float comes with the integer
-- that it equals, if there is one.
pub data Value : Type 0 where
  null : Value
  boolean : Bool → Value
  integer : ℤ → Value
  float : Option ℤ → Value
  text : String → Value
  compound : Value

pub data Document : Type 0 where
  object : List (String × Value) → Document
  other : Document

-- `value.get(key)`, and whether the key is there.
unfoldable pub get : String → List (String × Value) → Option Value
unfolding text_eq
get key [] = none
get key ((k, v) ∷ rest) = if text_eq k key then some v else get key rest

abbrev required_keys : List String
required_keys = "issue_number" ∷ "branch" ∷ "phase" ∷ "started_at" ∷ "updated_at" ∷ []

abbrev optional_keys : List String
optional_keys =
    "auto_merge_opt_in" ∷ "requeue_source" ∷ "issue_title" ∷ "continuation_index" ∷ "attempt_kind"
    ∷ "is_conflict_claim" ∷ "claim_branch_revision" ∷ "claim_lease_recorded" ∷ []

unfoldable pub has_keys : List String → List (String × Value) → Bool
unfolding text_eq get
has_keys [] entries = true
has_keys (k ∷ ks) entries = elim (get k entries) [ none ↦ false | some v ↦ has_keys ks entries ]

unfoldable pub only_keys : List String → List (String × Value) → Bool
unfolding text_eq member
only_keys ks [] = true
only_keys ks ((k, v) ∷ rest) = member k ks && only_keys ks rest

-- `_required <= keys <= (_required | _optional)`
unfoldable pub valid_shape : List (String × Value) → Bool
unfolding has_keys only_keys
valid_shape entries =
    has_keys required_keys entries && only_keys (required_keys ++ optional_keys) entries

unfoldable pub get_or : Value → Option Value → Value
get_or v none = v
get_or v (some w) = w

-- The checks of single fields; each is `none` where the source raises.
unfoldable pub as_issue_number : Value → Option ℕ
unfolding positive
as_issue_number (integer n) = positive n
as_issue_number _ = none

unfoldable pub as_branch : Value → Option String
as_branch (text s) = if is_blank s then none else some s
as_branch _ = none

unfoldable pub as_phase : Value → Option AttemptPhase
as_phase (text s) = read_phase s
as_phase _ = none

unfoldable pub as_bool : Value → Option Bool
as_bool (boolean b) = some b
as_bool _ = none

unfoldable pub as_source : Value → Option RequeueSource
as_source (text s) = read_source s
as_source _ = none

unfoldable pub as_title : Value → Option (Option String)
as_title null = some none
as_title (text s) = some (some s)
as_title _ = none

unfoldable pub as_index : Value → Option (Option ℕ)
as_index null = some none
as_index (integer (pos n)) = some (some n)
as_index _ = none

-- `value.get("is_conflict_claim", False) is True`
unfoldable pub legacy_kind : Option Value → AttemptKind
legacy_kind (some (boolean true)) = AttemptKind.conflict
legacy_kind _ = ordinary

unfoldable pub as_kind : Option Value → Value → Option AttemptKind
as_kind legacy null = some (legacy_kind legacy)
as_kind legacy (text s) = read_kind s
as_kind legacy _ = none

-- Python compares numbers with booleans: `1`, `1.0` and `True` are equal.
unfoldable pub is_zero_or_one : Option ℤ → Bool
is_zero_or_one (some (pos zero)) = true
is_zero_or_one (some (pos (suc zero))) = true
is_zero_or_one _ = false

unfoldable pub valid_conflict_claim : Option Value → Bool
valid_conflict_claim none = true
valid_conflict_claim (some (boolean b)) = true
valid_conflict_claim (some (integer n)) = is_zero_or_one (some n)
valid_conflict_claim (some (float n)) = is_zero_or_one n
valid_conflict_claim (some _) = false

unfoldable pub as_revision : Value → Option (Option String)
as_revision null = some none
as_revision (text s) = if is_blank s || has_space s then none else some (some s)
as_revision _ = none

unfoldable pub as_string : Value → Option String
as_string (text s) = some s
as_string _ = none

-- A text that ends in `Z`, without it.
unfoldable pub without_z : String → Option String
unfolding text_eq
without_z String.[] = none
without_z (String.◌∷◌ c s) =
    let rest = without_z s in
    if text_eq (String.◌∷◌ c s) "Z"
    then some ""
    else elim rest [ none ↦ none | some t ↦ some (String.◌∷◌ c t) ]

module _ (is_iso : String → Bool) where
  -- `_parse_timestamp`, for a text.
  unfoldable pub valid_timestamp : String → Bool
  unfolding without_z
  valid_timestamp s = elim (without_z s) [ none ↦ false | some t ↦ is_iso (t <> "+00:00") ]

  unfoldable pub as_timestamp : Value → Option String
  as_timestamp (text s) = if valid_timestamp s then some s else none
  as_timestamp _ = none

  -- The checkpoint of a JSON object. A revision without the flag is dropped.
  unfoldable pub checkpoint_of : List (String × Value) → Option AttemptCheckpoint
  checkpoint_of entries = do
    guard (valid_shape entries)
    issue_number ← as_issue_number (get_or null (get "issue_number" entries))
    branch ← as_branch (get_or null (get "branch" entries))
    phase ← as_phase (get_or null (get "phase" entries))
    started_at ← as_timestamp (get_or null (get "started_at" entries))
    updated_at ← as_timestamp (get_or null (get "updated_at" entries))
    opt_in ← as_bool (get_or (boolean false) (get "auto_merge_opt_in" entries))
    source ← as_source (get_or (text "human") (get "requeue_source" entries))
    title ← as_title (get_or null (get "issue_title" entries))
    index ← as_index (get_or null (get "continuation_index" entries))
    kind ← as_kind (get "is_conflict_claim" entries) (get_or null (get "attempt_kind" entries))
    guard (valid_conflict_claim (get "is_conflict_claim" entries))
    recorded ← as_bool (get_or (boolean false) (get "claim_lease_recorded" entries))
    revision ← as_revision (get_or null (get "claim_branch_revision" entries))
    some (record {
      issue_number = issue_number;
      branch = branch;
      phase = phase;
      started_at = started_at;
      updated_at = updated_at;
      auto_merge_opt_in = opt_in;
      requeue_source = source;
      issue_title = title;
      continuation_index = index;
      attempt_kind = kind;
      claim_branch_revision = if recorded then revision else none;
      claim_lease_recorded = recorded;
    })

  unfoldable pub checkpoint_from_json : Document → Option AttemptCheckpoint
  checkpoint_from_json (object entries) = checkpoint_of entries
  checkpoint_from_json other = none

unfoldable pub text_or_null : Option String → Value
text_or_null none = null
text_or_null (some s) = text s

unfoldable pub number_or_null : Option ℕ → Value
number_or_null none = null
number_or_null (some n) = integer (pos n)

unfoldable pub entries_of : AttemptCheckpoint → List (String × Value)
unfolding text_or_null number_or_null
entries_of c =
    ("issue_number", integer (pos c.issue_number))
    ∷ ("branch", text c.branch)
    ∷ ("phase", text (phase_value c.phase))
    ∷ ("started_at", text c.started_at)
    ∷ ("updated_at", text c.updated_at)
    ∷ ("auto_merge_opt_in", boolean c.auto_merge_opt_in)
    ∷ ("requeue_source", text (source_value c.requeue_source))
    ∷ ("issue_title", text_or_null c.issue_title)
    ∷ ("continuation_index", number_or_null c.continuation_index)
    ∷ ("attempt_kind", text (kind_value c.attempt_kind))
    ∷ ("claim_branch_revision", text_or_null c.claim_branch_revision)
    ∷ ("claim_lease_recorded", boolean c.claim_lease_recorded)
    ∷ []

unfoldable pub checkpoint_to_json : AttemptCheckpoint → Document
checkpoint_to_json c = object (entries_of c)
