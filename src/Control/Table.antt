-- ===== src/Control/Table.antt =====
-- The SQL statements of control.py over the table `commands`, and the private helpers that read and
-- write the one row of `control_state` (lines 1803-2056). The table is a list in the order of its
-- insertions, which is the order of its sequence numbers (Control/Order), so that
-- `ORDER BY sequence` selects in the order of the list.
use simple_coding_agent.Base.{
  ℕ, ◌+◌, String, ◌<>◌, Bool, false, ◌&&◌, ◌||◌, not, Option, none, some, List, [], ◌∷◌, ◌++◌, map,
  if◌then◌else◌, leb, select, is_empty, join, text_eq, is_blank, count_chars,
}
use simple_coding_agent.Control.Types.{
  IntakeState, Acknowledgement, Kind, Payload, HandoffPhase, Result, ok, err, request_id_error,
  payload_mismatch_error, Command, ControlStore, superseded, is_accepted, same_kind, same_payload,
}

-- `SELECT … FROM commands WHERE request_id = ?`
unfoldable pub find : String → List Command → Option Command
find r [] = none
find r (c ∷ cs) = if text_eq c.request_id r then some c else find r cs

-- The effect of `UPDATE commands SET acknowledgement = ?, detail = ?, updated_at = ? WHERE …` on a
-- row, and on the table.
unfoldable pub touch : (Command → Bool) → Acknowledgement → String → String → Command → Command
touch p a d t c = if p c then record c { acknowledgement = a; detail = d; updated_at = t } else c

unfoldable pub update :
    (Command → Bool) → Acknowledgement → String → String → List Command → List Command
update p a d t [] = []
update p a d t (c ∷ cs) = touch p a d t c ∷ update p a d t cs

unfoldable pub has_kind : List Kind → Kind → Bool
unfolding same_kind
has_kind [] k = false
has_kind (j ∷ ks) k = same_kind k j || has_kind ks k

-- `kind IN (…) AND acknowledgement = 'accepted'`
unfoldable pub is_plan_of : List Kind → Command → Bool
unfolding has_kind is_accepted
is_plan_of ks c = has_kind ks c.kind && is_accepted c.acknowledgement

-- `request_id = ?`, and the same `AND acknowledgement = 'accepted'`
unfoldable pub has_id : String → Command → Bool
has_id r c = text_eq c.request_id r

unfoldable pub has_id_accepted : String → Command → Bool
unfolding is_accepted
has_id_accepted r c = text_eq c.request_id r && is_accepted c.acknowledgement

-- `SELECT COALESCE(MAX(sequence), 0) FROM commands`
unfoldable pub max_sequence : List Command → ℕ
max_sequence [] = 0
max_sequence (c ∷ cs) =
    let rest = max_sequence cs in if leb c.sequence rest then rest else c.sequence

unfoldable pub ids : List Command → List String
ids = map (λ c. c.request_id)

unfoldable pub accepted_plans_of_kinds : List Kind → ControlStore → List String
accepted_plans_of_kinds ks s = ids (select (is_plan_of ks) s.commands)

-- `_supersede_plans_locked` after its selection. With nothing selected the statement, which the
-- source then skips, touches no row.
unfoldable pub supersede_plans : List Kind → String → String → ControlStore → ControlStore
supersede_plans ks r t s = record s {
  commands = update (is_plan_of ks) superseded ("superseded by " <> r) t s.commands;
}

unfoldable pub plan_suffix : List String → String
plan_suffix superseded_ids =
    if is_empty superseded_ids then "" else "; stop plan " <> (join superseded_ids <> " superseded")

unfoldable pub new_command :
    String → Kind → Payload → Acknowledgement → String → String → List Command → Command
new_command r k p a d t cs = record {
  request_id = r;
  sequence = max_sequence cs + 1;
  kind = k;
  payload = p;
  acknowledgement = a;
  detail = d;
  created_at = t;
  updated_at = t;
}

-- `_insert_locked`
unfoldable pub insert :
    String
    → Kind
    → Payload
    → Acknowledgement
    → String
    → String
    → ControlStore
    → Command × ControlStore
insert r k p a d t s =
    let c = new_command r k p a d t s.commands in (c, record s { commands = s.commands ++ c ∷ [] })

unfoldable pub set_intake : IntakeState → Option String → ControlStore → ControlStore
set_intake i p s = record s { intake = i; pending = p }

unfoldable pub set_stop_plan : ℕ → ℕ → Option String → ControlStore → ControlStore
set_stop_plan requested remaining active s = record s {
  stop_after_requested = some requested;
  stop_after_remaining = some remaining;
  stop_after_active_attempt_id = active;
  latest_counted_attempt_id = none;
  latest_counted_outcome = none;
}

unfoldable pub clear_stop_plan : ControlStore → ControlStore
clear_stop_plan s = record s {
  stop_after_requested = none;
  stop_after_remaining = none;
  stop_after_active_attempt_id = none;
}

unfoldable pub set_handoff :
    Option String → Option String → Bool → Option HandoffPhase → ControlStore → ControlStore
set_handoff r at begun phase s = record s {
  handoff_request_id = r;
  handoff_accepted_at = at;
  handoff_begun = begun;
  handoff_phase = phase;
}

-- Whether `r` names a command that is still accepted.
unfoldable pub still_accepted : String → ControlStore → Bool
unfolding is_accepted
still_accepted r s = elim (find r s.commands) [
  | none ↦ false
  | some c ↦ is_accepted c.acknowledgement
]

-- `_handoff_begun_locked`
unfoldable pub handoff_begun_locked : ControlStore → Bool
handoff_begun_locked s = elim s.handoff_request_id [
  | none ↦ false
  | some r ↦ still_accepted r s && s.handoff_begun
]

unfoldable pub names : Option String → String → Bool
names none r = false
names (some h) r = text_eq h r

-- `_is_tracked_handoff_locked`
unfoldable pub is_tracked_handoff : String → ControlStore → Bool
is_tracked_handoff r s = names s.handoff_request_id r && still_accepted r s

-- `_check_request_id`
unfoldable pub valid_request_id : String → Bool
valid_request_id r = not (is_blank r) && leb (count_chars r) 128

-- `_ensure_payload_identical` and the return of the stored record, for a request ID that is known.
unfoldable pub stored_reply : Kind → Payload → Command → Result Command
unfolding same_kind same_payload
stored_reply k p c =
    if same_kind c.kind k && same_payload c.payload p then ok c else err payload_mismatch_error

-- The prologue of every `submit_*`: the request ID is checked, then looked up; only a fresh one
-- reaches the rest of the method.
unfoldable pub admit :
    String
    → Kind
    → Payload
    → (ControlStore → Result Command × ControlStore)
    → ControlStore
    → Result Command × ControlStore
admit r k p body s =
    if valid_request_id r
    then elim (find r s.commands) [ none ↦ body s | some c ↦ (stored_reply k p c, s) ]
    else (err request_id_error, s)
