-- ===== src/Control/Priority.antt =====
-- The one-shot priority of `next issue`: `parse_next_issue` (control.py, lines 199-214),
-- `submit_next_issue` (593-664), `next_issue_snapshot` (973-984), `complete_next_issue` (986-1034)
-- and `fail_next_issue` (1036-1084).
use simple_coding_agent.Base.{
  ℕ, String, ◌<>◌, Option, none, some, ◌==◌, if◌then◌else◌, is_blank, strip, show_ℕ,
}
use simple_coding_agent.Base.Number.{PyValue, integer_of, positive}
use simple_coding_agent.Control.Types.{
  Clock, issue, Result, ok, err, next_issue_rejected_error, control_store_error, request_id_error,
  Command, ControlStore, next_issue, superseded, not_fulfilled,
}
use simple_coding_agent.Control.Types.{Acknowledgement}
use simple_coding_agent.Control.Table.{
  find, update, has_id_accepted, insert, valid_request_id, admit,
}

-- `none` is `NextIssueRejectedError`.
unfoldable pub parse_next_issue : PyValue → Option ℕ
parse_next_issue v = elim (integer_of v) [ none ↦ none | some n ↦ positive n ]

-- `_next_issue_locked`: the pending priority, if both columns hold a value.
unfoldable pub pair_of : Option ℕ → Option String → Option (ℕ × String)
pair_of none request = none
pair_of (some n) none = none
pair_of (some n) (some r) = some (n, r)

unfoldable pub next_issue_locked : ControlStore → Option (ℕ × String)
unfolding pair_of
next_issue_locked s = pair_of s.next_issue_number s.next_issue_request_id

unfoldable pub set_priority : Option ℕ → Option String → ControlStore → ControlStore
set_priority n r s = record s { next_issue_number = n; next_issue_request_id = r }

-- The earlier priority becomes superseded.
unfoldable pub supersede_priority :
    Option (ℕ × String) → String → String → ControlStore → ControlStore
supersede_priority none r t s = s
supersede_priority (some (n, earlier)) r t s = record s {
  commands = update (has_id_accepted earlier) superseded ("superseded by " <> r) t s.commands;
}

unfoldable pub priority_detail : ℕ → Option (ℕ × String) → String
priority_detail n none = "next issue #" <> (show_ℕ n <> " prioritized for the next permitted claim")
priority_detail n (some (m, earlier)) =
    "next issue #"
    <> (show_ℕ n
        <> (" prioritized for the next permitted claim; supersedes "
            <> (earlier <> (" (was #" <> (show_ℕ m <> ")")))))

unfoldable pub next_issue_body : String → ℕ → Clock → ControlStore → Result Command × ControlStore
unfolding insert set_priority
next_issue_body r n now s =
    let current = next_issue_locked s in
    let s₁ = supersede_priority current r (now 0) s in
    let (c, s₂) =
      insert r next_issue (issue n) Acknowledgement.accepted (priority_detail n current) (now 1)
        s₁ in
    (ok c, set_priority (some n) (some r) s₂)

unfoldable pub submit_next_issue :
    String → PyValue → Clock → ControlStore → Result Command × ControlStore
submit_next_issue r value now s =
    if valid_request_id r
    then elim (parse_next_issue value) [
      | none ↦ (err next_issue_rejected_error, s)
      | some n ↦ admit r next_issue (issue n) (next_issue_body r n now) s
    ]
    else (err request_id_error, s)

unfoldable pub next_issue_snapshot : ControlStore → Option (ℕ × String)
next_issue_snapshot s = next_issue_locked s

unfoldable pub found_or_error : Option Command → Result (Option Command)
found_or_error none = err control_store_error
found_or_error (some c) = ok (some c)

-- The pending priority ends: its command gets the acknowledgement and the priority is cleared.
-- Without its row the transaction has committed and the method raises.
unfoldable pub settle_priority :
    String
    → Acknowledgement
    → String
    → String
    → ControlStore
    → Result (Option Command) × ControlStore
unfolding found_or_error set_priority
settle_priority r a detail t s =
    let commands = update (has_id_accepted r) a detail t s.commands in
    (found_or_error (find r commands), set_priority none none (record s { commands = commands }))

unfoldable pub complete_next_issue :
    ℕ → Clock → ControlStore → Result (Option Command) × ControlStore
complete_next_issue claimed now s = elim (next_issue_locked s) [
  | none ↦ (ok none, s)
  | some (n, r) ↦
      if n == claimed
      then settle_priority r Acknowledgement.completed
          ("claimed issue #" <> (show_ℕ claimed <> " as the prioritized next issue")) (now 0) s
      else (ok none, s)
]

unfoldable pub fail_next_issue :
    String → Clock → ControlStore → Result (Option Command) × ControlStore
fail_next_issue reason now s =
    if is_blank reason then (err control_store_error, s) else elim (next_issue_locked s) [
      | none ↦ (ok none, s)
      | some (n, r) ↦
          settle_priority r not_fulfilled
            ("next issue #" <> (show_ℕ n <> (" not fulfilled: " <> strip reason))) (now 0) s
    ]
