-- ===== src/Control/Effects.antt =====
-- The effect on the table `commands` of every writing method of control.py.
use simple_coding_agent.Base.{
  ℕ, String, ◌≡◌, refl, Bool, true, false, ◌||◌, Option, none, some, inl, inr, List, [], ◌∷◌, arith,
  if◌then◌else◌, ◌==◌, leb, is_blank, strip, Bool-cases, Option-cases,
}
use simple_coding_agent.Control.Types.{
  Clock, Acknowledgement, HandoffPhase, Kind, ok, Command, ControlStore, is_accepted, initialize,
  not_fulfilled, stop, same_kind,
}
use simple_coding_agent.Control.Table.{find, has_id, set_intake, is_tracked_handoff, names}
use simple_coding_agent.Control.History.{
  Successor, Evolves, unchanged, updated, inserted, Distinct, Ascending, Evolves-Successor,
  is_plan_of-OnlyAccepted, has_id_accepted-OnlyAccepted, has_id-OnlyAccepted,
}
use simple_coding_agent.Control.Order.{Evolves-Distinct, Evolves-Ascending}
use simple_coding_agent.Control.Stop.{
  complete_plain_stops, complete_stop_named, complete_pending_stop,
}
use simple_coding_agent.Control.Countdown.{
  record_attempt_finalized, stop_without_plan, count_against_plan, count_attempt, finish_countdown,
  is_counted, enter_stopping_for_final_claim,
}
use simple_coding_agent.Control.Priority.{
  complete_next_issue, fail_next_issue, settle_priority, next_issue_locked,
}
use simple_coding_agent.Control.Handoff.{
  mark_handoff_delivering, mark_handoff_begun, complete_handoff, fail_handoff, end_handoff,
  settle_handoff, set_final_phase, complete_waiting_stops,
}
use simple_coding_agent.Control.Recovery.{
  complete_recovery_command, fail_recovery_command, settle_recovery,
}
use simple_coding_agent.Control.Events.{
  Event, submission, pending_stop_completed, attempt_finalized, final_claim_entered,
  next_issue_completed, next_issue_failed, handoff_delivering, handoff_begins, handoff_completed,
  handoff_failed, recovery_completed, recovery_failed, apply, apply_all,
}
use simple_coding_agent.Control.Replay.{submit-Evolves}

completed_final : is_accepted Acknowledgement.completed ≡ false
unfolding is_accepted
completed_final = refl

not_fulfilled_final : is_accepted not_fulfilled ≡ false
unfolding is_accepted
not_fulfilled_final = refl

Evolves-if :
    {cs : List Command} (b : Bool) (x y : ControlStore)
    → Evolves cs x.commands
    → Evolves cs y.commands
    → Evolves cs (if b then x else y).commands
Evolves-if true x y hx hy = hx
Evolves-if false x y hx hy = hy

Evolves-if_reply {ℓ} :
    {A : Type ℓ} {cs : List Command} (b : Bool) (x y : A × ControlStore)
    → Evolves cs x.1.commands
    → Evolves cs y.1.commands
    → Evolves cs (if b then x else y).1.commands
Evolves-if_reply true x y hx hy = hx
Evolves-if_reply false x y hx hy = hy

-- The events other than submissions.
module _ (now : Clock) (s : ControlStore) where
  complete_plain_stops-Evolves : Evolves s.commands (complete_plain_stops now s).1.commands
  unfolding complete_plain_stops
  complete_plain_stops-Evolves =
      updated _ _ _ _ unchanged (is_plan_of-OnlyAccepted (stop ∷ []) s.commands) completed_final

  complete_stop_named-Evolves :
      (p : String) → Evolves s.commands (complete_stop_named p now s).1.commands
  unfolding complete_stop_named
  complete_stop_named-Evolves p = elim (Option-cases (find p s.commands)) [
    | inl h ↦ rw (h, complete_stop_named) unchanged
    | inr (c, h) ↦
        rw (h, complete_stop_named)
          (Evolves-if_reply _ (complete_plain_stops now s) (ok [], s) complete_plain_stops-Evolves
            unchanged)
  ]

  settle_priority-Evolves :
      (r : String) (a : Acknowledgement) (d t : String)
      → is_accepted a ≡ false
      → Evolves s.commands (settle_priority r a d t s).1.commands
  unfolding settle_priority
  settle_priority-Evolves r a d t final =
      updated _ _ _ _ unchanged (has_id_accepted-OnlyAccepted r s.commands) final

  settle_recovery-Evolves :
      (a : Acknowledgement) (r d : String)
      → is_accepted a ≡ false
      → Evolves s.commands (settle_recovery a r d now s).1.commands
  unfolding settle_recovery
  settle_recovery-Evolves a r d final =
      Evolves-if_reply (is_blank d) _ _ unchanged (elim (Option-cases (find r s.commands)) [
        | inl h ↦ rw h unchanged
        | inr (c, h) ↦ rw h (elim (Bool-cases (is_accepted c.acknowledgement)) [
          | inl acc ↦
              rw acc (updated _ _ _ _ unchanged (has_id-OnlyAccepted r s.commands c h acc) final)
          | inr old ↦ rw old unchanged
        ])
      ])

  settle_handoff-Evolves :
      (r : String) (k : Kind) (a : Acknowledgement) (f : HandoffPhase) (d t : String) (c : Command)
      → find r s.commands ≡ some c
      → is_accepted c.acknowledgement ≡ true
      → is_accepted a ≡ false
      → Evolves s.commands (settle_handoff r k a f d t s).1.commands
  unfolding settle_handoff set_intake set_final_phase complete_waiting_stops
  settle_handoff-Evolves r k a f d t c h acc final =
      let e = updated (has_id r) a d t unchanged (has_id-OnlyAccepted r s.commands c h acc) final in
      elim (Bool-cases (names s.pending r)) [
        | inl own ↦ rw own (elim (Bool-cases (same_kind k Kind.handoff)) [
          | inl is ↦
              rw is (updated _ _ _ _ e (is_plan_of-OnlyAccepted (stop ∷ []) _) completed_final)
          | inr isnt ↦
              rw isnt (updated _ _ _ _ e (is_plan_of-OnlyAccepted (stop ∷ []) _) completed_final)
        ])
        | inr beside ↦ rw beside (Evolves-if (same_kind k Kind.handoff) _ _ e e)
      ]

  end_handoff-Evolves :
      (r : String) (a : Acknowledgement) (f : HandoffPhase) (d : String)
      → is_accepted a ≡ false
      → Evolves s.commands (end_handoff r a f d now s).1.commands
  unfolding end_handoff
  end_handoff-Evolves r a f d final =
      Evolves-if_reply (is_blank d) _ _ unchanged (elim (Option-cases (find r s.commands)) [
        | inl h ↦ rw h unchanged
        | inr (c, h) ↦ rw h (elim (Bool-cases (is_accepted c.acknowledgement)) [
          | inl acc ↦ rw acc (settle_handoff-Evolves r c.kind a f (strip d) (now 0) c h acc final)
          | inr old ↦ rw old unchanged
        ])
      ])

  count_attempt-Evolves :
      (p a o : String) (n m : ℕ) → Evolves s.commands (count_attempt p a o n m now s).1.commands
  unfolding count_attempt finish_countdown
  count_attempt-Evolves p a o n m =
      Evolves-if_reply (leb m 1) _ _
        (updated _ _ _ _ unchanged (has_id_accepted-OnlyAccepted p s.commands) completed_final)
        unchanged

  count_against_plan-Evolves :
      (p : Option String) (m : Option ℕ) (a o : String) (n : ℕ)
      → Evolves s.commands (count_against_plan p m a o n now s).1.commands
  unfolding count_against_plan
  count_against_plan-Evolves none m a o n = unchanged
  count_against_plan-Evolves (some p) none a o n = unchanged
  count_against_plan-Evolves (some p) (some m) a o n = count_attempt-Evolves p a o n m

  stop_without_plan-Evolves :
      (p : Option String) → Evolves s.commands (stop_without_plan p now s).1.commands
  unfolding stop_without_plan
  stop_without_plan-Evolves none = unchanged
  stop_without_plan-Evolves (some p) = complete_stop_named-Evolves p

  record_attempt_finalized-Evolves :
      (a o : String) → Evolves s.commands (record_attempt_finalized a o now s).1.commands
  unfolding record_attempt_finalized
  record_attempt_finalized-Evolves a o = Evolves-if_reply (is_blank a || is_blank o) _ _ unchanged (
      Evolves-if_reply (is_counted a s.counted_attempts) _ _ unchanged
        (elim (Option-cases s.stop_after_requested) [
          | inl h ↦ rw h (stop_without_plan-Evolves s.pending)
          | inr (n, h) ↦ rw h (count_against_plan-Evolves s.pending s.stop_after_remaining a o n)
        ]))

  complete_pending_stop-Evolves : Evolves s.commands (complete_pending_stop now s).1.commands
  unfolding complete_pending_stop
  complete_pending_stop-Evolves = elim (Option-cases s.pending) [
    | inl h ↦ rw (h, complete_pending_stop) unchanged
    | inr (p, h) ↦ rw (h, complete_pending_stop) (complete_stop_named-Evolves p)
  ]

  enter_stopping-same : (enter_stopping_for_final_claim s).1.commands ≡ s.commands
  unfolding enter_stopping_for_final_claim
  enter_stopping-same = ground arith

  complete_next_issue-Evolves :
      (n : ℕ) → Evolves s.commands (complete_next_issue n now s).1.commands
  unfolding complete_next_issue
  complete_next_issue-Evolves n = elim (Option-cases (next_issue_locked s)) [
    | inl h ↦ rw (h, complete_next_issue) unchanged
    | inr ((m, r), h) ↦
        rw (h, complete_next_issue)
          (Evolves-if_reply (m == n) _ _ (settle_priority-Evolves r _ _ (now 0) completed_final)
            unchanged)
  ]

  fail_next_issue-Evolves :
      (reason : String) → Evolves s.commands (fail_next_issue reason now s).1.commands
  unfolding fail_next_issue
  fail_next_issue-Evolves reason =
      Evolves-if_reply (is_blank reason) _ _ unchanged (elim (Option-cases (next_issue_locked s)) [
        | inl h ↦ rw h unchanged
        | inr ((m, r), h) ↦ rw h (settle_priority-Evolves r _ _ (now 0) not_fulfilled_final)
      ])

-- Every event has one of these effects.
pub apply-Evolves :
    (e : Event) (now : Clock) (s : ControlStore) → Evolves s.commands (apply e now s).commands
unfolding apply complete_handoff fail_handoff complete_recovery_command fail_recovery_command
    mark_handoff_delivering mark_handoff_begun
apply-Evolves (submission r q) now s = submit-Evolves r q now s
apply-Evolves pending_stop_completed now s = complete_pending_stop-Evolves now s
apply-Evolves (attempt_finalized a o) now s = record_attempt_finalized-Evolves now s a o
apply-Evolves final_claim_entered now s = rw (enter_stopping-same now s) unchanged
apply-Evolves (next_issue_completed n) now s = complete_next_issue-Evolves now s n
apply-Evolves (next_issue_failed reason) now s = fail_next_issue-Evolves now s reason
apply-Evolves (handoff_delivering r) now s =
    Evolves-if_reply (is_tracked_handoff r s) _ _ unchanged unchanged
apply-Evolves (handoff_begins r) now s =
    Evolves-if_reply (is_tracked_handoff r s) _ _ unchanged unchanged
apply-Evolves (handoff_completed r d) now s = end_handoff-Evolves now s r _ _ d completed_final
apply-Evolves (handoff_failed r d) now s = end_handoff-Evolves now s r _ _ d not_fulfilled_final
apply-Evolves (recovery_completed r d) now s = settle_recovery-Evolves now s _ r d completed_final
apply-Evolves (recovery_failed r d) now s = settle_recovery-Evolves now s _ r d not_fulfilled_final

Evolves-trans : {cs ds es : List Command} → Evolves cs ds → Evolves ds es → Evolves cs es
Evolves-trans f unchanged = f
Evolves-trans f (updated p a d t g only final) = updated p a d t (Evolves-trans f g) only final
Evolves-trans f (inserted r k p a d t g fresh) = inserted r k p a d t (Evolves-trans f g) fresh

apply_all-Evolves :
    (run : List (Event × Clock)) (s : ControlStore) → Evolves s.commands (apply_all run s).commands
unfolding apply_all
apply_all-Evolves [] s = unchanged
apply_all-Evolves ((e, now) ∷ rest) s =
    Evolves-trans (apply-Evolves e now s) (apply_all-Evolves rest (apply e now s))

-- Over any run of the writing methods a recorded command is never lost: its request ID finds a
-- record with the same sequence number, kind, payload and creation time; and once it is completed,
-- superseded or not fulfilled, the record stays exactly as it is.
pub apply_all-Successor :
    (run : List (Event × Clock)) (s : ControlStore) (r : String) (c : Command)
    → find r s.commands ≡ some c
    → Successor s.commands (apply_all run s).commands r c
apply_all-Successor run s r c f = Evolves-Successor r c f (apply_all-Evolves run s)

-- After any run of the writing methods on an empty store the request IDs in the table are distinct
-- and its sequence numbers rise from row to row.
pub apply_all-Ascending :
    (run : List (Event × Clock))
    → Distinct (apply_all run initialize).commands × Ascending (apply_all run initialize).commands
unfolding initialize
apply_all-Ascending run =
    let e = apply_all-Evolves run initialize in (Evolves-Distinct tt e, Evolves-Ascending tt e)
