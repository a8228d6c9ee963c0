-- ===== src/Finalization/Recorded.antt =====
-- Reading back what was recorded (simple_coding_agent/finalization.py, lines 46-97).
use mathlib.Core.Path.{subst}
use simple_coding_agent.Base.{
  ◌<◌, String, ◌≡◌, refl, ap, ◌∙◌, inl, inr, Bool, true, false, ◌&&◌, ◌||◌, not, Option, none, some,
  List, [], ◌∷◌, ◌++◌, arith, Bool-cases, text_eq, text_eq_refl, text_eq→≡, is_blank, any, member,
  All, All-append,
}
use simple_coding_agent.Base.Options.{◌>>=◌, guard, >>=-some, guard-some}
use simple_coding_agent.Base.Number.{ℤ, positive}
use simple_coding_agent.Ledger.Sums.{some-injective}
use simple_coding_agent.Attempt.Json.{
  Value, null, integer, text, get, get_or, has_keys, only_keys, as_issue_number, as_branch,
}
use simple_coding_agent.Attempt.Valid.{
  issue_number-value, branch-value, issue_number-pos, branch-not_blank,
}
use simple_coding_agent.Completion.Evidence.{AttemptOutcome}
use simple_coding_agent.Finalization.Completed.{
  AttemptCompletion, Entry, fields, not_object, CompletedFile, absent, unreadable, malformed,
  completed, outcome_value, read_outcome, as_outcome, as_completed_at, completion_keys,
  completion_from_json, completion_to_json, read_entries, read_records, written_entries,
  write_records, has_record, is_finalized, new_completion, record_among, record_completion,
}

pub record IsWritable (c : AttemptCompletion) : Type 0 where
  pub attempt_id : text_eq c.attempt_id "" ≡ false
  pub issue_number : 0 < c.issue_number
  pub branch : is_blank c.branch ≡ false
  pub completed_at : text_eq c.completed_at "" ≡ false

outcome-value : (o : AttemptOutcome) → as_outcome (text (outcome_value o)) ≡ some o
unfolding as_outcome outcome_value read_outcome text_eq
outcome-value AttemptOutcome.complete = refl
outcome-value AttemptOutcome.incomplete = refl
outcome-value AttemptOutcome.infrastructure_error = refl
outcome-value AttemptOutcome.no_changes = refl
outcome-value AttemptOutcome.handoff = refl

completed_at-value : (s : String) → text_eq s "" ≡ false → as_completed_at (text s) ≡ some s
unfolding as_completed_at
completed_at-value s h = rw h refl

completed_at-text : (v : Value) (s : String) → as_completed_at v ≡ some s → text_eq s "" ≡ false
unfolding as_completed_at
completed_at-text v s h = ground arith

completion_from_json-completion_to_json :
    (c : AttemptCompletion)
    → IsWritable c
    → completion_from_json c.attempt_id (completion_to_json c) ≡ some c
unfolding completion_from_json completion_to_json has_keys only_keys get get_or text_eq member
completion_from_json-completion_to_json c v = simp (
  v.attempt_id,
  issue_number-value c.issue_number v.issue_number,
  branch-value c.branch v.branch,
  completed_at-value c.completed_at v.completed_at,
  outcome-value c.outcome,
)

completion_from_json-IsWritable :
    (id : String) (e : Entry) (c : AttemptCompletion)
    → completion_from_json id e ≡ some c
    → IsWritable c
unfolding completion_from_json
completion_from_json-IsWritable id not_object c h = absurd (ground (arith, h))
completion_from_json-IsWritable id (fields entries) c h =
    let g = >>=-some (guard (not (text_eq id ""))) _ c h in
    let k =
      >>=-some (guard (has_keys completion_keys entries && only_keys completion_keys entries)) _ c
        g.2 in
    let n = >>=-some (as_issue_number (get_or null (get "issue_number" entries))) _ c k.2 in
    let b = >>=-some (as_branch (get_or null (get "branch" entries))) _ c n.2 in
    let t = >>=-some (as_completed_at (get_or null (get "completed_at" entries))) _ c b.2 in
    let o = >>=-some (as_outcome (get_or null (get "outcome" entries))) _ c t.2 in
    subst IsWritable (some-injective o.2) (record {
      attempt_id = ground (arith, guard-some (not (text_eq id "")) g.0 g.1);
      issue_number = issue_number-pos (get_or null (get "issue_number" entries)) n.0 n.1;
      branch = branch-not_blank (get_or null (get "branch" entries)) b.0 b.1;
      completed_at = completed_at-text (get_or null (get "completed_at" entries)) t.0 t.1;
    })

read_entries-IsWritable :
    (es : List (String × Entry)) (cs : List AttemptCompletion)
    → read_entries es ≡ some cs
    → All IsWritable cs
unfolding read_entries
read_entries-IsWritable [] cs h = subst (All IsWritable) (some-injective h) tt
read_entries-IsWritable ((id, e) ∷ es) cs h =
    let a = >>=-some (completion_from_json id e) _ cs h in
    let b = >>=-some (read_entries es) _ cs a.2 in
    subst (All IsWritable) (some-injective b.2)
      (completion_from_json-IsWritable id e a.0 a.1, read_entries-IsWritable es b.0 b.1)

read_records-IsWritable :
    (file : CompletedFile) (cs : List AttemptCompletion)
    → read_records file ≡ some cs
    → All IsWritable cs
unfolding read_records
read_records-IsWritable absent cs h = subst (All IsWritable) (some-injective h) tt
read_records-IsWritable unreadable cs h = absurd (ground (arith, h))
read_records-IsWritable malformed cs h = absurd (ground (arith, h))
read_records-IsWritable (completed entries) cs h = read_entries-IsWritable entries cs h

-- What is written is read back.
read_records-write_records :
    (cs : List AttemptCompletion) → All IsWritable cs → read_records (write_records cs) ≡ some cs
unfolding read_records write_records read_entries written_entries
read_records-write_records [] v = refl
read_records-write_records (c ∷ cs) v =
    rw (completion_from_json-completion_to_json c v.0) (rw (read_records-write_records cs v.1) refl)

has_record-append :
    (id : String) (cs : List AttemptCompletion) (c : AttemptCompletion)
    → has_record id (cs ++ c ∷ []) ≡ has_record id cs || text_eq c.attempt_id id
unfolding has_record any
has_record-append id [] c = ground arith
has_record-append id (d ∷ cs) c = ground (arith, has_record-append id cs c)

has_record-same :
    (id other : String) (cs : List AttemptCompletion)
    → has_record id cs ≡ true
    → has_record other cs ≡ has_record other cs || text_eq id other
has_record-same id other cs h = elim (Bool-cases (text_eq id other)) [
  | inl b ↦ ground (arith, b, subst (λ s. has_record s cs ≡ true) (text_eq→≡ id other b) h)
  | inr b ↦ ground (arith, b)
]

-- The printed time is the empty text.
abbrev pub any_blank : Option String → Bool
any_blank none = false
any_blank (some s) = text_eq s ""

new_completion-IsWritable :
    (id : String) (n : ℤ) (branch : String) (o : AttemptOutcome) (now : Option String)
    (c : AttemptCompletion)
    → text_eq id "" ≡ false
    → any_blank now ≡ false
    → new_completion id n branch o now ≡ some c
    → IsWritable c × (c.attempt_id ≡ id)
unfolding new_completion as_issue_number
new_completion-IsWritable id n branch o now c hi ht h =
    let p = >>=-some (positive n) _ c h in
    let b = >>=-some (guard (not (is_blank branch))) _ c p.2 in
    let t = >>=-some now _ c b.2 in
    subst (λ x. IsWritable x × (x.attempt_id ≡ id)) (some-injective t.2)
      (
        record {
          attempt_id = hi;
          issue_number = issue_number-pos (integer n) p.0 p.1;
          branch = ground (arith, guard-some (not (is_blank branch)) b.0 b.1);
          completed_at = subst (λ m. any_blank m ≡ false) t.1 ht;
        },
        refl,
      )

record_among-result :
    (records : List AttemptCompletion) (id : String) (n : ℤ) (branch : String) (o : AttemptOutcome)
    (now : Option String) (file : CompletedFile) (r : Bool × CompletedFile)
    → text_eq id "" ≡ false
    → any_blank now ≡ false
    → read_records file ≡ some records
    → record_among records id n branch o now file ≡ some r
    → (after : List AttemptCompletion) × (read_records r.1 ≡ some after)
      × (has_record id after ≡ true)
      × ((other : String) → has_record other after ≡ has_record other records || text_eq id other)
unfolding record_among
record_among-result records id n branch o now file r hi ht e h =
    elim (Bool-cases (has_record id records)) [
      | inl b ↦ (
        records,
        subst (λ x. read_records x.1 ≡ some records) (some-injective (simp b at h)) e,
        b,
        λ other. has_record-same id other records b,
      )
      | inr b ↦
          let m = >>=-some (new_completion id n branch o now) _ r (simp b at h) in
          let v = new_completion-IsWritable id n branch o now m.0 hi ht m.1 in
          let after = records ++ m.0 ∷ [] in
          let others : (other : String)
              → has_record other after ≡ has_record other records || text_eq id other =
            λ other.
              has_record-append other records m.0
              ∙ ap (λ s. has_record other records || text_eq s other) v.1 in
          (
            after,
            subst (λ x. read_records x.1 ≡ some after) (some-injective m.2)
                (read_records-write_records after (
                  All-append IsWritable records (m.0 ∷ []) (read_records-IsWritable file records e)
                    (v.0, tt))),
            others id ∙ ground (arith, text_eq_refl id),
            others,
          )
    ]

-- A successful `record` of an attempt with a nonempty ID leaves that attempt finalized and changes
-- no other answer of `is_finalized`; to record the attempt again, with whatever data, reports that it
-- was recorded and leaves the file as it is. The printed time is not empty.
pub record_completion-recorded :
    (id other : String) (n n' : ℤ) (branch branch' : String) (o o' : AttemptOutcome)
    (now now' : Option String) (file file' : CompletedFile) (fresh : Bool)
    → text_eq id "" ≡ false
    → any_blank now ≡ false
    → record_completion id n branch o now file ≡ some (fresh, file')
    → (is_finalized other file' ≡ (is_finalized other file >>= λ b. some (b || text_eq id other)))
      × (record_completion id n' branch' o' now' file' ≡ some (false, file'))
unfolding record_completion is_finalized record_among
record_completion-recorded id other n n' branch branch' o o' now now' file file' fresh hi ht h =
    let s = >>=-some (read_records file) _ (fresh, file') h in
    let r = record_among-result s.0 id n branch o now file (fresh, file') hi ht s.1 s.2 in
    (rw (r.1, s.1) (ap some (r.3 other)), rw (r.1, r.2) refl)
