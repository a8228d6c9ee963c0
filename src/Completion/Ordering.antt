-- ===== src/Completion/Ordering.antt =====
-- The order of the calls on a `VerificationRunner` (simple_coding_agent/completion.py, lines 199-263),
-- told by the calls themselves and by what their command sequences returned.
use simple_coding_agent.Base.{
  suc, ◌≡◌, refl, ap, ◌∙◌, ◌↔◌, ◌⊎◌, inl, inr, Bool, true, false, ◌&&◌, ◌||◌, some, List, [], ◌∷◌,
  ◌++◌, arith, leb, All,
}
use simple_coding_agent.Base.Number.{ℤ, pos, negsuc}
use simple_coding_agent.Completion.Evidence.{CommandResult, ModelExecutionStatus, command_succeeded}
use simple_coding_agent.Completion.Evaluation.{is_positive, exceeds_two}
use simple_coding_agent.Completion.Runner.{
  Sequence, setup, check, VerificationRunner, RunnerCall, preparation, review, final, new_runner,
  prepare, mark_review_complete, session_succeeded, final_check, after_call, after_calls,
}

-- A preparation whose setup succeeded, and whose check did too unless a branch is continued.
abbrev pub is_prepared : RunnerCall → Bool
is_prepared (preparation run continuation) =
    command_succeeded (run setup) && (command_succeeded (run check) || continuation)
is_prepared _ = false

abbrev pub at_most_two : ℤ → Bool
at_most_two (negsuc n) = true
at_most_two (pos n) = leb n 2

-- A review after a successful session, with a commit and at most two repair cycles.
abbrev pub is_reviewed : RunnerCall → Bool
is_reviewed (review ModelExecutionStatus.succeeded (pos (suc n)) evidence) =
    at_most_two evidence.repair_cycles
is_reviewed _ = false

abbrev pub is_preparation : RunnerCall → Bool
is_preparation (preparation run continuation) = true
is_preparation _ = false

abbrev pub Continues : List RunnerCall → Type 0
Continues = All (λ c. is_preparation c ≡ false)

-- A good review, with no preparation before or after it.
pub record IsReviewed (cs : List RunnerCall) : Type 0 where
  pub before : List RunnerCall
  pub call : RunnerCall
  pub later : List RunnerCall
  pub split : cs ≡ before ++ call ∷ later
  pub continues_before : Continues before
  pub reviewed : is_reviewed call ≡ true
  pub continues_later : Continues later

-- The last preparation was good, and a good review came after it.
pub record IsOrdered (cs : List RunnerCall) : Type 0 where
  pub earlier : List RunnerCall
  pub call : RunnerCall
  pub later : List RunnerCall
  pub split : cs ≡ earlier ++ call ∷ later
  pub prepared : is_prepared call ≡ true
  pub reviewed : IsReviewed later

-- What a review on record can come from, if the calls began in the state `s`.
data Origin (s : VerificationRunner) (cs : List RunnerCall) : Type 0 where
  ordered : IsOrdered cs → Origin s cs
  kept : Continues cs → s.review_completed ≡ true → Origin s cs
  fresh : IsReviewed cs → s.baseline_passed ≡ true → Origin s cs

prepared_before :
    (c : RunnerCall) (s : VerificationRunner)
    → (after_call c s).baseline_passed ≡ true
    → (is_prepared c ≡ true) ⊎ ((is_preparation c ≡ false) × (s.baseline_passed ≡ true))
unfolding after_call prepare mark_review_complete
prepared_before (preparation run continuation) s h = ground arith
prepared_before (review status count evidence) s h = ground arith
prepared_before (final run) s h = ground arith

reviewed_before :
    (c : RunnerCall) (s : VerificationRunner)
    → (after_call c s).review_completed ≡ true
    → (is_preparation c ≡ false)
      × ((s.review_completed ≡ true) ⊎ ((is_reviewed c ≡ true) × (s.baseline_passed ≡ true)))
unfolding after_call prepare mark_review_complete session_succeeded is_positive exceeds_two
reviewed_before (preparation run continuation) s h = ground arith
reviewed_before (review status count evidence) s h = ground arith
reviewed_before (final run) s h = ground arith

Origin-step :
    (c : RunnerCall) (cs : List RunnerCall) (s : VerificationRunner)
    → Origin (after_call c s) cs
    → Origin s (c ∷ cs)
Origin-step c cs s (ordered o) = ordered (record {
  earlier = c ∷ o.earlier;
  call = o.call;
  later = o.later;
  split = ap (λ x. c ∷ x) o.split;
  prepared = o.prepared;
  reviewed = o.reviewed;
})
Origin-step c cs s (kept k h) =
    let b = reviewed_before c s h in
    elim b.1 [
      | inl old ↦ kept (b.0, k) old
      | inr new ↦
          fresh
            (record {
              before = [];
              call = c;
              later = cs;
              split = refl;
              continues_before = tt;
              reviewed = new.0;
              continues_later = k;
            })
            new.1
    ]
Origin-step c cs s (fresh r h) = elim (prepared_before c s h) [
  | inl good ↦
      ordered
        (record { earlier = []; call = c; later = cs; split = refl; prepared = good; reviewed = r })
  | inr old ↦
      fresh
        (record {
          before = c ∷ r.before;
          call = r.call;
          later = r.later;
          split = ap (λ x. c ∷ x) r.split;
          continues_before = (old.0, r.continues_before);
          reviewed = r.reviewed;
          continues_later = r.continues_later;
        })
        old.1
]

after_calls-Origin :
    (cs : List RunnerCall) (s : VerificationRunner)
    → (after_calls cs s).review_completed ≡ true
    → Origin s cs
unfolding after_calls
after_calls-Origin [] s h = kept tt h
after_calls-Origin (c ∷ cs) s h = Origin-step c cs s (after_calls-Origin cs (after_call c s) h)

after_calls-append :
    (cs ds : List RunnerCall) (s : VerificationRunner)
    → after_calls (cs ++ ds) s ≡ after_calls ds (after_calls cs s)
unfolding after_calls
after_calls-append [] ds s = refl
after_calls-append (c ∷ cs) ds s = after_calls-append cs ds (after_call c s)

call-keeps :
    (c : RunnerCall) (s : VerificationRunner)
    → is_preparation c ≡ false
    → ((after_call c s).baseline_passed ≡ s.baseline_passed)
      × (s.review_completed ≡ true → (after_call c s).review_completed ≡ true)
unfolding after_call mark_review_complete
call-keeps (preparation run continuation) s h = absurd (ground arith)
call-keeps (review status count evidence) s h = (ground arith, λ e. ground arith)
call-keeps (final run) s h = (refl, λ e. e)

calls-keep_baseline :
    (cs : List RunnerCall) (s : VerificationRunner)
    → Continues cs
    → s.baseline_passed ≡ true
    → (after_calls cs s).baseline_passed ≡ true
unfolding after_calls
calls-keep_baseline [] s k h = h
calls-keep_baseline (c ∷ cs) s k h =
    calls-keep_baseline cs (after_call c s) k.1 ((call-keeps c s k.0).0 ∙ h)

calls-keep_review :
    (cs : List RunnerCall) (s : VerificationRunner)
    → Continues cs
    → s.review_completed ≡ true
    → (after_calls cs s).review_completed ≡ true
unfolding after_calls
calls-keep_review [] s k h = h
calls-keep_review (c ∷ cs) s k h =
    calls-keep_review cs (after_call c s) k.1 ((call-keeps c s k.0).1 h)

is_prepared-passes :
    (c : RunnerCall) (s : VerificationRunner)
    → is_prepared c ≡ true
    → (after_call c s).baseline_passed ≡ true
unfolding after_call prepare
is_prepared-passes (preparation run continuation) s h = ground arith
is_prepared-passes (review status count evidence) s h = absurd (ground arith)
is_prepared-passes (final run) s h = absurd (ground arith)

is_reviewed-completes :
    (c : RunnerCall) (s : VerificationRunner)
    → is_reviewed c ≡ true
    → s.baseline_passed ≡ true
    → (after_call c s).review_completed ≡ true
unfolding after_call mark_review_complete session_succeeded is_positive exceeds_two
is_reviewed-completes (preparation run continuation) s h b = absurd (ground arith)
is_reviewed-completes (review status count evidence) s h b = ground arith
is_reviewed-completes (final run) s h b = absurd (ground arith)

IsReviewed-completes :
    (cs : List RunnerCall) (s : VerificationRunner)
    → IsReviewed cs
    → s.baseline_passed ≡ true
    → (after_calls cs s).review_completed ≡ true
unfolding after_calls
IsReviewed-completes cs s r b =
    let t = after_calls r.before s in
    ap (λ x. (after_calls x s).review_completed) r.split
    ∙ (ap (λ (x : VerificationRunner). x.review_completed)
          (after_calls-append r.before (r.call ∷ r.later) s)
        ∙ calls-keep_review r.later (after_call r.call t) r.continues_later (
            is_reviewed-completes r.call t r.reviewed
              (calls-keep_baseline r.before s r.continues_before b)))

IsOrdered-completes :
    (cs : List RunnerCall) (s : VerificationRunner)
    → IsOrdered cs
    → (after_calls cs s).review_completed ≡ true
unfolding after_calls
IsOrdered-completes cs s o =
    let t = after_calls o.earlier s in
    ap (λ x. (after_calls x s).review_completed) o.split
    ∙ (ap (λ (x : VerificationRunner). x.review_completed)
          (after_calls-append o.earlier (o.call ∷ o.later) s)
        ∙ IsReviewed-completes o.later (after_call o.call t) o.reviewed
            (is_prepared-passes o.call t o.prepared))

Origin-new : (cs : List RunnerCall) → Origin new_runner cs → IsOrdered cs
unfolding new_runner
Origin-new cs (ordered o) = o
Origin-new cs (kept k h) = absurd (ground arith)
Origin-new cs (fresh r h) = absurd (ground arith)

-- After any calls on a new runner, the final check runs exactly if the last preparation's setup
-- succeeded and its check did too, unless a branch is continued, and a later review came after a
-- successful session, with a commit and at most two repair cycles; it then returns what the check
-- returns.
pub final_check-IsOrdered :
    (run : Sequence → CommandResult) (cs : List RunnerCall)
    → (final_check run (after_calls cs new_runner) ≡ some (run check)) ↔ IsOrdered cs
unfolding final_check
final_check-IsOrdered run cs = (
  λ h. Origin-new cs (after_calls-Origin cs new_runner (ground arith)),
  λ o. rw (IsOrdered-completes cs new_runner o) refl,
)
