-- ===== src/Control/Stopping.antt =====
-- How a countdown ends: `record_attempt_finalized` over a series of attempts.
use mathlib.Core.Path.{subst}
use simple_coding_agent.Base.{
  ℕ, zero, suc, ◌+◌, String, ◌≡◌, refl, sym, ap, ◌∙◌, inl, inr, true, false, ◌||◌, none, some, List,
  [], ◌∷◌, ◌++◌, arith, leb, Option-cases, text_eq, text_eq_refl, is_blank, length, All,
}
use simple_coding_agent.Control.Types.{
  Clock, stopped, CountedAttempt, Result, Command, ControlStore, is_accepted,
}
use simple_coding_agent.Control.Types.{Acknowledgement}
use simple_coding_agent.Control.Table.{find, update, touch, has_id_accepted, still_accepted}
use simple_coding_agent.Control.Lookup.{find-update, find_id, touched}
use simple_coding_agent.Control.Countdown.{
  is_counted, count_attempt, count_against_plan, finish_countdown, record_attempt_finalized,
}

-- An attempt that ends: its identity, its outcome and the readings of the clock.
pub record Finalized : Type 0 where
  pub attempt_id : String
  pub outcome : String
  pub clock : Clock

unfoldable pub finalize_all : List Finalized → ControlStore → ControlStore
finalize_all [] s = s
finalize_all (f ∷ fs) s =
    finalize_all fs (record_attempt_finalized f.attempt_id f.outcome f.clock s).1

-- The attempts are valid, differ from each other, and none is among those counted already.
abbrev pub AreFresh : List Finalized → List CountedAttempt → Type 0
AreFresh [] xs = Unit
AreFresh (f ∷ fs) xs =
    (is_blank f.attempt_id || is_blank f.outcome ≡ false)
    × (is_counted f.attempt_id xs ≡ false)
    × All (λ g. text_eq f.attempt_id g.attempt_id ≡ false) fs
    × AreFresh fs xs

-- A countdown with `m` of `n` attempts left, of the command `p`.
pub record IsCounting (p : String) (n m : ℕ) (s : ControlStore) : Type 0 where
  pub pending : s.pending ≡ some p
  pub requested : s.stop_after_requested ≡ some n
  pub remaining : s.stop_after_remaining ≡ some m

-- The countdown has ended: intake is stopped, no plan is left, and its command is final.
pub record IsEnded (p : String) (s : ControlStore) : Type 0 where
  pub intake : s.intake ≡ stopped
  pub pending : s.pending ≡ none
  pub requested : s.stop_after_requested ≡ none
  pub remaining : s.stop_after_remaining ≡ none
  pub command : still_accepted p s ≡ false

counted_step :
    (p : String) (n m : ℕ) (f : Finalized) (s : ControlStore)
    → IsCounting p n m s
    → is_blank f.attempt_id || is_blank f.outcome ≡ false
    → is_counted f.attempt_id s.counted_attempts ≡ false
    → record_attempt_finalized f.attempt_id f.outcome f.clock s
      ≡ count_attempt p f.attempt_id f.outcome n m f.clock s
unfolding record_attempt_finalized count_against_plan
counted_step p n m f s c b u = simp (b, u, c.requested, c.pending, c.remaining)

-- The row of `p` is final once an update has completed it.
completed_row-final :
    (p d t : String) (cs : List Command) (c : Command)
    → find p cs ≡ some c
    → is_accepted (touch (has_id_accepted p) Acknowledgement.completed d t c).acknowledgement
      ≡ false
unfolding touch has_id_accepted is_accepted
completed_row-final p d t cs c f =
    let same : text_eq c.request_id p ≡ true =
      subst (λ q. text_eq c.request_id q ≡ true) (find_id p cs c f) (text_eq_refl c.request_id) in
    ground (arith, same)

completed-still_accepted :
    (p d t : String) (s s' : ControlStore)
    → s'.commands ≡ update (has_id_accepted p) Acknowledgement.completed d t s.commands
    → still_accepted p s' ≡ false
unfolding still_accepted
completed-still_accepted p d t s s' h =
    let g = find-update (has_id_accepted p) Acknowledgement.completed d t p s.commands in
    elim (Option-cases (find p s.commands)) [
      | inl f ↦ rw (ap (find p) h ∙ g ∙ ap (touched _ _ d t) f, still_accepted) refl
      | inr (c, f) ↦
          rw (ap (find p) h ∙ g ∙ ap (touched _ _ d t) f, still_accepted)
            (completed_row-final p d t s.commands c f)
    ]

finish-IsEnded :
    (p a : String) (n : ℕ) (o t : String) (s : ControlStore)
    → IsEnded p (finish_countdown p a n o t s).1
unfolding finish_countdown
finish-IsEnded p a n o t s = record {
  intake = refl;
  pending = refl;
  requested = refl;
  remaining = refl;
  command = completed-still_accepted p _ t s _ refl;
}

count_attempt-last :
    (p a o : String) (n : ℕ) (now : Clock) (s : ControlStore)
    → IsEnded p (count_attempt p a o n 1 now s).1
unfolding count_attempt
count_attempt-last p a o n now s = finish-IsEnded p a n o (now 0) _

-- With more attempts left, one less is left; the attempt is now counted, and no other.
count_attempt-IsCounting :
    (p a o : String) (n m : ℕ) (now : Clock) (s : ControlStore)
    → IsCounting p n (suc (suc m)) s
    → IsCounting p n (suc m) (count_attempt p a o n (suc (suc m)) now s).1
unfolding count_attempt
count_attempt-IsCounting p a o n m now s c = record {
  pending = ground (arith, c.pending);
  requested = ground (arith, c.requested);
  remaining = ground arith;
}

is_counted-other :
    (b : String) (x : CountedAttempt) (xs : List CountedAttempt)
    → is_counted b xs ≡ false
    → text_eq x.attempt_id b ≡ false
    → is_counted b (xs ++ x ∷ []) ≡ false
unfolding is_counted
is_counted-other b x [] h e = rw e refl
is_counted-other b x (y ∷ ys) h e = ground (arith, is_counted-other b x ys)

AreFresh-append :
    (fs : List Finalized) (x : CountedAttempt) (xs : List CountedAttempt)
    → AreFresh fs xs
    → All (λ g. text_eq x.attempt_id g.attempt_id ≡ false) fs
    → AreFresh fs (xs ++ x ∷ [])
AreFresh-append [] x xs h a = tt
AreFresh-append (f ∷ fs) x xs h a =
    (h.0, is_counted-other f.attempt_id x xs h.1 a.0, h.2, AreFresh-append fs x xs h.3 a.1)

-- The attempts that are still fresh after one has been counted.
count_attempt-AreFresh :
    (p : String) (n m : ℕ) (f : Finalized) (fs : List Finalized) (s : ControlStore)
    → All (λ g. text_eq f.attempt_id g.attempt_id ≡ false) fs
    → AreFresh fs s.counted_attempts
    → AreFresh fs
        (count_attempt p f.attempt_id f.outcome n (suc (suc m)) f.clock s).1.counted_attempts
unfolding count_attempt
count_attempt-AreFresh p n m f fs s a h =
    let more : leb (suc (suc m)) 1 ≡ false = ground arith in
    rw more (AreFresh-append fs _ s.counted_attempts h a)

-- As many attempts as the countdown has left end it, if they are valid, differ and none was
-- counted before: intake is stopped, the plan is gone, and its command is no longer accepted.
pub finalize_all-IsEnded :
    (fs : List Finalized) (p : String) (n m : ℕ) (s : ControlStore)
    → length fs ≡ suc m
    → AreFresh fs s.counted_attempts
    → IsCounting p n (suc m) s
    → IsEnded p (finalize_all fs s)
unfolding finalize_all
finalize_all-IsEnded [] p n m s e h c = absurd (omega arith)
finalize_all-IsEnded (f ∷ []) p n zero s e h c =
    subst (λ (x : Result (List Command) × ControlStore). IsEnded p x.1)
      (sym (counted_step p n 1 f s c h.0 h.1))
      (count_attempt-last p f.attempt_id f.outcome n f.clock s)
finalize_all-IsEnded (f ∷ []) p n (suc m) s e h c = absurd (omega arith)
finalize_all-IsEnded (f ∷ g ∷ fs) p n zero s e h c = absurd (omega arith)
finalize_all-IsEnded (f ∷ g ∷ fs) p n (suc m) s e h c =
    subst (λ (x : Result (List Command) × ControlStore). IsEnded p (finalize_all (g ∷ fs) x.1))
      (sym (counted_step p n (suc (suc m)) f s c h.0 h.1))
      (finalize_all-IsEnded (g ∷ fs) p n m _ (omega arith)
        (count_attempt-AreFresh p n m f (g ∷ fs) s h.2 h.3)
        (count_attempt-IsCounting p f.attempt_id f.outcome n m f.clock s c))

-- Fewer attempts than the countdown has left, if they are valid, differ and none was counted
-- before, leave the plan in force, with as many less to go.
pub finalize_all-IsCounting :
    (fs : List Finalized) (p : String) (n m : ℕ) (s : ControlStore)
    → AreFresh fs s.counted_attempts
    → IsCounting p n (length fs + suc m) s
    → IsCounting p n (suc m) (finalize_all fs s)
unfolding finalize_all
finalize_all-IsCounting [] p n m s h c =
    let none_ended : 0 + suc m ≡ suc m = omega arith in subst (λ k. IsCounting p n k s) none_ended c
finalize_all-IsCounting (f ∷ fs) p n m s h c =
    let all : suc (length fs) + suc m ≡ suc (suc (length fs + m)) = omega arith in
    let left : length fs + suc m ≡ suc (length fs + m) = omega arith in
    let c' : IsCounting p n (suc (suc (length fs + m))) s = subst (λ k. IsCounting p n k s) all c in
    subst
      (λ (x : Result (List Command) × ControlStore). IsCounting p n (suc m) (finalize_all fs x.1))
      (sym (counted_step p n (suc (suc (length fs + m))) f s c' h.0 h.1))
      (finalize_all-IsCounting fs p n m _
        (count_attempt-AreFresh p n (length fs + m) f fs s h.2 h.3)
        (subst
          (λ k.
            IsCounting p n k
              (count_attempt p f.attempt_id f.outcome n (suc (suc (length fs + m))) f.clock s).1)
          (sym left)
          (count_attempt-IsCounting p f.attempt_id f.outcome n (length fs + m) f.clock s c')))
