-- ===== src/Ledger/Neutral.antt =====
-- The events of the ledger that leave the count of tokens alone.
use mathlib.Core.Path.{subst}
use simple_coding_agent.Base.{
  ℕ, ◌+◌, String, ◌≡◌, refl, sym, ap, ◌∙◌, inl, inr, Bool, true, false, ◌||◌, not, Option, none,
  some, List, [], ◌∷◌, ◌++◌, map, arith, Bool-cases, member,
}
use simple_coding_agent.Base.Options.{>>=-some}
use simple_coding_agent.Ledger.Types.{Response, counted, Thread, TokenLedger}
use simple_coding_agent.Ledger.Readings.{
  find_thread, last_response, is_measured, amount_of, threads_amount_of, measured_tokens,
  estimated_tokens,
}
use simple_coding_agent.Ledger.Settling.{
  settled_thread, settle, settle_on, settle_found, settle_thread, settle_threads,
  settle_all_threads,
}
use simple_coding_agent.Ledger.Events.{
  new_thread, add_thread, add_if_new, start_thread, fed_thread, feed, observe_input,
  notify_compaction, is_in_flight, mark_response, mark_thread, mark_interrupted,
}
use simple_coding_agent.Ledger.Reconciling.{settle_if_found, settle_each, reconcile}
use simple_coding_agent.Ledger.Sums.{
  some-injective, find_thread-id, put_thread-amount, settle_last-amount, settle-amount,
}
use simple_coding_agent.Ledger.Counting.{track_peak-threads, settled-find, settled-amount}
use simple_coding_agent.Ledger.Runs.{
  LedgerEvent, thread_started, response_observed, usage_observed, input_observed,
  compaction_notified, interruption_marked, thread_settled, all_threads_settled, reconciled,
  apply_event,
}

-- The amount of the responses that pass a test is kept.
abbrev Keeps : (Response → Bool) → TokenLedger → TokenLedger → Type 0
Keeps p l m = threads_amount_of p m.threads ≡ threads_amount_of p l.threads

module _ (p : Response → Bool) (f : (r : Response) → p (record r { settled = true }) ≡ p r) where
  threads_amount_of-append :
      (ts us : List Thread)
      → threads_amount_of p (ts ++ us) ≡ threads_amount_of p ts + threads_amount_of p us
  unfolding threads_amount_of
  threads_amount_of-append [] us = omega arith
  threads_amount_of-append (t ∷ ts) us = omega (arith, threads_amount_of-append ts us)

  feed-Keeps :
      (t : Thread) (chars : ℕ) (l : TokenLedger)
      → find_thread t.id l.threads ≡ some t
      → Keeps p l (feed t chars l)
  unfolding feed fed_thread settled_thread
  feed-Keeps t chars l h =
      let u = settled-find t l h in
      ap (threads_amount_of p) (track_peak-threads (fed_thread t chars) none _)
      ∙ omega (
        arith,
        put_thread-amount p u.0 (fed_thread t chars) (settle t l).threads u.1,
        settled-amount p f t u.0 u.2,
        settle-amount p t l f h,
        settle_last-amount p t.responses f,
      )

  add_thread-Keeps : (t : Thread) (l : TokenLedger) → t.responses ≡ [] → Keeps p l (add_thread t l)
  unfolding add_thread threads_amount_of amount_of
  add_thread-Keeps t l e =
      ap (threads_amount_of p) (track_peak-threads t none _)
      ∙ threads_amount_of-append l.threads (t ∷ [])
      ∙ omega (arith, ap (amount_of p) e)

  settle_id-Keeps :
      (id : String) (l : TokenLedger) (t : Thread)
      → find_thread id l.threads ≡ some t
      → Keeps p l (settle t l)
  settle_id-Keeps id l t h =
      settle-amount p t l f
        (subst (λ k. find_thread k l.threads ≡ some t) (sym (find_thread-id id l.threads t h)) h)

  settle_on-Keeps :
      (t : Thread) (o : Option Response) (l : TokenLedger)
      → Keeps p l (settle t l)
      → Keeps p l ((settle_on t o l).1)
  unfolding settle_on
  settle_on-Keeps t none l k = refl
  settle_on-Keeps t (some r) l k = elim (Bool-cases (r.settled || r.interrupted)) [
    | inl b ↦ rw b refl
    | inr b ↦ rw b k
  ]

  settle_found-Keeps :
      (o : Option Thread) (l : TokenLedger)
      → ((t : Thread) → o ≡ some t → Keeps p l (settle t l))
      → Keeps p l ((settle_found o l).1) × Keeps p l (settle_if_found o l)
  unfolding settle_found settle_if_found
  settle_found-Keeps none l k = (refl, refl)
  settle_found-Keeps (some t) l k =
      (settle_on-Keeps t (last_response t.responses) l (k t refl), k t refl)

  settle_thread-Keeps : (id : String) (l : TokenLedger) → Keeps p l ((settle_thread id l).1)
  unfolding settle_thread
  settle_thread-Keeps id l =
      (settle_found-Keeps (find_thread id l.threads) l (settle_id-Keeps id l)).0

  settle_threads-Keeps :
      (ids : List String) (l : TokenLedger) → Keeps p l ((settle_threads ids l).1)
  unfolding settle_threads
  settle_threads-Keeps [] l = refl
  settle_threads-Keeps (id ∷ ids) l =
      settle_threads-Keeps ids ((settle_thread id l).1) ∙ settle_thread-Keeps id l

  pub settle_each-Keeps : (ids : List String) (l : TokenLedger) → Keeps p l (settle_each ids l)
  unfolding settle_each
  settle_each-Keeps [] l = refl
  settle_each-Keeps (id ∷ ids) l =
      settle_each-Keeps ids _
      ∙ (settle_found-Keeps (find_thread id l.threads) l (settle_id-Keeps id l)).1

mark_response-counted : (r : Response) → counted (mark_response r) ≡ counted r
unfolding mark_response counted
mark_response-counted r = elim (Bool-cases (is_in_flight r)) [
  | inl b ↦ rw b refl
  | inr b ↦ rw b refl
]

mark_response-is_measured : (r : Response) → is_measured (mark_response r) ≡ is_measured r
unfolding mark_response is_measured
mark_response-is_measured r = elim (Bool-cases (is_in_flight r)) [
  | inl b ↦ rw b refl
  | inr b ↦ rw b refl
]

mark_response-amount :
    (p : Response → Bool) (rs : List Response)
    → ((r : Response) → p (mark_response r) ≡ p r)
    → amount_of p (map mark_response rs) ≡ amount_of p rs
unfolding amount_of
mark_response-amount p [] g = refl
mark_response-amount p (r ∷ rs) g =
    rw (g r, mark_response-counted r) (omega (arith, mark_response-amount p rs g))

mark_threads-amount :
    (p : Response → Bool) (ts : List Thread)
    → ((r : Response) → p (mark_response r) ≡ p r)
    → threads_amount_of p (map mark_thread ts) ≡ threads_amount_of p ts
unfolding threads_amount_of mark_thread
mark_threads-amount p [] g = refl
mark_threads-amount p (t ∷ ts) g =
    omega (arith, mark_response-amount p t.responses g, mark_threads-amount p ts g)

-- The events that are no response and no report of usage.
abbrev pub is_neutral : LedgerEvent → Bool
is_neutral (response_observed id rid chars) = false
is_neutral (usage_observed id rid report) = false
is_neutral (thread_started id kind chars type) = true
is_neutral (input_observed id chars) = true
is_neutral (compaction_notified id) = true
is_neutral interruption_marked = true
is_neutral (thread_settled id) = true
is_neutral all_threads_settled = true
is_neutral (reconciled usages) = true

module _ (p : Response → Bool) (f : (r : Response) → p (record r { settled = true }) ≡ p r)
    (g : (r : Response) → p (mark_response r) ≡ p r) where
  add_if_new-Keeps :
      (o : Option Thread) (t : Thread) (l l' : TokenLedger)
      → t.responses ≡ []
      → add_if_new o t l ≡ some l'
      → Keeps p l l'
  unfolding add_if_new
  add_if_new-Keeps none t l l' e h =
      subst (Keeps p l) (some-injective h) (add_thread-Keeps p f t l e)
  add_if_new-Keeps (some old) t l l' e h = absurd (ground (arith, h))

  observe_input-Keeps :
      (id : String) (chars : ℕ) (l l' : TokenLedger)
      → observe_input id chars l ≡ some l'
      → Keeps p l l'
  unfolding observe_input
  observe_input-Keeps id chars l l' h =
      let s = >>=-some (find_thread id l.threads) (λ t. some (feed t chars l)) l' h in
      subst (Keeps p l) (some-injective s.2) (
        feed-Keeps p f s.0 chars l (
          subst (λ k. find_thread k l.threads ≡ some s.0)
            (sym (find_thread-id id l.threads s.0 s.1)) s.1))

  notify_compaction-Keeps : (id : String) (l : TokenLedger) → Keeps p l (notify_compaction id l)
  unfolding notify_compaction
  notify_compaction-Keeps id l = elim (Bool-cases (member id l.compaction_pending)) [
    | inl b ↦ rw (notify_compaction, b) refl
    | inr b ↦ rw (notify_compaction, b) refl
  ]

  apply_event-Keeps :
      (e : LedgerEvent) (l l' : TokenLedger)
      → is_neutral e ≡ true
      → apply_event e l ≡ some l'
      → Keeps p l l'
  unfolding apply_event start_thread new_thread mark_interrupted settle_all_threads reconcile
  apply_event-Keeps (response_observed id rid chars) l l' n h = absurd (ground (arith, n))
  apply_event-Keeps (usage_observed id rid report) l l' n h = absurd (ground (arith, n))
  apply_event-Keeps (thread_started id kind chars type) l l' n h =
      add_if_new-Keeps (find_thread id l.threads) (new_thread id kind chars type l) l l' refl h
  apply_event-Keeps (input_observed id chars) l l' n h = observe_input-Keeps id chars l l' h
  apply_event-Keeps (compaction_notified id) l l' n h =
      subst (Keeps p l) (some-injective h) (notify_compaction-Keeps id l)
  apply_event-Keeps interruption_marked l l' n h =
      subst (Keeps p l) (some-injective h) (mark_threads-amount p l.threads g)
  apply_event-Keeps (thread_settled id) l l' n h =
      subst (Keeps p l) (some-injective h) (settle_thread-Keeps p f id l)
  apply_event-Keeps all_threads_settled l l' n h =
      subst (Keeps p l) (some-injective h) (settle_threads-Keeps p f (map (λ t. t.id) l.threads) l)
  apply_event-Keeps (reconciled usages) l l' n h =
      subst (Keeps p l) (some-injective h) (settle_each-Keeps p f (map (λ t. t.id) l.threads) l)

-- Only responses and reports of usage change what is counted: any other event that is accepted, an
-- interruption and a reconciliation among them, leaves the measured and the estimated tokens.
pub apply_event-budget :
    (e : LedgerEvent) (l l' : TokenLedger)
    → is_neutral e ≡ true
    → apply_event e l ≡ some l'
    → (measured_tokens l' ≡ measured_tokens l) × (estimated_tokens l' ≡ estimated_tokens l)
unfolding measured_tokens estimated_tokens is_measured
apply_event-budget e l l' n h = (
  apply_event-Keeps is_measured (λ r. refl) mark_response-is_measured e l l' n h,
  apply_event-Keeps (λ r. not (is_measured r)) (λ r. refl)
      (λ r. ap not (mark_response-is_measured r)) e l l' n h,
)
