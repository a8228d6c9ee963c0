-- ===== src/Ledger/Lasting.antt =====
-- A response that is settled stays settled, over the events of the token ledger.
use mathlib.Core.Path.{subst}
use simple_coding_agent.Base.{
  ℕ, String, ◌≡◌, sym, inl, inr, ◌||◌, Option, none, some, List, [], ◌∷◌, map, arith, ◌==◌,
  Bool-cases, Option-cases, member,
}
use simple_coding_agent.Base.Options.{◌>>=◌, >>=-some}
use simple_coding_agent.Ledger.Usage.{category_sum, usage_by_category}
use simple_coding_agent.Ledger.Types.{Response, Thread, TokenLedger}
use simple_coding_agent.Ledger.Readings.{find_thread, last_response}
use simple_coding_agent.Ledger.Settling.{
  settle, settle_on, settle_found, settle_thread, settle_threads, settle_all_threads,
}
use simple_coding_agent.Ledger.Events.{
  new_thread, add_thread, add_if_new, start_thread, observe_response, observe_usage_on,
  observe_usage, feed, observe_input, notify_compaction, mark_thread, mark_interrupted,
}
use simple_coding_agent.Ledger.Reconciling.{settle_if_found, settle_each, reconcile}
use simple_coding_agent.Ledger.Sums.{some-injective, find_thread-id}
use simple_coding_agent.Ledger.Counting.{
  track_peak-threads, observe_response-found, observe_on-cases,
}
use simple_coding_agent.Ledger.Runs.{
  LedgerEvent, thread_started, response_observed, usage_observed, input_observed,
  compaction_notified, interruption_marked, thread_settled, all_threads_settled, reconciled,
  apply_event, apply_events,
}
use simple_coding_agent.Ledger.Done.{is_done-mark, find_thread-append, find_thread-mark}
use simple_coding_agent.Ledger.Keeping.{
  IsDone, settle_id-IsDone, count_response-IsDone, feed-IsDone, observe_usage_on-IsDone,
}

module _ (id rid : String) where
  settle_on-IsDone :
      (t : Thread) (o : Option Response) (l : TokenLedger)
      → IsDone id rid l.threads
      → IsDone id rid (settle t l).threads
      → IsDone id rid ((settle_on t o l).1).threads
  unfolding settle_on
  settle_on-IsDone t none l d k = d
  settle_on-IsDone t (some r) l d k = elim (Bool-cases (r.settled || r.interrupted)) [
    | inl b ↦ rw b d
    | inr b ↦ rw b k
  ]

  settle_thread-IsDone :
      (key : String) (l : TokenLedger)
      → IsDone id rid l.threads
      → IsDone id rid ((settle_thread key l).1).threads
  unfolding settle_thread settle_found
  settle_thread-IsDone key l d = elim (Option-cases (find_thread key l.threads)) [
    | inl e ↦ rw (settle_found, e) d
    | inr e ↦
        rw (settle_found, e.1)
          (settle_on-IsDone e.0 (last_response e.0.responses) l d
            (settle_id-IsDone id rid key l e.0 e.1 d))
  ]

  settle_threads-IsDone :
      (keys : List String) (l : TokenLedger)
      → IsDone id rid l.threads
      → IsDone id rid ((settle_threads keys l).1).threads
  unfolding settle_threads
  settle_threads-IsDone [] l d = d
  settle_threads-IsDone (key ∷ keys) l d =
      settle_threads-IsDone keys ((settle_thread key l).1) (settle_thread-IsDone key l d)

  settle_each-IsDone :
      (keys : List String) (l : TokenLedger)
      → IsDone id rid l.threads
      → IsDone id rid (settle_each keys l).threads
  unfolding settle_each
  settle_each-IsDone [] l d = d
  settle_each-IsDone (key ∷ keys) l d =
      settle_each-IsDone keys _ (elim (Option-cases (find_thread key l.threads)) [
        | inl e ↦ rw (settle_if_found, e) d
        | inr e ↦ rw (settle_if_found, e.1) (settle_id-IsDone id rid key l e.0 e.1 d)
      ])

  add_if_new-IsDone :
      (o : Option Thread) (t : Thread) (l l' : TokenLedger)
      → add_if_new o t l ≡ some l'
      → IsDone id rid l.threads
      → IsDone id rid l'.threads
  unfolding add_if_new add_thread
  add_if_new-IsDone (some old) t l l' h d = absurd (ground (arith, h))
  add_if_new-IsDone none t l l' h (u, g, d) =
      subst (λ m. IsDone id rid m.threads) (some-injective h)
        (subst (IsDone id rid) (sym (track_peak-threads t none _))
          (u, find_thread-append id l.threads (t ∷ []) u g, d))

  -- A step that works on the thread that it finds.
  on_thread-IsDone :
      (key : String) (f : Thread → TokenLedger) (l l' : TokenLedger)
      → (find_thread key l.threads >>= λ t. some (f t)) ≡ some l'
      → ((t : Thread) → find_thread t.id l.threads ≡ some t → IsDone id rid (f t).threads)
      → IsDone id rid l'.threads
  on_thread-IsDone key f l l' h k =
      let s = >>=-some (find_thread key l.threads) (λ t. some (f t)) l' h in
      subst (λ m. IsDone id rid m.threads) (some-injective s.2)
        (k s.0 (
          subst (λ x. find_thread x l.threads ≡ some s.0)
            (sym (find_thread-id key l.threads s.0 s.1)) s.1))

  observe_response-IsDone :
      (key rkey : String) (chars : ℕ) (l : TokenLedger) (r : ℕ × TokenLedger)
      → observe_response key rkey chars l ≡ some r
      → IsDone id rid l.threads
      → IsDone id rid r.1.threads
  observe_response-IsDone key rkey chars l r e d =
      let c = observe_response-found key rkey chars l r e in
      subst (λ x. IsDone id rid x.1.threads) c.4
        (elim (observe_on-cases c.0 rkey chars l) [
          | inl k ↦ rw k.2 d
          | inr k ↦ rw k.1 (count_response-IsDone id rid c.0 rkey chars l c.2 k.0 d)
        ])

  notify_compaction-IsDone :
      (key : String) (l : TokenLedger)
      → IsDone id rid l.threads
      → IsDone id rid (notify_compaction key l).threads
  unfolding notify_compaction
  notify_compaction-IsDone key l d = elim (Bool-cases (member key l.compaction_pending)) [
    | inl b ↦ rw (notify_compaction, b) d
    | inr b ↦ rw (notify_compaction, b) d
  ]

  mark_threads-IsDone : (ts : List Thread) → IsDone id rid ts → IsDone id rid (map mark_thread ts)
  unfolding mark_thread
  mark_threads-IsDone ts (t, f, d) =
      let k = is_done-mark rid t.responses in
      (mark_thread t, find_thread-mark id ts t f, rw (k.0, k.1) d)

  apply_event-IsDone :
      (e : LedgerEvent) (l l' : TokenLedger)
      → apply_event e l ≡ some l'
      → IsDone id rid l.threads
      → IsDone id rid l'.threads
  unfolding apply_event observe_usage observe_input mark_interrupted settle_all_threads reconcile
      start_thread
  apply_event-IsDone (thread_started key kind chars type) l l' h d =
      add_if_new-IsDone (find_thread key l.threads) (new_thread key kind chars type l) l l' h d
  apply_event-IsDone (response_observed key rkey chars) l l' h d =
      let s = >>=-some (observe_response key rkey chars l) (λ r. some r.1) l' h in
      subst (λ m. IsDone id rid m.threads) (some-injective s.2)
        (observe_response-IsDone key rkey chars l s.0 s.1 d)
  apply_event-IsDone (usage_observed key rkey none) l l' h d =
      subst (λ m. IsDone id rid m.threads) (some-injective h) d
  apply_event-IsDone (usage_observed key rkey (some report)) l l' h d =
      elim (Bool-cases (category_sum (usage_by_category report) == 0)) [
        | inl b ↦ subst (λ m. IsDone id rid m.threads) (some-injective (simp b at h)) d
        | inr b ↦
            on_thread-IsDone key (λ t. observe_usage_on t rkey (usage_by_category report) l) l l'
              (simp b at h)
              (λ t f. observe_usage_on-IsDone id rid t rkey (usage_by_category report) l f d)
      ]
  apply_event-IsDone (input_observed key chars) l l' h d =
      on_thread-IsDone key (λ t. feed t chars l) l l' h (λ t f. feed-IsDone id rid t chars l f d)
  apply_event-IsDone (compaction_notified key) l l' h d =
      subst (λ m. IsDone id rid m.threads) (some-injective h) (notify_compaction-IsDone key l d)
  apply_event-IsDone interruption_marked l l' h d =
      subst (λ m. IsDone id rid m.threads) (some-injective h) (mark_threads-IsDone l.threads d)
  apply_event-IsDone (thread_settled key) l l' h d =
      subst (λ m. IsDone id rid m.threads) (some-injective h) (settle_thread-IsDone key l d)
  apply_event-IsDone all_threads_settled l l' h d =
      subst (λ m. IsDone id rid m.threads) (some-injective h)
        (settle_threads-IsDone (map (λ t. t.id) l.threads) l d)
  apply_event-IsDone (reconciled usages) l l' h d =
      subst (λ m. IsDone id rid m.threads) (some-injective h)
        (settle_each-IsDone (map (λ t. t.id) l.threads) l d)

  pub apply_events-IsDone :
      (es : List LedgerEvent) (l l' : TokenLedger)
      → apply_events es l ≡ some l'
      → IsDone id rid l.threads
      → IsDone id rid l'.threads
  unfolding apply_events
  apply_events-IsDone [] l l' h d = subst (λ m. IsDone id rid m.threads) (some-injective h) d
  apply_events-IsDone (e ∷ es) l l' h d =
      let s = >>=-some (apply_event e l) (apply_events es) l' h in
      apply_events-IsDone es s.0 l' s.2 (apply_event-IsDone e l s.0 s.1 d)
