-- ===== src/Ledger/Runs.antt =====
-- The events of an attempt in sequence, on the ledger of simple_coding_agent/token_ledger.py.
use mathlib.Core.Path.{subst}
use simple_coding_agent.Base.{
  ℕ, String, ◌≡◌, refl, sym, inl, inr, ◌||◌, Option, none, some, List, [], ◌∷◌, ◌++◌, map, arith,
  ◌==◌, Bool-cases, Option-cases, member, All, All-append, All-map,
}
use simple_coding_agent.Base.Options.{◌>>=◌, >>=-some}
use simple_coding_agent.Ledger.Usage.{Usage, Report, usage_by_category, category_sum}
use simple_coding_agent.Ledger.Types.{Response, Thread, ThreadKind, TokenLedger, new_ledger}
use simple_coding_agent.Ledger.Readings.{find_thread, last_response, response_for_usage}
use simple_coding_agent.Ledger.Settling.{
  settle, settle_on, settle_found, settle_thread, settle_threads, settle_all_threads, track_peak,
}
use simple_coding_agent.Ledger.Events.{
  discard, new_thread, add_thread, add_if_new, new_thread, add_thread, add_if_new, start_thread,
  observe_response, observe_usage_on, observe_usage, feed, observe_input, notify_compaction,
  mark_thread, mark_interrupted,
}
use simple_coding_agent.Ledger.Reconciling.{settle_if_found, settle_each, reconcile}
use simple_coding_agent.Ledger.Sums.{some-injective, find_thread-id}
use simple_coding_agent.Ledger.Counting.{
  track_peak-threads, observe_on-cases, observe_response-found,
}
use simple_coding_agent.Ledger.Valid.{
  ThreadIsValid, IsValid, thread-Grows, mark_response-Trailing, mark_response-IsAccounted,
}
use simple_coding_agent.Ledger.Preserved.{
  track_peak-Grows, track_peak-bounds, settle-IsValid, count_response-IsValid, feed-IsValid,
  observe_measured-IsValid,
}

pub data LedgerEvent : Type 0 where
  thread_started : String → ThreadKind → ℕ → Option String → LedgerEvent
  response_observed : String → String → ℕ → LedgerEvent
  usage_observed : String → String → Option Report → LedgerEvent
  input_observed : String → ℕ → LedgerEvent
  compaction_notified : String → LedgerEvent
  interruption_marked : LedgerEvent
  thread_settled : String → LedgerEvent
  all_threads_settled : LedgerEvent
  reconciled : Option (List Report) → LedgerEvent

unfoldable pub apply_event : LedgerEvent → TokenLedger → Option TokenLedger
apply_event (thread_started id kind chars type) l = start_thread id kind chars type l
apply_event (response_observed id rid chars) l = observe_response id rid chars l >>= λ r. some r.1
apply_event (usage_observed id rid report) l = observe_usage id rid report l
apply_event (input_observed id chars) l = observe_input id chars l
apply_event (compaction_notified id) l = some (notify_compaction id l)
apply_event interruption_marked l = some ((mark_interrupted l).1)
apply_event (thread_settled id) l = some ((settle_thread id l).1)
apply_event all_threads_settled l = some ((settle_all_threads l).1)
apply_event (reconciled usages) l = some ((reconcile usages l).1)

unfoldable pub apply_events : List LedgerEvent → TokenLedger → Option TokenLedger
unfolding apply_event
apply_events [] l = some l
apply_events (e ∷ es) l = apply_event e l >>= apply_events es

add_thread-IsValid :
    (t : Thread) (l : TokenLedger) → t.responses ≡ [] → IsValid l → IsValid (add_thread t l)
unfolding add_thread
add_thread-IsValid t l e h =
    let m = record l {
      threads = l.threads ++ t ∷ [];
      compaction_pending = discard t.id l.compaction_pending;
    } in
    let n = track_peak t none m in
    subst (All (ThreadIsValid n)) (sym (track_peak-threads t none m)) (
      All-append (ThreadIsValid n) l.threads (t ∷ [])
        (All-map (ThreadIsValid l) (ThreadIsValid n)
          (λ u. thread-Grows l n u (track_peak-Grows t none m)) l.threads h)
        ((track_peak-bounds t none m, simp e tt, simp e tt), tt))

start_thread-IsValid :
    (o : Option Thread) (t : Thread) (l l' : TokenLedger)
    → t.responses ≡ []
    → add_if_new o t l ≡ some l'
    → IsValid l
    → IsValid l'
unfolding add_if_new
start_thread-IsValid (some old) t l l' r e h = absurd (ground (arith, e))
start_thread-IsValid none t l l' r e h =
    subst IsValid (some-injective e) (add_thread-IsValid t l r h)

mark_threads-IsValid :
    (l m : TokenLedger) (ts : List Thread)
    → All (ThreadIsValid l) ts
    → All (ThreadIsValid l) (map mark_thread ts)
unfolding mark_thread
mark_threads-IsValid l m [] h = tt
mark_threads-IsValid l m (t ∷ ts) h = (
  (
    h.0.0,
    mark_response-IsAccounted l t.id t.responses h.0.1,
    mark_response-Trailing t.responses h.0.2,
  ),
  mark_threads-IsValid l m ts h.1,
)

settle_found-IsValid :
    (id : String) (l : TokenLedger) (t : Thread)
    → IsValid l
    → find_thread id l.threads ≡ some t
    → IsValid (settle t l)
settle_found-IsValid id l t h f =
    (settle-IsValid t l h
      (subst (λ k. find_thread k l.threads ≡ some t) (sym (find_thread-id id l.threads t f)) f)).1

settle_on-IsValid :
    (t : Thread) (o : Option Response) (l : TokenLedger)
    → IsValid l
    → IsValid (settle t l)
    → IsValid ((settle_on t o l).1)
unfolding settle_on
settle_on-IsValid t none l h k = h
settle_on-IsValid t (some r) l h k = elim (Bool-cases (r.settled || r.interrupted)) [
  | inl b ↦ rw b h
  | inr b ↦ rw b k
]

settle_thread-IsValid :
    (id : String) (l : TokenLedger) → IsValid l → IsValid ((settle_thread id l).1)
unfolding settle_thread settle_found
settle_thread-IsValid id l h = elim (Option-cases (find_thread id l.threads)) [
  | inl e ↦ rw (settle_found, e) h
  | inr e ↦
      rw (settle_found, e.1)
        (settle_on-IsValid e.0 (last_response e.0.responses) l h
          (settle_found-IsValid id l e.0 h e.1))
]

settle_threads-IsValid :
    (ids : List String) (l : TokenLedger) → IsValid l → IsValid ((settle_threads ids l).1)
unfolding settle_threads
settle_threads-IsValid [] l h = h
settle_threads-IsValid (id ∷ ids) l h =
    settle_threads-IsValid ids ((settle_thread id l).1) (settle_thread-IsValid id l h)

settle_each-IsValid :
    (ids : List String) (l : TokenLedger) → IsValid l → IsValid (settle_each ids l)
unfolding settle_each
settle_each-IsValid [] l h = h
settle_each-IsValid (id ∷ ids) l h =
    settle_each-IsValid ids _ (elim (Option-cases (find_thread id l.threads)) [
      | inl e ↦ rw (settle_if_found, e) h
      | inr e ↦ rw (settle_if_found, e.1) (settle_found-IsValid id l e.0 h e.1)
    ])

observe_usage_on-IsValid :
    (t : Thread) (rid : String) (u : Usage) (l : TokenLedger)
    → IsValid l
    → find_thread t.id l.threads ≡ some t
    → IsValid (observe_usage_on t rid u l)
unfolding observe_usage_on
observe_usage_on-IsValid t rid u l h f = elim (Option-cases (response_for_usage t.responses rid)) [
  | inl e ↦ rw (observe_usage_on, e) h
  | inr e ↦ rw (observe_usage_on, e.1) (observe_measured-IsValid t e.0 u l h f)
]

-- A step that works on the thread that it finds.
on_thread-IsValid :
    (id : String) (f : Thread → TokenLedger) (l l' : TokenLedger)
    → (find_thread id l.threads >>= λ t. some (f t)) ≡ some l'
    → ((t : Thread) → find_thread t.id l.threads ≡ some t → IsValid (f t))
    → IsValid l'
on_thread-IsValid id f l l' h k =
    let s = >>=-some (find_thread id l.threads) (λ t. some (f t)) l' h in
    subst IsValid (some-injective s.2) (
      k s.0 (
        subst (λ x. find_thread x l.threads ≡ some s.0) (sym (find_thread-id id l.threads s.0 s.1))
          s.1))

observe_response-IsValid :
    (id rid : String) (chars : ℕ) (l : TokenLedger) (r : ℕ × TokenLedger)
    → observe_response id rid chars l ≡ some r
    → IsValid l
    → IsValid r.1
observe_response-IsValid id rid chars l r e h =
    let c = observe_response-found id rid chars l r e in
    subst (λ x. IsValid x.1) c.4
      (elim (observe_on-cases c.0 rid chars l) [
        | inl k ↦ rw k.2 h
        | inr k ↦ rw k.1 (count_response-IsValid c.0 rid chars l h c.2)
      ])

notify_compaction-IsValid :
    (id : String) (l : TokenLedger) → IsValid l → IsValid (notify_compaction id l)
unfolding notify_compaction
notify_compaction-IsValid id l h = elim (Bool-cases (member id l.compaction_pending)) [
  | inl b ↦ rw (notify_compaction, b) h
  | inr b ↦ rw (notify_compaction, b) h
]

apply_event-IsValid :
    (e : LedgerEvent) (l l' : TokenLedger) → apply_event e l ≡ some l' → IsValid l → IsValid l'
unfolding apply_event observe_usage observe_input mark_interrupted settle_all_threads reconcile
    start_thread new_thread
apply_event-IsValid (thread_started id kind chars type) l l' h v =
    start_thread-IsValid (find_thread id l.threads) (new_thread id kind chars type l) l l' refl h v
apply_event-IsValid (response_observed id rid chars) l l' h v =
    let s = >>=-some (observe_response id rid chars l) (λ r. some r.1) l' h in
    subst IsValid (some-injective s.2) (observe_response-IsValid id rid chars l s.0 s.1 v)
apply_event-IsValid (usage_observed id rid none) l l' h v = subst IsValid (some-injective h) v
apply_event-IsValid (usage_observed id rid (some report)) l l' h v =
    elim (Bool-cases (category_sum (usage_by_category report) == 0)) [
      | inl b ↦ subst IsValid (some-injective (simp b at h)) v
      | inr b ↦
          on_thread-IsValid id (λ t. observe_usage_on t rid (usage_by_category report) l) l l'
            (simp b at h) (λ t f. observe_usage_on-IsValid t rid (usage_by_category report) l v f)
    ]
apply_event-IsValid (input_observed id chars) l l' h v =
    on_thread-IsValid id (λ t. feed t chars l) l l' h (λ t f. feed-IsValid t chars l v f)
apply_event-IsValid (compaction_notified id) l l' h v =
    subst IsValid (some-injective h) (notify_compaction-IsValid id l v)
apply_event-IsValid interruption_marked l l' h v =
    subst IsValid (some-injective h) (mark_threads-IsValid l l l.threads v)
apply_event-IsValid (thread_settled id) l l' h v =
    subst IsValid (some-injective h) (settle_thread-IsValid id l v)
apply_event-IsValid all_threads_settled l l' h v =
    subst IsValid (some-injective h) (settle_threads-IsValid (map (λ t. t.id) l.threads) l v)
apply_event-IsValid (reconciled usages) l l' h v =
    subst IsValid (some-injective h) (settle_each-IsValid (map (λ t. t.id) l.threads) l v)

events-IsValid :
    (es : List LedgerEvent) (l l' : TokenLedger)
    → apply_events es l ≡ some l'
    → IsValid l
    → IsValid l'
unfolding apply_events
events-IsValid [] l l' h v = subst IsValid (some-injective h) v
events-IsValid (e ∷ es) l l' h v =
    let s = >>=-some (apply_event e l) (apply_events es) l' h in
    events-IsValid es s.0 l' s.2 (apply_event-IsValid e l s.0 s.1 v)

pub apply_events-IsValid :
    (es : List LedgerEvent) (l : TokenLedger) → apply_events es new_ledger ≡ some l → IsValid l
unfolding new_ledger
apply_events-IsValid es l h = events-IsValid es new_ledger l h tt
