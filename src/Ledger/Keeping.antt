-- ===== src/Ledger/Keeping.antt =====
-- A response that is settled stays settled, over what the token ledger does to one thread.
use mathlib.Core.Path.{subst}
use simple_coding_agent.Base.{
  ℕ, String, ◌≡◌, refl, sym, ap, ◌∙◌, inl, inr, true, none, some, List, arith, Bool-cases,
  Option-cases, text_eq, text_eq→≡,
}
use simple_coding_agent.Ledger.Usage.{Usage}
use simple_coding_agent.Ledger.Types.{Response, Thread, TokenLedger}
use simple_coding_agent.Ledger.Readings.{find_thread, put_thread, find_response, response_for_usage}
use simple_coding_agent.Ledger.Settling.{settle_last, settled_thread, settle_response, settle}
use simple_coding_agent.Ledger.Events.{
  new_response, grown_thread, count_response, measured_thread, observe_measured, observe_usage_on,
  fed_thread, feed,
}
use simple_coding_agent.Ledger.Sums.{some-injective, find_thread-id, find_thread-put, settle-cases}
use simple_coding_agent.Ledger.Counting.{track_peak-threads, settled-find}
use simple_coding_agent.Ledger.Done.{
  has_response, is_done, has-settle_last, is_done-settle_last, is_done-update, is_done-append,
  has_response-found, find_thread-other,
}

module _ (id rid : String) where
  -- The thread has the response, settled.
  abbrev pub IsDone : List Thread → Type 0
  IsDone ts = (t : Thread) × (find_thread id ts ≡ some t) × (is_done rid t.responses ≡ true)

  IsDone-same : (l m : TokenLedger) → m.threads ≡ l.threads → IsDone l.threads → IsDone m.threads
  IsDone-same l m e d = subst IsDone (sym e) d

  -- A thread is replaced by one that has the response settled if the old one had.
  IsDone-put :
      (t t' : Thread) (ts : List Thread)
      → find_thread t'.id ts ≡ some t
      → (is_done rid t.responses ≡ true → is_done rid t'.responses ≡ true)
      → IsDone ts
      → IsDone (put_thread t' ts)
  IsDone-put t t' ts f k (u, g, d) = elim (Bool-cases (text_eq t'.id id)) [
    | inl b ↦
        let e = text_eq→≡ t'.id id b in
        let same : t ≡ u = some-injective (sym (subst (λ x. find_thread x ts ≡ some t) e f) ∙ g) in
        (
          t',
          subst (λ x. find_thread x (put_thread t' ts) ≡ some t') e (find_thread-put t t' ts f),
          k (subst (λ x. is_done rid x.responses ≡ true) (sym same) d),
        )
    | inr b ↦ (u, find_thread-other id t' ts b ∙ g, d)
  ]

  settle-IsDone :
      (t : Thread) (l : TokenLedger)
      → find_thread t.id l.threads ≡ some t
      → IsDone l.threads
      → IsDone (settle t l).threads
  unfolding settle_response settled_thread
  settle-IsDone t l f d = elim (settle-cases t l) [
    | inl c ↦ IsDone-same l (settle t l) (ap (λ k. k.threads) c.0) d
    | inr c ↦
        subst IsDone (sym (ap (λ k. k.threads) c.3))
          (IsDone-put t (settled_thread t) l.threads f (is_done-settle_last rid t.responses) d)
  ]

  pub settle_id-IsDone :
      (key : String) (l : TokenLedger) (t : Thread)
      → find_thread key l.threads ≡ some t
      → IsDone l.threads
      → IsDone (settle t l).threads
  settle_id-IsDone key l t f d =
      settle-IsDone t l
        (subst (λ k. find_thread k l.threads ≡ some t) (sym (find_thread-id key l.threads t f)) f) d

  -- A thread is replaced after it has been settled.
  settled_put-IsDone :
      (t t' : Thread) (l : TokenLedger)
      → t'.id ≡ t.id
      → find_thread t.id l.threads ≡ some t
      → (is_done rid (settle_last t.responses) ≡ true → is_done rid t'.responses ≡ true)
      → (is_done rid t.responses ≡ true → is_done rid t'.responses ≡ true)
      → IsDone l.threads
      → IsDone (put_thread t' (settle t l).threads)
  unfolding settled_thread
  settled_put-IsDone t t' l e f k n d =
      let u = settled-find t l f in
      IsDone-put u.0 t' (settle t l).threads
        (subst (λ x. find_thread x (settle t l).threads ≡ some u.0) (sym e) u.1)
        (elim u.2 [
          | inl same ↦ λ h. n (subst (λ x. is_done rid x.responses ≡ true) same h)
          | inr same ↦ λ h. k (subst (λ x. is_done rid x.responses ≡ true) same h)
        ])
        (settle-IsDone t l f d)

  pub feed-IsDone :
      (t : Thread) (chars : ℕ) (l : TokenLedger)
      → find_thread t.id l.threads ≡ some t
      → IsDone l.threads
      → IsDone (feed t chars l).threads
  unfolding feed fed_thread settled_thread
  feed-IsDone t chars l f d = subst IsDone (sym (track_peak-threads (fed_thread t chars) none _)) (
      settled_put-IsDone t (fed_thread t chars) l refl f (λ h. h)
        (is_done-settle_last rid t.responses) d)

  -- A response that the thread does not have yet is another one.
  grown-is_done :
      (t : Thread) (r : Response)
      → find_response r.id t.responses ≡ none
      → is_done rid (settle_last t.responses) ≡ true
      → is_done rid (grown_thread t r).responses ≡ true
  unfolding grown_thread settled_thread
  grown-is_done t r n h = elim (Bool-cases (text_eq r.id rid)) [
    | inl b ↦
        let had : has_response rid t.responses ≡ true =
          ground (arith, has-settle_last rid t.responses, h) in
        absurd (
          has_response-found rid t.responses had
            (subst (λ x. find_response x t.responses ≡ none) (text_eq→≡ r.id rid b) n))
    | inr b ↦ is_done-append rid r (settle_last t.responses) b h
  ]

  pub count_response-IsDone :
      (t : Thread) (key : String) (chars : ℕ) (l : TokenLedger)
      → find_thread t.id l.threads ≡ some t
      → find_response key t.responses ≡ none
      → IsDone l.threads
      → IsDone ((count_response t key chars l).1).threads
  unfolding count_response new_response grown_thread
  count_response-IsDone t key chars l f n d =
      let r = new_response t key chars l.compaction_pending in
      let grow = grown-is_done t r n in
      subst IsDone (sym (track_peak-threads (grown_thread t r) none _)) (
        settled_put-IsDone t (grown_thread t r) l refl f grow
          (λ h. grow (is_done-settle_last rid t.responses h)) d)

  pub observe_usage_on-IsDone :
      (t : Thread) (key : String) (u : Usage) (l : TokenLedger)
      → find_thread t.id l.threads ≡ some t
      → IsDone l.threads
      → IsDone (observe_usage_on t key u l).threads
  unfolding observe_usage_on observe_measured measured_thread
  observe_usage_on-IsDone t key u l f d = elim (Option-cases (response_for_usage t.responses key)) [
    | inl e ↦ rw (observe_usage_on, e) d
    | inr e ↦
        let k = λ (v : Usage). is_done-update rid e.0.id v t.responses in
        rw (observe_usage_on, e.1)
          (subst IsDone (sym (track_peak-threads (measured_thread t e.0 u) _ _))
            (IsDone-put t (measured_thread t e.0 u) l.threads f (λ h. rw ((k _).0, (k _).1) h) d))
  ]
