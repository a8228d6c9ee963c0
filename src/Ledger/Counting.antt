-- ===== src/Ledger/Counting.antt =====
-- How the events of the ledger change its readings.
use mathlib.Core.Path.{subst}
use simple_coding_agent.Base.{
  ℕ, ◌+◌, String, ◌≡◌, refl, sym, ap, ◌∙◌, ◌⊎◌, inl, inr, Bool, true, false, not, Option, none,
  some, [], ◌∷◌, arith, if◌then◌else◌, Option-cases,
}
use simple_coding_agent.Base.Options.{>>=-some}
use simple_coding_agent.Ledger.Types.{Response, counted, Thread, Basis, TokenLedger}
use simple_coding_agent.Ledger.Readings.{
  find_thread, find_response, is_measured, amount_of, threads_amount_of, measured_tokens,
  estimated_tokens, budget_tokens,
}
use simple_coding_agent.Ledger.Settling.{
  settle_last, settled_thread, settle_response, settle, track_peak,
}
use simple_coding_agent.Ledger.Events.{
  new_response, grown_thread, count_response, observe_on, observe_response,
}
use simple_coding_agent.Ledger.Sums.{
  some-injective, find_thread-id, find_thread-put, amount_of-append, put_thread-amount,
  settle_last-amount, settle-cases, settle-amount,
}

pub track_peak-threads :
    (t : Thread) (b : Option Basis) (l : TokenLedger) → (track_peak t b l).threads ≡ l.threads
unfolding track_peak
track_peak-threads t b l = ground arith

pub settled-find :
    (t : Thread) (l : TokenLedger)
    → find_thread t.id l.threads ≡ some t
    → (u : Thread) × (find_thread t.id (settle t l).threads ≡ some u)
      × ((u ≡ t) ⊎ (u ≡ settled_thread t))
unfolding settle_response settled_thread
settled-find t l h = elim (settle-cases t l) [
  | inl e ↦ (t, ap (λ k. find_thread t.id k.threads) e.0 ∙ h, inl refl)
  | inr e ↦ (
    settled_thread t,
    ap (λ k. find_thread t.id k.threads) e.3 ∙ find_thread-put t (settled_thread t) l.threads h,
    inr refl,
  )
]

module _ (p : Response → Bool) (f : (r : Response) → p (record r { settled = true }) ≡ p r) where
  pub settled-amount :
      (t u : Thread)
      → (u ≡ t) ⊎ (u ≡ settled_thread t)
      → amount_of p u.responses ≡ amount_of p t.responses
  unfolding settled_thread
  settled-amount t u (inl e) = ap (λ v. amount_of p v.responses) e
  settled-amount t u (inr e) =
      ap (λ v. amount_of p v.responses) e ∙ settle_last-amount p t.responses f

  amount_of-one : (r : Response) → amount_of p (r ∷ []) ≡ (if p r then counted r else 0)
  unfolding amount_of
  amount_of-one r = omega arith

  count_response-amount :
      (t : Thread) (id : String) (chars : ℕ) (l : TokenLedger)
      → find_thread t.id l.threads ≡ some t
      → let r = new_response t id chars l.compaction_pending in
        threads_amount_of p ((count_response t id chars l).1).threads
        ≡ threads_amount_of p l.threads + (if p r then counted r else 0)
  unfolding count_response grown_thread settled_thread new_response
  count_response-amount t id chars l h =
      let r = new_response t id chars l.compaction_pending in
      let u = settled-find t l h in
      ap (threads_amount_of p) (track_peak-threads (grown_thread t r) none _)
      ∙ omega (
        arith,
        put_thread-amount p u.0 (grown_thread t r) (settle t l).threads u.1,
        settled-amount t u.0 u.2,
        settle-amount p t l f h,
        amount_of-append p (settle_last t.responses) (r ∷ []),
        amount_of-one r,
        settle_last-amount p t.responses f,
      )

abbrev pub is_some {ℓ} : {A : Type ℓ} → Option A → Bool
is_some none = false
is_some (some a) = true

-- Whether a response is counted already.
unfoldable pub is_counted : String → String → TokenLedger → Bool
unfolding find_thread find_response
is_counted thread_id id l = elim (find_thread thread_id l.threads) [
  | none ↦ false
  | some t ↦ is_some (find_response id t.responses)
]

is_counted-found :
    (thread_id id : String) (l : TokenLedger) (t : Thread)
    → find_thread thread_id l.threads ≡ some t
    → is_counted thread_id id l ≡ is_some (find_response id t.responses)
unfolding is_counted
is_counted-found thread_id id l t h = rw (is_counted, h) refl

count_response-budget :
    (t : Thread) (id : String) (chars : ℕ) (l : TokenLedger)
    → find_thread t.id l.threads ≡ some t
    → budget_tokens ((count_response t id chars l).1)
      ≡ budget_tokens l + (count_response t id chars l).0
unfolding budget_tokens measured_tokens estimated_tokens count_response new_response is_measured
    counted
count_response-budget t id chars l h = omega (
  arith,
  count_response-amount is_measured (λ r. refl) t id chars l h,
  count_response-amount (λ r. not (is_measured r)) (λ r. refl) t id chars l h,
)

pub observe_on-cases :
    (t : Thread) (id : String) (chars : ℕ) (l : TokenLedger)
    → ((r : Response) × (find_response id t.responses ≡ some r)
        × (observe_on t id chars l ≡ (counted r, l)))
      ⊎ ((find_response id t.responses ≡ none)
          × (observe_on t id chars l ≡ count_response t id chars l))
unfolding observe_on
observe_on-cases t id chars l = elim (Option-cases (find_response id t.responses)) [
  | inl e ↦ inr (e, rw (observe_on, e) refl)
  | inr e ↦ inl (e.0, e.1, rw (observe_on, e.1) refl)
]

pub observe_response-found :
    (thread_id id : String) (chars : ℕ) (l : TokenLedger) (r : ℕ × TokenLedger)
    → observe_response thread_id id chars l ≡ some r
    → (t : Thread) × (find_thread thread_id l.threads ≡ some t)
      × (find_thread t.id l.threads ≡ some t)
      × (t.id ≡ thread_id)
      × (observe_on t id chars l ≡ r)
unfolding observe_response
observe_response-found thread_id id chars l r h =
    let s = >>=-some (find_thread thread_id l.threads) _ r h in
    let i = find_thread-id thread_id l.threads s.0 s.1 in
    (s.0, s.1, subst (λ k. find_thread k l.threads ≡ some s.0) (sym i) s.1, i, some-injective s.2)

-- A response adds its estimate to the budget when it is first seen, and nothing after that.
pub observe_response-budget :
    (thread_id id : String) (chars n : ℕ) (l l' : TokenLedger)
    → observe_response thread_id id chars l ≡ some (n, l')
    → budget_tokens l' ≡ budget_tokens l + (if is_counted thread_id id l then 0 else n)
observe_response-budget thread_id id chars n l l' h =
    let c = observe_response-found thread_id id chars l (n, l') h in
    subst
      (λ x. budget_tokens x.1 ≡ budget_tokens l + (if is_counted thread_id id l then 0 else x.0))
      c.4
      (rw (is_counted-found thread_id id l c.0 c.1) (elim (observe_on-cases c.0 id chars l) [
        | inl e ↦ rw (e.1, e.2) (omega arith)
        | inr e ↦ rw (e.0, e.1) (count_response-budget c.0 id chars l c.2)
      ]))
