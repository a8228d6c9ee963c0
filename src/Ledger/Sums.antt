-- ===== src/Ledger/Sums.antt =====
-- Sums over the threads of the ledger when a thread of it is replaced.
use simple_coding_agent.Base.{
  ◌+◌, String, ◌≡◌, refl, sym, ap, ◌∙◌, ◌⊎◌, inl, inr, Bool, true, false, none, some, List, [], ◌∷◌,
  ◌++◌, arith, Bool-cases, Option-cases, text_eq, text_eq_refl, text_eq→≡,
}
use simple_coding_agent.Ledger.Types.{Response, counted, Thread, TokenLedger}
use simple_coding_agent.Ledger.Readings.{
  find_thread, put_thread, last_response, amount_of, threads_amount_of,
}
use simple_coding_agent.Ledger.Settling.{settle_last, settled_thread, settle_response, settle}

pub some-injective {ℓ} : {A : Type ℓ} {a b : A} → some a ≡ some b → a ≡ b
some-injective {a = a} e = ap (λ o. elim o [ none ↦ a | some x ↦ x ]) e

pub find_thread-id :
    (id : String) (ts : List Thread) (t : Thread) → find_thread id ts ≡ some t → t.id ≡ id
unfolding find_thread
find_thread-id id [] t h = absurd (ground (arith, h))
find_thread-id id (x ∷ xs) t h = elim (Bool-cases (text_eq x.id id)) [
  | inl b ↦ ap (λ s. s.id) (some-injective (sym (simp b at h))) ∙ text_eq→≡ x.id id b
  | inr b ↦ find_thread-id id xs t (simp b at h)
]

pub find_thread-put :
    (t t' : Thread) (ts : List Thread)
    → find_thread t'.id ts ≡ some t
    → find_thread t'.id (put_thread t' ts) ≡ some t'
unfolding find_thread put_thread
find_thread-put t t' [] h = absurd (ground (arith, h))
find_thread-put t t' (x ∷ xs) h = elim (Bool-cases (text_eq x.id t'.id)) [
  | inl b ↦ rw b (rw (text_eq_refl t'.id) refl)
  | inr b ↦ ground (arith, b, find_thread-put t t' xs (simp b at h))
]

last_response-none : (rs : List Response) → last_response rs ≡ none → settle_last rs ≡ rs
unfolding last_response settle_last
last_response-none [] h = refl
last_response-none (r ∷ []) h = absurd (ground (arith, h))
last_response-none (r ∷ s ∷ rs) h = ap (λ xs. r ∷ xs) (last_response-none (s ∷ rs) h)

last_response-settled :
    (rs : List Response) (r : Response)
    → last_response rs ≡ some r
    → r.settled ≡ true
    → settle_last rs ≡ rs
unfolding last_response settle_last
last_response-settled [] r h k = refl
last_response-settled (s ∷ []) r h k =
    ap (λ b. record s { settled = b } ∷ []) (sym (ap (λ x. x.settled) (some-injective h) ∙ k))
last_response-settled (s ∷ u ∷ rs) r h k = ap (λ xs. s ∷ xs) (last_response-settled (u ∷ rs) r h k)

-- A settlement changes nothing, or it settles the last response.
pub settle-cases :
    (t : Thread) (l : TokenLedger)
    → ((settle t l ≡ l) × (settle_last t.responses ≡ t.responses))
      ⊎ ((r : Response) × (last_response t.responses ≡ some r)
          × (r.settled ≡ false)
          × (settle t l ≡ settle_response t r l))
unfolding settle
settle-cases t l = elim (Option-cases (last_response t.responses)) [
  | inl e ↦ inl (rw (e, settle) refl, last_response-none t.responses e)
  | inr e ↦ elim (Bool-cases e.0.settled) [
    | inl b ↦ inl (rw (e.1, settle, b) refl, last_response-settled t.responses e.0 e.1 b)
    | inr b ↦ inr (e.0, e.1, b, rw (e.1, settle, b) refl)
  ]
]

module _ (p : Response → Bool) where
  pub amount_of-append :
      (rs ss : List Response) → amount_of p (rs ++ ss) ≡ amount_of p rs + amount_of p ss
  unfolding amount_of
  amount_of-append [] ss = omega arith
  amount_of-append (r ∷ rs) ss = omega (arith, amount_of-append rs ss)

  pub put_thread-amount :
      (t t' : Thread) (ts : List Thread)
      → find_thread t'.id ts ≡ some t
      → threads_amount_of p (put_thread t' ts) + amount_of p t.responses
        ≡ threads_amount_of p ts + amount_of p t'.responses
  unfolding find_thread put_thread threads_amount_of
  put_thread-amount t t' [] h = absurd (ground (arith, h))
  put_thread-amount t t' (x ∷ xs) h = elim (Bool-cases (text_eq x.id t'.id)) [
    | inl b ↦ rw (b, ap (λ s. s.responses) (some-injective (simp b at h))) (omega arith)
    | inr b ↦ rw b (omega (arith, put_thread-amount t t' xs (simp b at h)))
  ]

  pub settle_last-amount :
      (rs : List Response)
      → ((r : Response) → p (record r { settled = true }) ≡ p r)
      → amount_of p (settle_last rs) ≡ amount_of p rs
  unfolding settle_last amount_of counted
  settle_last-amount [] f = refl
  settle_last-amount (r ∷ []) f = rw (f r) refl
  settle_last-amount (r ∷ s ∷ rs) f = omega (arith, settle_last-amount (s ∷ rs) f)

  pub settle-amount :
      (t : Thread) (l : TokenLedger)
      → ((r : Response) → p (record r { settled = true }) ≡ p r)
      → find_thread t.id l.threads ≡ some t
      → threads_amount_of p (settle t l).threads ≡ threads_amount_of p l.threads
  unfolding settle_response settled_thread
  settle-amount t l f h = elim (settle-cases t l) [
    | inl e ↦ ap (λ k. threads_amount_of p k.threads) e.0
    | inr e ↦
        ap (λ k. threads_amount_of p k.threads) e.3
        ∙ omega (
          arith,
          put_thread-amount t (settled_thread t) l.threads h,
          settle_last-amount t.responses f,
        )
  ]
