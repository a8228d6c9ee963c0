-- ===== src/Ledger/Done.antt =====
-- Threads that have a response settled, over the updates of a thread and of the list of threads.
use mathlib.Core.Path.{subst}
use simple_coding_agent.Base.{
  String, ◌≡◌, refl, sym, ap, ◌≢◌, inl, inr, Bool, true, false, ◌&&◌, ◌||◌, not, none, some, List,
  [], ◌∷◌, ◌++◌, map, arith, Bool-cases, text_eq, text_eq→≡,
}
use simple_coding_agent.Ledger.Usage.{Usage}
use simple_coding_agent.Ledger.Types.{Response, Thread}
use simple_coding_agent.Ledger.Readings.{find_thread, put_thread, find_response}
use simple_coding_agent.Ledger.Settling.{settle_last}
use simple_coding_agent.Ledger.Events.{update_response, is_in_flight, mark_response, mark_thread}
use simple_coding_agent.Ledger.Sums.{some-injective}

-- Whether a response has the ID, and whether all that have it are settled.
abbrev pub has_response : String → List Response → Bool
has_response rid [] = false
has_response rid (r ∷ rs) = text_eq r.id rid || has_response rid rs

abbrev pub all_settled : String → List Response → Bool
all_settled rid [] = true
all_settled rid (r ∷ rs) = (not (text_eq r.id rid) || r.settled) && all_settled rid rs

abbrev pub is_done : String → List Response → Bool
is_done rid rs = has_response rid rs && all_settled rid rs

pub has-settle_last :
    (rid : String) (rs : List Response) → has_response rid (settle_last rs) ≡ has_response rid rs
unfolding settle_last
has-settle_last rid [] = refl
has-settle_last rid (r ∷ []) = refl
has-settle_last rid (r ∷ s ∷ rs) = ap (λ b. text_eq r.id rid || b) (has-settle_last rid (s ∷ rs))

pub all_settled-settle_last :
    (rid : String) (rs : List Response)
    → all_settled rid rs ≡ true
    → all_settled rid (settle_last rs) ≡ true
unfolding settle_last
all_settled-settle_last rid [] h = refl
all_settled-settle_last rid (r ∷ []) h = ground arith
all_settled-settle_last rid (r ∷ s ∷ rs) h = ground (arith, all_settled-settle_last rid (s ∷ rs))

pub is_done-settle_last :
    (rid : String) (rs : List Response)
    → is_done rid rs ≡ true
    → is_done rid (settle_last rs) ≡ true
is_done-settle_last rid rs h =
    ground (arith, has-settle_last rid rs, all_settled-settle_last rid rs)

pub is_done-update :
    (rid id : String) (u : Usage) (rs : List Response)
    → (has_response rid (update_response id u rs) ≡ has_response rid rs)
      × (all_settled rid (update_response id u rs) ≡ all_settled rid rs)
unfolding update_response
is_done-update rid id u [] = (refl, refl)
is_done-update rid id u (r ∷ rs) =
    let k = is_done-update rid id u rs in
    elim (Bool-cases (text_eq r.id id)) [
      | inl b ↦ rw b (refl, refl)
      | inr b ↦ rw b (
        ap (λ x. text_eq r.id rid || x) k.0,
        ap (λ x. (not (text_eq r.id rid) || r.settled) && x) k.1,
      )
    ]

pub is_done-mark :
    (rid : String) (rs : List Response)
    → (has_response rid (map mark_response rs) ≡ has_response rid rs)
      × (all_settled rid (map mark_response rs) ≡ all_settled rid rs)
unfolding mark_response
is_done-mark rid [] = (refl, refl)
is_done-mark rid (r ∷ rs) =
    let k = is_done-mark rid rs in
    elim (Bool-cases (is_in_flight r)) [
      | inl b ↦ rw b (
        ap (λ x. text_eq r.id rid || x) k.0,
        ap (λ x. (not (text_eq r.id rid) || r.settled) && x) k.1,
      )
      | inr b ↦ rw b (
        ap (λ x. text_eq r.id rid || x) k.0,
        ap (λ x. (not (text_eq r.id rid) || r.settled) && x) k.1,
      )
    ]

pub is_done-append :
    (rid : String) (r : Response) (rs : List Response)
    → text_eq r.id rid ≡ false
    → is_done rid rs ≡ true
    → is_done rid (rs ++ r ∷ []) ≡ true
is_done-append rid r rs e h = let k = appended rs in rw (k.0, k.1) h
  where
    appended :
        (ss : List Response)
        → (has_response rid (ss ++ r ∷ []) ≡ has_response rid ss)
          × (all_settled rid (ss ++ r ∷ []) ≡ all_settled rid ss)
    appended [] = (rw e refl, rw e refl)
    appended (s ∷ ss) =
        let k = appended ss in
        (
          ap (λ x. text_eq s.id rid || x) k.0,
          ap (λ x. (not (text_eq s.id rid) || s.settled) && x) k.1,
        )

pub has_response-found :
    (rid : String) (rs : List Response) → has_response rid rs ≡ true → find_response rid rs ≢ none
unfolding find_response
has_response-found rid [] h e = absurd (ground arith)
has_response-found rid (r ∷ rs) h e = absurd (ground (arith, has_response-found rid rs))

pub find_thread-other :
    (id : String) (t' : Thread) (ts : List Thread)
    → text_eq t'.id id ≡ false
    → find_thread id (put_thread t' ts) ≡ find_thread id ts
unfolding find_thread put_thread
find_thread-other id t' [] e = refl
find_thread-other id t' (x ∷ xs) e = elim (Bool-cases (text_eq x.id t'.id)) [
  | inl b ↦
      let other : text_eq x.id id ≡ false =
        subst (λ k. text_eq k id ≡ false) (sym (text_eq→≡ x.id t'.id b)) e in
      rw b (rw (e, other) refl)
  | inr b ↦ rw b (elim (Bool-cases (text_eq x.id id)) [
    | inl c ↦ rw c refl
    | inr c ↦ rw c (find_thread-other id t' xs e)
  ])
]

pub find_thread-append :
    (id : String) (ts us : List Thread) (t : Thread)
    → find_thread id ts ≡ some t
    → find_thread id (ts ++ us) ≡ some t
unfolding find_thread
find_thread-append id [] us t h = absurd (ground (arith, h))
find_thread-append id (x ∷ xs) us t h = elim (Bool-cases (text_eq x.id id)) [
  | inl b ↦ rw b (simp b at h)
  | inr b ↦ rw b (find_thread-append id xs us t (simp b at h))
]

pub find_thread-mark :
    (id : String) (ts : List Thread) (t : Thread)
    → find_thread id ts ≡ some t
    → find_thread id (map mark_thread ts) ≡ some (mark_thread t)
unfolding find_thread mark_thread
find_thread-mark id [] t h = absurd (ground (arith, h))
find_thread-mark id (x ∷ xs) t h = elim (Bool-cases (text_eq x.id id)) [
  | inl b ↦ rw b (ap (λ u. some (mark_thread u)) (some-injective (simp b at h)))
  | inr b ↦ rw b (find_thread-mark id xs t (simp b at h))
]
