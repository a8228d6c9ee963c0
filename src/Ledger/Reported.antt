-- ===== src/Ledger/Reported.antt =====
-- Which responses `settle_thread` reports, over the events of an attempt.
use mathlib.Core.Path.{subst}
use simple_coding_agent.Base.{
  String, ◌≡◌, refl, sym, ap, ◌∙◌, inl, inr, true, false, ◌||◌, Option, none, some, List, [], ◌∷◌,
  arith, Bool-cases, Option-cases, text_eq, text_eq_refl, member, All,
}
use simple_coding_agent.Ledger.Types.{Response, Thread, TokenLedger, new_ledger}
use simple_coding_agent.Ledger.Readings.{find_thread, last_response}
use simple_coding_agent.Ledger.Settling.{
  settle_last, settled_thread, settle_response, settle, settle_on, settle_found, settle_thread,
}
use simple_coding_agent.Ledger.Sums.{some-injective, find_thread-id, find_thread-put, settle-cases}
use simple_coding_agent.Ledger.Valid.{
  IsSettled, Trailing, ThreadIsValid, IsValid, IsValid-find, settle_last-IsSettled,
}
use simple_coding_agent.Ledger.Runs.{LedgerEvent, apply_events, apply_events-IsValid}
use simple_coding_agent.Ledger.Done.{has_response, all_settled, is_done}
use simple_coding_agent.Ledger.Keeping.{IsDone}
use simple_coding_agent.Ledger.Lasting.{apply_events-IsDone}

all_settled-All : (rid : String) (rs : List Response) → All IsSettled rs → all_settled rid rs ≡ true
all_settled-All rid [] h = refl
all_settled-All rid (r ∷ rs) h = ground (arith, h.0, all_settled-All rid rs h.1)

has_response-last :
    (rid : String) (rs : List Response) (r : Response)
    → last_response rs ≡ some r
    → r.id ≡ rid
    → has_response rid (settle_last rs) ≡ true
unfolding last_response settle_last
has_response-last rid [] r h e = absurd (ground (arith, h))
has_response-last rid (s ∷ []) r h e =
    let same : s.id ≡ rid = ap (λ x. x.id) (some-injective h) ∙ e in
    rw same (rw (text_eq_refl rid) refl)
has_response-last rid (s ∷ t ∷ rs) r h e = ground (arith, has_response-last rid (t ∷ rs) r h e)

last_response-is_settled :
    (rid : String) (rs : List Response) (r : Response)
    → last_response rs ≡ some r
    → all_settled rid rs ≡ true
    → text_eq r.id rid ≡ true
    → r.settled ≡ true
unfolding last_response
last_response-is_settled rid [] r h a e = absurd (ground (arith, h))
last_response-is_settled rid (s ∷ []) r h a e = let same = some-injective h in ground (arith, same)
last_response-is_settled rid (s ∷ t ∷ rs) r h a e =
    last_response-is_settled rid (t ∷ rs) r h (ground arith) e

-- After its settlement a thread has its last response settled, and no other of its ID.
settle-IsDone :
    (id rid : String) (t : Thread) (r : Response) (l : TokenLedger)
    → Trailing t.responses
    → find_thread t.id l.threads ≡ some t
    → t.id ≡ id
    → last_response t.responses ≡ some r
    → r.id ≡ rid
    → IsDone id rid (settle t l).threads
unfolding settle_response settled_thread
settle-IsDone id rid t r l v f i e n =
    let all = all_settled-All rid (settle_last t.responses) (settle_last-IsSettled t.responses v) in
    let has = has_response-last rid t.responses r e n in
    let done : is_done rid (settle_last t.responses) ≡ true = ground arith in
    subst (λ k. IsDone k rid (settle t l).threads) i
      (elim (settle-cases t l) [
        | inl c ↦ (
          t,
          ap (λ k. find_thread t.id k.threads) c.0 ∙ f,
          subst (λ rs. is_done rid rs ≡ true) c.1 done,
        )
        | inr c ↦ (
          settled_thread t,
          ap (λ k. find_thread t.id k.threads) c.3
              ∙ find_thread-put t (settled_thread t) l.threads f,
          done,
        )
      ])

settle_on-reported :
    (id rid : String) (t : Thread) (o : Option Response) (l l' : TokenLedger)
    → ((r : Response) → o ≡ some r → r.id ≡ rid → IsDone id rid (settle t l).threads)
    → settle_on t o l ≡ (rid ∷ [], l')
    → IsDone id rid l'.threads
unfolding settle_on
settle_on-reported id rid t none l l' k h = absurd (cc)
settle_on-reported id rid t (some r) l l' k h = elim (Bool-cases (r.settled || r.interrupted)) [
  | inl b ↦ absurd (cc (simp b at h))
  | inr b ↦
      let (e, m) = parts (simp b at h) in
      subst (λ (x : TokenLedger). IsDone id rid x.threads) m (k r refl e)
]
  where
    parts :
        ◌≡◌ {A = List String × TokenLedger} (r.id ∷ [], settle t l) (rid ∷ [], l')
        → (r.id ≡ rid) × (settle t l ≡ l')
    parts e = (
      ground (arith, ap (λ (x : List String × TokenLedger). x.0) e),
      ap (λ (x : List String × TokenLedger). x.1) e,
    )

settle_thread-reported :
    (id rid : String) (l l' : TokenLedger)
    → IsValid l
    → settle_thread id l ≡ (rid ∷ [], l')
    → IsDone id rid l'.threads
unfolding settle_thread settle_found
settle_thread-reported id rid l l' v h = elim (Option-cases (find_thread id l.threads)) [
  | inl e ↦ absurd (cc (rw e at h))
  | inr (t, e) ↦
      let i = find_thread-id id l.threads t e in
      let f = subst (λ k. find_thread k l.threads ≡ some t) (sym i) e in
      let valid = IsValid-find (ThreadIsValid l) id l.threads t v e in
      settle_on-reported id rid t (last_response t.responses) l l'
        (λ r. settle-IsDone id rid t r l valid.2 f i) (rw e at h)
]

settle_on-silent :
    (rid : String) (t : Thread) (o : Option Response) (l : TokenLedger)
    → ((r : Response) → o ≡ some r → text_eq r.id rid ≡ true → r.settled ≡ true)
    → member rid (settle_on t o l).0 ≡ false
unfolding settle_on member
settle_on-silent rid t none l k = refl
settle_on-silent rid t (some r) l k = elim (Bool-cases (r.settled || r.interrupted)) [
  | inl b ↦ rw b refl
  | inr b ↦ rw b (elim (Bool-cases (text_eq r.id rid)) [
    | inl c ↦ absurd (ground (arith, k r refl c))
    | inr c ↦ rw c refl
  ])
]

settle_thread-silent :
    (id rid : String) (l : TokenLedger)
    → IsDone id rid l.threads
    → member rid (settle_thread id l).0 ≡ false
unfolding settle_thread settle_found
settle_thread-silent id rid l (t, f, d) =
    rw (f, settle_found)
      (settle_on-silent rid t (last_response t.responses) l
        (λ r e. last_response-is_settled rid t.responses r e (ground arith)))

-- A response is reported as settled at most once: in a ledger that any accepted events lead to, a
-- response that `settle_thread` reports is never among those that it reports for this thread again,
-- whatever accepted events come in between.
pub settle_thread-reported_once :
    (es fs : List LedgerEvent) (id rid : String) (l l' l'' : TokenLedger)
    → apply_events es new_ledger ≡ some l
    → settle_thread id l ≡ (rid ∷ [], l')
    → apply_events fs l' ≡ some l''
    → member rid (settle_thread id l'').0 ≡ false
settle_thread-reported_once es fs id rid l l' l'' h r k = settle_thread-silent id rid l'' (
    apply_events-IsDone id rid fs l' l'' k
      (settle_thread-reported id rid l l' (apply_events-IsValid es l h) r))
