-- ===== src/Ledger/Preserved.antt =====
-- Every event of the ledger keeps its invariant.
use mathlib.Core.Path.{subst}
use simple_coding_agent.Base.{
  ℕ, ◌≤◌, String, ◌≡◌, refl, sym, ◌∙◌, inl, inr, true, false, ◌&&◌, Option, none, some, List, [],
  ◌∷◌, arith, ltb, Bool-cases, text_eq_refl, All, All-append,
}
use simple_coding_agent.Ledger.Usage.{Usage}
use simple_coding_agent.Ledger.Types.{
  Response, Thread, DegradedNotice, Basis, measured, TokenLedger,
}
use simple_coding_agent.Ledger.Readings.{
  find_thread, put_thread, last_response, settled_reading, is_measured,
}
use simple_coding_agent.Ledger.Settling.{
  settle_last, settled_thread, notice_of, settle_response, settle, is_main, track_peak,
}
use simple_coding_agent.Ledger.Events.{
  new_response, grown_thread, count_response, merged_into, measured_thread, observe_measured,
  fed_thread, feed,
}
use simple_coding_agent.Ledger.Sums.{some-injective, settle-cases}
use simple_coding_agent.Ledger.Counting.{track_peak-threads, is_some}
use simple_coding_agent.Ledger.Valid.{
  Trailing, IsAccounted, ThreadIsValid, IsValid, Grows, IsAccounted-Grows, IsValid-find, replaced,
  settle_last-IsSettled, settled-Trailing, All-Trailing, update_response-Trailing,
  update_response-IsAccounted,
}

pub track_peak-Grows :
    (t : Thread) (b : Option Basis) (l : TokenLedger) → Grows l (track_peak t b l)
unfolding track_peak
track_peak-Grows t b l =
    elim (Bool-cases (is_main t.kind && ltb l.peak_main_context_tokens t.context)) [
      | inl c ↦ rw (track_peak, c) (ground (arith, c), (λ id rid h. h), λ h. h)
      | inr c ↦ rw (track_peak, c) (omega arith, (λ id rid h. h), λ h. h)
    ]

pub track_peak-bounds :
    (t : Thread) (b : Option Basis) (l : TokenLedger)
    → is_main t.kind ≡ true
    → t.context ≤ (track_peak t b l).peak_main_context_tokens
unfolding track_peak
track_peak-bounds t b l h = ground (arith, h)

notice_of-first :
    (t : Thread) (r : Response) (first : Option DegradedNotice)
    → is_some (notice_of t r first) ≡ false
    → is_some first ≡ false
unfolding notice_of
notice_of-first t r none h = refl
notice_of-first t r (some notice) h = h

notice_of-is_measured :
    (t : Thread) (r : Response) (first : Option DegradedNotice)
    → is_some (notice_of t r first) ≡ false
    → is_measured r ≡ true
unfolding notice_of
notice_of-is_measured t r none h = ground (arith, h)
notice_of-is_measured t r (some notice) h = absurd (ground (arith, h))

settle_response-Grows :
    (t : Thread) (r : Response) (l : TokenLedger) → Grows l (settle_response t r l)
unfolding settle_response settled_reading
settle_response-Grows t r l = (
  omega arith,
  (λ id rid h. ground (arith, h)),
  notice_of-first t r l.first_settled_without_usage,
)

settled-IsAccounted :
    (t : Thread) (r : Response) (l : TokenLedger)
    → IsAccounted (settle_response t r l) t.id (record r { settled = true })
unfolding settle_response settled_reading is_measured
settled-IsAccounted t r l = λ _. (
  rw (text_eq_refl t.id, text_eq_refl r.id) refl,
  notice_of-is_measured t r l.first_settled_without_usage,
)

settle_last-IsAccounted :
    (t : Thread) (r : Response) (l : TokenLedger) (rs : List Response)
    → last_response rs ≡ some r
    → All (IsAccounted l t.id) rs
    → All (IsAccounted (settle_response t r l) t.id) (settle_last rs)
unfolding settle_last last_response
settle_last-IsAccounted t r l [] e h = tt
settle_last-IsAccounted t r l (s ∷ []) e h = (
  subst (λ x. IsAccounted (settle_response t r l) t.id (record x { settled = true }))
      (sym (some-injective e)) (settled-IsAccounted t r l),
  tt,
)
settle_last-IsAccounted t r l (s ∷ u ∷ rs) e h = (
  (IsAccounted-Grows l (settle_response t r l) t.id (s ∷ []) (settle_response-Grows t r l)
      (h.0, tt)).0,
  settle_last-IsAccounted t r l (u ∷ rs) e h.1,
)

Grows-refl : (l : TokenLedger) → Grows l l
Grows-refl l = (omega arith, (λ id rid h. h), λ h. h)

-- A settlement keeps the invariant, and gives it for the settled thread.
pub settle-IsValid :
    (t : Thread) (l : TokenLedger)
    → IsValid l
    → find_thread t.id l.threads ≡ some t
    → ThreadIsValid (settle t l) (settled_thread t) × IsValid (settle t l)
unfolding settled_thread settle_response
settle-IsValid t l h f =
    let v = IsValid-find (ThreadIsValid l) t.id l.threads t h f in
    elim (settle-cases t l) [
      | inl e ↦ rw e.0 ((v.0, simp (e.1) v.1, simp (e.1) v.2), h)
      | inr e ↦
          let w : ThreadIsValid (settle_response t e.0 l) (settled_thread t) = (
            v.0,
            settle_last-IsAccounted t e.0 l t.responses e.1 v.1,
            All-Trailing (settle_last t.responses) (settle_last-IsSettled t.responses v.2),
          ) in
          rw e.3 (
            w,
            replaced l (settle_response t e.0 l) (settled_thread t) h
                (settle_response-Grows t e.0 l) refl w,
          )
    ]

Grows-trans : (l m n : TokenLedger) → Grows l m → Grows m n → Grows l n
Grows-trans l m n g h =
    (omega (arith, g.0, h.0), (λ id rid e. h.1 id rid (g.1 id rid e)), λ e. g.2 (h.2 e))

-- A thread is replaced and the peak is tracked.
tracked-IsValid :
    (l m : TokenLedger) (t : Thread) (b : Option Basis)
    → IsValid l
    → Grows l m
    → m.threads ≡ put_thread t l.threads
    → All (IsAccounted l t.id) t.responses
    → Trailing t.responses
    → IsValid (track_peak t b m)
tracked-IsValid l m t b h g e a k =
    let n = track_peak t b m in
    let grows = Grows-trans l m n g (track_peak-Grows t b m) in
    replaced l n t h grows (track_peak-threads t b m ∙ e)
      (track_peak-bounds t b m, IsAccounted-Grows l n t.id t.responses grows a, k)

pub count_response-IsValid :
    (t : Thread) (id : String) (chars : ℕ) (l : TokenLedger)
    → IsValid l
    → find_thread t.id l.threads ≡ some t
    → IsValid ((count_response t id chars l).1)
unfolding count_response grown_thread settled_thread new_response
count_response-IsValid t id chars l h f =
    let r = new_response t id chars l.compaction_pending in
    let v = settle-IsValid t l h f in
    let trailing = (IsValid-find (ThreadIsValid l) t.id l.threads t h f).2 in
    tracked-IsValid (settle t l) _ (grown_thread t r) none v.1 (Grows-refl (settle t l)) refl
      (All-append (IsAccounted (settle t l) t.id) (settle_last t.responses) (r ∷ []) v.0.1
        ((λ e. absurd (ground (arith, e))), tt))
      (settled-Trailing (settle_last t.responses) r (settle_last-IsSettled t.responses trailing))

pub feed-IsValid :
    (t : Thread) (chars : ℕ) (l : TokenLedger)
    → IsValid l
    → find_thread t.id l.threads ≡ some t
    → IsValid (feed t chars l)
unfolding feed fed_thread settled_thread
feed-IsValid t chars l h f =
    let v = settle-IsValid t l h f in
    tracked-IsValid (settle t l) _ (fed_thread t chars) none v.1 (Grows-refl (settle t l)) refl
      v.0.1 v.0.2

pub observe_measured-IsValid :
    (t : Thread) (r : Response) (u : Usage) (l : TokenLedger)
    → IsValid l
    → find_thread t.id l.threads ≡ some t
    → IsValid (observe_measured t r u l)
unfolding observe_measured measured_thread
observe_measured-IsValid t r u l h f =
    let v = IsValid-find (ThreadIsValid l) t.id l.threads t h f in
    tracked-IsValid l _ (measured_thread t r u) (some measured) h (Grows-refl l) refl
      (update_response-IsAccounted l t.id r.id (merged_into r.usage u) t.responses v.1)
      (update_response-Trailing r.id (merged_into r.usage u) t.responses v.2)
