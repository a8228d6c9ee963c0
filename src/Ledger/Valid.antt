-- ===== src/Ledger/Valid.antt =====
-- The invariant of the token ledger, and the parts of it that concern one thread.
use mathlib.Core.Path.{subst}
use simple_coding_agent.Base.{
  ◌≤◌, String, ◌≡◌, refl, sym, inl, inr, true, false, some, List, [], ◌∷◌, ◌++◌, map, arith,
  Bool-cases, text_eq, All, All-map,
}
use simple_coding_agent.Ledger.Sums.{some-injective}
use simple_coding_agent.Ledger.Usage.{Usage}
use simple_coding_agent.Ledger.Types.{Response, Thread, TokenLedger}
use simple_coding_agent.Ledger.Readings.{find_thread, put_thread, settled_reading, is_measured}
use simple_coding_agent.Ledger.Settling.{settle_last, is_main}
use simple_coding_agent.Ledger.Events.{update_response, is_in_flight, mark_response}
use simple_coding_agent.Ledger.Counting.{is_some}

-- All responses but the last are settled.
abbrev pub Trailing : List Response → Type 0
Trailing [] = Unit
Trailing (r ∷ []) = Unit
Trailing (r ∷ s ∷ rs) = (r.settled ≡ true) × Trailing (s ∷ rs)

abbrev pub IsSettled : Response → Type 0
IsSettled r = r.settled ≡ true

-- A settled response has a reading, and usage unless the first without it was noticed.
abbrev pub IsAccounted : TokenLedger → String → Response → Type 0
IsAccounted l id r =
    r.settled ≡ true
    → (is_some (settled_reading l.settled_readings id r.id) ≡ true)
      × (is_some l.first_settled_without_usage ≡ false → is_measured r ≡ true)

abbrev pub ThreadIsValid : TokenLedger → Thread → Type 0
ThreadIsValid l t =
    (is_main t.kind ≡ true → t.context ≤ l.peak_main_context_tokens)
    × All (IsAccounted l t.id) t.responses
    × Trailing t.responses

abbrev pub IsValid : TokenLedger → Type 0
IsValid l = All (ThreadIsValid l) l.threads

-- What the ledger keeps does not go away.
abbrev pub Grows : TokenLedger → TokenLedger → Type 0
Grows l m =
    (l.peak_main_context_tokens ≤ m.peak_main_context_tokens)
    × ((id rid : String)
        → is_some (settled_reading l.settled_readings id rid) ≡ true
        → is_some (settled_reading m.settled_readings id rid) ≡ true)
    × (is_some m.first_settled_without_usage ≡ false
        → is_some l.first_settled_without_usage ≡ false)

pub IsAccounted-Grows :
    (l m : TokenLedger) (id : String) (rs : List Response)
    → Grows l m
    → All (IsAccounted l id) rs
    → All (IsAccounted m id) rs
IsAccounted-Grows l m id rs g h =
    All-map (IsAccounted l id) (IsAccounted m id)
      (λ r a s. (g.1 id r.id ((a s).0), λ n. (a s).1 (g.2 n))) rs h

pub thread-Grows :
    (l m : TokenLedger) (t : Thread) → Grows l m → ThreadIsValid l t → ThreadIsValid m t
thread-Grows l m t g h =
    (λ k. omega (arith, h.0 k, g.0), IsAccounted-Grows l m t.id t.responses g h.1, h.2)

pub IsValid-find :
    (P : Thread → Type 0) (id : String) (ts : List Thread) (t : Thread)
    → All P ts
    → find_thread id ts ≡ some t
    → P t
unfolding find_thread
IsValid-find P id [] t h e = absurd (ground (arith, e))
IsValid-find P id (x ∷ xs) t h e = elim (Bool-cases (text_eq x.id id)) [
  | inl b ↦ subst P (some-injective (simp b at e)) h.0
  | inr b ↦ IsValid-find P id xs t h.1 (simp b at e)
]

pub IsValid-put :
    (P : Thread → Type 0) (t : Thread) (ts : List Thread) → All P ts → P t → All P (put_thread t ts)
unfolding put_thread
IsValid-put P t [] h k = tt
IsValid-put P t (x ∷ xs) h k = elim (Bool-cases (text_eq x.id t.id)) [
  | inl b ↦ rw b (k, h.1)
  | inr b ↦ rw b (h.0, IsValid-put P t xs h.1 k)
]

-- A thread of a ledger is replaced, while the rest of the ledger grows.
pub replaced :
    (l m : TokenLedger) (t : Thread)
    → IsValid l
    → Grows l m
    → m.threads ≡ put_thread t l.threads
    → ThreadIsValid m t
    → IsValid m
replaced l m t h g e k = subst (All (ThreadIsValid m)) (sym e) (
    IsValid-put (ThreadIsValid m) t l.threads
      (All-map (ThreadIsValid l) (ThreadIsValid m) (λ u. thread-Grows l m u g) l.threads h) k)

pub settle_last-IsSettled : (rs : List Response) → Trailing rs → All IsSettled (settle_last rs)
unfolding settle_last
settle_last-IsSettled [] h = tt
settle_last-IsSettled (r ∷ []) h = (refl, tt)
settle_last-IsSettled (r ∷ s ∷ rs) h = (h.0, settle_last-IsSettled (s ∷ rs) h.1)

pub settled-Trailing :
    (rs : List Response) (r : Response) → All IsSettled rs → Trailing (rs ++ r ∷ [])
settled-Trailing [] r h = tt
settled-Trailing (s ∷ []) r h = (h.0, tt)
settled-Trailing (s ∷ u ∷ rs) r h = (h.0, settled-Trailing (u ∷ rs) r h.1)

pub All-Trailing : (rs : List Response) → All IsSettled rs → Trailing rs
All-Trailing [] h = tt
All-Trailing (s ∷ []) h = tt
All-Trailing (s ∷ u ∷ rs) h = (h.0, All-Trailing (u ∷ rs) h.1)

pub update_response-Trailing :
    (id : String) (u : Usage) (rs : List Response)
    → Trailing rs
    → Trailing (update_response id u rs)
unfolding update_response
update_response-Trailing id u [] h = tt
update_response-Trailing id u (r ∷ []) h = elim (Bool-cases (text_eq r.id id)) [
  | inl b ↦ rw b tt
  | inr b ↦ rw b tt
]
update_response-Trailing id u (r ∷ s ∷ rs) h =
    let rest = update_response-Trailing id u (s ∷ rs) h.1 in
    elim (Bool-cases (text_eq r.id id)) [
      | inl b ↦ rw b h
      | inr b ↦ elim (Bool-cases (text_eq s.id id)) [
        | inl c ↦ rw (b, c) (h.0, simp c at rest)
        | inr c ↦ rw (b, c) (h.0, simp c at rest)
      ]
    ]

pub mark_response-Trailing : (rs : List Response) → Trailing rs → Trailing (map mark_response rs)
unfolding mark_response
mark_response-Trailing [] h = tt
mark_response-Trailing (r ∷ []) h = tt
mark_response-Trailing (r ∷ s ∷ rs) h = (ground (arith, h.0), mark_response-Trailing (s ∷ rs) h.1)

pub update_response-IsAccounted :
    (l : TokenLedger) (tid id : String) (u : Usage) (rs : List Response)
    → All (IsAccounted l tid) rs
    → All (IsAccounted l tid) (update_response id u rs)
unfolding update_response is_measured
update_response-IsAccounted l tid id u [] h = tt
update_response-IsAccounted l tid id u (r ∷ rs) h = elim (Bool-cases (text_eq r.id id)) [
  | inl b ↦ rw b ((λ s. ((h.0 s).0, λ n. refl)), h.1)
  | inr b ↦ rw b (h.0, update_response-IsAccounted l tid id u rs h.1)
]

mark_response-IsAccounted_one :
    (l : TokenLedger) (tid : String) (r : Response)
    → IsAccounted l tid r
    → IsAccounted l tid (mark_response r)
unfolding mark_response is_measured
mark_response-IsAccounted_one l tid r h = elim (Bool-cases (is_in_flight r)) [
  | inl b ↦ rw b h
  | inr b ↦ rw b h
]

pub mark_response-IsAccounted :
    (l : TokenLedger) (tid : String) (rs : List Response)
    → All (IsAccounted l tid) rs
    → All (IsAccounted l tid) (map mark_response rs)
mark_response-IsAccounted l tid [] h = tt
mark_response-IsAccounted l tid (r ∷ rs) h =
    (mark_response-IsAccounted_one l tid r h.0, mark_response-IsAccounted l tid rs h.1)
