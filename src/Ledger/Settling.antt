-- ===== src/Ledger/Settling.antt =====
-- Settling and the peak (simple_coding_agent/token_ledger.py, lines 666-722 and 771-789).
use simple_coding_agent.Base.{
  String, Bool, true, false, ◌&&◌, ◌||◌, Option, none, some, List, [], ◌∷◌, map, ltb, if◌then◌else◌,
  is_empty,
}
use simple_coding_agent.Ledger.Types.{
  Response, Thread, ThreadKind, main, subagent, DegradedNotice, Basis, estimated, measured,
  TokenLedger,
}
use simple_coding_agent.Ledger.Readings.{
  find_thread, put_thread, last_response, is_measured, current_reading,
}

-- `response.settled = True`, for the last response.
unfoldable pub settle_last : List Response → List Response
settle_last [] = []
settle_last (r ∷ []) = record r { settled = true } ∷ []
settle_last (r ∷ s ∷ rs) = r ∷ settle_last (s ∷ rs)

-- The thread after `_settle`.
unfoldable pub settled_thread : Thread → Thread
settled_thread t = record t { responses = settle_last t.responses }

-- The notice after a response has settled.
unfoldable pub notice_of : Thread → Response → Option DegradedNotice → Option DegradedNotice
notice_of t r (some notice) = some notice
notice_of t r none =
    if is_measured r
    then none
    else some (record { thread = t.id; subagent_type = t.subagent_type; response_id = r.id })

unfoldable pub settle_response : Thread → Response → TokenLedger → TokenLedger
unfolding settled_thread notice_of
settle_response t r l = record l {
  threads = put_thread (settled_thread t) l.threads;
  first_settled_without_usage = notice_of t r l.first_settled_without_usage;
  settled_readings =
      record { thread = t.id; response_id = r.id; reading = current_reading l }
      ∷ l.settled_readings;
}

-- `_settle`, for a thread of the ledger. A later row replaces an earlier one under its key.
unfoldable pub settle : Thread → TokenLedger → TokenLedger
unfolding settle_response last_response
settle t l = elim (last_response t.responses) [
  | none ↦ l
  | some r ↦ if r.settled then l else settle_response t r l
]

-- `settle_thread` on a thread and its last response.
unfoldable pub settle_on : Thread → Option Response → TokenLedger → List String × TokenLedger
settle_on t none l = ([], l)
settle_on t (some r) l = if r.settled || r.interrupted then ([], l) else (r.id ∷ [], settle t l)

unfoldable pub settle_found : Option Thread → TokenLedger → List String × TokenLedger
unfolding settle_on last_response
settle_found none l = ([], l)
settle_found (some t) l = settle_on t (last_response t.responses) l

-- `settle_thread`: the newly settled response, if any.
unfoldable pub settle_thread : String → TokenLedger → List String × TokenLedger
unfolding settle_found find_thread
settle_thread id l = settle_found (find_thread id l.threads) l

-- A row of the result of `settle_all_threads`.
pub record NewlySettled : Type 0 where
  pub thread : String
  pub response_ids : List String

-- The loop of `settle_all_threads`, over the IDs of the threads.
unfoldable pub settle_threads : List String → TokenLedger → List NewlySettled × TokenLedger
settle_threads [] l = ([], l)
settle_threads (id ∷ ids) l =
    let now = settle_thread id l in
    let rest = settle_threads ids now.1 in
    (
      if is_empty now.0 then rest.0 else record { thread = id; response_ids = now.0 } ∷ rest.0,
      rest.1,
    )

unfoldable pub settle_all_threads : TokenLedger → List NewlySettled × TokenLedger
unfolding settle_threads
settle_all_threads l = settle_threads (map (λ t. t.id) l.threads) l

abbrev pub is_main : ThreadKind → Bool
is_main main = true
is_main subagent = false

abbrev pub basis_of : Bool → Basis
basis_of true = measured
basis_of false = estimated

-- The basis of the latest response.
unfoldable pub latest_basis : List Response → Basis
unfolding last_response is_measured
latest_basis rs = elim (last_response rs) [ none ↦ estimated | some r ↦ basis_of (is_measured r) ]

-- `_track_peak`
unfoldable pub track_peak : Thread → Option Basis → TokenLedger → TokenLedger
unfolding latest_basis
track_peak t basis l =
    if is_main t.kind && ltb l.peak_main_context_tokens t.context
    then record l {
      peak_main_context_tokens = t.context;
      peak_main_context_basis = elim basis [ none ↦ latest_basis t.responses | some b ↦ b ];
    }
    else l
