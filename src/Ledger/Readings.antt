-- ===== src/Ledger/Readings.antt =====
-- Lookups and readings (simple_coding_agent/token_ledger.py, lines 432-503, 587-664 and 724-742).
use simple_coding_agent.Base.{
  ℕ, ◌+◌, String, Bool, true, false, ◌&&◌, not, Option, none, some, List, [], ◌∷◌, map,
  if◌then◌else◌, text_eq, length, select,
}
use simple_coding_agent.Ledger.Usage.{Usage, add_usage}
use simple_coding_agent.Ledger.Types.{
  Response, counted, Thread, ReadingRow, SettledReading, Basis, estimated, measured, TokenLedger,
}

unfoldable pub find_thread : String → List Thread → Option Thread
find_thread id [] = none
find_thread id (t ∷ ts) = if text_eq t.id id then some t else find_thread id ts

-- The thread in place of the one with its ID.
unfoldable pub put_thread : Thread → List Thread → List Thread
put_thread t [] = []
put_thread t (x ∷ xs) = if text_eq x.id t.id then t ∷ xs else x ∷ put_thread t xs

unfoldable pub find_response : String → List Response → Option Response
find_response id [] = none
find_response id (r ∷ rs) = if text_eq r.id id then some r else find_response id rs

unfoldable pub last_response : List Response → Option Response
last_response [] = none
last_response (r ∷ []) = some r
last_response (r ∷ s ∷ rs) = last_response (s ∷ rs)

-- `_response_for_usage`
unfoldable pub response_for_usage : List Response → String → Option Response
response_for_usage rs id = elim (find_response id rs) [ some r ↦ some r | none ↦ last_response rs ]

unfoldable pub is_measured : Response → Bool
is_measured r = elim r.usage [ none ↦ false | some u ↦ true ]

-- The tokens of the responses that pass a test.
unfoldable pub amount_of : (Response → Bool) → List Response → ℕ
amount_of p [] = 0
amount_of p (r ∷ rs) = (if p r then counted r else 0) + amount_of p rs

unfoldable pub threads_amount_of : (Response → Bool) → List Thread → ℕ
threads_amount_of p [] = 0
threads_amount_of p (t ∷ ts) = amount_of p t.responses + threads_amount_of p ts

unfoldable pub measured_tokens : TokenLedger → ℕ
measured_tokens l = threads_amount_of is_measured l.threads

unfoldable pub estimated_tokens : TokenLedger → ℕ
estimated_tokens l = threads_amount_of (λ r. not (is_measured r)) l.threads

unfoldable pub interrupted_estimated_tokens : TokenLedger → ℕ
interrupted_estimated_tokens l =
    threads_amount_of (λ r. not (is_measured r) && r.interrupted) l.threads

unfoldable pub budget_tokens : TokenLedger → ℕ
unfolding measured_tokens estimated_tokens
budget_tokens l = measured_tokens l + estimated_tokens l

-- `_current_reading`
unfoldable pub current_reading : TokenLedger → SettledReading
current_reading l = record {
  budget_tokens = budget_tokens l;
  measured_tokens = measured_tokens l;
  estimated_tokens = estimated_tokens l;
  main_context_tokens = elim (find_thread "main" l.threads) [ none ↦ 0 | some t ↦ t.context ];
  main_response_count = elim (find_thread "main" l.threads) [
    | none ↦ 0
    | some t ↦ length t.responses
  ];
}

-- `settled_reading`
unfoldable pub settled_reading : List ReadingRow → String → String → Option SettledReading
settled_reading [] thread id = none
settled_reading (row ∷ rows) thread id =
    if text_eq row.thread thread && text_eq row.response_id id
    then some row.reading
    else settled_reading rows thread id

-- `settled_response_ids`, of a thread's responses.
unfoldable pub settled_response_ids : List Response → List String
settled_response_ids rs = map (λ r. r.id) (select (λ r. r.settled) rs)

unfoldable pub no_usage : Usage
no_usage = record {
  input_tokens = 0;
  cache_read_input_tokens = 0;
  cache_creation_input_tokens = 0;
  output_tokens = 0;
}

-- `measured_by_category`
unfoldable pub responses_by_category : List Response → Usage
responses_by_category [] = no_usage
responses_by_category (r ∷ rs) = elim r.usage [
  | none ↦ responses_by_category rs
  | some u ↦ add_usage u (responses_by_category rs)
]

unfoldable pub threads_by_category : List Thread → Usage
threads_by_category [] = no_usage
threads_by_category (t ∷ ts) =
    add_usage (responses_by_category t.responses) (threads_by_category ts)

unfoldable pub measured_by_category : TokenLedger → Usage
measured_by_category l = threads_by_category l.threads

-- `main_context_basis`
unfoldable pub main_context_basis : TokenLedger → Basis
unfolding find_thread last_response is_measured
main_context_basis l = elim (find_thread "main" l.threads) [
  | none ↦ estimated
  | some t ↦ elim (last_response t.responses) [
    | none ↦ estimated
    | some r ↦ if is_measured r then measured else estimated
  ]
]
