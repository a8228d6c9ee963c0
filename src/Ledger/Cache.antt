-- ===== src/Ledger/Cache.antt =====
-- Prompt-cache figures (simple_coding_agent/token_ledger.py, lines 505-610 and 744-769).
use simple_coding_agent.Base.{
  ℕ, zero, suc, ◌+◌, ◌-◌, String, Bool, true, false, ◌&&◌, Option, none, some, List, [], ◌∷◌,
  if◌then◌else◌, text_eq, length, select,
}
use simple_coding_agent.Base.Options.{◌>>=◌}
use simple_coding_agent.Ledger.Usage.{Usage, Share, total_input_of, hit_rate_of}
use simple_coding_agent.Ledger.Types.{Response, TokenLedger}
use simple_coding_agent.Ledger.Readings.{find_thread, is_measured, responses_by_category}

-- `responses[:limit]`, where no limit takes all.
unfoldable pub first_of : Option ℕ → List Response → List Response
first_of none rs = rs
first_of (some n) [] = []
first_of (some zero) (r ∷ rs) = []
first_of (some (suc n)) (r ∷ rs) = r ∷ first_of (some n) rs

unfoldable pub main_responses : TokenLedger → List Response
unfolding find_thread
main_responses l = elim (find_thread "main" l.threads) [ none ↦ [] | some t ↦ t.responses ]

-- `_measured_main_responses`
unfoldable pub measured_main_responses : Option ℕ → TokenLedger → List Response
unfolding first_of is_measured main_responses
measured_main_responses limit l = first_of limit (select is_measured (main_responses l))

unfoldable pub main_measured_by_category : Option ℕ → TokenLedger → Usage
unfolding measured_main_responses
main_measured_by_category limit l = responses_by_category (measured_main_responses limit l)

unfoldable pub main_hit_rate : Option ℕ → TokenLedger → Option Share
unfolding main_measured_by_category
main_hit_rate limit l = hit_rate_of (main_measured_by_category limit l)

-- `_main_miss_at`, with the response before, if there is one.
unfoldable pub main_miss_at : Option Response → Response → Option ℕ
main_miss_at none r = none
main_miss_at (some previous) r = elim r.usage [
  | none ↦ none
  | some u ↦ if r.compacted_before then none else (elim previous.usage [
    | none ↦ none
    | some v ↦ some (total_input_of v - u.cache_read_input_tokens)
  ])
]

pub record MissCount : Type 0 where
  pub miss_tokens : ℕ
  pub counted : ℕ
  pub excluded : ℕ

unfoldable pub count_miss : Option ℕ → MissCount → MissCount
count_miss none c = record c { excluded = c.excluded + 1 }
count_miss (some miss) c = record c { counted = c.counted + 1; miss_tokens = c.miss_tokens + miss }

unfoldable pub has_room : Option ℕ → Bool
has_room none = true
has_room (some zero) = false
has_room (some (suc n)) = true

unfoldable pub spend : Option ℕ → Option ℕ
spend none = none
spend (some zero) = some zero
spend (some (suc n)) = some n

-- The loop of `main_cache_stats`: the measured responses within the limit are counted.
unfoldable pub count_misses : Option ℕ → Option Response → List Response → MissCount → MissCount
unfolding main_miss_at count_miss has_room spend
count_misses limit previous [] c = c
count_misses limit previous (r ∷ rs) c =
    let within = count_misses (spend limit) (some r) rs (count_miss (main_miss_at previous r) c) in
    let without = count_misses limit (some r) rs c in
    if is_measured r && has_room limit then within else without

pub record MainCacheStats : Type 0 where
  pub hit_rate : Option Share
  pub misses : MissCount

unfoldable pub main_cache_stats : Option ℕ → TokenLedger → MainCacheStats
unfolding main_hit_rate count_misses
main_cache_stats limit l = record {
  hit_rate = main_hit_rate limit l;
  misses =
      count_misses limit none (main_responses l)
        (record { miss_tokens = 0; counted = 0; excluded = 0 });
}

unfoldable pub main_measured_settled_count : TokenLedger → ℕ
main_measured_settled_count l = length (select (λ r. r.settled && is_measured r) (main_responses l))

-- `response_cache_metrics`: the response with the one before it, in a list of responses.
unfoldable pub find_with_previous :
    String → Option Response → List Response → Option (Option Response × Response)
find_with_previous id previous [] = none
find_with_previous id previous (r ∷ rs) =
    let rest = find_with_previous id (some r) rs in
    if text_eq r.id id then some (previous, r) else rest

pub record ResponseCacheMetrics : Type 0 where
  pub input_tokens : ℕ
  pub cache_read_tokens : ℕ
  pub cache_creation_tokens : ℕ
  pub hit_rate : Option Share
  pub miss_tokens : Option ℕ

-- Only the thread with the ID `main` has misses.
unfoldable pub metrics_of : Bool → Option Response → Response → Option ResponseCacheMetrics
unfolding main_miss_at
metrics_of in_main previous r = elim r.usage [
  | none ↦ none
  | some u ↦ some (record {
    input_tokens = u.input_tokens;
    cache_read_tokens = u.cache_read_input_tokens;
    cache_creation_tokens = u.cache_creation_input_tokens;
    hit_rate = hit_rate_of u;
    miss_tokens = if in_main then main_miss_at previous r else none;
  })
]

unfoldable pub response_cache_metrics : String → String → TokenLedger → Option ResponseCacheMetrics
unfolding find_with_previous metrics_of find_thread text_eq
response_cache_metrics thread_id id l = find_thread thread_id l.threads >>= λ t.
    find_with_previous id none t.responses >>= λ found.
    metrics_of (text_eq thread_id "main") found.0 found.1
