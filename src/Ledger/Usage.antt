-- ===== src/Ledger/Usage.antt =====
-- Reported usage (simple_coding_agent/token_ledger.py, lines 85-145). A usage report is a function
-- from a key to the number under it; a missing or null one has none.
use simple_coding_agent.Base.{ℕ, ◌+◌, String, Option, none, some, ltb, ◌==◌, if◌then◌else◌}

pub record Usage : Type 0 where
  pub input_tokens : ℕ
  pub cache_read_input_tokens : ℕ
  pub cache_creation_input_tokens : ℕ
  pub output_tokens : ℕ

abbrev pub Report : Type 0
Report = String → Option ℕ

-- `_category_value`, for a category and its camel-case alias.
unfoldable pub category_value : Report → String → String → ℕ
category_value usage category alias = elim (usage category) [
  | some value ↦ value
  | none ↦ elim (usage alias) [ some value ↦ value | none ↦ 0 ]
]

unfoldable pub usage_by_category : Report → Usage
usage_by_category usage = record {
  input_tokens = category_value usage "input_tokens" "inputTokens";
  cache_read_input_tokens = category_value usage "cache_read_input_tokens" "cacheReadInputTokens";
  cache_creation_input_tokens =
      category_value usage "cache_creation_input_tokens" "cacheCreationInputTokens";
  output_tokens = category_value usage "output_tokens" "outputTokens";
}

unfoldable pub category_sum : Usage → ℕ
category_sum u =
    u.input_tokens + u.cache_read_input_tokens + u.cache_creation_input_tokens + u.output_tokens

unfoldable pub usage_total : Report → ℕ
usage_total usage = category_sum (usage_by_category usage)

unfoldable pub total_input_of : Usage → ℕ
total_input_of u = u.input_tokens + u.cache_read_input_tokens + u.cache_creation_input_tokens

-- A share of a whole, kept as the two numbers.
pub record Share : Type 0 where
  pub part : ℕ
  pub whole : ℕ

unfoldable pub hit_rate_of : Usage → Option Share
unfolding total_input_of
hit_rate_of totals =
    if total_input_of totals == 0
    then none
    else some (record { part = totals.cache_read_input_tokens; whole = total_input_of totals })

unfoldable pub larger : ℕ → ℕ → ℕ
larger a b = if ltb a b then b else a

-- Two reports of one response: the larger number per category.
unfoldable pub merge_usage : Usage → Usage → Usage
merge_usage u v = record {
  input_tokens = larger u.input_tokens v.input_tokens;
  cache_read_input_tokens = larger u.cache_read_input_tokens v.cache_read_input_tokens;
  cache_creation_input_tokens = larger u.cache_creation_input_tokens v.cache_creation_input_tokens;
  output_tokens = larger u.output_tokens v.output_tokens;
}

unfoldable pub add_usage : Usage → Usage → Usage
add_usage u v = record {
  input_tokens = u.input_tokens + v.input_tokens;
  cache_read_input_tokens = u.cache_read_input_tokens + v.cache_read_input_tokens;
  cache_creation_input_tokens = u.cache_creation_input_tokens + v.cache_creation_input_tokens;
  output_tokens = u.output_tokens + v.output_tokens;
}
