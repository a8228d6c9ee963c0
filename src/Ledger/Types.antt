-- ===== src/Ledger/Types.antt =====
-- The ledger's data (simple_coding_agent/token_ledger.py, lines 64-83 and 148-268). An
-- amount of tokens is a number of twelfths, so that both ratios of characters to tokens are exact:
-- the rounding of the program's floats is not modelled.
use simple_coding_agent.Base.{
  ℕ, ◌*◌, String, Bool, ◌||◌, Option, none, some, List, [], if◌then◌else◌, text_eq,
}
use simple_coding_agent.Ledger.Usage.{Usage, category_sum}

-- A whole number of tokens, and the tokens of characters put in or out.
abbrev pub tokens : ℕ → ℕ
tokens n = 12 * n

abbrev pub input_amount : ℕ → ℕ
input_amount chars = 3 * chars

abbrev pub output_amount : ℕ → ℕ
output_amount chars = 4 * chars

abbrev pub framing_tokens_per_message : ℕ
framing_tokens_per_message = 60

abbrev pub thinking_allowance_tokens : ℕ
thinking_allowance_tokens = 150

abbrev pub main_system_base_tokens : ℕ
main_system_base_tokens = 19000

abbrev pub default_subagent_system_base_tokens : ℕ
default_subagent_system_base_tokens = 15000

-- `SUBAGENT_SYSTEM_BASE_TOKENS_BY_TYPE`
unfoldable pub subagent_system_base_tokens_by_type : String → Option ℕ
unfolding text_eq
subagent_system_base_tokens_by_type type =
    if text_eq type "Explore" || text_eq type "general-purpose" then some (tokens 15000) else none

pub record Response : Type 0 where
  pub id : String
  pub estimate : ℕ
  pub output_estimate : ℕ
  pub usage : Option Usage
  pub settled : Bool
  pub compacted_before : Bool
  pub interrupted : Bool

unfoldable pub counted : Response → ℕ
unfolding category_sum
counted r = elim r.usage [ none ↦ r.estimate | some u ↦ tokens (category_sum u) ]

pub data ThreadKind : Type 0 where
  main : ThreadKind
  subagent : ThreadKind

pub record Thread : Type 0 where
  pub id : String
  pub kind : ThreadKind
  pub subagent_type : Option String
  pub context : ℕ
  pub responses : List Response

pub record DegradedNotice : Type 0 where
  pub thread : String
  pub subagent_type : Option String
  pub response_id : String

pub record SettledReading : Type 0 where
  pub budget_tokens : ℕ
  pub measured_tokens : ℕ
  pub estimated_tokens : ℕ
  pub main_context_tokens : ℕ
  pub main_response_count : ℕ

-- A row of `_settled_readings`, under the thread and the response.
pub record ReadingRow : Type 0 where
  pub thread : String
  pub response_id : String
  pub reading : SettledReading

pub data Basis : Type 0 where
  estimated : Basis
  measured : Basis

pub record TokenLedger : Type 0 where
  pub main_system_base : ℕ
  pub subagent_system_base : ℕ
  pub subagent_bases_by_type : String → Option ℕ
  pub threads : List Thread
  pub first_settled_without_usage : Option DegradedNotice
  pub settled_readings : List ReadingRow
  pub peak_main_context_tokens : ℕ
  pub peak_main_context_basis : Basis
  pub compaction_pending : List String

-- `TokenLedger.__init__`, with its defaults.
unfoldable pub new_ledger : TokenLedger
new_ledger = record {
  main_system_base = tokens main_system_base_tokens;
  subagent_system_base = tokens default_subagent_system_base_tokens;
  subagent_bases_by_type = subagent_system_base_tokens_by_type;
  threads = [];
  first_settled_without_usage = none;
  settled_readings = [];
  peak_main_context_tokens = 0;
  peak_main_context_basis = estimated;
  compaction_pending = [];
}
