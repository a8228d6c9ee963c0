-- ===== src/Ledger/Events.antt =====
-- The ledger's events (simple_coding_agent/token_ledger.py, lines 272-375 and 477-491). `none` is a
-- thread that was not started, or was started before.
use simple_coding_agent.Base.{
  ℕ, ◌+◌, String, Bool, true, false, ◌&&◌, not, Option, none, some, List, [], ◌∷◌, ◌++◌, map, ◌==◌,
  if◌then◌else◌, text_eq, length, select, member,
}
use simple_coding_agent.Base.Options.{◌>>=◌}
use simple_coding_agent.Ledger.Usage.{Usage, Report, usage_by_category, category_sum, merge_usage}
use simple_coding_agent.Ledger.Types.{
  tokens, input_amount, output_amount, framing_tokens_per_message, thinking_allowance_tokens,
  Response, counted, Thread, ThreadKind, main, subagent, measured, TokenLedger,
}
use simple_coding_agent.Ledger.Readings.{
  find_thread, put_thread, find_response, response_for_usage, is_measured,
}
use simple_coding_agent.Ledger.Settling.{settle, settled_thread, track_peak}

unfoldable pub text_or_empty : Option String → String
text_or_empty none = ""
text_or_empty (some s) = s

unfoldable pub system_base : ThreadKind → Option String → TokenLedger → ℕ
unfolding text_or_empty
system_base main subagent_type l = l.main_system_base
system_base subagent subagent_type l =
    elim (l.subagent_bases_by_type (text_or_empty subagent_type)) [
      | none ↦ l.subagent_system_base
      | some base ↦ base
    ]

unfoldable pub subagent_type_of : ThreadKind → Option String → Option String
subagent_type_of main subagent_type = none
subagent_type_of subagent subagent_type = subagent_type

unfoldable pub discard : String → List String → List String
discard id ids = select (λ s. not (text_eq s id)) ids

-- A thread at its base, with its prompt.
unfoldable pub new_thread : String → ThreadKind → ℕ → Option String → TokenLedger → Thread
unfolding system_base subagent_type_of
new_thread id kind prompt_chars subagent_type l = record {
  id = id;
  kind = kind;
  subagent_type = subagent_type_of kind subagent_type;
  context = system_base kind subagent_type l + input_amount prompt_chars;
  responses = [];
}

unfoldable pub add_thread : Thread → TokenLedger → TokenLedger
unfolding discard
add_thread t l = track_peak t none (record l {
  threads = l.threads ++ t ∷ [];
  compaction_pending = discard t.id l.compaction_pending;
})

-- A thread is added if there was none under its ID.
unfoldable pub add_if_new : Option Thread → Thread → TokenLedger → Option TokenLedger
unfolding add_thread
add_if_new none t l = some (add_thread t l)
add_if_new (some old) t l = none

unfoldable pub start_thread :
    String → ThreadKind → ℕ → Option String → TokenLedger → Option TokenLedger
unfolding add_if_new new_thread find_thread
start_thread id kind prompt_chars subagent_type l =
    add_if_new (find_thread id l.threads) (new_thread id kind prompt_chars subagent_type l) l

unfoldable pub output_estimate_of : ℕ → ℕ
output_estimate_of visible_chars = output_amount visible_chars + tokens thinking_allowance_tokens

-- A response that has just been counted, on the thread of the argument.
unfoldable pub new_response : Thread → String → ℕ → List String → Response
unfolding output_estimate_of
new_response t id visible_chars pending = record {
  id = id;
  estimate = t.context + output_estimate_of visible_chars;
  output_estimate = output_estimate_of visible_chars;
  usage = none;
  settled = false;
  compacted_before = member t.id pending;
  interrupted = false;
}

-- The thread with the new response, its last one settled.
unfoldable pub grown_thread : Thread → Response → Thread
unfolding settled_thread
grown_thread t r = record (settled_thread t) {
  context = t.context + r.output_estimate;
  responses = (settled_thread t).responses ++ r ∷ [];
}

unfoldable pub count_response : Thread → String → ℕ → TokenLedger → ℕ × TokenLedger
unfolding new_response grown_thread discard
count_response t id visible_chars l =
    let r = new_response t id visible_chars l.compaction_pending in
    let s = settle t l in
    (
      r.estimate,
      track_peak (grown_thread t r) none (record s {
        threads = put_thread (grown_thread t r) s.threads;
        compaction_pending = discard t.id s.compaction_pending;
      }),
    )

-- What is returned for a response that is counted already, or is new, on the thread.
unfoldable pub observe_on : Thread → String → ℕ → TokenLedger → ℕ × TokenLedger
unfolding counted find_response count_response
observe_on t response_id visible_chars l = elim (find_response response_id t.responses) [
  | some r ↦ (counted r, l)
  | none ↦ count_response t response_id visible_chars l
]

unfoldable pub observe_response : String → String → ℕ → TokenLedger → Option (ℕ × TokenLedger)
unfolding find_thread observe_on
observe_response thread_id response_id visible_chars l =
    find_thread thread_id l.threads >>= λ t. some (observe_on t response_id visible_chars l)

-- The response with the ID has the usage.
unfoldable pub update_response : String → Usage → List Response → List Response
update_response id u [] = []
update_response id u (r ∷ rs) =
    if text_eq r.id id then record r { usage = some u } ∷ rs else r ∷ update_response id u rs

unfoldable pub merged_into : Option Usage → Usage → Usage
merged_into none v = v
merged_into (some u) v = merge_usage u v

-- The usage `u` on response `r` of the thread, and the context measured anew.
unfoldable pub measured_thread : Thread → Response → Usage → Thread
unfolding merged_into
measured_thread t r u = record t {
  context = tokens (category_sum (merged_into r.usage u));
  responses = update_response r.id (merged_into r.usage u) t.responses;
}

unfoldable pub observe_measured : Thread → Response → Usage → TokenLedger → TokenLedger
unfolding measured_thread
observe_measured t r u l =
    track_peak (measured_thread t r u) (some measured)
      (record l { threads = put_thread (measured_thread t r u) l.threads })

-- Usage on the response with the ID, or on the last one, if the thread has responses.
unfoldable pub observe_usage_on : Thread → String → Usage → TokenLedger → TokenLedger
unfolding observe_measured response_for_usage
observe_usage_on t response_id u l = elim (response_for_usage t.responses response_id) [
  | none ↦ l
  | some r ↦ observe_measured t r u l
]

unfoldable pub observe_usage : String → String → Option Report → TokenLedger → Option TokenLedger
unfolding find_thread observe_usage_on
observe_usage thread_id response_id none l = some l
observe_usage thread_id response_id (some report) l =
    if category_sum (usage_by_category report) == 0
    then some l
    else (find_thread thread_id l.threads >>= λ t.
        some (observe_usage_on t response_id (usage_by_category report) l))

unfoldable pub fed_thread : Thread → ℕ → Thread
unfolding settled_thread
fed_thread t chars = record (settled_thread t) {
  context = t.context + (input_amount chars + tokens framing_tokens_per_message);
}

unfoldable pub feed : Thread → ℕ → TokenLedger → TokenLedger
unfolding fed_thread
feed t chars l =
    let s = settle t l in
    track_peak (fed_thread t chars) none
      (record s { threads = put_thread (fed_thread t chars) s.threads })

unfoldable pub observe_input : String → ℕ → TokenLedger → Option TokenLedger
unfolding feed find_thread
observe_input thread_id chars l = find_thread thread_id l.threads >>= λ t. some (feed t chars l)

unfoldable pub notify_compaction : String → TokenLedger → TokenLedger
notify_compaction id l =
    if member id l.compaction_pending
    then l
    else record l { compaction_pending = id ∷ l.compaction_pending }

-- The responses that `mark_interrupted` flags.
unfoldable pub is_in_flight : Response → Bool
is_in_flight r = not (is_measured r) && not r.settled && not r.interrupted

unfoldable pub mark_response : Response → Response
mark_response r = if is_in_flight r then record r { interrupted = true } else r

unfoldable pub mark_thread : Thread → Thread
mark_thread t = record t { responses = map mark_response t.responses }

unfoldable pub count_in_flight : List Thread → ℕ
count_in_flight [] = 0
count_in_flight (t ∷ ts) = length (select is_in_flight t.responses) + count_in_flight ts

unfoldable pub mark_interrupted : TokenLedger → ℕ × TokenLedger
unfolding count_in_flight mark_thread
mark_interrupted l = (count_in_flight l.threads, record l { threads = map mark_thread l.threads })
