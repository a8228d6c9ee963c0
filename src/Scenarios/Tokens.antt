-- ===== src/Scenarios/Tokens.antt =====
-- The token ledger over the events of a short attempt.
use simple_coding_agent.Base.{
  ◌+◌, ◌≡◌, refl, ◌≢◌, false, Option, none, some, List, [], ◌∷◌, arith, if◌then◌else◌, text_eq,
  member,
}
use simple_coding_agent.Ledger.Usage.{Report, category_value, usage_by_category}
use simple_coding_agent.Ledger.Types.{main, TokenLedger, new_ledger}
use simple_coding_agent.Ledger.Readings.{
  threads_amount_of, amount_of, put_thread, measured_tokens, estimated_tokens,
  interrupted_estimated_tokens, budget_tokens,
}
use simple_coding_agent.Ledger.Settling.{settle_last, settle, settle_thread, track_peak}
use simple_coding_agent.Ledger.Events.{
  mark_interrupted, mark_response, is_in_flight, observe_response, start_thread, observe_usage,
  observe_input, update_response,
}
use simple_coding_agent.Ledger.Counting.{is_counted, observe_response-budget}
use simple_coding_agent.Ledger.Runs.{
  LedgerEvent, thread_started, response_observed, usage_observed, input_observed, thread_settled,
  interruption_marked, apply_event, apply_events,
}
use simple_coding_agent.Ledger.Neutral.{apply_event-budget}
use simple_coding_agent.Ledger.Reconciling.{reconcile}
use simple_coding_agent.Ledger.Reported.{settle_thread-reported_once}
use simple_coding_agent.Ledger.Partition.{IsPartition, reconcile-IsPartition}

abbrev reported : Report
reported key =
    if text_eq key "inputTokens"
    then some 900
    else if text_eq key "output_tokens"
    then some 40
    else none

abbrev started : LedgerEvent
started = thread_started "main" main 400 none

abbrev opening : List LedgerEvent
opening =
    started
    ∷ response_observed "main" "r1" 300
    ∷ usage_observed "main" "r1" (some reported)
    ∷ input_observed "main" 80
    ∷ response_observed "main" "r2" 60
    ∷ []

abbrev ledger_or : Option TokenLedger → TokenLedger
ledger_or none = new_ledger
ledger_or (some l) = l

abbrev opened : TokenLedger
opened = ledger_or (apply_events opening new_ledger)

opening_accepted : apply_events opening new_ledger ≡ some opened
unfolding apply_events start_thread new_ledger observe_response track_peak text_eq observe_usage
    usage_by_category category_value settle put_thread observe_input settle_last update_response
opening_accepted = refl

-- The second response is reported as settled, and its thread settled again after one more.
abbrev more_events : List LedgerEvent
more_events = response_observed "main" "r3" 30 ∷ usage_observed "main" "r2" (some reported) ∷ []

abbrev reported_ledger : TokenLedger
reported_ledger = (settle_thread "main" opened).1

abbrev went_on : TokenLedger
went_on = ledger_or (apply_events more_events reported_ledger)

second_reported : settle_thread "main" opened ≡ ("r2" ∷ [], reported_ledger)
unfolding apply_events start_thread new_ledger observe_response track_peak text_eq observe_usage
    usage_by_category category_value settle put_thread observe_input settle_last update_response
    apply_event settle_thread
second_reported = refl

more_accepted : apply_events more_events reported_ledger ≡ some went_on
unfolding apply_events start_thread new_ledger observe_response track_peak text_eq observe_usage
    usage_by_category category_value settle put_thread observe_input settle_last update_response
    apply_event settle_thread
more_accepted = refl

settle_thread-reported_once_example : member "r2" (settle_thread "main" went_on).0 ≡ false
settle_thread-reported_once_example =
    settle_thread-reported_once opening more_events "main" "r2" opened reported_ledger went_on
      opening_accepted second_reported more_accepted

-- The attempt ends while the second response is under way.
abbrev broken_off : TokenLedger
broken_off = ledger_or (apply_event interruption_marked opened)

reconcile-IsPartition_example :
    IsPartition broken_off (reconcile (some (reported ∷ [])) broken_off).0
reconcile-IsPartition_example = reconcile-IsPartition (some (reported ∷ [])) broken_off

-- Something is interrupted there, and something is measured.
interrupted_there : (interrupted_estimated_tokens broken_off ≢ 0) × (measured_tokens broken_off ≢ 0)
unfolding apply_events start_thread new_ledger observe_response track_peak text_eq observe_usage
    usage_by_category category_value settle put_thread observe_input settle_last update_response
    apply_event mark_interrupted mark_response is_in_flight interrupted_estimated_tokens
    measured_tokens threads_amount_of amount_of
interrupted_there = (λ e. absurd (omega arith), λ e. absurd (omega arith))

abbrev begun : TokenLedger
begun = ledger_or (apply_event started new_ledger)

abbrev observed : TokenLedger
observed = ledger_or (apply_event (response_observed "main" "r1" 300) begun)

first_response : observe_response "main" "r1" 300 begun ≡ some (232200, observed)
unfolding observe_response apply_event start_thread new_ledger track_peak text_eq
first_response = refl

observe_response-budget_example :
    budget_tokens observed
    ≡ budget_tokens begun + (if is_counted "main" "r1" begun then 0 else 232200)
observe_response-budget_example =
    observe_response-budget "main" "r1" 300 232200 begun observed first_response

settled_event : apply_event (thread_settled "main") opened ≡ some ((settle_thread "main" opened).1)
unfolding apply_event
settled_event = refl

apply_event-budget_example :
    (measured_tokens ((settle_thread "main" opened).1) ≡ measured_tokens opened)
    × (estimated_tokens ((settle_thread "main" opened).1) ≡ estimated_tokens opened)
apply_event-budget_example =
    apply_event-budget (thread_settled "main") opened ((settle_thread "main" opened).1) refl
      settled_event
