-- ===== src/Ledger/Reconciling.antt =====
-- The reconciliation (simple_coding_agent/token_ledger.py, lines 377-429).
use simple_coding_agent.Base.{
  ℕ, ◌+◌, ◌-◌, String, Bool, ◌||◌, Option, none, some, List, [], ◌∷◌, map, ltb, ◌==◌, if◌then◌else◌,
}
use simple_coding_agent.Ledger.Usage.{Report, usage_total}
use simple_coding_agent.Ledger.Types.{tokens, Thread, TokenLedger}
use simple_coding_agent.Ledger.Readings.{
  find_thread, measured_tokens, estimated_tokens, interrupted_estimated_tokens, budget_tokens,
}
use simple_coding_agent.Ledger.Settling.{settle}

-- A difference that may be negative: `plus` less `minus`.
pub record Difference : Type 0 where
  pub plus : ℕ
  pub minus : ℕ

pub record Ratio : Type 0 where
  pub part : Difference
  pub whole : Difference

unfoldable pub is_positive : Difference → Bool
is_positive d = ltb d.minus d.plus

pub data Mode : Type 0 where
  measured : Mode
  mixed : Mode
  estimated : Mode

pub record Actual : Type 0 where
  pub actual_tokens : ℕ
  pub error_ratio : Option Ratio
  pub unreported_actual_tokens : Difference
  pub unreported_error_ratio : Option Ratio

-- The fields that need the model's usage are in `actual`. Amounts are twelfths, the actual ones too.
pub record Reconciliation : Type 0 where
  pub mode : Mode
  pub estimated_tokens : ℕ
  pub unreported_estimated_tokens : ℕ
  pub interrupted_estimated_tokens : ℕ
  pub actual : Option Actual

unfoldable pub mode_of : ℕ → ℕ → ℕ → Mode
mode_of covered_unreported measured_amount interrupted =
    if ltb 0 covered_unreported
    then if ltb 0 measured_amount then mixed else estimated
    else if ltb 0 measured_amount || interrupted == 0
    then measured
    else estimated

unfoldable pub reports_total : List Report → ℕ
reports_total [] = 0
reports_total (u ∷ us) = usage_total u + reports_total us

-- `(part - whole) / whole`, for a positive whole.
unfoldable pub ratio_of : ℕ → Difference → Option Ratio
unfolding is_positive
ratio_of covered whole =
    if is_positive whole
    then some (record {
      part = record { plus = covered + whole.minus; minus = whole.plus };
      whole = whole;
    })
    else none

unfoldable pub actual_of : ℕ → ℕ → ℕ → ℕ → Actual
actual_of covered_estimated covered_unreported measured_amount actual =
    let unreported : Difference = record { plus = actual; minus = measured_amount } in
    record {
      actual_tokens = actual;
      error_ratio = ratio_of covered_estimated (record { plus = actual; minus = 0 });
      unreported_actual_tokens = unreported;
      unreported_error_ratio = ratio_of covered_unreported unreported;
    }

unfoldable pub settle_if_found : Option Thread → TokenLedger → TokenLedger
settle_if_found none l = l
settle_if_found (some t) l = settle t l

-- The loop of `reconcile` over the threads.
unfoldable pub settle_each : List String → TokenLedger → TokenLedger
unfolding settle_if_found find_thread
settle_each [] l = l
settle_each (id ∷ ids) l = settle_each ids (settle_if_found (find_thread id l.threads) l)

unfoldable pub reconciliation_of : Option (List Report) → TokenLedger → Reconciliation
unfolding mode_of actual_of reports_total
reconciliation_of model_usage l =
    let interrupted = interrupted_estimated_tokens l in
    let covered_unreported = estimated_tokens l - interrupted in
    record {
      mode = mode_of covered_unreported (measured_tokens l) interrupted;
      estimated_tokens = budget_tokens l;
      unreported_estimated_tokens = covered_unreported;
      interrupted_estimated_tokens = interrupted;
      actual = elim model_usage [
        | none ↦ none
        | some usages ↦ some (
            actual_of (budget_tokens l - interrupted) covered_unreported (measured_tokens l)
              (tokens (reports_total usages)))
      ];
    }

-- `reconcile`
unfoldable pub reconcile : Option (List Report) → TokenLedger → Reconciliation × TokenLedger
unfolding settle_each
reconcile model_usage l =
    let s = settle_each (map (λ t. t.id) l.threads) l in (reconciliation_of model_usage s, s)
