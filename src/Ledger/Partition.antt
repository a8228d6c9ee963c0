-- ===== src/Ledger/Partition.antt =====
-- What a reconciliation reports of the ledger's budget.
use simple_coding_agent.Base.{
  ◌+◌, ◌≤◌, String, ◌≡◌, refl, ◌&&◌, not, Option, List, [], ◌∷◌, map, arith,
}
use simple_coding_agent.Ledger.Types.{Response, Thread, TokenLedger}
use simple_coding_agent.Ledger.Usage.{Report}
use simple_coding_agent.Ledger.Readings.{
  is_measured, amount_of, threads_amount_of, measured_tokens, estimated_tokens,
  interrupted_estimated_tokens, budget_tokens,
}
use simple_coding_agent.Ledger.Reconciling.{
  settle_each, Reconciliation, reconciliation_of, reconcile,
}
use simple_coding_agent.Ledger.Neutral.{settle_each-Keeps}

interrupted_le :
    (rs : List Response)
    → amount_of (λ r. not (is_measured r) && r.interrupted) rs
      ≤ amount_of (λ r. not (is_measured r)) rs
unfolding amount_of
interrupted_le [] = omega arith
interrupted_le (r ∷ rs) = ground (arith, interrupted_le rs)

threads_interrupted_le :
    (ts : List Thread)
    → threads_amount_of (λ r. not (is_measured r) && r.interrupted) ts
      ≤ threads_amount_of (λ r. not (is_measured r)) ts
unfolding threads_amount_of
threads_interrupted_le [] = omega arith
threads_interrupted_le (t ∷ ts) =
    omega (arith, interrupted_le t.responses, threads_interrupted_le ts)

-- The readings of the ledger that settling its threads leaves alone.
settle_each-readings :
    (ids : List String) (l : TokenLedger)
    → (measured_tokens (settle_each ids l) ≡ measured_tokens l)
      × (estimated_tokens (settle_each ids l) ≡ estimated_tokens l)
      × (interrupted_estimated_tokens (settle_each ids l) ≡ interrupted_estimated_tokens l)
unfolding measured_tokens estimated_tokens interrupted_estimated_tokens is_measured
settle_each-readings ids l = (
  settle_each-Keeps is_measured (λ r. refl) ids l,
  settle_each-Keeps (λ r. not (is_measured r)) (λ r. refl) ids l,
  settle_each-Keeps (λ r. not (is_measured r) && r.interrupted) (λ r. refl) ids l,
)

-- A report splits the budget of the ledger that it was asked of: what is measured, what is estimated
-- without a report of usage, and what interrupted responses are estimated at.
pub record IsPartition (l : TokenLedger) (r : Reconciliation) : Type 0 where
  pub budget : r.estimated_tokens ≡ budget_tokens l
  pub interrupted : r.interrupted_estimated_tokens ≡ interrupted_estimated_tokens l
  pub estimated :
      r.unreported_estimated_tokens + r.interrupted_estimated_tokens ≡ estimated_tokens l
  pub split :
      measured_tokens l + (r.unreported_estimated_tokens + r.interrupted_estimated_tokens)
      ≡ r.estimated_tokens

-- A reconciliation, with or without the usage of the models, splits the budget that the ledger had
-- before it settled the threads: the measured tokens, the unreported and the interrupted estimates
-- add up to the estimated tokens that it reports, so that nothing is lost or counted twice.
pub reconcile-IsPartition :
    (usages : Option (List Report)) (l : TokenLedger) → IsPartition l (reconcile usages l).0
unfolding reconcile reconciliation_of budget_tokens measured_tokens estimated_tokens
    interrupted_estimated_tokens
reconcile-IsPartition usages l =
    let ids = map (λ t. t.id) l.threads in
    let k = settle_each-readings ids l in
    let b = threads_interrupted_le l.threads in
    record {
      budget = omega (arith, k.0, k.1);
      interrupted = k.2;
      estimated = omega (arith, k.1, k.2, b);
      split = omega (arith, k.0, k.1, k.2, b);
    }
