-- ===== src/Retry/Results.antt =====
-- backend/harness/services/retry_budget.py: what a successful request of a retry amounts to.
use agentic_design_harness.Common.{
  any, Code, ok, guard, >>=-eq-ok, guard-eq-ok, ok_inj, lookup, ℕ, ◌≡◌, sym, ap, ◌∙◌, false, not,
  List, [], ◌∷◌, ◌++◌, arith, ◌==◌,
}
use agentic_design_harness.Retry.Budget.{Gate, Attempt, Snapshot}
use agentic_design_harness.Retry.Gates.{gates}
use agentic_design_harness.Retry.Steps.{
  Request, overrides, requested_tokens, new_attempt, reserved_ledger, request_retry,
}

-- The gates that `request_retry` finds shut.
unfoldable pub denied_gates_of : Snapshot → Request → List Gate
denied_gates_of s q =
    gates s s.retry_policy q.retry_group_id (requested_tokens s.retry_policy q)
      q.estimated_cost_micros q.price_catalog_revision

pub record Requested (s s' : Snapshot) (q : Request) (a : Attempt) (now : ℕ) : Type 0 where
  pub is_new : any (λ (x : Attempt). x.attempt_id == q.attempt_id) s.attempts ≡ false
  pub attempt : a ≡ new_attempt q (requested_tokens s.retry_policy q) (denied_gates_of s q) now
  pub ledger :
      reserved_ledger s.retry_budget_ledger
        (denied_gates_of s q)
        (requested_tokens s.retry_policy q)
        q.estimated_cost_micros
      ≡ ok s'.retry_budget_ledger
  pub attempts : s'.attempts ≡ s.attempts ++ a ∷ []
  pub policy : s'.retry_policy ≡ s.retry_policy

pub request_retry-Requested :
    (s s' : Snapshot) (q : Request) (a : Attempt) (now : ℕ)
    → request_retry s q now ≡ ok (s', a)
    → Requested s s' q a now
unfolding request_retry denied_gates_of
request_retry-Requested s s' q a now e =
    let (_, g, t) =
      >>=-eq-ok
        (guard (not (any (λ (x : Attempt). x.attempt_id == q.attempt_id) s.attempts))
          Code.idempotency_conflict)
        _ e in
    let (_, g', t') =
      >>=-eq-ok
        (guard
          (not (
            overrides (lookup q.agent_type s.retry_policy.retry_token_reservation_by_agent)
              q.reservation_tokens))
          Code.validation_error)
        _ t in
    let (l, r, u) =
      >>=-eq-ok
        (reserved_ledger s.retry_budget_ledger (denied_gates_of s q)
          (requested_tokens s.retry_policy q) q.estimated_cost_micros)
        _ t' in
    let k = ok_inj u in
    record {
      is_new = ground (arith, guard-eq-ok _ _ g);
      attempt = sym (ap (λ p. p.1) k);
      ledger = r ∙ ap (λ p. ok (p.0.retry_budget_ledger)) k;
      attempts = sym (ap (λ p. p.0.attempts) k) ∙ ap (λ x. s.attempts ++ x ∷ []) (ap (λ p. p.1) k);
      policy = sym (ap (λ p. p.0.retry_policy) k);
    }
