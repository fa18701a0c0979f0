-- ===== src/Retry/Gates.antt =====
-- backend/harness/services/retry_budget.py: `_gates`, and what it means that none is shut.
use agentic_design_harness.Common.{
  ltb, if◌then◌else◌, is_some, count, ℕ, ◌+◌, ◌≤◌, String, ◌≡◌, ◌≢◌, Bool, true, false, ◌&&◌, ◌||◌,
  not, Option, none, some, List, [], ◌∷◌, ◌++◌, ◌==◌,
}
use agentic_design_harness.Retry.Budget.{
  AttemptStatus, reserved, settled, exceeded, Gate, retry_count, token_bound_unknown, token_limit,
  cost_unknown, cost_limit, ledger_frozen, Policy, Ledger, Attempt, Snapshot,
}

-- The statuses that count against the retries of a group.
abbrev pub counts : AttemptStatus → Bool
counts reserved = true
counts settled = true
counts exceeded = true
counts _ = false

unfoldable pub group_count : String → List Attempt → ℕ
group_count retry_group_id =
    count (λ (a : Attempt). (a.retry_group_id == retry_group_id) && counts a.status)

unfoldable pub count_gate : ℕ → Policy → List Gate
count_gate used policy =
    if ltb policy.max_auto_retries_per_retry_group (used + 1)
    then retry_count used policy.max_auto_retries_per_retry_group ∷ []
    else []

unfoldable pub token_gate : Ledger → Policy → Option ℕ → List Gate
token_gate ledger policy none =
    token_bound_unknown ledger.retry_tokens_settled ledger.retry_tokens_reserved
      policy.max_auto_retry_tokens_task
    ∷ []
token_gate ledger policy (some requested) =
    if ltb policy.max_auto_retry_tokens_task
      (ledger.retry_tokens_settled + ledger.retry_tokens_reserved + requested)
    then token_limit ledger.retry_tokens_settled ledger.retry_tokens_reserved requested
        policy.max_auto_retry_tokens_task
      ∷ []
    else []

abbrev pub same_text : Option String → Option String → Bool
same_text none none = true
same_text (some s) (some t) = s == t
same_text _ _ = false

-- The cost gate under a limit, for a request with an estimate at a known price catalog.
unfoldable pub known_cost_gate : Ledger → ℕ → ℕ → Option ℕ → List Gate
known_cost_gate ledger limit estimate none =
    cost_unknown none ledger.retry_cost_micros_reserved (some estimate) limit ∷ []
known_cost_gate ledger limit estimate (some used) =
    if ltb limit (used + ledger.retry_cost_micros_reserved + estimate)
    then cost_limit used ledger.retry_cost_micros_reserved estimate limit ∷ []
    else []

unfoldable pub limited_cost_gate : Ledger → Policy → ℕ → Option ℕ → Option String → List Gate
unfolding known_cost_gate
limited_cost_gate ledger policy limit none price =
    cost_unknown ledger.retry_cost_micros_settled ledger.retry_cost_micros_reserved none limit ∷ []
limited_cost_gate ledger policy limit (some estimate) price =
    if not (is_some price) || not (same_text price policy.price_catalog_revision)
    then cost_unknown ledger.retry_cost_micros_settled ledger.retry_cost_micros_reserved
        (some estimate) limit
      ∷ []
    else known_cost_gate ledger limit estimate ledger.retry_cost_micros_settled

unfoldable pub cost_gate : Ledger → Policy → Option ℕ → Option ℕ → Option String → List Gate
unfolding limited_cost_gate
cost_gate ledger policy none estimate price = []
cost_gate ledger policy (some limit) estimate price =
    limited_cost_gate ledger policy limit estimate price

unfoldable pub frozen_gate : Ledger → List Gate
frozen_gate ledger = if ledger.frozen then ledger_frozen ledger.frozen_reason ∷ [] else []

-- `_gates`
unfoldable pub gates : Snapshot → Policy → String → Option ℕ → Option ℕ → Option String → List Gate
unfolding count_gate token_gate cost_gate frozen_gate
gates snapshot policy retry_group_id requested_tokens estimated_cost_micros price =
    let ledger = snapshot.retry_budget_ledger in
    count_gate (group_count retry_group_id snapshot.attempts) policy
    ++ (token_gate ledger policy requested_tokens
        ++ (cost_gate ledger policy policy.max_auto_retry_cost_micros estimated_cost_micros price
            ++ frozen_gate ledger))

-- The budget has room for a request: what no gate being shut amounts to.
pub record HasRoom (snapshot : Snapshot) (policy : Policy) (retry_group_id : String)
    (requested : Option ℕ) (estimate : Option ℕ) (price : Option String) : Type 0 where
  pub tokens : ℕ
  pub tokens_known : requested ≡ some tokens
  pub retries_left :
      group_count retry_group_id snapshot.attempts + 1 ≤ policy.max_auto_retries_per_retry_group
  pub tokens_left :
      snapshot.retry_budget_ledger.retry_tokens_settled
        + snapshot.retry_budget_ledger.retry_tokens_reserved + tokens
      ≤ policy.max_auto_retry_tokens_task
  pub cost_left :
      (limit : ℕ)
      → policy.max_auto_retry_cost_micros ≡ some limit
      → (used estimated : ℕ) × (snapshot.retry_budget_ledger.retry_cost_micros_settled ≡ some used)
        × (estimate ≡ some estimated)
        × (price ≢ none)
        × (price ≡ policy.price_catalog_revision)
        × (used + snapshot.retry_budget_ledger.retry_cost_micros_reserved + estimated ≤ limit)
  pub not_frozen : snapshot.retry_budget_ledger.frozen ≡ false
