-- ===== src/Retry/Budget.antt =====
-- backend/harness/services/retry_budget.py: the budget snapshot of a task. Amounts are natural
-- numbers: the source refuses negative ones before it comes to a budget. Times are numbers.
use agentic_design_harness.Common.{
  ltb, leb, all, elem, Code, Outcome, ok, ◌>>◌, guard, Dict, ℕ, String, Bool, true, false, Option,
  none, some, List, [], ◌∷◌,
}
use agentic_design_harness.Storage.Identifier.{codes, matches}

pub data AttemptStatus : Type 0 where
  pending_approval reserved authorized settled exceeded cancelled : AttemptStatus

-- The reasons for which an automatic retry is denied.
pub data Gate : Type 0 where
  retry_count : ℕ → ℕ → Gate
  token_bound_unknown : ℕ → ℕ → ℕ → Gate
  token_limit : ℕ → ℕ → ℕ → ℕ → Gate
  cost_unknown : Option ℕ → ℕ → Option ℕ → ℕ → Gate
  cost_limit : ℕ → ℕ → ℕ → ℕ → Gate
  ledger_frozen : Option String → Gate

pub record Policy : Type 0 where
  pub max_auto_retries_per_retry_group : ℕ
  pub max_auto_retry_tokens_task : ℕ
  pub retry_token_reservation_by_agent : Dict ℕ
  pub max_auto_retry_cost_micros : Option ℕ
  pub price_catalog_revision : Option String

pub record Ledger : Type 0 where
  pub retry_tokens_reserved : ℕ
  pub retry_tokens_settled : ℕ
  pub retry_cost_micros_reserved : ℕ
  pub retry_cost_micros_settled : Option ℕ
  pub unknown_cost_settlements : ℕ
  pub frozen : Bool
  pub frozen_reason : Option String

-- A field of a JSON payload: it may be missing, null or a number.
pub data Field : Type 0 where
  missing null : Field
  number : ℕ → Field

pub data Decision : Type 0 where
  approves rejects : Decision

pub record Envelope : Type 0 where
  pub idempotency_key : String
  pub actor_type : String
  pub actor_id : String
  pub expected_revision : ℕ

-- The `token_limit` and `cost_limit_micros` of a decision, and whether the payload has other keys.
pub record Limits : Type 0 where
  pub token_limit : Field
  pub cost_limit_micros : Field
  pub has_other_keys : Bool

pub record Pending : Type 0 where
  pub approval_id : String
  pub decision : Decision
  pub limits : Limits
  pub request_sha256 : String
  pub envelope : Envelope

-- `reserved_tokens` is `none` where the source holds `None`.
pub record Attempt : Type 0 where
  pub attempt_id : String
  pub retry_group_id : String
  pub retry_of_attempt_id : String
  pub root_attempt_id : String
  pub root_instance_id : String
  pub instance_id : String
  pub agent_type : String
  pub status : AttemptStatus
  pub reserved_tokens : Option ℕ
  pub reserved_cost_micros : Option ℕ
  pub price_catalog_revision : Option String
  pub approval_id : Option String
  pub denied_gates : List Gate
  pub override_consumed_at : Option ℕ
  pub actual_tokens : Option ℕ
  pub actual_cost_micros : Option ℕ
  pub created_at : ℕ
  pub settled_at : Option ℕ
  pub resolved_at : Option ℕ
  pub resolution : Option Envelope
  pub pending_resolution : Option Pending

pub record Snapshot : Type 0 where
  pub task_id : String
  pub revision : ℕ
  pub retry_policy : Policy
  pub retry_budget_ledger : Ledger
  pub attempts : List Attempt
  pub created_at : ℕ
  pub updated_at : ℕ

-- `RetryPolicy()`
abbrev pub default_policy : Policy
default_policy = record {
  max_auto_retries_per_retry_group = 0;
  max_auto_retry_tokens_task = 0;
  retry_token_reservation_by_agent = [];
  max_auto_retry_cost_micros = none;
  price_catalog_revision = none;
}

-- `_initial_snapshot`
unfoldable pub initial_snapshot : String → ℕ → Snapshot
initial_snapshot task_id now = record {
  task_id = task_id;
  revision = 0;
  retry_policy = default_policy;
  retry_budget_ledger = record {
    retry_tokens_reserved = 0;
    retry_tokens_settled = 0;
    retry_cost_micros_reserved = 0;
    retry_cost_micros_settled = some 0;
    unknown_cost_settlements = 0;
    frozen = false;
    frozen_reason = none;
  };
  attempts = [];
  created_at = now;
  updated_at = now;
}

abbrev is_catalog_revision : Option String → Bool
is_catalog_revision none = true
is_catalog_revision (some s) = matches (codes s)

-- `RetryPolicy.validate_reservations` and the bounds of the fields.
unfoldable pub validate_policy : Policy → Outcome Policy
validate_policy p = do
  guard (leb p.max_auto_retries_per_retry_group 100) Code.validation_error
  guard
      (all (λ (k, n). elem k ("general" ∷ "image" ∷ "ppt" ∷ "master" ∷ []))
        p.retry_token_reservation_by_agent)
      Code.validation_error
  guard (all (λ (k, n). ltb 0 n) p.retry_token_reservation_by_agent) Code.validation_error
  guard (is_catalog_revision p.price_catalog_revision) Code.validation_error
  ok p
