-- ===== src/Retry/Steps.antt =====
-- backend/harness/services/retry_budget.py: what each command makes of the budget snapshot. The
-- handlers with the replay of committed commands are in Service.
use agentic_design_harness.Common.{
  eqb, if◌then◌else◌, is_some, any, is_empty, Code, runtime_error, type_error, Outcome, ok, fault,
  ◌>>=◌, ◌>>◌, guard, lookup, ℕ, ◌+◌, String, Bool, true, false, ◌&&◌, not, Option, none, some,
  List, [], ◌∷◌, ◌++◌, ◌==◌,
}
use agentic_design_harness.Retry.Budget.{
  AttemptStatus, pending_approval, reserved, authorized, settled, exceeded, Gate, Policy, Ledger,
  Attempt, Snapshot,
}
use agentic_design_harness.Retry.Gates.{gates}
use agentic_design_harness.Retry.Attempts.{get_attempt, replace}

-- `configure`, from the revision check on.
unfoldable pub configure : Snapshot → Policy → ℕ → ℕ → Outcome Snapshot
configure snapshot policy expected_revision now = do
  guard (eqb snapshot.revision expected_revision) Code.revision_conflict
  ok (record snapshot { revision = snapshot.revision + 1; retry_policy = policy; updated_at = now })

-- The arguments of `request_retry` and what it looks up: the agent type of the instance, the
-- lineage of the retry and the id of the approval that a denial would ask for.
pub record Request : Type 0 where
  pub attempt_id : String
  pub retry_of_attempt_id : String
  pub instance_id : String
  pub agent_type : String
  pub reservation_tokens : Option ℕ
  pub estimated_cost_micros : Option ℕ
  pub price_catalog_revision : Option String
  pub retry_group_id : String
  pub root_attempt_id : String
  pub root_instance_id : String
  pub approval_id : String

-- `configured is not None and requested is not None and requested != configured`
abbrev pub overrides : Option ℕ → Option ℕ → Bool
overrides (some c) (some r) = not (eqb r c)
overrides _ _ = false

-- `configured or requested`
abbrev pub or_else : Option ℕ → Option ℕ → Option ℕ
or_else none r = r
or_else (some c) r = if eqb c 0 then r else some c

unfoldable pub requested_tokens : Policy → Request → Option ℕ
requested_tokens policy q =
    or_else (lookup q.agent_type policy.retry_token_reservation_by_agent) q.reservation_tokens

abbrev pub amount : Option ℕ → ℕ
amount none = 0
amount (some n) = n

unfoldable pub new_attempt : Request → Option ℕ → List Gate → ℕ → Attempt
new_attempt q tokens denied now = record {
  attempt_id = q.attempt_id;
  retry_group_id = q.retry_group_id;
  retry_of_attempt_id = q.retry_of_attempt_id;
  root_attempt_id = q.root_attempt_id;
  root_instance_id = q.root_instance_id;
  instance_id = q.instance_id;
  agent_type = q.agent_type;
  status = if is_empty denied then reserved else pending_approval;
  reserved_tokens = some (amount tokens);
  reserved_cost_micros = q.estimated_cost_micros;
  price_catalog_revision = q.price_catalog_revision;
  approval_id = if is_empty denied then none else some q.approval_id;
  denied_gates = denied;
  override_consumed_at = none;
  actual_tokens = none;
  actual_cost_micros = none;
  created_at = now;
  settled_at = none;
  resolved_at = none;
  resolution = none;
  pending_resolution = none;
}

-- The ledger after an amount of tokens and perhaps of cost has been reserved.
unfoldable pub add_reservation : Ledger → ℕ → Option ℕ → Ledger
add_reservation ledger tokens cost = record ledger {
  retry_tokens_reserved = ledger.retry_tokens_reserved + tokens;
  retry_cost_micros_reserved = ledger.retry_cost_micros_reserved + amount cost;
}

-- The ledger of `request_retry`; an allowed retry without an amount is a RuntimeError.
unfoldable pub reserved_ledger : Ledger → List Gate → Option ℕ → Option ℕ → Outcome Ledger
unfolding add_reservation
reserved_ledger ledger (g ∷ denied) tokens cost = ok ledger
reserved_ledger ledger [] none cost = fault runtime_error
reserved_ledger ledger [] (some tokens) cost = ok (add_reservation ledger tokens cost)

-- `request_retry` on the snapshot; the result is the attempt, denied or not.
unfoldable pub request_retry : Snapshot → Request → ℕ → Outcome (Snapshot × Attempt)
unfolding requested_tokens new_attempt reserved_ledger
request_retry snapshot q now = do
  guard (not (any (λ (a : Attempt). a.attempt_id == q.attempt_id) snapshot.attempts))
      Code.idempotency_conflict
  let policy = snapshot.retry_policy
  let configured = lookup q.agent_type policy.retry_token_reservation_by_agent
  guard (not (overrides configured q.reservation_tokens)) Code.validation_error
  let tokens = requested_tokens policy q
  let denied =
      gates snapshot policy q.retry_group_id tokens q.estimated_cost_micros q.price_catalog_revision
  let attempt = new_attempt q tokens denied now
  ledger ← reserved_ledger snapshot.retry_budget_ledger denied tokens q.estimated_cost_micros
  ok (
    record snapshot {
      revision = snapshot.revision + 1;
      attempts = snapshot.attempts ++ attempt ∷ [];
      retry_budget_ledger = ledger;
      updated_at = now;
    },
    attempt,
  )

-- A command's change of one attempt and of the ledger.
abbrev pub changed : Snapshot → Attempt → Ledger → ℕ → Snapshot
changed snapshot attempt ledger now = record snapshot {
  revision = snapshot.revision + 1;
  attempts = replace attempt.attempt_id attempt snapshot.attempts;
  retry_budget_ledger = ledger;
  updated_at = now;
}

-- `int(value)`, which raises for `None`
abbrev pub to_int : Option ℕ → Outcome ℕ
to_int none = fault type_error
to_int (some n) = ok n

abbrev pub is_reserved : AttemptStatus → Bool
is_reserved reserved = true
is_reserved _ = false

abbrev pub is_authorized : AttemptStatus → Bool
is_authorized authorized = true
is_authorized _ = false

abbrev pub is_settled : AttemptStatus → Bool
is_settled settled = true
is_settled exceeded = true
is_settled _ = false

-- `consume_override` on the snapshot, from the lookup of the attempt on. A consumed override is
-- returned as it stands.
unfoldable pub consume_override : Snapshot → String → ℕ → Outcome (Snapshot × Attempt)
unfolding add_reservation
consume_override snapshot attempt_id now = do
  attempt ← get_attempt snapshot attempt_id
  if is_reserved attempt.status && is_some attempt.override_consumed_at
      then ok (snapshot, attempt)
      else do
        guard (is_authorized attempt.status) Code.invalid_state_transition
        tokens ← to_int attempt.reserved_tokens
        let next = record attempt { status = reserved; override_consumed_at = some now }
        let ledger = snapshot.retry_budget_ledger
        ok (
          changed snapshot next (add_reservation ledger tokens attempt.reserved_cost_micros) now,
          next,
        )
