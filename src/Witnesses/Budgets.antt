-- ===== src/Witnesses/Budgets.antt =====
-- The theorems on the retry budget at concrete inputs.
use agentic_design_harness.Common.{
  runtime_error, type_error, Outcome, ok, fault, ◌>>=◌, lookup, ℕ, ◌+◌, ◌≤◌, String, ◌≡◌, refl, ap,
  ◌≢◌, ◌⊎◌, ◌↔◌, true, none, some, [], ◌∷◌,
}
use agentic_design_harness.Storage.{Actor}
use agentic_design_harness.Retry.Budget.{
  pending_approval, reserved, Policy, Decision, approves, Envelope, Attempt, Snapshot,
  initial_snapshot,
}
use agentic_design_harness.Retry.Gates.{
  group_count, count_gate, token_gate, cost_gate, frozen_gate, gates, HasRoom,
}
use agentic_design_harness.Retry.Room.{gates-HasRoom}
use agentic_design_harness.Retry.Attempts.{attempt_of, get_attempt, replace}
use agentic_design_harness.Retry.Steps.{
  configure, Request, requested_tokens, new_attempt, add_reservation, reserved_ledger,
  request_retry, changed, consume_override,
}
use agentic_design_harness.Retry.Settlement.{
  may_settle, exceeds, settled_ledger, settled_attempt, settle_attempt, settle,
}
use agentic_design_harness.Retry.Override.{Approval, resolve_approval}
use agentic_design_harness.Retry.Results.{denied_gates_of}
use agentic_design_harness.Retry.Limits.{
  RoomFor, request_retry-decides, request_retry-no_fault, request_retry-within,
}
use agentic_design_harness.Retry.Accounts.{Balanced}
use agentic_design_harness.Retry.History.{
  configured, requested, used, Reach, start, step, Reach-Balanced, request_retry-frozen,
}
use agentic_design_harness.Retry.Usage.{IsMeasured, settle-IsMeasured}
use agentic_design_harness.Retry.Service.{Reply, Desk, lookup_from, lookup_committed, run_once}
use agentic_design_harness.Retry.Replay.{run_once-replay}
use agentic_design_harness.Retry.NullLimit.{IsDecidable, null_limits, resolve_approval-null_limit}

abbrev policy : Policy
policy = record {
  max_auto_retries_per_retry_group = 2;
  max_auto_retry_tokens_task = 100;
  retry_token_reservation_by_agent = ("image", 40) ∷ [];
  max_auto_retry_cost_micros = none;
  price_catalog_revision = none;
}

abbrev new_budget : Snapshot
new_budget = initial_snapshot "task-1" 1

abbrev ready : Snapshot
ready = record new_budget { revision = 1; retry_policy = policy; updated_at = 2 }

configured_ready : configure new_budget policy 0 2 ≡ ok ready
unfolding configure initial_snapshot
configured_ready = refl

abbrev request : Request
request = record {
  attempt_id = "t-2";
  retry_of_attempt_id = "t-1";
  instance_id = "i-1";
  agent_type = "image";
  reservation_tokens = none;
  estimated_cost_micros = none;
  price_catalog_revision = none;
  retry_group_id = "g-1";
  root_attempt_id = "t-1";
  root_instance_id = "i-1";
  approval_id = "a-1";
}

abbrev granted_attempt : Attempt
granted_attempt = new_attempt request (some 40) [] 3

abbrev with_retry : Snapshot
with_retry = record ready {
  revision = 2;
  attempts = granted_attempt ∷ [];
  retry_budget_ledger = add_reservation (initial_snapshot "task-1" 1).retry_budget_ledger 40 none;
  updated_at = 3;
}

requested_retry : request_retry ready request 3 ≡ ok (with_retry, granted_attempt)
unfolding request_retry initial_snapshot requested_tokens new_attempt reserved_ledger gates
    group_count count_gate token_gate cost_gate frozen_gate add_reservation lookup
requested_retry = refl

is_granted : granted_attempt.status ≡ reserved
unfolding new_attempt
is_granted = refl

abbrev adapter : Actor
adapter = record { actor_type = "adapter"; actor_id = "image_adapter" }

abbrev spent_attempt : Attempt
spent_attempt = settled_attempt granted_attempt 40 50 none 4

abbrev frozen_budget : Snapshot
frozen_budget =
    changed with_retry spent_attempt (settled_ledger with_retry.retry_budget_ledger 40 none 50 none)
      4

settled_retry : settle with_retry "t-2" 50 none adapter 4 ≡ ok (frozen_budget, spent_attempt)
unfolding settle settle_attempt may_settle get_attempt attempt_of settled_attempt settled_ledger
    new_attempt replace
settled_retry = refl

past : Reach (initial_snapshot "task-1" 1) frozen_budget
past =
    step
      (step (step start (configured policy 0 2 configured_ready))
        (requested request granted_attempt 3 requested_retry))
      (used "t-2" spent_attempt 50 none adapter 4 settled_retry)

Reach-Balanced_example : Balanced frozen_budget
Reach-Balanced_example = Reach-Balanced "task-1" 1 frozen_budget past

is_frozen : frozen_budget.retry_budget_ledger.frozen ≡ true
unfolding settled_ledger exceeds
is_frozen = refl

abbrev second_request : Request
second_request = record request { attempt_id = "t-3" }

abbrev denied_attempt : Attempt
denied_attempt =
    new_attempt second_request (some 40) (denied_gates_of frozen_budget second_request) 5

abbrev after_denial : Snapshot
after_denial = record frozen_budget {
  revision = 4;
  attempts = spent_attempt ∷ denied_attempt ∷ [];
  updated_at = 5;
}

denied_retry : request_retry frozen_budget second_request 5 ≡ ok (after_denial, denied_attempt)
unfolding request_retry initial_snapshot requested_tokens new_attempt reserved_ledger gates
    group_count count_gate token_gate cost_gate frozen_gate add_reservation lookup settled_ledger
    settled_attempt exceeds replace denied_gates_of
denied_retry = refl

request_retry-frozen_example :
    (denied_attempt.status ≡ pending_approval) × (after_denial.retry_budget_ledger.frozen ≡ true)
request_retry-frozen_example =
    request_retry-frozen "task-1" 1 frozen_budget frozen_budget after_denial second_request
      denied_attempt 5 past is_frozen start denied_retry

request_retry-decides_example :
    (granted_attempt.status ≡ reserved) × RoomFor ready request
    ⊎ (granted_attempt.status ≡ pending_approval)
      × ¬ RoomFor ready request
      × (with_retry.retry_budget_ledger ≡ ready.retry_budget_ledger)
request_retry-decides_example =
    request_retry-decides ready with_retry request granted_attempt 3 requested_retry

request_retry-no_fault_example : request_retry ready request 3 ≢ fault runtime_error
request_retry-no_fault_example = request_retry-no_fault ready request 3 runtime_error

request_retry-within_example :
    (with_retry.retry_budget_ledger.retry_tokens_settled
        + with_retry.retry_budget_ledger.retry_tokens_reserved
      ≤ 100)
    × (group_count "g-1" with_retry.attempts ≤ 2)
request_retry-within_example =
    request_retry-within ready with_retry request granted_attempt 3 requested_retry is_granted

gates-HasRoom_example :
    (gates ready policy "g-1" (some 40) none none ≡ [])
    ↔ HasRoom ready policy "g-1" (some 40) none none
gates-HasRoom_example = gates-HasRoom ready policy "g-1" (some 40) none none

there_is_one : get_attempt with_retry "t-2" ≡ ok granted_attempt
unfolding get_attempt attempt_of new_attempt
there_is_one = refl

has_amount : granted_attempt.reserved_tokens ≡ some 40
unfolding new_attempt
has_amount = refl

settle-IsMeasured_example :
    IsMeasured with_retry.retry_budget_ledger frozen_budget.retry_budget_ledger granted_attempt
      spent_attempt 40 50 none
settle-IsMeasured_example =
    settle-IsMeasured with_retry frozen_budget "t-2" granted_attempt spent_attempt 40 50 none
      adapter 4 there_is_one is_granted has_amount settled_retry

abbrev first_desk : Desk
first_desk = record { budget = ready; receipts = [] }

abbrev first_reply : Reply
first_reply = record { budget = with_retry; attempt = some granted_attempt }

abbrev granting : Snapshot → Outcome (Snapshot × Reply)
granting s =
    request_retry s request 3 >>= λ p. ok (p.0, record { budget = p.0; attempt = some p.1 })

nothing_committed : lookup_committed "k-1" "reserve_retry" "sha" first_desk.receipts ≡ ok none
unfolding lookup_committed lookup_from
nothing_committed = refl

abbrev second_body : Snapshot → Outcome (Snapshot × Reply)
second_body s =
    request_retry s request 9 >>= λ p. ok (p.0, record { budget = p.0; attempt = some p.1 })

run_once-replay_example :
    ((run_once "k-1" "reserve_retry" "sha" granting first_desk).1 ≡ ok first_reply)
    × ((run_once "k-1" "reserve_retry" "sha" granting first_desk).0.budget ≡ with_retry)
    × (run_once "k-1" "reserve_retry" "sha" second_body
          (run_once "k-1" "reserve_retry" "sha" granting first_desk).0
        ≡ ((run_once "k-1" "reserve_retry" "sha" granting first_desk).0, ok first_reply))
run_once-replay_example =
    run_once-replay "k-1" "reserve_retry" "sha" granting second_body first_desk with_retry
      first_reply nothing_committed
      (ap (λ o. o >>= λ p. ok (p.0, record { budget = p.0; attempt = some p.1 })) requested_retry)
      refl

-- Nothing is reserved for the agent type of the request, and it names no amount.
abbrev unknown_request : Request
unknown_request = record request { attempt_id = "t-4"; agent_type = "general" }

abbrev unknown_attempt : Attempt
unknown_attempt = new_attempt unknown_request none (denied_gates_of ready unknown_request) 3

abbrev asking : Snapshot
asking = record ready { attempts = unknown_attempt ∷ [] }

abbrev override_approval : Approval
override_approval = record {
  approval_id = "a-1";
  is_budget_override = true;
  is_pending = true;
  owner = "human";
  approval_revision = 1;
  attempt_id = "t-4";
}

abbrev human : Envelope
human = record {
  idempotency_key = "k-2";
  actor_type = "human";
  actor_id = "operator";
  expected_revision = 1;
}

abbrev commits_approval : String → Decision → Envelope → Outcome (Unit {0})
commits_approval id decision envelope = ok tt

asking-IsDecidable : IsDecidable asking unknown_attempt override_approval human
unfolding get_attempt attempt_of new_attempt denied_gates_of gates group_count count_gate token_gate
    cost_gate frozen_gate initial_snapshot requested_tokens lookup
asking-IsDecidable = record {
  found = refl;
  is_override = refl;
  is_open = refl;
  names_approval = refl;
  waits = refl;
  is_fresh = refl;
  is_owner = refl;
  is_current = refl;
  used = 0;
  held = 0;
  limit = 100;
  denied = refl;
}

resolve_approval-null_limit_example :
    (s' : Snapshot) × (a' : Attempt) × (resolve_approval commits_approval asking override_approval
        approves
        (some "approve_once")
        null_limits
        "sha"
        human
        6
      ≡ ok (s', a'))
    × ((later : ℕ) → consume_override s' "t-4" later ≡ fault type_error)
resolve_approval-null_limit_example =
    resolve_approval-null_limit commits_approval asking unknown_attempt override_approval "sha"
      human 6 asking-IsDecidable refl
