-- ===== src/Retry/Service.antt =====
-- backend/harness/services/retry_budget.py: the handlers of the budget's commands, with the replay of
-- committed ones by storage/store.py `lookup_committed_command_result`. The digest of a request is an
-- argument, as is the lineage in a request; the approval of a denied retry is asked for elsewhere.
use agentic_design_harness.Common.{
  ltb, eqb, if◌then◌else◌, is_empty, elem, Code, Outcome, ok, err, fault, ◌>>=◌, ◌>>◌, guard, ℕ,
  String, Bool, true, ◌||◌, not, Option, none, some, List, [], ◌∷◌, ◌++◌, ◌==◌,
}
use agentic_design_harness.Storage.{Actor}
use agentic_design_harness.Storage.Identifier.{validate_identifier}
use agentic_design_harness.Retry.Budget.{Policy, Attempt, Snapshot, validate_policy}
use agentic_design_harness.Retry.Steps.{configure, Request, request_retry, consume_override}
use agentic_design_harness.Retry.Settlement.{may_settle, settle}
use agentic_design_harness.Retry.Attempts.{get_attempt}

-- What a command returns: the budget, and the attempt it is about.
pub record Reply : Type 0 where
  pub budget : Snapshot
  pub attempt : Option Attempt

-- A committed event that carries a command's result.
pub record Receipt : Type 0 where
  pub idempotency_key : String
  pub command : String
  pub request_sha256 : String
  pub reply : Reply

pub record Desk : Type 0 where
  pub budget : Snapshot
  pub receipts : List Receipt

-- `lookup_committed_command_result`, from what was found so far.
unfoldable pub lookup_from :
    Option Reply → String → String → String → List Receipt → Outcome (Option Reply)
lookup_from found key command sha [] = ok found
lookup_from found key command sha (r ∷ rest) =
    let other = lookup_from found key command sha rest in
    let own = lookup_from (some r.reply) key command sha rest in
    if not (r.idempotency_key == key)
    then other
    else if not (r.command == command) || not (r.request_sha256 == sha)
    then err Code.idempotency_conflict
    else own

unfoldable pub lookup_committed : String → String → String → List Receipt → Outcome (Option Reply)
lookup_committed = lookup_from none

-- The commit of a command; every commit moves the budget to another revision.
unfoldable pub commit_reply :
    String → String → String → Desk → Snapshot × Reply → Desk × Outcome Reply
commit_reply key command sha desk (next, reply) =
    if eqb next.revision desk.budget.revision then (desk, ok reply) else (
      record {
        budget = next;
        receipts =
            desk.receipts
            ++ record {
              idempotency_key = key;
              command = command;
              request_sha256 = sha;
              reply = reply;
            }
              ∷ [];
      },
      ok reply,
    )

abbrev conclude :
    String → String → String → Desk → Outcome (Snapshot × Reply) → Desk × Outcome Reply
conclude key command sha desk (ok done) = commit_reply key command sha desk done
conclude key command sha desk (err e) = (desk, err e)
conclude key command sha desk (fault e) = (desk, fault e)

abbrev replay_or :
    String
    → String
    → String
    → (Snapshot → Outcome (Snapshot × Reply))
    → Desk
    → Outcome (Option Reply)
    → Desk × Outcome Reply
replay_or key command sha body desk (ok (some reply)) = (desk, ok reply)
replay_or key command sha body desk (ok none) = conclude key command sha desk (body desk.budget)
replay_or key command sha body desk (err e) = (desk, err e)
replay_or key command sha body desk (fault e) = (desk, fault e)

-- A command runs once for its key, and a committed one is answered from its receipt.
unfoldable pub run_once :
    String → String → String → (Snapshot → Outcome (Snapshot × Reply)) → Desk → Desk × Outcome Reply
run_once key command sha body desk =
    replay_or key command sha body desk (lookup_committed key command sha desk.receipts)

abbrev checked : Outcome (Unit {0}) → Desk → (Desk × Outcome Reply) → Desk × Outcome Reply
checked (ok _) desk go = go
checked (err e) desk go = (desk, err e)
checked (fault e) desk go = (desk, fault e)

abbrev with_attempt : Outcome (Snapshot × Attempt) → Outcome (Snapshot × Reply)
with_attempt o = o >>= λ p. ok (p.0, record { budget = p.0; attempt = some p.1 })

-- `configure`
unfoldable pub configure_command :
    Desk → String → Policy → ℕ → String → Actor → String → ℕ → Desk × Outcome Reply
configure_command desk task_id policy expected key actor sha now =
    checked
      (do
        validate_identifier task_id
        validate_identifier key
        guard (actor.actor_type == "human") Code.validation_error
        validate_policy policy >>= λ _. ok tt)
      desk
      (run_once key "configure_retry_budget" sha
        (λ s. configure s policy expected now >>= λ next.
          ok (next, record { budget = next; attempt = none }))
        desk)

abbrev pub is_positive : Option ℕ → Bool
is_positive none = true
is_positive (some n) = ltb 0 n

-- `_raise_denied` for a retry that was not allowed, be it new or replayed.
abbrev pub allowed_only : Reply → Outcome Reply
allowed_only reply = elim reply.attempt as (λ _. Outcome Reply) [
  | none ↦ ok reply
  | some a ↦ if is_empty a.denied_gates then ok reply else err Code.budget_gate_denied
]

-- `request_retry`; a denied one is committed too.
unfoldable pub request_command :
    Desk → String → Request → Bool → String → Actor → String → ℕ → Desk × Outcome Reply
request_command desk task_id q instance_exists key actor sha now =
    checked
      (do
        validate_identifier task_id
        validate_identifier q.instance_id
        validate_identifier q.attempt_id
        validate_identifier q.retry_of_attempt_id
        validate_identifier key
        guard (elem actor.actor_type ("master" ∷ "system" ∷ [])) Code.validation_error
        guard (not (q.attempt_id == q.retry_of_attempt_id)) Code.validation_error
        guard instance_exists Code.instance_not_found
        guard (is_positive q.reservation_tokens) Code.validation_error)
      desk
      (let (after, result) =
          run_once key "reserve_retry" sha (λ s. with_attempt (request_retry s q now)) desk in
        (after, result >>= allowed_only))

-- `consume_override`
unfoldable pub consume_command : Desk → String → String → Actor → String → ℕ → Desk × Outcome Reply
consume_command desk attempt_id key actor sha now =
    checked
      (do
        validate_identifier attempt_id
        validate_identifier key
        guard (actor.actor_type == "system") Code.validation_error)
      desk
      (run_once key "consume_budget_override" sha
        (λ s. with_attempt (consume_override s attempt_id now)) desk)

-- `settle`; who may settle is checked before the replay. The amounts are natural numbers.
unfoldable pub settle_command :
    Desk → String → ℕ → Option ℕ → String → Actor → String → ℕ → Desk × Outcome Reply
settle_command desk attempt_id actual_tokens actual_cost key actor sha now =
    checked
      (do
        validate_identifier attempt_id
        validate_identifier key
        attempt ← get_attempt desk.budget attempt_id
        guard (may_settle actor attempt.agent_type) Code.validation_error)
      desk
      (run_once key "settle_retry" sha
        (λ s. with_attempt (settle s attempt_id actual_tokens actual_cost actor now)) desk)
