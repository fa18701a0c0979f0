-- ===== src/Retry/Override.antt =====
-- backend/harness/services/retry_budget.py: the human decision on a denied retry, which is prepared
-- and then finished, each with a commit of its own. The commit of the approval itself, done by
-- services/approvals.py, is an argument.
use agentic_design_harness.Common.{
  leb, eqb, is_some, any, Code, runtime_error, Outcome, ok, fault, ◌>>=◌, ◌>>◌, guard, ℕ, String,
  Bool, true, false, ◌&&◌, ◌||◌, not, Option, none, some, List, ◌==◌,
}
use agentic_design_harness.Retry.Budget.{
  AttemptStatus, pending_approval, authorized, cancelled, Gate, token_bound_unknown, cost_unknown,
  Field, missing, null, number, Decision, approves, rejects, Envelope, Limits, Pending, Attempt,
  Snapshot,
}
use agentic_design_harness.Retry.Attempts.{get_attempt}
use agentic_design_harness.Retry.Steps.{changed}

-- What `get_approval` tells of the approval.
pub record Approval : Type 0 where
  pub approval_id : String
  pub is_budget_override : Bool
  pub is_pending : Bool
  pub owner : String
  pub approval_revision : ℕ
  pub attempt_id : String

-- A limit that is given and not null has a least value.
abbrev pub at_least : ℕ → Field → Bool
at_least least missing = true
at_least least null = true
at_least least (number n) = leb least n

abbrev pub is_present : Field → Bool
is_present missing = false
is_present _ = true

abbrev pub is_action : Option String → Bool
is_action none = false
is_action (some s) = s == "approve_once"

-- The checks of the decision itself.
unfoldable pub check_decision : Decision → Option String → Limits → Outcome (Unit {0})
check_decision approves action limits = do
  guard (is_action action && not limits.has_other_keys) Code.validation_error
  guard (at_least 1 limits.token_limit) Code.validation_error
  guard (at_least 0 limits.cost_limit_micros) Code.validation_error
check_decision rejects action limits =
    guard
      (not (is_some action)
        && not limits.has_other_keys
        && not (is_present limits.token_limit)
        && not (is_present limits.cost_limit_micros))
      Code.validation_error

abbrev is_unknown_tokens : Gate → Bool
is_unknown_tokens (token_bound_unknown _ _ _) = true
is_unknown_tokens _ = false

abbrev is_unknown_cost : Gate → Bool
is_unknown_cost (cost_unknown _ _ _ _) = true
is_unknown_cost _ = false

-- Where a gate was shut for want of an amount, an approval names that amount.
unfoldable pub check_limits : Decision → List Gate → Limits → Outcome (Unit {0})
check_limits rejects denied limits = ok tt
check_limits approves denied limits = do
  guard (not (any is_unknown_tokens denied) || is_present limits.token_limit) Code.validation_error
  guard (not (any is_unknown_cost denied) || is_present limits.cost_limit_micros)
      Code.validation_error

abbrev pub is_pending_approval : AttemptStatus → Bool
is_pending_approval pending_approval = true
is_pending_approval _ = false

unfoldable pub bump : Snapshot → Attempt → ℕ → Snapshot
bump snapshot attempt now = changed snapshot attempt snapshot.retry_budget_ledger now

-- The commit `prepare_budget_resolution`.
unfoldable pub prepare_resolution :
    Snapshot
    → Attempt
    → Approval
    → Decision
    → Limits
    → String
    → Envelope
    → ℕ
    → Outcome (Snapshot × Attempt)
unfolding check_limits bump
prepare_resolution snapshot attempt approval decision limits sha envelope now = do
  guard (approval.is_pending && is_pending_approval attempt.status) Code.invalid_state_transition
  guard (envelope.actor_type == approval.owner) Code.validation_error
  guard (eqb envelope.expected_revision approval.approval_revision) Code.revision_conflict
  check_limits decision attempt.denied_gates limits
  let pending : Pending = record {
    approval_id = approval.approval_id;
    decision = decision;
    limits = limits;
    request_sha256 = sha;
    envelope = envelope;
  }
  let next = record attempt { pending_resolution = some pending }
  ok (bump snapshot next now, next)

-- `if "token_limit" in payload: attempt["reserved_tokens"] = payload["token_limit"]`
abbrev pub with_limit : Field → Option ℕ → Option ℕ
with_limit missing old = old
with_limit null old = none
with_limit (number n) old = some n

abbrev pub limited : Decision → Limits → Attempt → Attempt
limited rejects limits attempt = attempt
limited approves limits attempt = record attempt {
  reserved_tokens = with_limit limits.token_limit attempt.reserved_tokens;
  reserved_cost_micros = with_limit limits.cost_limit_micros attempt.reserved_cost_micros;
}

abbrev pub resolved_status : Decision → AttemptStatus
resolved_status approves = authorized
resolved_status rejects = cancelled

unfoldable pub resolved_attempt : Attempt → Pending → ℕ → Attempt
resolved_attempt attempt p now = record (limited p.decision p.limits attempt) {
  status = resolved_status p.decision;
  resolved_at = some now;
  resolution = some p.envelope;
  pending_resolution = none;
}

abbrev pub same_id : Option String → String → Bool
same_id none s = false
same_id (some t) s = t == s

module _ (commit_resolution : String → Decision → Envelope → Outcome (Unit {0})) where
  -- `_finish_pending_resolution`
  unfoldable pub finish_pending :
      Snapshot → Attempt → Option Pending → ℕ → Outcome (Snapshot × Attempt)
  unfolding resolved_attempt bump
  finish_pending snapshot attempt none now = fault runtime_error
  finish_pending snapshot attempt (some p) now = do
    commit_resolution p.approval_id p.decision p.envelope
    let next = resolved_attempt attempt p now
    ok (bump snapshot next now, next)

  -- A prepared decision is finished only for the request that prepared it.
  unfoldable pub resume_or_prepare :
      Snapshot
      → Attempt
      → Option Pending
      → Approval
      → Decision
      → Limits
      → String
      → Envelope
      → ℕ
      → Outcome (Snapshot × Attempt)
  unfolding finish_pending prepare_resolution
  resume_or_prepare snapshot attempt (some p) approval decision limits sha envelope now = do
    guard ((p.request_sha256 == sha) && (p.envelope.idempotency_key == envelope.idempotency_key))
        Code.idempotency_conflict
    finish_pending snapshot attempt (some p) now
  resume_or_prepare snapshot attempt none approval decision limits sha envelope now = do
    (prepared, next) ← prepare_resolution snapshot attempt approval decision limits sha envelope now
    finish_pending prepared next next.pending_resolution now

  -- `resolve_approval` on the snapshot, without the replay of a committed command.
  unfoldable pub resolve_approval :
      Snapshot
      → Approval
      → Decision
      → Option String
      → Limits
      → String
      → Envelope
      → ℕ
      → Outcome (Snapshot × Attempt)
  unfolding check_decision resume_or_prepare
  resolve_approval snapshot approval decision action limits sha envelope now = do
    guard approval.is_budget_override Code.validation_error
    check_decision decision action limits
    attempt ← get_attempt snapshot approval.attempt_id
    guard (same_id attempt.approval_id approval.approval_id) Code.idempotency_conflict
    resume_or_prepare snapshot attempt attempt.pending_resolution approval decision limits sha
        envelope now
