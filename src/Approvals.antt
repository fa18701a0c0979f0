-- ===== src/Approvals.antt =====
-- backend/harness/services/approvals.py `commit_resolution` and `acknowledge_external_workflow_approvals`:
-- the decision on one approval, with the events
-- of its task. The digest of a request is a parameter. Fields that are only carried are left out.
pub mod Eventful
pub mod Decided
pub mod Inbox
use agentic_design_harness.Common.{
  eqb, if◌then◌else◌, Code, validation_error, invalid_state_transition, revision_conflict, Outcome,
  ok, guard, require, ◌>>=◌, ◌>>◌, ℕ, ◌+◌, String, Bool, true, false, Option, none, some, List, [],
  ◌∷◌, ◌++◌, ◌==◌,
}
use agentic_design_harness.Storage.{object_committed, Event}
use agentic_design_harness.Storage.Idempotency.{Sent, committed_result}
use agentic_design_harness.Commands.{Envelope}

pub data ApprovalStatus : Type 0 where
  pending_approval approved rejected : ApprovalStatus

pub record Approval : Type 0 where
  pub approval_id : String
  pub task_id : String
  pub owner : String
  pub status : ApprovalStatus
  pub revision : ℕ
  pub resolved_at : Option ℕ
  pub resolved_by_type : Option String
  pub resolved_by_id : Option String

pub record Resolution : Type 0 where
  pub approval : Approval
  pub approval_revision : ℕ

-- The stored approval with its revision, and the committed events of its task.
pub record Docket : Type 0 where
  pub approval : Approval
  pub approval_revision : ℕ
  pub events : List (Event Approval Resolution)

abbrev pub is_pending : ApprovalStatus → Bool
is_pending pending_approval = true
is_pending _ = false

-- `decision in {"APPROVED", "REJECTED"}`, and the status that it gives
abbrev pub decided_status : String → Option ApprovalStatus
decided_status decision =
    if decision == "APPROVED"
    then some approved
    else if decision == "REJECTED"
    then some rejected
    else none

abbrev pub resolved : Approval → ApprovalStatus → Envelope → ℕ → Approval
resolved approval status envelope now = record approval {
  status = status;
  revision = approval.revision + 1;
  resolved_at = some now;
  resolved_by_type = some envelope.actor_type;
  resolved_by_id = some envelope.actor_id;
}

abbrev pub resolution_event :
    Sent → Envelope → ℕ → Approval → Resolution → Event Approval Resolution
resolution_event sent envelope now approval result = record {
  event_type = object_committed;
  object_type = "approval";
  object_id = approval.approval_id;
  revision = result.approval_revision;
  actor = record { actor_type = envelope.actor_type; actor_id = envelope.actor_id };
  command = "resolve_approval";
  idempotency_key = sent.idempotency_key;
  occurred_at = now;
  snapshot = some (record {
    object_type = "approval";
    object_id = approval.approval_id;
    revision = result.approval_revision;
    payload = result.approval;
    committed_at = now;
  });
  command_result = some result;
  request_sha256 = some sent.request_sha256;
}

-- A decision of an approval that was not committed before.
unfoldable pub decide : Sent → String → Envelope → ℕ → Docket → Outcome (Resolution × Docket)
decide sent decision envelope now docket = do
  status ← require (decided_status decision) Code.validation_error
  guard (is_pending docket.approval.status) Code.invalid_state_transition
  guard (envelope.actor_type == docket.approval.owner) Code.validation_error
  guard (eqb envelope.expected_revision docket.approval_revision) Code.revision_conflict
  let updated = resolved docket.approval status envelope now
  let result : Resolution = record {
    approval = updated;
    approval_revision = docket.approval_revision + 1;
  }
  ok (
    result,
    record {
      approval = updated;
      approval_revision = docket.approval_revision + 1;
      events = docket.events ++ resolution_event sent envelope now docket.approval result ∷ [];
    },
  )

-- The put of `acknowledge_external_workflow_approvals` for one pending approval; it carries no answer.
abbrev pub acknowledgement : String → ℕ → Approval → ℕ → Event Approval Resolution
acknowledgement actor_id now approval revision = record {
  event_type = object_committed;
  object_type = "approval";
  object_id = approval.approval_id;
  revision = revision;
  actor = record { actor_type = "adapter"; actor_id = actor_id };
  command = "acknowledge_external_workflow_approval";
  idempotency_key = "external-resolution";
  occurred_at = now;
  snapshot = some (record {
    object_type = "approval";
    object_id = approval.approval_id;
    revision = revision;
    payload = approval;
    committed_at = now;
  });
  command_result = none;
  request_sha256 = none;
}

abbrev pub acknowledged : Approval → String → ℕ → Approval
acknowledged approval actor_id now = record approval {
  status = approved;
  revision = approval.revision + 1;
  resolved_at = some now;
  resolved_by_type = some "adapter";
  resolved_by_id = some actor_id;
}

-- The part of `acknowledge_external_workflow_approvals` on one approval, which it passes over unless it
-- is pending.
unfoldable pub acknowledge_external : String → ℕ → Docket → Docket
acknowledge_external actor_id now docket =
    if is_pending docket.approval.status
    then record {
      approval = acknowledged docket.approval actor_id now;
      approval_revision = docket.approval_revision + 1;
      events =
          docket.events
          ++ acknowledgement actor_id now (acknowledged docket.approval actor_id now)
              (docket.approval_revision + 1)
            ∷ [];
    }
    else docket

abbrev pub sent_decision : (String → String → String) → String → String → Docket → Sent
sent_decision digest key decision docket = record {
  scope = docket.approval.task_id;
  idempotency_key = key;
  command = "resolve_approval";
  request_sha256 = digest docket.approval.approval_id decision;
}

-- The answer from an earlier commit, or a decision.
abbrev pub answer_or :
    Docket → Outcome (Resolution × Docket) → Option Resolution → Outcome (Resolution × Docket)
answer_or docket other none = other
answer_or docket other (some committed) = ok (committed, docket)

-- `commit_resolution`
unfoldable pub commit_resolution :
    (String → String → String)
    → String
    → String
    → Envelope
    → ℕ
    → Docket
    → Outcome (Resolution × Docket)
unfolding decide committed_result
commit_resolution digest key decision envelope now docket = do
  let sent = sent_decision digest key decision docket
  committed ← committed_result sent docket.events
  answer_or docket (decide sent decision envelope now docket) committed
