-- ===== src/Witnesses/Decisions.antt =====
-- The theorem on decisions of an approval at a concrete input: a decision that is sent twice.
use agentic_design_harness.Common.{All, ok, ℕ, String, ◌≡◌, refl, true, none, [], ◌∷◌, ◌++◌}
use agentic_design_harness.Storage.{object_committed, Event}
use agentic_design_harness.Storage.Idempotency.{committed_from, committed_result}
use agentic_design_harness.Commands.{Envelope}
use agentic_design_harness.Approvals.{
  pending_approval, approved, Approval, Resolution, Docket, resolved, resolution_event, decide,
  sent_decision, commit_resolution,
}
use agentic_design_harness.Approvals.Eventful.{IsFinal}
use agentic_design_harness.Approvals.Decided.{unanswered, answered, interleaved, Answers-IsFinal}
use agentic_design_harness.Approvals.Inbox.{
  unread, read_once, InboxItem, InboxResult, Tray, updated_item, inbox_event, move_item,
  sent_update, update_inbox_status,
}
use agentic_design_harness.Approvals.Inbox.Handled.{IsLater, not_updated, updated, Updated-IsLater}

abbrev waiting : Approval
waiting = record {
  approval_id = "a-1";
  task_id = "task-1";
  owner = "human";
  status = pending_approval;
  revision = 1;
  resolved_at = none;
  resolved_by_type = none;
  resolved_by_id = none;
}

-- The commit of an approval when it was asked for, and one of an event beside it.
abbrev committed_by : String → String → Event Approval Resolution
committed_by command id = record {
  event_type = object_committed;
  object_type = "approval";
  object_id = id;
  revision = 1;
  actor = record { actor_type = "system"; actor_id = "approvals" };
  command = command;
  idempotency_key = "k-0";
  occurred_at = 1;
  snapshot = none;
  command_result = none;
  request_sha256 = none;
}

abbrev open_docket : Docket
open_docket = record {
  approval = waiting;
  approval_revision = 1;
  events = committed_by "ensure_workflow_approval" "a-1" ∷ [];
}

abbrev by_decision : String → String → String
by_decision id decision = decision

abbrev by_human : ℕ → Envelope
by_human revision = record {
  actor_type = "human";
  actor_id = "operator";
  expected_revision = revision;
}

abbrev yes_given : Resolution
yes_given = record { approval = resolved waiting approved (by_human 1) 5; approval_revision = 2 }

abbrev closed_docket : Docket
closed_docket = record {
  approval = yes_given.approval;
  approval_revision = 2;
  events =
      committed_by "ensure_workflow_approval" "a-1"
      ∷ resolution_event (sent_decision by_decision "k-1" "APPROVED" open_docket) (by_human 1) 5
          waiting yes_given
      ∷ [];
}

-- The docket after a second approval was asked for.
abbrev later_docket : Docket
later_docket = record closed_docket {
  events = closed_docket.events ++ committed_by "ensure_delivery_review_approval" "a-2" ∷ [];
}

decides :
    commit_resolution by_decision "k-1" "APPROVED" (by_human 1) 5 open_docket
    ≡ ok (yes_given, closed_docket)
unfolding commit_resolution decide committed_result committed_from
decides = refl

decides_again :
    commit_resolution by_decision "k-1" "APPROVED" (by_human 1) 9 later_docket
    ≡ ok (yes_given, later_docket)
unfolding commit_resolution decide committed_result committed_from
decides_again = refl

Answers-IsFinal_example : All (IsFinal later_docket) (yes_given ∷ yes_given ∷ [])
Answers-IsFinal_example =
    Answers-IsFinal by_decision open_docket later_docket (yes_given ∷ yes_given ∷ []) refl
      ((λ d c s. refl), tt)
      (answered "k-1" "APPROVED" (by_human 1) 9 yes_given
        (interleaved (committed_by "ensure_delivery_review_approval" "a-2")
          (answered "k-1" "APPROVED" (by_human 1) 5 yes_given unanswered decides) (λ d c s. refl))
        decides_again)

abbrev note : InboxItem
note = record {
  inbox_id = "n-1";
  owner = "human";
  status = unread;
  revision = 1;
  reading = record { at = none; by_type = none; by_id = none };
  handling = record { at = none; by_type = none; by_id = none };
}

abbrev tray_of : Tray
tray_of = record { task_id = "task-1"; item = note; inbox_revision = 1; events = [] }

abbrev read_note : InboxResult
read_note = record { item = updated_item note read_once (by_human 1) 5; inbox_revision = 2 }

abbrev read_tray : Tray
read_tray = record tray_of {
  item = read_note.item;
  inbox_revision = 2;
  events = inbox_event (sent_update by_decision "k-2" "READ" tray_of) (by_human 1) 5 read_note ∷ [];
}

reads :
    update_inbox_status by_decision "k-2" "READ" (by_human 1) true 5 tray_of
    ≡ ok (read_note, read_tray)
unfolding update_inbox_status move_item committed_result committed_from
reads = refl

Updated-IsLater_example : IsLater tray_of read_tray
Updated-IsLater_example =
    Updated-IsLater by_decision tray_of read_tray
      (updated "k-2" "READ" (by_human 1) true 5 read_note not_updated reads)
