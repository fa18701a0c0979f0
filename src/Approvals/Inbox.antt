-- ===== src/Approvals/Inbox.antt =====
-- backend/harness/services/approvals.py `update_inbox_status`: what happens to one notification, with the
-- events of its task. The digest of a request is a parameter.
pub mod Handled
use agentic_design_harness.Common.{
  eqb, if◌then◌else◌, Code, validation_error, invalid_state_transition, revision_conflict, Outcome,
  ok, guard, require, ◌>>=◌, ◌>>◌, ℕ, ◌+◌, String, Bool, true, false, ◌||◌, not, Option, none, some,
  List, [], ◌∷◌, ◌++◌, ◌==◌,
}
use agentic_design_harness.Storage.{object_committed, Event}
use agentic_design_harness.Storage.Idempotency.{Sent, committed_result}
use agentic_design_harness.Commands.{Envelope}

pub data InboxStatus : Type 0 where
  unread read_once handled : InboxStatus

-- Who read or handled a notification, and when.
pub record Mark : Type 0 where
  pub at : Option ℕ
  pub by_type : Option String
  pub by_id : Option String

pub record InboxItem : Type 0 where
  pub inbox_id : String
  pub owner : String
  pub status : InboxStatus
  pub revision : ℕ
  pub reading : Mark
  pub handling : Mark

pub record InboxResult : Type 0 where
  pub item : InboxItem
  pub inbox_revision : ℕ

-- The stored item with its revision, and the committed events of its task.
pub record Tray : Type 0 where
  pub task_id : String
  pub item : InboxItem
  pub inbox_revision : ℕ
  pub events : List (Event InboxItem InboxResult)

abbrev pub is_handled : InboxStatus → Bool
is_handled handled = true
is_handled _ = false

-- `target in {"READ", "HANDLED"}`, and the status that it gives
abbrev pub target_status : String → Option InboxStatus
target_status target =
    if target == "READ" then some read_once else if target == "HANDLED" then some handled else none

-- `current.get(field, default)`
abbrev pub get_or {ℓ} : {A : Type ℓ} → Option A → A → Option A
get_or none default = some default
get_or (some a) default = some a

abbrev pub handling_after : InboxStatus → Envelope → ℕ → Mark → Mark
handling_after handled envelope now mark = record {
  at = some now;
  by_type = some envelope.actor_type;
  by_id = some envelope.actor_id;
}
handling_after _ envelope now mark = mark

abbrev pub updated_item : InboxItem → InboxStatus → Envelope → ℕ → InboxItem
updated_item item status envelope now = record item {
  status = status;
  revision = item.revision + 1;
  reading = record {
    at = get_or item.reading.at now;
    by_type = get_or item.reading.by_type envelope.actor_type;
    by_id = get_or item.reading.by_id envelope.actor_id;
  };
  handling = handling_after status envelope now item.handling;
}

abbrev pub inbox_event : Sent → Envelope → ℕ → InboxResult → Event InboxItem InboxResult
inbox_event sent envelope now result = record {
  event_type = object_committed;
  object_type = "inbox";
  object_id = result.item.inbox_id;
  revision = result.inbox_revision;
  actor = record { actor_type = envelope.actor_type; actor_id = envelope.actor_id };
  command = "update_inbox_status";
  idempotency_key = sent.idempotency_key;
  occurred_at = now;
  snapshot = some (record {
    object_type = "inbox";
    object_id = result.item.inbox_id;
    revision = result.inbox_revision;
    payload = result.item;
    committed_at = now;
  });
  command_result = some result;
  request_sha256 = some sent.request_sha256;
}

unfoldable pub move_item : Sent → String → Envelope → Bool → ℕ → Tray → Outcome (InboxResult × Tray)
move_item sent target envelope enforce_owner now tray = do
  status ← require (target_status target) Code.invalid_state_transition
  guard (not (is_handled tray.item.status)) Code.invalid_state_transition
  guard (not enforce_owner || (envelope.actor_type == tray.item.owner)) Code.validation_error
  guard (eqb envelope.expected_revision tray.inbox_revision) Code.revision_conflict
  let result : InboxResult = record {
    item = updated_item tray.item status envelope now;
    inbox_revision = tray.inbox_revision + 1;
  }
  ok (
    result,
    record tray {
      item = result.item;
      inbox_revision = result.inbox_revision;
      events = tray.events ++ inbox_event sent envelope now result ∷ [];
    },
  )

abbrev pub sent_update : (String → String → String) → String → String → Tray → Sent
sent_update digest key target tray = record {
  scope = tray.task_id;
  idempotency_key = key;
  command = "update_inbox_status";
  request_sha256 = digest tray.item.inbox_id target;
}

abbrev pub answer_update :
    Tray → Outcome (InboxResult × Tray) → Option InboxResult → Outcome (InboxResult × Tray)
answer_update tray other none = other
answer_update tray other (some committed) = ok (committed, tray)

-- `update_inbox_status`
unfoldable pub update_inbox_status :
    (String → String → String)
    → String
    → String
    → Envelope
    → Bool
    → ℕ
    → Tray
    → Outcome (InboxResult × Tray)
unfolding move_item committed_result
update_inbox_status digest key target envelope enforce_owner now tray = do
  let sent = sent_update digest key target tray
  committed ← committed_result sent tray.events
  answer_update tray (move_item sent target envelope enforce_owner now tray) committed
