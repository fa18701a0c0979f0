-- ===== src/Witnesses/Histories.antt =====
-- The theorems on histories of a task and on commands that are sent again, at concrete inputs.
use agentic_design_harness.Common.{
  Outcome, ok, lookup, insert, index_onto, index_by, ℕ, ◌+◌, String, ◌≡◌, refl, ◌≢◌, Bool, none,
  some, List, [], ◌∷◌, ◌++◌, ◌==◌,
}
use agentic_design_harness.Status.{
  succeeded, archived, status_code, same_status, member, transitions, transition,
}
use agentic_design_harness.Model.{Task, Plan, same_type}
use agentic_design_harness.Topology.{
  contiguous, for_each, check_stage, check_dependency, check_dependencies, check_instances,
  check_cards, validate_plan,
}
use agentic_design_harness.Storage.{object_committed, Event}
use agentic_design_harness.Storage.Identifier.{validate_identifier}
use agentic_design_harness.Storage.Idempotency.{
  Registry, Sent, recall_record, recall, remember_digest, committed_from, committed_result,
  idempotent,
}
use agentic_design_harness.Storage.Idempotency.Replay.{IsReplayed, idempotent-IsReplayed}
use agentic_design_harness.Commands.{Envelope, set_task, persist_aggregate}
use agentic_design_harness.Commands.WholeTask.{
  TaskRequest, new_task, put_task, create_task, commit_task, rename_task, update_task_input,
  archive_stored,
}
use agentic_design_harness.Commands.WholeTask.Steps.{renames, archives_task, IsWellFormed}
use agentic_design_harness.Commands.WholeTask.History.{
  created_first, commanded, Reach-IsWellFormed, TaskCommand-wins_once,
}
use agentic_design_harness.Commands.WholeTask.Lost.{update_task_input-lost}
use agentic_design_harness.Witnesses.Samples.{running_task, sample_plan, any_schema}
use agentic_design_harness.Commands.Saving.{Stored}

abbrev any_task : Task → Outcome (Unit {0})
any_task _ = ok tt

abbrev sent_at : ℕ → Envelope
sent_at revision = record {
  actor_type = "human";
  actor_id = "operator";
  expected_revision = revision;
}

abbrev deck_request : TaskRequest
deck_request = record {
  task_id = "task-1";
  title = "deck";
  start_policy = "manual";
  input_manifest = "";
}

abbrev deck : Stored
deck = record { task = new_task deck_request 1; task_revision = 1; plan = none }

abbrev renamed_deck : Stored
renamed_deck = record {
  task = record (new_task deck_request 1) { title = "slides"; updated_at = 2 };
  task_revision = 2;
  plan = none;
}

created_deck : create_task any_task any_schema none deck_request (sent_at 0) 1 ≡ ok deck
unfolding create_task
created_deck = refl

rename_deck : rename_task any_task any_schema deck "slides" (sent_at 1) 2 ≡ ok renamed_deck
unfolding rename_task commit_task put_task
rename_deck = refl

Reach-IsWellFormed_example :
    IsWellFormed any_task any_schema renamed_deck × (renamed_deck.task_revision ≡ 1 + 1)
Reach-IsWellFormed_example = Reach-IsWellFormed any_task any_schema 1 renamed_deck (
    commanded (sent_at 1) (rename_task any_task any_schema deck "slides" (sent_at 1) 2)
      (created_first none deck_request (sent_at 0) 1 created_deck) (renames "slides" 2) rename_deck)

TaskCommand-wins_once_example :
    archive_stored any_task any_schema renamed_deck (sent_at 1) 3 ≢ ok renamed_deck
TaskCommand-wins_once_example =
    TaskCommand-wins_once any_task any_schema deck renamed_deck renamed_deck (sent_at 1) (sent_at 1)
      (rename_task any_task any_schema deck "slides" (sent_at 1) 2)
      (archive_stored any_task any_schema renamed_deck (sent_at 1) 3) (renames "slides" 2)
      rename_deck (archives_task 3) refl

-- A finished task with a plan.
abbrev finished_task : Task
finished_task = record running_task { status = succeeded }

abbrev finished_plan : Plan
finished_plan = record sample_plan { task = finished_task }

abbrev finished : Stored
finished = record { task = finished_task; task_revision = 3; plan = some finished_plan }

abbrev registered : Stored
registered = record {
  task = record finished_task { input_manifest = "new"; updated_at = 9 };
  task_revision = 4;
  plan = some finished_plan;
}

abbrev shelved : Stored
shelved = record {
  task = record finished_task { status = archived; updated_at = 10 };
  task_revision = 5;
  plan = some (set_task archived 10 finished_plan);
}

registers : update_task_input any_task any_schema finished "new" (sent_at 3) 9 ≡ ok registered
unfolding update_task_input put_task
registers = refl

shelves : archive_stored any_task any_schema registered (sent_at 4) 10 ≡ ok shelved
unfolding archive_stored commit_task persist_aggregate transition transitions member same_status
    status_code validate_plan contiguous for_each check_stage check_dependencies check_dependency
    check_instances check_cards same_type lookup index_by index_onto insert
shelves = refl

update_task_input-lost_example :
    (registered.task.input_manifest ≡ "new")
    × (shelved.task.input_manifest ≡ finished_plan.task.input_manifest)
update_task_input-lost_example =
    update_task_input-lost any_task any_schema finished registered shelved "new" (sent_at 3)
      (sent_at 4) 9 10 finished_plan refl registers shelves

-- A command that commits one event with its result.
abbrev rename_sent : Sent
rename_sent = record {
  scope = "task-1";
  idempotency_key = "key-1";
  command = "rename_task";
  request_sha256 = "sha-1";
}

abbrev rename_event : Event ℕ String
rename_event = record {
  event_type = object_committed;
  object_type = "task";
  object_id = "task-1";
  revision = 2;
  actor = record { actor_type = "human"; actor_id = "operator" };
  command = "rename_task";
  idempotency_key = "key-1";
  occurred_at = 2;
  snapshot = none;
  command_result = some "renamed";
  request_sha256 = some "sha-1";
}

abbrev log_of : List (Event ℕ String) → List (Event ℕ String)
log_of events = events

abbrev key_path : String → String → String
key_path scope key = key

abbrev same_text : String → String → Bool
same_text a b = a == b

abbrev rename_operation : List (Event ℕ String) → List (Event ℕ String) × Outcome String
rename_operation events = (events ++ rename_event ∷ [], ok "renamed")

abbrev rename_record : Registry String
rename_record = ("key-1", record { request_sha256 = "sha-1"; result = "renamed" }) ∷ []

rename_once :
    idempotent log_of key_path same_text rename_sent rename_operation [] []
    ≡ ((rename_event ∷ [], rename_record), ok "renamed")
unfolding idempotent validate_identifier recall recall_record remember_digest committed_result
    committed_from lookup insert
rename_once = refl

valid_scope : validate_identifier "task-1" ≡ ok tt
unfolding validate_identifier
valid_scope = refl

idempotent-IsReplayed_example :
    IsReplayed log_of key_path same_text rename_sent [] (rename_event ∷ []) rename_record "renamed"
idempotent-IsReplayed_example =
    idempotent-IsReplayed log_of key_path same_text rename_sent rename_operation []
      (rename_event ∷ []) [] rename_record "renamed" valid_scope rename_once
