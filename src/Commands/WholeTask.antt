-- ===== src/Commands/WholeTask.antt =====
-- backend/harness/domain/service.py: the commands on a whole task, which may have no plan yet. The check
-- of a task against its contract is a parameter.
pub mod Steps
pub mod History
pub mod Lost
use agentic_design_harness.Common.{
  eqb, if◌then◌else◌, is_empty, Code, invalid_state_transition, revision_conflict, task_not_found,
  instance_not_found, Outcome, ok, guard, require, ◌>>=◌, ◌>>◌, lookup, ℕ, ◌+◌, String, Bool, true,
  false, ◌||◌, not, Option, none, some, List, [], ◌∷◌,
}
use agentic_design_harness.Status.{
  Status, draft, cancelled, archived, stopped, main_task, agent_instance, same_status, transition,
}
use agentic_design_harness.Model.{Task, Instance, Plan}
use agentic_design_harness.Aggregate.{is_executing, aggregate_task}
use agentic_design_harness.Commands.{
  Saved, Envelope, instance_index, change_instances, activate_instance, refresh_stages, set_task,
  persist_aggregate,
}
use agentic_design_harness.Commands.Tasks.{cancelled_plan}
use agentic_design_harness.Commands.Saving.{Stored}

pub record TaskRequest : Type 0 where
  pub task_id : String
  pub title : String
  pub start_policy : String
  pub input_manifest : String

abbrev pub new_task : TaskRequest → ℕ → Task
new_task request now = record {
  task_id = request.task_id;
  title = request.title;
  start_policy = request.start_policy;
  input_manifest = request.input_manifest;
  status = draft;
  created_at = now;
  updated_at = now;
  plan_revision = 1;
}

-- The revision that a store has of a task, zero where there is none.
abbrev pub stored_revision : Option Stored → ℕ
stored_revision none = 0
stored_revision (some stored) = stored.task_revision

-- What a commit of a plan leaves: the plan's copy of the task is stored as the task, too.
abbrev pub landed : Saved → Stored
landed saved = record {
  task = saved.plan.task;
  task_revision = saved.task_revision;
  plan = some saved.plan;
}

abbrev pub land : Outcome Saved → Outcome Stored
land result = result >>= λ saved. ok (landed saved)

abbrev pub current : Envelope → Stored → Outcome (Unit {0})
current envelope stored =
    guard (eqb envelope.expected_revision stored.task_revision) Code.revision_conflict

-- A command on the plan, `_plan` and what follows.
abbrev pub on_plan : Stored → (Saved → Outcome Saved) → Outcome Stored
on_plan stored run = do
  plan ← require stored.plan Code.task_not_found
  land (run (record { plan = plan; task_revision = stored.task_revision }))

abbrev pub with_task_status : Status → ℕ → Task → Task
with_task_status status now task = record task { status = status; updated_at = now }

-- One entry of `instance_restores`.
unfoldable pub restore_instance : ℕ → String × Status → Plan → Outcome Plan
restore_instance now (id, target) plan = do
  i ← require (lookup id (instance_index plan)) Code.instance_not_found
  if not (same_status i.status stopped) then ok plan else do
    transition agent_instance stopped target
    let moved = change_instances (id ∷ []) (λ (i : Instance). record i { status = target }) plan
    ok (
        if is_executing target
        then change_instances (id ∷ []) (activate_instance now) moved
        else moved)

unfoldable pub restore_instances : ℕ → List (String × Status) → Plan → Outcome Plan
unfolding restore_instance
restore_instances now [] plan = ok plan
restore_instances now (r ∷ restores) plan =
    restore_instance now r plan >>= λ next. restore_instances now restores next

-- The part of `_restore_archived` on a plan.
unfoldable pub restored_plan : Bool → List (String × Status) → Status → ℕ → Plan → Outcome Plan
unfolding restore_instances
restored_plan was_archived restores target now plan = do
  moved ← restore_instances now restores plan
  refreshed ← refresh_stages now true moved
  let opened = set_task target now refreshed
  let status = aggregate_task opened.task opened.stages opened.instances false
  (if was_archived
      then transition main_task archived status
      else if same_status status target
      then ok tt
      else transition main_task target status)
  ok (set_task status now opened)

module _ (valid : Task → Outcome (Unit {0})) (schema : Plan → Bool) where
  -- `store.task.put`
  unfoldable pub put_task : Stored → ℕ → Task → Outcome Stored
  put_task stored expected task = do
    valid task
    guard (eqb expected stored.task_revision) Code.revision_conflict
    ok (record stored { task = task; task_revision = stored.task_revision + 1 })

  abbrev pub persist : Stored → Plan → Outcome Stored
  persist stored plan =
      land (
        persist_aggregate schema (record { plan = plan; task_revision = stored.task_revision })
          plan)

  -- `_create_task`
  unfoldable pub create_task : Option Stored → TaskRequest → Envelope → ℕ → Outcome Stored
  create_task before request envelope now = do
    guard (eqb envelope.expected_revision 0) Code.revision_conflict
    valid (new_task request now)
    guard (eqb 0 (stored_revision before)) Code.revision_conflict
    ok (record { task = new_task request now; task_revision = 1; plan = none })

  -- The task is put where it has no plan, and else goes with its changed plan.
  unfoldable pub commit_task : Stored → Option Plan → Task → (Plan → Plan) → Outcome Stored
  unfolding put_task
  commit_task stored none task change = put_task stored stored.task_revision task
  commit_task stored (some plan) task change = persist stored (change plan)

  -- `_rename_task`, with the title that `rename_task` has checked
  abbrev pub renamed : Stored → String → ℕ → Task
  renamed stored title now = record stored.task { title = title; updated_at = now }

  unfoldable pub rename_task : Stored → String → Envelope → ℕ → Outcome Stored
  unfolding commit_task
  rename_task stored title envelope now = do
    current envelope stored
    commit_task stored stored.plan (renamed stored title now)
        (λ (plan : Plan). record plan { task = renamed stored title now })

  -- `_update_task_input`
  unfoldable pub update_task_input : Stored → String → Envelope → ℕ → Outcome Stored
  unfolding put_task
  update_task_input stored input_manifest envelope now =
      put_task stored envelope.expected_revision
        (record stored.task { input_manifest = input_manifest; updated_at = now })

  -- `_archive_task` and `_cancel_task`
  unfoldable pub archive_stored : Stored → Envelope → ℕ → Outcome Stored
  unfolding commit_task
  archive_stored stored envelope now = do
    current envelope stored
    transition main_task stored.task.status archived
    commit_task stored stored.plan (with_task_status archived now stored.task)
        (set_task archived now)

  unfoldable pub cancel_stored : Stored → Envelope → ℕ → Outcome Stored
  unfolding commit_task
  cancel_stored stored envelope now = do
    current envelope stored
    transition main_task stored.task.status cancelled
    commit_task stored stored.plan (with_task_status cancelled now stored.task)
        (λ (plan : Plan). set_task cancelled now (cancelled_plan plan))

  -- `_restore_archived`
  unfoldable pub restore_stored :
      Stored → Option Plan → Bool → List (String × Status) → Status → ℕ → Outcome Stored
  unfolding put_task restored_plan
  restore_stored stored none was_archived restores target now = do
    (if was_archived then transition main_task archived target else ok tt)
    guard (is_empty restores) Code.instance_not_found
    put_task stored stored.task_revision (with_task_status target now stored.task)
  restore_stored stored (some plan) was_archived restores target now = do
    restored ← restored_plan was_archived restores target now plan
    persist stored restored

  unfoldable pub restore_archived :
      Stored → List (String × Status) → Status → Envelope → ℕ → Outcome Stored
  unfolding restore_stored
  restore_archived stored restores target envelope now = do
    current envelope stored
    let was_archived = same_status stored.task.status archived
    guard (was_archived || same_status stored.task.status target) Code.invalid_state_transition
    restore_stored stored stored.plan was_archived restores target now
