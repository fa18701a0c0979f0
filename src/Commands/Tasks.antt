-- ===== src/Commands/Tasks.antt =====
-- backend/harness/domain/service.py: the commands on a whole task that has a saved plan.
use agentic_design_harness.Common.{
  if◌then◌else◌, is_some, Code, Outcome, ◌>>=◌, ◌>>◌, guard, ℕ, Bool, true, false, none, [], ◌∷◌,
}
use agentic_design_harness.Status.{
  Status, draft, planned, running, waiting_approval, blocked_unavailable, failed, cancelled,
  archived, Kind, main_task, agent_instance, member, transitions, transition,
}
use agentic_design_harness.Model.{Stage, Instance, Plan}
use agentic_design_harness.Aggregate.{awaits_start, aggregate_task}
use agentic_design_harness.Commands.{
  Saved, Envelope, map_if, validate_task_reaggregation, with_status, activate_current_stages,
  set_task, check_revision, persist_aggregate,
}

pub data PlanMode : Type 0 where
  replaces appends merges : PlanMode

-- `_guard_plan_save_state`
unfoldable pub guard_plan_save_state : Status → PlanMode → Outcome (Unit {0})
guard_plan_save_state status appends =
    guard (member status (running ∷ waiting_approval ∷ [])) Code.invalid_state_transition
guard_plan_save_state status merges =
    guard (member status (running ∷ waiting_approval ∷ blocked_unavailable ∷ []))
      Code.invalid_state_transition
guard_plan_save_state status replaces =
    guard (member status (draft ∷ planned ∷ blocked_unavailable ∷ failed ∷ []))
      Code.invalid_state_transition

-- `_confirm_start`
unfoldable pub confirm_start : (Plan → Bool) → Saved → Envelope → ℕ → Outcome Saved
confirm_start schema saved envelope now = do
  check_revision saved envelope
  guard (awaits_start saved.plan.task.status) Code.invalid_state_transition
  plan ← activate_current_stages now saved.plan
  let target = aggregate_task plan.task plan.stages plan.instances false
  validate_task_reaggregation plan.task.status target
  persist_aggregate schema saved (set_task target now plan)

-- `_archive_task` of a task with a plan
unfoldable pub archive_task : (Plan → Bool) → Saved → Envelope → ℕ → Outcome Saved
archive_task schema saved envelope now = do
  check_revision saved envelope
  transition main_task saved.plan.task.status archived
  persist_aggregate schema saved (set_task archived now saved.plan)

abbrev pub cancelled_instance : Instance → Instance
cancelled_instance i =
    if member cancelled (transitions agent_instance i.status)
    then record i {
      status = cancelled;
      manual_business_status = none;
      manual_finished = if is_some i.manual_business_status then false else i.manual_finished;
    }
    else i

abbrev pub cancelled_stage : Stage → Stage
cancelled_stage s =
    if member cancelled (transitions Kind.stage s.status) then with_status cancelled s else s

abbrev pub cancelled_plan : Plan → Plan
cancelled_plan plan = record plan {
  instances = map_if (λ _. true) cancelled_instance plan.instances;
  stages = map_if (λ _. true) cancelled_stage plan.stages;
}

-- `_cancel_task` of a task with a plan
unfoldable pub cancel_task : (Plan → Bool) → Saved → Envelope → ℕ → Outcome Saved
cancel_task schema saved envelope now = do
  check_revision saved envelope
  transition main_task saved.plan.task.status cancelled
  persist_aggregate schema saved (set_task cancelled now (cancelled_plan saved.plan))
