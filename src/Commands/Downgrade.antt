-- ===== src/Commands/Downgrade.antt =====
-- backend/harness/domain/service.py: `_downgrade_instance`, by which a person or the Master gives up
-- an instance that was required.
use agentic_design_harness.Common.{
  if◌then◌else◌, any, find?, Code, stop_iteration, Outcome, ok, fault, guard, require, ◌>>=◌, ◌>>◌,
  ℕ, ◌+◌, max, String, Bool, false, ◌&&◌, none, some, [], ◌∷◌, ◌==◌,
}
use agentic_design_harness.Model.{Authorization, Stage, Instance, Plan}
use agentic_design_harness.Commands.{
  Saved, Envelope, activate_lifecycle, change_stage, change_instances, reaggregate, check_revision,
  require_plan_mutable, get_instance, persist_aggregate,
}
use agentic_design_harness.Commands.Instances.{is_human_or_master}

abbrev pub downgraded_instance : Authorization → Instance → Instance
downgraded_instance a i = record i {
  required = false;
  requirement_lifecycle = record i.requirement_lifecycle { authorized_downgrade = some a };
}

-- A stage that has no required instance left is downgraded with it.
abbrev pub downgraded_stage : ℕ → Authorization → Stage → Stage
downgraded_stage at a s = record s {
  required = false;
  requirement_lifecycle = record (activate_lifecycle at s.requirement_lifecycle) {
    authorized_downgrade = some a;
  };
}

abbrev pub has_required : String → Plan → Bool
has_required stage_id plan =
    any (λ (i : Instance). (i.stage_id == stage_id) && i.required) plan.instances

abbrev pub set_plan_revision : ℕ → Plan → Plan
set_plan_revision n plan = record plan { task = record plan.task { plan_revision = n } }

abbrev pub next_plan_revision : Plan → ℕ
next_plan_revision plan = max 2 (plan.task.plan_revision + 1)

-- The plan with the instance downgraded, before the statuses are aggregated.
unfoldable pub downgrade : Instance → ℕ → Authorization → Plan → Outcome Plan
downgrade instance at a plan = do
  let without = change_instances (instance.instance_id ∷ []) (downgraded_instance a) plan
  stage ←
      (elim (find? (λ (s : Stage). s.stage_id == instance.stage_id) plan.stages)
        as (λ _. Outcome Stage) [ none ↦ fault stop_iteration | some s ↦ ok s ])
  ok (
      set_plan_revision (next_plan_revision plan) (
        if has_required stage.stage_id without
        then without
        else change_stage stage.stage_id (downgraded_stage at a) without))

-- `_downgrade_instance`; the id of the authorization is an argument.
unfoldable pub downgrade_instance :
    (Plan → Bool) → Saved → String → String → String → Envelope → ℕ → Outcome Saved
downgrade_instance schema saved id reason authorization_id envelope now = do
  guard (is_human_or_master envelope) Code.validation_error
  require_plan_mutable saved.plan
  check_revision saved envelope
  instance ← get_instance id saved.plan
  guard (instance.required && instance.requirement_lifecycle.original_required)
      Code.invalid_state_transition
  at ← require instance.requirement_lifecycle.first_activated_at Code.invalid_state_transition
  let a : Authorization = record {
    authorization_id = authorization_id;
    authorized_at = now;
    authorized_by_type = envelope.actor_type;
    authorized_by_id = envelope.actor_id;
    plan_revision = next_plan_revision saved.plan;
    reason = reason;
  }
  changed ← downgrade instance at a saved.plan
  plan ← reaggregate now changed
  persist_aggregate schema saved plan
