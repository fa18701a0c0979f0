-- ===== src/Commands.antt =====
-- backend/harness/domain/service.py: the commands on a saved plan. The parts that several commands
-- share stand here; a command is a function of the plan and its task's revision.
pub mod Instances
pub mod Tasks
pub mod Validity
pub mod Cancellation
pub mod Downgrade
pub mod Requests
pub mod Normalization
pub mod Saving
pub mod WholeTask
pub mod Projections
use agentic_design_harness.Common.{
  ltb, eqb, if◌then◌else◌, is_some, find?, elem, Code, revision_conflict, instance_not_found,
  task_archived, Outcome, ok, ◌>>=◌, ◌>>◌, guard, require, index, Dict, lookup, index_by, ℕ, ◌+◌,
  String, Bool, true, false, ◌&&◌, not, some, List, [], ◌∷◌, ◌==◌,
}
use agentic_design_harness.Status.{
  Status, planned, awaiting_start_confirmation, running, failed, succeeded, pending, ready, skipped,
  Kind, main_task, same_status, transition,
}
use agentic_design_harness.Model.{Lifecycle, Stage, Instance, Plan}
use agentic_design_harness.Aggregate.{
  is_ppt, stage_dependencies_authorized, select, is_closed, aggregate_stage, is_archived,
  aggregate_task,
}
use agentic_design_harness.Topology.{stage_ids, instance_ids, validate_plan}

-- A stored plan with the revision of its task.
pub record Saved : Type 0 where
  pub plan : Plan
  pub task_revision : ℕ

pub record Envelope : Type 0 where
  pub actor_type : String
  pub actor_id : String
  pub expected_revision : ℕ

abbrev pub stage_index : Plan → Dict Stage
stage_index plan = index_by (λ (s : Stage). s.stage_id) plan.stages

abbrev pub instance_index : Plan → Dict Instance
instance_index plan = index_by (λ (i : Instance). i.instance_id) plan.instances

-- `_activate_lifecycle`
unfoldable pub activate_lifecycle : ℕ → Lifecycle → Lifecycle
activate_lifecycle now l = record l {
  first_activated_at = if is_some l.first_activated_at then l.first_activated_at else some now;
}

abbrev pub map_if {ℓ} : {A : Type ℓ} → (A → Bool) → (A → A) → List A → List A
map_if p f [] = []
map_if p f (x ∷ xs) = (if p x then f x else x) ∷ map_if p f xs

-- The change of the stage of an id, and of the instances of some ids. `validate_plan` has made the
-- ids of a stored plan distinct.
abbrev pub change_stage : String → (Stage → Stage) → Plan → Plan
change_stage id f plan = record plan {
  stages = map_if (λ (s : Stage). s.stage_id == id) f plan.stages;
}

abbrev pub change_instances : List String → (Instance → Instance) → Plan → Plan
change_instances ids f plan = record plan {
  instances = map_if (λ (i : Instance). elem i.instance_id ids) f plan.instances;
}

abbrev pub activate_stage : ℕ → Stage → Stage
activate_stage now s = record s {
  requirement_lifecycle = activate_lifecycle now s.requirement_lifecycle;
}

abbrev pub activate_instance : ℕ → Instance → Instance
activate_instance now i = record i {
  requirement_lifecycle = activate_lifecycle now i.requirement_lifecycle;
}

-- A stage and its instances are activated; an instance that is missing is a KeyError.
unfoldable pub activate : ℕ → Stage → Plan → Outcome Plan
activate now stage plan = do
  members ← select (instance_index plan) stage.instance_ids
  ok (
      change_instances stage.instance_ids (activate_instance now)
        (change_stage stage.stage_id (activate_stage now) plan))

-- `_validate_stage_reaggregation`
unfoldable pub validate_stage_reaggregation : Status → Status → Outcome (Unit {0})
validate_stage_reaggregation pending running = do
  transition Kind.stage pending ready
  transition Kind.stage ready running
validate_stage_reaggregation failed succeeded = do
  transition Kind.stage failed running
  transition Kind.stage running succeeded
validate_stage_reaggregation failed skipped = do
  transition Kind.stage failed ready
  transition Kind.stage ready skipped
validate_stage_reaggregation current target = transition Kind.stage current target

-- `_validate_task_reaggregation`
unfoldable pub validate_task_reaggregation : Status → Status → Outcome (Unit {0})
validate_task_reaggregation planned succeeded = do
  transition main_task planned running
  transition main_task running succeeded
validate_task_reaggregation awaiting_start_confirmation succeeded = do
  transition main_task awaiting_start_confirmation running
  transition main_task running succeeded
validate_task_reaggregation current target = transition main_task current target

-- `sorted(plan["stages"], key=position)`, which is stable.
unfoldable pub insert_stage : Stage → List Stage → List Stage
insert_stage s [] = s ∷ []
insert_stage s (t ∷ rest) =
    let later = insert_stage s rest in if ltb t.position s.position then t ∷ later else s ∷ t ∷ rest

unfoldable pub sort_stages : List Stage → List Stage
sort_stages [] = []
sort_stages (s ∷ rest) = insert_stage s (sort_stages rest)

abbrev pub with_status : Status → Stage → Stage
with_status status s = record s { status = status }

-- One round of `_refresh_stages`, at the stage of an id.
unfoldable pub refresh_stage : ℕ → Bool → String → Plan → Outcome Plan
refresh_stage now activate_new id plan = do
  stage ← index (lookup id (stage_index plan))
  target ← aggregate_stage stage (stage_index plan) (instance_index plan)
  dependencies_ready ← stage_dependencies_authorized stage (stage_index plan) (instance_index plan)
  activated ←
      (if activate_new && dependencies_ready && is_ppt stage.type
        then activate now stage plan
        else ok plan)
  (if not (same_status target stage.status) && not (is_closed stage.status)
      then validate_stage_reaggregation stage.status target
      else ok tt)
  ok (change_stage id (with_status target) activated)

unfoldable pub for_stages : (String → Plan → Outcome Plan) → List String → Plan → Outcome Plan
for_stages f [] plan = ok plan
for_stages f (id ∷ ids) plan = f id plan >>= for_stages f ids

-- `_refresh_stages`
unfoldable pub refresh_stages : ℕ → Bool → Plan → Outcome Plan
refresh_stages now activate_new plan =
    for_stages (refresh_stage now activate_new) (stage_ids (sort_stages plan.stages)) plan

-- One round of `_activate_current_stages`.
unfoldable pub activate_current_stage : ℕ → String → Plan → Outcome Plan
activate_current_stage now id plan = do
  stage ← index (lookup id (stage_index plan))
  authorized ← stage_dependencies_authorized stage (stage_index plan) (instance_index plan)
  if not authorized then ok plan else do
    activated ← activate now stage plan
    current ← index (lookup id (stage_index activated))
    target ← aggregate_stage current (stage_index activated) (instance_index activated)
    if same_status target current.status then ok activated else do
      transition Kind.stage current.status target
      ok (change_stage id (with_status target) activated)

-- `_activate_current_stages`
unfoldable pub activate_current_stages : ℕ → Plan → Outcome Plan
activate_current_stages now plan =
    for_stages (activate_current_stage now) (stage_ids (sort_stages plan.stages)) plan

abbrev pub set_task : Status → ℕ → Plan → Plan
set_task status now plan = record plan {
  task = record plan.task { status = status; updated_at = now };
}

abbrev pub touch : ℕ → Plan → Plan
touch now plan = set_task plan.task.status now plan

-- What the commands on instances end with: the statuses above are aggregated again.
unfoldable pub reaggregate : ℕ → Plan → Outcome Plan
reaggregate now plan = do
  refreshed ← refresh_stages now true plan
  let target = aggregate_task refreshed.task refreshed.stages refreshed.instances false
  if same_status target refreshed.task.status
      then ok (touch now refreshed)
      else do transition main_task refreshed.task.status target; ok (set_task target now refreshed)

-- The check that every command makes of the revision it was sent for.
abbrev pub check_revision : Saved → Envelope → Outcome (Unit {0})
check_revision saved envelope =
    guard (eqb envelope.expected_revision saved.task_revision) Code.revision_conflict

-- `_require_plan_mutable`
unfoldable pub require_plan_mutable : Plan → Outcome (Unit {0})
require_plan_mutable plan = guard (not (is_archived plan.task.status)) Code.task_archived

-- The instance of an id, the first one.
abbrev pub get_instance : String → Plan → Outcome Instance
get_instance id plan =
    require (find? (λ (i : Instance). i.instance_id == id) plan.instances) Code.instance_not_found

-- `_persist_aggregate`: the plan is checked, and its commit moves the task to the next revision.
unfoldable pub persist_aggregate : (Plan → Bool) → Saved → Plan → Outcome Saved
persist_aggregate schema saved plan = do
  validate_plan schema plan
  ok (record { plan = plan; task_revision = saved.task_revision + 1 })
