-- ===== src/Commands/Saving.antt =====
-- backend/harness/domain/service.py: `_save_plan` in its three modes, and `validate_plan_request`.
pub mod Committed
pub mod Landed
pub mod Append
pub mod Merge
pub mod Unknown
use agentic_design_harness.Common.{
  eqb, if◌then◌else◌, is_some, Code, revision_conflict, task_not_found, Outcome, ok, guard, require,
  ◌>>=◌, ◌>>◌, ℕ, ◌+◌, Bool, false, Option, none, some, ◌==◌,
}
use agentic_design_harness.Status.{
  planned, awaiting_start_confirmation, main_task, same_status, transition,
}
use agentic_design_harness.Model.{Task, Plan}
use agentic_design_harness.Aggregate.{aggregate_task}
use agentic_design_harness.Commands.{
  Saved, Envelope, validate_task_reaggregation, activate_current_stages, set_task, touch,
  persist_aggregate,
}
use agentic_design_harness.Commands.Tasks.{
  PlanMode, replaces, appends, merges, guard_plan_save_state,
}
use agentic_design_harness.Commands.Requests.{PlanRequest}
use agentic_design_harness.Commands.Normalization.{
  normalize_plan, normalize_append, normalize_merge,
}

-- What the store holds of a task: the task, its revision, and its plan once one was saved.
pub record Stored : Type 0 where
  pub task : Task
  pub task_revision : ℕ
  pub plan : Option Plan

-- `expected_plan_revision`, where the request has it.
abbrev pub check_plan_revision : Option ℕ → Task → Outcome (Unit {0})
check_plan_revision none task = ok tt
check_plan_revision (some expected) task =
    guard (eqb expected task.plan_revision) Code.revision_conflict

abbrev pub saved_plan_revision : Stored → ℕ
saved_plan_revision stored = stored.task.plan_revision + (if is_some stored.plan then 1 else 0)

-- The normalization that a mode chooses.
unfoldable pub normalize : (Plan → Bool) → Stored → PlanMode → PlanRequest → ℕ → Outcome Plan
unfolding normalize_plan normalize_append normalize_merge
normalize schema stored appends request now = do
  existing ← require stored.plan Code.task_not_found
  normalize_append schema stored.task existing (saved_plan_revision stored) request now
normalize schema stored merges request now = do
  existing ← require stored.plan Code.task_not_found
  normalize_merge schema stored.task existing (saved_plan_revision stored) request now
normalize schema stored replaces request now =
    normalize_plan schema stored.task (saved_plan_revision stored) request now

-- The checks before it.
unfoldable pub admit_plan : Stored → PlanMode → ℕ → Option ℕ → Outcome (Unit {0})
unfolding guard_plan_save_state
admit_plan stored mode expected_revision expected_plan_revision = do
  guard_plan_save_state stored.task.status mode
  guard (eqb expected_revision stored.task_revision) Code.revision_conflict
  check_plan_revision expected_plan_revision stored.task

-- The checks of `validate_plan_request`, which has a copy of them of its own, as of the dispatch on the
-- mode and of the revision that it gives to the plan.
unfoldable pub admit_request : Stored → PlanMode → ℕ → Option ℕ → Outcome (Unit {0})
unfolding guard_plan_save_state
admit_request stored mode expected_revision expected_plan_revision = do
  guard_plan_save_state stored.task.status mode
  guard (eqb expected_revision stored.task_revision) Code.revision_conflict
  elim expected_plan_revision [
    | none ↦ ok tt
    | some expected ↦ guard (eqb expected stored.task.plan_revision) Code.revision_conflict
  ]

unfoldable pub requested_plan_revision : Stored → ℕ
requested_plan_revision stored =
    if is_some stored.plan then stored.task.plan_revision + 1 else stored.task.plan_revision

unfoldable pub normalize_request :
    (Plan → Bool) → Stored → PlanMode → PlanRequest → ℕ → Outcome Plan
unfolding normalize_plan normalize_append normalize_merge requested_plan_revision
normalize_request schema stored appends request now = do
  existing ← require stored.plan Code.task_not_found
  normalize_append schema stored.task existing (requested_plan_revision stored) request now
normalize_request schema stored merges request now = do
  existing ← require stored.plan Code.task_not_found
  normalize_merge schema stored.task existing (requested_plan_revision stored) request now
normalize_request schema stored replaces request now =
    normalize_plan schema stored.task (requested_plan_revision stored) request now

-- `validate_plan_request`
unfoldable pub validate_plan_request :
    (Plan → Bool) → Stored → PlanMode → ℕ → Option ℕ → PlanRequest → ℕ → Outcome (Unit {0})
unfolding admit_request normalize_request
validate_plan_request schema stored mode expected_revision expected_plan_revision request now = do
  admit_request stored mode expected_revision expected_plan_revision
  plan ← normalize_request schema stored mode request now
  ok tt

-- What each mode does with the normalized plan. The status of the task before a merge stays.
unfoldable pub settle_append : ℕ → Plan → Outcome Plan
settle_append now normalized = do
  plan ← activate_current_stages now normalized
  let target = aggregate_task plan.task plan.stages plan.instances false
  if same_status target plan.task.status
      then ok (touch now plan)
      else do transition main_task plan.task.status target; ok (set_task target now plan)

unfoldable pub settle_replace : Task → ℕ → Plan → Outcome Plan
settle_replace task now plan = do
  (if same_status task.status planned then ok tt else transition main_task task.status planned)
  if task.start_policy == "manual"
      then (do
        transition main_task planned awaiting_start_confirmation
        ok (set_task awaiting_start_confirmation now plan))
      else (do
        activated ← activate_current_stages now (set_task planned now plan)
        let target = aggregate_task activated.task activated.stages activated.instances false
        validate_task_reaggregation planned target
        ok (set_task target now activated))

unfoldable pub settle_plan : Stored → PlanMode → ℕ → Plan → Outcome Plan
unfolding settle_append settle_replace
settle_plan stored appends now plan = settle_append now plan
settle_plan stored merges now plan = ok (touch now plan)
settle_plan stored replaces now plan = settle_replace stored.task now plan

-- `_save_plan`
unfoldable pub save_plan :
    (Plan → Bool) → Stored → PlanMode → Envelope → Option ℕ → PlanRequest → ℕ → Outcome Saved
unfolding admit_plan normalize settle_plan
save_plan schema stored mode envelope expected_plan_revision request now = do
  admit_plan stored mode envelope.expected_revision expected_plan_revision
  normalized ← normalize schema stored mode request now
  plan ← settle_plan stored mode now normalized
  persist_aggregate schema (record { plan = plan; task_revision = stored.task_revision }) plan
