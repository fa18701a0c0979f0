-- ===== src/Aggregate.antt =====
-- backend/harness/domain/state_machine.py: the statuses of stages and tasks are functions of the
-- statuses below them. The proofs are in the modules below.
pub mod Work
pub mod Order
pub mod Gate
use agentic_design_harness.Common.{
  if◌then◌else◌, is_some, any, all, is_empty, keep, Outcome, ok, ◌>>=◌, index, Dict, lookup, values,
  String, Bool, true, false, ◌&&◌, ◌||◌, not, List, [], ◌∷◌,
}
use agentic_design_harness.Status.{
  Status, awaiting_start_confirmation, running, waiting_approval, blocked_unavailable, failed,
  succeeded, partial, cancelled, archived, pending, ready, unavailable, skipped, created, starting,
  failed_to_start, crashed,
}
use agentic_design_harness.Model.{AgentType, image, ppt, Lifecycle, Task, Stage, Instance}

abbrev pub is_executing : Status → Bool
is_executing starting = true
is_executing running = true
is_executing _ = false

abbrev pub is_active : Status → Bool
is_active ready = true
is_active starting = true
is_active running = true
is_active _ = false

abbrev pub is_waiting : Status → Bool
is_waiting waiting_approval = true
is_waiting _ = false

abbrev pub is_failed : Status → Bool
is_failed failed_to_start = true
is_failed failed = true
is_failed crashed = true
is_failed _ = false

abbrev pub is_unavailable : Status → Bool
is_unavailable unavailable = true
is_unavailable _ = false

abbrev pub is_succeeded : Status → Bool
is_succeeded succeeded = true
is_succeeded _ = false

abbrev pub is_done : Status → Bool
is_done succeeded = true
is_done archived = true
is_done _ = false

-- `"READY" in statuses or "CREATED" in statuses`
abbrev pub is_startable : Status → Bool
is_startable ready = true
is_startable created = true
is_startable _ = false

abbrev pub is_image : AgentType → Bool
is_image image = true
is_image _ = false

abbrev pub is_ppt : AgentType → Bool
is_ppt ppt = true
is_ppt _ = false

-- `all(stage_by_id[item]["status"] == "SUCCEEDED" for item in ids)`, which stops at the first
-- stage that has not succeeded.
unfoldable pub all_succeeded : Dict Stage → List String → Outcome Bool
all_succeeded stages [] = ok true
all_succeeded stages (id ∷ ids) =
    let rest = all_succeeded stages ids in
    index (lookup id stages) >>= λ s. if is_succeeded s.status then rest else ok false

-- `stage_dependencies_authorized`
unfoldable pub stage_dependencies_authorized : Stage → Dict Stage → Dict Instance → Outcome Bool
unfolding all_succeeded
stage_dependencies_authorized stage stages instances =
    all_succeeded stages stage.depends_on >>= λ succeeded.
    let images = keep (λ (i : Instance). is_image i.agent_type) (values instances) in
    ok (
      if succeeded
      then true
      else if not (is_ppt stage.type) || is_empty stage.depends_on
      then false
      else not (is_empty images) && all (λ (i : Instance). i.manual_finished) images)

-- `[instance_by_id[item] for item in ids]`
unfoldable pub select : Dict Instance → List String → Outcome (List Instance)
select instances [] = ok []
select instances (id ∷ ids) =
    let rest = select instances ids in
    index (lookup id instances) >>= λ i. rest >>= λ is. ok (i ∷ is)

-- Once work below the stage has begun, it does not go back to READY.
abbrev pub is_underway : Status → Bool
is_underway running = true
is_underway waiting_approval = true
is_underway _ = false

-- The part of `aggregate_stage` below the activation test.
unfoldable pub aggregate_members : Stage → List Instance → Status
aggregate_members stage instances =
    let required = keep (λ (i : Instance). i.required) instances in
    if any (λ (i : Instance). is_executing i.status) instances
    then running
    else if any (λ (i : Instance). is_startable i.status) instances
    then (if is_underway stage.status then running else ready)
    else if any (λ (i : Instance). is_waiting i.status) required
    then waiting_approval
    else if any (λ (i : Instance). is_failed i.status) required
    then failed
    else if any (λ (i : Instance). is_unavailable i.status) required
    then unavailable
    else if not (is_empty required) && all (λ (i : Instance). is_done i.status) required
    then succeeded
    else if is_empty required && not stage.required
    then (if any (λ (i : Instance). is_done i.status) instances then succeeded else skipped)
    else stage.status

abbrev pub is_closed : Status → Bool
is_closed skipped = true
is_closed cancelled = true
is_closed _ = false

-- `StateMachine.aggregate_stage`
unfoldable pub aggregate_stage : Stage → Dict Stage → Dict Instance → Outcome Status
unfolding stage_dependencies_authorized select aggregate_members
aggregate_stage stage stages instances =
    let activated = stage.requirement_lifecycle.first_activated_at in
    if is_closed stage.status
    then ok stage.status
    else stage_dependencies_authorized stage stages instances >>= λ authorized.
        if not authorized && not (is_some activated)
        then ok pending
        else select instances stage.instance_ids >>= λ members. ok (aggregate_members stage members)

-- `_is_activated_downgrade`
unfoldable pub is_activated_downgrade : Bool → Lifecycle → Bool
is_activated_downgrade required lifecycle =
    lifecycle.original_required
    && not required
    && is_some lifecycle.first_activated_at
    && is_some lifecycle.authorized_downgrade

-- TASK_TERMINAL
abbrev pub is_terminal : Status → Bool
is_terminal succeeded = true
is_terminal partial = true
is_terminal cancelled = true
is_terminal _ = false

abbrev pub is_archived : Status → Bool
is_archived archived = true
is_archived _ = false

abbrev pub awaits_start : Status → Bool
awaits_start awaiting_start_confirmation = true
awaits_start _ = false

abbrev pub stage_downgraded : Stage → Bool
stage_downgraded s = is_activated_downgrade s.required s.requirement_lifecycle

abbrev pub instance_downgraded : Instance → Bool
instance_downgraded i = is_activated_downgrade i.required i.requirement_lifecycle

-- The part of `aggregate_task` below the early returns on the task's own status.
unfoldable pub aggregate_work : List Stage → List Instance → Status
unfolding is_activated_downgrade
aggregate_work stages instances =
    if any (λ (i : Instance). i.required && is_waiting i.status) instances
    then waiting_approval
    else if any (λ (i : Instance). is_active i.status) instances
    then running
    else if any (λ (i : Instance). i.required && is_failed i.status) instances
    then failed
    else if any (λ (s : Stage). s.required && is_unavailable s.status) stages
    then blocked_unavailable
    else if not
        (all (λ (s : Stage). is_succeeded s.status) (keep (λ (s : Stage). s.required) stages))
    then running
    else if any stage_downgraded stages || any instance_downgraded instances
    then partial
    else succeeded

-- `StateMachine.aggregate_task`
unfoldable pub aggregate_task : Task → List Stage → List Instance → Bool → Status
unfolding aggregate_work
aggregate_task task stages instances preserve_start_confirmation =
    if is_terminal task.status
    then task.status
    else if is_archived task.status
    then task.status
    else if preserve_start_confirmation && awaits_start task.status
    then task.status
    else aggregate_work stages instances
