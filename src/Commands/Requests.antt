-- ===== src/Commands/Requests.antt =====
-- backend/harness/domain/service.py: the stages, instances and cards of a request to save a plan, and
-- the records that a new plan makes of them.
use agentic_design_harness.Common.{
  ltb, if◌then◌else◌, Outcome, ok, ◌>>=◌, ◌>>◌, Dict, index_by, ℕ, String, Bool, true, false, ◌&&◌,
  not, Option, none, List, [], ◌∷◌, ◌++◌,
}
use agentic_design_harness.Status.{pending, ready, unavailable, same_status}
use agentic_design_harness.Model.{AgentType, master, Lifecycle, Stage, Instance, Card, Plan}
use agentic_design_harness.Aggregate.{stage_dependencies_authorized, is_closed, aggregate_stage}
use agentic_design_harness.Commands.{instance_index, validate_stage_reaggregation, with_status}

pub record RawStage : Type 0 where
  pub stage_id : String
  pub type : AgentType
  pub position : ℕ
  pub depends_on : List String
  pub instance_ids : List String
  pub required : Bool

-- The fields that are carried over as they are stand last.
pub record RawInstance : Type 0 where
  pub instance_id : String
  pub stage_id : String
  pub agent_type : AgentType
  pub required : Bool
  pub approval_mode : String
  pub manual_business_status : Option String
  pub delivery_rejection : Option String

pub record RawCard : Type 0 where
  pub card_id : String
  pub stage_id : String
  pub instance_id : String
  pub agent_type : AgentType
  pub revision : ℕ
  pub created_at : Option ℕ

pub record PlanRequest : Type 0 where
  pub stages : List RawStage
  pub instances : List RawInstance
  pub task_cards : List RawCard

-- `sorted(stages, key=position)`, which is stable.
unfoldable pub insert_raw : RawStage → List RawStage → List RawStage
insert_raw s [] = s ∷ []
insert_raw s (t ∷ rest) =
    let later = insert_raw s rest in if ltb t.position s.position then t ∷ later else s ∷ t ∷ rest

unfoldable pub sort_raw : List RawStage → List RawStage
unfolding insert_raw
sort_raw [] = []
sort_raw (s ∷ rest) = insert_raw s (sort_raw rest)

abbrev pub new_lifecycle : Bool → Lifecycle
new_lifecycle required = record {
  original_required = required;
  first_activated_at = none;
  authorized_downgrade = none;
}

-- A new stage at a position.
abbrev pub new_stage : String → ℕ → RawStage → Stage
new_stage task_id position raw = record {
  stage_id = raw.stage_id;
  task_id = task_id;
  type = raw.type;
  position = position;
  depends_on = raw.depends_on;
  instance_ids = raw.instance_ids;
  required = raw.required;
  requirement_lifecycle = new_lifecycle raw.required;
  status = pending;
}

-- `raw["agent_type"] in {"general", "image", "ppt"}`
abbrev pub is_runnable : AgentType → Bool
is_runnable master = false
is_runnable _ = true

abbrev pub new_instance : String → ℕ → RawInstance → Instance
new_instance task_id now raw = record {
  instance_id = raw.instance_id;
  task_id = task_id;
  stage_id = raw.stage_id;
  agent_type = raw.agent_type;
  required = raw.required;
  requirement_lifecycle = new_lifecycle raw.required;
  status = if is_runnable raw.agent_type then ready else unavailable;
  manual_finished = false;
  manual_business_status = raw.manual_business_status;
  approval_mode = raw.approval_mode;
  delivery_rejection = raw.delivery_rejection;
  created_at = now;
}

abbrev pub new_card : String → ℕ → RawCard → Card
new_card task_id created_at raw = record {
  card_id = raw.card_id;
  task_id = task_id;
  stage_id = raw.stage_id;
  instance_id = raw.instance_id;
  agent_type = raw.agent_type;
  revision = raw.revision;
  created_at = created_at;
}

-- `_refresh_stages` with `activate_new=False`, which changes statuses of stages and nothing else, on
-- the stages of a plan that is being put together: those before the current one, and from it on. Their
-- ids may still repeat, and they are in the order of their positions, so that sorting changes nothing.
unfoldable pub refresh_new_stages : Dict Instance → List Stage → List Stage → Outcome (List Stage)
refresh_new_stages instances before [] = ok before
refresh_new_stages instances before (stage ∷ after) = do
  let stages = index_by (λ (s : Stage). s.stage_id) (before ++ stage ∷ after)
  target ← aggregate_stage stage stages instances
  dependencies_ready ← stage_dependencies_authorized stage stages instances
  (if not (same_status target stage.status) && not (is_closed stage.status)
      then validate_stage_reaggregation stage.status target
      else ok tt)
  refresh_new_stages instances (before ++ with_status target stage ∷ []) after

abbrev pub refresh_new : Plan → Outcome Plan
refresh_new plan = do
  stages ← refresh_new_stages (instance_index plan) [] plan.stages
  ok (record plan { stages = stages })
