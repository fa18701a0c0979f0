-- ===== src/Witnesses/Samples.antt =====
-- A saved plan of an Image stage and a PPT stage.
use agentic_design_harness.Common.{Bool, true, false, none, List, [], ◌∷◌}
use agentic_design_harness.Status.{Status, running, pending, created}
use agentic_design_harness.Model.{AgentType, Lifecycle, Task, Stage, Instance, Card, Plan}

abbrev pub plain_lifecycle : Lifecycle
plain_lifecycle = record {
  original_required = true;
  first_activated_at = none;
  authorized_downgrade = none;
}

abbrev pub running_task : Task
running_task = record {
  task_id = "task-1";
  title = "deck";
  start_policy = "manual";
  input_manifest = "input";
  status = running;
  created_at = 1;
  updated_at = 2;
  plan_revision = 1;
}

abbrev pub image_stage : Status → Stage
image_stage status = record {
  stage_id = "images";
  task_id = "task-1";
  type = AgentType.image;
  position = 1;
  depends_on = [];
  instance_ids = "i-1" ∷ [];
  required = true;
  requirement_lifecycle = plain_lifecycle;
  status = status;
}

abbrev pub ppt_stage : Status → Stage
ppt_stage status = record {
  stage_id = "slides";
  task_id = "task-1";
  type = AgentType.ppt;
  position = 2;
  depends_on = "images" ∷ [];
  instance_ids = "i-2" ∷ [];
  required = true;
  requirement_lifecycle = plain_lifecycle;
  status = status;
}

abbrev pub image_instance : Status → Instance
image_instance status = record {
  instance_id = "i-1";
  task_id = "task-1";
  stage_id = "images";
  agent_type = AgentType.image;
  required = true;
  requirement_lifecycle = plain_lifecycle;
  status = status;
  manual_finished = true;
  manual_business_status = none;
  approval_mode = "auto";
  delivery_rejection = none;
  created_at = 1;
}

abbrev pub ppt_instance : Status → Instance
ppt_instance status = record {
  instance_id = "i-2";
  task_id = "task-1";
  stage_id = "slides";
  agent_type = AgentType.ppt;
  required = true;
  requirement_lifecycle = plain_lifecycle;
  status = status;
  manual_finished = false;
  manual_business_status = none;
  approval_mode = "auto";
  delivery_rejection = none;
  created_at = 1;
}

abbrev pub image_card : Card
image_card = record {
  card_id = "c-1";
  task_id = "task-1";
  stage_id = "images";
  instance_id = "i-1";
  agent_type = AgentType.image;
  revision = 1;
  created_at = 1;
}

abbrev pub ppt_card : Card
ppt_card = record {
  card_id = "c-2";
  task_id = "task-1";
  stage_id = "slides";
  instance_id = "i-2";
  agent_type = AgentType.ppt;
  revision = 1;
  created_at = 1;
}

abbrev pub two_stages : Status → List Stage
two_stages status = image_stage status ∷ ppt_stage status ∷ []

abbrev pub two_instances : Status → List Instance
two_instances status = image_instance status ∷ ppt_instance status ∷ []

abbrev pub sample_plan : Plan
sample_plan = record {
  task = running_task;
  stages = two_stages pending;
  instances = two_instances created;
  task_cards = image_card ∷ ppt_card ∷ [];
}

abbrev pub any_schema : Plan → Bool
any_schema _ = true
