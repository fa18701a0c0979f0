-- ===== src/Witnesses/Planning.antt =====
-- The theorems on plan saves at concrete inputs: a stage appended to a running plan, a newer card
-- merged into it, and a plan whose first stage depends on an unknown one.
use agentic_design_harness.Common.{
  Outcome, ok, ◌>>◌, lookup, insert, values, index_onto, index_by, ℕ, ◌≡◌, refl, true, false, none,
  some, [], ◌∷◌, map,
}
use agentic_design_harness.Status.{
  running, ready, status_code, same_status, member, transitions, transition,
}
use agentic_design_harness.Model.{AgentType, Stage, Instance, Card, Plan, same_type}
use agentic_design_harness.Aggregate.{
  all_succeeded, stage_dependencies_authorized, select, aggregate_members, aggregate_stage,
  aggregate_work, aggregate_task,
}
use agentic_design_harness.Topology.{
  contiguous, for_each, check_stage, check_dependency, check_dependencies, check_instances,
  check_cards, validate_plan,
}
use agentic_design_harness.Commands.{
  Saved, Envelope, activate_lifecycle, activate, validate_stage_reaggregation, insert_stage,
  sort_stages, for_stages, activate_current_stage, activate_current_stages, persist_aggregate,
}
use agentic_design_harness.Commands.Tasks.{appends, merges, guard_plan_save_state}
use agentic_design_harness.Commands.Requests.{
  RawStage, RawInstance, RawCard, PlanRequest, insert_raw, sort_raw, refresh_new_stages,
}
use agentic_design_harness.Commands.Normalization.{
  complete_plan, counts_from, check_append, normalize_append, check_rewired_instance,
  check_rewired_stage, merge_card, merge_cards, check_merge, normalize_merge,
}
use agentic_design_harness.Commands.Saving.{
  Stored, normalize, admit_plan, validate_plan_request, settle_append, settle_plan, save_plan,
}
use agentic_design_harness.Commands.Saving.Committed.{
  IsSaved, save_plan-IsSaved, save_plan-validate_plan_request,
}
use agentic_design_harness.Commands.Saving.Append.{AppendKeeps, save_plan-AppendKeeps}
use agentic_design_harness.Commands.Saving.Merge.{MergeKeeps, save_plan-MergeKeeps}
use agentic_design_harness.Witnesses.Samples.{
  running_task, image_instance, ppt_instance, sample_plan, any_schema,
}

abbrev from_master : Envelope
from_master = record { actor_type = "master"; actor_id = "planner"; expected_revision = 3 }

abbrev running_stored : Stored
running_stored = record { task = running_task; task_revision = 3; plan = some sample_plan }

abbrev notes_request : PlanRequest
notes_request = record {
  stages =
      record {
        stage_id = "notes";
        type = AgentType.general;
        position = 1;
        depends_on = [];
        instance_ids = "i-3" ∷ [];
        required = false;
      }
      ∷ [];
  instances =
      record {
        instance_id = "i-3";
        stage_id = "notes";
        agent_type = AgentType.general;
        required = false;
        approval_mode = "human";
        manual_business_status = none;
        delivery_rejection = none;
      }
      ∷ [];
  task_cards =
      record {
        card_id = "c-3";
        stage_id = "notes";
        instance_id = "i-3";
        agent_type = AgentType.general;
        revision = 1;
        created_at = none;
      }
      ∷ [];
}

-- The saved plan of an outcome; the plan before it where there is none.
abbrev saved_in : Outcome Saved → Saved
saved_in (ok s) = s
saved_in _ = record { plan = sample_plan; task_revision = 3 }

abbrev appended : Outcome Saved
appended = save_plan any_schema running_stored appends from_master (some 1) notes_request 9

appended_sample : appended ≡ ok (saved_in appended)
unfolding save_plan admit_plan guard_plan_save_state normalize normalize_append check_append
    counts_from complete_plan refresh_new_stages validate_stage_reaggregation settle_plan
    settle_append activate_current_stages activate_current_stage activate activate_lifecycle
    for_stages sort_stages insert_stage sort_raw insert_raw aggregate_task aggregate_work
    aggregate_stage aggregate_members select values stage_dependencies_authorized all_succeeded
    persist_aggregate transition transitions member same_status status_code validate_plan contiguous
    for_each check_stage check_dependencies check_dependency check_instances check_cards same_type
    lookup index_by index_onto insert
appended_sample = refl

save_plan-IsSaved_example : IsSaved any_schema running_stored from_master (saved_in appended)
save_plan-IsSaved_example =
    save_plan-IsSaved any_schema running_stored appends from_master (some 1) notes_request 9
      (saved_in appended) appended_sample

save_plan-validate_plan_request_example :
    (validate_plan_request any_schema running_stored appends 3 (some 1) notes_request 9
      >> save_plan any_schema running_stored appends from_master (some 1) notes_request 9)
    ≡ save_plan any_schema running_stored appends from_master (some 1) notes_request 9
save_plan-validate_plan_request_example =
    save_plan-validate_plan_request any_schema running_stored appends notes_request 9 from_master
      (some 1)

save_plan-AppendKeeps_example :
    AppendKeeps sample_plan running_task notes_request 9 (saved_in appended).plan
save_plan-AppendKeeps_example =
    save_plan-AppendKeeps any_schema running_stored from_master (some 1) notes_request 9
      (saved_in appended) sample_plan appended_sample refl

-- The plan in which the slides still wait to start.
abbrev waiting_plan : Plan
waiting_plan = record sample_plan { instances = image_instance running ∷ ppt_instance ready ∷ [] }

abbrev waiting_stored : Stored
waiting_stored = record { task = running_task; task_revision = 3; plan = some waiting_plan }

abbrev raw_of : Instance → RawInstance
raw_of i = record {
  instance_id = i.instance_id;
  stage_id = i.stage_id;
  agent_type = i.agent_type;
  required = i.required;
  approval_mode = i.approval_mode;
  manual_business_status = none;
  delivery_rejection = none;
}

abbrev raw_stage_of : Stage → RawStage
raw_stage_of s = record {
  stage_id = s.stage_id;
  type = s.type;
  position = s.position;
  depends_on = s.depends_on;
  instance_ids = s.instance_ids;
  required = s.required;
}

abbrev raw_card_of : ℕ → Card → RawCard
raw_card_of revision c = record {
  card_id = c.card_id;
  stage_id = c.stage_id;
  instance_id = c.instance_id;
  agent_type = c.agent_type;
  revision = revision;
  created_at = some 8;
}

abbrev newer_request : PlanRequest
newer_request = record {
  stages = map raw_stage_of sample_plan.stages;
  instances = map raw_of sample_plan.instances;
  task_cards = map (raw_card_of 2) sample_plan.task_cards;
}

abbrev merged : Outcome Saved
merged = save_plan any_schema waiting_stored merges from_master none newer_request 9

merged_sample : merged ≡ ok (saved_in merged)
unfolding save_plan admit_plan guard_plan_save_state normalize normalize_merge check_merge
    check_rewired_instance check_rewired_stage merge_card merge_cards settle_plan values
    persist_aggregate member same_status status_code validate_plan contiguous for_each check_stage
    check_dependencies check_dependency check_instances check_cards same_type lookup index_by
    index_onto insert
merged_sample = refl

save_plan-MergeKeeps_example : MergeKeeps waiting_plan (saved_in merged).plan
save_plan-MergeKeeps_example =
    save_plan-MergeKeeps any_schema waiting_stored from_master none newer_request 9
      (saved_in merged) waiting_plan merged_sample refl

abbrev lost_stage : RawStage
lost_stage = record {
  stage_id = "slides";
  type = AgentType.ppt;
  position = 1;
  depends_on = "nowhere" ∷ [];
  instance_ids = [];
  required = true;
}

abbrev lost_request : PlanRequest
lost_request = record { stages = lost_stage ∷ []; instances = []; task_cards = [] }
