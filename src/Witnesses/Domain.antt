-- ===== src/Witnesses/Domain.antt =====
-- The theorems on plans and aggregate statuses at concrete inputs.
use Prim.{∣◌∣₁}
use mathlib.Core.List.{Permᴰ}
use agentic_design_harness.Common.{
  count, Code, ok, err, lookup, insert, index_by, ◌<◌, ◌≡◌, refl, ◌⊎◌, ◌↔◌, true, false, [], ◌∷◌,
  Memᴰ, ◌==◌,
}
use agentic_design_harness.Status.{running, succeeded, partial, pending, created}
use agentic_design_harness.Model.{AgentType, Stage, Card, same_type}
use agentic_design_harness.Aggregate.{all_succeeded, stage_dependencies_authorized, aggregate_task}
use agentic_design_harness.Aggregate.Work.{
  IsComplete, IsFullStrength, aggregate_task-IsComplete, aggregate_task-IsFullStrength,
}
use agentic_design_harness.Aggregate.Order.{aggregate_task-perm}
use agentic_design_harness.Aggregate.Gate.{
  AllSucceeded, HumanGate, stage_dependencies_authorized_iff,
}
use agentic_design_harness.Topology.{
  contiguous, for_each, check_stage, check_dependency, check_dependencies, check_instances,
  check_cards, referenced, validate_plan,
}
use agentic_design_harness.Topology.Stages.{validate_plan-layered}
use agentic_design_harness.Topology.Members.{validate_plan-settles}
use agentic_design_harness.Topology.Coverage.{occurrences, validate_plan-one_card}
use agentic_design_harness.Witnesses.Samples.{
  running_task, image_stage, ppt_stage, image_instance, two_stages, two_instances, sample_plan,
  any_schema,
}

all_delivered : IsComplete (two_stages succeeded) (two_instances succeeded)
all_delivered = record {
  delivered = (refl, (refl, tt));
  idle = (refl, (refl, tt));
  answered = (refl, (refl, tt));
  unbroken = (refl, (refl, tt));
}

aggregate_task-IsComplete_example :
    ((aggregate_task running_task (two_stages succeeded) (two_instances succeeded) false
        ≡ succeeded)
      ⊎ (aggregate_task running_task (two_stages succeeded) (two_instances succeeded) false
          ≡ partial))
    ↔ IsComplete (two_stages succeeded) (two_instances succeeded)
aggregate_task-IsComplete_example =
    aggregate_task-IsComplete running_task (two_stages succeeded) (two_instances succeeded) refl

aggregate_task-IsFullStrength_example :
    (aggregate_task running_task (two_stages succeeded) (two_instances succeeded) false ≡ succeeded)
    ↔ (IsComplete (two_stages succeeded) (two_instances succeeded)
        × IsFullStrength (two_stages succeeded) (two_instances succeeded))
aggregate_task-IsFullStrength_example =
    aggregate_task-IsFullStrength running_task (two_stages succeeded) (two_instances succeeded) refl

aggregate_task-perm_example :
    aggregate_task running_task
      (image_stage running ∷ ppt_stage pending ∷ [])
      (two_instances running)
      true
    ≡ aggregate_task running_task
        (ppt_stage pending ∷ image_stage running ∷ [])
        (two_instances running)
        true
aggregate_task-perm_example =
    aggregate_task-perm running_task true ∣ Permᴰ.swap refl refl ∣₁
      ∣ Permᴰ.cons refl (Permᴰ.cons refl Permᴰ.nil) ∣₁

stage_dependencies_authorized_iff_example :
    (stage_dependencies_authorized
        (ppt_stage pending)
        (("images", image_stage running) ∷ [])
        (("i-1", image_instance running) ∷ [])
      ≡ ok true)
    ↔ (AllSucceeded (("images", image_stage running) ∷ []) ("images" ∷ [])
        ⊎ ((all_succeeded (("images", image_stage running) ∷ []) ("images" ∷ []) ≡ ok false)
            × HumanGate (ppt_stage pending) (("i-1", image_instance running) ∷ [])))
stage_dependencies_authorized_iff_example =
    stage_dependencies_authorized_iff (ppt_stage pending) (("images", image_stage running) ∷ [])
      (("i-1", image_instance running) ∷ [])

accepted : validate_plan any_schema sample_plan ≡ ok tt
unfolding validate_plan contiguous for_each check_stage check_dependencies check_dependency
    check_instances check_cards same_type lookup index_by insert
accepted = refl

validate_plan-layered_example :
    (t : Stage) × Memᴰ t sample_plan.stages
    × (t.stage_id ≡ "images")
    × (t.position < 2)
    × (t.type ≡ AgentType.image)
    × (AgentType.ppt ≡ AgentType.ppt)
validate_plan-layered_example =
    validate_plan-layered any_schema sample_plan (ppt_stage pending) "images" accepted
      (Memᴰ.tail (Memᴰ.head refl)) refl

validate_plan-settles_example :
    (validate_plan any_schema sample_plan ≡ ok tt)
    ⊎ (validate_plan any_schema sample_plan ≡ err Code.validation_error)
validate_plan-settles_example = validate_plan-settles any_schema sample_plan

validate_plan-one_card_example :
    (count (λ (c : Card). "i-1" == c.instance_id) sample_plan.task_cards ≡ 1)
    × (occurrences "i-1" (referenced sample_plan.stages) ≡ 1)
validate_plan-one_card_example =
    validate_plan-one_card any_schema sample_plan (image_instance created) accepted (Memᴰ.head refl)
