-- ===== src/Witnesses/Saving.antt =====
-- The theorems on the commands of a saved plan at concrete inputs.
use agentic_design_harness.Common.{All, ok, lookup, insert, index_by, ◌≡◌, refl, true}
use agentic_design_harness.Status.{
  cancelled, Kind, agent_instance, status_code, same_status, member, transitions, transition,
}
use agentic_design_harness.Model.{Stage, Instance, same_type}
use agentic_design_harness.Topology.{
  contiguous, for_each, check_stage, check_dependency, check_dependencies, check_instances,
  check_cards, validate_plan,
}
use agentic_design_harness.Commands.{Saved, Envelope, set_task, persist_aggregate}
use agentic_design_harness.Commands.Tasks.{cancelled_plan, cancel_task}
use agentic_design_harness.Commands.Validity.{cancels, IsCommitted, Runs-IsCommitted}
use agentic_design_harness.Commands.Cancellation.{is_settled_for, cancel_task-settles}
use agentic_design_harness.Witnesses.Samples.{sample_plan, any_schema}

abbrev saved_sample : Saved
saved_sample = record { plan = sample_plan; task_revision = 3 }

abbrev from_human : Envelope
from_human = record { actor_type = "human"; actor_id = "operator"; expected_revision = 3 }

abbrev saved_cancelled : Saved
saved_cancelled = record {
  plan = set_task cancelled 9 (cancelled_plan sample_plan);
  task_revision = 4;
}

cancelled_sample : cancel_task any_schema saved_sample from_human 9 ≡ ok saved_cancelled
unfolding cancel_task persist_aggregate transition transitions member same_status status_code
    validate_plan contiguous for_each check_stage check_dependencies check_dependency
    check_instances check_cards same_type lookup index_by insert
cancelled_sample = refl

cancel_task-settles_example :
    (saved_cancelled.plan.task.status ≡ cancelled)
    × All
        (λ (i : Instance). is_settled_for agent_instance i.status ≡ true)
        saved_cancelled.plan.instances
    × All (λ (s : Stage). is_settled_for Kind.stage s.status ≡ true) saved_cancelled.plan.stages
cancel_task-settles_example =
    cancel_task-settles any_schema saved_sample saved_cancelled from_human 9 cancelled_sample

Runs-IsCommitted_example : IsCommitted any_schema saved_sample from_human saved_cancelled
Runs-IsCommitted_example =
    Runs-IsCommitted any_schema saved_sample saved_cancelled from_human
      (cancel_task any_schema saved_sample from_human 9) (cancels 9) cancelled_sample
