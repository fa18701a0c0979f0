-- ===== src/Commands/Instances.antt =====
-- backend/harness/domain/service.py: the commands on one instance.
use Prim.Native.String.{◌++◌ as concat}
use agentic_design_harness.Common.{
  if◌then◌else◌, is_some, elem, Code, Outcome, ◌>>=◌, ◌>>◌, guard, ℕ, String, Bool, true, false,
  ◌&&◌, none, some, [], ◌∷◌, ◌==◌,
}
use agentic_design_harness.Status.{
  Status, failed, succeeded, cancelled, archived, failed_to_start, crashed, superseded, stopped,
  agent_instance, member, transition,
}
use agentic_design_harness.Model.{Instance, Plan, agent_name}
use agentic_design_harness.Aggregate.{is_executing, is_image}
use agentic_design_harness.Commands.{
  Saved, Envelope, change_instances, activate_instance, touch, reaggregate, check_revision,
  require_plan_mutable, get_instance, persist_aggregate,
}

abbrev pub is_human_or_master : Envelope → Bool
is_human_or_master envelope = elem envelope.actor_type ("human" ∷ "master" ∷ [])

-- `instance.pop("manual_business_status", None)`, which reopens the gate of an Image instance.
abbrev pub clear_manual_status : Instance → Instance
clear_manual_status i = record i {
  manual_business_status = none;
  manual_finished =
      if is_some i.manual_business_status && is_image i.agent_type
      then false
      else i.manual_finished;
}

-- The statuses that end a delivery's rejection.
abbrev pub ends_rejection : Status → Bool
ends_rejection status =
    member status
      (succeeded ∷ failed_to_start ∷ failed ∷ crashed ∷ cancelled ∷ superseded ∷ archived ∷ [])

abbrev pub is_stopped : Status → Bool
is_stopped stopped = true
is_stopped _ = false

-- What `_transition_instance` makes of the instance.
unfoldable pub transitioned : Status → ℕ → Instance → Instance
transitioned target now i =
    let moved : Instance = record i { status = target } in
    let cleared = if is_stopped target then moved else clear_manual_status moved in
    let ended : Instance = record cleared {
      delivery_rejection = if ends_rejection target then none else cleared.delivery_rejection;
    } in
    if is_executing target then activate_instance now ended else ended

-- `_transition_instance`
unfoldable pub transition_instance :
    (Plan → Bool) → Saved → String → Status → Envelope → ℕ → Outcome Saved
transition_instance schema saved id target envelope now = do
  check_revision saved envelope
  instance ← get_instance id saved.plan
  transition agent_instance instance.status target
  plan ← reaggregate now (change_instances (id ∷ []) (transitioned target now) saved.plan)
  persist_aggregate schema saved plan

-- A delivery is rejected by the adapter of its agent type.
abbrev pub owns_delivery : Envelope → Instance → Bool
owns_delivery envelope i =
    (envelope.actor_type == "adapter")
    && (envelope.actor_id == concat (agent_name i.agent_type) "_adapter")

abbrev pub rejected_instance : String → Instance → Instance
rejected_instance rejection i = record (clear_manual_status i) {
  status = failed;
  delivery_rejection = some rejection;
}

-- `_reject_instance_delivery`; the rejection is stamped by the service.
unfoldable pub reject_instance_delivery :
    (Plan → Bool) → Saved → String → String → Envelope → ℕ → Outcome Saved
reject_instance_delivery schema saved id rejection envelope now = do
  check_revision saved envelope
  instance ← get_instance id saved.plan
  guard (owns_delivery envelope instance) Code.validation_error
  transition agent_instance instance.status failed
  plan ← reaggregate now (change_instances (id ∷ []) (rejected_instance rejection) saved.plan)
  persist_aggregate schema saved plan

-- `_set_manual_finished`
unfoldable pub set_manual_finished :
    (Plan → Bool) → Saved → String → Bool → Envelope → ℕ → Outcome Saved
set_manual_finished schema saved id finished envelope now = do
  guard (envelope.actor_type == "human") Code.validation_error
  require_plan_mutable saved.plan
  check_revision saved envelope
  instance ← get_instance id saved.plan
  guard (is_image instance.agent_type) Code.validation_error
  persist_aggregate schema saved (
      touch now (
        change_instances (id ∷ [])
          (λ i. record i {
            manual_finished = finished;
            manual_business_status = if finished then some "COMPLETED" else none;
          })
          saved.plan))

-- `_set_manual_business_status`
unfoldable pub set_manual_business_status :
    (Plan → Bool) → Saved → String → String → Envelope → ℕ → Outcome Saved
set_manual_business_status schema saved id status envelope now = do
  guard (elem status ("TODO" ∷ "RUNNING" ∷ "WAITING_APPROVAL" ∷ "COMPLETED" ∷ []))
      Code.validation_error
  guard (is_human_or_master envelope) Code.validation_error
  require_plan_mutable saved.plan
  check_revision saved envelope
  instance ← get_instance id saved.plan
  persist_aggregate schema saved (
      touch now (
        change_instances (id ∷ [])
          (λ i. record i {
            manual_business_status = some status;
            manual_finished =
                if is_image i.agent_type then status == "COMPLETED" else i.manual_finished;
          })
          saved.plan))

-- `_set_approval_mode`
unfoldable pub set_approval_mode :
    (Plan → Bool) → Saved → String → String → Envelope → ℕ → Outcome Saved
set_approval_mode schema saved id mode envelope now = do
  guard (elem mode ("human" ∷ "master" ∷ [])) Code.validation_error
  guard (is_human_or_master envelope) Code.validation_error
  require_plan_mutable saved.plan
  check_revision saved envelope
  instance ← get_instance id saved.plan
  persist_aggregate schema saved
      (touch now (change_instances (id ∷ []) (λ i. record i { approval_mode = mode }) saved.plan))
