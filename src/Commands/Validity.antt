-- ===== src/Commands/Validity.antt =====
-- backend/harness/domain/service.py: a command that succeeds was sent for the current revision, and
-- what it saves is a valid plan at the next one.
use agentic_design_harness.Common.{
  eqb, elem, Code, Outcome, ok, guard, require, >>=-eq-ok, guard-eq-ok, ok_inj, ℕ, ◌+◌, String, ◌≡◌,
  sym, ap, subst, Bool, true, false, ◌&&◌, [], ◌∷◌, arith, ◌==◌,
}
use agentic_design_harness.Status.{
  Status, failed, cancelled, archived, main_task, agent_instance, transition,
}
use agentic_design_harness.Model.{Plan}
use agentic_design_harness.Aggregate.{is_image, awaits_start, aggregate_task}
use agentic_design_harness.Topology.{validate_plan}
use agentic_design_harness.Commands.{
  Saved, Envelope, change_instances, validate_task_reaggregation, activate_current_stages,
  reaggregate, check_revision, require_plan_mutable, get_instance, persist_aggregate,
}
use agentic_design_harness.Commands.Instances.{
  is_human_or_master, transitioned, transition_instance, owns_delivery, rejected_instance,
  reject_instance_delivery, set_manual_finished, set_manual_business_status, set_approval_mode,
}
use agentic_design_harness.Commands.Tasks.{confirm_start, archive_task, cancel_task}
use agentic_design_harness.Commands.Downgrade.{downgrade, downgrade_instance}

-- The commands on a saved plan.
pub data Runs (schema : Plan → Bool) (saved : Saved) (envelope : Envelope)
    : Outcome Saved → Type 0 where
  transitions_instance :
      (id : String) (target : Status) (now : ℕ)
      → Runs schema saved envelope (transition_instance schema saved id target envelope now)
  rejects_delivery :
      (id rejection : String) (now : ℕ)
      → Runs schema saved envelope (reject_instance_delivery schema saved id rejection envelope now)
  sets_finished :
      (id : String) (finished : Bool) (now : ℕ)
      → Runs schema saved envelope (set_manual_finished schema saved id finished envelope now)
  sets_business_status :
      (id status : String) (now : ℕ)
      → Runs schema saved envelope (set_manual_business_status schema saved id status envelope now)
  sets_approval_mode :
      (id mode : String) (now : ℕ)
      → Runs schema saved envelope (set_approval_mode schema saved id mode envelope now)
  downgrades :
      (id reason authorization_id : String) (now : ℕ)
      → Runs schema saved envelope
          (downgrade_instance schema saved id reason authorization_id envelope now)
  confirms_start : (now : ℕ) → Runs schema saved envelope (confirm_start schema saved envelope now)
  archives : (now : ℕ) → Runs schema saved envelope (archive_task schema saved envelope now)
  cancels : (now : ℕ) → Runs schema saved envelope (cancel_task schema saved envelope now)

-- A command was current, and its result is a valid plan at the next revision.
pub record IsCommitted (schema : Plan → Bool) (saved : Saved) (envelope : Envelope) (saved' : Saved)
    : Type 0 where
  pub was_current : envelope.expected_revision ≡ saved.task_revision
  pub is_next : saved'.task_revision ≡ saved.task_revision + 1
  pub is_valid : validate_plan schema saved'.plan ≡ ok tt

pub persisted :
    (schema : Plan → Bool) (saved saved' : Saved) (envelope : Envelope) (plan : Plan)
    → eqb envelope.expected_revision saved.task_revision ≡ true
    → persist_aggregate schema saved plan ≡ ok saved'
    → IsCommitted schema saved envelope saved'
unfolding persist_aggregate
persisted schema saved saved' envelope plan c h =
    let (_, v, e) = >>=-eq-ok (validate_plan schema plan) _ h in
    record {
      was_current = ground (arith, c);
      is_next = sym (ap (λ s. s.task_revision) (ok_inj e));
      is_valid = subst (λ p. validate_plan schema p ≡ ok tt) (ap (λ s. s.plan) (ok_inj e)) v;
    }

module _ (schema : Plan → Bool) (saved saved' : Saved) (envelope : Envelope) where
  transition_instance-IsCommitted :
      (id : String) (target : Status) (now : ℕ)
      → transition_instance schema saved id target envelope now ≡ ok saved'
      → IsCommitted schema saved envelope saved'
  unfolding transition_instance
  transition_instance-IsCommitted id target now h =
      let (_, c, h1) = >>=-eq-ok (check_revision saved envelope) _ h in
      let (i, _, h2) = >>=-eq-ok (get_instance id saved.plan) _ h1 in
      let (_, _, h3) = >>=-eq-ok (transition agent_instance i.status target) _ h2 in
      let (plan, _, h4) =
        >>=-eq-ok
          (reaggregate now (change_instances (id ∷ []) (transitioned target now) saved.plan)) _
          h3 in
      persisted schema saved saved' envelope plan (guard-eq-ok _ _ c) h4

  reject_instance_delivery-IsCommitted :
      (id rejection : String) (now : ℕ)
      → reject_instance_delivery schema saved id rejection envelope now ≡ ok saved'
      → IsCommitted schema saved envelope saved'
  unfolding reject_instance_delivery
  reject_instance_delivery-IsCommitted id rejection now h =
      let (_, c, h1) = >>=-eq-ok (check_revision saved envelope) _ h in
      let (i, _, h2) = >>=-eq-ok (get_instance id saved.plan) _ h1 in
      let (_, _, h3) = >>=-eq-ok (guard (owns_delivery envelope i) Code.validation_error) _ h2 in
      let (_, _, h4) = >>=-eq-ok (transition agent_instance i.status failed) _ h3 in
      let (plan, _, h5) =
        >>=-eq-ok
          (reaggregate now (change_instances (id ∷ []) (rejected_instance rejection) saved.plan)) _
          h4 in
      persisted schema saved saved' envelope plan (guard-eq-ok _ _ c) h5

  set_manual_finished-IsCommitted :
      (id : String) (finished : Bool) (now : ℕ)
      → set_manual_finished schema saved id finished envelope now ≡ ok saved'
      → IsCommitted schema saved envelope saved'
  unfolding set_manual_finished
  set_manual_finished-IsCommitted id finished now h =
      let (_, _, h1) =
        >>=-eq-ok (guard (envelope.actor_type == "human") Code.validation_error) _ h in
      let (_, _, h2) = >>=-eq-ok (require_plan_mutable saved.plan) _ h1 in
      let (_, c, h3) = >>=-eq-ok (check_revision saved envelope) _ h2 in
      let (i, _, h4) = >>=-eq-ok (get_instance id saved.plan) _ h3 in
      let (_, _, h5) = >>=-eq-ok (guard (is_image i.agent_type) Code.validation_error) _ h4 in
      persisted schema saved saved' envelope _ (guard-eq-ok _ _ c) h5

  set_manual_business_status-IsCommitted :
      (id status : String) (now : ℕ)
      → set_manual_business_status schema saved id status envelope now ≡ ok saved'
      → IsCommitted schema saved envelope saved'
  unfolding set_manual_business_status
  set_manual_business_status-IsCommitted id status now h =
      let (_, _, h0) =
        >>=-eq-ok
          (guard (elem status ("TODO" ∷ "RUNNING" ∷ "WAITING_APPROVAL" ∷ "COMPLETED" ∷ []))
            Code.validation_error)
          _ h in
      let (_, _, h1) = >>=-eq-ok (guard (is_human_or_master envelope) Code.validation_error) _ h0 in
      let (_, _, h2) = >>=-eq-ok (require_plan_mutable saved.plan) _ h1 in
      let (_, c, h3) = >>=-eq-ok (check_revision saved envelope) _ h2 in
      let (i, _, h4) = >>=-eq-ok (get_instance id saved.plan) _ h3 in
      persisted schema saved saved' envelope _ (guard-eq-ok _ _ c) h4

  set_approval_mode-IsCommitted :
      (id mode : String) (now : ℕ)
      → set_approval_mode schema saved id mode envelope now ≡ ok saved'
      → IsCommitted schema saved envelope saved'
  unfolding set_approval_mode
  set_approval_mode-IsCommitted id mode now h =
      let (_, _, h0) =
        >>=-eq-ok (guard (elem mode ("human" ∷ "master" ∷ [])) Code.validation_error) _ h in
      let (_, _, h1) = >>=-eq-ok (guard (is_human_or_master envelope) Code.validation_error) _ h0 in
      let (_, _, h2) = >>=-eq-ok (require_plan_mutable saved.plan) _ h1 in
      let (_, c, h3) = >>=-eq-ok (check_revision saved envelope) _ h2 in
      let (i, _, h4) = >>=-eq-ok (get_instance id saved.plan) _ h3 in
      persisted schema saved saved' envelope _ (guard-eq-ok _ _ c) h4

  confirm_start-IsCommitted :
      (now : ℕ)
      → confirm_start schema saved envelope now ≡ ok saved'
      → IsCommitted schema saved envelope saved'
  unfolding confirm_start
  confirm_start-IsCommitted now h =
      let (_, c, h1) = >>=-eq-ok (check_revision saved envelope) _ h in
      let (_, _, h2) =
        >>=-eq-ok (guard (awaits_start saved.plan.task.status) Code.invalid_state_transition) _
          h1 in
      let (plan, _, h3) = >>=-eq-ok (activate_current_stages now saved.plan) _ h2 in
      let (_, _, h4) =
        >>=-eq-ok
          (validate_task_reaggregation plan.task.status
            (aggregate_task plan.task plan.stages plan.instances false))
          _ h3 in
      persisted schema saved saved' envelope _ (guard-eq-ok _ _ c) h4

  archive_task-IsCommitted :
      (now : ℕ)
      → archive_task schema saved envelope now ≡ ok saved'
      → IsCommitted schema saved envelope saved'
  unfolding archive_task
  archive_task-IsCommitted now h =
      let (_, c, h1) = >>=-eq-ok (check_revision saved envelope) _ h in
      let (_, _, h2) = >>=-eq-ok (transition main_task saved.plan.task.status archived) _ h1 in
      persisted schema saved saved' envelope _ (guard-eq-ok _ _ c) h2

  cancel_task-IsCommitted :
      (now : ℕ)
      → cancel_task schema saved envelope now ≡ ok saved'
      → IsCommitted schema saved envelope saved'
  unfolding cancel_task
  cancel_task-IsCommitted now h =
      let (_, c, h1) = >>=-eq-ok (check_revision saved envelope) _ h in
      let (_, _, h2) = >>=-eq-ok (transition main_task saved.plan.task.status cancelled) _ h1 in
      persisted schema saved saved' envelope _ (guard-eq-ok _ _ c) h2

  downgrade_instance-IsCommitted :
      (id reason authorization_id : String) (now : ℕ)
      → downgrade_instance schema saved id reason authorization_id envelope now ≡ ok saved'
      → IsCommitted schema saved envelope saved'
  unfolding downgrade_instance
  downgrade_instance-IsCommitted id reason authorization_id now h =
      let (_, who, h1) =
        >>=-eq-ok (guard (is_human_or_master envelope) Code.validation_error) _ h in
      let (_, _, h2) = >>=-eq-ok (require_plan_mutable saved.plan) _ h1 in
      let (_, c, h3) = >>=-eq-ok (check_revision saved envelope) _ h2 in
      let (i, _, h4) = >>=-eq-ok (get_instance id saved.plan) _ h3 in
      let (_, _, h5) =
        >>=-eq-ok
          (guard (i.required && i.requirement_lifecycle.original_required)
            Code.invalid_state_transition)
          _ h4 in
      let (at, _, h6) =
        >>=-eq-ok (require i.requirement_lifecycle.first_activated_at Code.invalid_state_transition)
          _ h5 in
      let (changed, _, h7) = >>=-eq-ok (downgrade i at _ saved.plan) _ h6 in
      let (plan, _, h8) = >>=-eq-ok (reaggregate now changed) _ h7 in
      persisted schema saved saved' envelope plan (guard-eq-ok _ _ c) h8

-- Whatever command on a saved plan succeeds was sent for the current revision of the task, and the
-- plan that it saves passes `validate_plan` and stands at the next revision.
pub Runs-IsCommitted :
    (schema : Plan → Bool) (saved saved' : Saved) (envelope : Envelope) (result : Outcome Saved)
    → Runs schema saved envelope result
    → result ≡ ok saved'
    → IsCommitted schema saved envelope saved'
Runs-IsCommitted schema saved saved' envelope result (transitions_instance id target now) h =
    transition_instance-IsCommitted schema saved saved' envelope id target now h
Runs-IsCommitted schema saved saved' envelope result (rejects_delivery id rejection now) h =
    reject_instance_delivery-IsCommitted schema saved saved' envelope id rejection now h
Runs-IsCommitted schema saved saved' envelope result (sets_finished id finished now) h =
    set_manual_finished-IsCommitted schema saved saved' envelope id finished now h
Runs-IsCommitted schema saved saved' envelope result (sets_business_status id status now) h =
    set_manual_business_status-IsCommitted schema saved saved' envelope id status now h
Runs-IsCommitted schema saved saved' envelope result (sets_approval_mode id mode now) h =
    set_approval_mode-IsCommitted schema saved saved' envelope id mode now h
Runs-IsCommitted schema saved saved' envelope result (confirms_start now) h =
    confirm_start-IsCommitted schema saved saved' envelope now h
Runs-IsCommitted schema saved saved' envelope result (archives now) h =
    archive_task-IsCommitted schema saved saved' envelope now h
Runs-IsCommitted schema saved saved' envelope result (cancels now) h =
    cancel_task-IsCommitted schema saved saved' envelope now h
Runs-IsCommitted schema saved saved' envelope result (downgrades id reason authorization_id now) h =
    downgrade_instance-IsCommitted schema saved saved' envelope id reason authorization_id now h
