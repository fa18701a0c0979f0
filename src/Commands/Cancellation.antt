-- ===== src/Commands/Cancellation.antt =====
-- backend/harness/domain/service.py: `_cancel_task` leaves nothing behind that could be cancelled.
use agentic_design_harness.Common.{
  All, ok, >>=-eq-ok, ok_inj, ℕ, ◌≡◌, refl, ap, subst, Bool, true, false, not, List, [], ◌∷◌,
}
use agentic_design_harness.Status.{
  Status, cancelled, Kind, main_task, agent_instance, status_code, same_status, member, transitions,
  transition,
}
use agentic_design_harness.Model.{Stage, Instance, Plan}
use agentic_design_harness.Commands.{
  Saved, Envelope, map_if, set_task, check_revision, persist_aggregate,
}
use agentic_design_harness.Commands.Tasks.{
  cancelled_instance, cancelled_stage, cancelled_plan, cancel_task,
}
use agentic_design_harness.Topology.{validate_plan}

-- Nothing of a status can be cancelled any more.
abbrev pub is_settled_for : Kind → Status → Bool
is_settled_for kind status = not (member cancelled (transitions kind status))

cancelled-is_settled_for :
    (is_settled_for agent_instance cancelled ≡ true) × (is_settled_for Kind.stage cancelled ≡ true)
unfolding transitions member same_status status_code
cancelled-is_settled_for = (refl, refl)

instances_settled :
    (is : List Instance)
    → All
        (λ (i : Instance). is_settled_for agent_instance i.status ≡ true)
        (map_if (λ _. true) cancelled_instance is)
instances_settled [] = tt
instances_settled (i ∷ is) =
    (one (member cancelled (transitions agent_instance i.status)) refl, instances_settled is)
  where
    one :
        (b : Bool)
        → member cancelled (transitions agent_instance i.status) ≡ b
        → is_settled_for agent_instance (cancelled_instance i).status ≡ true
    one true e = rw e (cancelled-is_settled_for.0)
    one false e = rw e (rw e refl)

stages_settled :
    (ss : List Stage)
    → All
        (λ (s : Stage). is_settled_for Kind.stage s.status ≡ true)
        (map_if (λ _. true) cancelled_stage ss)
stages_settled [] = tt
stages_settled (s ∷ ss) =
    (one (member cancelled (transitions Kind.stage s.status)) refl, stages_settled ss)
  where
    one :
        (b : Bool)
        → member cancelled (transitions Kind.stage s.status) ≡ b
        → is_settled_for Kind.stage (cancelled_stage s).status ≡ true
    one true e = rw e (cancelled-is_settled_for.1)
    one false e = rw e (rw e refl)

-- After a task has been cancelled its status is CANCELLED, and the catalog lets none of its
-- instances and stages be cancelled any more.
pub cancel_task-settles :
    (schema : Plan → Bool) (saved saved' : Saved) (envelope : Envelope) (now : ℕ)
    → cancel_task schema saved envelope now ≡ ok saved'
    → (saved'.plan.task.status ≡ cancelled)
      × All (λ (i : Instance). is_settled_for agent_instance i.status ≡ true) saved'.plan.instances
      × All (λ (s : Stage). is_settled_for Kind.stage s.status ≡ true) saved'.plan.stages
unfolding cancel_task persist_aggregate
cancel_task-settles schema saved saved' envelope now h =
    let (_, _, h1) = >>=-eq-ok (check_revision saved envelope) _ h in
    let (_, _, h2) = >>=-eq-ok (transition main_task saved.plan.task.status cancelled) _ h1 in
    let next = set_task cancelled now (cancelled_plan saved.plan) in
    let (_, _, h3) = >>=-eq-ok (validate_plan schema next) _ h2 in
    let same : next ≡ saved'.plan = ap (λ s. s.plan) (ok_inj h3) in
    subst
      (λ p.
        (p.task.status ≡ cancelled)
        × All (λ (i : Instance). is_settled_for agent_instance i.status ≡ true) p.instances
        × All (λ (s : Stage). is_settled_for Kind.stage s.status ≡ true) p.stages)
      same (refl, instances_settled saved.plan.instances, stages_settled saved.plan.stages)
