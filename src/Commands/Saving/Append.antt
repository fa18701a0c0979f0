-- ===== src/Commands/Saving/Append.antt =====
-- backend/harness/domain/service.py: what an appended plan keeps of the plan before it.
use agentic_design_harness.Common.{
  Code, ok, require, >>=-eq-ok, ok_inj, if-eq-ok, ℕ, ◌≡◌, sym, ap, ◌∙◌, inl, inr, Bool, false,
  Option, some, List, ◌++◌, map,
}
use agentic_design_harness.Status.{Status, main_task, same_status, transition}
use agentic_design_harness.Model.{Task, Stage, Instance, Card, Plan}
use agentic_design_harness.Aggregate.{aggregate_task}
use agentic_design_harness.Topology.{validate_plan}
use agentic_design_harness.Commands.{Saved, Envelope, activate_current_stages}
use agentic_design_harness.Commands.Tasks.{appends}
use agentic_design_harness.Commands.Requests.{PlanRequest, new_instance, new_card, refresh_new}
use agentic_design_harness.Commands.Saving.{
  Stored, saved_plan_revision, normalize, settle_append, settle_plan, save_plan,
}
use agentic_design_harness.Commands.Saving.Landed.{
  stage_core, instance_core, plan_core, activate_current_stages-core, refresh_new-core,
}
use agentic_design_harness.Commands.Saving.Committed.{save_plan-steps}
use agentic_design_harness.Commands.Normalization.{
  complete_plan, appended_stages, extended_plan, check_append, normalize_append,
}

-- The stages but for their statuses and activations, the instances but for their activations, and the
-- cards.
abbrev pub board : Plan → List Stage × (List Instance × List Card)
board plan = (map stage_core plan.stages, (map instance_core plan.instances, plan.task_cards))

-- Plans of one core have one board.
core_board : (p q : Plan) → plan_core p ≡ plan_core q → board p ≡ board q
core_board p q e = ap (λ (c : Plan). (c.stages, (c.instances, c.task_cards))) e

complete_plan-board :
    (schema : Plan → Bool) (unchecked plan : Plan)
    → complete_plan schema unchecked ≡ ok plan
    → board plan ≡ board unchecked
unfolding complete_plan
complete_plan-board schema unchecked plan h =
    let (p, r, h1) = >>=-eq-ok (refresh_new unchecked) _ h in
    let (_, _, e) = >>=-eq-ok (validate_plan schema p) _ h1 in
    ap board (sym (ok_inj e)) ∙ core_board p unchecked (refresh_new-core unchecked p r)

settle_append-board :
    (now : ℕ) (plan plan' : Plan) → settle_append now plan ≡ ok plan' → board plan' ≡ board plan
unfolding settle_append
settle_append-board now plan plan' h =
    let (active, a, h1) = >>=-eq-ok (activate_current_stages now plan) _ h in
    let same : board active ≡ board plan =
      core_board active plan (activate_current_stages-core now plan active a) in
    let target : Status = aggregate_task active.task active.stages active.instances false in
    elim (if-eq-ok (same_status target active.task.status) _ _ h1) [
      | inl (_, e) ↦ ap board (sym (ok_inj e)) ∙ same
      | inr (_, h2) ↦
          let (_, _, e) = >>=-eq-ok (transition main_task active.task.status target) _ h2 in
          ap board (sym (ok_inj e)) ∙ same
    ]

save_plan-board :
    (schema : Plan → Bool) (stored : Stored) (envelope : Envelope) (expected : Option ℕ)
    (request : PlanRequest) (now : ℕ) (saved : Saved) (existing : Plan)
    → save_plan schema stored appends envelope expected request now ≡ ok saved
    → stored.plan ≡ some existing
    → board saved.plan
      ≡ board (extended_plan stored.task existing (saved_plan_revision stored) request now)
unfolding normalize settle_plan normalize_append
save_plan-board schema stored envelope expected request now saved existing h there =
    let steps = save_plan-steps schema stored appends envelope expected request now saved h in
    let (p, q, h1) = >>=-eq-ok (require stored.plan Code.task_not_found) _ steps.was_normalized in
    let (_, _, h2) = >>=-eq-ok (check_append p request) _ h1 in
    let same : p ≡ existing = ok_inj (sym q ∙ ap (λ o. require o Code.task_not_found) there) in
    settle_append-board now steps.normalized saved.plan steps.was_settled
    ∙ complete_plan-board schema
        (extended_plan stored.task p (saved_plan_revision stored) request now) steps.normalized h2
    ∙ ap
        (λ (e : Plan). board (extended_plan stored.task e (saved_plan_revision stored) request now))
        same

-- The parts of a plan to which the request was appended.
pub record AppendKeeps (existing : Plan) (task : Task) (request : PlanRequest) (now : ℕ)
    (plan : Plan) : Type 0 where
  pub stages_kept :
      map stage_core plan.stages
      ≡ map stage_core (existing.stages ++ appended_stages task existing request)
  pub instances_kept :
      map instance_core plan.instances
      ≡ map instance_core
          (existing.instances ++ map (new_instance task.task_id now) request.instances)
  pub cards_kept :
      plan.task_cards ≡ existing.task_cards ++ map (new_card task.task_id now) request.task_cards

-- Appending to a plan keeps every landed stage, instance and card in its place, and puts those of the
-- request behind them, its stages at the positions after the landed ones; only the statuses of stages,
-- the times of first activation and the task itself may change.
pub save_plan-AppendKeeps :
    (schema : Plan → Bool) (stored : Stored) (envelope : Envelope) (expected : Option ℕ)
    (request : PlanRequest) (now : ℕ) (saved : Saved) (existing : Plan)
    → save_plan schema stored appends envelope expected request now ≡ ok saved
    → stored.plan ≡ some existing
    → AppendKeeps existing stored.task request now saved.plan
save_plan-AppendKeeps schema stored envelope expected request now saved existing h there =
    let same = save_plan-board schema stored envelope expected request now saved existing h there in
    record {
      stages_kept = ap (λ b. b.0) same;
      instances_kept = ap (λ b. b.1.0) same;
      cards_kept = ap (λ b. b.1.1) same;
    }
