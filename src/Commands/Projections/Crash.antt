-- ===== src/Commands/Projections/Crash.antt =====
-- backend/harness/domain/service.py `_persist_aggregate` and storage/store.py `_reconcile_plan_projections`:
-- a commit that a crash cuts off is completed at the next start.
use agentic_design_harness.Common.{
  if◌then◌else◌, Bool-cases, take, lookup, index_by, ℕ, suc, String, ◌≡◌, refl, sym, ap, subst, inl,
  inr, Bool, true, false, ◌&&◌, Option, none, some,
}
use agentic_design_harness.Model.{Task, Stage, Instance, Plan}
use agentic_design_harness.Commands.Projections.{
  Board, unchanged, stage_key, instance_key, retire, reconcile, apply_writes,
}
use agentic_design_harness.Commands.Projections.Files.{lookup-put_retired, lookup-retired_put}
use agentic_design_harness.Commands.Projections.Writes.{
  writes, apply, writes-take_plan, finished_board, apply-writes,
}

-- The files of a task hold the parts of a plan and no others.
pub record IsProjected (plan : Plan) (board : Board) : Type 0 where
  pub same_plan : board.plan ≡ some plan
  pub same_task : board.task ≡ some plan.task
  pub same_stages : (k : String) → lookup k board.stages ≡ lookup k (index_by stage_key plan.stages)
  pub same_instances :
      (k : String) → lookup k board.instances ≡ lookup k (index_by instance_key plan.instances)

module _ (same_task : Task → Task → Bool) (same_stage : Stage → Stage → Bool)
    (same_instance : Instance → Instance → Bool)
    (task_sound : (a b : Task) → same_task a b ≡ true → a ≡ b)
    (stage_sound : (a b : Stage) → same_stage a b ≡ true → a ≡ b)
    (instance_sound : (a b : Instance) → same_instance a b ≡ true → a ≡ b) where
  kept_task :
      (task : Task) (o : Option Task)
      → (if unchanged same_task task o then o else some task) ≡ some task
  kept_task task none = refl
  kept_task task (some t) = elim (Bool-cases (same_task t task)) [
    | inl e ↦ rw e (ap some (task_sound t task e))
    | inr f ↦ rw f refl
  ]

  reconcile-IsProjected :
      (board : Board) (plan : Plan)
      → board.plan ≡ some plan
      → IsProjected plan (reconcile same_task same_stage same_instance board)
  unfolding reconcile retire
  reconcile-IsProjected board plan e = rw e (record {
    same_plan = refl;
    same_task = kept_task plan.task board.task;
    same_stages =
        λ k. lookup-put_retired same_stage stage_key stage_sound k plan.stages board.stages;
    same_instances = λ k.
        lookup-put_retired same_instance instance_key instance_sound k plan.instances
          board.instances;
  })

  skip_sound :
      {V : Type 0} (same : V → V → Bool) (skip : Bool)
      → ((a b : V) → same a b ≡ true → a ≡ b)
      → (a b : V) → (skip && same a b) ≡ true
      → a ≡ b
  skip_sound same true h a b e = h a b e
  skip_sound same false h a b e = cc

  module _ (skip : Bool) (plan : Plan) (board : Board) where
    finished-IsProjected :
        IsProjected plan (finished_board same_task same_stage same_instance skip plan board)
    finished-IsProjected = record {
      same_plan = refl;
      same_task = refl;
      same_stages = λ k.
          lookup-retired_put (λ a b. skip && same_stage a b) stage_key
            (skip_sound same_stage skip stage_sound) k plan.stages board.stages;
      same_instances = λ k.
          lookup-retired_put (λ a b. skip && same_instance a b) instance_key
            (skip_sound same_instance skip instance_sound) k plan.instances board.instances;
    }

  -- A commit of a plan, whose writes a crash may cut off.
  pub record IsDurable (skip : Bool) (plan : Plan) (board : Board) : Type 0 where
    pub completed : IsProjected plan (
        apply same_task same_stage same_instance
          (writes same_task same_stage same_instance skip plan board)
          board)
    pub recovered :
        (n : ℕ)
        → IsProjected plan (
            reconcile same_task same_stage same_instance (
              apply same_task same_stage same_instance
                (take (suc n) (writes same_task same_stage same_instance skip plan board))
                board))
    pub not_begun :
        (old : Plan)
        → board.plan ≡ some old
        → IsProjected old (
            reconcile same_task same_stage same_instance (
              apply same_task same_stage same_instance
                (take 0 (writes same_task same_stage same_instance skip plan board))
                board))

  -- Whatever files the task had, a commit of a plan leaves exactly the projections of its parts. Where a
  -- crash cuts its writes off, the next start leaves those of the new plan if the plan was written, and
  -- those of the old one if not. The comparisons of stored objects call only equal ones equal.
  pub aggregate_writes-IsDurable :
      (skip : Bool) (plan : Plan) (board : Board) → IsDurable skip plan board
  unfolding apply_writes
  aggregate_writes-IsDurable skip plan board = record {
    completed =
        subst (λ (b : Board). IsProjected plan b)
          (sym (apply-writes same_task same_stage same_instance skip plan board))
          (finished-IsProjected skip plan board);
    recovered = λ n.
        reconcile-IsProjected
          (apply same_task same_stage same_instance
            (take (suc n) (writes same_task same_stage same_instance skip plan board)) board)
          plan (writes-take_plan same_task same_stage same_instance skip plan board n);
    not_begun = λ old e. reconcile-IsProjected board old e;
  }
