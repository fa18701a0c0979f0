-- ===== src/Commands/Projections.antt =====
-- backend/harness/domain/service.py `_persist_aggregate`, and storage/store.py
-- `_reconcile_plan_projections` and `retire_plan_projections`: the files of a task's parts. Each write
-- expects the revision that was read just before it, under the lock of the task; revisions are left out,
-- and the comparisons of stored objects are parameters.
pub mod Files
pub mod Writes
pub mod Crash
use agentic_design_harness.Common.{
  if◌then◌else◌, elem, Dict, lookup, insert, erase, String, Bool, false, ◌&&◌, Option, none, some,
  List, [], ◌∷◌, ◌++◌, map,
}
use agentic_design_harness.Model.{Task, Stage, Instance, Plan}
use agentic_design_harness.Topology.{stage_ids, instance_ids}

-- What the store holds of a task: its plan, and the projections of the plan's parts.
pub record Board : Type 0 where
  pub plan : Option Plan
  pub task : Option Task
  pub stages : Dict Stage
  pub instances : Dict Instance

-- `current is not None and current["payload"] == payload`
abbrev pub unchanged : {V : Type 0} → (V → V → Bool) → V → Option V → Bool
unchanged same x none = false
unchanged same x (some y) = same y x

-- A projection is put unless it is there already.
unfoldable pub put_changed : {V : Type 0} → (V → V → Bool) → (V → String) → V → Dict V → Dict V
put_changed same key x d = if unchanged same x (lookup (key x) d) then d else insert (key x) x d

unfoldable pub put_each : {V : Type 0} → (V → V → Bool) → (V → String) → Dict V → List V → Dict V
unfolding put_changed
put_each same key d [] = d
put_each same key d (x ∷ xs) = put_each same key (put_changed same key x d) xs

-- The projections whose ids are not in the plan.
unfoldable pub absent_ids : {V : Type 0} → List String → Dict V → List String
absent_ids active [] = []
absent_ids active ((k, v) ∷ d) =
    let rest = absent_ids active d in if elem k active then rest else k ∷ rest

unfoldable pub erase_each : {V : Type 0} → Dict V → List String → Dict V
erase_each d [] = d
erase_each d (k ∷ ks) = erase_each (erase k d) ks

abbrev pub stage_key : Stage → String
stage_key s = s.stage_id

abbrev pub instance_key : Instance → String
instance_key i = i.instance_id

module _ (same_task : Task → Task → Bool) (same_stage : Stage → Stage → Bool)
    (same_instance : Instance → Instance → Bool) where
  -- `retire_plan_projections`
  unfoldable pub retire : Plan → Board → Board
  unfolding absent_ids erase_each
  retire plan board = record board {
    stages = erase_each board.stages (absent_ids (stage_ids plan.stages) board.stages);
    instances =
        erase_each board.instances (absent_ids (instance_ids plan.instances) board.instances);
  }

  abbrev pub reconciled : Plan → Board → Board
  reconciled plan board = record board {
    task = if unchanged same_task plan.task board.task then board.task else some plan.task;
    stages = put_each same_stage stage_key board.stages plan.stages;
    instances = put_each same_instance instance_key board.instances plan.instances;
  }

  abbrev pub reconcile_with : Option Plan → Board → Board
  reconcile_with none board = board
  reconcile_with (some plan) board = retire plan (reconciled plan board)

  -- `_reconcile_plan_projections`
  unfoldable pub reconcile : Board → Board
  unfolding retire put_each
  reconcile board = reconcile_with board.plan board

  -- The writes of `_persist_aggregate`, in their order.
  abbrev pub put_plan : Plan → Board → Board
  put_plan plan board = record board { plan = some plan }

  abbrev pub put_task_file : Plan → Board → Board
  put_task_file plan board = record board { task = some plan.task }

  abbrev pub unlink_stage : String → Board → Board
  unlink_stage id board = record board { stages = erase id board.stages }

  abbrev pub unlink_instance : String → Board → Board
  unlink_instance id board = record board { instances = erase id board.instances }

  abbrev pub put_stage : Bool → Stage → Board → Board
  put_stage skip s board = record board {
    stages = put_changed (λ a b. skip && same_stage a b) stage_key s board.stages;
  }

  abbrev pub put_instance : Bool → Instance → Board → Board
  put_instance skip i board = record board {
    instances = put_changed (λ a b. skip && same_instance a b) instance_key i board.instances;
  }

  unfoldable pub aggregate_writes : Bool → Plan → Board → List (Board → Board)
  unfolding put_changed
  aggregate_writes skip plan board =
      put_plan plan
      ∷ (map unlink_stage (absent_ids (stage_ids plan.stages) board.stages)
          ++ (map unlink_instance (absent_ids (instance_ids plan.instances) board.instances)
              ++ (put_task_file plan
                  ∷ (map (put_stage skip) plan.stages ++ map (put_instance skip) plan.instances))))

  unfoldable pub apply_writes : List (Board → Board) → Board → Board
  apply_writes [] board = board
  apply_writes (w ∷ ws) board = apply_writes ws (w board)
