-- ===== src/Topology.antt =====
-- backend/harness/domain/plan.py: `validate_plan`. The JSON schema check of the contract registry
-- is an argument.
pub mod Stages
pub mod Members
pub mod Coverage
use agentic_design_harness.Common.{
  eqb, if◌then◌else◌, is_some, take, flat_map, elem, subset, distinct, Code, validation_error,
  Outcome, ok, ◌>>=◌, ◌>>◌, guard, require, index, Dict, lookup, insert, index_by, ℕ, suc, ◌-◌,
  String, Bool, true, false, ◌&&◌, not, List, [], ◌∷◌, map, ◌==◌,
}
use agentic_design_harness.Model.{image, ppt, Stage, Instance, Card, Plan, same_type}

-- `list(range(first, first + n))` against the positions of the stages
unfoldable pub contiguous : ℕ → List Stage → Bool
contiguous first [] = true
contiguous first (s ∷ stages) =
    let rest = contiguous (suc first) stages in if eqb s.position first then rest else false

abbrev pub stage_ids : List Stage → List String
stage_ids = map (λ (s : Stage). s.stage_id)

abbrev pub instance_ids : List Instance → List String
instance_ids = map (λ (i : Instance). i.instance_id)

unfoldable pub for_each {ℓ} : {A : Type ℓ} → (A → Outcome (Unit {0})) → List A → Outcome (Unit {0})
for_each f [] = ok tt
for_each f (x ∷ xs) = let rest = for_each f xs in f x >>= λ _. rest

-- The first loop: a stage belongs to the task and depends on earlier stages.
unfoldable pub check_stage : String → List String → Stage → Outcome (Unit {0})
check_stage task_id ids stage = do
  guard (stage.task_id == task_id) Code.validation_error
  guard (subset stage.depends_on (take (stage.position - 1) ids)) Code.validation_error

-- The second loop: only a PPT stage depends on anything, and only on Image stages.
unfoldable pub check_dependency : Dict Stage → Stage → String → Outcome (Unit {0})
check_dependency stages stage dependency_id = do
  dependency ← index (lookup dependency_id stages)
  guard (same_type dependency.type image && same_type stage.type ppt) Code.validation_error

unfoldable pub check_dependencies : Dict Stage → Stage → Outcome (Unit {0})
check_dependencies stages stage = for_each (check_dependency stages stage) stage.depends_on

-- The third loop; it builds `instance_by_id`.
unfoldable pub check_instances :
    String → Dict Stage → Dict Instance → List Instance → Outcome (Dict Instance)
check_instances task_id stages seen [] = ok seen
check_instances task_id stages seen (i ∷ is) =
    let rest = check_instances task_id stages (insert i.instance_id i seen) is in
    (do
      guard (not (is_some (lookup i.instance_id seen))) Code.validation_error
      stage ← require (lookup i.stage_id stages) Code.validation_error
      guard (i.task_id == task_id) Code.validation_error
      guard (same_type i.agent_type stage.type) Code.validation_error
      rest)

-- The last loop; it builds `card_instances`.
unfoldable pub check_cards :
    String → Dict Instance → List String → List Card → Outcome (List String)
check_cards task_id instances seen [] = ok seen
check_cards task_id instances seen (c ∷ cs) =
    let rest = check_cards task_id instances (c.instance_id ∷ seen) cs in
    (do
      instance ← require (lookup c.instance_id instances) Code.validation_error
      guard (c.task_id == task_id) Code.validation_error
      guard (c.stage_id == instance.stage_id && same_type c.agent_type instance.agent_type)
          Code.validation_error
      guard (not (elem c.instance_id seen)) Code.validation_error
      rest)

abbrev pub referenced : List Stage → List String
referenced stages = flat_map (λ (s : Stage). s.instance_ids) stages

-- `set(xs) == set(ys)`
abbrev pub same_set : List String → List String → Bool
same_set xs ys = subset xs ys && subset ys xs

-- `validate_plan`
unfoldable pub validate_plan : (Plan → Bool) → Plan → Outcome (Unit {0})
validate_plan schema plan = do
  guard (schema plan) Code.validation_error
  let task_id = plan.task.task_id
  let ids = stage_ids plan.stages
  guard (distinct ids && contiguous 1 plan.stages) Code.validation_error
  let stages = index_by (λ (s : Stage). s.stage_id) plan.stages
  for_each (check_stage task_id ids) plan.stages
  for_each (check_dependencies stages) plan.stages
  instances ← check_instances task_id stages [] plan.instances
  guard (distinct (referenced plan.stages)) Code.validation_error
  guard (same_set (referenced plan.stages) (instance_ids plan.instances)) Code.validation_error
  cards ← check_cards task_id instances [] plan.task_cards
  guard (same_set cards (instance_ids plan.instances)) Code.validation_error
