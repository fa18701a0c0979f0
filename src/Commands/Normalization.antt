-- ===== src/Commands/Normalization.antt =====
-- backend/harness/domain/service.py: the plan that a request makes in each mode, `_normalize_plan`,
-- `_normalize_append` and `_normalize_merge`.
use agentic_design_harness.Common.{
  ltb, eqb, if◌then◌else◌, length, elem, Code, Outcome, ok, guard, index, ◌>>=◌, ◌>>◌, Dict, lookup,
  values, index_by, ℕ, suc, ◌+◌, String, Bool, true, false, ◌&&◌, not, Option, none, some, List, [],
  ◌∷◌, ◌++◌, map, ◌==◌,
}
use agentic_design_harness.Status.{Status, planned, ready, unavailable, member}
use agentic_design_harness.Model.{Task, Stage, Instance, Card, Plan, same_type}
use agentic_design_harness.Topology.{stage_ids, instance_ids, for_each, same_set, validate_plan}
use agentic_design_harness.Commands.{stage_index, instance_index}
use agentic_design_harness.Commands.Requests.{
  RawStage, RawInstance, RawCard, PlanRequest, sort_raw, new_stage, new_instance, new_card,
  refresh_new_stages, refresh_new,
}

-- The end of `_normalize_plan` and of `_normalize_append`.
unfoldable pub complete_plan : (Plan → Bool) → Plan → Outcome Plan
unfolding refresh_new_stages
complete_plan schema unchecked = do plan ← refresh_new unchecked; validate_plan schema plan; ok plan

-- `_normalize_plan`
abbrev pub fresh_stage : String → RawStage → Stage
fresh_stage task_id s = new_stage task_id s.position s

abbrev pub fresh_plan : Task → ℕ → PlanRequest → ℕ → Plan
fresh_plan task plan_revision request now = record {
  task = record task { status = planned; plan_revision = plan_revision; updated_at = now };
  stages = map (fresh_stage task.task_id) (sort_raw request.stages);
  instances = map (new_instance task.task_id now) request.instances;
  task_cards = map (new_card task.task_id now) request.task_cards;
}

unfoldable pub normalize_plan : (Plan → Bool) → Task → ℕ → PlanRequest → ℕ → Outcome Plan
unfolding complete_plan
normalize_plan schema task plan_revision request now =
    complete_plan schema (fresh_plan task plan_revision request now)

-- `list(range(1, n + 1))` against the positions of the batch
unfoldable pub counts_from : ℕ → List ℕ → Bool
counts_from n [] = true
counts_from n (p ∷ ps) = let rest = counts_from (suc n) ps in if eqb p n then rest else false

abbrev pub card_ids : List Card → List String
card_ids = map (λ (c : Card). c.card_id)

abbrev pub appended_stage : String → ℕ → RawStage → Stage
appended_stage task_id offset s = new_stage task_id (offset + s.position) s

abbrev pub appended_stages : Task → Plan → PlanRequest → List Stage
appended_stages task plan request =
    map (appended_stage task.task_id (length plan.stages)) (sort_raw request.stages)

abbrev pub none_landed : List String → List String → Outcome (Unit {0})
none_landed landed ids = for_each (λ id. guard (not (elem id landed)) Code.validation_error) ids

-- `_normalize_append`
abbrev pub extended_plan : Task → Plan → ℕ → PlanRequest → ℕ → Plan
extended_plan task existing plan_revision request now = record {
  task = record task { plan_revision = plan_revision; updated_at = now };
  stages = existing.stages ++ appended_stages task existing request;
  instances = existing.instances ++ map (new_instance task.task_id now) request.instances;
  task_cards = existing.task_cards ++ map (new_card task.task_id now) request.task_cards;
}

unfoldable pub check_append : Plan → PlanRequest → Outcome (Unit {0})
check_append existing request = do
  none_landed (stage_ids existing.stages) (map (λ (s : RawStage). s.stage_id) request.stages)
  none_landed (instance_ids existing.instances)
      (map (λ (i : RawInstance). i.instance_id) request.instances)
  none_landed (card_ids existing.task_cards) (map (λ (c : RawCard). c.card_id) request.task_cards)
  guard (counts_from 1 (map (λ (s : RawStage). s.position) (sort_raw request.stages)))
      Code.validation_error

unfoldable pub normalize_append : (Plan → Bool) → Task → Plan → ℕ → PlanRequest → ℕ → Outcome Plan
unfolding check_append complete_plan
normalize_append schema task existing plan_revision request now = do
  check_append existing request
  complete_plan schema (extended_plan task existing plan_revision request now)

-- The checks of `_normalize_merge` on an incoming instance and on an incoming stage.
unfoldable pub check_rewired_instance : Dict Instance → RawInstance → Outcome (Unit {0})
check_rewired_instance landed raw = do
  i ← index (lookup raw.instance_id landed)
  guard (raw.stage_id == i.stage_id && same_type raw.agent_type i.agent_type) Code.validation_error

unfoldable pub check_rewired_stage : Dict Stage → RawStage → Outcome (Unit {0})
check_rewired_stage landed raw = do
  s ← index (lookup raw.stage_id landed)
  guard (same_type raw.type s.type && same_set raw.instance_ids s.instance_ids)
      Code.validation_error

-- `instance["status"] in {"READY", "UNAVAILABLE"}`
abbrev pub waits_to_start : Status → Bool
waits_to_start status = member status (ready ∷ unavailable ∷ [])

abbrev pub created_or : ℕ → Option ℕ → ℕ
created_or now none = now
created_or now (some t) = t

-- One round of the loop over the landed cards.
unfoldable pub merge_card : String → ℕ → Dict Instance → Dict RawCard → Card → Outcome Card
merge_card task_id now instances incoming landed = do
  raw ← index (lookup landed.card_id incoming)
  guard (raw.instance_id == landed.instance_id) Code.validation_error
  instance ← index (lookup landed.instance_id instances)
  if not (waits_to_start instance.status) then ok landed else do
    guard (not (ltb raw.revision landed.revision)) Code.revision_conflict
    ok (
        if eqb raw.revision landed.revision
        then landed
        else new_card task_id (created_or now raw.created_at) raw)

unfoldable pub merge_cards : (Card → Outcome Card) → List Card → Outcome (List Card)
merge_cards f [] = ok []
merge_cards f (c ∷ cs) = do d ← f c; ds ← merge_cards f cs; ok (d ∷ ds)

abbrev pub incoming_cards : PlanRequest → Dict RawCard
incoming_cards request = index_by (λ (c : RawCard). c.card_id) request.task_cards

-- `_normalize_merge`
unfoldable pub check_merge : Plan → PlanRequest → Outcome (Unit {0})
unfolding check_rewired_instance check_rewired_stage
check_merge existing request = do
  let stages = index_by (λ (s : RawStage). s.stage_id) request.stages
  let instances = index_by (λ (i : RawInstance). i.instance_id) request.instances
  guard (same_set (map (λ (s : RawStage). s.stage_id) request.stages) (stage_ids existing.stages))
      Code.validation_error
  guard
      (same_set (map (λ (i : RawInstance). i.instance_id) request.instances)
        (instance_ids existing.instances))
      Code.validation_error
  for_each (check_rewired_instance (instance_index existing)) (values instances)
  for_each (check_rewired_stage (stage_index existing)) (values stages)
  guard
      (same_set (map (λ (c : RawCard). c.card_id) request.task_cards)
        (card_ids existing.task_cards))
      Code.validation_error

abbrev pub merged_plan : Task → Plan → ℕ → List Card → ℕ → Plan
merged_plan task existing plan_revision cards now = record {
  task = record task { plan_revision = plan_revision; updated_at = now };
  stages = existing.stages;
  instances = existing.instances;
  task_cards = cards;
}

abbrev pub merged_cards : Task → Plan → PlanRequest → ℕ → Outcome (List Card)
merged_cards task existing request now =
    merge_cards (merge_card task.task_id now (instance_index existing) (incoming_cards request))
      existing.task_cards

unfoldable pub normalize_merge : (Plan → Bool) → Task → Plan → ℕ → PlanRequest → ℕ → Outcome Plan
unfolding check_merge merge_card merge_cards
normalize_merge schema task existing plan_revision request now = do
  check_merge existing request
  cards ← merged_cards task existing request now
  validate_plan schema (merged_plan task existing plan_revision cards now)
  ok (merged_plan task existing plan_revision cards now)
