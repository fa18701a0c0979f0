-- ===== src/Topology/Members.antt =====
-- backend/harness/domain/plan.py: the instances and task cards of an accepted plan.
use agentic_design_harness.Common.{
  take, elem, distinct, Code, Outcome, ok, err, fault, ◌>>=◌, ◌>>◌, guard, lookup-index_by, Dict,
  lookup, insert, index_by, ◌-◌, String, ◌≡◌, refl, sym, ap, ◌∙◌, ◌⊎◌, inl, Bool, true, false, ◌&&◌,
  some, List, [], ◌∷◌, Memᴰ, arith, eq_iff,
}
use agentic_design_harness.Model.{Stage, Instance, Card, Plan}
use agentic_design_harness.Topology.{
  contiguous, stage_ids, instance_ids, for_each, check_stage, check_dependency, check_dependencies,
  check_instances, check_cards, referenced, same_set, validate_plan,
}
use agentic_design_harness.Topology.Stages.{for_each-mem, earlier_stage, elem-all}

-- `validate_plan` has no other outcome than these two.
abbrev pub Decided : Outcome (Unit {0}) → Type 0
Decided r = (r ≡ ok tt) ⊎ (r ≡ err Code.validation_error)

for_each-Decided :
    {A : Type 0} (f : A → Outcome (Unit {0})) (xs : List A)
    → ((x : A) → Memᴰ x xs → Decided (f x))
    → Decided (for_each f xs)
unfolding for_each
for_each-Decided f [] h = inl refl
for_each-Decided f (x ∷ xs) h =
    let head : Decided (f x) = h x (Memᴰ.head refl) in
    let rest : Decided (for_each f xs) = for_each-Decided f xs (λ y m. h y (Memᴰ.tail m)) in
    ground arith

check_stage-Decided :
    (task_id : String) (ids : List String) (s : Stage) → Decided (check_stage task_id ids s)
unfolding check_stage
check_stage-Decided task_id ids s = ground arith

for_each-elem-Decided :
    (f : String → Outcome (Unit {0})) (xs : List String)
    → ((x : String) → elem x xs ≡ true → Decided (f x))
    → Decided (for_each f xs)
unfolding for_each
for_each-elem-Decided f [] h = inl refl
for_each-elem-Decided f (x ∷ xs) h =
    let head : Decided (f x) = h x (ground (arith, eq_iff x x)) in
    let rest : Decided (for_each f xs) = for_each-elem-Decided f xs (λ y m. h y (ground arith)) in
    ground arith

-- A dependency that the first loop has let through is found, so the second loop does not fault.
check_dependencies-Decided :
    (task_id : String) (stages : List Stage) (s : Stage)
    → distinct (stage_ids stages) ≡ true
    → contiguous 1 stages ≡ true
    → check_stage task_id (stage_ids stages) s ≡ ok tt
    → Decided (check_dependencies (index_by (λ (x : Stage). x.stage_id) stages) s)
unfolding check_stage check_dependencies check_dependency
check_dependencies-Decided task_id stages s u c h =
    for_each-elem-Decided (check_dependency (index_by (λ (x : Stage). x.stage_id) stages) s)
      s.depends_on
      λ id m.
        let early : elem id (take (s.position - 1) (stage_ids stages)) ≡ true =
          elem-all (λ x. elem x (take (s.position - 1) (stage_ids stages))) s.depends_on id
            (ground arith) m in
        let (t, mem, same, below) = earlier_stage 1 (s.position - 1) stages id c early in
        let found : lookup id (index_by (λ (x : Stage). x.stage_id) stages) ≡ some t =
          ap (λ k. lookup k (index_by (λ (x : Stage). x.stage_id) stages)) (sym same)
          ∙ lookup-index_by (λ (x : Stage). x.stage_id) t stages u mem in
        rw found (ground arith)

-- The outcome is a value or a validation error.
abbrev settles {ℓ} : {A : Type ℓ} → Outcome A → Bool
settles (ok a) = true
settles (err Code.validation_error) = true
settles (err e) = false
settles (fault e) = false

check_instances-settles :
    (task_id : String) (stages : Dict Stage) (seen : Dict Instance) (is : List Instance)
    → settles (check_instances task_id stages seen is) ≡ true
unfolding check_instances
check_instances-settles task_id stages seen [] = refl
check_instances-settles task_id stages seen (i ∷ is) =
    ground (arith, check_instances-settles task_id stages (insert i.instance_id i seen) is)

check_cards-settles :
    (task_id : String) (instances : Dict Instance) (seen : List String) (cs : List Card)
    → settles (check_cards task_id instances seen cs) ≡ true
unfolding check_cards
check_cards-settles task_id instances seen [] = refl
check_cards-settles task_id instances seen (c ∷ cs) =
    ground (arith, check_cards-settles task_id instances (c.instance_id ∷ seen) cs)

stages_settle :
    (plan : Plan)
    → distinct (stage_ids plan.stages) ≡ true
    → contiguous 1 plan.stages ≡ true
    → for_each (check_stage plan.task.task_id (stage_ids plan.stages)) plan.stages ≡ ok tt
    → settles (
        for_each
          (check_dependencies (index_by (λ (s : Stage). s.stage_id) plan.stages))
          plan.stages)
      ≡ true
stages_settle plan u c h =
    let d =
      for_each-Decided (check_dependencies (index_by (λ (s : Stage). s.stage_id) plan.stages))
        plan.stages
        (λ s m. check_dependencies-Decided plan.task.task_id plan.stages s u c (
          for_each-mem (check_stage plan.task.task_id (stage_ids plan.stages)) plan.stages s h
            m)) in
    ground arith

settles-bind :
    {A B : Type 0} (m : Outcome A) (f : A → Outcome B)
    → settles m ≡ true
    → ((a : A) → m ≡ ok a → settles (f a) ≡ true)
    → settles (m >>= f) ≡ true
settles-bind (ok a) f h k = k a refl
settles-bind (err Code.validation_error) f h k = refl
settles-bind (err e) f h k = h
settles-bind (fault e) f h k = h

settles-guard :
    {B : Type 0} (b : Bool) (m : Outcome B)
    → (b ≡ true → settles m ≡ true)
    → settles (guard b Code.validation_error >> m) ≡ true
settles-guard true m h = h refl
settles-guard false m h = refl

settles-test : (b : Bool) → settles (guard b Code.validation_error) ≡ true
settles-test b = ground arith

verdict : (r : Outcome (Unit {0})) → settles r ≡ true → Decided r
verdict r h = ground arith

settles_of : (r : Outcome (Unit {0})) → Decided r → settles r ≡ true
settles_of r h = ground arith

-- `validate_plan` always comes to a verdict: it accepts the plan or raises a validation error, and
-- no lookup in it fails.
pub validate_plan-settles :
    (schema : Plan → Bool) (plan : Plan)
    → (validate_plan schema plan ≡ ok tt) ⊎ (validate_plan schema plan ≡ err Code.validation_error)
unfolding validate_plan
validate_plan-settles schema plan =
    let task_id = plan.task.task_id in
    let ids = stage_ids plan.stages in
    verdict (validate_plan schema plan) (
      settles-guard (schema plan) _ λ _.
        settles-guard (distinct ids && contiguous 1 plan.stages) _ λ shape.
          settles-bind (for_each (check_stage task_id ids) plan.stages) _
            (settles_of _ (
              for_each-Decided (check_stage task_id ids) plan.stages
                (λ s m. check_stage-Decided task_id ids s)))
            λ _ first.
              settles-bind _ _ (stages_settle plan (ground arith) (ground arith) first) λ _ _.
                settles-bind _ _ (check_instances-settles task_id _ [] plan.instances)
                  λ instances _. settles-guard (distinct (referenced plan.stages)) _ λ _.
                    settles-guard (same_set (referenced plan.stages) (instance_ids plan.instances))
                      _
                      λ _.
                        settles-bind _ _ (check_cards-settles task_id instances [] plan.task_cards)
                          λ cards _. settles-test (same_set cards (instance_ids plan.instances)))
