-- ===== src/Topology/Coverage.antt =====
-- backend/harness/domain/plan.py: stages, instances and cards of an accepted plan match one to one.
use agentic_design_harness.Common.{
  Bool-cases, count, elem, subset, distinct, Code, Outcome, ok, err, fault, ◌>>=◌, ◌>>◌, guard,
  Dict, index_by, ℕ, ◌+◌, String, ◌≡◌, refl, inl, inr, Bool, true, false, List, [], ◌∷◌, Memᴰ,
  arith, ◌==◌, eq_iff,
}
use agentic_design_harness.Model.{Stage, Instance, Card, Plan}
use agentic_design_harness.Topology.{
  instance_ids, check_instances, check_cards, referenced, same_set, validate_plan,
}
use agentic_design_harness.Topology.Stages.{elem-all}

abbrev pub occurrences : String → List String → ℕ
occurrences x = count (λ y. x == y)

absent : (x : String) (l : List String) → elem x l ≡ false → occurrences x l ≡ 0
absent x [] h = refl
absent x (y ∷ l) h = ground (arith, absent x l)

once : (x : String) (l : List String) → distinct l ≡ true → elem x l ≡ true → occurrences x l ≡ 1
once x [] d h = cc
once x (y ∷ l) d h = elim (Bool-cases (x == y)) [
  | inl e ↦ ground (arith, eq_iff x y, absent x l)
  | inr e ↦ ground (arith, once x l)
]

check_cards-distinct :
    (task_id : String) (instances : Dict Instance) (seen : List String) (cs : List Card)
    {out : List String}
    → check_cards task_id instances seen cs ≡ ok out
    → distinct seen ≡ true
    → distinct out ≡ true
unfolding check_cards
check_cards-distinct task_id instances seen [] {out} h d = ground arith
check_cards-distinct task_id instances seen (c ∷ cs) {out} h d =
    check_cards-distinct task_id instances (c.instance_id ∷ seen) cs {out = out} (ground arith)
      (ground arith)

check_cards-occurrences :
    (task_id : String) (instances : Dict Instance) (seen : List String) (cs : List Card)
    (x : String) {out : List String}
    → check_cards task_id instances seen cs ≡ ok out
    → occurrences x out ≡ occurrences x seen + count (λ (c : Card). x == c.instance_id) cs
unfolding check_cards
check_cards-occurrences task_id instances seen [] x {out} h = ground arith
check_cards-occurrences task_id instances seen (c ∷ cs) x {out} h =
    ground
      (arith, check_cards-occurrences task_id instances (c.instance_id ∷ seen) cs x {out = out})

listed :
    (is : List Instance) (i : Instance) → Memᴰ i is → elem i.instance_id (instance_ids is) ≡ true
listed [] i m = elim m [ ]
listed (j ∷ is) i (Memᴰ.head e) = rw e (ground (arith, eq_iff j.instance_id j.instance_id))
listed (j ∷ is) i (Memᴰ.tail m) = ground (arith, listed is i m)

-- What the last checks of `validate_plan` establish.
record Matched (plan : Plan) : Type 0 where
  cards : List String
  instances : Dict Instance
  checked : check_cards plan.task.task_id instances [] plan.task_cards ≡ ok cards
  each_card : subset (instance_ids plan.instances) cards ≡ true
  references_distinct : distinct (referenced plan.stages) ≡ true
  each_referenced : subset (instance_ids plan.instances) (referenced plan.stages) ≡ true

matched :
    (plan : Plan) (instances : Dict Instance) (r : Outcome (List String))
    → check_cards plan.task.task_id instances [] plan.task_cards ≡ r
    → distinct (referenced plan.stages) ≡ true
    → subset (instance_ids plan.instances) (referenced plan.stages) ≡ true
    → (r >>= λ cards. guard (same_set cards (instance_ids plan.instances)) Code.validation_error)
      ≡ ok tt
    → Matched plan
matched plan instances (ok cards) e d s h = record {
  cards = cards;
  instances = instances;
  checked = e;
  each_card = ground arith;
  references_distinct = d;
  each_referenced = s;
}
matched plan instances (err c) e d s h = cc
matched plan instances (fault c) e d s h = cc

Matched-instances :
    (plan : Plan) (r : Outcome (Dict Instance))
    → (do
      instances ← r
      guard (distinct (referenced plan.stages)) Code.validation_error
      guard (same_set (referenced plan.stages) (instance_ids plan.instances)) Code.validation_error
      cards ← check_cards plan.task.task_id instances [] plan.task_cards
      guard (same_set cards (instance_ids plan.instances)) Code.validation_error)
      ≡ ok tt
    → Matched plan
Matched-instances plan (ok instances) h =
    matched plan instances (check_cards plan.task.task_id instances [] plan.task_cards) refl
      (ground arith) (ground arith) (ground arith)
Matched-instances plan (err c) h = cc
Matched-instances plan (fault c) h = cc

validate_plan-Matched :
    (schema : Plan → Bool) (plan : Plan) → validate_plan schema plan ≡ ok tt → Matched plan
unfolding validate_plan
validate_plan-Matched schema plan h =
    Matched-instances plan
      (check_instances plan.task.task_id (index_by (λ (s : Stage). s.stage_id) plan.stages) []
        plan.instances)
      (ground arith)

-- In an accepted plan every instance has exactly one task card, and exactly one stage lists it,
-- once.
pub validate_plan-one_card :
    (schema : Plan → Bool) (plan : Plan) (i : Instance)
    → validate_plan schema plan ≡ ok tt
    → Memᴰ i plan.instances
    → (count (λ (c : Card). i.instance_id == c.instance_id) plan.task_cards ≡ 1)
      × (occurrences i.instance_id (referenced plan.stages) ≡ 1)
validate_plan-one_card schema plan i h m =
    let w = validate_plan-Matched schema plan h in
    let here = listed plan.instances i m in
    let in_cards =
      elem-all (λ x. elem x w.cards) (instance_ids plan.instances) i.instance_id w.each_card here in
    let in_stages =
      elem-all (λ x. elem x (referenced plan.stages)) (instance_ids plan.instances) i.instance_id
        w.each_referenced here in
    (
      omega (
        arith,
        once i.instance_id w.cards
            (check_cards-distinct plan.task.task_id w.instances [] plan.task_cards w.checked refl)
            in_cards,
        check_cards-occurrences plan.task.task_id w.instances [] plan.task_cards i.instance_id
            w.checked,
      ),
      once i.instance_id (referenced plan.stages) w.references_distinct in_stages,
    )
