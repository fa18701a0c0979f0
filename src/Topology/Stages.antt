-- ===== src/Topology/Stages.antt =====
-- backend/harness/domain/plan.py: the stages of an accepted plan.
use agentic_design_harness.Common.{
  Bool-cases, Option-cases, all, take, elem, distinct, Outcome, ok, lookup-index_by, Dict, lookup,
  index_by, ℕ, zero, suc, ◌+◌, ◌-◌, ◌≤◌, ◌<◌, String, ◌≡◌, refl, sym, ap, ◌∙◌, inl, inr, Bool, true,
  some, List, [], ◌∷◌, Memᴰ, arith, ◌==◌, eq_iff,
}
use agentic_design_harness.Model.{AgentType, image, ppt, Stage, Plan, same_type}
use agentic_design_harness.Topology.{
  contiguous, stage_ids, for_each, check_stage, check_dependency, check_dependencies, validate_plan,
}

pub for_each-mem :
    {A : Type 0} (f : A → Outcome (Unit {0})) (xs : List A) (x : A)
    → for_each f xs ≡ ok tt
    → Memᴰ x xs
    → f x ≡ ok tt
unfolding for_each
for_each-mem f [] x h m = elim m [ ]
for_each-mem f (y ∷ xs) x h (Memᴰ.head e) = rw e (ground arith)
for_each-mem f (y ∷ xs) x h (Memᴰ.tail m) = for_each-mem f xs x (ground arith) m

pub contiguous-le :
    (first : ℕ) (stages : List Stage) (s : Stage)
    → contiguous first stages ≡ true
    → Memᴰ s stages
    → first ≤ s.position
unfolding contiguous
contiguous-le first [] s h m = elim m [ ]
contiguous-le first (t ∷ stages) s h (Memᴰ.head e) = rw e (ground arith)
contiguous-le first (t ∷ stages) s h (Memᴰ.tail m) =
    ground (arith, contiguous-le (suc first) stages s (ground arith) m)

-- An id among the first `n` is that of a stage whose position is below `first + n`.
pub earlier_stage :
    (first n : ℕ) (stages : List Stage) (id : String)
    → contiguous first stages ≡ true
    → elem id (take n (stage_ids stages)) ≡ true
    → (t : Stage) × Memᴰ t stages × (t.stage_id ≡ id) × (t.position < first + n)
unfolding contiguous
earlier_stage first zero stages id h m = cc
earlier_stage first (suc n) [] id h m = cc
earlier_stage first (suc n) (t ∷ stages) id h m = elim (Bool-cases (id == t.stage_id)) [
  | inl e ↦ (t, Memᴰ.head refl, sym ((eq_iff id t.stage_id).0 e), ground arith)
  | inr e ↦
      let (u, mem, same, below) =
        earlier_stage (suc first) n stages id (ground arith) (ground arith) in
      (u, Memᴰ.tail mem, same, omega arith)
]

pub elem-all :
    (p : String → Bool) (xs : List String) (x : String)
    → all p xs ≡ true
    → elem x xs ≡ true
    → p x ≡ true
elem-all p [] x h m = cc
elem-all p (y ∷ xs) x h m = elim (Bool-cases (x == y)) [
  | inl e ↦ rw ((eq_iff x y).0 e) (ground arith)
  | inr e ↦ elem-all p xs x (ground arith) (ground arith)
]

pub for_each-elem :
    (f : String → Outcome (Unit {0})) (xs : List String) (x : String)
    → for_each f xs ≡ ok tt
    → elem x xs ≡ true
    → f x ≡ ok tt
unfolding for_each
for_each-elem f [] x h m = cc
for_each-elem f (y ∷ xs) x h m = elim (Bool-cases (x == y)) [
  | inl e ↦ rw ((eq_iff x y).0 e) (ground arith)
  | inr e ↦ for_each-elem f xs x (ground arith) (ground arith)
]

pub same_type-eq : (a b : AgentType) → same_type a b ≡ true → a ≡ b
unfolding same_type
same_type-eq a b h = ground arith

-- What the checks say of one dependency of one stage.
pub record Accepted (plan : Plan) : Type 0 where
  pub ids_distinct : distinct (stage_ids plan.stages) ≡ true
  pub positions : contiguous 1 plan.stages ≡ true
  pub checked : for_each (check_stage plan.task.task_id (stage_ids plan.stages)) plan.stages ≡ ok tt
  pub layered :
      for_each (check_dependencies (index_by (λ (s : Stage). s.stage_id) plan.stages)) plan.stages
      ≡ ok tt

pub validate_plan-Accepted :
    (schema : Plan → Bool) (plan : Plan) → validate_plan schema plan ≡ ok tt → Accepted plan
unfolding validate_plan
validate_plan-Accepted schema plan h = record {
  ids_distinct = ground arith;
  positions = ground arith;
  checked = ground arith;
  layered = ground arith;
}

dependency_checked :
    (stages : Dict Stage) (s : Stage) (id : String)
    → check_dependency stages s id ≡ ok tt
    → (t : Stage) × (lookup id stages ≡ some t)
      × (same_type t.type image ≡ true)
      × (same_type s.type ppt ≡ true)
unfolding check_dependency
dependency_checked stages s id h = elim (Option-cases (lookup id stages)) [
  | inl e ↦ absurd (ground arith)
  | inr (t, e) ↦ (t, e, ground arith, ground arith)
]

-- In an accepted plan, whatever a stage depends on is an Image stage of the plan that stands
-- strictly before it, and only PPT stages depend on anything.
pub validate_plan-layered :
    (schema : Plan → Bool) (plan : Plan) (s : Stage) (id : String)
    → validate_plan schema plan ≡ ok tt
    → Memᴰ s plan.stages
    → elem id s.depends_on ≡ true
    → (t : Stage) × Memᴰ t plan.stages
      × (t.stage_id ≡ id)
      × (t.position < s.position)
      × (t.type ≡ image)
      × (s.type ≡ ppt)
unfolding check_stage check_dependencies
validate_plan-layered schema plan s id h m d =
    let a = validate_plan-Accepted schema plan h in
    let c : check_stage plan.task.task_id (stage_ids plan.stages) s ≡ ok tt =
      for_each-mem _ plan.stages s a.checked m in
    let early : elem id (take (s.position - 1) (stage_ids plan.stages)) ≡ true =
      elem-all (λ x. elem x (take (s.position - 1) (stage_ids plan.stages))) s.depends_on id
        (ground arith) d in
    let (t, mem, same, below) = earlier_stage 1 (s.position - 1) plan.stages id a.positions early in
    let (u, found, u_image, s_ppt) =
      dependency_checked _ s id
        (for_each-elem _ s.depends_on id (for_each-mem _ plan.stages s a.layered m) d) in
    let found' : lookup id (index_by (λ (x : Stage). x.stage_id) plan.stages) ≡ some t =
      ap (λ k. lookup k (index_by (λ (x : Stage). x.stage_id) plan.stages)) (sym same)
      ∙ lookup-index_by (λ (x : Stage). x.stage_id) t plan.stages a.ids_distinct mem in
    let first = contiguous-le 1 plan.stages s a.positions m in
    let u_is_t : u ≡ t = ground arith in
    (
      t,
      mem,
      same,
      omega arith,
      same_type-eq t.type image (rw (← u_is_t) u_image),
      same_type-eq s.type ppt s_ppt,
    )
