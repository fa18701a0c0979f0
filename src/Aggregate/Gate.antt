-- ===== src/Aggregate/Gate.antt =====
-- backend/harness/domain/state_machine.py: when a stage may activate, and what it then shows.
use agentic_design_harness.Common.{
  Option-cases, all, is_empty, keep, All, all-true, all-true_of, Outcome, ok, Dict, lookup, values,
  String, ◌≡◌, refl, ◌≢◌, ◌⊎◌, inl, inr, ◌↔◌, Bool, true, false, ◌&&◌, not, some, List, [], ◌∷◌,
  arith,
}
use agentic_design_harness.Status.{Status, succeeded}
use agentic_design_harness.Model.{AgentType, ppt, Stage, Instance}
use agentic_design_harness.Aggregate.{
  is_succeeded, is_image, is_ppt, all_succeeded, stage_dependencies_authorized,
}

-- Every listed stage exists and has succeeded.
abbrev pub AllSucceeded : Dict Stage → List String → Type 0
AllSucceeded stages = All (λ id. (s : Stage) × (lookup id stages ≡ some s) × (s.status ≡ succeeded))

-- The human gate of a PPT stage: it depends on something, there are Image instances, and the
-- operator has finished each of them.
pub record HumanGate (stage : Stage) (instances : Dict Instance) : Type 0 where
  pub is_for_ppt : stage.type ≡ ppt
  pub has_dependency : stage.depends_on ≢ []
  pub has_image : keep (λ (i : Instance). is_image i.agent_type) (values instances) ≢ []
  pub finished :
      All
        (λ (i : Instance). i.manual_finished ≡ true)
        (keep (λ (i : Instance). is_image i.agent_type) (values instances))

succeeded_of : (s : Status) → is_succeeded s ≡ true → s ≡ succeeded
succeeded_of s h = ground arith

all_succeeded-true :
    (stages : Dict Stage) (ids : List String)
    → all_succeeded stages ids ≡ ok true
    → AllSucceeded stages ids
unfolding all_succeeded
all_succeeded-true stages [] h = tt
all_succeeded-true stages (id ∷ ids) h = elim (Option-cases (lookup id stages)) [
  | inl e ↦ absurd (ground arith)
  | inr (s, e) ↦
      let done : is_succeeded s.status ≡ true = ground arith in
      ((s, e, succeeded_of s.status done), all_succeeded-true stages ids (ground arith))
]

all_succeeded-true_of :
    (stages : Dict Stage) (ids : List String)
    → AllSucceeded stages ids
    → all_succeeded stages ids ≡ ok true
unfolding all_succeeded
all_succeeded-true_of stages [] h = refl
all_succeeded-true_of stages (id ∷ ids) h =
    let (s, e, done) = h.0 in rw (e, done) (all_succeeded-true_of stages ids h.1)

not-empty {ℓ} : {A : Type ℓ} (l : List A) → is_empty l ≡ false → l ≢ []
not-empty [] h = cc
not-empty (x ∷ l) h = λ e. grind arith

is_empty-false {ℓ} : {A : Type ℓ} (l : List A) → l ≢ [] → is_empty l ≡ false
is_empty-false [] h = absurd (h refl)
is_empty-false (x ∷ l) h = refl

type_ppt : (t : AgentType) → is_ppt t ≡ true → t ≡ ppt
type_ppt t h = ground arith

module _ (stage : Stage) (stages : Dict Stage) (instances : Dict Instance) where
  abbrev images : List Instance
  images = keep (λ (i : Instance). is_image i.agent_type) (values instances)

  human_gate_test : Bool
  human_gate_test =
      is_ppt stage.type
      && not (is_empty stage.depends_on)
      && not (is_empty images)
      && all (λ (i : Instance). i.manual_finished) images

  human_gate : (human_gate_test ≡ true) ↔ HumanGate stage instances
  unfolding human_gate_test
  human_gate = (
    λ h. record {
      is_for_ppt = type_ppt stage.type (ground arith);
      has_dependency = not-empty stage.depends_on (ground arith);
      has_image = not-empty images (ground arith);
      finished = all-true _ images (ground arith);
    },
    λ g.
        rw
          (
            g.is_for_ppt,
            is_empty-false stage.depends_on g.has_dependency,
            is_empty-false images g.has_image,
          )
          (all-true_of _ images g.finished),
  )

  authorized_by :
      (r : Outcome Bool)
      → all_succeeded stages stage.depends_on ≡ r
      → stage_dependencies_authorized stage stages instances ≡ ok true
      → (r ≡ ok true) ⊎ ((r ≡ ok false) × (human_gate_test ≡ true))
  unfolding stage_dependencies_authorized human_gate_test
  authorized_by r e h = ground arith

  authorized_of :
      (all_succeeded stages stage.depends_on ≡ ok true)
        ⊎ ((all_succeeded stages stage.depends_on ≡ ok false) × (human_gate_test ≡ true))
      → stage_dependencies_authorized stage stages instances ≡ ok true
  unfolding stage_dependencies_authorized human_gate_test
  authorized_of h = ground arith

  -- A stage may activate exactly when every stage that it depends on exists and has succeeded, or
  -- when one of them is found not to have succeeded and the human gate of a PPT stage is open.
  pub stage_dependencies_authorized_iff :
      (stage_dependencies_authorized stage stages instances ≡ ok true) ↔ (
        AllSucceeded stages stage.depends_on
        ⊎ ((all_succeeded stages stage.depends_on ≡ ok false) × HumanGate stage instances))
  stage_dependencies_authorized_iff = (
    λ h. elim (authorized_by _ refl h) [
      | inl e ↦ inl (all_succeeded-true stages stage.depends_on e)
      | inr (e, g) ↦ inr (e, human_gate.0 g)
    ],
    λ h. elim h [
      | inl a ↦ authorized_of (inl (all_succeeded-true_of stages stage.depends_on a))
      | inr (e, g) ↦ authorized_of (inr (e, human_gate.1 g))
    ],
  )
