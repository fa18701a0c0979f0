-- ===== src/Commands/Saving/Landed.antt =====
-- backend/harness/domain/service.py: `_refresh_stages` and `_activate_current_stages` change only
-- statuses of stages and times of first activation.
use mathlib.Core.List.{append-nil, append_assoc, map-append}
use agentic_design_harness.Common.{
  if◌then◌else◌, elem, Outcome, ok, index, >>=-eq-ok, ok_inj, if-eq-ok, Dict, lookup, index_by, ℕ,
  String, ◌≡◌, refl, sym, ap, ◌∙◌, inl, inr, Bool, ◌&&◌, not, none, List, [], ◌∷◌, ◌++◌, map, arith,
  ◌==◌,
}
use agentic_design_harness.Status.{pending, Kind, same_status, transition}
use agentic_design_harness.Model.{Lifecycle, Stage, Instance, Plan}
use agentic_design_harness.Aggregate.{
  stage_dependencies_authorized, select, is_closed, aggregate_stage,
}
use agentic_design_harness.Commands.{
  stage_index, instance_index, activate_lifecycle, map_if, change_stage, change_instances,
  activate_stage, activate_instance, activate, validate_stage_reaggregation, with_status,
  for_stages, activate_current_stage, activate_current_stages,
}
use agentic_design_harness.Commands.Requests.{refresh_new_stages, refresh_new}

-- A stage but for its status and the time of its first activation, and an instance but for the latter.
abbrev pub inactive : Lifecycle → Lifecycle
inactive l = record l { first_activated_at = none }

abbrev pub stage_core : Stage → Stage
stage_core s = record s {
  status = pending;
  requirement_lifecycle = inactive s.requirement_lifecycle;
}

abbrev pub instance_core : Instance → Instance
instance_core i = record i { requirement_lifecycle = inactive i.requirement_lifecycle }

-- What the statuses of stages and the times of first activation leave of a plan.
abbrev pub plan_core : Plan → Plan
plan_core plan = record plan {
  stages = map stage_core plan.stages;
  instances = map instance_core plan.instances;
}

map-map_if {ℓ κ} :
    {A : Type ℓ} {B : Type κ} (g : A → B) (p : A → Bool) (f : A → A)
    → ((x : A) → g (f x) ≡ g x)
    → (xs : List A) → map g (map_if p f xs) ≡ map g xs
map-map_if g p f e [] = refl
map-map_if g p f e (x ∷ xs) = ground (arith, e x, map-map_if g p f e xs)

inactive-activate : (now : ℕ) (l : Lifecycle) → inactive (activate_lifecycle now l) ≡ inactive l
unfolding activate_lifecycle
inactive-activate now l = refl

change_stage-core :
    (id : String) (f : Stage → Stage)
    → ((s : Stage) → stage_core (f s) ≡ stage_core s)
    → (plan : Plan) → plan_core (change_stage id f plan) ≡ plan_core plan
change_stage-core id f e plan =
    ap (λ stages. record (plan_core plan) { stages = stages })
      (map-map_if stage_core (λ (s : Stage). s.stage_id == id) f e plan.stages)

change_instances-core :
    (ids : List String) (f : Instance → Instance)
    → ((i : Instance) → instance_core (f i) ≡ instance_core i)
    → (plan : Plan) → plan_core (change_instances ids f plan) ≡ plan_core plan
change_instances-core ids f e plan =
    ap (λ instances. record (plan_core plan) { instances = instances })
      (map-map_if instance_core (λ (i : Instance). elem i.instance_id ids) f e plan.instances)

activate-core :
    (now : ℕ) (stage : Stage) (plan plan' : Plan)
    → activate now stage plan ≡ ok plan'
    → plan_core plan' ≡ plan_core plan
unfolding activate activate_lifecycle
activate-core now stage plan plan' h =
    let (_, _, e) = >>=-eq-ok (select (instance_index plan) stage.instance_ids) _ h in
    let changed : Plan = change_stage stage.stage_id (activate_stage now) plan in
    ap plan_core (sym (ok_inj e))
    ∙ change_instances-core stage.instance_ids (activate_instance now) (λ i. refl) changed
    ∙ change_stage-core stage.stage_id (activate_stage now) (λ s. refl) plan

activate_current_stage-core :
    (now : ℕ) (id : String) (plan plan' : Plan)
    → activate_current_stage now id plan ≡ ok plan'
    → plan_core plan' ≡ plan_core plan
unfolding activate_current_stage
activate_current_stage-core now id plan plan' h =
    let (stage, _, h1) = >>=-eq-ok (index (lookup id (stage_index plan))) _ h in
    let (authorized, _, h2) =
      >>=-eq-ok (stage_dependencies_authorized stage (stage_index plan) (instance_index plan)) _
        h1 in
    elim (if-eq-ok (not authorized) _ _ h2) [
      | inl (_, e) ↦ ap plan_core (sym (ok_inj e))
      | inr (_, h3) ↦
          let (active, a, h4) = >>=-eq-ok (activate now stage plan) _ h3 in
          let (current, _, h5) = >>=-eq-ok (index (lookup id (stage_index active))) _ h4 in
          let (target, _, h6) =
            >>=-eq-ok (aggregate_stage current (stage_index active) (instance_index active)) _ h5 in
          let same : plan_core active ≡ plan_core plan = activate-core now stage plan active a in
          elim (if-eq-ok (same_status target current.status) _ _ h6) [
            | inl (_, e) ↦ ap plan_core (sym (ok_inj e)) ∙ same
            | inr (_, h7) ↦
                let (_, _, e) = >>=-eq-ok (transition Kind.stage current.status target) _ h7 in
                ap plan_core (sym (ok_inj e))
                ∙ change_stage-core id (with_status target) (λ s. refl) active
                ∙ same
          ]
    ]

for_stages-core :
    (f : String → Plan → Outcome Plan)
    → ((id : String) (p p' : Plan) → f id p ≡ ok p' → plan_core p' ≡ plan_core p)
    → (ids : List String) (plan plan' : Plan) → for_stages f ids plan ≡ ok plan'
    → plan_core plan' ≡ plan_core plan
unfolding for_stages
for_stages-core f k [] plan plan' h = ap plan_core (sym (ok_inj h))
for_stages-core f k (id ∷ ids) plan plan' h =
    let (p, e, h1) = >>=-eq-ok (f id plan) _ h in for_stages-core f k ids p plan' h1 ∙ k id plan p e

pub activate_current_stages-core :
    (now : ℕ) (plan plan' : Plan)
    → activate_current_stages now plan ≡ ok plan'
    → plan_core plan' ≡ plan_core plan
unfolding activate_current_stages
activate_current_stages-core now plan plan' h =
    for_stages-core (activate_current_stage now) (activate_current_stage-core now) _ plan plan' h

refresh_new_stages-core :
    (instances : Dict Instance) (before after result : List Stage)
    → refresh_new_stages instances before after ≡ ok result
    → map stage_core result ≡ map stage_core (before ++ after)
unfolding refresh_new_stages
refresh_new_stages-core instances before [] result h =
    rw append-nil (ap (map stage_core) (sym (ok_inj h)))
refresh_new_stages-core instances before (s ∷ after) result h =
    let stages : Dict Stage = index_by (λ (s : Stage). s.stage_id) (before ++ s ∷ after) in
    let (target, _, h1) = >>=-eq-ok (aggregate_stage s stages instances) _ h in
    let (_, _, h2) = >>=-eq-ok (stage_dependencies_authorized s stages instances) _ h1 in
    let (_, _, h3) =
      >>=-eq-ok
        (if not (same_status target s.status) && not (is_closed s.status)
          then validate_stage_reaggregation s.status target
          else ok tt)
        _ h2 in
    let ih =
      refresh_new_stages-core instances (before ++ with_status target s ∷ []) after result h3 in
    let next : Stage = with_status target s in
    ih
    ∙ ap (map stage_core) (append_assoc before (next ∷ []) after)
    ∙ map-append stage_core before (next ∷ after)
    ∙ sym (map-append stage_core before (s ∷ after))

pub refresh_new-core :
    (plan plan' : Plan) → refresh_new plan ≡ ok plan' → plan_core plan' ≡ plan_core plan
refresh_new-core plan plan' h =
    let (stages, r, e) = >>=-eq-ok (refresh_new_stages (instance_index plan) [] plan.stages) _ h in
    ap plan_core (sym (ok_inj e))
    ∙ ap (λ ss. record (plan_core plan) { stages = ss })
        (refresh_new_stages-core (instance_index plan) [] plan.stages stages r)
