-- ===== src/Aggregate/Work.antt =====
-- backend/harness/domain/state_machine.py: what the aggregate status of a task says about the work
-- below it.
use agentic_design_harness.Common.{
  if◌then◌else◌, Bool-cases, is_some, any, all, keep, All, any-false, any-false_of, all-true,
  all-true_of, all-keep, ◌≡◌, refl, ◌≢◌, ◌⊎◌, inl, inr, ◌↔◌, Bool, true, false, ◌&&◌, ◌||◌, not,
  Option, none, some, List, [], ◌∷◌, arith,
}
use agentic_design_harness.Status.{Status, succeeded, partial}
use agentic_design_harness.Model.{Lifecycle, Task, Stage, Instance}
use agentic_design_harness.Aggregate.{
  is_active, is_waiting, is_failed, is_unavailable, is_succeeded, is_activated_downgrade,
  is_terminal, is_archived, stage_downgraded, instance_downgraded, aggregate_work, aggregate_task,
}

-- All that a completed task has behind it.
pub record IsComplete (stages : List Stage) (instances : List Instance) : Type 0 where
  pub delivered : All (λ (s : Stage). (not s.required || is_succeeded s.status) ≡ true) stages
  pub idle : All (λ (i : Instance). is_active i.status ≡ false) instances
  pub answered : All (λ (i : Instance). (i.required && is_waiting i.status) ≡ false) instances
  pub unbroken : All (λ (i : Instance). (i.required && is_failed i.status) ≡ false) instances

-- A part that was required and is not any more, which had been activated, and whose downgrade was
-- authorized.
pub record WasDowngraded (required : Bool) (lifecycle : Lifecycle) : Type 0 where
  pub was_required : lifecycle.original_required ≡ true
  pub is_optional : required ≡ false
  pub was_activated : lifecycle.first_activated_at ≢ none
  pub was_authorized : lifecycle.authorized_downgrade ≢ none

pub record IsFullStrength (stages : List Stage) (instances : List Instance) : Type 0 where
  pub of_stages : All (λ (s : Stage). ¬ WasDowngraded s.required s.requirement_lifecycle) stages
  pub of_instances :
      All (λ (i : Instance). ¬ WasDowngraded i.required i.requirement_lifecycle) instances

is_some_iff {ℓ} : {A : Type ℓ} (o : Option A) → (is_some o ≡ true) ↔ (o ≢ none)
is_some_iff none = (λ h. cc, λ h. absurd (h refl))
is_some_iff (some a) = (λ h e. cc, λ h. refl)

is_activated_downgrade_iff :
    (required : Bool) (l : Lifecycle)
    → (is_activated_downgrade required l ≡ false) ↔ (¬ WasDowngraded required l)
unfolding is_activated_downgrade
is_activated_downgrade_iff required l = (
  λ h w. ground (
    arith,
    h,
    w.was_required,
    w.is_optional,
    (is_some_iff l.first_activated_at).1 w.was_activated,
    (is_some_iff l.authorized_downgrade).1 w.was_authorized,
  ),
  λ n. elim (Bool-cases (is_activated_downgrade required l)) [
    | inl t ↦ absurd (
        n (record {
          was_required = ground (arith, t);
          is_optional = ground (arith, t);
          was_activated = (is_some_iff l.first_activated_at).0 (ground (arith, t));
          was_authorized = (is_some_iff l.authorized_downgrade).0 (ground (arith, t));
        }))
    | inr f ↦ f
  ],
)

All-iff :
    {A : Type 0} (f : A → Bool) (Q : A → Type 0)
    → ((a : A) → (f a ≡ false) ↔ Q a)
    → (xs : List A) → All (λ a. f a ≡ false) xs ↔ All Q xs
All-iff f Q h [] = (λ x. x, λ x. x)
All-iff f Q h (x ∷ xs) =
    (λ p. ((h x).0 p.0, (All-iff f Q h xs).0 p.1), λ p. ((h x).1 p.0, (All-iff f Q h xs).1 p.1))

abbrev has_waiting : List Instance → Bool
has_waiting = any (λ (i : Instance). i.required && is_waiting i.status)

abbrev has_active : List Instance → Bool
has_active = any (λ (i : Instance). is_active i.status)

abbrev has_failed : List Instance → Bool
has_failed = any (λ (i : Instance). i.required && is_failed i.status)

abbrev has_unavailable : List Stage → Bool
has_unavailable = any (λ (s : Stage). s.required && is_unavailable s.status)

abbrev required_succeeded : List Stage → Bool
required_succeeded stages =
    all (λ (s : Stage). is_succeeded s.status) (keep (λ (s : Stage). s.required) stages)

-- A stage that has succeeded is not unavailable.
succeeded_available :
    (stages : List Stage) → required_succeeded stages ≡ true → has_unavailable stages ≡ false
succeeded_available [] h = refl
succeeded_available (s ∷ stages) h = ground (arith, succeeded_available stages)

tests-IsComplete :
    (stages : List Stage) (instances : List Instance)
    → has_waiting instances ≡ false
    → has_active instances ≡ false
    → has_failed instances ≡ false
    → required_succeeded stages ≡ true
    → IsComplete stages instances
tests-IsComplete stages instances w a f r = record {
  delivered =
      all-true _ stages (
        rw (← all-keep (λ (s : Stage). is_succeeded s.status) (λ (s : Stage). s.required) stages)
          r);
  idle = any-false _ instances a;
  answered = any-false _ instances w;
  unbroken = any-false _ instances f;
}

work-IsComplete :
    (stages : List Stage) (instances : List Instance)
    → (aggregate_work stages instances ≡ succeeded) ⊎ (aggregate_work stages instances ≡ partial)
    → IsComplete stages instances
unfolding aggregate_work
work-IsComplete stages instances h =
    tests-IsComplete stages instances (ground arith) (ground arith) (ground arith) (ground arith)

work-succeeded :
    (stages : List Stage) (instances : List Instance)
    → IsComplete stages instances
    → aggregate_work stages instances ≡ (
        if any stage_downgraded stages || any instance_downgraded instances
        then partial
        else succeeded)
unfolding aggregate_work
work-succeeded stages instances c =
    let done : required_succeeded stages ≡ true =
      rw (all-keep (λ (s : Stage). is_succeeded s.status) (λ (s : Stage). s.required) stages)
        (all-true_of _ stages c.delivered) in
    let w : has_waiting instances ≡ false = any-false_of _ instances c.answered in
    let a : has_active instances ≡ false = any-false_of _ instances c.idle in
    let f : has_failed instances ≡ false = any-false_of _ instances c.unbroken in
    let u : has_unavailable stages ≡ false = succeeded_available stages done in ground arith

abbrev pub is_open : Status → Bool
is_open s = not (is_terminal s) && not (is_archived s)

-- For a task that is neither terminal nor archived, the aggregate is SUCCEEDED or PARTIAL exactly
-- when every required stage has succeeded, no instance is READY, STARTING or RUNNING, and no
-- required instance waits for an approval or has failed.
pub aggregate_task-IsComplete :
    (task : Task) (stages : List Stage) (instances : List Instance)
    → is_open task.status ≡ true
    → ((aggregate_task task stages instances false ≡ succeeded)
        ⊎ (aggregate_task task stages instances false ≡ partial))
      ↔ IsComplete stages instances
unfolding aggregate_task
aggregate_task-IsComplete task stages instances o = (
  λ h. work-IsComplete stages instances (ground arith),
  λ c. ground (arith, work-succeeded stages instances c),
)

strength :
    (stages : List Stage) (instances : List Instance)
    → (any stage_downgraded stages || any instance_downgraded instances ≡ false)
      ↔ IsFullStrength stages instances
strength stages instances =
    let of_stage =
      All-iff stage_downgraded (λ (s : Stage). ¬ WasDowngraded s.required s.requirement_lifecycle)
        (λ s. is_activated_downgrade_iff s.required s.requirement_lifecycle) stages in
    let of_instance =
      All-iff instance_downgraded
        (λ (i : Instance). ¬ WasDowngraded i.required i.requirement_lifecycle)
        (λ i. is_activated_downgrade_iff i.required i.requirement_lifecycle) instances in
    (
      λ h. record {
        of_stages = of_stage.0 (any-false _ stages (ground arith));
        of_instances = of_instance.0 (any-false _ instances (ground arith));
      },
      λ f.
          let a : any stage_downgraded stages ≡ false =
            any-false_of _ stages (of_stage.1 f.of_stages) in
          let b : any instance_downgraded instances ≡ false =
            any-false_of _ instances (of_instance.1 f.of_instances) in
          rw (a, b) refl,
    )

-- For a task that is neither terminal nor archived, the aggregate is SUCCEEDED exactly when its work
-- is complete and no stage and no instance was downgraded: none that was required at first is optional
-- now, after it had been activated and with an authorization.
pub aggregate_task-IsFullStrength :
    (task : Task) (stages : List Stage) (instances : List Instance)
    → is_open task.status ≡ true
    → (aggregate_task task stages instances false ≡ succeeded)
      ↔ (IsComplete stages instances × IsFullStrength stages instances)
unfolding aggregate_task
aggregate_task-IsFullStrength task stages instances o = (
  λ h.
      let c : IsComplete stages instances = work-IsComplete stages instances (ground arith) in
      (c, (strength stages instances).0 (ground (arith, work-succeeded stages instances c))),
  λ p. ground (arith, work-succeeded stages instances p.0, (strength stages instances).1 p.1),
)
