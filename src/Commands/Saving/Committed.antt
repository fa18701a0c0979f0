-- ===== src/Commands/Saving/Committed.antt =====
-- backend/harness/domain/service.py: what a plan save commits, and that the preflight accepts it.
use agentic_design_harness.Common.{
  eqb, if◌then◌else◌, Code, Outcome, ok, err, fault, guard, require, ◌>>=◌, ◌>>◌, >>=-eq-ok,
  guard-eq-ok, ok_inj, if-eq-ok, ℕ, ◌+◌, ◌≡◌, refl, sym, ap, ◌∙◌, inl, inr, Bool, true, false,
  Option, none, some, [], arith, ◌==◌,
}
use agentic_design_harness.Status.{
  Status, planned, awaiting_start_confirmation, main_task, same_status, transition,
}
use agentic_design_harness.Model.{Task, Plan}
use agentic_design_harness.Aggregate.{aggregate_task}
use agentic_design_harness.Topology.{validate_plan}
use agentic_design_harness.Commands.{
  Saved, Envelope, instance_index, validate_task_reaggregation, activate_current_stages, set_task,
  persist_aggregate,
}
use agentic_design_harness.Commands.Tasks.{
  PlanMode, replaces, appends, merges, guard_plan_save_state,
}
use agentic_design_harness.Commands.Requests.{PlanRequest, refresh_new_stages, refresh_new}
use agentic_design_harness.Commands.Saving.{
  Stored, saved_plan_revision, normalize, admit_plan, admit_request, requested_plan_revision,
  normalize_request, validate_plan_request, settle_append, settle_replace, settle_plan, save_plan,
}
use agentic_design_harness.Commands.Validity.{persisted}
use agentic_design_harness.Commands.Saving.Landed.{activate_current_stages-core}
use agentic_design_harness.Commands.Normalization.{
  complete_plan, fresh_plan, normalize_plan, extended_plan, check_append, normalize_append,
  check_merge, merged_plan, merged_cards, normalize_merge,
}

-- The plan revision of a plan.
abbrev revision_of : Plan → ℕ
revision_of plan = plan.task.plan_revision

complete_plan-task :
    (schema : Plan → Bool) (unchecked plan : Plan)
    → complete_plan schema unchecked ≡ ok plan
    → plan.task ≡ unchecked.task
unfolding complete_plan
complete_plan-task schema unchecked plan h =
    let (p, r, h1) = >>=-eq-ok (refresh_new unchecked) _ h in
    let (_, _, e) = >>=-eq-ok (validate_plan schema p) _ h1 in
    let (_, _, e0) =
      >>=-eq-ok (refresh_new_stages (instance_index unchecked) [] unchecked.stages) _ r in
    ap (λ (p : Plan). p.task) (sym (ok_inj e) ∙ sym (ok_inj e0))

normalize-revision :
    (schema : Plan → Bool) (stored : Stored) (mode : PlanMode) (request : PlanRequest) (now : ℕ)
    (plan : Plan)
    → normalize schema stored mode request now ≡ ok plan
    → revision_of plan ≡ saved_plan_revision stored
unfolding normalize normalize_plan normalize_append normalize_merge
normalize-revision schema stored appends request now plan h =
    let (existing, _, h1) = >>=-eq-ok (require stored.plan Code.task_not_found) _ h in
    let (_, _, h2) = >>=-eq-ok (check_append existing request) _ h1 in
    ap (λ (t : Task). t.plan_revision)
      (complete_plan-task schema
        (extended_plan stored.task existing (saved_plan_revision stored) request now) plan h2)
normalize-revision schema stored merges request now plan h =
    let (existing, _, h1) = >>=-eq-ok (require stored.plan Code.task_not_found) _ h in
    let (_, _, h2) = >>=-eq-ok (check_merge existing request) _ h1 in
    let (cards, _, h3) = >>=-eq-ok (merged_cards stored.task existing request now) _ h2 in
    let (_, _, e) =
      >>=-eq-ok
        (validate_plan schema
          (merged_plan stored.task existing (saved_plan_revision stored) cards now))
        _ h3 in
    ap revision_of (sym (ok_inj e))
normalize-revision schema stored replaces request now plan h =
    ap (λ (t : Task). t.plan_revision)
      (complete_plan-task schema (fresh_plan stored.task (saved_plan_revision stored) request now)
        plan h)

activate_current_stages-revision :
    (now : ℕ) (plan plan' : Plan)
    → activate_current_stages now plan ≡ ok plan'
    → revision_of plan' ≡ revision_of plan
activate_current_stages-revision now plan plan' h =
    ap revision_of (activate_current_stages-core now plan plan' h)

settle_append-revision :
    (now : ℕ) (plan plan' : Plan)
    → settle_append now plan ≡ ok plan'
    → revision_of plan' ≡ revision_of plan
unfolding settle_append
settle_append-revision now plan plan' h =
    let (active, a, h1) = >>=-eq-ok (activate_current_stages now plan) _ h in
    let same = activate_current_stages-revision now plan active a in
    let target : Status = aggregate_task active.task active.stages active.instances false in
    elim (if-eq-ok (same_status target active.task.status) _ _ h1) [
      | inl (_, e) ↦ ap revision_of (sym (ok_inj e)) ∙ same
      | inr (_, h2) ↦
          let (_, _, e) = >>=-eq-ok (transition main_task active.task.status target) _ h2 in
          ap revision_of (sym (ok_inj e)) ∙ same
    ]

settle_replace-revision :
    (task : Task) (now : ℕ) (plan plan' : Plan)
    → settle_replace task now plan ≡ ok plan'
    → revision_of plan' ≡ revision_of plan
unfolding settle_replace
settle_replace-revision task now plan plan' h =
    let (_, _, h1) =
      >>=-eq-ok
        (if same_status task.status planned
          then ok tt
          else transition main_task task.status planned)
        _ h in
    elim (if-eq-ok (task.start_policy == "manual") _ _ h1) [
      | inl (_, h2) ↦
          let (_, _, e) =
            >>=-eq-ok (transition main_task planned awaiting_start_confirmation) _ h2 in
          ap revision_of (sym (ok_inj e))
      | inr (_, h2) ↦
          let start : Plan = set_task planned now plan in
          let (active, a, h3) = >>=-eq-ok (activate_current_stages now start) _ h2 in
          let target : Status = aggregate_task active.task active.stages active.instances false in
          let (_, _, e) = >>=-eq-ok (validate_task_reaggregation planned target) _ h3 in
          ap revision_of (sym (ok_inj e)) ∙ activate_current_stages-revision now start active a
    ]

settle_plan-revision :
    (stored : Stored) (mode : PlanMode) (now : ℕ) (plan plan' : Plan)
    → settle_plan stored mode now plan ≡ ok plan'
    → revision_of plan' ≡ revision_of plan
unfolding settle_plan
settle_plan-revision stored appends now plan plan' h = settle_append-revision now plan plan' h
settle_plan-revision stored merges now plan plan' h = ap revision_of (sym (ok_inj h))
settle_plan-revision stored replaces now plan plan' h =
    settle_replace-revision stored.task now plan plan' h

-- A save was sent for the current revision of the task, and its result is a valid plan at the next
-- revision, whose plan revision is the next one.
pub record IsSaved (schema : Plan → Bool) (stored : Stored) (envelope : Envelope) (saved : Saved)
    : Type 0 where
  pub was_current : envelope.expected_revision ≡ stored.task_revision
  pub is_next : saved.task_revision ≡ stored.task_revision + 1
  pub is_valid : validate_plan schema saved.plan ≡ ok tt
  pub is_revised : saved.plan.task.plan_revision ≡ saved_plan_revision stored

-- The steps of a save that has succeeded.
pub record SaveSteps (schema : Plan → Bool) (stored : Stored) (mode : PlanMode)
    (envelope : Envelope) (expected : Option ℕ) (request : PlanRequest) (now : ℕ) (saved : Saved)
    : Type 0 where
  pub normalized : Plan
  pub admitted : admit_plan stored mode envelope.expected_revision expected ≡ ok tt
  pub was_normalized : normalize schema stored mode request now ≡ ok normalized
  pub was_settled : settle_plan stored mode now normalized ≡ ok saved.plan

module _ (schema : Plan → Bool) (stored : Stored) (mode : PlanMode) (envelope : Envelope)
    (expected : Option ℕ) (request : PlanRequest) (now : ℕ) (saved : Saved)
    (success : save_plan schema stored mode envelope expected request now ≡ ok saved) where
  persist_aggregate-plan :
      (before after : Saved) (plan : Plan)
      → persist_aggregate schema before plan ≡ ok after
      → plan ≡ after.plan
  unfolding persist_aggregate
  persist_aggregate-plan before after plan h =
      let (_, _, e) = >>=-eq-ok (validate_plan schema plan) _ h in
      ap (λ (s : Saved). s.plan) (ok_inj e)

  pub save_plan-steps : SaveSteps schema stored mode envelope expected request now saved
  unfolding save_plan
  save_plan-steps =
      let (_, a, h1) =
        >>=-eq-ok (admit_plan stored mode envelope.expected_revision expected) _ success in
      let (normalized, n, h2) = >>=-eq-ok (normalize schema stored mode request now) _ h1 in
      let (plan, s, h3) = >>=-eq-ok (settle_plan stored mode now normalized) _ h2 in
      record {
        normalized = normalized;
        admitted = a;
        was_normalized = n;
        was_settled =
            s
            ∙ ap ok (
                persist_aggregate-plan
                  (record { plan = plan; task_revision = stored.task_revision }) saved plan h3);
      }

  save_plan-current : eqb envelope.expected_revision stored.task_revision ≡ true
  unfolding admit_plan
  save_plan-current =
      let (_, _, h1) =
        >>=-eq-ok (guard_plan_save_state stored.task.status mode) _ save_plan-steps.admitted in
      let (_, c, _) =
        >>=-eq-ok
          (guard (eqb envelope.expected_revision stored.task_revision) Code.revision_conflict) _
          h1 in
      guard-eq-ok _ _ c

  -- A save that succeeds was sent for the current revision of the task; what it stores is a valid plan
  -- at the next revision of the task, and its plan revision is the next one if there was a plan before,
  -- and the task's own if there was none.
  pub save_plan-IsSaved : IsSaved schema stored envelope saved
  unfolding save_plan
  save_plan-IsSaved =
      let (_, a, h1) =
        >>=-eq-ok (admit_plan stored mode envelope.expected_revision expected) _ success in
      let (normalized, n, h2) = >>=-eq-ok (normalize schema stored mode request now) _ h1 in
      let (plan, s, h3) = >>=-eq-ok (settle_plan stored mode now normalized) _ h2 in
      let before : Saved = record { plan = plan; task_revision = stored.task_revision } in
      let committed = persisted schema before saved envelope plan save_plan-current h3 in
      record {
        was_current = committed.was_current;
        is_next = committed.is_next;
        is_valid = committed.is_valid;
        is_revised =
            ap revision_of (sym (persist_aggregate-plan before saved plan h3))
            ∙ settle_plan-revision stored mode now normalized plan s
            ∙ normalize-revision schema stored mode request now normalized n;
      }

requested_plan_revision-saved :
    (stored : Stored) → requested_plan_revision stored ≡ saved_plan_revision stored
unfolding requested_plan_revision
requested_plan_revision-saved stored = ground arith

module _ (schema : Plan → Bool) (stored : Stored) (mode : PlanMode) (request : PlanRequest)
    (now : ℕ) where
  admit_request-admit_plan :
      (expected_revision : ℕ) (expected : Option ℕ)
      → admit_request stored mode expected_revision expected
        ≡ admit_plan stored mode expected_revision expected
  unfolding admit_request admit_plan
  admit_request-admit_plan expected_revision none = refl
  admit_request-admit_plan expected_revision (some n) = refl

  normalize_request-normalize :
      (m : PlanMode)
      → normalize_request schema stored m request now ≡ normalize schema stored m request now
  unfolding normalize_request normalize
  normalize_request-normalize appends = rw (requested_plan_revision-saved stored) refl
  normalize_request-normalize merges = rw (requested_plan_revision-saved stored) refl
  normalize_request-normalize replaces = rw (requested_plan_revision-saved stored) refl

  -- The check that is made before credentials are allocated, which repeats the tests of `_save_plan`,
  -- never gets in the way of a save, and never adds an error: where it accepts the request the save goes
  -- on as without it, and where it raises an error the save would raise the same one. In particular what
  -- can be saved passes the check.
  pub save_plan-validate_plan_request :
      (envelope : Envelope) (expected : Option ℕ)
      → (validate_plan_request schema stored mode envelope.expected_revision expected request now
          >> save_plan schema stored mode envelope expected request now)
        ≡ save_plan schema stored mode envelope expected request now
  unfolding validate_plan_request save_plan
  save_plan-validate_plan_request envelope expected =
      rw
        (
          admit_request-admit_plan envelope.expected_revision expected,
          normalize_request-normalize mode,
        )
        (checked_first (admit_plan stored mode envelope.expected_revision expected)
          (normalize schema stored mode request now)
          (λ normalized. settle_plan stored mode now normalized >>= λ plan.
            persist_aggregate schema (record { plan = plan; task_revision = stored.task_revision })
              plan))
    where
      -- Two statements that are run twice raise what they raise the first time.
      checked_first :
          (first : Outcome (Unit {0})) (second : Outcome Plan) (rest : Plan → Outcome Saved)
          → (first >> (second >>= λ plan. ok tt)) >> (first >> (second >>= rest))
            ≡ (first >> (second >>= rest))
      checked_first (ok u) (ok plan) rest = refl
      checked_first (ok u) (err e) rest = refl
      checked_first (ok u) (fault e) rest = refl
      checked_first (err e) second rest = refl
      checked_first (fault e) second rest = refl
