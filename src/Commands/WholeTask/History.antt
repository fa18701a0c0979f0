-- ===== src/Commands/WholeTask/History.antt =====
-- backend/harness/domain/service.py: histories of commands on one task.
use agentic_design_harness.Common.{
  eqb, if◌then◌else◌, is_empty, count, Code, Outcome, ok, guard, >>=-eq-ok, guard-eq-ok, ok_inj, ℕ,
  suc, ◌+◌, String, ◌≡◌, refl, sym, ap, ◌∙◌, ◌≢◌, Bool, true, ◌||◌, Option, none, some, List, arith,
}
use agentic_design_harness.Status.{Status, cancelled, archived, main_task, same_status, transition}
use agentic_design_harness.Model.{Task, Plan}
use agentic_design_harness.Commands.{Saved, Envelope, set_task}
use agentic_design_harness.Commands.Tasks.{PlanMode, cancelled_plan}
use agentic_design_harness.Commands.Requests.{PlanRequest}
use agentic_design_harness.Commands.Saving.{Stored, save_plan}
use agentic_design_harness.Commands.Saving.Committed.{save_plan-IsSaved}
use agentic_design_harness.Commands.Validity.{Runs, Runs-IsCommitted}
use agentic_design_harness.Commands.WholeTask.{
  TaskRequest, new_task, stored_revision, land, current, with_task_status, restored_plan,
  create_task, renamed, rename_task, update_task_input, archive_stored, cancel_stored,
  restore_stored, restore_archived,
}
use agentic_design_harness.Commands.WholeTask.Steps.{
  task_core, TaskCommand, renames, registers_input, saves_plan, runs_on_plan, archives_task,
  cancels_task, restores_task, IsWellFormed, unplanned, planned_well, IsStep, land-eq-ok, landing,
  persist-IsStep, put_task-eq-ok, put_task-IsStep, commit_task-IsStep,
}

module _ (valid : Task → Outcome (Unit {0})) (schema : Plan → Bool) where
  module _ (stored : Stored) (envelope : Envelope) (after : Stored) where
    abbrev Steps : Outcome Stored → Type 0
    Steps result = result ≡ ok after → IsStep valid schema stored envelope after

    current-eqb :
        current envelope stored ≡ ok tt → eqb envelope.expected_revision stored.task_revision ≡ true
    current-eqb h = guard-eq-ok _ _ h

    rename_task-IsStep :
        (title : String) (now : ℕ) → Steps (rename_task valid schema stored title envelope now)
    unfolding rename_task
    rename_task-IsStep title now h =
        let (_, c, h1) = >>=-eq-ok (current envelope stored) _ h in
        commit_task-IsStep valid schema stored stored.plan envelope
          (renamed valid schema stored title now)
          (λ (plan : Plan). record plan { task = renamed valid schema stored title now }) after refl
          (current-eqb c) h1

    archive_stored-IsStep : (now : ℕ) → Steps (archive_stored valid schema stored envelope now)
    unfolding archive_stored
    archive_stored-IsStep now h =
        let (_, c, h1) = >>=-eq-ok (current envelope stored) _ h in
        let (_, _, h2) = >>=-eq-ok (transition main_task stored.task.status archived) _ h1 in
        commit_task-IsStep valid schema stored stored.plan envelope
          (with_task_status archived now stored.task) (set_task archived now) after refl
          (current-eqb c) h2

    cancel_stored-IsStep : (now : ℕ) → Steps (cancel_stored valid schema stored envelope now)
    unfolding cancel_stored
    cancel_stored-IsStep now h =
        let (_, c, h1) = >>=-eq-ok (current envelope stored) _ h in
        let (_, _, h2) = >>=-eq-ok (transition main_task stored.task.status cancelled) _ h1 in
        commit_task-IsStep valid schema stored stored.plan envelope
          (with_task_status cancelled now stored.task)
          (λ (plan : Plan). set_task cancelled now (cancelled_plan plan)) after refl (current-eqb c)
          h2

    restore_stored-IsStep :
        (p : Option Plan) (was : Bool) (restores : List (String × Status)) (target : Status)
        (now : ℕ)
        → stored.plan ≡ p
        → eqb envelope.expected_revision stored.task_revision ≡ true
        → Steps (restore_stored valid schema stored p was restores target now)
    unfolding restore_stored
    restore_stored-IsStep none was restores target now e c h =
        let (_, _, h1) =
          >>=-eq-ok (if was then transition main_task archived target else ok tt) _ h in
        let (_, _, h2) = >>=-eq-ok (guard (is_empty restores) Code.instance_not_found) _ h1 in
        put_task-IsStep valid schema stored envelope (with_task_status target now stored.task) after
          c e h2
    restore_stored-IsStep (some plan) was restores target now e c h =
        let (restored, _, h1) = >>=-eq-ok (restored_plan was restores target now plan) _ h in
        persist-IsStep valid schema stored envelope restored after c h1

    restore_archived-IsStep :
        (restores : List (String × Status)) (target : Status) (now : ℕ)
        → Steps (restore_archived valid schema stored restores target envelope now)
    unfolding restore_archived
    restore_archived-IsStep restores target now h =
        let was : Bool = same_status stored.task.status archived in
        let (_, c, h1) = >>=-eq-ok (current envelope stored) _ h in
        let (_, _, h2) =
          >>=-eq-ok
            (guard (was || same_status stored.task.status target) Code.invalid_state_transition) _
            h1 in
        restore_stored-IsStep stored.plan was restores target now refl (current-eqb c) h2

    save_plan-IsStep :
        (mode : PlanMode) (expected : Option ℕ) (request : PlanRequest) (now : ℕ)
        → Steps (land (save_plan schema stored mode envelope expected request now))
    save_plan-IsStep mode expected request now h =
        let (saved, r, e) =
          land-eq-ok valid schema (save_plan schema stored mode envelope expected request now) after
            h in
        let k = save_plan-IsSaved schema stored mode envelope expected request now saved r in
        landing valid schema stored envelope saved after k.was_current k.is_next k.is_valid e

    Runs-IsStep :
        (plan : Plan) (result : Outcome Saved)
        → Runs schema (record { plan = plan; task_revision = stored.task_revision }) envelope result
        → Steps (land result)
    Runs-IsStep plan result run h =
        let before : Saved = record { plan = plan; task_revision = stored.task_revision } in
        let (saved, r, e) = land-eq-ok valid schema result after h in
        let k = Runs-IsCommitted schema before saved envelope result run r in
        landing valid schema stored envelope saved after k.was_current k.is_next k.is_valid e

    -- The registration keeps the plan; the task changes in its manifest alone.
    registered_core :
        (task : Task)
        → task_core task ≡ task_core stored.task
        → record stored { task = task; task_revision = stored.task_revision + 1 } ≡ after
        → IsWellFormed valid schema stored
        → IsWellFormed valid schema after
    registered_core task same e (unplanned p) = unplanned (ap (λ (s : Stored). s.plan) (sym e) ∙ p)
    registered_core task same e (planned_well plan p v c) =
        planned_well plan (ap (λ (s : Stored). s.plan) (sym e) ∙ p) v
          (c ∙ sym same ∙ ap (λ (s : Stored). task_core s.task) e)

    update_task_input-IsStep :
        (manifest : String) (now : ℕ)
        → Steps (update_task_input valid schema stored manifest envelope now)
    unfolding update_task_input
    update_task_input-IsStep manifest now h =
        let task : Task = record stored.task { input_manifest = manifest; updated_at = now } in
        let (c, e) = put_task-eq-ok valid schema stored envelope.expected_revision task after h in
        record {
          was_current = c;
          is_next = ap (λ (s : Stored). s.task_revision) (sym e);
          stays_formed = registered_core task refl e;
        }

    -- Every command on a task that succeeds was sent for the current revision, moves the task to the
    -- next revision, and keeps what is stored well formed.
    pub TaskCommand-IsStep :
        (result : Outcome Stored) → TaskCommand valid schema stored envelope result → Steps result
    TaskCommand-IsStep result (renames title now) h = rename_task-IsStep title now h
    TaskCommand-IsStep result (registers_input manifest now) h =
        update_task_input-IsStep manifest now h
    TaskCommand-IsStep result (saves_plan mode expected request now) h =
        save_plan-IsStep mode expected request now h
    TaskCommand-IsStep result (runs_on_plan plan e run) h = Runs-IsStep plan _ run h
    TaskCommand-IsStep result (archives_task now) h = archive_stored-IsStep now h
    TaskCommand-IsStep result (cancels_task now) h = cancel_stored-IsStep now h
    TaskCommand-IsStep result (restores_task restores target now) h =
        restore_archived-IsStep restores target now h

  -- What a task and its plan can become by commands, and how many there were.
  pub data Reach : ℕ → Stored → Type 0 where
    created_first :
        {stored : Stored} (before : Option Stored) (request : TaskRequest) (envelope : Envelope)
        (now : ℕ)
        → create_task valid schema before request envelope now ≡ ok stored
        → Reach 0 stored
    commanded :
        {n : ℕ} {stored after : Stored} (envelope : Envelope) (result : Outcome Stored)
        → Reach n stored
        → TaskCommand valid schema stored envelope result
        → result ≡ ok after
        → Reach (suc n) after

  create_task-eq-ok :
      (before : Option Stored) (request : TaskRequest) (envelope : Envelope) (now : ℕ)
      (stored : Stored)
      → create_task valid schema before request envelope now ≡ ok stored
      → record { task = new_task request now; task_revision = 1; plan = none } ≡ stored
  unfolding create_task
  create_task-eq-ok before request envelope now stored h =
      let (_, _, h1) =
        >>=-eq-ok (guard (eqb envelope.expected_revision 0) Code.revision_conflict) _ h in
      let (_, _, h2) = >>=-eq-ok (valid (new_task request now)) _ h1 in
      let (_, _, e) =
        >>=-eq-ok (guard (eqb 0 (stored_revision before)) Code.revision_conflict) _ h2 in
      ok_inj e

  -- After any history of commands the task has no plan, or a valid one whose copy of the task is the
  -- stored task but for the input manifest and the time of the last change; and the revision of the
  -- task is one more than the number of commands after its creation.
  pub Reach-IsWellFormed :
      (n : ℕ) (stored : Stored)
      → Reach n stored
      → IsWellFormed valid schema stored × (stored.task_revision ≡ n + 1)
  Reach-IsWellFormed n stored (created_first before request envelope now h) =
      let e = create_task-eq-ok before request envelope now stored h in
      (
        unplanned (ap (λ (s : Stored). s.plan) (sym e)),
        ap (λ (s : Stored). s.task_revision) (sym e),
      )
  Reach-IsWellFormed n after (commanded {n = m} {stored = stored} envelope result r c h) =
      let (formed, count) = Reach-IsWellFormed m stored r in
      let step = TaskCommand-IsStep stored envelope after result c h in
      (step.stays_formed formed, omega (arith, count, step.is_next))

  -- Of two commands that were sent for one revision of a task, the second to come does not succeed.
  pub TaskCommand-wins_once :
      (stored after last : Stored) (first second : Envelope) (r₁ r₂ : Outcome Stored)
      → TaskCommand valid schema stored first r₁
      → r₁ ≡ ok after
      → TaskCommand valid schema after second r₂
      → second.expected_revision ≡ first.expected_revision
      → r₂ ≢ ok last
  TaskCommand-wins_once stored after last first second r₁ r₂ c₁ h₁ c₂ e h₂ =
      let one = TaskCommand-IsStep stored first after r₁ c₁ h₁ in
      let two = TaskCommand-IsStep after second last r₂ c₂ h₂ in
      omega (arith, one.was_current, one.is_next, two.was_current, e)
