-- ===== src/Commands/WholeTask/Steps.antt =====
-- backend/harness/domain/service.py: every command on a task moves it by one revision, and keeps what is
-- stored of it well formed.
use agentic_design_harness.Common.{
  eqb, Code, Outcome, ok, guard, >>=-eq-ok, guard-eq-ok, ok_inj, ℕ, ◌+◌, String, ◌≡◌, refl, sym, ap,
  ◌∙◌, subst, Bool, true, Option, none, some, List, arith,
}
use agentic_design_harness.Status.{Status}
use agentic_design_harness.Model.{Task, Plan}
use agentic_design_harness.Topology.{validate_plan}
use agentic_design_harness.Commands.{Saved, Envelope, persist_aggregate}
use agentic_design_harness.Commands.Tasks.{PlanMode}
use agentic_design_harness.Commands.Saving.{Stored, save_plan}
use agentic_design_harness.Commands.Validity.{Runs, persisted}
use agentic_design_harness.Commands.WholeTask.{
  landed, land, put_task, persist, commit_task, rename_task, update_task_input, archive_stored,
  cancel_stored, restore_archived,
}
use agentic_design_harness.Commands.Requests.{PlanRequest}

-- A task but for its input manifest and the time of its last change.
abbrev pub task_core : Task → Task
task_core t = record t { input_manifest = ""; updated_at = 0 }

module _ (valid : Task → Outcome (Unit {0})) (schema : Plan → Bool) where
  -- The commands on a stored task.
  pub data TaskCommand (stored : Stored) (envelope : Envelope) : Outcome Stored → Type 0 where
    renames :
        (title : String) (now : ℕ)
        → TaskCommand stored envelope (rename_task valid schema stored title envelope now)
    registers_input :
        (manifest : String) (now : ℕ)
        → TaskCommand stored envelope (update_task_input valid schema stored manifest envelope now)
    saves_plan :
        (mode : PlanMode) (expected : Option ℕ) (request : PlanRequest) (now : ℕ)
        → TaskCommand stored envelope
            (land (save_plan schema stored mode envelope expected request now))
    runs_on_plan :
        (plan : Plan) {result : Outcome Saved}
        → stored.plan ≡ some plan
        → Runs schema (record { plan = plan; task_revision = stored.task_revision }) envelope result
        → TaskCommand stored envelope (land result)
    archives_task :
        (now : ℕ) → TaskCommand stored envelope (archive_stored valid schema stored envelope now)
    cancels_task :
        (now : ℕ) → TaskCommand stored envelope (cancel_stored valid schema stored envelope now)
    restores_task :
        (restores : List (String × Status)) (target : Status) (now : ℕ)
        → TaskCommand stored envelope
            (restore_archived valid schema stored restores target envelope now)

  -- A task without a plan, or with a valid plan whose copy of the task is the stored one, but for the
  -- input manifest and the time of the last change.
  pub data IsWellFormed (stored : Stored) : Type 0 where
    unplanned : stored.plan ≡ none → IsWellFormed stored
    planned_well :
        (plan : Plan)
        → stored.plan ≡ some plan
        → validate_plan schema plan ≡ ok tt
        → task_core plan.task ≡ task_core stored.task
        → IsWellFormed stored

  -- A command was sent for the revision of the task and moved it to the next one.
  pub record IsStep (stored : Stored) (envelope : Envelope) (after : Stored) : Type 0 where
    pub was_current : envelope.expected_revision ≡ stored.task_revision
    pub is_next : after.task_revision ≡ stored.task_revision + 1
    pub stays_formed : IsWellFormed stored → IsWellFormed after

  pub land-eq-ok :
      (result : Outcome Saved) (after : Stored)
      → land result ≡ ok after
      → (saved : Saved) × (result ≡ ok saved) × (landed saved ≡ after)
  land-eq-ok result after h = let (saved, r, e) = >>=-eq-ok result _ h in (saved, r, ok_inj e)

  landed-IsWellFormed :
      (saved : Saved) → validate_plan schema saved.plan ≡ ok tt → IsWellFormed (landed saved)
  landed-IsWellFormed saved v = planned_well saved.plan refl v refl

  -- A step that lands a plan.
  pub landing :
      (stored : Stored) (envelope : Envelope) (saved : Saved) (after : Stored)
      → envelope.expected_revision ≡ stored.task_revision
      → saved.task_revision ≡ stored.task_revision + 1
      → validate_plan schema saved.plan ≡ ok tt
      → landed saved ≡ after
      → IsStep stored envelope after
  landing stored envelope saved after c n v e =
      subst (λ (s : Stored). IsStep stored envelope s) e
        (record { was_current = c; is_next = n; stays_formed = λ _. landed-IsWellFormed saved v })

  pub persist-IsStep :
      (stored : Stored) (envelope : Envelope) (plan : Plan) (after : Stored)
      → eqb envelope.expected_revision stored.task_revision ≡ true
      → persist valid schema stored plan ≡ ok after
      → IsStep stored envelope after
  persist-IsStep stored envelope plan after c h =
      let before : Saved = record { plan = plan; task_revision = stored.task_revision } in
      let (saved, r, e) = land-eq-ok (persist_aggregate schema before plan) after h in
      let k = persisted schema before saved envelope plan c r in
      landing stored envelope saved after k.was_current k.is_next k.is_valid e

  -- What a put leaves.
  pub put_task-eq-ok :
      (stored : Stored) (expected : ℕ) (task : Task) (after : Stored)
      → put_task valid schema stored expected task ≡ ok after
      → (expected ≡ stored.task_revision)
        × (record stored { task = task; task_revision = stored.task_revision + 1 } ≡ after)
  unfolding put_task
  put_task-eq-ok stored expected task after h =
      let (_, _, h1) = >>=-eq-ok (valid task) _ h in
      let (_, g, e) =
        >>=-eq-ok (guard (eqb expected stored.task_revision) Code.revision_conflict) _ h1 in
      let same = guard-eq-ok (eqb expected stored.task_revision) _ g in
      (ground (arith, same), ok_inj e)

  pub put_task-IsStep :
      (stored : Stored) (envelope : Envelope) (task : Task) (after : Stored)
      → eqb envelope.expected_revision stored.task_revision ≡ true
      → stored.plan ≡ none
      → put_task valid schema stored stored.task_revision task ≡ ok after
      → IsStep stored envelope after
  put_task-IsStep stored envelope task after c p h =
      let (_, e) = put_task-eq-ok stored stored.task_revision task after h in
      record {
        was_current = ground (arith, c);
        is_next = ap (λ (s : Stored). s.task_revision) (sym e);
        stays_formed = λ _. unplanned (ap (λ (s : Stored). s.plan) (sym e) ∙ p);
      }

  pub commit_task-IsStep :
      (stored : Stored) (p : Option Plan) (envelope : Envelope) (task : Task) (change : Plan → Plan)
      (after : Stored)
      → stored.plan ≡ p
      → eqb envelope.expected_revision stored.task_revision ≡ true
      → commit_task valid schema stored p task change ≡ ok after
      → IsStep stored envelope after
  unfolding commit_task
  commit_task-IsStep stored none envelope task change after e c h =
      put_task-IsStep stored envelope task after c e h
  commit_task-IsStep stored (some plan) envelope task change after e c h =
      persist-IsStep stored envelope (change plan) after c h
