-- ===== src/Commands/WholeTask/Lost.antt =====
-- backend/harness/domain/service.py: `_update_task_input` changes the stored task and not the plan's copy.
use agentic_design_harness.Common.{
  Outcome, ok, >>=-eq-ok, ok_inj, ℕ, String, ◌≡◌, sym, ap, ◌∙◌, Bool, Option, none, some,
}
use agentic_design_harness.Status.{archived, main_task, transition}
use agentic_design_harness.Model.{Task, Plan}
use agentic_design_harness.Topology.{validate_plan}
use agentic_design_harness.Commands.{Saved, Envelope, set_task, persist_aggregate}
use agentic_design_harness.Commands.Saving.{Stored}
use agentic_design_harness.Commands.WholeTask.{
  current, with_task_status, persist, commit_task, update_task_input, archive_stored,
}
use agentic_design_harness.Commands.WholeTask.Steps.{land-eq-ok, put_task-eq-ok}

module _ (valid : Task → Outcome (Unit {0})) (schema : Plan → Bool) where
  persist-manifest :
      (stored after : Stored) (plan : Plan)
      → persist valid schema stored plan ≡ ok after
      → after.task ≡ plan.task
  unfolding persist_aggregate
  persist-manifest stored after plan h =
      let before : Saved = record { plan = plan; task_revision = stored.task_revision } in
      let (saved, r, e) = land-eq-ok valid schema (persist_aggregate schema before plan) after h in
      let (_, _, e1) = >>=-eq-ok (validate_plan schema plan) _ r in
      ap (λ (s : Stored). s.task) (sym e) ∙ ap (λ (s : Saved). s.plan.task) (sym (ok_inj e1))

  archive-manifest :
      (stored after : Stored) (envelope : Envelope) (now : ℕ) (p : Option Plan) (plan : Plan)
      → p ≡ some plan
      → commit_task valid schema stored p
          (with_task_status archived now stored.task)
          (set_task archived now)
        ≡ ok after
      → after.task.input_manifest ≡ plan.task.input_manifest
  unfolding commit_task
  archive-manifest stored after envelope now none plan e h = cc
  archive-manifest stored after envelope now (some q) plan e h =
      ap (λ (t : Task). t.input_manifest)
        (persist-manifest stored after (set_task archived now q) h)
      ∙ ap (λ o. manifest_of o) e
    where
      manifest_of : Option Plan → String
      manifest_of none = ""
      manifest_of (some p) = p.task.input_manifest

  -- An input manifest that is registered for a task with a plan is lost when the task is archived: the
  -- task has the manifest of the plan's copy again.
  pub update_task_input-lost :
      (stored registered after : Stored) (manifest : String) (first second : Envelope)
      (now later : ℕ) (plan : Plan)
      → stored.plan ≡ some plan
      → update_task_input valid schema stored manifest first now ≡ ok registered
      → archive_stored valid schema registered second later ≡ ok after
      → (registered.task.input_manifest ≡ manifest)
        × (after.task.input_manifest ≡ plan.task.input_manifest)
  unfolding update_task_input archive_stored
  update_task_input-lost stored registered after manifest first second now later plan p h k =
      let task : Task = record stored.task { input_manifest = manifest; updated_at = now } in
      let (_, e) = put_task-eq-ok valid schema stored first.expected_revision task registered h in
      let (_, _, k1) = >>=-eq-ok (current second registered) _ k in
      let (_, _, k2) = >>=-eq-ok (transition main_task registered.task.status archived) _ k1 in
      (
        ap (λ (s : Stored). s.task.input_manifest) (sym e),
        archive-manifest registered after second later registered.plan plan
            (ap (λ (s : Stored). s.plan) (sym e) ∙ p) k2,
      )
