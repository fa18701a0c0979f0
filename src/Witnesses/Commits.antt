-- ===== src/Witnesses/Commits.antt =====
-- The theorem on the writes of a plan commit at a concrete input.
use agentic_design_harness.Common.{◌≡◌, Bool, true, false, none, some, [], ◌∷◌}
use agentic_design_harness.Status.{pending}
use agentic_design_harness.Commands.Projections.{Board}
use agentic_design_harness.Commands.Projections.Crash.{IsDurable, aggregate_writes-IsDurable}
use agentic_design_harness.Witnesses.Samples.{running_task, image_stage, sample_plan}

-- The comparison that takes no two objects for equal, so that every file is written.
abbrev never : {V : Type 0} → V → V → Bool
never a b = false

never_sound : {V : Type 0} (a b : V) → never a b ≡ true → a ≡ b
never_sound a b e = cc

abbrev old_files : Board
old_files = record {
  plan = none;
  task = some running_task;
  stages = ("old", image_stage pending) ∷ [];
  instances = [];
}

aggregate_writes-IsDurable_example :
    IsDurable never never never never_sound never_sound never_sound true sample_plan old_files
aggregate_writes-IsDurable_example =
    aggregate_writes-IsDurable never never never never_sound never_sound never_sound true
      sample_plan old_files
