-- ===== src/Aggregate/Order.antt =====
-- backend/harness/domain/state_machine.py: aggregation reads sets of stages and instances.
use agentic_design_harness.Common.{
  all, keep, any-perm, all-perm, all-keep, ◌≡◌, sym, ◌∙◌, Bool, ◌&&◌, ◌||◌, not, List, arith,
}
use agentic_design_harness.Model.{Task, Stage, Instance}
use agentic_design_harness.Aggregate.{
  is_active, is_waiting, is_failed, is_unavailable, is_succeeded, stage_downgraded,
  instance_downgraded, aggregate_task,
}
use mathlib.Core.List.{Perm}

all-keep-perm :
    {xs ys : List Stage} (p q : Stage → Bool) → Perm xs ys → all p (keep q xs) ≡ all p (keep q ys)
all-keep-perm {xs} {ys} p q r =
    all-keep p q xs ∙ all-perm (λ x. not (q x) || p x) r ∙ sym (all-keep p q ys)

-- The aggregate status of a task does not depend on the order of its stages and instances.
pub aggregate_task-perm :
    (task : Task) (preserve : Bool) {stages stages' : List Stage}
    {instances instances' : List Instance}
    → Perm stages stages'
    → Perm instances instances'
    → aggregate_task task stages instances preserve
      ≡ aggregate_task task stages' instances' preserve
unfolding aggregate_task
aggregate_task-perm task preserve {stages} {stages'} {instances} {instances'} s i = ground (
  arith,
  any-perm (λ (x : Instance). x.required && is_waiting x.status) i,
  any-perm (λ (x : Instance). is_active x.status) i,
  any-perm (λ (x : Instance). x.required && is_failed x.status) i,
  any-perm (λ (x : Stage). x.required && is_unavailable x.status) s,
  all-keep-perm (λ (x : Stage). is_succeeded x.status) (λ (x : Stage). x.required) s,
  any-perm stage_downgraded s,
  any-perm instance_downgraded i,
)
