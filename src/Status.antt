-- ===== src/Status.antt =====
-- contracts/v1/catalogs/status-codes.json and backend/harness/domain/state_machine.py: the frozen
-- status names and `StateMachine.transition`.
use agentic_design_harness.Common.{ℕ, Bool, List, [], ◌∷◌, eqb, Outcome, Code, guard, any}

-- The names of all five kinds; several kinds share a name.
pub data Status : Type 0 where
  draft planned awaiting_start_confirmation running waiting_approval blocked_unavailable : Status
  failed succeeded partial cancelled archived : Status
  pending ready unavailable skipped : Status
  created starting failed_to_start crashed superseded stopped : Status
  approved rejected candidate published corrupted : Status

pub data Kind : Type 0 where
  main_task stage agent_instance approval_request delivery : Kind

-- A number for each name, by which names are compared.
unfoldable pub status_code : Status → ℕ
status_code draft = 0
status_code planned = 1
status_code awaiting_start_confirmation = 2
status_code running = 3
status_code waiting_approval = 4
status_code blocked_unavailable = 5
status_code failed = 6
status_code succeeded = 7
status_code partial = 8
status_code cancelled = 9
status_code archived = 10
status_code pending = 11
status_code ready = 12
status_code unavailable = 13
status_code skipped = 14
status_code created = 15
status_code starting = 16
status_code failed_to_start = 17
status_code crashed = 18
status_code superseded = 19
status_code stopped = 20
status_code approved = 21
status_code rejected = 22
status_code candidate = 23
status_code published = 24
status_code corrupted = 25

unfoldable pub same_status : Status → Status → Bool
unfolding status_code
same_status s t = eqb (status_code s) (status_code t)

unfoldable pub member : Status → List Status → Bool
unfolding same_status
member s l = any (same_status s) l

-- `catalog[kind]["transitions"].get(current, [])`
unfoldable pub transitions : Kind → Status → List Status
transitions main_task draft = planned ∷ cancelled ∷ archived ∷ []
transitions main_task planned =
    awaiting_start_confirmation ∷ running ∷ blocked_unavailable ∷ cancelled ∷ archived ∷ []
transitions main_task awaiting_start_confirmation =
    running ∷ blocked_unavailable ∷ cancelled ∷ archived ∷ []
transitions main_task running =
    waiting_approval ∷ blocked_unavailable ∷ failed ∷ succeeded ∷ partial ∷ cancelled ∷ archived
    ∷ []
transitions main_task waiting_approval =
    running ∷ blocked_unavailable ∷ failed ∷ succeeded ∷ partial ∷ cancelled ∷ archived ∷ []
transitions main_task blocked_unavailable = planned ∷ running ∷ partial ∷ cancelled ∷ archived ∷ []
transitions main_task failed = planned ∷ running ∷ partial ∷ cancelled ∷ archived ∷ []
transitions main_task succeeded = archived ∷ []
transitions main_task partial = archived ∷ []
transitions main_task cancelled = archived ∷ []
transitions main_task archived =
    draft ∷ planned ∷ awaiting_start_confirmation ∷ running ∷ waiting_approval ∷ blocked_unavailable
    ∷ failed ∷ succeeded ∷ partial ∷ cancelled ∷ []
transitions stage pending = ready ∷ unavailable ∷ skipped ∷ cancelled ∷ []
transitions stage ready = running ∷ failed ∷ unavailable ∷ skipped ∷ cancelled ∷ []
transitions stage running = waiting_approval ∷ succeeded ∷ failed ∷ cancelled ∷ []
transitions stage waiting_approval = running ∷ succeeded ∷ failed ∷ cancelled ∷ []
transitions stage failed = ready ∷ running ∷ []
transitions stage unavailable = ready ∷ skipped ∷ []
transitions agent_instance created = ready ∷ unavailable ∷ []
transitions agent_instance unavailable = ready ∷ cancelled ∷ archived ∷ []
transitions agent_instance ready = starting ∷ failed_to_start ∷ cancelled ∷ []
transitions agent_instance starting = running ∷ failed_to_start ∷ crashed ∷ cancelled ∷ stopped ∷ []
transitions agent_instance running =
    waiting_approval ∷ failed_to_start ∷ succeeded ∷ failed ∷ crashed ∷ cancelled ∷ stopped ∷ []
transitions agent_instance waiting_approval =
    running ∷ succeeded ∷ failed ∷ cancelled ∷ stopped ∷ []
transitions agent_instance failed_to_start =
    ready ∷ starting ∷ superseded ∷ cancelled ∷ archived ∷ []
transitions agent_instance failed =
    ready ∷ starting ∷ superseded ∷ cancelled ∷ stopped ∷ archived ∷ []
transitions agent_instance crashed = ready ∷ starting ∷ superseded ∷ cancelled ∷ archived ∷ []
transitions agent_instance succeeded = stopped ∷ archived ∷ []
transitions agent_instance cancelled = archived ∷ []
transitions agent_instance superseded = archived ∷ []
transitions agent_instance stopped =
    starting ∷ running ∷ waiting_approval ∷ failed ∷ succeeded ∷ cancelled ∷ archived ∷ []
transitions approval_request pending = approved ∷ rejected ∷ cancelled ∷ []
transitions delivery candidate = published ∷ rejected ∷ []
transitions delivery published = corrupted ∷ []
transitions _ _ = []

-- `StateMachine.transition`
unfoldable pub transition : Kind → Status → Status → Outcome (Unit {0})
unfolding member transitions
transition kind current target =
    guard (member target (transitions kind current)) Code.invalid_state_transition
