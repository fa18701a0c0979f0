-- ===== src/Lib.antt =====
-- The control plane of the agentic design harness: the part of the backend that decides what a
-- task's plan may do, how far automatic retries may go, and what survives a crash.
--
-- A task has a plan of stages and agent instances. Commands of the domain service change the plan
-- and aggregate the statuses of instances into those of stages and of the task. Every change is
-- saved by a repository, which first appends an event to the journal of the task and then replaces
-- a snapshot file; the store rebuilds the files from the journal when it starts. The retry budget
-- of a task is one of the saved objects: it grants automatic retries within a policy, or asks a
-- person.
--
-- The files, each with the code it follows:
--   Status and Aggregate: backend/harness/domain/state_machine.py and the catalog
--     contracts/v1/catalogs/status-codes.json. `transition`, `stage_dependencies_authorized`,
--     `aggregate_stage` and `aggregate_task` keep their names.
--   Model: the records of a plan; fields that the domain only carries along are left out.
--   Topology: backend/harness/domain/plan.py, `validate_plan`, loop by loop. The check against the
--     JSON schema is a parameter.
--   Commands: backend/harness/domain/service.py, the commands on instances and on a task with a
--     saved plan. A command maps a plan with its task's revision to the next one; `persist_aggregate`
--     stands for the commit of the plan. Requests, Normalization and Saving follow `_save_plan` in
--     its three modes, whose state also holds a task that has no plan yet; WholeTask has the
--     commands on such a task and their histories. Projections follows the files that a commit of a
--     plan writes, and storage/store.py `_reconcile_plan_projections`, which completes them.
--   Storage: backend/harness/storage/repository.py (`put` is `put_object`, `delete` is
--     `delete_object`), store.py (`recover`) and layout.py (`validate_identifier`). A task directory
--     is its list of events and a table of snapshot files; a file may be unreadable. A crash comes
--     after any of the commit points that the source names. The types that a store knows and the
--     comparison of payloads are parameters. Recovery has the repair of
--     the snapshot files, and Restart the whole of `recover`, with the results of committed commands
--     before it and `_reconcile_plan_projections` after it. Journal follows storage/ndjson.py on the bytes of one
--     journal; JSON and the digest are parameters. Idempotency follows storage/idempotency.py and
--     `_idempotent` of domain/service.py, for any store and any command.
--   Retry: backend/harness/services/retry_budget.py. Budget, Gates, Attempts, Steps, Settlement and
--     Override translate the commands on a budget snapshot; Service has the handlers around them
--     with the replay of committed commands. The digest of a request, the lineage of a retry and
--     the commit of an approval are arguments. Lineage follows services/retry_lineage.py.
--   Usage: backend/harness/services/usage.py, ingestion, `summary` and `recover` (`recover_usage`), on
--     the events and the collection state of one task.
--   Approvals: backend/harness/services/approvals.py, `commit_resolution`,
--     `acknowledge_external_workflow_approvals` on one approval and, in Inbox, `update_inbox_status`.
--   Common: helpers. A command's outcome is a value, a HarnessError with its code, or another
--     exception, a fault.
--   Witnesses: the theorems at concrete inputs.
--
-- The loops of the source that are modelled run over lists and are structural recursion, but for the
-- walk of `lineage_root`, which has one round of fuel for each attempt and two more. Amounts,
-- revisions and times are natural numbers: the source has integers without a bound, and refuses
-- negative amounts first.
--
-- Not modelled: file locks (commands of one task run one after another), the indexes of the store and
-- the summary files in the workspace, the services above them, adapters, processes, the HTTP interface
-- and the frontend.
pub mod Common
pub mod Status
pub mod Model
pub mod Aggregate
pub mod Topology
pub mod Commands
pub mod Storage
pub mod Retry
pub mod Usage
pub mod Approvals
pub mod Witnesses
