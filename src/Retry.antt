-- ===== src/Retry.antt =====
-- backend/harness/services/retry_budget.py: the automatic-retry budget of a task.
pub mod Budget
pub mod Gates
pub mod Lineage
pub mod Room
pub mod Service
pub mod Replay
pub mod Attempts
pub mod Steps
pub mod Settlement
pub mod Override
pub mod Results
pub mod Limits
pub mod Accounts
pub mod Cases
pub mod Conservation
pub mod Releases
pub mod Decisions
pub mod History
pub mod Usage
pub mod NullLimit
