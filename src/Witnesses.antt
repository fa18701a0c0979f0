-- ===== src/Witnesses.antt =====
-- The theorems at concrete inputs.
pub mod Samples
pub mod Domain
pub mod Store
pub mod Budgets
pub mod Saving
pub mod Planning
pub mod Journals
pub mod Histories
pub mod Commits
pub mod Meters
pub mod Decisions
