-- ===== src/Storage.antt =====
-- backend/harness/storage: the durable state of one task directory, which is an event journal and
-- the snapshot files that are written after their events.
mod Keyed
mod Types
pub mod Journal
pub mod Idempotency
pub mod Identifier
pub mod Repository
pub mod Recovery
pub mod Atomicity
pub mod Restart
pub use Keyed.{
  Table, Key, same_key_iff, find-put, find-drop, NodupKeys, put-NodupKeys, drop-NodupKeys,
}
unfoldable pub use Keyed.{same_key, find, put, drop}
pub use Types.*
