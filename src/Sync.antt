-- ===== src/Sync.antt =====
-- packages/core/src/storage: the half of the sync protocol that runs on each machine.
pub mod Op
pub mod Outbox
pub mod Backoff
pub mod Push
pub mod Apply
pub mod Pull
pub mod Locks
pub mod CopyName
pub mod Conflicts
pub mod Diff
pub mod ShareId
pub mod Bootstrap
pub mod JournalSync
pub mod Remote
