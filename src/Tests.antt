-- ===== src/Tests.antt =====
-- Runs of the model on small inputs: tests, and the theorems applied to data that meets their
-- hypotheses.
pub mod Server
pub mod Snapshot
pub mod Client
pub mod Catchup
pub mod Bootstrap
pub mod Calendar
pub mod Conflicts
pub mod Diff
pub mod Journal
pub mod Locks
pub mod Remote
pub mod Safety
