-- ===== src/Storage.antt =====
-- The SQLite stores of src/harness/storage.
pub mod Tasks
pub mod Dependencies
pub mod Attempts
pub mod Checkpoints
pub mod Interactions
pub mod Invocations
pub mod Events
pub mod Artifacts
pub mod Approvals
