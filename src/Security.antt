-- ===== src/Security.antt =====
-- The rules of src/harness/security that the tools follow.
pub mod Gitflow
pub mod Rotation
