-- ===== src/Tools.antt =====
-- The tools of src/harness/tools.
pub mod Git
pub mod Filesystem
