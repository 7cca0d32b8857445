-- ===== src/Agents.antt =====
-- The agents of src/harness/agents.
pub mod Registry
