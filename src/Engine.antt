-- ===== src/Engine.antt =====
-- What the engine decides before and after it calls a tool, and its loop over the steps of a plan.
pub mod Errors
pub mod Registry
pub mod Authorization
pub mod DryRun
pub mod Refusals
pub mod Steps
pub mod Executor
pub mod Outcomes
pub mod Evidence
pub mod Validator
pub mod Planner
pub mod Hitl
