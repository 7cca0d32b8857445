-- ===== src/Witnesses.antt =====
-- Runs of the stores and transactions on small states.
mod Tasks
mod Graph
mod Checkpoints
mod Journal
mod Transactions
mod Tools
mod Executor
mod Answers
mod Humans
mod Plans
mod Changes
mod Repository
mod Agents
mod Disk
