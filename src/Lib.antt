-- ===== src/Lib.antt =====
-- The core of md-harness: the stores of src/harness/storage on one SQLite connection, the transactions
-- that the engine runs on it (src/harness/storage/transaction.py), and the stages of the engine below
-- src/harness/engine: the planner, the executor with the policy that authorizes its tool calls
-- (src/harness/security/tool_policy.py), the validator, and the questions to a human; and the git tool
-- with its branch policy (src/harness/tools/git.py), the filesystem tool, the
-- registry of agents and the rotation of secrets.
--
-- How the parts interact. A worker claims a task (TaskStore.claim): the row gets a token, a lease and
-- the next execution epoch. Whatever the engine persists goes through a phase of EngineUnitOfWork:
-- one transaction that first renews the worker's claim (TransactionManager.assert_owner) and is rolled
-- back when an exception escapes. A task that must wait leaves a checkpoint with a wait token; an
-- answer from outside, an approval of a tool call or the outcome of an open tool call is bound to that
-- token. A task whose worker is gone is taken over in a new epoch (claim_orphaned_run,
-- claim_resume_lease), which is meant to fence the old worker off; so is a cancellation.
--
-- Files and code. Paths of the code are below src/harness.
--   Schema, Schema/Statuses   the tables of storage/schema.sql and its migrations, as records in lists
--   Sql and its children      SELECT, UPDATE and rowcount on such a list; keys
--   Effects and its children  methods that change the connection and may raise; rollback
--   Text, Json, Plan          str.strip and POSIX paths; JSON values; engine/plan.py
--   Storage/Tasks             TaskStore: transition, claim, renew_claim, release_claim, cancel,
--                             assert_claim, approve, revoke_approval
--   Storage/Dependencies      TaskStore: add_dependency, _depends_on
--   Storage/Attempts          TaskStore: record_attempt, complete_attempt, record_replan
--   Storage/Checkpoints       CheckpointStore
--   Storage/Invocations       ToolInvocationStore, the journal of tool calls
--   Storage/Approvals         ApprovalStore, and request_for_step of security/approval.py
--   Storage/Artifacts, Events ArtifactStore.register, EventStore.record
--   Transaction               TransactionManager: assert_owner, atomic, record_failure
--   Transaction/Resume        EngineUnitOfWork: resume, claim_resume_lease, release_resume_lease
--   Transaction/Orphans       EngineUnitOfWork.claim_orphaned_run
--   Transaction/Decisions     EngineUnitOfWork: start_cycle, execution_wait, commit_decision,
--                             decision, finish_decision, complete_done, execution_result, cancel
--   Transaction/Validation    EngineUnitOfWork.validation_decision
--   Transaction/Tools         EngineUnitOfWork: begin, complete and resolve a tool invocation,
--                             decide_approval
--   Transaction/External      EngineUnitOfWork.resolve_external_wait
--   Storage/Interactions      HumanInteractionStore; Schemas and Responses are its two checks
--   Transaction/Interactions  EngineUnitOfWork.create_human_wait
--   Transaction/Answers       EngineUnitOfWork.answer_human_interaction
--   Engine/Hitl               engine/hitl.py
--   Engine/Planner            Planner of engine/planner.py; Changes is ChangeRequest.from_mapping
--   Engine/Outcomes, Evidence,
--   Engine/Validator          Validator of engine/validator.py
--   Engine/Errors             action_for_error of engine/result.py, ToolError of tools/base.py
--   Engine/Registry           Tool.validate_arguments and ToolRegistry of tools/base.py
--   Engine/Executor, Steps    Executor.execute and what it reports; the tools and the callbacks are
--                             parameters
--   Engine/Authorization      ToolSecurityPolicy, and Executor._has_external_effect
--   Security/Gitflow          GitflowPolicy of security/gitflow_policy.py
--   Security/Rotation         RotationPolicy, SecretRotation of security/rotation.py
--   Agents/Registry           AgentProfile, AgentRegistry of agents/registry.py
--   Tools/Git                 GitRepository of tools/git.py; Policed are the operations that ask the
--                             policy, Execute chooses the operation, Lines reads git's output
--   Tools/Filesystem          FilesystemTool of tools/filesystem.py
--   Samples, Witnesses        small states, and the theorems applied to them
-- The files below these hold their proofs, named for what they prove.
--
-- How the code is read. The connection is the record Db of the modelled tables; a method is a function
-- from Db to a result and the Db behind it, with the guards in the order of the source. An exception is
-- a value that keeps what was written before it, until a transaction rolls it back. A WHERE clause is
-- a Boolean function of a row, a SET clause a function from row to row. The constraints of a table
-- that an INSERT or UPDATE can break (primary and foreign keys, unique indexes, NOT NULL) raise. A
-- theorem that needs a key of a table to be unique beforehand says so. Time is a number of seconds that
-- each call is given, in place of the texts that SQLite compares in the same order; one call reads
-- the clock once. UUIDs are arguments. SHA-256 fingerprints, the files under the workspace and the
-- resolution of paths are parameters, and so are the git program and the
-- disk of the filesystem tool, which know every call before.
--
-- Bounds and fuel. `_depends_on` has fuel for one call more than there are rows: each call below
-- another one visits a task that has rows of its own, and no task is searched twice. The digits of a
-- number have one more round than the number (digits_enough). Nothing else recurses on fuel. Ids and
-- epochs are numbers without a bound, as in SQLite's INTEGER below 2 ^ 63.
--
-- Not modelled: nested transactions, which the unit of work does not open; the renewing thread of
-- keep_lease_alive; branches for databases of earlier schema versions and for stores without the
-- current methods; creating and editing of tasks, and the queries that only list rows; the orchestrator
-- that drives these parts in cycles; the agents' runner, the other tools, knowledge and the interfaces around the
-- engine.
mod Prelude
pub mod Sql
pub mod Effects
pub mod Json
pub mod Plan
pub mod Schema
pub mod Text
pub mod Storage
pub mod Transaction
pub mod Engine
pub mod Security
pub mod Tools
pub mod Agents
mod Samples
mod Witnesses
