-- ===== src/Lib.antt =====
-- Patchwright: a desktop tool that turns work items of a repository into reviewed, delivered pull
-- requests. This library models the Rust code that decides what may happen: when an action is
-- authorized, how a task moves, and what the engine's database holds about its jobs.
--
-- The files and the code they are about:
--   * Contract: the fields of a task contract and where a task comes from
--     (crates/patchwright-core/src/contract.rs). Contract/Fields has `nonempty`, `validate_ref`,
--     `validate_git_sha` and the other validators, Contract/Source has `TaskSource` and
--     `revalidate_task_source`, Contract/Bindings `RepositoryBinding`, Contract/Parts and
--     Contract/Tasks the contract with `try_from` and its reading, and Contract/Legacy the contracts
--     of the first version.
--   * Domain: the task and its lifecycle (crates/patchwright-core/src/domain.rs). `transition`,
--     `interrupt` and `resume` are the methods of `Task`, `permits` is `TaskState::permits`.
--   * Policy: capabilities, approvals and authorization (crates/patchwright-core/src/policy.rs).
--     Policy/Capabilities has `action_kind`, `required_class` and `class_supports`,
--     Policy/Fingerprints the validation of a fingerprint, Policy itself `Approval::new` as `new`,
--     `is_valid_for` and `authorize`.
--   * Actions: the changes asked of GitHub (crates/patchwright-core/src/github_actions.rs).
--     Actions itself has `GitHubAction` and its accessors, Actions/Fields the field validators,
--     Actions/Constructors the validating constructors by the names of the methods of
--     `GitHubAction`, Actions/Wire how an action and its inline comments are read and written,
--     and Actions/Remotes `RemoteIdentity`, `RemotePrecondition` and `GitHubActionPreview` with
--     their reading.
--   * Sorting: the order in which repositories and pull requests are shown
--     (crates/patchwright-core/src/sorting.rs). `repository_order` and `pull_request_order` are the
--     closures of `sort_repositories` and `sort_pull_requests`; Rust's stable `sort_by` is a stable
--     insertion sort; `matches` is `WorkspaceFilter::matches`.
--   * Engine/Jobs: the durable job and the validation of what it carries
--     (crates/patchwright-engine/src/jobs.rs).
--   * Engine/JobStore: the tables `jobs` and `job_events` with `create_job`, `transition_job` and
--     `recover_interrupted_jobs` (crates/patchwright-engine/src/store.rs).
--   * Engine/TaskStore: the tables of tasks, approvals, preparation claims and deliveries of the same
--     file. Engine/TaskStore/Deliveries and Engine/TaskStore/Preparations have the claims by the
--     names of the source; Engine/TaskStore/Histories lists these operations,
--     and Engine/TaskStore/Approvals says what the lookup of an approval gives back.
--   * Engine/Delivery: the way of an action to GitHub (crates/patchwright-engine/src/delivery.rs).
--     Engine/Delivery/Previews has `preview_delivery` and its checks, Engine/Delivery/Execution
--     `approve_delivery` and `authorize_execution`, Engine/Delivery/Results what is stored of a
--     result.
--   * Engine/Monitoring: the watch over a pull request, `MonitorRecord` and its methods
--     (crates/patchwright-engine/src/monitoring.rs). `observe` goes through its tests in the order of
--     the source, a definition for each stretch of them.
--   * Relay/Inbox: the table `webhook_deliveries` of the webhook relay
--     (crates/patchwright-relay/src/webhook.rs). `record_delivery` is `RelayState::record`,
--     `open_inbox` is what `RelayState::open` does to an inbox that is there, and `mark_forwarded`,
--     `defer_delivery` and `prune_forwarded_deliveries` have the names of the source.
--   * Relay/Forwarder: `forward_pending_once` and `due_deliveries` of the same file.
--   * Prelude: lists, equality tests, results, text, comparisons, sorting and table statements that the
--     components share.
--
-- How the parts interact: a task takes its source from the contract; a job belongs to a task; the
-- engine moves a job only through the store, and asks the policy before it acts: an execution checks
-- its preview and its approval and then claims the action's key in the table of deliveries.
-- The forwarder hands the relay's inbox to the engine.
--
-- How the code is modelled: a method that changes its object returns the object that it leaves
-- and its result. A statement of the database acts on a table as a list of rows in order of
-- insertion; a transaction that fails leaves the tables as they were. Text is the list of its
-- Unicode scalar values, and a length that the source takes in bytes is the length of its UTF-8
-- form. A time is a number of nanoseconds, counted from the earliest one that chrono can hold,
-- and a UUID is a number, each an argument where the source asks the clock or draws an identity.
-- Generations are bound to SQLite's signed 64-bit integers, and the operations fail beyond them,
-- as the relay does on an attempt count beyond 32 bits. Every loop runs over a list, so no fuel
-- is needed.
--
-- Not modelled: the desktop application, network and socket input and output, subprocesses, the
-- file system, JSON encoding and hashes, the remaining tables of the store, the reconciliation
-- of a delivery with a snapshot of GitHub, the delivery queue, the engine's sockets and
-- sessions, and the relay's HTTP side. What other packages compute for the modelled code
-- (decoding an envelope, JSON forms, SHA-256, SQLite's `julianday` and `json_extract`, chrono's
-- subtraction of days from a time) is an argument, as is the engine's answer to a delivery.
pub mod Prelude
pub mod Contract
pub mod Domain
pub mod Policy
pub mod Actions
pub mod Sorting
pub mod Engine
pub mod Relay
