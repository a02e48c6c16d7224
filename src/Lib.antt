-- ===== src/Lib.antt =====
-- The governance of native sub-agents in scripts/: a session's ledger of delegated tasks, the
-- operations that record what happened to them, and the files that hold the ledger.
--
-- A task is prepared with a contract, claimed by the native call that starts an agent, bound to the
-- agent that the call returned, ended by a receipt and closed. Receipts that contradict each other,
-- or whose result is not known, set the task aside in the phase reconcile. Every operation checks its
-- request, reads the session's file under a lock, runs a callback on the ledger, validates the result
-- and replaces the file.
--
-- Base: results for code that raises (Base.Raising, scripts/governance_errors.py), lists, texts as
--   lists of code points (Base.Codes), dictionaries in insertion order (Base.Maps).
-- Semantics: the words and limits of scripts/governance_semantics.py.
-- Json: values of a request before they are checked.
-- Contract: scripts/governance_contracts.py, the two checkers of scripts/governance_context.py and
--   scripts/governance_validation.py. `contract_from_input`, `validate_task_contract` and so on keep
--   their names.
-- Ledger, State: the state-v12 ledger and the validator of scripts/governance_state.py. A task is the
--   record of its required keys and, as options, of the keys that some phases have. State.Sound says
--   without the validator what a sound task is, and State.Meaning compares the two.
-- Store: scripts/governance_state_store.py on one session's file. The result of a run is paired with
--   the file afterwards.
-- Lifecycle, Retention, Inputs: scripts/governance_lifecycle.py and
--   scripts/governance_operation_inputs.py. `observe_task`, `notify_task`, `interrupt_task`,
--   `call_task` and `close` are what the operations do to their task, `record_observation` and so on
--   are the callbacks on a ledger, and Operations has the operations that a caller runs.
-- Dispatch: claim_spawn, confirm_dispatch and record_dispatch_result of
--   scripts/governance_dispatch.py.
-- Protocol: prepare_dispatch of scripts/governance_protocol.py, with initial_task_record.
-- Identity, Native, Rendering: scripts/governance_dispatch_identity.py,
--   scripts/governance_native_adapter.py and scripts/governance_dispatch_rendering.py.
-- Hook: scripts/governance_hook.py and scripts/governance_hook_diagnostics.py. `recognize` finds a
--   governed call, `pre_tool_use` decides on it, `classify_failure` tells what an exception becomes,
--   and Hook.Events has handle_hook with the transport `hook` of scripts/governance_cli.py.
-- Diagnostics: scripts/governance_diagnostics.py, with the views that Hook.Summary prints.
-- Material: verify_context_manifest of scripts/governance_context.py. Material.Files digests one file,
--   Material.Listing and Material.Git compare a commit, and Material.Outside has what the operating
--   system and git answer.
-- Storage: read_private_bytes and atomic_write_bytes of scripts/governance_storage.py, and in
--   Storage.Names safe_filename of scripts/governance_store_support.py.
-- Bundle: scripts/runtime_bundle.py on a directory that nothing else writes to meanwhile (Root):
--   runtime_files, bundle_digest and verify_runtime_bundle, and stage_runtime_bundle in
--   Bundle.Staging.
-- Steps: the lifecycle of one task as a step relation, the abstract form that the operations refine.
-- Tests: concrete ledgers and runs.
--
-- What the code takes from outside is an argument: canonical JSON, SHA-256 and pathlib (Canon,
-- Hashing), the length of an encoded ledger (Encoding), the contents of a file as they decode
-- (Contents), the point at which a write fails (WriteFault, Failures), the file system and git (World,
-- whose answers may change from moment to moment), the verification of declared material (`verify`,
-- for which Material.verify_context_manifest stands) and the clock (`now`). A run under a deadline
-- counts the looks at the clock that are left. Times are natural numbers, as the code requires, and
-- numbers do not overflow in Python. Loops are structural recursion on lists. Only two helpers
-- have fuel: `decimal` of Hook.Summary one more than the number, and a number has no more digits, and
-- `octal` of Bundle four, the most digits of a mode.
--
-- Not modelled: message texts of errors, the file lock, the messages to the user, the arguments of the
-- command line, the deployment and the checks of a release (scripts/dev_deploy.py,
-- scripts/release_preflight.py). How the data directory is found is a parameter that may raise
-- (Surroundings, `opening`). A failed encoding and a failed comparison after a write are points of
-- WriteFault, and a stored contract without its optional keys counts as an unreadable file.
pub mod Bundle
pub mod Base
pub mod Semantics
pub mod Json
pub mod Contract
pub mod Ledger
pub mod Inputs
pub mod Retention
pub mod Lifecycle
pub mod Identity
pub mod Native
pub mod Rendering
pub mod State
pub mod Store
pub mod Operations
pub mod Dispatch
pub mod Steps
pub mod Protocol
pub mod Tests
pub mod Diagnostics
pub mod Hook
pub mod Material
pub mod Storage
