-- ===== src/Semantics.antt =====
-- scripts/governance_semantics.py with the x-semantics of schemas/governance-semantics.schema.json:
-- the words of the ledger as data types, the sets of words as tests, and the numeric limits.
use subagent_governance.Base.{
  ℕ, Text, codes, text_eq, Option, none, some, Bool, true, false, List, [], ◌∷◌, if◌then◌else◌,
}

pub data Phase : Type 0 where
  prepared claimed bound terminal closed reconcile : Phase

pub data NativeInterface : Type 0 where
  collaboration_turns fork_context : NativeInterface

pub data Profile : Type 0 where
  standard strict : Profile

-- Every word that a status or a result of the ledger or of a request can be.
pub data Status : Type 0 where
  running completed failed stopped interrupted inactive error unknown success : Status

pub data Source : Type 0 where
  platform notification interrupt : Source

pub data ReconcileCode : Type 0 where
  dispatch_target_conflict dispatch_target_already_bound dispatch_identity_mismatch : ReconcileCode
  dispatch_claim_missing dispatch_result_unknown terminal_status_conflict : ReconcileCode

pub data UnknownCode : Type 0 where
  delivery_unknown platform_observation_unknown interrupt_unknown : UnknownCode

pub Phase-discrete : Discrete Phase
Phase-discrete = hlevel

-- `status == other`
unfoldable pub status_eq : Status → Status → Bool
status_eq Status.running Status.running = true
status_eq Status.completed Status.completed = true
status_eq Status.failed Status.failed = true
status_eq Status.stopped Status.stopped = true
status_eq Status.interrupted Status.interrupted = true
status_eq Status.inactive Status.inactive = true
status_eq Status.error Status.error = true
status_eq Status.unknown Status.unknown = true
status_eq Status.success Status.success = true
status_eq _ _ = false

-- TARGET_OWNING_PHASES
abbrev pub is_target_owning : Phase → Bool
is_target_owning Phase.bound = true
is_target_owning Phase.terminal = true
is_target_owning Phase.reconcile = true
is_target_owning _ = false

-- PLATFORM_OBSERVATION_STATUSES
abbrev pub is_platform_observation : Status → Bool
is_platform_observation Status.running = true
is_platform_observation Status.completed = true
is_platform_observation Status.stopped = true
is_platform_observation Status.interrupted = true
is_platform_observation Status.error = true
is_platform_observation Status.unknown = true
is_platform_observation _ = false

-- PLATFORM_TERMINAL_STATUSES, which is also TERMINAL_NOTIFICATION_STATUSES
abbrev pub is_terminal_status : Status → Bool
is_terminal_status Status.completed = true
is_terminal_status Status.stopped = true
is_terminal_status Status.interrupted = true
is_terminal_status _ = false

-- CALL_RESULTS
abbrev pub is_call_result : Status → Bool
is_call_result Status.success = true
is_call_result Status.failed = true
is_call_result Status.unknown = true
is_call_result _ = false

-- INTERRUPT_RESULTS
abbrev pub is_interrupt_result : Status → Bool
is_interrupt_result Status.failed = true
is_interrupt_result Status.inactive = true
is_interrupt_result Status.unknown = true
is_interrupt_result _ = false

-- TERMINAL_FACT_STATUSES
abbrev pub is_terminal_fact_status : Status → Bool
is_terminal_fact_status Status.completed = true
is_terminal_fact_status Status.failed = true
is_terminal_fact_status Status.stopped = true
is_terminal_fact_status Status.interrupted = true
is_terminal_fact_status Status.inactive = true
is_terminal_fact_status _ = false

-- PERSISTED_PLATFORM_STATUSES
abbrev pub is_persisted_platform : Status → Bool
is_persisted_platform Status.running = true
is_persisted_platform Status.completed = true
is_persisted_platform Status.stopped = true
is_persisted_platform Status.interrupted = true
is_persisted_platform Status.error = true
is_persisted_platform _ = false

-- PERSISTED_INTERRUPT_RESULTS
abbrev pub is_persisted_interrupt : Status → Bool
is_persisted_interrupt Status.failed = true
is_persisted_interrupt Status.inactive = true
is_persisted_interrupt _ = false

abbrev pub words : List (Text × Status)
words =
    (codes "running", Status.running)
    ∷ (codes "completed", Status.completed)
    ∷ (codes "failed", Status.failed)
    ∷ (codes "stopped", Status.stopped)
    ∷ (codes "interrupted", Status.interrupted)
    ∷ (codes "inactive", Status.inactive)
    ∷ (codes "error", Status.error)
    ∷ (codes "unknown", Status.unknown)
    ∷ (codes "success", Status.success)
    ∷ []

find_word : Text → List (Text × Status) → Option Status
find_word s [] = none
find_word s ((w, x) ∷ ws) = if text_eq w s then some x else find_word s ws

-- The word that a text is, if it is one.
unfoldable pub status_of : Text → Option Status
unfolding find_word
status_of s = find_word s words

abbrev pub closed_task_retention : ℕ
closed_task_retention = 64

abbrev pub prepared_expiry_seconds : ℕ
prepared_expiry_seconds = 900

abbrev pub max_tasks_per_session : ℕ
max_tasks_per_session = 512

abbrev pub new_task_soft_limit_bytes : ℕ
new_task_soft_limit_bytes = 3145728

abbrev pub max_state_bytes : ℕ
max_state_bytes = 4194304

abbrev pub max_contract_summary_bytes : ℕ
max_contract_summary_bytes = 65536

abbrev pub max_contract_text : ℕ
max_contract_text = 1024

abbrev pub max_business_text : ℕ
max_business_text = 8192

abbrev pub max_list_items : ℕ
max_list_items = 64

abbrev pub task_name_max_length : ℕ
task_name_max_length = 64

abbrev pub session_summary_record_limit : ℕ
session_summary_record_limit = 8

abbrev pub session_summary_context_limit : ℕ
session_summary_context_limit = 1800

abbrev pub max_hook_input_bytes : ℕ
max_hook_input_bytes = 2097152
