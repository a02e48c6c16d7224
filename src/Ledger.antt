-- ===== src/Ledger.antt =====
-- The state-v12 Session ledger of scripts/governance_state.py: a task is the record of its required
-- keys and, as options, of the keys that only some phases have.
use subagent_governance.Base.{ℕ, Text, text_eq, Dict, insert, Option, none, some, Bool, false}
use subagent_governance.Semantics.{Phase, NativeInterface, Status, Source, ReconcileCode, status_eq}
use subagent_governance.Contract.{TaskContract, Business, Verification, NativeParameters}

pub record TerminalFact : Type 0 where
  pub source : Source
  pub status : Status
  pub observed_at : ℕ

pub record PlatformObservation : Type 0 where
  pub status : Status
  pub observed_at : ℕ

-- `status` is the key `result`.
pub record InterruptFact : Type 0 where
  pub status : Status
  pub observed_at : ℕ

pub record ReconcileFact : Type 0 where
  pub code : ReconcileCode
  pub observed_at : ℕ

-- The time that each category of unknown receipt was first seen, where it was.
pub record UnknownFacts : Type 0 where
  pub delivery : Option ℕ
  pub platform_observation : Option ℕ
  pub interrupt : Option ℕ

pub record Prepared : Type 0 where
  pub contract : TaskContract
  pub context_verification : Option Verification
  pub expected_native_parameters : NativeParameters
  pub spawn_digest : Text
  pub expires_at : ℕ

pub record Task : Type 0 where
  pub task_ref : Text
  pub native_interface : NativeInterface
  pub phase : Phase
  pub contract_digest : Text
  pub contract_summary : Business
  pub created_at : ℕ
  pub updated_at : ℕ
  pub prepared : Option Prepared
  pub claimed_tool_use_id : Option Text
  pub claimed_at : Option ℕ
  pub target : Option Text
  pub bound_at : Option ℕ
  pub platform_observation : Option PlatformObservation
  pub terminal_fact : Option TerminalFact
  pub interrupt_fact : Option InterruptFact
  pub unknown_facts : Option UnknownFacts
  pub reconcile : Option ReconcileFact
  pub close_reason : Option Text
  pub closed_at : Option ℕ

pub record Ledger : Type 0 where
  pub session_id : Text
  pub tasks : Dict Task

-- `option == text`, where None is no text
abbrev pub is_option : Option Text → Text → Bool
is_option none s = false
is_option (some t) s = text_eq t s

abbrev pub is_status : Option Status → Status → Bool
is_status none s = false
is_status (some t) s = status_eq t s

-- `task.get("terminal_fact", {}).get("status")`, and so on
abbrev pub terminal_status : Task → Option Status
terminal_status t = elim t.terminal_fact [ none ↦ none | some f ↦ some f.status ]

abbrev pub platform_status : Task → Option Status
platform_status t = elim t.platform_observation [ none ↦ none | some f ↦ some f.status ]

abbrev pub interrupt_status : Task → Option Status
interrupt_status t = elim t.interrupt_fact [ none ↦ none | some f ↦ some f.status ]

abbrev pub reconcile_code : Task → Option ReconcileCode
reconcile_code t = elim t.reconcile [ none ↦ none | some f ↦ some f.code ]

-- `state["tasks"][task_id] = task`
abbrev pub put_task : Text → Task → Ledger → Ledger
put_task task_id t l = record l { tasks = insert task_id t l.tasks }
