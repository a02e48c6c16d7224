-- ===== src/Steps.antt =====
-- The lifecycle of one task as a step relation: what a recorded fact may change, and when. The
-- operations of governance_lifecycle.py and governance_dispatch.py are walks of such steps.
pub mod Observing
pub mod Recording
pub mod Dispatching
pub mod History
pub mod Retained
pub mod Ledgers
pub mod Callbacks
pub mod Dispatches
pub mod Claims
pub mod Targets
pub mod Confirming
pub mod Validity
pub mod Closed
pub mod Operations
use subagent_governance.Base.{ℕ, Text, is_text, ◌≡◌, ◌≢◌, refl, Bool, true, false, none, some}
use subagent_governance.Semantics.{
  Phase, Status, Source, ReconcileCode, UnknownCode, is_terminal_status, is_terminal_fact_status,
  is_persisted_platform, is_persisted_interrupt,
}
use subagent_governance.Ledger.{Task, terminal_status}
use subagent_governance.Lifecycle.{reconciled, facts_of, fact_at, put_fact}
use subagent_governance.Lifecycle.Receipts.{closed_task}
use subagent_governance.Dispatch.{bound_task, dispatched, DispatchResult}

-- A task whose agent is known and which is not set aside.
abbrev pub is_live : Phase → Bool
is_live Phase.bound = true
is_live Phase.terminal = true
is_live _ = false

-- A task whose native call has not been confirmed.
abbrev pub is_pending : Phase → Bool
is_pending Phase.prepared = true
is_pending Phase.claimed = true
is_pending _ = false

-- A task that is neither closed nor set aside.
abbrev pub is_active : Phase → Bool
is_active Phase.closed = false
is_active Phase.reconcile = false
is_active _ = true

module _ (now : ℕ) where
  pub data Step (t u : Task) : Type 0 where
    note :
        (code : UnknownCode)
        → is_live t.phase ≡ true
        → fact_at code (facts_of t.unknown_facts) ≡ none
        → u ≡ record t {
          unknown_facts = some (put_fact code now (facts_of t.unknown_facts));
          updated_at = now;
        }
        → Step t u
    observe :
        (s : Status)
        → is_live t.phase ≡ true
        → is_persisted_platform s ≡ true
        → u ≡ record t {
          platform_observation = some (record { status = s; observed_at = now });
          updated_at = now;
        }
        → Step t u
    interrupt :
        (s : Status)
        → is_live t.phase ≡ true
        → is_persisted_interrupt s ≡ true
        → u ≡ record t {
          interrupt_fact = some (record { status = s; observed_at = now });
          updated_at = now;
        }
        → Step t u
    end :
        (source : Source) (s : Status)
        → t.phase ≡ Phase.bound
        → is_terminal_fact_status s ≡ true
        → u ≡ record t {
          phase = Phase.terminal;
          terminal_fact = some (record { source = source; status = s; observed_at = now });
          updated_at = now;
        }
        → Step t u
    refine :
        (source : Source) (s : Status)
        → t.phase ≡ Phase.terminal
        → terminal_status t ≡ some Status.inactive
        → is_terminal_status s ≡ true
        → u ≡ record t {
          terminal_fact = some (record { source = source; status = s; observed_at = now });
          updated_at = now;
        }
        → Step t u
    claim :
        (tool_use_id : Text)
        → t.phase ≡ Phase.prepared
        → is_text 1024 tool_use_id ≡ true
        → u ≡ record t {
          phase = Phase.claimed;
          claimed_tool_use_id = some tool_use_id;
          claimed_at = some now;
          updated_at = now;
        }
        → Step t u
    bind :
        (target : Text)
        → t.phase ≡ Phase.claimed
        → is_text 1024 target ≡ true
        → u ≡ bound_task now target t
        → Step t u
    give_up :
        (result : DispatchResult)
        → is_pending t.phase ≡ true
        → u ≡ dispatched now result t
        → Step t u
    set_aside :
        (code : ReconcileCode) → is_active t.phase ≡ true → u ≡ reconciled code now t → Step t u
    close :
        (reason : Text)
        → t.phase ≢ Phase.closed
        → is_text 1024 reason ≡ true
        → u ≡ closed_task now reason t
        → Step t u

  -- A sequence of such steps, at one time.
  pub data Walk : Task → Task → Type 0 where
    stay : {t u : Task} → u ≡ t → Walk t u
    next : {t u w : Task} → Step t u → Walk u w → Walk t w

pub one : {now : ℕ} {t u : Task} → Step now t u → Walk now t u
one s = next s (stay refl)
