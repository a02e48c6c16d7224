-- ===== src/Protocol.antt =====
-- prepare_dispatch of scripts/governance_protocol.py: a new task with its capability is put in the
-- ledger, and the native call that may claim it is rendered. The message to the user is left out.
pub mod Fresh
use subagent_governance.Base.{
  ℕ, ◌+◌, Text, codes, is_text, text_eq, Dict, lookup, Option, none, some, Bool, true, false, List,
  [], ◌∷◌, ◌&&◌, is_some, if◌then◌else◌, Result, ok, err, Error, guard, or_raise, ◌>>=◌, ◌>>◌,
}
use subagent_governance.Json.{Value}
use subagent_governance.Semantics.{Phase, NativeInterface, prepared_expiry_seconds}
use subagent_governance.Contract.{Manifest, Verification, TaskContract}
use subagent_governance.Contract.Canon.{Canon}
use subagent_governance.Contract.Input.{contract_from_input, contract_digest, spawn_digest}
use subagent_governance.Identity.{
  Hashing, select_task_ref, normalize_semantic_name, build_task_name,
}
use subagent_governance.Native.{validate_native_spawn, normalize_native_spawn, NormalSpawn}
use subagent_governance.Rendering.{expected_native_parameters, spawn_args}
use subagent_governance.Ledger.{Task, Ledger, Prepared, put_task}
use subagent_governance.Inputs.{OperationInput, operation_inputs}
use subagent_governance.Retention.{prune_closed_tasks}
use subagent_governance.Dispatch.Claim.{same_parameters}
use subagent_governance.Store.{
  Contents, WriteFault, Admission, Encoding, read_path, update, new_task_exceeds_capacity,
}

-- initial_task_record of scripts/governance_dispatch.py
unfoldable pub initial_task_record :
    Canon → Text → TaskContract → Text → Option Verification → ℕ → NativeInterface → ℕ → Task
initial_task_record canon task_ref c task_name verification created_at interface expires_at =
    record {
      task_ref = task_ref;
      native_interface = interface;
      phase = Phase.prepared;
      contract_digest = contract_digest canon c;
      contract_summary = c.business_record;
      created_at = created_at;
      updated_at = created_at;
      prepared = some (record {
        contract = c;
        context_verification = verification;
        expected_native_parameters = expected_native_parameters c task_name verification;
        spawn_digest = spawn_digest canon c;
        expires_at = expires_at;
      });
      claimed_tool_use_id = none;
      claimed_at = none;
      target = none;
      bound_at = none;
      platform_observation = none;
      terminal_fact = none;
      interrupt_fact = none;
      unknown_facts = none;
      reconcile = none;
      close_reason = none;
      closed_at = none;
    }

-- The dictionary `result`.
pub record Preparation : Type 0 where
  pub task_id : Text
  pub pruned_task_ids : List Text
  pub task_ref : Text
  pub expires_at : ℕ
  pub task_name : Text
  pub contract : TaskContract
  pub contract_digest : Text
  pub context_verification : Option Verification
  pub spawn_args : Value
  pub operation_inputs : List OperationInput
  pub warning : Bool

unfoldable pub refs_of : Dict Task → List Text
refs_of [] = []
refs_of ((task_id, t) ∷ d) = t.task_ref ∷ refs_of d

chosen : Text → Option Text → Result (Text × Text) → Result (Text × Text)
chosen candidate none rest = rest
chosen candidate (some task_ref) rest = ok (candidate, task_ref)

-- The loop over what the factory returns.
unfoldable pub pick : Hashing → Ledger → List Text → Result (Text × Text)
unfolding refs_of chosen
pick hashing l [] = err Error.dispatch_preparation
pick hashing l (candidate ∷ candidates) =
    let rest = pick hashing l candidates in
    do
      guard (is_text 256 candidate) Error.dispatch_preparation
      if is_some (lookup candidate l.tasks)
          then rest
          else do r ← select_task_ref hashing candidate (refs_of l.tasks); chosen candidate r rest

-- `range(2)`
abbrev pub at_most_two : List Text → List Text
at_most_two [] = []
at_most_two (first ∷ []) = first ∷ []
at_most_two (first ∷ second ∷ rest) = first ∷ second ∷ []

-- `except ValueError`
abbrev pub invalid : {A : Type 0} → Result A → Result A
invalid (err Error.value_error) = err Error.dispatch_preparation
invalid r = r

-- `except Exception`
abbrev pub failed : {A : Type 0} → Result A → Result A
failed (err e) = err Error.dispatch_preparation
failed (ok a) = ok a

module _ (encoding : Encoding) (hashing : Hashing) (verify : Manifest → Result Verification)
    (interface : NativeInterface) (created_at : ℕ) where
  abbrev verified : Option Manifest → Result (Option Verification)
  verified none = ok none
  verified (some m) = do v ← verify m; ok (some v)

  -- The callback `insert`. The candidates are what the factory returns, call by call.
  unfoldable pub prepare_in_ledger :
      TaskContract → Option Verification → List Text → Ledger → Result (Ledger × Preparation)
  unfolding initial_task_record
  prepare_in_ledger c verification candidates l = do
    found ← pick hashing l (at_most_two candidates)
    let semantic_name = normalize_semantic_name hashing c.business_record.objective
    task_name ← build_task_name hashing c.business_record.profile semantic_name found.1
    let expires_at = created_at + prepared_expiry_seconds
    let t =
        initial_task_record encoding.canon found.1 c task_name verification created_at interface
          expires_at
    let (l', removed) =
        prune_closed_tasks (new_task_exceeds_capacity encoding) (put_task found.0 t l)
    native ← spawn_args c task_name verification interface
    capability ← or_raise t.prepared Error.key_error
    inputs ← operation_inputs found.0 t
    ok (
      l',
      record {
        task_id = found.0;
        pruned_task_ids = removed;
        task_ref = found.1;
        expires_at = capability.expires_at;
        task_name = task_name;
        contract = c;
        contract_digest = contract_digest encoding.canon c;
        context_verification = verification;
        spawn_args = native;
        operation_inputs = inputs;
        warning = false;
      },
    )

  abbrev same_interface : NativeInterface → NativeInterface → Bool
  same_interface NativeInterface.collaboration_turns NativeInterface.collaboration_turns = true
  same_interface NativeInterface.fork_context NativeInterface.fork_context = true
  same_interface _ _ = false

  same_capability : Preparation → Option Prepared → NormalSpawn → Bool
  same_capability p none actual = false
  same_capability p (some capability) actual =
      text_eq actual.message capability.expected_native_parameters.message
      && same_parameters actual capability.expected_native_parameters

  abbrev is_prepared : Phase → Bool
  is_prepared Phase.prepared = true
  is_prepared _ = false

  -- The readback after an error finds this very task.
  unfoldable pub is_committed : Preparation → Task → NormalSpawn → Bool
  unfolding same_capability
  is_committed p t actual =
      is_prepared t.phase
      && (text_eq t.task_ref p.task_ref
          && (text_eq t.contract_digest p.contract_digest
              && (same_interface t.native_interface interface
                  && same_capability p t.prepared actual)))

  -- The `except` branch, for a callback that had filled `result`.
  unfoldable pub read_back : Text → Preparation → Contents → Result Preparation
  unfolding is_committed
  read_back session_id p file = do
    l ← read_path encoding session_id file
    t ← or_raise (lookup p.task_id l.tasks) Error.dispatch_preparation
    actual ← normalize_native_spawn interface p.spawn_args
    guard (is_committed p t actual) Error.dispatch_preparation
    ok (record p { warning = true })

  -- What the callback leaves in `result`, also where the write fails after it.
  unfoldable pub filled :
      Text → TaskContract → Option Verification → List Text → Contents → Result Preparation
  filled session_id c verification candidates file = do
    l ← read_path encoding session_id file
    r ← prepare_in_ledger c verification candidates l
    ok (r.1)

  abbrev recovered :
      Text → Result Preparation → Result Preparation × Contents → Result Preparation × Contents
  recovered session_id p (ok r, file) = (ok r, file)
  recovered session_id (err d) (err e, file) = (err Error.dispatch_preparation, file)
  recovered session_id (ok p) (err e, file) = (failed (read_back session_id p file), file)

  -- The update with its recovery.
  unfoldable pub insert_task :
      WriteFault
      → Text
      → TaskContract
      → Option Verification
      → List Text
      → Contents
      → Result Preparation × Contents
  unfolding filled read_back
  insert_task fault session_id c verification candidates file =
      recovered session_id (filled session_id c verification candidates file) (
        update encoding fault session_id Admission.new_task
          (prepare_in_ledger c verification candidates) file)

  -- The checks before the store is used.
  unfoldable pub prepare_contract : Value → Text → Result (TaskContract × Option Verification)
  prepare_contract value session_id = do
    guard (is_text 1024 session_id) Error.dispatch_preparation
    c ← invalid (contract_from_input encoding.canon value)
    invalid
        (validate_native_spawn interface c.spawn.fork_turns c.spawn.model c.spawn.reasoning_effort)
    verification ← failed (verified c.business_record.context.verified)
    ok (c, verification)

  -- prepare_dispatch
  unfoldable pub prepare_dispatch :
      WriteFault → Value → Text → List Text → Contents → Result Preparation × Contents
  unfolding prepare_contract insert_task
  prepare_dispatch fault value session_id candidates file =
      elim (prepare_contract value session_id) [
        | err e ↦ (err e, file)
        | ok (c, verification) ↦ insert_task fault session_id c verification candidates file
      ]
