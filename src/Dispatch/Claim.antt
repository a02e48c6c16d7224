-- ===== src/Dispatch/Claim.antt =====
-- claim_spawn: the first native call with the prepared parameters consumes the capability.
use subagent_governance.Base.{
  ℕ, Text, strip, text_eq, Dict, Option, none, some, Bool, true, false, List, [], ◌∷◌, ◌&&◌, decide,
  if◌then◌else◌, leb, ltb, length, Result, ok, err, Error, Stage, guard, or_raise, ◌>>=◌, ◌>>◌,
}
use subagent_governance.Json.{Value}
use subagent_governance.Semantics.{Phase, NativeInterface}
use subagent_governance.Contract.{Manifest, Verification, NativeParameters, Verification-discrete}
use subagent_governance.Contract.Canon.{Canon}
use subagent_governance.Contract.Records.{to_record}
use subagent_governance.Contract.Input.{contract_from_input}
use subagent_governance.Native.{NormalSpawn, normalize_native_spawn}
use subagent_governance.Ledger.{Task, Ledger, Prepared, is_option, put_task}
use subagent_governance.Retention.{prune_closed_tasks, within_capacity}
use subagent_governance.Lifecycle.{Verdict, Outcome, outcome}
use subagent_governance.Store.{Contents, WriteFault, Admission, Encoding, read_path, write_path}

unfoldable pub with_ref : Text → Dict Task → List (Text × Task)
with_ref task_ref [] = []
with_ref task_ref ((task_id, t) ∷ d) =
    if text_eq t.task_ref task_ref then (task_id, t) ∷ with_ref task_ref d else with_ref task_ref d

unfoldable pub only : List (Text × Task) → Result (Text × Task)
only (m ∷ []) = ok m
only _ = err Error.state_conflict

-- `_find_by_ref`
unfoldable pub find_by_ref : Text → Ledger → Result (Text × Task)
unfolding with_ref only
find_by_ref task_ref l = only (with_ref task_ref l.tasks)

abbrev pub same_option : Option Text → Option Text → Bool
same_option none none = true
same_option (some a) (some b) = text_eq a b
same_option _ _ = false

-- A value of the call against a text, or None, of the capability.
abbrev pub same_value : Value → Option Text → Bool
same_value Value.null none = true
same_value (Value.str a) (some b) = text_eq a b
same_value _ _ = false

-- The comparison of `_claim_parameters_match`; the message is not compared.
unfoldable pub same_parameters : NormalSpawn → NativeParameters → Bool
same_parameters actual e =
    same_option actual.task_name e.task_name
    && (text_eq actual.fork_turns e.fork_turns
        && (same_value actual.model e.model
            && same_value actual.reasoning_effort e.reasoning_effort))

-- `_claim_parameters_match`
unfoldable pub claim_parameters_match : NativeInterface → Value → NativeParameters → Result Bool
unfolding same_parameters
claim_parameters_match interface tool_input e = do
  actual ← normalize_native_spawn interface tool_input
  ok (same_parameters actual e)

-- What an exception of the claim becomes: conflicts and native errors pass, and anything else is a
-- failed claim that names the stage.
unfoldable pub classify : Stage → Error → Error
classify here Error.state_conflict = Error.state_conflict
classify here Error.capability_expired = Error.capability_expired
classify here Error.native_unavailable = Error.native_unavailable
classify here Error.native_mismatch = Error.native_mismatch
classify here Error.material_conflict = Error.material_conflict
classify here (Error.claim_failure s e) = Error.claim_failure s e
classify here e = Error.claim_failure here e

abbrev pub staged : {A : Type 0} → Stage → Result A → Result A
staged here (ok a) = ok a
staged here (err e) = err (classify here e)

-- The declared material is read again: a conflict is a state conflict that it caused.
abbrev material_conflict : Result Verification → Result Verification
material_conflict (err Error.context_conflict) = err Error.material_conflict
material_conflict r = r

abbrev same_verification : Verification → Option Verification → Bool
same_verification v none = false
same_verification v (some w) = decide (Verification-discrete v w)

-- `task["prepared"]["expected_native_parameters"]`
abbrev pub expected_of : Option Prepared → Result NativeParameters
expected_of none = err Error.type_error
expected_of (some p) = ok p.expected_native_parameters

module _ (claimed_at : ℕ) (tool_use_id : Text) where
  unfoldable pub claimed_task : Task → Task
  claimed_task t = record t {
    phase = Phase.claimed;
    claimed_tool_use_id = some tool_use_id;
    claimed_at = some claimed_at;
    updated_at = claimed_at;
  }

module _ (canon : Canon) (verify : Manifest → Result Verification) (claimed_at : ℕ)
    (task_ref tool_use_id : Text) (tool_input : Value) where
  -- The stage `material`, for a contract with declared material.
  unfoldable pub check_material : Option Manifest → Prepared → Result (Unit {0})
  check_material none p = ok tt
  check_material (some m) p = do
    v ← material_conflict (verify m)
    guard (same_verification v p.context_verification) Error.material_conflict

  -- A capability that is there, has not expired and fits the call.
  unfoldable pub claim_prepared : Text → Task → Result (Task × Outcome)
  unfolding claimed_task
  claim_prepared task_id t = do
    p ← or_raise t.prepared Error.state_conflict
    guard (ltb claimed_at p.expires_at) Error.capability_expired
    fits ←
        staged Stage.validation
          (claim_parameters_match t.native_interface tool_input p.expected_native_parameters)
    guard fits Error.state_conflict
    c ← staged Stage.validation (contract_from_input canon (to_record p.contract))
    staged Stage.material (check_material c.business_record.context.verified p)
    ok (claimed_task claimed_at tool_use_id t, outcome Verdict.claimed task_id task_ref none)

  -- The same call may claim again; any other finds the capability consumed.
  unfoldable pub claim_again : Text → Task → Result (Task × Outcome)
  claim_again task_id t = do
    guard (is_option t.claimed_tool_use_id tool_use_id) Error.state_conflict
    fits ←
        staged Stage.validation
          (do e ← expected_of t.prepared; claim_parameters_match t.native_interface tool_input e)
    guard fits Error.state_conflict
    ok (t, outcome Verdict.already_claimed task_id task_ref none)

  unfoldable pub claim_at : Phase → Text → Task → Result (Task × Outcome)
  unfolding claim_prepared claim_again
  claim_at Phase.claimed task_id t = claim_again task_id t
  claim_at Phase.prepared task_id t = claim_prepared task_id t
  claim_at _ task_id t = err Error.state_conflict

  unfoldable pub claim_task : Text → Task → Result (Task × Outcome)
  unfolding claim_at
  claim_task task_id t = claim_at t.phase task_id t

  -- The callback `claim`.
  unfoldable pub claim_in_ledger : Ledger → Result (Ledger × Outcome)
  unfolding find_by_ref
  claim_in_ledger l = do
    let pruned = (prune_closed_tasks within_capacity l).0
    found ← find_by_ref task_ref pruned
    r ← claim_task found.0 found.1
    ok (put_task found.0 (r.0) pruned, r.1)

  -- The readback after an error: the exact same claim, if the ledger holds it.
  unfoldable pub committed : Phase → Text → Task → Result Outcome
  committed Phase.claimed task_id t = do
    guard (is_option t.claimed_tool_use_id tool_use_id) Error.state_conflict
    e ← expected_of t.prepared
    fits ← claim_parameters_match t.native_interface tool_input e
    guard fits Error.state_conflict
    ok (outcome Verdict.claimed_after_write_error task_id task_ref none)
  committed _ task_id t = err Error.state_conflict

  unfoldable pub committed_claim : Ledger → Result Outcome
  unfolding find_by_ref committed
  committed_claim l = do found ← find_by_ref task_ref l; committed found.1.phase found.0 found.1

module _ (encoding : Encoding) (verify : Manifest → Result Verification) (fault : WriteFault)
    (claimed_at : ℕ) (session_id task_ref tool_use_id : Text) (tool_input : Value) where
  -- `state_store.update(session_id, claim)` with the stage at which an error leaves it.
  abbrev pub written_outcome : Outcome → Result (Unit {0}) × Contents → Result Outcome × Contents
  written_outcome o (ok _, file) = (ok o, file)
  written_outcome o (err e, file) = (err (classify Stage.commit e), file)

  unfoldable pub update_claim : Contents → Result Outcome × Contents
  unfolding classify
  update_claim file = elim (staged Stage.state (read_path encoding session_id file)) [
    | err e ↦ (err e, file)
    | ok l ↦
        elim (claim_in_ledger encoding.canon verify claimed_at task_ref tool_use_id tool_input l) [
          | err e ↦ (err e, file)
          | ok (l', o) ↦
              written_outcome o (write_path encoding fault session_id Admission.existing l' file)
        ]
  ]

  -- The `except` branch: the error stays unless the readback finds this very claim.
  abbrev pub recover : Result Outcome → Result Outcome × Contents → Result Outcome × Contents
  recover again (ok o, file) = (ok o, file)
  recover (ok o) (err e, file) = (ok o, file)
  recover (err d) (err e, file) = (err e, file)

  unfoldable pub read_again : Contents → Result Outcome
  read_again file = do
    l ← read_path encoding session_id file
    committed_claim encoding.canon verify claimed_at task_ref tool_use_id tool_input l

  abbrev pub with_recovery : Result Outcome × Contents → Result Outcome × Contents
  with_recovery (r, file) = recover (read_again file) (r, file)

  -- claim_spawn
  unfoldable pub claim_spawn : Contents → Result Outcome × Contents
  unfolding update_claim read_again
  claim_spawn file =
      if leb 1 (length (strip tool_use_id)) && leb (length tool_use_id) 1024
      then with_recovery (update_claim file)
      else (err Error.state_conflict, file)
