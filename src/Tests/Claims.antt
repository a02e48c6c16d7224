-- ===== src/Tests/Claims.antt =====
-- A prepared task in a ledger: it is valid, a claim keeps the ledger so, and it is seen.
use mathlib.Core.Bool.{decide}
use mathlib.Core.List.{Perm}
use subagent_governance.Base.{
  ok, map, List, codes, refl, ◌≡◌, arith, err, Error, Result, [], ◌∷◌, Text-discrete, ℕ_discrete,
  is_text, strip, lookup, insert,
}
use subagent_governance.Json.{Value, fields, is_member}
use subagent_governance.Contract.{Manifest, Verification, Business-discrete}
use subagent_governance.Contract.Records.{to_record}
use subagent_governance.Contract.Read.{contract}
use subagent_governance.Contract.Checks.{validate_task_contract}
use subagent_governance.Contract.Input.{
  contract_from_input, contract_digest, spawn_digest, validate_contract_summary,
  contract_summary_digest,
}
use subagent_governance.Identity.{is_task_ref, task_name_from_message}
use subagent_governance.Native.{fork_turns_valid, validate_native_spawn, normalize_native_spawn}
use subagent_governance.Retention.{prune_closed_tasks}
use subagent_governance.Dispatch.Claim.{
  find_by_ref, claim_in_ledger, claim_task, claimed_task, claim_parameters_match, same_parameters,
  check_material,
}
use subagent_governance.State.{validate_current_state_format}
use subagent_governance.State.Ledgers.{IsValidLedger, validate_current_state_format-IsValidLedger}
use subagent_governance.Diagnostics.{View, project_status}
use subagent_governance.Diagnostics.Complete.{IsSorted, seen, entry, project_status-seen}
use subagent_governance.Steps.Operations.{
  Operation, IsAdmitted, HasTrimmedCall, callback, callback-IsValidLedger,
}
use subagent_governance.Tests.Data.{prepared_example, claimed_example, with_task, canon, ref, call}

prepared_clean : validate_current_state_format canon (with_task prepared_example) ≡ []
unfolding validate_current_state_format Text-discrete ℕ_discrete is_text is_task_ref
    validate_contract_summary validate_task_contract to_record is_member contract_summary_digest
    contract_from_input contract contract_digest spawn_digest fork_turns_valid validate_native_spawn
    decide Business-discrete
prepared_clean = refl

prepared_ledger : IsValidLedger canon (with_task prepared_example)
prepared_ledger =
    validate_current_state_format-IsValidLedger canon (with_task prepared_example) prepared_clean

tool_call : Value
unfolding fields
tool_call = Value.obj (
    fields (
      (codes "task_name", Value.str (codes "sg_standard_a_t_0123456789ab"))
      ∷ (codes "message", Value.str (codes "m"))
      ∷ (codes "fork_turns", Value.str (codes "none"))
      ∷ []))

nothing_read : Manifest → Result Verification
nothing_read m = err Error.context_verification

callback-IsValidLedger_example : IsValidLedger canon (with_task claimed_example)
unfolding callback IsAdmitted HasTrimmedCall claim_in_ledger find_by_ref prune_closed_tasks insert
    lookup claim_task claimed_task tool_call nothing_read Text-discrete ℕ_discrete is_text
    contract_from_input claim_parameters_match same_parameters normalize_native_spawn
    task_name_from_message to_record validate_task_contract fork_turns_valid is_member strip
    contract check_material
callback-IsValidLedger_example =
    callback-IsValidLedger canon nothing_read 15 (Operation.claim ref call tool_call)
      (with_task prepared_example) (with_task claimed_example) _ refl refl (refl, tt)
      (omega arith, tt) prepared_ledger refl

-- The view of the prepared task before it expires.
project_status-seen_example :
    (views : List View) × (project_status 20 (with_task prepared_example).tasks ≡ ok views)
    × IsSorted (map (λ v. v.task_id) views)
    × Perm (map seen views) (map entry (with_task prepared_example).tasks)
project_status-seen_example =
    project_status-seen canon 20 (with_task prepared_example) prepared_ledger
