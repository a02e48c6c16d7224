-- ===== src/Tests/Stored.antt =====
-- Ledgers in files, and targets that are taken or free.
use subagent_governance.State.Meaning.{
  IsSoundLedger, validate_current_state_format-IsSoundLedger,
  IsSoundLedger-validate_current_state_format,
}
use subagent_governance.Base.{
  codes, refl, ◌≡◌, some, true, ok, err, Error, Result, [], ◌∷◌, Text-discrete, ℕ_discrete, is_text,
  lookup, insert,
}
use subagent_governance.Json.{is_member}
use subagent_governance.Contract.Records.{to_record}
use subagent_governance.Contract.Checks.{validate_task_contract}
use subagent_governance.Contract.Input.{validate_contract_summary, contract_summary_digest}
use subagent_governance.Identity.{is_task_ref}
use subagent_governance.Ledger.{Ledger}
use subagent_governance.Inputs.{operation_inputs}
use subagent_governance.Lifecycle.{Verdict, with_inputs}
use subagent_governance.Dispatch.{confirm_in_ledger, confirm_task, bound_task, common_facts}
use subagent_governance.Dispatch.Binding.{IsBoundAlone, confirm_in_ledger-IsBoundAlone}
use subagent_governance.Retention.{prune_closed_tasks}
use subagent_governance.Retention.Open.{prune_closed_tasks-open}
use subagent_governance.State.{validate_current_state_format, require_current_state_format}
use subagent_governance.Store.{Contents, WriteFault, Admission, update, read_path, write_path}
use subagent_governance.Store.Writes.{update-error_keeps}
use subagent_governance.Store.Reading.{Stored, update-Stored}
use subagent_governance.Tests.Data.{
  bound_example, claimed_example, with_task, encoding, canon, id, ref, other_agent, session,
}

bound_clean : validate_current_state_format canon (with_task bound_example) ≡ []
unfolding validate_current_state_format Text-discrete ℕ_discrete is_text is_task_ref
    validate_contract_summary validate_task_contract to_record is_member contract_summary_digest
bound_clean = refl

validate_current_state_format-IsSoundLedger_example : IsSoundLedger canon (with_task bound_example)
validate_current_state_format-IsSoundLedger_example =
    validate_current_state_format-IsSoundLedger canon (with_task bound_example) bound_clean

IsSoundLedger-validate_current_state_format_example :
    validate_current_state_format canon (with_task bound_example) ≡ []
IsSoundLedger-validate_current_state_format_example =
    IsSoundLedger-validate_current_state_format canon (with_task bound_example)
      (validate_current_state_format-IsSoundLedger canon (with_task bound_example) bound_clean)

prune_closed_tasks-open_example :
    lookup id (prune_closed_tasks (λ l. true) (with_task bound_example)).0.tasks
    ≡ some bound_example
unfolding lookup Text-discrete ℕ_discrete
prune_closed_tasks-open_example =
    prune_closed_tasks-open (λ l. true) (with_task bound_example) id bound_example (refl, tt) refl
      (λ e. cc)

-- Two tasks, one of them bound.
two : Ledger
two = record (with_task claimed_example) {
  tasks =
      (id, claimed_example)
      ∷ (codes "task2", record bound_example { task_ref = codes "fedcba987654" })
      ∷ [];
}

two_bound : Ledger
unfolding bound_task common_facts
two_bound = record two {
  tasks =
      (id, bound_task 20 other_agent claimed_example)
      ∷ (codes "task2", record bound_example { task_ref = codes "fedcba987654" })
      ∷ [];
}

confirm_in_ledger-IsBoundAlone_example : IsBoundAlone id other_agent two_bound
unfolding confirm_in_ledger two two_bound confirm_task with_inputs operation_inputs
    prune_closed_tasks lookup insert Text-discrete ℕ_discrete
confirm_in_ledger-IsBoundAlone_example =
    confirm_in_ledger-IsBoundAlone 20 id ref other_agent two two_bound _ refl refl

-- A callback that puts the bound task in the ledger, and one that raises.
put_bound : Ledger → Result (Ledger × Verdict)
put_bound l = ok (with_task bound_example, Verdict.bound)

refuse : Ledger → Result (Ledger × Verdict)
refuse l = err Error.state_conflict

update-Stored_example :
    Stored encoding WriteFault.no_fault session Admission.existing put_bound Contents.missing
      (Contents.stored (with_task bound_example))
      Verdict.bound
unfolding put_bound update read_path write_path require_current_state_format
    validate_current_state_format Text-discrete ℕ_discrete is_text is_task_ref
    validate_contract_summary validate_task_contract to_record is_member contract_summary_digest
update-Stored_example =
    update-Stored encoding WriteFault.no_fault session Admission.existing put_bound Contents.missing
      (Contents.stored (with_task bound_example)) Verdict.bound refl

update-error_keeps_example :
    Contents.stored (with_task bound_example) ≡ Contents.stored (with_task bound_example)
unfolding refuse update read_path require_current_state_format validate_current_state_format
    Text-discrete ℕ_discrete is_text is_task_ref validate_contract_summary validate_task_contract
    to_record is_member contract_summary_digest
update-error_keeps_example =
    update-error_keeps encoding WriteFault.no_fault session Admission.existing refuse
      (Contents.stored (with_task bound_example)) (Contents.stored (with_task bound_example))
      Error.state_conflict (λ e. cc) refl
