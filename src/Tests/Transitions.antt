-- ===== src/Tests/Transitions.antt =====
-- Single transitions on concrete tasks.
use subagent_governance.Base.{
  codes, refl, ◌≡◌, none, some, ok, err, Error, [], ◌∷◌, Result, Text-discrete, ℕ_discrete, is_text,
  strip,
}
use subagent_governance.Json.{is_member, Value, fields, get, get_field, unknown_keys}
use subagent_governance.Semantics.{Status, Source, status_eq}
use subagent_governance.Contract.{Manifest, Verification}
use subagent_governance.Contract.Records.{to_record}
use subagent_governance.Contract.Checks.{validate_task_contract}
use subagent_governance.Contract.Read.{contract}
use subagent_governance.Contract.Input.{contract_from_input}
use subagent_governance.Identity.{task_name_from_message}
use subagent_governance.Native.{fork_turns_valid, normalize_native_spawn}
use subagent_governance.Ledger.{Task}
use subagent_governance.Lifecycle.{Verdict, outcome}
use subagent_governance.Lifecycle.Observation.{observe_task, notify_task}
use subagent_governance.Lifecycle.Receipts.{interrupt_task, call_task, close, closed_task}
use subagent_governance.Lifecycle.Replays.{task_of}
use subagent_governance.Steps.Operations.{Receipt, is_admitted, receive_task, receive_task-again}
use subagent_governance.Dispatch.{
  confirm_task, bound_task, common_facts, dispatch_task, dispatched, DispatchResult,
}
use subagent_governance.Dispatch.Claim.{
  check_material, claim_task, claimed_task, claim_parameters_match, same_parameters,
}
use subagent_governance.Dispatch.Once.{Claimed, claim_task-Claimed, claim_task-once}
use subagent_governance.Steps.{Walk}
use subagent_governance.Steps.Operations.{receive_task-Walk, receive_task, is_admitted, Receipt}
use subagent_governance.Steps.Recording.{call_task-Walk, close-Walk}
use subagent_governance.Steps.Dispatching.{confirm_task-Walk, dispatch_task-Walk, claim_task-Walk}
use subagent_governance.Tests.Data.{
  bound_example, ended_example, prepared_example, claimed_example, canon, id, ref, agent, call,
  other_call,
}

receive_task-Walk_example : Walk 30 bound_example ended_example
unfolding receive_task is_admitted observe_task status_eq
receive_task-Walk_example =
    receive_task-Walk 30 id ref agent Receipt.observation Status.completed refl refl

notified : Walk 30 bound_example (record ended_example {
  platform_observation = none;
  terminal_fact =
      some (record { source = Source.notification; status = Status.completed; observed_at = 30 });
})
unfolding receive_task is_admitted notify_task
notified = receive_task-Walk 30 id ref agent Receipt.notification Status.completed refl refl

interrupt_failing : Walk 30 bound_example (record bound_example {
  updated_at = 30;
  interrupt_fact = some (record { status = Status.failed; observed_at = 30 });
})
unfolding receive_task is_admitted interrupt_task
interrupt_failing = receive_task-Walk 30 id ref agent Receipt.interrupt Status.failed refl refl

call_task-Walk_example : Walk 30 bound_example (record bound_example {
  updated_at = 30;
  unknown_facts =
      some (record { delivery = some 30; platform_observation = none; interrupt = none });
})
unfolding call_task
call_task-Walk_example = call_task-Walk 30 id ref agent refl

close-Walk_example : Walk 40 ended_example (closed_task 40 (codes "done") ended_example)
unfolding close Text-discrete ℕ_discrete is_text
close-Walk_example = close-Walk 40 id ref (codes "done") refl refl

confirm_task-Walk_example : Walk 20 claimed_example bound_example
unfolding confirm_task bound_task common_facts Text-discrete ℕ_discrete is_text
confirm_task-Walk_example = confirm_task-Walk 20 id ref agent ((id, claimed_example) ∷ []) refl refl

dispatch_task-Walk_example :
    Walk 20 claimed_example (dispatched 20 DispatchResult.failed claimed_example)
unfolding dispatch_task
dispatch_task-Walk_example = dispatch_task-Walk 20 id ref DispatchResult.failed refl

-- The native call with the prepared parameters.
native_call : Value
unfolding fields
native_call = Value.obj (
    fields (
      (codes "task_name", Value.str (codes "sg_standard_a_t_0123456789ab"))
      ∷ (codes "message", Value.str (codes "m"))
      ∷ (codes "fork_turns", Value.str (codes "none"))
      ∷ []))

no_material : Manifest → Result Verification
no_material m = err Error.context_verification

claimed_run :
    claim_task canon no_material 15 ref call native_call id prepared_example
    ≡ ok (claimed_example, outcome Verdict.claimed id ref none)
unfolding claim_task claimed_task native_call no_material Text-discrete ℕ_discrete
    contract_from_input claim_parameters_match same_parameters normalize_native_spawn unknown_keys
    get get_field task_name_from_message to_record validate_task_contract fork_turns_valid is_member
    strip contract check_material
claimed_run = refl

claim_task-Walk_example : Walk 15 prepared_example claimed_example
unfolding is_text Text-discrete ℕ_discrete
claim_task-Walk_example =
    claim_task-Walk canon no_material 15 ref call native_call id refl claimed_run

-- An ended task whose interrupt has confirmed that.
interrupted : Task
interrupted = record ended_example {
  updated_at = 35;
  interrupt_fact = some (record { status = Status.inactive; observed_at = 35 });
}

receive_task-again_example :
    task_of (receive_task Receipt.interrupt Status.inactive 50 id ref agent interrupted)
    ≡ some interrupted
unfolding receive_task is_admitted interrupt_task status_eq interrupted
receive_task-again_example =
    receive_task-again 35 50 id ref agent Status.inactive ended_example interrupted _
      Receipt.interrupt refl refl

claim_task-Claimed_example :
    Claimed canon no_material 15 ref call native_call prepared_example claimed_example
claim_task-Claimed_example =
    claim_task-Claimed canon no_material 15 ref call native_call id prepared_example claimed_example
      _ claimed_run

claim_task-once_example :
    claim_task canon no_material 16 ref other_call native_call id claimed_example
    ≡ err Error.state_conflict
claim_task-once_example =
    claim_task-once canon no_material 15 16 ref call other_call native_call native_call id
      prepared_example claimed_example _ claimed_run (λ same. cc)
