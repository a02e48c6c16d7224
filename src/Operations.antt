-- ===== src/Operations.antt =====
-- The operations of scripts/governance_lifecycle.py and scripts/governance_dispatch.py as a caller
-- runs them: the request is
-- checked, and the transition runs inside StateStore.update. `fault` says how the write ends, and
-- `now` is the clock.
use subagent_governance.Base.{ℕ, Text, Bool, true, false, Result, ok, err, ◌>>=◌}
use subagent_governance.Json.{Value}
use subagent_governance.Semantics.{Status, status_eq}
use subagent_governance.Lifecycle.{Outcome}
use subagent_governance.Lifecycle.Requests.{
  Identity, observation_request, notification_request, interrupt_request, call_request,
  close_request,
}
use subagent_governance.Lifecycle.Observation.{record_observation, record_notification}
use subagent_governance.Lifecycle.Receipts.{
  record_interrupt, record_unknown_call, check_call, close_in_ledger,
}
use subagent_governance.Dispatch.{
  confirmation, confirm_in_ledger, dispatch_report, dispatch_in_ledger,
}
use subagent_governance.Store.{Contents, WriteFault, Admission, Encoding, update, read_path}

module _ (encoding : Encoding) (fault : WriteFault) (now : ℕ) (session_id : Text) where
  -- A request that is refused leaves the file alone.
  abbrev after_request :
      {A : Type 0}
      → Result A
      → (A → Contents → Result Outcome × Contents)
      → Contents
      → Result Outcome × Contents
  after_request (err e) run file = (err e, file)
  after_request (ok a) run file = run a file

  unfoldable pub record_platform_observation : Value → Contents → Result Outcome × Contents
  record_platform_observation value = after_request (observation_request value) λ (i, status).
      update encoding fault session_id Admission.existing
        (record_observation status now i.task_id i.task_ref i.target)

  unfoldable pub record_terminal_notification : Value → Contents → Result Outcome × Contents
  record_terminal_notification value = after_request (notification_request value) λ (i, status).
      update encoding fault session_id Admission.existing
        (record_notification status now i.task_id i.task_ref i.target)

  unfoldable pub record_interrupt_result : Value → Contents → Result Outcome × Contents
  record_interrupt_result value = after_request (interrupt_request value) λ (i, status).
      update encoding fault session_id Admission.existing
        (record_interrupt now i.task_id i.task_ref i.target status)

  -- A definite result is read against the ledger and not stored.
  call_result_at : Bool → Identity × Status → Contents → Result Outcome × Contents
  call_result_at true (i, status) file =
      update encoding fault session_id Admission.existing
        (record_unknown_call now i.task_id i.task_ref i.target) file
  call_result_at false (i, status) file = (
    do
      l ← read_path encoding session_id file
      check_call now i.task_id i.task_ref i.target status l,
    file,
  )

  unfoldable pub record_call_result : Value → Contents → Result Outcome × Contents
  unfolding call_result_at
  record_call_result value =
      after_request (call_request value) λ r. call_result_at (status_eq r.1 Status.unknown) r

  unfoldable pub close_task : Value → Contents → Result Outcome × Contents
  close_task value = after_request (close_request value) λ r.
      update encoding fault session_id Admission.existing
        (close_in_ledger now r.task_id r.task_ref r.reason)

  -- confirm_dispatch of scripts/governance_dispatch.py
  unfoldable pub confirm_dispatch : Value → Contents → Result Outcome × Contents
  confirm_dispatch value = after_request (confirmation value) λ i.
      update encoding fault session_id Admission.existing
        (confirm_in_ledger now i.task_id i.task_ref i.target)

  -- record_dispatch_result of scripts/governance_dispatch.py
  unfoldable pub record_dispatch_result : Value → Contents → Result Outcome × Contents
  record_dispatch_result value = after_request (dispatch_report value) λ r.
      update encoding fault session_id Admission.existing
        (dispatch_in_ledger now r.task_id r.task_ref r.result)
