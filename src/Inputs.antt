-- ===== src/Inputs.antt =====
-- scripts/governance_operation_inputs.py: the inputs that a caller may submit next for a task.
use subagent_governance.Base.{Text, List, [], ◌∷◌, Result, ok, Error, or_raise, ◌>>=◌}
use subagent_governance.Semantics.{Phase}
use subagent_governance.Ledger.{Task}

-- The first two texts are task_id and task_ref, the third is the target.
pub data OperationInput : Type 0 where
  confirm_dispatch close_task : Text → Text → OperationInput
  record_terminal_notification record_platform_observation : Text → Text → Text → OperationInput

inputs_at : Phase → Text → Task → Result (List OperationInput)
inputs_at Phase.prepared task_id t = ok (OperationInput.confirm_dispatch task_id t.task_ref ∷ [])
inputs_at Phase.claimed task_id t = ok (OperationInput.confirm_dispatch task_id t.task_ref ∷ [])
inputs_at Phase.closed task_id t = ok []
inputs_at Phase.bound task_id t = do
  target ← or_raise t.target Error.key_error
  ok (
      OperationInput.record_terminal_notification task_id t.task_ref target
      ∷ OperationInput.record_platform_observation task_id t.task_ref target
      ∷ OperationInput.close_task task_id t.task_ref
      ∷ [])
inputs_at Phase.terminal task_id t = ok (OperationInput.close_task task_id t.task_ref ∷ [])
inputs_at Phase.reconcile task_id t = ok (OperationInput.close_task task_id t.task_ref ∷ [])

unfoldable pub operation_inputs : Text → Task → Result (List OperationInput)
unfolding inputs_at
operation_inputs task_id t = inputs_at t.phase task_id t
