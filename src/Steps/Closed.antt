-- ===== src/Steps/Closed.antt =====
-- The operations of governance_lifecycle.py and governance_dispatch.py on one task, taken together,
-- and what they do to a closed one.
use subagent_governance.Base.{ℕ, Text, Dict, ◌≡◌, Result, ok}
use subagent_governance.Semantics.{Phase}
use subagent_governance.Contract.{Manifest, Verification}
use subagent_governance.Contract.Canon.{Canon}
use subagent_governance.Ledger.{Task}
use subagent_governance.Lifecycle.{Outcome}
use subagent_governance.Lifecycle.Receipts.{call_task, close}
use subagent_governance.Dispatch.{dispatch_task, confirm_task}
use subagent_governance.Dispatch.Claim.{claim_task}
use subagent_governance.Steps.{Walk}
use subagent_governance.Steps.Recording.{call_task-Walk, close-Walk}
use subagent_governance.Steps.Dispatching.{claim_task-Walk, confirm_task-Walk, dispatch_task-Walk}
use subagent_governance.Steps.Retained.{Walk-closed}
use subagent_governance.Steps.Operations.{
  Operation, receive_task, receive_task-Walk, IsAdmitted, HasTrimmedCall, is_call-is_text,
}

module _ (canon : Canon) (verify : Manifest → Result Verification) (now : ℕ) (task_id : Text)
    (tasks : Dict Task) where
  -- What an operation does to the task of this identity in a ledger with these tasks.
  unfoldable pub operate : Operation → Task → Result (Task × Outcome)
  operate (Operation.receive r s i ref target) t = receive_task r s now i ref target t
  operate (Operation.unknown_call i ref target) t = call_task now i ref target t
  operate (Operation.finish i ref reason) t = close now i ref reason t
  operate (Operation.end_dispatch result i ref) t = dispatch_task now i ref result t
  operate (Operation.claim ref call tool_input) t =
      claim_task canon verify now ref call tool_input task_id t
  operate (Operation.confirm i ref target) t = confirm_task now i ref target tasks t

  operate-Walk :
      (op : Operation) (t u : Task) (o : Outcome)
      → IsAdmitted op
      → HasTrimmedCall op
      → operate op t ≡ ok (u, o)
      → Walk now t u
  unfolding operate IsAdmitted HasTrimmedCall
  operate-Walk (Operation.receive r s i ref target) t u o k a h =
      receive_task-Walk now i ref target r s k h
  operate-Walk (Operation.unknown_call i ref target) t u o k a h = call_task-Walk now i ref target h
  operate-Walk (Operation.finish i ref reason) t u o k a h = close-Walk now i ref reason k h
  operate-Walk (Operation.end_dispatch result i ref) t u o k a h =
      dispatch_task-Walk now i ref result h
  operate-Walk (Operation.claim ref call tool_input) t u o k a h =
      claim_task-Walk canon verify now ref call tool_input task_id (is_call-is_text call k a) h
  operate-Walk (Operation.confirm i ref target) t u o k a h =
      confirm_task-Walk now i ref target tasks k h

  -- A closed task stays as it is under every operation that returns: an observation, a notification, a
  -- receipt of an interrupt or of an unknown call, a closing, the result of a dispatch, a claim and a
  -- confirmation; where the values are those that the request's checks admit, and the tool_use_id of a
  -- claim has no surrounding space.
  pub operate-closed :
      (op : Operation) (t u : Task) (o : Outcome)
      → IsAdmitted op
      → HasTrimmedCall op
      → t.phase ≡ Phase.closed
      → operate op t ≡ ok (u, o)
      → u ≡ t
  operate-closed op t u o k a p h = Walk-closed (operate-Walk op t u o k a h) p
