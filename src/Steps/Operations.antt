-- ===== src/Steps/Operations.antt =====
-- The callbacks of governance_lifecycle.py and governance_dispatch.py on a ledger, taken together.
use subagent_governance.Base.{
  ℕ, Text, Bool, is_text, ◌≡◌, true, some, Result, ok, leb, length, strip, ◌&&◌, text_eq_complete,
  sym, arith,
}
use subagent_governance.Json.{Value}
use subagent_governance.Semantics.{
  Status, is_platform_observation, is_terminal_status, is_interrupt_result,
}
use subagent_governance.Contract.{Manifest, Verification}
use subagent_governance.Contract.Canon.{Canon}
use subagent_governance.Ledger.{Task, Ledger}
use subagent_governance.Retention.Open.{Unique}
use subagent_governance.Lifecycle.{Outcome}
use subagent_governance.Lifecycle.Observation.{record_observation, record_notification}
use subagent_governance.Lifecycle.Receipts.{record_interrupt, record_unknown_call, close_in_ledger}
use subagent_governance.Lifecycle.Observation.{observe_task, notify_task}
use subagent_governance.Lifecycle.Receipts.{interrupt_task}
use subagent_governance.Lifecycle.Replays.{
  task_of, observe_task-again, notify_task-again, interrupt_task-again,
}
use subagent_governance.Dispatch.{DispatchResult, dispatch_in_ledger, confirm_in_ledger}
use subagent_governance.Dispatch.Claim.{claim_in_ledger}
use subagent_governance.State.Ledgers.{IsValidLedger, All}
use subagent_governance.Steps.Ledgers.{BeforeNow}
use subagent_governance.Steps.Callbacks.{
  record_observation-IsValidLedger, record_notification-IsValidLedger,
  record_interrupt-IsValidLedger, record_unknown_call-IsValidLedger, close_in_ledger-IsValidLedger,
}
use subagent_governance.Steps.Dispatches.{dispatch_in_ledger-IsValidLedger}
use subagent_governance.Steps.Claims.{claim_in_ledger-IsValidLedger}
use subagent_governance.Steps.{Walk}
use subagent_governance.Steps.Recording.{observe_task-Walk, notify_task-Walk, interrupt_task-Walk}
use subagent_governance.Steps.Confirming.{confirm_in_ledger-IsValidLedger}

-- A receipt of an agent: what a platform shows, what the agent notifies, or how an interrupt ends.
pub data Receipt : Type 0 where
  observation notification interrupt : Receipt

-- The statuses that a request of the receipt may have.
unfoldable pub is_admitted : Receipt → Status → Bool
is_admitted Receipt.observation = is_platform_observation
is_admitted Receipt.notification = is_terminal_status
is_admitted Receipt.interrupt = is_interrupt_result

-- An operation with the values of its request. The first two texts are the task's identity and
-- reference.
pub data Operation : Type 0 where
  receive : Receipt → Status → Text → Text → Text → Operation
  unknown_call : Text → Text → Text → Operation
  finish : Text → Text → Text → Operation
  end_dispatch : DispatchResult → Text → Text → Operation
  claim : Text → Text → Value → Operation
  confirm : Text → Text → Text → Operation

unfoldable pub receive_task :
    Receipt → Status → ℕ → Text → Text → Text → Task → Result (Task × Outcome)
receive_task Receipt.observation s now task_id task_ref target =
    observe_task s now task_id task_ref target
receive_task Receipt.notification s now task_id task_ref target =
    notify_task s now task_id task_ref target
receive_task Receipt.interrupt s now task_id task_ref target =
    interrupt_task now task_id task_ref target s

unfoldable pub receive_in_ledger :
    Receipt → Status → ℕ → Text → Text → Text → Ledger → Result (Ledger × Outcome)
receive_in_ledger Receipt.observation s now task_id task_ref target =
    record_observation s now task_id task_ref target
receive_in_ledger Receipt.notification s now task_id task_ref target =
    record_notification s now task_id task_ref target
receive_in_ledger Receipt.interrupt s now task_id task_ref target =
    record_interrupt now task_id task_ref target s

-- The check of claim_spawn.
abbrev pub is_call : Text → Bool
is_call call = leb 1 (length (strip call)) && leb (length call) 1024

-- What the checks of the request leave to the callback: of a claim, that its tool_use_id has 1 to
-- 1024 characters and not only spaces.
unfoldable pub IsAdmitted : Operation → Type 0
IsAdmitted (Operation.receive r s task_id task_ref target) = is_admitted r s ≡ true
IsAdmitted (Operation.finish task_id task_ref reason) = is_text 1024 reason ≡ true
IsAdmitted (Operation.claim task_ref call tool_input) = is_call call ≡ true
IsAdmitted (Operation.confirm task_id task_ref target) = is_text 1024 target ≡ true
IsAdmitted _ = Unit

-- The tool_use_id of a claim has no surrounding space.
unfoldable pub HasTrimmedCall : Operation → Type 0
HasTrimmedCall (Operation.claim task_ref call tool_input) = call ≡ strip call
HasTrimmedCall _ = Unit

pub is_call-is_text :
    (call : Text) → is_call call ≡ true → call ≡ strip call → is_text 1024 call ≡ true
unfolding is_text
is_call-is_text call h trimmed =
    let same = text_eq_complete call (strip call) trimmed in ground (arith, h, sym trimmed, same)

module _ (canon : Canon) (verify : Manifest → Result Verification) (now : ℕ) where
  -- The callback of an operation.
  unfoldable pub callback : Operation → Ledger → Result (Ledger × Outcome)
  unfolding receive_in_ledger
  callback (Operation.receive r s task_id task_ref target) =
      receive_in_ledger r s now task_id task_ref target
  callback (Operation.unknown_call task_id task_ref target) =
      record_unknown_call now task_id task_ref target
  callback (Operation.finish task_id task_ref reason) = close_in_ledger now task_id task_ref reason
  callback (Operation.end_dispatch result task_id task_ref) =
      dispatch_in_ledger now task_id task_ref result
  callback (Operation.claim task_ref call tool_input) =
      claim_in_ledger canon verify now task_ref call tool_input
  callback (Operation.confirm task_id task_ref target) =
      confirm_in_ledger now task_id task_ref target

  -- What an observation, a notification, a receipt of an interrupt or of an unknown call, a closing,
  -- the result of a dispatch, a claim or a confirmation stores is a valid ledger, where the ledger was
  -- valid, no key stood twice in it, no task was created after now, the values are those that the
  -- request's checks admit, and the tool_use_id of a claim has no surrounding space, which the check of
  -- a claim does not test.
  pub callback-IsValidLedger :
      (op : Operation) (l l' : Ledger) (o : Outcome)
      → IsAdmitted op
      → HasTrimmedCall op
      → Unique l.tasks
      → All (BeforeNow canon now) l.tasks
      → IsValidLedger canon l
      → callback op l ≡ ok (l', o)
      → IsValidLedger canon l'
  unfolding callback receive_in_ledger IsAdmitted HasTrimmedCall is_admitted
  callback-IsValidLedger (Operation.receive Receipt.observation s i r g) l l' o k a u c v h =
      record_observation-IsValidLedger canon now i r g s k c v h
  callback-IsValidLedger (Operation.receive Receipt.notification s i r g) l l' o k a u c v h =
      record_notification-IsValidLedger canon now i r g s k c v h
  callback-IsValidLedger (Operation.receive Receipt.interrupt s i r g) l l' o k a u c v h =
      record_interrupt-IsValidLedger canon now i r g s k c v h
  callback-IsValidLedger (Operation.unknown_call i r g) l l' o k a u c v h =
      record_unknown_call-IsValidLedger canon now i r g c v h
  callback-IsValidLedger (Operation.finish i r reason) l l' o k a u c v h =
      close_in_ledger-IsValidLedger canon now i r reason k c v h
  callback-IsValidLedger (Operation.end_dispatch result i r) l l' o k a u c v h =
      dispatch_in_ledger-IsValidLedger canon now i r result c v h
  callback-IsValidLedger (Operation.claim r call input) l l' o k a u c v h =
      claim_in_ledger-IsValidLedger canon verify now r call input l l' o (is_call-is_text call k a)
        u c v h
  callback-IsValidLedger (Operation.confirm i r g) l l' o k a u c v h =
      confirm_in_ledger-IsValidLedger canon now i r g l l' o k u c v h

module _ (now later : ℕ) (task_id task_ref target : Text) (s : Status) (t u : Task)
    (o : Outcome) where
  -- A receipt that was recorded and is reported again, at any time, is accepted and leaves the task
  -- as the first report made it, where its status is one that the request's check admits.
  pub receive_task-again :
      (r : Receipt)
      → is_admitted r s ≡ true
      → receive_task r s now task_id task_ref target t ≡ ok (u, o)
      → task_of (receive_task r s later task_id task_ref target u) ≡ some u
  unfolding receive_task is_admitted
  receive_task-again Receipt.observation k h =
      observe_task-again now later task_id task_ref target s t u o h
  receive_task-again Receipt.notification k h =
      notify_task-again now later task_id task_ref target s t u o k h
  receive_task-again Receipt.interrupt k h =
      interrupt_task-again now later task_id task_ref target s t u o k h

module _ (now : ℕ) (task_id task_ref target : Text) {t u : Task} {o : Outcome} where
  -- What a receipt makes of a task, where the operation returns and the status is one that the
  -- request's check admits, is a walk of the step relation from the task.
  pub receive_task-Walk :
      (r : Receipt) (s : Status)
      → is_admitted r s ≡ true
      → receive_task r s now task_id task_ref target t ≡ ok (u, o)
      → Walk now t u
  unfolding receive_task is_admitted
  receive_task-Walk Receipt.observation s a h = observe_task-Walk now task_id task_ref target s a h
  receive_task-Walk Receipt.notification s a h = notify_task-Walk now task_id task_ref target s a h
  receive_task-Walk Receipt.interrupt s a h = interrupt_task-Walk now task_id task_ref target s a h
