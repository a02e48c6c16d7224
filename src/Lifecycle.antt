-- ===== src/Lifecycle.antt =====
-- scripts/governance_lifecycle.py: what one locked transition does to a task and to the ledger.
-- The requests are checked in Lifecycle/Requests, and the operations stand in the other children.
pub mod Requests
pub mod Observation
pub mod Receipts
pub mod Replays
use subagent_governance.Base.{
  ℕ, Text, text_eq, lookup, insert, Option, none, some, Bool, true, false, List, [], ◌∷◌, ◌&&◌,
  if◌then◌else◌, Result, ok, err, Error, guard, or_raise, ◌>>=◌, ◌>>◌,
}
use subagent_governance.Semantics.{
  Phase, Status, Source, ReconcileCode, UnknownCode, is_terminal_status, status_eq,
}
use subagent_governance.Ledger.{
  Task, Ledger, ReconcileFact, UnknownFacts, TerminalFact, PlatformObservation, InterruptFact,
  is_option, is_status, terminal_status, platform_status, interrupt_status, reconcile_code,
  put_task,
}
use subagent_governance.Inputs.{OperationInput, operation_inputs}
use subagent_governance.Retention.{prune_closed_tasks, within_capacity}

-- The word under `result` of an outcome.
pub data Verdict : Type 0 where
  reconcile unknown_recorded already_unknown : Verdict
  terminal already_terminal terminal_observed terminal_confirmed : Verdict
  recorded already_observed failed already_recorded : Verdict
  closed already_closed bound already_bound : Verdict
  claimed already_claimed claimed_after_write_error : Verdict
  passed : Status → Verdict

-- The dictionary that an operation returns; a key that a branch leaves out is none.
pub record Outcome : Type 0 where
  pub result : Verdict
  pub task_id : Text
  pub task_ref : Text
  pub target : Option Text
  pub status : Option Status
  pub reason : Option ReconcileCode
  pub operation_inputs : Option (List OperationInput)
  pub pruned_task_ids : Option (List Text)
  pub phase : Option Phase
  pub submitted_target : Option Text
  pub conflicting_task : Option (Text × Text)

abbrev pub outcome : Verdict → Text → Text → Option Text → Outcome
outcome result task_id task_ref target = record {
  result = result;
  task_id = task_id;
  task_ref = task_ref;
  target = target;
  status = none;
  reason = none;
  operation_inputs = none;
  pruned_task_ids = none;
  phase = none;
  submitted_target = none;
  conflicting_task = none;
}

abbrev pub outcome_status : Verdict → Text → Text → Option Text → Status → Outcome
outcome_status result task_id task_ref target status =
    record (outcome result task_id task_ref target) { status = some status }

-- `_task_for_identity`
unfoldable pub task_for_identity : Ledger → Text → Text → Text → Result Task
task_for_identity l task_id task_ref target = do
  task ← or_raise (lookup task_id l.tasks) Error.state_conflict
  guard (text_eq task.task_ref task_ref) Error.state_conflict
  guard (is_option task.target target) Error.state_conflict
  ok task

-- `_preserved_facts`: the keys of a task that outlive its phase.
unfoldable pub preserved_facts : Task → Task
preserved_facts t = record t {
  prepared = none;
  claimed_tool_use_id = none;
  claimed_at = none;
  close_reason = none;
  closed_at = none;
}

-- The task after `task.clear()` and `task.update(preserved, phase="reconcile", …)`.
unfoldable pub reconciled : ReconcileCode → ℕ → Task → Task
unfolding preserved_facts
reconciled code observed_at t = record (preserved_facts t) {
  phase = Phase.reconcile;
  updated_at = observed_at;
  reconcile = some (record { code = code; observed_at = observed_at });
}

enter_at : Phase → ReconcileCode → ℕ → Task → Result Task
unfolding reconciled
enter_at Phase.closed code observed_at t = err Error.state_conflict
enter_at Phase.reconcile code observed_at t = ok t
enter_at _ code observed_at t = ok (reconciled code observed_at t)

unfoldable pub enter_reconcile : ReconcileCode → ℕ → Task → Result Task
unfolding enter_at
enter_reconcile code observed_at t = enter_at t.phase code observed_at t

-- `task.setdefault("unknown_facts", {})`
abbrev pub facts_of : Option UnknownFacts → UnknownFacts
facts_of none = record { delivery = none; platform_observation = none; interrupt = none }
facts_of (some f) = f

abbrev pub fact_at : UnknownCode → UnknownFacts → Option ℕ
fact_at UnknownCode.delivery_unknown f = f.delivery
fact_at UnknownCode.platform_observation_unknown f = f.platform_observation
fact_at UnknownCode.interrupt_unknown f = f.interrupt

abbrev pub put_fact : UnknownCode → ℕ → UnknownFacts → UnknownFacts
put_fact UnknownCode.delivery_unknown n f = record f { delivery = some n }
put_fact UnknownCode.platform_observation_unknown n f = record f { platform_observation = some n }
put_fact UnknownCode.interrupt_unknown n f = record f { interrupt = some n }

-- A category that is there keeps its first time.
record_fact : UnknownCode → ℕ → Option ℕ → Task → Task × Verdict
record_fact code observed_at (some n) t = (t, Verdict.already_unknown)
record_fact code observed_at none t = (
  record t {
    unknown_facts = some (put_fact code observed_at (facts_of t.unknown_facts));
    updated_at = observed_at;
  },
  Verdict.unknown_recorded,
)

unfoldable pub record_unknown : UnknownCode → ℕ → Task → Task × Verdict
unfolding record_fact
record_unknown code observed_at t =
    record_fact code observed_at (fact_at code (facts_of t.unknown_facts)) t

unfoldable pub reconcile_outcome : Task → Text → Text → Outcome
reconcile_outcome t task_id task_ref =
    record (outcome Verdict.reconcile task_id task_ref t.target) { reason = reconcile_code t }

-- `outcome["operation_inputs"] = operation_inputs(task_id, task)`
unfoldable pub with_inputs : Text → Task × Outcome → Result (Task × Outcome)
with_inputs task_id (t, o) = do
  inputs ← operation_inputs task_id t
  ok (t, record o { operation_inputs = some inputs })

-- The changed task is stored and closed records beyond the retention limit are dropped.
unfoldable pub store_and_prune : Text → Ledger → Task × Outcome → Result (Ledger × Outcome)
store_and_prune task_id l (t, o) =
    ok ((prune_closed_tasks within_capacity (put_task task_id t l)).0, o)
