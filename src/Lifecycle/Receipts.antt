-- ===== src/Lifecycle/Receipts.antt =====
-- record_interrupt_result, record_call_result and close_task.
use subagent_governance.Base.{
  ℕ, Text, text_eq, lookup, some, if◌then◌else◌, Result, ok, err, Error, guard, or_raise, ◌>>=◌,
  ◌>>◌,
}
use subagent_governance.Semantics.{Phase, Status, Source, UnknownCode}
use subagent_governance.Ledger.{Task, Ledger, is_option, is_status, interrupt_status, put_task}
use subagent_governance.Retention.{prune_closed_tasks, within_capacity}
use subagent_governance.Lifecycle.{
  Verdict, Outcome, outcome, task_for_identity, preserved_facts, reconcile_outcome, with_inputs,
  store_and_prune,
}
use subagent_governance.Lifecycle.Observation.{note_unknown}

module _ (observed_at : ℕ) (task_id task_ref target : Text) where
  abbrev say : Verdict → Outcome
  say verdict = outcome verdict task_id task_ref (some target)

  abbrev interrupt : Status → Task → Task
  interrupt status t = record t {
    interrupt_fact = some (record { status = status; observed_at = observed_at });
    updated_at = observed_at;
  }

  -- The branch `result == "failed"`.
  unfoldable pub interrupt_failed : Task → Result (Task × Outcome)
  interrupt_failed t =
      if is_status (interrupt_status t) Status.failed
      then ok (t, say Verdict.already_recorded)
      else ok (interrupt Status.failed t, say Verdict.failed)

  -- The branch `phase == "terminal"` of the result `inactive`.
  unfoldable pub interrupt_terminal : Task → Result (Task × Outcome)
  interrupt_terminal t =
      if is_status (interrupt_status t) Status.inactive
      then ok (t, say Verdict.already_terminal)
      else ok (interrupt Status.inactive t, say Verdict.terminal_confirmed)

  -- An interrupted bound task has ended, with no concrete status.
  unfoldable pub interrupt_bound : Task → Result (Task × Outcome)
  interrupt_bound t = ok (
    record (interrupt Status.inactive t) {
      phase = Phase.terminal;
      terminal_fact = some (record {
        source = Source.interrupt;
        status = Status.inactive;
        observed_at = observed_at;
      });
    },
    say Verdict.terminal,
  )

  unfoldable pub interrupt_at : Phase → Status → Task → Result (Task × Outcome)
  unfolding note_unknown interrupt_failed interrupt_terminal interrupt_bound reconcile_outcome
  interrupt_at Phase.reconcile result t = ok (t, reconcile_outcome t task_id task_ref)
  interrupt_at Phase.bound Status.unknown t =
      note_unknown UnknownCode.interrupt_unknown observed_at task_id task_ref target t
  interrupt_at Phase.terminal Status.unknown t =
      note_unknown UnknownCode.interrupt_unknown observed_at task_id task_ref target t
  interrupt_at Phase.bound Status.failed t = interrupt_failed t
  interrupt_at Phase.terminal Status.failed t = err Error.state_conflict
  interrupt_at Phase.terminal result t = interrupt_terminal t
  interrupt_at Phase.bound result t = interrupt_bound t
  interrupt_at _ result t = err Error.state_conflict

  -- What record_interrupt_result does to the task, for a result of INTERRUPT_RESULTS.
  unfoldable pub interrupt_task : Status → Task → Result (Task × Outcome)
  unfolding interrupt_at
  interrupt_task result t = interrupt_at t.phase result t

  -- The callback `record` of record_interrupt_result.
  unfoldable pub record_interrupt : Status → Ledger → Result (Ledger × Outcome)
  record_interrupt result l = do
    t ← task_for_identity l task_id task_ref target
    r ← interrupt_task result t
    store_and_prune task_id l r

  unfoldable pub call_at : Phase → Task → Result (Task × Outcome)
  unfolding note_unknown reconcile_outcome
  call_at Phase.reconcile t = ok (t, reconcile_outcome t task_id task_ref)
  call_at Phase.bound t =
      note_unknown UnknownCode.delivery_unknown observed_at task_id task_ref target t
  call_at Phase.terminal t =
      note_unknown UnknownCode.delivery_unknown observed_at task_id task_ref target t
  call_at _ t = err Error.state_conflict

  unfoldable pub call_task : Task → Result (Task × Outcome)
  unfolding call_at
  call_task t = call_at t.phase t

  -- The callback `record_unknown` of record_call_result.
  unfoldable pub record_unknown_call : Ledger → Result (Ledger × Outcome)
  record_unknown_call l = do
    t ← task_for_identity l task_id task_ref target
    r ← call_task t
    store_and_prune task_id l r

  bound_only : Phase → Result (Unit {0})
  bound_only Phase.bound = ok tt
  bound_only _ = err Error.state_conflict

  -- A definite result of a normal call is checked against the ledger and not stored.
  unfoldable pub check_call : Status → Ledger → Result Outcome
  unfolding bound_only
  check_call result l = do
    t ← task_for_identity l task_id task_ref target
    bound_only t.phase
    ok (outcome (Verdict.passed result) task_id task_ref (some target))

module _ (closed_at : ℕ) (reason : Text) where
  -- The task after `task.clear()` and `task.update(preserved, phase="closed", …)`.
  unfoldable pub closed_task : Task → Task
  unfolding preserved_facts
  closed_task t = record (preserved_facts t) {
    phase = Phase.closed;
    updated_at = closed_at;
    close_reason = some reason;
    closed_at = some closed_at;
  }

module _ (closed_at : ℕ) (task_id task_ref reason : Text) where
  unfoldable pub close_at : Phase → Task → Result (Task × Outcome)
  unfolding closed_task
  close_at Phase.closed t = do
    guard (is_option t.close_reason reason) Error.state_conflict
    ok (t, outcome Verdict.already_closed task_id task_ref t.target)
  close_at _ t =
      ok (closed_task closed_at reason t, outcome Verdict.closed task_id task_ref t.target)

  -- What close_task does to the task.
  unfoldable pub close : Task → Result (Task × Outcome)
  unfolding close_at
  close t = close_at t.phase t

  -- The callback `close` of close_task.
  unfoldable pub close_in_ledger : Ledger → Result (Ledger × Outcome)
  close_in_ledger l = do
    t ← or_raise (lookup task_id l.tasks) Error.state_conflict
    guard (text_eq t.task_ref task_ref) Error.state_conflict
    r ← close t
    r' ← with_inputs task_id r
    let (l', removed) = prune_closed_tasks within_capacity (put_task task_id r'.0 l)
    ok (l', record (r'.1) { pruned_task_ids = some removed })
