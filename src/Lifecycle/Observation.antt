-- ===== src/Lifecycle/Observation.antt =====
-- record_platform_observation and record_terminal_notification.
use subagent_governance.Base.{
  ℕ, Text, some, Bool, true, false, if◌then◌else◌, not, Result, ok, err, Error, guard, ◌>>=◌, ◌>>◌,
}
use subagent_governance.Semantics.{
  Phase, Status, Source, ReconcileCode, UnknownCode, is_terminal_status,
}
use subagent_governance.Ledger.{Task, Ledger, is_status, terminal_status, platform_status}
use subagent_governance.Lifecycle.{
  Verdict, Outcome, outcome_status, outcome, task_for_identity, enter_reconcile, record_unknown,
  reconcile_outcome, with_inputs, store_and_prune,
}

-- An inconclusive receipt: the branch `status == "unknown"` of a bound or a terminal task.
unfoldable pub note_unknown : UnknownCode → ℕ → Text → Text → Text → Task → Result (Task × Outcome)
unfolding record_unknown
note_unknown code observed_at task_id task_ref target t =
    let (t', verdict) = record_unknown code observed_at t in
    ok (t', outcome verdict task_id task_ref (some target))

-- Two different concrete statuses.
unfoldable pub conflict : ℕ → Text → Text → Task → Result (Task × Outcome)
unfolding enter_reconcile reconcile_outcome
conflict observed_at task_id task_ref t = do
  t' ← enter_reconcile ReconcileCode.terminal_status_conflict observed_at t
  ok (t', reconcile_outcome t' task_id task_ref)

module _ (status : Status) (observed_at : ℕ) (task_id task_ref target : Text) where
  abbrev say : Verdict → Outcome
  say verdict = outcome_status verdict task_id task_ref (some target) status

  abbrev observe : Task → Task
  observe t = record t {
    platform_observation = some (record { status = status; observed_at = observed_at });
    updated_at = observed_at;
  }

  abbrev end_by : Source → Task → Task
  end_by source t = record t {
    terminal_fact = some (record { source = source; status = status; observed_at = observed_at });
    updated_at = observed_at;
  }

  -- The branch `phase == "terminal"` of record_platform_observation.
  unfoldable pub observe_terminal : Task → Result (Task × Outcome)
  unfolding conflict
  observe_terminal t = do
    guard (is_terminal_status status) Error.state_conflict
    if is_status (terminal_status t) Status.inactive
        then ok (observe (end_by Source.platform t), say Verdict.terminal)
        else if not (is_status (terminal_status t) status)
        then conflict observed_at task_id task_ref t
        else if is_status (platform_status t) status
        then ok (t, say Verdict.already_terminal)
        else ok (observe t, say Verdict.terminal_observed)

  -- The branches for a bound task.
  unfoldable pub observe_bound : Task → Result (Task × Outcome)
  observe_bound t =
      if is_terminal_status status
      then ok (
        record (observe (end_by Source.platform t)) { phase = Phase.terminal },
        say Verdict.terminal,
      )
      else if is_status (platform_status t) status
      then ok (t, say Verdict.already_observed)
      else ok (observe t, say Verdict.recorded)

  unfoldable pub observe_at : Phase → Bool → Task → Result (Task × Outcome)
  unfolding note_unknown observe_terminal observe_bound reconcile_outcome
  observe_at Phase.reconcile unsure t = ok (t, reconcile_outcome t task_id task_ref)
  observe_at Phase.bound true t =
      note_unknown UnknownCode.platform_observation_unknown observed_at task_id task_ref target t
  observe_at Phase.bound false t = observe_bound t
  observe_at Phase.terminal true t =
      note_unknown UnknownCode.platform_observation_unknown observed_at task_id task_ref target t
  observe_at Phase.terminal false t = observe_terminal t
  observe_at _ unsure t = err Error.state_conflict

  -- What record_platform_observation does to the task, before anything is stored.
  unfoldable pub observe_task : Task → Result (Task × Outcome)
  unfolding observe_at
  observe_task t = observe_at t.phase (is_status (some status) Status.unknown) t

  -- The callback `record` of record_platform_observation.
  unfoldable pub record_observation : Ledger → Result (Ledger × Outcome)
  record_observation l = do
    t ← task_for_identity l task_id task_ref target
    r ← observe_task t
    r' ← with_inputs task_id r
    store_and_prune task_id l r'

  -- The branch `phase == "terminal"` of record_terminal_notification.
  unfoldable pub notify_terminal : Task → Result (Task × Outcome)
  unfolding conflict
  notify_terminal t =
      if is_status (terminal_status t) Status.inactive
      then ok (end_by Source.notification t, say Verdict.terminal)
      else if is_status (terminal_status t) status
      then ok (t, say Verdict.already_terminal)
      else conflict observed_at task_id task_ref t

  unfoldable pub notify_at : Phase → Task → Result (Task × Outcome)
  unfolding notify_terminal reconcile_outcome
  notify_at Phase.reconcile t = ok (t, reconcile_outcome t task_id task_ref)
  notify_at Phase.terminal t = notify_terminal t
  notify_at Phase.bound t =
      ok (record (end_by Source.notification t) { phase = Phase.terminal }, say Verdict.terminal)
  notify_at _ t = err Error.state_conflict

  unfoldable pub notify_task : Task → Result (Task × Outcome)
  unfolding notify_at
  notify_task t = notify_at t.phase t

  -- The callback `record` of record_terminal_notification; the sender is the target.
  unfoldable pub record_notification : Ledger → Result (Ledger × Outcome)
  record_notification l = do
    t ← task_for_identity l task_id task_ref target
    r ← notify_task t
    r' ← with_inputs task_id r
    store_and_prune task_id l r'
