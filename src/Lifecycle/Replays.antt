-- ===== src/Lifecycle/Replays.antt =====
-- A receipt of governance_lifecycle.py that is reported twice changes the task once.
use subagent_governance.Base.{
  ℕ, Text, ◌≡◌, refl, arith, Option, none, some, Bool, true, false, Bool-cases, Option-cases, inl,
  inr, Result, ok, err,
}
use subagent_governance.Semantics.{
  Phase, Status, UnknownCode, status_eq, is_terminal_status, is_interrupt_result,
}
use subagent_governance.Ledger.{Task, is_status, terminal_status, platform_status}
use subagent_governance.Lifecycle.{
  Outcome, record_unknown, enter_reconcile, reconciled, fact_at, facts_of,
}
use subagent_governance.Lifecycle.Observation.{
  note_unknown, conflict, observe_terminal, observe_bound, observe_at, observe_task,
  notify_terminal, notify_at, notify_task,
}
use subagent_governance.Lifecycle.Receipts.{
  interrupt_failed, interrupt_terminal, interrupt_bound, interrupt_at, interrupt_task,
}

status_eq_refl : (s : Status) → status_eq s s ≡ true
unfolding status_eq
status_eq_refl s = ground arith

concrete : (s : Status) → is_terminal_status s ≡ true → status_eq s Status.inactive ≡ false
unfolding status_eq
concrete s h = ground arith

-- The task that a transition returns, if it returns.
abbrev pub task_of : Result (Task × Outcome) → Option Task
task_of (ok (t, o)) = some t
task_of (err e) = none

module _ (now later : ℕ) (task_id task_ref target : Text) (t u : Task) (o : Outcome) where
  note_unknown-again :
      (code : UnknownCode)
      → note_unknown code now task_id task_ref target t ≡ ok (u, o)
      → task_of (note_unknown code later task_id task_ref target u) ≡ some u
  unfolding note_unknown record_unknown
  note_unknown-again code h = elim (Option-cases (fact_at code (facts_of t.unknown_facts))) [
    | inl e ↦ ground arith
    | inr (n, e) ↦ ground arith
  ]

  conflict-again :
      conflict now task_id task_ref t ≡ ok (u, o)
      → t.phase ≡ Phase.terminal
      → u.phase ≡ Phase.reconcile
  unfolding conflict enter_reconcile reconciled
  conflict-again h p = ground arith

  observe_bound-again :
      (s : Status)
      → t.phase ≡ Phase.bound
      → is_status (some s) Status.unknown ≡ false
      → observe_bound s now task_id task_ref target t ≡ ok (u, o)
      → task_of (observe_at s later task_id task_ref target u.phase false u) ≡ some u
  unfolding observe_bound observe_at observe_terminal status_eq
  observe_bound-again s p q h = ground (arith, status_eq_refl s)

  observe_terminal-again :
      (s : Status)
      → t.phase ≡ Phase.terminal
      → observe_terminal s now task_id task_ref target t ≡ ok (u, o)
      → task_of (observe_at s later task_id task_ref target u.phase false u) ≡ some u
  unfolding observe_at observe_terminal
  observe_terminal-again s p h = elim (Bool-cases (is_terminal_status s)) [
    | inr e ↦ absurd (ground arith)
    | inl e ↦ elim (Bool-cases (is_status (terminal_status t) Status.inactive)) [
      | inl open_end ↦ ground (arith, status_eq_refl s, concrete s e)
      | inr known ↦ elim (Bool-cases (is_status (terminal_status t) s)) [
        | inr other ↦
            let aside : u.phase ≡ Phase.reconcile = conflict-again (ground arith) p in ground arith
        | inl same ↦ elim (Bool-cases (is_status (platform_status t) s)) [
          | inl again ↦ ground arith
          | inr new ↦ ground (arith, status_eq_refl s)
        ]
      ]
    ]
  ]

  notify_terminal-again :
      (s : Status)
      → t.phase ≡ Phase.terminal
      → is_terminal_status s ≡ true
      → notify_terminal s now task_id task_ref target t ≡ ok (u, o)
      → task_of (notify_at s later task_id task_ref target u.phase u) ≡ some u
  unfolding notify_at notify_terminal
  notify_terminal-again s p k h =
      elim (Bool-cases (is_status (terminal_status t) Status.inactive)) [
        | inl open_end ↦ ground (arith, status_eq_refl s, concrete s k)
        | inr known ↦ elim (Bool-cases (is_status (terminal_status t) s)) [
          | inr other ↦
              let aside : u.phase ≡ Phase.reconcile = conflict-again (ground arith) p in
              ground arith
          | inl same ↦ ground arith
        ]
      ]

  notify_at-again :
      (s : Status) (p : Phase)
      → t.phase ≡ p
      → is_terminal_status s ≡ true
      → notify_at s now task_id task_ref target p t ≡ ok (u, o)
      → task_of (notify_at s later task_id task_ref target u.phase u) ≡ some u
  unfolding notify_at notify_terminal
  notify_at-again s Phase.reconcile p k h = ground arith
  notify_at-again s Phase.terminal p k h = notify_terminal-again s p k h
  notify_at-again s Phase.bound p k h = ground (arith, status_eq_refl s, concrete s k)
  notify_at-again s Phase.prepared p k h = absurd (cc)
  notify_at-again s Phase.claimed p k h = absurd (cc)
  notify_at-again s Phase.closed p k h = absurd (cc)

  observe_at-again :
      (s : Status) (p : Phase) (unsure : Bool)
      → t.phase ≡ p
      → is_status (some s) Status.unknown ≡ unsure
      → observe_at s now task_id task_ref target p unsure t ≡ ok (u, o)
      → task_of (observe_at s later task_id task_ref target u.phase unsure u) ≡ some u
  unfolding observe_at
  observe_at-again s Phase.reconcile unsure p a h = ground arith
  observe_at-again s Phase.bound true p a h =
      let again = note_unknown-again UnknownCode.platform_observation_unknown h in ground arith
  observe_at-again s Phase.bound false p a h = observe_bound-again s p a h
  observe_at-again s Phase.terminal true p a h =
      let again = note_unknown-again UnknownCode.platform_observation_unknown h in ground arith
  observe_at-again s Phase.terminal false p a h = observe_terminal-again s p h
  observe_at-again s Phase.prepared unsure p a h = absurd (cc)
  observe_at-again s Phase.claimed unsure p a h = absurd (cc)
  observe_at-again s Phase.closed unsure p a h = absurd (cc)

  interrupt_at-again :
      (s : Status) (p : Phase)
      → t.phase ≡ p
      → is_interrupt_result s ≡ true
      → interrupt_at now task_id task_ref target p s t ≡ ok (u, o)
      → task_of (interrupt_at later task_id task_ref target u.phase s u) ≡ some u
  unfolding interrupt_at interrupt_failed interrupt_terminal interrupt_bound
  interrupt_at-again Status.unknown Phase.bound p k h =
      let again = note_unknown-again UnknownCode.interrupt_unknown h in ground arith
  interrupt_at-again Status.unknown Phase.terminal p k h =
      let again = note_unknown-again UnknownCode.interrupt_unknown h in ground arith
  interrupt_at-again s Phase.reconcile p k h = ground arith
  interrupt_at-again s Phase.prepared p k h = absurd (cc)
  interrupt_at-again s Phase.claimed p k h = absurd (cc)
  interrupt_at-again s Phase.closed p k h = absurd (cc)
  interrupt_at-again Status.failed Phase.bound p k h = ground (arith, status_eq_refl Status.failed)
  interrupt_at-again Status.inactive Phase.bound p k h =
      ground (arith, status_eq_refl Status.inactive)
  interrupt_at-again Status.inactive Phase.terminal p k h =
      ground (arith, status_eq_refl Status.inactive)
  interrupt_at-again s p e k h = absurd (ground arith)

module _ (now later : ℕ) (task_id task_ref target : Text) (s : Status) (t u : Task)
    (o : Outcome) where
  -- A platform observation that was recorded and is reported again, at any time, is accepted and
  -- leaves the task as the first report made it.
  pub observe_task-again :
      observe_task s now task_id task_ref target t ≡ ok (u, o)
      → task_of (observe_task s later task_id task_ref target u) ≡ some u
  unfolding observe_task
  observe_task-again h =
      observe_at-again now later task_id task_ref target t u o s t.phase _ refl refl h

  -- A terminal notification that was recorded and is reported again, at any time, is accepted and
  -- leaves the task as the first report made it.
  pub notify_task-again :
      is_terminal_status s ≡ true
      → notify_task s now task_id task_ref target t ≡ ok (u, o)
      → task_of (notify_task s later task_id task_ref target u) ≡ some u
  unfolding notify_task
  notify_task-again k h = notify_at-again now later task_id task_ref target t u o s t.phase refl k h

  -- An interrupt result that was recorded and is reported again, at any time, is accepted and leaves
  -- the task as the first report made it.
  pub interrupt_task-again :
      is_interrupt_result s ≡ true
      → interrupt_task now task_id task_ref target s t ≡ ok (u, o)
      → task_of (interrupt_task later task_id task_ref target s u) ≡ some u
  unfolding interrupt_task
  interrupt_task-again k h =
      interrupt_at-again now later task_id task_ref target t u o s t.phase refl k h
