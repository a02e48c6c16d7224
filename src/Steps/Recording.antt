-- ===== src/Steps/Recording.antt =====
-- Each lifecycle transition is a walk of the step relation.
use subagent_governance.Steps.Observing.{note_unknown-Walk, notify_at-Walk, observe_at-Walk}
use subagent_governance.Base.{ℕ, Text, is_text, ◌≡◌, refl, true, arith, Bool-cases, inl, inr, ok}
use subagent_governance.Semantics.{
  Phase, Status, Source, UnknownCode, is_platform_observation, is_terminal_status,
  is_interrupt_result,
}
use subagent_governance.Ledger.{Task, is_status, interrupt_status}
use subagent_governance.Lifecycle.{Outcome}
use subagent_governance.Lifecycle.Observation.{observe_task, notify_task}
use subagent_governance.Lifecycle.Receipts.{
  interrupt_at, call_at, close_at, interrupt_task, interrupt_failed, interrupt_terminal,
  interrupt_bound, call_task, close,
}
use subagent_governance.Steps.{Step, Walk, stay, next, one}

module _ (now : ℕ) (task_id task_ref target : Text) {t u : Task} {o : Outcome} where
  interrupt_failed-Walk :
      t.phase ≡ Phase.bound
      → interrupt_failed now task_id task_ref target t ≡ ok (u, o)
      → Walk now t u
  unfolding interrupt_failed
  interrupt_failed-Walk p h = elim (Bool-cases (is_status (interrupt_status t) Status.failed)) [
    | inl again ↦ stay (ground arith)
    | inr new ↦ one (Step.interrupt Status.failed (ground arith) refl (ground arith))
  ]

  interrupt_terminal-Walk :
      t.phase ≡ Phase.terminal
      → interrupt_terminal now task_id task_ref target t ≡ ok (u, o)
      → Walk now t u
  unfolding interrupt_terminal
  interrupt_terminal-Walk p h = elim (Bool-cases (is_status (interrupt_status t) Status.inactive)) [
    | inl again ↦ stay (ground arith)
    | inr new ↦ one (Step.interrupt Status.inactive (ground arith) refl (ground arith))
  ]

  interrupt_bound-Walk :
      t.phase ≡ Phase.bound
      → interrupt_bound now task_id task_ref target t ≡ ok (u, o)
      → Walk now t u
  unfolding interrupt_bound
  interrupt_bound-Walk p h =
      next (Step.end Source.interrupt Status.inactive p refl refl)
        (one (Step.interrupt Status.inactive refl refl (ground arith)))

  interrupt_at-Walk :
      (p : Phase) (s : Status)
      → t.phase ≡ p
      → is_interrupt_result s ≡ true
      → interrupt_at now task_id task_ref target p s t ≡ ok (u, o)
      → Walk now t u
  unfolding interrupt_at
  interrupt_at-Walk Phase.reconcile s p a h = stay (ground arith)
  interrupt_at-Walk Phase.bound Status.unknown p a h =
      note_unknown-Walk now task_id task_ref target UnknownCode.interrupt_unknown (rw p refl) h
  interrupt_at-Walk Phase.terminal Status.unknown p a h =
      note_unknown-Walk now task_id task_ref target UnknownCode.interrupt_unknown (rw p refl) h
  interrupt_at-Walk Phase.bound Status.failed p a h = interrupt_failed-Walk p h
  interrupt_at-Walk Phase.bound Status.inactive p a h = interrupt_bound-Walk p h
  interrupt_at-Walk Phase.terminal Status.inactive p a h = interrupt_terminal-Walk p h
  interrupt_at-Walk Phase.prepared s p a h = absurd (cc)
  interrupt_at-Walk Phase.claimed s p a h = absurd (cc)
  interrupt_at-Walk Phase.closed s p a h = absurd (cc)
  interrupt_at-Walk p s q a h = absurd (ground arith)

  call_at-Walk :
      (p : Phase) → t.phase ≡ p → call_at now task_id task_ref target p t ≡ ok (u, o) → Walk now t u
  unfolding call_at
  call_at-Walk Phase.reconcile p h = stay (ground arith)
  call_at-Walk Phase.bound p h =
      note_unknown-Walk now task_id task_ref target UnknownCode.delivery_unknown (rw p refl) h
  call_at-Walk Phase.terminal p h =
      note_unknown-Walk now task_id task_ref target UnknownCode.delivery_unknown (rw p refl) h
  call_at-Walk Phase.prepared p h = absurd (cc)
  call_at-Walk Phase.claimed p h = absurd (cc)
  call_at-Walk Phase.closed p h = absurd (cc)

module _ (now : ℕ) (task_id task_ref target : Text) {t u : Task} {o : Outcome} where
  -- What record_platform_observation makes of a task, where it returns and the status is one of a
  -- platform observation, is a walk of the step relation from the task.
  pub observe_task-Walk :
      (s : Status)
      → is_platform_observation s ≡ true
      → observe_task s now task_id task_ref target t ≡ ok (u, o)
      → Walk now t u
  unfolding observe_task
  observe_task-Walk s a h = observe_at-Walk now task_id task_ref target s t.phase _ refl refl a h

  -- What record_terminal_notification makes of a task, where it returns and the status is a terminal
  -- one, is a walk of the step relation from the task.
  pub notify_task-Walk :
      (s : Status)
      → is_terminal_status s ≡ true
      → notify_task s now task_id task_ref target t ≡ ok (u, o)
      → Walk now t u
  unfolding notify_task
  notify_task-Walk s a h = notify_at-Walk now task_id task_ref target s t.phase refl a h

  -- What record_interrupt_result makes of a task, where it returns and the result is one of an
  -- interrupt, is a walk of the step relation from the task.
  pub interrupt_task-Walk :
      (s : Status)
      → is_interrupt_result s ≡ true
      → interrupt_task now task_id task_ref target s t ≡ ok (u, o)
      → Walk now t u
  unfolding interrupt_task
  interrupt_task-Walk s a h = interrupt_at-Walk now task_id task_ref target t.phase s refl a h

  -- What an unknown normal call makes of a task in record_call_result, where it returns, is a walk of
  -- the step relation from the task.
  pub call_task-Walk : call_task now task_id task_ref target t ≡ ok (u, o) → Walk now t u
  unfolding call_task
  call_task-Walk h = call_at-Walk now task_id task_ref target t.phase refl h

module _ (now : ℕ) (task_id task_ref reason : Text) {t u : Task} {o : Outcome} where
  close_at-Walk :
      (p : Phase)
      → t.phase ≡ p
      → is_text 1024 reason ≡ true
      → close_at now task_id task_ref reason p t ≡ ok (u, o)
      → Walk now t u
  unfolding close_at
  close_at-Walk Phase.closed p a h = stay (ground arith)
  close_at-Walk p q a h = one (Step.close reason (λ e. cc) a (ground arith))

  -- What close_task makes of a task, where it returns and the reason is a text of the form that the
  -- request requires, is a walk of the step relation from the task.
  pub close-Walk :
      is_text 1024 reason ≡ true → close now task_id task_ref reason t ≡ ok (u, o) → Walk now t u
  unfolding close
  close-Walk a h = close_at-Walk t.phase refl a h
