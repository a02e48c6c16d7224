-- ===== src/Steps/Callbacks.antt =====
-- The callbacks of governance_lifecycle.py on a whole ledger: what they store is a valid ledger.
use mathlib.Core.Path.{subst}
use subagent_governance.Base.{
  ℕ, Text, is_text, lookup, ◌≡◌, arith, none, some, true, ◌⊎◌, inl, inr, ok, Error, >>=-eq-ok,
  or_raise, guard, text_eq,
}
use subagent_governance.Semantics.{
  Phase, Status, is_platform_observation, is_terminal_status, is_interrupt_result,
}
use subagent_governance.Contract.Canon.{Canon}
use subagent_governance.Ledger.{Task, Ledger, put_task}
use subagent_governance.Retention.{prune_closed_tasks, within_capacity}
use subagent_governance.Lifecycle.{Outcome, task_for_identity, with_inputs, store_and_prune}
use subagent_governance.Lifecycle.Observation.{
  record_observation, record_notification, observe_task, notify_task,
}
use subagent_governance.Lifecycle.Receipts.{
  closed_task, record_interrupt, record_unknown_call, close_in_ledger, interrupt_task, call_task,
  close, close_at,
}
use subagent_governance.State.{owned}
use subagent_governance.State.Valid.{IsValidTask}
use subagent_governance.State.Ledgers.{IsValidLedger, All}
use subagent_governance.State.Replacing.{All-lookup}
use subagent_governance.Steps.{Walk}
use subagent_governance.Steps.History.{Keeps}
use subagent_governance.Steps.Retained.{Walk-Keeps}
use subagent_governance.Steps.Validity.{Walk-IsValidTask}
use subagent_governance.Steps.Recording.{
  observe_task-Walk, notify_task-Walk, interrupt_task-Walk, call_task-Walk, close-Walk,
}
use subagent_governance.Steps.Ledgers.{
  task_for_identity-found, with_inputs-task, store_and_prune-ledger, put-IsValidLedger,
  walked-IsValidLedger, prune-IsValidLedger, BeforeNow,
}

close-owned :
    (now : ℕ) (task_id task_ref reason : Text) (t u : Task) (o : Outcome)
    → close now task_id task_ref reason t ≡ ok (u, o)
    → (owned u ≡ owned t) ⊎ (owned u ≡ none)
unfolding close close_at closed_task
close-owned now task_id task_ref reason t u o h = go t.phase h
  where
    go :
        (p : Phase)
        → close_at now task_id task_ref reason p t ≡ ok (u, o)
        → (owned u ≡ owned t) ⊎ (owned u ≡ none)
    go Phase.closed e = inl (ground arith)
    go p e = inr (ground arith)

module _ (canon : Canon) (now : ℕ) (task_id task_ref target : Text) {l l' : Ledger}
    {o : Outcome} where
  -- The end of a callback that found its task and changed it by a walk.
  stored-IsValidLedger :
      (t u : Task) (o' : Outcome)
      → task_for_identity l task_id task_ref target ≡ ok t
      → Walk now t u
      → store_and_prune task_id l (u, o') ≡ ok (l', o)
      → All (BeforeNow canon now) l.tasks
      → IsValidLedger canon l
      → IsValidLedger canon l'
  stored-IsValidLedger t u o' found w stored clock v =
      let (at, goal) = task_for_identity-found l task_id task_ref target t found in
      rw (store_and_prune-ledger task_id l l' u o' o stored)
        (walked-IsValidLedger canon now task_id target t u l at goal w clock v)

  -- What record_platform_observation stores is a valid ledger, where the ledger was valid, the
  -- status is one of a platform observation and no task was created after now.
  pub record_observation-IsValidLedger :
      (s : Status)
      → is_platform_observation s ≡ true
      → All (BeforeNow canon now) l.tasks
      → IsValidLedger canon l
      → record_observation s now task_id task_ref target l ≡ ok (l', o)
      → IsValidLedger canon l'
  unfolding record_observation
  record_observation-IsValidLedger s known clock v h =
      let (t, found, h₁) = >>=-eq-ok (task_for_identity l task_id task_ref target) _ h in
      let ((u, o₁), e, h₂) = >>=-eq-ok (observe_task s now task_id task_ref target t) _ h₁ in
      let ((u', o₂), same, stored) = >>=-eq-ok (with_inputs task_id (u, o₁)) _ h₂ in
      let w = observe_task-Walk now task_id task_ref target s known e in
      stored-IsValidLedger t u' o₂ found (rw (with_inputs-task task_id u u' o₁ o₂ same) w) stored
        clock v

  -- What record_terminal_notification stores is a valid ledger, where the ledger was valid, the
  -- status is a terminal one and no task was created after now.
  pub record_notification-IsValidLedger :
      (s : Status)
      → is_terminal_status s ≡ true
      → All (BeforeNow canon now) l.tasks
      → IsValidLedger canon l
      → record_notification s now task_id task_ref target l ≡ ok (l', o)
      → IsValidLedger canon l'
  unfolding record_notification
  record_notification-IsValidLedger s known clock v h =
      let (t, found, h₁) = >>=-eq-ok (task_for_identity l task_id task_ref target) _ h in
      let ((u, o₁), e, h₂) = >>=-eq-ok (notify_task s now task_id task_ref target t) _ h₁ in
      let ((u', o₂), same, stored) = >>=-eq-ok (with_inputs task_id (u, o₁)) _ h₂ in
      let w = notify_task-Walk now task_id task_ref target s known e in
      stored-IsValidLedger t u' o₂ found (rw (with_inputs-task task_id u u' o₁ o₂ same) w) stored
        clock v

  -- What record_interrupt_result stores is a valid ledger, where the ledger was valid, the result is
  -- one of an interrupt and no task was created after now.
  pub record_interrupt-IsValidLedger :
      (s : Status)
      → is_interrupt_result s ≡ true
      → All (BeforeNow canon now) l.tasks
      → IsValidLedger canon l
      → record_interrupt now task_id task_ref target s l ≡ ok (l', o)
      → IsValidLedger canon l'
  unfolding record_interrupt
  record_interrupt-IsValidLedger s known clock v h =
      let (t, found, h₁) = >>=-eq-ok (task_for_identity l task_id task_ref target) _ h in
      let ((u, o₁), e, stored) = >>=-eq-ok (interrupt_task now task_id task_ref target s t) _ h₁ in
      let w = interrupt_task-Walk now task_id task_ref target s known e in
      stored-IsValidLedger t u o₁ found w stored clock v

  -- What record_call_result stores for an unknown result is a valid ledger, where the ledger was
  -- valid and no task was created after now.
  pub record_unknown_call-IsValidLedger :
      All (BeforeNow canon now) l.tasks
      → IsValidLedger canon l
      → record_unknown_call now task_id task_ref target l ≡ ok (l', o)
      → IsValidLedger canon l'
  unfolding record_unknown_call
  record_unknown_call-IsValidLedger clock v h =
      let (t, found, h₁) = >>=-eq-ok (task_for_identity l task_id task_ref target) _ h in
      let ((u, o₁), e, stored) = >>=-eq-ok (call_task now task_id task_ref target t) _ h₁ in
      stored-IsValidLedger t u o₁ found (call_task-Walk now task_id task_ref target e) stored clock
        v

module _ (canon : Canon) (now : ℕ) (task_id task_ref reason : Text) {l : Ledger} where
  closed-IsValidLedger :
      (t u u' : Task) (o₁ o₂ : Outcome)
      → lookup task_id l.tasks ≡ some t
      → is_text 1024 reason ≡ true
      → close now task_id task_ref reason t ≡ ok (u, o₁)
      → with_inputs task_id (u, o₁) ≡ ok (u', o₂)
      → All (BeforeNow canon now) l.tasks
      → IsValidLedger canon l
      → IsValidLedger canon (prune_closed_tasks within_capacity (put_task task_id u' l)).0
  closed-IsValidLedger t u u' o₁ o₂ at known e same clock v =
      let valid = All-lookup (IsValidTask canon) task_id t l.tasks v.each at in
      let later = All-lookup (BeforeNow canon now) task_id t l.tasks clock at in
      let w = close-Walk now task_id task_ref reason known e in
      rw (with_inputs-task task_id u u' o₁ o₂ same) (
        prune-IsValidLedger canon _ (
          put-IsValidLedger canon task_id t u l at (Keeps.task_ref (Walk-Keeps w))
            (close-owned now task_id task_ref reason t u o₁ e)
            (Walk-IsValidTask canon now task_id w later valid) v))

module _ (canon : Canon) (now : ℕ) (task_id task_ref reason : Text) {l l' : Ledger}
    {o : Outcome} where
  -- What close_task stores is a valid ledger, where the ledger was valid, the reason is a text that
  -- the request's check accepts and no task was created after now.
  pub close_in_ledger-IsValidLedger :
      is_text 1024 reason ≡ true
      → All (BeforeNow canon now) l.tasks
      → IsValidLedger canon l
      → close_in_ledger now task_id task_ref reason l ≡ ok (l', o)
      → IsValidLedger canon l'
  unfolding close_in_ledger
  close_in_ledger-IsValidLedger known clock v h =
      let (t, at, h₁) = >>=-eq-ok (or_raise (lookup task_id l.tasks) Error.state_conflict) _ h in
      let (_, ref, h₂) =
        >>=-eq-ok (guard (text_eq t.task_ref task_ref) Error.state_conflict) _ h₁ in
      let ((u, o₁), e, h₃) = >>=-eq-ok (close now task_id task_ref reason t) _ h₂ in
      let ((u', o₂), same, stored) = >>=-eq-ok (with_inputs task_id (u, o₁)) _ h₃ in
      subst (IsValidLedger canon) (ground (arith, stored)) (
        closed-IsValidLedger canon now task_id task_ref reason t u u' o₁ o₂ (ground (arith, at))
          known e same clock v)
