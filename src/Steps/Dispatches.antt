-- ===== src/Steps/Dispatches.antt =====
-- The callbacks of governance_dispatch.py on a whole ledger: what they store is a valid ledger.
use subagent_governance.Base.{
  ℕ, Text, text_eq, lookup, ◌≡◌, arith, none, some, inr, ok, Error, >>=-eq-ok, or_raise, guard,
}
use subagent_governance.Semantics.{Phase}
use subagent_governance.Contract.Canon.{Canon}
use subagent_governance.Ledger.{Task, Ledger, put_task}
use subagent_governance.Lifecycle.{Outcome}
use subagent_governance.Dispatch.{
  DispatchResult, common_facts, dispatched, dispatch_at, dispatch_task, dispatch_in_ledger,
}
use subagent_governance.State.{owned}
use subagent_governance.State.Valid.{IsValidTask}
use subagent_governance.State.Ledgers.{IsValidLedger, All}
use subagent_governance.State.Replacing.{All-lookup}
use subagent_governance.Steps.{Walk}
use subagent_governance.Steps.History.{Keeps}
use subagent_governance.Steps.Retained.{Walk-Keeps}
use subagent_governance.Steps.Validity.{Walk-IsValidTask}
use subagent_governance.Steps.Dispatching.{dispatch_task-Walk}
use subagent_governance.Steps.Ledgers.{
  BeforeNow, put-IsValidLedger, prune-IsValidLedger, store_and_prune-ledger,
}

dispatch_at-owned :
    (now : ℕ) (task_id task_ref : Text) (p : Phase) (result : DispatchResult) (t u : Task)
    (o : Outcome)
    → dispatch_at now task_id task_ref p result t ≡ ok (u, o)
    → owned u ≡ none
unfolding dispatch_at dispatched common_facts
dispatch_at-owned now task_id task_ref p DispatchResult.failed t u o h = ground arith
dispatch_at-owned now task_id task_ref p DispatchResult.unknown t u o h = ground arith

dispatch_task-owned :
    (now : ℕ) (task_id task_ref : Text) (result : DispatchResult) (t u : Task) (o : Outcome)
    → dispatch_task now task_id task_ref result t ≡ ok (u, o)
    → owned u ≡ none
unfolding dispatch_task
dispatch_task-owned now task_id task_ref result t u o h =
    dispatch_at-owned now task_id task_ref t.phase result t u o h

module _ (canon : Canon) (now : ℕ) (task_id : Text) where
  -- A task of a valid ledger replaced by what a walk makes of it, where that owns no target.
  released-IsValidLedger :
      (t u : Task) (l : Ledger)
      → lookup task_id l.tasks ≡ some t
      → Walk now t u
      → owned u ≡ none
      → All (BeforeNow canon now) l.tasks
      → IsValidLedger canon l
      → IsValidLedger canon (put_task task_id u l)
  released-IsValidLedger t u l at w own clock v =
      let valid = All-lookup (IsValidTask canon) task_id t l.tasks v.each at in
      let later = All-lookup (BeforeNow canon now) task_id t l.tasks clock at in
      put-IsValidLedger canon task_id t u l at (Keeps.task_ref (Walk-Keeps w)) (inr own)
        (Walk-IsValidTask canon now task_id w later valid) v

module _ (canon : Canon) (now : ℕ) (task_id task_ref : Text) {l l' : Ledger} {o : Outcome} where
  -- What record_dispatch_result stores is a valid ledger, where the ledger was valid and no task was
  -- created after now.
  pub dispatch_in_ledger-IsValidLedger :
      (result : DispatchResult)
      → All (BeforeNow canon now) l.tasks
      → IsValidLedger canon l
      → dispatch_in_ledger now task_id task_ref result l ≡ ok (l', o)
      → IsValidLedger canon l'
  unfolding dispatch_in_ledger
  dispatch_in_ledger-IsValidLedger result clock v h =
      let (t, at, h₁) = >>=-eq-ok (or_raise (lookup task_id l.tasks) Error.state_conflict) _ h in
      let (_, same, h₂) =
        >>=-eq-ok (guard (text_eq t.task_ref task_ref) Error.state_conflict) _ h₁ in
      let ((u, o₁), e, stored) = >>=-eq-ok (dispatch_task now task_id task_ref result t) _ h₂ in
      rw (store_and_prune-ledger task_id l l' u o₁ o stored) (
        prune-IsValidLedger canon _ (
          released-IsValidLedger canon now task_id t u l (ground (arith, at))
            (dispatch_task-Walk now task_id task_ref result e)
            (dispatch_task-owned now task_id task_ref result t u o₁ e) clock v))
