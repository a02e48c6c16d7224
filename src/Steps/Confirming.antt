-- ===== src/Steps/Confirming.antt =====
-- confirm_dispatch of governance_dispatch.py on a whole ledger: what it stores is a valid ledger.
use subagent_governance.Base.{
  ℕ, is_text, Text, text_eq, Dict, lookup, ◌≡◌, refl, sym, arith, Option, none, some, true,
  Bool-cases, [], ◌⊎◌, inl, inr, ok, Error, or_raise, >>=-eq-ok, length-insert_old,
}
use subagent_governance.Semantics.{Phase, ReconcileCode}
use subagent_governance.Contract.Canon.{Canon}
use subagent_governance.Ledger.{Task, Ledger, put_task, is_option}
use subagent_governance.Retention.{prune_closed_tasks, within_capacity}
use subagent_governance.Retention.Open.{Unique}
use subagent_governance.Lifecycle.{Outcome, enter_reconcile, reconciled, with_inputs}
use subagent_governance.Dispatch.{
  find_owner, mismatch, confirm_again, confirm_closed, confirm_claimed, confirm_at, confirm_task,
  confirm_in_ledger, bound_task,
}
use subagent_governance.State.{owned}
use subagent_governance.State.Fields.{field_issues}
use subagent_governance.State.Valid.{IsValidTask}
use subagent_governance.State.Ledgers.{IsValidLedger, All, free}
use subagent_governance.State.Replacing.{All-lookup, All-insert, Refs-insert}
use subagent_governance.Steps.Targets.{Targets-bind}
use subagent_governance.Steps.Claims.{prune-All}
use subagent_governance.Steps.Dispatching.{confirm_task-Walk}
use subagent_governance.Steps.History.{Keeps}
use subagent_governance.Steps.Retained.{Walk-Keeps}
use subagent_governance.Steps.Validity.{Walk-IsValidTask}
use subagent_governance.Steps.Ledgers.{
  BeforeNow, put-IsValidLedger, prune-IsValidLedger, with_inputs-task,
}

-- What a confirmation does to the target that a task owns.
data Owning (task_id target : Text) (d : Dict Task) (t u : Task) : Type 0 where
  kept : (owned u ≡ owned t) ⊎ (owned u ≡ none) → Owning task_id target d t u
  taking :
      owned t ≡ none
      → owned u ≡ some target
      → find_owner task_id target d ≡ none
      → Owning task_id target d t u

module _ (canon : Canon) (now : ℕ) (task_id task_ref target : Text) (d : Dict Task) where
  entered-owned :
      (code : ReconcileCode) (p : Phase) (t u : Task)
      → t.phase ≡ p
      → IsValidTask canon task_id t
      → enter_reconcile code now t ≡ ok u
      → (owned u ≡ owned t) ⊎ (owned u ≡ none)
  unfolding enter_reconcile reconciled field_issues
  entered-owned code Phase.prepared t u e v h = inr (ground (arith, v.shape, e, h))
  entered-owned code Phase.claimed t u e v h = inr (ground (arith, v.shape, e, h))
  entered-owned code Phase.bound t u e v h = inl (ground (arith, e, h))
  entered-owned code Phase.terminal t u e v h = inl (ground (arith, e, h))
  entered-owned code Phase.reconcile t u e v h = inl (ground (arith, e, h))
  entered-owned code Phase.closed t u e v h = absurd (ground (arith, e, h))

  mismatch-Owning :
      (code : ReconcileCode) (ref : Text) (goal : Option Text) (t u : Task) (o : Outcome)
      → IsValidTask canon task_id t
      → mismatch now task_id task_ref target code ref goal t ≡ ok (u, o)
      → Owning task_id target d t u
  unfolding mismatch
  mismatch-Owning code ref goal t u o v h =
      let (u', e, last) = >>=-eq-ok (enter_reconcile code now t) _ h in
      let same : u' ≡ u = ground (arith, last) in
      Owning.kept (rw (sym same) (entered-owned code t.phase t u' refl v e))

  confirm_claimed-Owning :
      (owner : Option (Text × Task)) (t u : Task) (o : Outcome)
      → find_owner task_id target d ≡ owner
      → t.phase ≡ Phase.claimed
      → IsValidTask canon task_id t
      → confirm_claimed now task_id task_ref target owner t ≡ ok (u, o)
      → Owning task_id target d t u
  unfolding confirm_claimed bound_task
  confirm_claimed-Owning none t u o f e v h =
      Owning.taking (ground (arith, e)) (ground (arith, h)) f
  confirm_claimed-Owning (some owner) t u o f e v h =
      let (u', entered, last) =
        >>=-eq-ok (enter_reconcile ReconcileCode.dispatch_target_already_bound now t) _ h in
      let same : u' ≡ u = ground (arith, last) in
      Owning.kept (
        rw (sym same) (
          entered-owned ReconcileCode.dispatch_target_already_bound Phase.claimed t u' e v entered))

  confirm_again-Owning :
      (t u : Task) (o : Outcome)
      → IsValidTask canon task_id t
      → confirm_again now task_id task_ref target t ≡ ok (u, o)
      → Owning task_id target d t u
  unfolding confirm_again
  confirm_again-Owning t u o v h = elim (Bool-cases (is_option t.target target)) [
    | inl same ↦ Owning.kept (inl (ground (arith, same, h)))
    | inr other ↦
        mismatch-Owning ReconcileCode.dispatch_target_conflict task_ref t.target t u o v
          (ground (arith, other, h))
  ]

  confirm_at-Owning :
      (p : Phase) (t u : Task) (o : Outcome)
      → t.phase ≡ p
      → IsValidTask canon task_id t
      → confirm_at now task_id task_ref target p d t ≡ ok (u, o)
      → Owning task_id target d t u
  unfolding confirm_at confirm_closed
  confirm_at-Owning Phase.closed t u o e v h = Owning.kept (inl (ground (arith, h)))
  confirm_at-Owning Phase.bound t u o e v h = confirm_again-Owning t u o v h
  confirm_at-Owning Phase.terminal t u o e v h = confirm_again-Owning t u o v h
  confirm_at-Owning Phase.reconcile t u o e v h = Owning.kept (inl (ground (arith, h)))
  confirm_at-Owning Phase.prepared t u o e v h =
      mismatch-Owning ReconcileCode.dispatch_claim_missing task_ref none t u o v h
  confirm_at-Owning Phase.claimed t u o e v h =
      confirm_claimed-Owning (find_owner task_id target d) t u o refl e v h

  confirm_task-Owning :
      (t u : Task) (o : Outcome)
      → IsValidTask canon task_id t
      → confirm_task now task_id task_ref target d t ≡ ok (u, o)
      → Owning task_id target d t u
  unfolding confirm_task
  confirm_task-Owning t u o v h = elim (Bool-cases (text_eq t.task_ref task_ref)) [
    | inl same ↦ confirm_at-Owning t.phase t u o refl v (ground (arith, same, h))
    | inr other ↦
        mismatch-Owning ReconcileCode.dispatch_identity_mismatch t.task_ref none t u o v
          (ground (arith, other, h))
  ]

module _ (canon : Canon) (now : ℕ) (task_id task_ref target : Text) where
  owned-IsValidLedger :
      (t u : Task) (l : Ledger)
      → lookup task_id l.tasks ≡ some t
      → Unique l.tasks
      → u.task_ref ≡ t.task_ref
      → Owning task_id target l.tasks t u
      → IsValidTask canon task_id u
      → IsValidLedger canon l
      → IsValidLedger canon (put_task task_id u l)
  owned-IsValidLedger t u l at unique ref (Owning.kept own) valid v =
      put-IsValidLedger canon task_id t u l at ref own valid v
  owned-IsValidLedger t u l at unique ref (Owning.taking before after free) valid v = record {
    session = v.session;
    few = rw (length-insert_old task_id u t l.tasks at) v.few;
    each = All-insert _ task_id u l.tasks v.each valid;
    refs = Refs-insert [] task_id t u l.tasks at ref v.refs;
    targets = Targets-bind task_id target t u [] l.tasks at unique before after free refl v.targets;
  }

  -- What confirm_dispatch stores is a valid ledger, where the ledger was valid, no key stood twice in
  -- it, no task was created after now, and the target has the form that the request requires.
  pub confirm_in_ledger-IsValidLedger :
      (l l' : Ledger) (o : Outcome)
      → is_text 1024 target ≡ true
      → Unique l.tasks
      → All (BeforeNow canon now) l.tasks
      → IsValidLedger canon l
      → confirm_in_ledger now task_id task_ref target l ≡ ok (l', o)
      → IsValidLedger canon l'
  unfolding confirm_in_ledger
  confirm_in_ledger-IsValidLedger l l' o known unique clock v h =
      let kept = (prune_closed_tasks within_capacity l).0 in
      let (unique', clock') = prune-All (BeforeNow canon now) l unique clock in
      let v' = prune-IsValidLedger canon l v in
      let (t, found, h₁) =
        >>=-eq-ok (or_raise (lookup task_id kept.tasks) Error.state_conflict) _ h in
      let at : lookup task_id kept.tasks ≡ some t = ground (arith, found) in
      let ((u, o₁), e, h₂) =
        >>=-eq-ok (confirm_task now task_id task_ref target kept.tasks t) _ h₁ in
      let ((u', o₂), inputs, stored) = >>=-eq-ok (with_inputs task_id (u, o₁)) _ h₂ in
      let valid = All-lookup (IsValidTask canon) task_id t kept.tasks v'.each at in
      let later = All-lookup (BeforeNow canon now) task_id t kept.tasks clock' at in
      let w = confirm_task-Walk now task_id task_ref target kept.tasks known e in
      let done =
        owned-IsValidLedger t u kept at unique' (Keeps.task_ref (Walk-Keeps w))
          (confirm_task-Owning canon now task_id task_ref target kept.tasks t u o₁ valid e)
          (Walk-IsValidTask canon now task_id w later valid) v' in
      let task : u' ≡ u = with_inputs-task task_id u u' o₁ o₂ inputs in
      let same : put_task task_id u kept ≡ l' = ground (arith, task, stored) in rw (sym same) done
