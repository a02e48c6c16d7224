-- ===== src/Steps/Dispatching.antt =====
-- The transitions of governance_dispatch.py are walks of the step relation.
use subagent_governance.Base.{
  ℕ, Text, is_text, text_eq, Dict, ◌≡◌, refl, true, arith, Option, none, some, Bool-cases, inl, inr,
  ok, Result, >>=-eq-ok,
}
use subagent_governance.Json.{Value}
use subagent_governance.Semantics.{Phase, ReconcileCode}
use subagent_governance.Contract.{Manifest, Verification}
use subagent_governance.Contract.Canon.{Canon}
use subagent_governance.Ledger.{Task, is_option}
use subagent_governance.Lifecycle.{Outcome, enter_reconcile}
use subagent_governance.Dispatch.{
  mismatch, confirm_again, confirm_closed, confirm_claimed, confirm_at, confirm_task, find_owner,
  DispatchResult, dispatch_at, dispatch_task,
}
use subagent_governance.Dispatch.Claim.{
  claimed_task, claim_prepared, claim_again, claim_at, claim_task,
}
use subagent_governance.Steps.{Step, Walk, stay, one}

enter_reconcile-Walk :
    (code : ReconcileCode) (now : ℕ) {t u : Task} → enter_reconcile code now t ≡ ok u → Walk now t u
unfolding enter_reconcile
enter_reconcile-Walk code now {t} {u} h = go t.phase refl
  where
    go : (p : Phase) → t.phase ≡ p → Walk now t u
    go Phase.closed e = absurd (ground arith)
    go Phase.reconcile e = stay (ground arith)
    go p e = one (Step.set_aside code (ground arith) (ground arith))

module _ (now : ℕ) (task_id task_ref target : Text) {t u : Task} {o : Outcome} where
  mismatch-Walk :
      (code : ReconcileCode) (ref : Text) (shown : Option Text)
      → mismatch now task_id task_ref target code ref shown t ≡ ok (u, o)
      → Walk now t u
  unfolding mismatch
  mismatch-Walk code ref shown h =
      let (w, e, f) = >>=-eq-ok (enter_reconcile code now t) _ h in
      enter_reconcile-Walk code now (ground (arith, e, f))

  confirm_again-Walk : confirm_again now task_id task_ref target t ≡ ok (u, o) → Walk now t u
  unfolding confirm_again
  confirm_again-Walk h = elim (Bool-cases (is_option t.target target)) [
    | inl same ↦ stay (ground arith)
    | inr other ↦
        mismatch-Walk ReconcileCode.dispatch_target_conflict task_ref t.target (ground arith)
  ]

  confirm_closed-Walk : confirm_closed now task_id task_ref target t ≡ ok (u, o) → Walk now t u
  unfolding confirm_closed
  confirm_closed-Walk h = stay (ground arith)

  confirm_claimed-Walk :
      (owner : Option (Text × Task))
      → t.phase ≡ Phase.claimed
      → is_text 1024 target ≡ true
      → confirm_claimed now task_id task_ref target owner t ≡ ok (u, o)
      → Walk now t u
  unfolding confirm_claimed
  confirm_claimed-Walk none p a h = one (Step.bind target p a (ground arith))
  confirm_claimed-Walk (some owner) p a h =
      let code = ReconcileCode.dispatch_target_already_bound in
      let (w, e, f) = >>=-eq-ok (enter_reconcile code now t) _ h in
      enter_reconcile-Walk code now (ground (arith, e, f))

  confirm_at-Walk :
      (p : Phase) (d : Dict Task)
      → t.phase ≡ p
      → is_text 1024 target ≡ true
      → confirm_at now task_id task_ref target p d t ≡ ok (u, o)
      → Walk now t u
  unfolding confirm_at
  confirm_at-Walk Phase.closed d p a h = confirm_closed-Walk h
  confirm_at-Walk Phase.bound d p a h = confirm_again-Walk h
  confirm_at-Walk Phase.terminal d p a h = confirm_again-Walk h
  confirm_at-Walk Phase.reconcile d p a h = stay (ground arith)
  confirm_at-Walk Phase.prepared d p a h =
      mismatch-Walk ReconcileCode.dispatch_claim_missing task_ref none h
  confirm_at-Walk Phase.claimed d p a h = confirm_claimed-Walk (find_owner task_id target d) p a h

  -- What confirm_dispatch makes of a task beside the others of its ledger, where it returns and the
  -- target has the form that the request requires, is a walk of the step relation from the task.
  pub confirm_task-Walk :
      (d : Dict Task)
      → is_text 1024 target ≡ true
      → confirm_task now task_id task_ref target d t ≡ ok (u, o)
      → Walk now t u
  unfolding confirm_task
  confirm_task-Walk d a h = elim (Bool-cases (text_eq t.task_ref task_ref)) [
    | inl same ↦ confirm_at-Walk t.phase d refl a (ground arith)
    | inr other ↦
        mismatch-Walk ReconcileCode.dispatch_identity_mismatch t.task_ref none (ground arith)
  ]

module _ (now : ℕ) (task_id task_ref : Text) {t u : Task} {o : Outcome} where
  dispatch_at-Walk :
      (p : Phase) (result : DispatchResult)
      → t.phase ≡ p
      → dispatch_at now task_id task_ref p result t ≡ ok (u, o)
      → Walk now t u
  unfolding dispatch_at
  dispatch_at-Walk Phase.prepared result p h = one (Step.give_up result (rw p refl) (ground arith))
  dispatch_at-Walk Phase.claimed result p h = one (Step.give_up result (rw p refl) (ground arith))
  dispatch_at-Walk Phase.bound result p h = absurd (cc)
  dispatch_at-Walk Phase.terminal result p h = absurd (cc)
  dispatch_at-Walk Phase.closed result p h = absurd (cc)
  dispatch_at-Walk Phase.reconcile result p h = absurd (cc)

  -- What record_dispatch_result makes of a task, where it returns, is a walk of the step relation
  -- from the task.
  pub dispatch_task-Walk :
      (result : DispatchResult)
      → dispatch_task now task_id task_ref result t ≡ ok (u, o)
      → Walk now t u
  unfolding dispatch_task
  dispatch_task-Walk result h = dispatch_at-Walk t.phase result refl h

module _ (canon : Canon) (verify : Manifest → Result Verification) (now : ℕ)
    (task_ref tool_use_id : Text) (tool_input : Value) (t : Task) {u : Task} {o : Outcome} where
  claim_again-same :
      (task_id : Text)
      → claim_again canon verify now task_ref tool_use_id tool_input task_id t ≡ ok (u, o)
      → u ≡ t
  unfolding claim_again
  claim_again-same task_id h = ground arith

  claim_prepared-same :
      (task_id : Text)
      → claim_prepared canon verify now task_ref tool_use_id tool_input task_id t ≡ ok (u, o)
      → u ≡ claimed_task now tool_use_id t
  unfolding claim_prepared
  claim_prepared-same task_id h = ground arith

module _ (canon : Canon) (verify : Manifest → Result Verification) (now : ℕ)
    (task_ref tool_use_id : Text) (tool_input : Value) {t u : Task} {o : Outcome} where
  claim_at-Walk :
      (p : Phase) (task_id : Text)
      → t.phase ≡ p
      → is_text 1024 tool_use_id ≡ true
      → claim_at canon verify now task_ref tool_use_id tool_input p task_id t ≡ ok (u, o)
      → Walk now t u
  unfolding claim_at claimed_task
  claim_at-Walk Phase.claimed task_id p a h =
      stay (claim_again-same canon verify now task_ref tool_use_id tool_input t task_id h)
  claim_at-Walk Phase.prepared task_id p a h = one (
      Step.claim tool_use_id p a
        (claim_prepared-same canon verify now task_ref tool_use_id tool_input t task_id h))
  claim_at-Walk Phase.bound task_id p a h = absurd (cc)
  claim_at-Walk Phase.terminal task_id p a h = absurd (cc)
  claim_at-Walk Phase.closed task_id p a h = absurd (cc)
  claim_at-Walk Phase.reconcile task_id p a h = absurd (cc)

  -- What claim_spawn makes of a task, where it returns and the tool_use_id has no surrounding space
  -- and 1 to 1024 characters, is a walk of the step relation from the task.
  pub claim_task-Walk :
      (task_id : Text)
      → is_text 1024 tool_use_id ≡ true
      → claim_task canon verify now task_ref tool_use_id tool_input task_id t ≡ ok (u, o)
      → Walk now t u
  unfolding claim_task
  claim_task-Walk task_id a h = claim_at-Walk t.phase task_id refl a h
